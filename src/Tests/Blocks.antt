-- ===== src/Tests/Blocks.antt =====
-- Runs of app/src/output/StatsSerializer.cpp and write_windows on several windows.
use binance_aggregator.Prelude.{
  ℕ, ◌≡◌, refl, Bool, true, false, List, [], ◌∷◌, Bytes, codes, arith, ◌==◌, if◌then◌else◌, map,
}
use binance_aggregator.Prelude.Fields.{Lacks}
use binance_aggregator.StrictOrder.{same, text_lt}
use binance_aggregator.Output.{StatsSnapshot, serialize, serialize_windows, format_iso8601_utc}
use binance_aggregator.Output.Reading.{IsReadable}
use binance_aggregator.Output.Blocks.{IsBlock, shown, serialize-injective}
use binance_aggregator.Writer.{write_windows}
use binance_aggregator.Writer.Lookup.{found}
use binance_aggregator.Writer.Snapshots.{IsListing, write_windows-IsListing}
use binance_aggregator.Pipeline.{new, run}
use binance_aggregator.Pipeline.Book.{batches}
use binance_aggregator.Pipeline.Accounts.{Writes, run-Writes}
use binance_aggregator.Pipeline.Determined.{Writes-eq}
use binance_aggregator.Tests.Pipelines.{bitcoin_window, later_window, events}

lacks : ℕ → Bytes → Bool
lacks c [] = true
lacks c (x ∷ s) = if x == c then false else lacks c s

lacks-Lacks : (c : ℕ) (s : Bytes) → lacks c s ≡ true → Lacks c s
unfolding lacks
lacks-Lacks c [] h = tt
lacks-Lacks c (x ∷ s) h = ground (arith, lacks-Lacks c s)

pub bitcoin-Lacks : Lacks b' ' (codes "BTCUSDT")
unfolding lacks
bitcoin-Lacks = lacks-Lacks b' ' (codes "BTCUSDT") refl

bitcoin_window-IsReadable : IsReadable bitcoin_window
bitcoin_window-IsReadable = record {
  one_word = bitcoin-Lacks;
  volume = record { upper = omega arith; lower = omega arith };
  lowest = record { upper = omega arith; lower = omega arith };
  highest = record { upper = omega arith; lower = omega arith };
}

-- Two starts in one second.
abbrev early : StatsSnapshot
early = record { window_start_ms = 1000; windows = bitcoin_window ∷ [] }

abbrev late : StatsSnapshot
late = record { window_start_ms = 1500; windows = bitcoin_window ∷ [] }

early-IsBlock : IsBlock early
early-IsBlock = record { some_window = λ e. cc; readable = (bitcoin_window-IsReadable, tt) }

late-IsBlock : IsBlock late
late-IsBlock = record { some_window = λ e. cc; readable = (bitcoin_window-IsReadable, tt) }

serialize-injective_example : map shown (early ∷ early ∷ []) ≡ map shown (early ∷ late ∷ [])
unfolding serialize serialize_windows format_iso8601_utc
serialize-injective_example =
    serialize-injective (early ∷ early ∷ []) (early ∷ late ∷ [])
      (early-IsBlock, (early-IsBlock, tt)) (early-IsBlock, (late-IsBlock, tt)) refl

write_windows-IsListing_example :
    (snapshots : List StatsSnapshot) × (write_windows (later_window ∷ bitcoin_window ∷ [])
      ≡ map serialize snapshots)
    × IsListing (later_window ∷ bitcoin_window ∷ []) snapshots
unfolding found same text_lt
write_windows-IsListing_example =
    write_windows-IsListing (later_window ∷ bitcoin_window ∷ []) (refl, (refl, tt))

run-Writes_example :
    Writes 1000 (batches 1000 [] events) (run (λ s. 7) (new 1000 5000 10 1) events).written
run-Writes_example = run-Writes (λ s. 7) 1000 5000 10 1 events

Writes-eq_example :
    (run (λ s. 7) (new 1000 5000 10 1) events).written
    ≡ (run (λ s. 3) (new 1000 5000 10 4) events).written
Writes-eq_example =
    Writes-eq 1000 (run-Writes (λ s. 7) 1000 5000 10 1 events)
      (run-Writes (λ s. 3) 1000 5000 10 4 events)
