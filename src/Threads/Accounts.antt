-- ===== src/Threads/Accounts.antt =====
-- What is written when stop() has returned, against the accepted messages.
use mathlib.Core.List.{Perm}
use mathlib.Core.List.Perm
use mathlib.Core.Path.{subst}
use native.Mathlib.Nat.{mod-lt}
use binance_aggregator.Prelude.{ℕ, ◌<◌, ◌≡◌, sym, List, [], ◌∷◌, ◌++◌, map, Bytes}
use binance_aggregator.Prelude.Perms.{concat, Perm_of_parts}
use binance_aggregator.Json.{JsonLibrary}
use binance_aggregator.Pipeline.{Event, ticked, stopped}
use binance_aggregator.Pipeline.Book.{batches, batches-Perm, traded_of, flushes_of}
use binance_aggregator.Pipeline.Accounts.{Writes, run-Writes}
use binance_aggregator.Threads.{System, stop_returned, Reach, shard_of, for_shard}
use binance_aggregator.Threads.Flow.{trades_of}
use binance_aggregator.Threads.Refinement.{stop-refines}

pub stop-accounts :
    (lib : JsonLibrary) (hash : Bytes → ℕ) (n window_ms : ℕ) {c d : ℕ}
    → 0 < n
    → {s : System} → Reach lib hash n window_ms c d s
    → s.stopper ≡ stop_returned
    → (es : List Event) × (flushes_of es ≡ map ticked s.clock)
      × ((i : ℕ)
          → for_shard hash n i (traded_of es) ≡ for_shard hash n i (trades_of lib s.accepted))
      × Perm (concat (batches window_ms [] (es ++ stopped ∷ []))) (trades_of lib s.accepted)
      × Writes window_ms (batches window_ms [] (es ++ stopped ∷ [])) s.written
stop-accounts lib hash n window_ms m {s} r e =
    let (es, texts, ticks, same_trades) = stop-refines lib hash n window_ms hash 0 0 0 m r e in
    (
      es,
      ticks,
      same_trades,
      Perm.trans (batches-Perm window_ms [] es) (
          Perm_of_parts (shard_of hash n) n (traded_of es) (trades_of lib s.accepted)
            (λ t. mod-lt (hash t.symbol) m) same_trades),
      subst (Writes window_ms (batches window_ms [] (es ++ stopped ∷ []))) (sym texts)
          (run-Writes hash window_ms 0 0 0 (es ++ stopped ∷ [])),
    )
