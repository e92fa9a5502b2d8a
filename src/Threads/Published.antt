-- ===== src/Threads/Published.antt =====
-- The texts written when stop() has returned, as snapshots that can be read.
use mathlib.Core.List.Perm
use binance_aggregator.Prelude.{
  ℕ, ◌<◌, ◌≡◌, List, [], ◌∷◌, Bytes, All, map, some, Option-cases, inl, inr,
}
use binance_aggregator.Aggregation.{TradeEvent}
use binance_aggregator.Json.{JsonLibrary}
use binance_aggregator.Threads.{System, stop_returned, Reach}
use binance_aggregator.Threads.Flow.{trades_of}
use binance_aggregator.Threads.Accounts.{stop-accounts}
use binance_aggregator.Prelude.Int.{IsI64, IsI64-IsProp}
use binance_aggregator.Prelude.Fields.{Lacks, Lacks-IsProp}
use binance_aggregator.Prelude.Perms.{All_of_Perm, All_of_concat}
use binance_aggregator.Decimal.Soundness.{parse-IsI64}
use binance_aggregator.TradeParser
use binance_aggregator.TradeParser.Meaning.{parse_iff}
use binance_aggregator.Output.{StatsSnapshot, serialize}
use binance_aggregator.Output.Blocks.{IsBlock}
use binance_aggregator.Writer.Snapshots.{IsSnapshot}
use binance_aggregator.Pipeline.Readable.{IsPlain, Writes-blocks}

-- The prices of parsed trades are int64_t, whatever the message was.
parse-price :
    (lib : JsonLibrary) (raw : Bytes) (t : TradeEvent)
    → TradeParser.parse lib raw ≡ some t
    → IsI64 t.price.raw
parse-price lib raw t e =
    let (root, parsed, object, announced) = (parse_iff lib raw t).0 e in
    parse-IsI64 announced.price_text announced.price_value

trades_of-IsPlain :
    (lib : JsonLibrary) (raws : List Bytes)
    → All (λ t. Lacks b' ' t.symbol) (trades_of lib raws)
    → All IsPlain (trades_of lib raws)
trades_of-IsPlain lib [] h = tt
trades_of-IsPlain lib (raw ∷ raws) h = elim (Option-cases (TradeParser.parse lib raw)) [
  | inl none_there ↦ rw none_there (trades_of-IsPlain lib raws (rw none_there at h))
  | inr (t, e) ↦
      let words : All (λ x. Lacks b' ' x.symbol) (t ∷ trades_of lib raws) = rw e at h in
      rw e (
        record { one_word = words.0; price = parse-price lib raw t e },
        trades_of-IsPlain lib raws words.1,
      )
]

IsPlain-IsProp : (t : TradeEvent) → IsProp (IsPlain t)
IsPlain-IsProp t = hlevel (Lacks-IsProp, IsI64-IsProp)

-- When stop() has returned, and no accepted trade has a space in its symbol, the texts written are
-- those of a list of snapshots. A snapshot has windows, all of its own start, in strictly growing
-- order of their symbols; no symbol has a space, and the volumes and prices are int64_t, so that
-- the texts can be read. The number of shards is not 0.
pub stop-publishes :
    (lib : JsonLibrary) (hash : Bytes → ℕ) (n window_ms : ℕ) {c d : ℕ}
    → 0 < n
    → {s : System} → Reach lib hash n window_ms c d s
    → s.stopper ≡ stop_returned
    → All (λ t. Lacks b' ' t.symbol) (trades_of lib s.accepted)
    → (snapshots : List StatsSnapshot) × (s.written ≡ map serialize snapshots)
      × All IsSnapshot snapshots
      × All IsBlock snapshots
stop-publishes lib hash n window_ms m {s} r e h =
    let (es, ticks, order, all_trades, texts) = stop-accounts lib hash n window_ms m r e in
    Writes-blocks window_ms texts (
      All_of_concat IsPlain _ (
        All_of_Perm IsPlain IsPlain-IsProp (Perm.symm all_trades)
          (trades_of-IsPlain lib s.accepted h)))
