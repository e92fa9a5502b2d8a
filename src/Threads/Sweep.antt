-- ===== src/Threads/Sweep.antt =====
-- A sequential explanation of flushes that take the shards' mutexes one after the other
-- (flush_completed_windows and flush_remaining_windows of
-- app/src/runtime/MarketDataPipeline.cpp): an add that comes while a flush is on stands before
-- the flush when its shard is still ahead, and behind the flush otherwise.
pub mod Steps
use mathlib.Core.Path.{subst}
use binance_aggregator.Prelude.{
  ℕ, suc, ◌≤◌, ◌<◌, ◌≡◌, refl, sym, ap, ◌∙◌, inl, inr, false, List, [], ◌∷◌, ◌++◌, append_assoc,
  append-nil, Bytes, arith, ◌==◌, if◌then◌else◌, All, All-append, All-map, keep-append, Bool-cases,
  ==_iff,
}
use binance_aggregator.Aggregation.{TradeEvent, WindowStats, MarketDataAggregator}
use binance_aggregator.Writer.{write_windows}
use binance_aggregator.Pipeline.{Event, traded, ticked, stopped}
use binance_aggregator.Pipeline.Book.{traded_of, traded_of-append, flushes_of}
use binance_aggregator.Threads.{shard_of, for_shard}
use binance_aggregator.Threads.Sequence.{
  Flush, completed, remaining, extraction, event_of, step_at, follow, emitted, output, gather,
  gather_last, gather-congr, follow-append, output-append, trade_at,
}

module _ (hash : Bytes → ℕ) (n window_ms : ℕ) (f : ℕ → MarketDataAggregator) where
  -- The aggregator of shard `i` after the events.
  abbrev now_at : ℕ → List Event → MarketDataAggregator
  now_at i es = follow hash n window_ms i es (f i)

  abbrev trades_at : ℕ → List Event → List TradeEvent
  trades_at i es = for_shard hash n i (traded_of es)

  -- An add in a shard below `k`.
  abbrev IsLate : ℕ → Event → Type 0
  IsLate k (traded t) = shard_of hash n t < k
  IsLate k (ticked now) = ⊥
  IsLate k stopped = ⊥

  -- Between flushes: the aggregators, the texts and the trades are those of the events.
  pub record Idle (aggs : ℕ → MarketDataAggregator) (written : List Bytes)
      (added : ℕ → List TradeEvent) (es : List Event) : Type 0 where
    pub aggregators : (i : ℕ) → i < n → aggs i ≡ now_at i es
    pub texts : written ≡ output hash n window_ms es f
    pub trades : (i : ℕ) → i < n → added i ≡ trades_at i es

  -- In a flush with shard `k` next: the events `es` stand before it, `late` behind it.
  pub record Sweeping (flush : Flush) (k : ℕ) (ws : List WindowStats)
      (aggs : ℕ → MarketDataAggregator) (written : List Bytes) (added : ℕ → List TradeEvent)
      (es late : List Event) : Type 0 where
    pub behind :
        (i : ℕ)
        → i < k
        → i < n
        → aggs i
          ≡ follow hash n window_ms i late
              (step_at hash n window_ms i (event_of flush) (now_at i es))
    pub ahead : (i : ℕ) → k ≤ i → i < n → aggs i ≡ now_at i es
    pub windows : ws ≡ gather (extraction window_ms flush) (λ i. now_at i es) 0 k
    pub texts : written ≡ output hash n window_ms es f
    pub trades : (i : ℕ) → i < n → added i ≡ trades_at i es ++ trades_at i late
    pub passed : All (IsLate k) late

  now_at-add :
      (i : ℕ) (es : List Event) (t : TradeEvent)
      → now_at i (es ++ traded t ∷ []) ≡ trade_at (shard_of hash n t) t i (now_at i es)
  now_at-add i es t = follow-append hash n window_ms i es (traded t ∷ []) (f i)

  pub trades_at-append :
      (i : ℕ) (es ds : List Event) → trades_at i (es ++ ds) ≡ trades_at i es ++ trades_at i ds
  trades_at-append i es ds =
      ap (for_shard hash n i) (traded_of-append es ds)
      ∙ keep-append (λ t. shard_of hash n t == i) (traded_of es) (traded_of ds)

  output-add :
      (es : List Event) (t : TradeEvent)
      → output hash n window_ms (es ++ traded t ∷ []) f ≡ output hash n window_ms es f
  output-add es t = output-append hash n window_ms es (traded t ∷ []) f ∙ append-nil _

  follow-late :
      (i k : ℕ) (es : List Event) (agg : MarketDataAggregator)
      → k ≤ i
      → All (IsLate k) es
      → follow hash n window_ms i es agg ≡ agg
  follow-late i k [] agg l h = refl
  follow-late i k (traded t ∷ es) agg l h = ground (arith, h.0, follow-late i k es agg l h.1)
  follow-late i k (ticked now ∷ es) agg l h = absurd (h.0)
  follow-late i k (stopped ∷ es) agg l h = absurd (h.0)

  pub trades_at-late : (i k : ℕ) (es : List Event) → k ≤ i → All (IsLate k) es → trades_at i es ≡ []
  trades_at-late i k [] l h = refl
  trades_at-late i k (traded t ∷ es) l h = ground (arith, h.0, trades_at-late i k es l h.1)
  trades_at-late i k (ticked now ∷ es) l h = absurd (h.0)
  trades_at-late i k (stopped ∷ es) l h = absurd (h.0)

  output-late :
      (k : ℕ) (es : List Event) (g : ℕ → MarketDataAggregator)
      → All (IsLate k) es
      → output hash n window_ms es g ≡ []
  output-late k [] g h = refl
  output-late k (traded t ∷ es) g h = output-late k es _ h.1
  output-late k (ticked now ∷ es) g h = absurd (h.0)
  output-late k (stopped ∷ es) g h = absurd (h.0)

  -- What stands behind a flush that is on are adds.
  pub flushes_of-late : (k : ℕ) (es : List Event) → All (IsLate k) es → flushes_of es ≡ []
  flushes_of-late k [] h = refl
  flushes_of-late k (traded t ∷ es) h = flushes_of-late k es h.1
  flushes_of-late k (ticked now ∷ es) h = absurd (h.0)
  flushes_of-late k (stopped ∷ es) h = absurd (h.0)

  suc-IsLate : (k : ℕ) (e : Event) → IsLate k e → IsLate (suc k) e
  suc-IsLate k (traded t) h = omega (arith, h)
  suc-IsLate k (ticked now) h = h
  suc-IsLate k stopped h = h

  -- A trade at the end of those of one shard.
  abbrev pub append_at : ℕ → TradeEvent → ℕ → List TradeEvent → List TradeEvent
  append_at k t i ts = if k == i then ts ++ t ∷ [] else ts

  trades_at-add :
      (i : ℕ) (es : List Event) (t : TradeEvent)
      → trades_at i (es ++ traded t ∷ []) ≡ append_at (shard_of hash n t) t i (trades_at i es)
  trades_at-add i es t =
      ground (arith, trades_at-append i es (traded t ∷ []), append-nil (trades_at i es))

  trade_at-other :
      (k : ℕ) (t : TradeEvent) (i : ℕ) (agg : MarketDataAggregator)
      → i < k
      → trade_at k t i agg ≡ agg
  trade_at-other k t i agg l = ground (arith, l)

  trades_at-ahead :
      (i k : ℕ) (es late : List Event) (t : TradeEvent)
      → k ≤ shard_of hash n t
      → All (IsLate k) late
      → append_at (shard_of hash n t) t i (trades_at i es ++ trades_at i late)
        ≡ trades_at i (es ++ traded t ∷ []) ++ trades_at i late
  trades_at-ahead i k es late t b h = elim (Bool-cases (shard_of hash n t == i)) [
    | inr other ↦ ground (arith, other, trades_at-add i es t)
    | inl same ↦ ground (
      arith,
      same,
      trades_at-add i es t,
      trades_at-late i k late (omega (arith, (==_iff (shard_of hash n t) i).0 same, b)) h,
      append-nil (trades_at i es),
      append-nil (trades_at i es ++ t ∷ []),
    )
  ]
