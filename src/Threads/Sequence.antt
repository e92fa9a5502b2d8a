-- ===== src/Threads/Sequence.antt =====
-- The sequential pipeline of app/src/runtime/MarketDataPipeline.cpp seen shard by shard: what the
-- events make of the aggregator of one shard, and what the flushes write.
use mathlib.Core.Path.{subst}
use binance_aggregator.Prelude.{
  ℕ, zero, suc, ◌+◌, ◌≤◌, ◌<◌, ◌%◌, ◌≡◌, refl, sym, ap, ◌∙◌, List, [], ◌∷◌, ◌++◌, append_assoc,
  append-nil, Bytes, arith, ◌==◌, if◌then◌else◌, length,
}
use binance_aggregator.Aggregation.{
  TradeEvent, WindowStats, MarketDataAggregator, add_trade, extract_all_windows,
  extract_completed_windows,
}
use binance_aggregator.Writer.{write_windows}
use binance_aggregator.Pipeline.{
  Shard, MarketDataPipeline, modify, aggregate, extract_from, flush, flush_completed_windows,
  flush_remaining_windows, shard_index_for_symbol, Event, traded, ticked, stopped, handle, run,
}
use binance_aggregator.Pipeline.Sharded.{length-modify, length-extract_from}
use binance_aggregator.Threads.{shard_of, cutoff}

-- The two flushes, the first at a time.
pub data Flush : Type 0 where
  completed : ℕ → Flush
  remaining : Flush

abbrev pub Extract : Type 0
Extract = MarketDataAggregator → List WindowStats × MarketDataAggregator

abbrev pub extraction : ℕ → Flush → Extract
extraction window_ms (completed now) agg = extract_completed_windows agg (cutoff window_ms now)
extraction window_ms remaining agg = extract_all_windows agg

abbrev pub event_of : Flush → Event
event_of (completed now) = ticked now
event_of remaining = stopped

-- The windows of the shards from `j` on, `m` of them.
abbrev pub gather : Extract → (ℕ → MarketDataAggregator) → ℕ → ℕ → List WindowStats
gather ex f j zero = []
gather ex f j (suc m) = (ex (f j)).0 ++ gather ex f (suc j) m

pub gather_last :
    (ex : Extract) (f : ℕ → MarketDataAggregator) (j m k : ℕ)
    → k ≡ j + m
    → gather ex f j (suc m) ≡ gather ex f j m ++ (ex (f k)).0
gather_last ex f j zero k e = append-nil ((ex (f j)).0) ∙ ap (λ i. (ex (f i)).0) (omega (arith, e))
gather_last ex f j (suc m) k e =
    ap (◌++◌ ((ex (f j)).0)) (gather_last ex f (suc j) m k (omega (arith, e)))
    ∙ sym (append_assoc ((ex (f j)).0) (gather ex f (suc j) m) ((ex (f k)).0))

pub gather-congr :
    (ex : Extract) (f g : ℕ → MarketDataAggregator) (j m : ℕ)
    → ((i : ℕ) → i < j + m → f i ≡ g i)
    → gather ex f j m ≡ gather ex g j m
gather-congr ex f g j zero h = refl
gather-congr ex f g j (suc m) h =
    ground (arith, h j (omega arith), gather-congr ex f g (suc j) m (λ i l. h i (omega (arith, l))))

-- The list has the values of the family from `j` on.
abbrev pub Agrees : (ℕ → MarketDataAggregator) → ℕ → List Shard → Type 0
Agrees f j [] = Unit
Agrees f j (x ∷ xs) = (x.aggregator ≡ f j) × Agrees f (suc j) xs

congr-Agrees :
    (f g : ℕ → MarketDataAggregator) (j : ℕ) (xs : List Shard)
    → ((i : ℕ) → j ≤ i → f i ≡ g i)
    → Agrees f j xs
    → Agrees g j xs
congr-Agrees f g j [] h a = tt
congr-Agrees f g j (x ∷ xs) h a =
    (a.0 ∙ h j (omega arith), congr-Agrees f g (suc j) xs (λ i l. h i (omega (arith, l))) a.1)

extract_from-Agrees :
    (ex : Extract) (f : ℕ → MarketDataAggregator) (j : ℕ) (xs : List Shard)
    → Agrees f j xs
    → Agrees (λ i. (ex (f i)).1) j (extract_from ex xs).1
unfolding extract_from
extract_from-Agrees ex f j [] a = tt
extract_from-Agrees ex f j (x ∷ xs) a =
    (ap (λ y. (ex y).1) a.0, extract_from-Agrees ex f (suc j) xs a.1)

extract_from-gather :
    (ex : Extract) (f : ℕ → MarketDataAggregator) (j : ℕ) (xs : List Shard)
    → Agrees f j xs
    → (extract_from ex xs).0 ≡ gather ex f j (length xs)
unfolding extract_from
extract_from-gather ex f j [] a = refl
extract_from-gather ex f j (x ∷ xs) a =
    ap (λ y. (ex y).0 ++ (extract_from ex xs).0) a.0
    ∙ ap (◌++◌ ((ex (f j)).0)) (extract_from-gather ex f (suc j) xs a.1)

-- A trade in one shard.
abbrev pub trade_at : ℕ → TradeEvent → ℕ → MarketDataAggregator → MarketDataAggregator
trade_at k t i agg = if k == i then add_trade agg t else agg

modify-Agrees :
    (t : TradeEvent) (f : ℕ → MarketDataAggregator) (k j i : ℕ) (xs : List Shard)
    → i ≡ k + j
    → Agrees f j xs
    → Agrees (λ l. trade_at i t l (f l)) j (modify k (aggregate t) xs)
unfolding modify aggregate
modify-Agrees t f k j i [] e a = tt
modify-Agrees t f zero j i (x ∷ xs) e a = (
  ground (arith, a.0, e),
  congr-Agrees f (λ l. trade_at i t l (f l)) (suc j) xs (λ l h. ground (arith, h, e)) a.1,
)
modify-Agrees t f (suc k) j i (x ∷ xs) e a =
    (ground (arith, a.0, e), modify-Agrees t f k (suc j) i xs (omega (arith, e)) a.1)

module _ (hash : Bytes → ℕ) (n window_ms : ℕ) where
  -- What an event makes of the aggregator of shard `i`.
  abbrev pub step_at : ℕ → Event → MarketDataAggregator → MarketDataAggregator
  step_at i (traded t) agg = trade_at (shard_of hash n t) t i agg
  step_at i (ticked now) agg = (extraction window_ms (completed now) agg).1
  step_at i stopped agg = (extraction window_ms remaining agg).1

  abbrev pub follow : ℕ → List Event → MarketDataAggregator → MarketDataAggregator
  follow i [] agg = agg
  follow i (e ∷ es) agg = follow i es (step_at i e agg)

  -- What a flush of all shards writes.
  abbrev pub emitted : Event → (ℕ → MarketDataAggregator) → List Bytes
  emitted (traded t) f = []
  emitted (ticked now) f = write_windows (gather (extraction window_ms (completed now)) f 0 n)
  emitted stopped f = write_windows (gather (extraction window_ms remaining) f 0 n)

  abbrev pub output : List Event → (ℕ → MarketDataAggregator) → List Bytes
  output [] f = []
  output (e ∷ es) f = emitted e f ++ output es (λ i. step_at i e (f i))

  pub follow-append :
      (i : ℕ) (xs ys : List Event) (agg : MarketDataAggregator)
      → follow i (xs ++ ys) agg ≡ follow i ys (follow i xs agg)
  follow-append i [] ys agg = refl
  follow-append i (x ∷ xs) ys agg = follow-append i xs ys (step_at i x agg)

  pub output-append :
      (xs ys : List Event) (f : ℕ → MarketDataAggregator)
      → output (xs ++ ys) f ≡ output xs f ++ output ys (λ i. follow i xs (f i))
  output-append [] ys f = refl
  output-append (x ∷ xs) ys f =
      ap (◌++◌ (emitted x f)) (output-append xs ys (λ i. step_at i x (f i)))
      ∙ sym (append_assoc (emitted x f) _ _)

  -- A pipeline of `n` shards with windows of `window_ms` that has the aggregators of the family.
  pub record Runs (f : ℕ → MarketDataAggregator) (p : MarketDataPipeline) : Type 0 where
    pub count : length p.shards ≡ n
    pub width : p.window_ms ≡ window_ms
    pub agrees : Agrees f 0 p.shards

  flush-Runs :
      (ex : Extract) (f : ℕ → MarketDataAggregator) (p : MarketDataPipeline)
      → Runs f p
      → Runs (λ i. (ex (f i)).1) (flush ex p)
  unfolding flush
  flush-Runs ex f p r = record {
    count = length-extract_from ex p.shards ∙ r.count;
    width = r.width;
    agrees = extract_from-Agrees ex f 0 p.shards r.agrees;
  }

  flush_written :
      (ex : Extract) (f : ℕ → MarketDataAggregator) (p : MarketDataPipeline)
      → Runs f p
      → (flush ex p).written ≡ p.written ++ write_windows (gather ex f 0 n)
  unfolding flush
  flush_written ex f p r =
      ap (λ ws. p.written ++ write_windows ws)
        (extract_from-gather ex f 0 p.shards r.agrees ∙ ap (gather ex f 0) r.count)

  handle-Runs :
      (e : Event) (f : ℕ → MarketDataAggregator) (p : MarketDataPipeline)
      → Runs f p
      → Runs (λ i. step_at i e (f i)) (handle hash p e)
  unfolding handle flush_completed_windows flush_remaining_windows shard_index_for_symbol
  handle-Runs (traded t) f p r = record {
    count = length-modify (shard_index_for_symbol hash p t.symbol) (aggregate t) p.shards ∙ r.count;
    width = r.width;
    agrees =
        modify-Agrees t f (shard_index_for_symbol hash p t.symbol) 0 (shard_of hash n t) p.shards
          (omega (arith, ap (λ m. hash t.symbol % m) r.count)) r.agrees;
  }
  handle-Runs (ticked now) f p r =
      subst
        (λ w.
          Runs (λ i. (extract_completed_windows (f i) (cutoff w now)).1)
            (flush_completed_windows now p))
        r.width (flush-Runs (λ agg. extract_completed_windows agg (cutoff p.window_ms now)) f p r)
  handle-Runs stopped f p r = flush-Runs extract_all_windows f p r

  handle_written :
      (e : Event) (f : ℕ → MarketDataAggregator) (p : MarketDataPipeline)
      → Runs f p
      → (handle hash p e).written ≡ p.written ++ emitted e f
  unfolding handle flush_completed_windows flush_remaining_windows
  handle_written (traded t) f p r = sym (append-nil p.written)
  handle_written (ticked now) f p r =
      flush_written (λ agg. extract_completed_windows agg (cutoff p.window_ms now)) f p r
      ∙ ap
          (λ w.
            p.written
            ++ write_windows (gather (λ agg. extract_completed_windows agg (cutoff w now)) f 0 n))
          r.width
  handle_written stopped f p r = flush_written extract_all_windows f p r

  -- The texts of a sequential run are the output of its events.
  pub run-output :
      (es : List Event) (f : ℕ → MarketDataAggregator) (p : MarketDataPipeline)
      → Runs f p
      → (run hash p es).written ≡ p.written ++ output es f
  unfolding run
  run-output [] f p r = sym (append-nil p.written)
  run-output (e ∷ es) f p r =
      run-output es (λ i. step_at i e (f i)) (handle hash p e) (handle-Runs e f p r)
      ∙ ap (λ l. l ++ output es (λ i. step_at i e (f i))) (handle_written e f p r)
      ∙ append_assoc p.written (emitted e f) (output es (λ i. step_at i e (f i)))
