-- ===== src/Threads/Refinement.antt =====
-- What is written when stop() has returned, against the sequential pipeline.
use binance_aggregator.Prelude.{
  ℕ, zero, suc, ◌≤◌, ◌<◌, ◌≡◌, refl, sym, ap, ◌∙◌, List, [], ◌∷◌, ◌++◌, append-nil, Bytes, arith,
  ltb-cases, replicate, length-replicate, inl, inr, map,
}
use native.Mathlib.Nat.{mod-lt}
use binance_aggregator.Aggregation
use binance_aggregator.Aggregation.{TradeEvent, MarketDataAggregator}
use binance_aggregator.Json.{JsonLibrary}
use binance_aggregator.Pipeline.{Shard, Event, ticked, stopped, new, max, run}
use binance_aggregator.Pipeline.Sharded.{new-written}
use binance_aggregator.Pipeline.ThreadCount.{run-new}
use binance_aggregator.Threads.{System, stop_returned, Reach, for_shard}
use binance_aggregator.Threads.Control.{workers_joined, Reach-IsOrdered, Reach-IsShardOrdered}
use binance_aggregator.Threads.Flow.{trades_of}
use binance_aggregator.Threads.Delivery.{Reach-Flows, stop-added}
use binance_aggregator.Threads.Sequence.{Agrees, Runs, output, run-output}
use binance_aggregator.Pipeline.Book.{traded_of, traded_of-append, flushes_of}
use binance_aggregator.Threads.Linear.{Linear, Explained-same, over, phase, start-Linear}
use binance_aggregator.Threads.Linear.Moves.{Move-Linear, Input-Linear}

replicate-Agrees :
    (f : ℕ → MarketDataAggregator) (x : Shard) (j m : ℕ)
    → ((i : ℕ) → x.aggregator ≡ f i)
    → Agrees f j (replicate m x)
replicate-Agrees f x j zero h = tt
replicate-Agrees f x j (suc m) h = (h j, replicate-Agrees f x (suc j) m h)

max-one : (n : ℕ) → 0 < n → max n 1 ≡ n
max-one n l = ground arith

new-Runs :
    (hash : Bytes → ℕ) (n window_ms interval capacity : ℕ)
    → 0 < n
    → Runs hash n window_ms (λ i. Aggregation.new window_ms) (new window_ms interval capacity n)
unfolding new
new-Runs hash n window_ms interval capacity l = record {
  count = length-replicate (max n 1) _ ∙ max-one n l;
  width = refl;
  agrees = replicate-Agrees (λ i. Aggregation.new window_ms) _ 0 (max n 1) (λ i. refl);
}

for_shard-outside :
    (hash : Bytes → ℕ) (n i : ℕ) (ts : List TradeEvent) → 0 < n → n ≤ i → for_shard hash n i ts ≡ []
for_shard-outside hash n i [] m l = refl
for_shard-outside hash n i (t ∷ ts) m l =
    ground (arith, mod-lt (hash t.symbol) m, for_shard-outside hash n i ts m l)

module _ (lib : JsonLibrary) (hash : Bytes → ℕ) (n window_ms : ℕ) where
  module _ {c d : ℕ} where
    pub Reach-Linear :
        0 < n → {s : System} → Reach lib hash n window_ms c d s → Linear lib hash n window_ms s
    Reach-Linear m Reach.started = start-Linear lib hash n window_ms c d
    Reach-Linear m (Reach.moves r step) =
        Move-Linear lib hash n window_ms (Reach-IsOrdered lib hash n window_ms r)
          (λ j l. Reach-IsShardOrdered lib hash n window_ms j l r)
          (λ j l. Reach-Flows lib hash n window_ms j m r) step (Reach-Linear m r)
    Reach-Linear m (Reach.inputs r step) = Input-Linear lib hash n window_ms step (Reach-Linear m r)

    pub stop-refines :
        (hash' : Bytes → ℕ) (interval capacity threads : ℕ)
        → 0 < n
        → {s : System} → Reach lib hash n window_ms c d s
        → s.stopper ≡ stop_returned
        → (es : List Event) × (s.written
            ≡ (run hash' (new window_ms interval capacity threads) (es ++ stopped ∷ [])).written)
          × (flushes_of es ≡ map ticked s.clock)
          × ((i : ℕ)
              → for_shard hash n i (traded_of es) ≡ for_shard hash n i (trades_of lib s.accepted))
    stop-refines hash' interval capacity threads m {s} r e =
        let ended : phase s.writer s.stopper ≡ over = ground (arith, e) in
        let (es, v, ticks) =
          Explained-same lib hash n window_ms s.written s.added s.clock ended (λ i. refl)
            (Reach-Linear m r) in
        (
          es,
          v.texts
              ∙ ap
                  (λ l.
                    l
                    ++ output hash n window_ms (es ++ stopped ∷ [])
                        (λ i. Aggregation.new window_ms))
                  (sym (new-written window_ms interval capacity n))
              ∙ sym (
                  run-output hash n window_ms (es ++ stopped ∷ []) (λ i. Aggregation.new window_ms)
                    _ (new-Runs hash n window_ms interval capacity m))
              ∙ run-new hash hash' window_ms interval capacity n threads (es ++ stopped ∷ []),
          ticks,
          λ i. elim (ltb-cases i n) [
            | inl l ↦
                ap (for_shard hash n i)
                  (sym (append-nil (traded_of es)) ∙ sym (traded_of-append es (stopped ∷ [])))
                ∙ sym (v.trades i l)
                ∙ stop-added lib hash n window_ms i l r (ap workers_joined e)
            | inr l ↦
                for_shard-outside hash n i (traded_of es) m l
                ∙ sym (for_shard-outside hash n i (trades_of lib s.accepted) m l)
          ],
        )
