-- ===== src/Threads/CatchUp.antt =====
-- While the pipeline runs, its threads can bring every accepted trade into the aggregator of its shard
-- (app/src/runtime/MarketDataPipeline.cpp).
use mathlib.Core.Path.{subst}
use binance_aggregator.Prelude.{
  ℕ, ◌≤◌, ◌<◌, ◌≡◌, refl, ap, sym, ◌∙◌, List, [], ◌++◌, append-nil, Bytes, arith, inl, inr,
}
use binance_aggregator.Json.{JsonLibrary}
use binance_aggregator.Threads.{not_called, System, for_shard, Reach}
use binance_aggregator.Threads.Control.{IsShardOrdered, Reach-IsOrdered, Reach-IsShardOrdered}
use binance_aggregator.Threads.Bounded.{Reach-HasCapacity}
use binance_aggregator.Threads.Flow.{trades_of, unadded, unrouted, Flows}
use binance_aggregator.Threads.Delivery.{Reach-Flows}
use binance_aggregator.Threads.Load.{work}
use binance_aggregator.Threads.Termination.{Move-Works}
use binance_aggregator.Threads.Shutdown.{Moves, Descends, leads_to}
use binance_aggregator.Threads.Aggregators.{IsFedWith, running-IsFed}
use binance_aggregator.Threads.Feeding.{Feeds, parser-Feeds, workers-Feeds}

module _ (lib : JsonLibrary) (hash : Bytes → ℕ) (n window_ms : ℕ) where
  -- The thread of each shard has added every accepted trade.
  abbrev pub HasCaughtUp : System → Type 0
  HasCaughtUp s = (i : ℕ) → i < n → s.added i ≡ for_shard hash n i (trades_of lib s.accepted)

  caught_up :
      (s : System)
      → ((i : ℕ) → i < n → unadded lib hash n i s ≡ [])
      → unrouted lib hash n s ≡ []
      → ((i : ℕ) → Flows lib hash n i s)
      → HasCaughtUp s
  caught_up s h r f = λ i l. sym (
      f i
      ∙ ap (λ x. s.added i ++ (x ++ for_shard hash n i (unrouted lib hash n s))) (h i l)
      ∙ ap (λ x. s.added i ++ for_shard hash n i x) r
      ∙ append-nil (s.added i))

  module _ (c d : ℕ) (accepted : List Bytes) where
    -- The pipeline runs, and no further message is accepted.
    abbrev IsRunning : System → Type 0
    IsRunning s =
        Reach lib hash n window_ms c d s × (s.stopper ≡ not_called) × (s.accepted ≡ accepted)

    Feeds-Descends :
        {s t : System}
        → 0 < n
        → IsRunning s
        → Feeds lib hash n window_ms s t
        → Descends lib hash n window_ms HasCaughtUp IsRunning s
    Feeds-Descends {t = t} m (r, o, a) f = inr (
      t,
      f.move,
      (Move-Works lib hash n window_ms m f.move (inr f.writer)).0,
      (Reach.moves r f.move, f.stopper ∙ o, f.accepted ∙ a),
    )

    IsRunning-Descends :
        0 < n
        → 0 < d
        → (s : System) → IsRunning s
        → Descends lib hash n window_ms HasCaughtUp IsRunning s
    IsRunning-Descends m l s (r, o, a) =
        let ordered = Reach-IsOrdered lib hash n window_ms r in
        let shards : (i : ℕ) → i < n → IsShardOrdered i s =
          λ i k. Reach-IsShardOrdered lib hash n window_ms i k r in
        let room : (i : ℕ) → 0 < (s.shards i).queue.capacity =
          λ i. omega (arith, l, Reach-HasCapacity lib hash n window_ms r i) in
        elim (parser-Feeds lib hash n window_ms s s.parser m o ordered shards room refl) [
          | inr (t, f) ↦ Feeds-Descends m (r, o, a) f
          | inl routed ↦ elim (workers-Feeds lib hash n window_ms n s (omega arith) o shards) [
            | inr (t, f) ↦ Feeds-Descends m (r, o, a) f
            | inl idle ↦ inl (caught_up s idle routed (λ i. Reach-Flows lib hash n window_ms i m r))
          ]
        ]

  -- From every state that the threads reach before stop() is called, moves of the threads, at most as
  -- many as there is work left, can lead to a state with stop() not called and no further message
  -- accepted, in which the aggregator of each shard is what some trades and ticks make of a new one, by
  -- add_trade and extract_completed_windows: the trades of the shard among them are its trades of the
  -- messages accepted so far, in order, and the ticks are at times that the writer has read. The number of shards and the capacity of their queues are not 0.
  pub catches_up :
      {c d : ℕ} {s : System}
      → 0 < n
      → 0 < d
      → Reach lib hash n window_ms c d s
      → s.stopper ≡ not_called
      → (k : ℕ) × (t : System) × Moves lib hash n window_ms k s t
        × (t.stopper ≡ not_called)
        × (t.accepted ≡ s.accepted)
        × ((i : ℕ)
            → i < n
            → IsFedWith lib hash n window_ms i t (for_shard hash n i (trades_of lib s.accepted)))
        × (k ≤ work n s)
  catches_up {c} {d} {s} m l r o =
      let (k, t, xs, (running, open_still, same_messages), done, b) =
        leads_to lib hash n window_ms HasCaughtUp (IsRunning c d s.accepted)
          (IsRunning-Descends c d s.accepted m l) s (r, o, refl) in
      (
        k,
        t,
        xs,
        open_still,
        same_messages,
        λ i h.
            subst (IsFedWith lib hash n window_ms i t)
              (done i h ∙ ap (λ a. for_shard hash n i (trades_of lib a)) same_messages)
              (running-IsFed lib hash n window_ms i h running open_still),
        b,
      )
