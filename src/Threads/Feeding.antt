-- ===== src/Threads/Feeding.antt =====
-- What a move of the parser or of an aggregation thread keeps, and that one of them can move while
-- there is a message or a trade to take (run_parser_stage and run_aggregation_stage of
-- app/src/runtime/MarketDataPipeline.cpp).
use native.Mathlib.Nat.{mod-lt}
use binance_aggregator.Prelude.{
  ℕ, zero, suc, ◌≤◌, ◌<◌, ◌≡◌, ◌⊎◌, refl, ap, ◌∙◌, List, [], ◌∷◌, ◌++◌, Option, none, some, Bytes,
  arith, ltb-cases, inl, inr,
}
use binance_aggregator.BoundedQueue.{BoundedQueue, returns, push, pop}
use binance_aggregator.BoundedQueue.Bounds.{blocks_iff}
use binance_aggregator.Aggregation.{TradeEvent}
use binance_aggregator.Json.{JsonLibrary}
use binance_aggregator.Threads.{
  Parser, awaits_message, routes, parser_ended, Worker, awaits_trade, adds, worker_ended,
  not_called, System, parsed, taken, shard_of, set_queue, Move,
}
use binance_aggregator.Threads.Control.{IsOrdered, IsShardOrdered}
use binance_aggregator.Threads.Flow.{worker_holds, unadded, unrouted}
use binance_aggregator.Threads.Progress.{Outcome-cases, pop_waits}

append_empty {ℓ} : {A : Type ℓ} (xs ys : List A) → xs ++ ys ≡ [] → ys ≡ []
append_empty [] ys e = e
append_empty (x ∷ xs) ys e = absurd (cc)

module _ (lib : JsonLibrary) (hash : Bytes → ℕ) (n window_ms : ℕ) where
  -- A move of the parser or of the thread of a shard.
  pub record Feeds (s t : System) : Type 0 where
    pub move : Move lib hash n window_ms s t
    pub writer : t.writer ≡ s.writer
    pub stopper : t.stopper ≡ s.stopper
    pub accepted : t.accepted ≡ s.accepted

  parsed-Feeds :
      (s : System) (r : Option Bytes) (q : BoundedQueue Bytes)
      → s.parser ≡ awaits_message
      → pop s.raw_queue ≡ returns r q
      → Feeds s (parsed lib r (record s { raw_queue = q }))
  unfolding parsed
  parsed-Feeds s none q e h = record {
    move = Move.parser_pops e h;
    writer = refl;
    stopper = refl;
    accepted = refl;
  }
  parsed-Feeds s (some raw) q e h = record {
    move = Move.parser_pops e h;
    writer = ground arith;
    stopper = ground arith;
    accepted = ground arith;
  }

  taken-Feeds :
      (i : ℕ) (s : System) (r : Option TradeEvent) (q : BoundedQueue TradeEvent)
      → i < n
      → s.workers i ≡ awaits_trade
      → pop (s.shards i).queue ≡ returns r q
      → Feeds s (taken i r (record s { shards = set_queue s.shards i q }))
  unfolding taken
  taken-Feeds i s none q l e h = record {
    move = Move.worker_pops i l e h;
    writer = refl;
    stopper = refl;
    accepted = refl;
  }
  taken-Feeds i s (some t) q l e h = record {
    move = Move.worker_pops i l e h;
    writer = refl;
    stopper = refl;
    accepted = refl;
  }

  -- The thread of shard `i` has nothing to do, or it can move.
  worker-Feeds :
      (i : ℕ) (s : System) (w : Worker)
      → i < n
      → s.stopper ≡ not_called
      → IsShardOrdered i s
      → s.workers i ≡ w
      → (unadded lib hash n i s ≡ []) ⊎ ((t : System) × Feeds s t)
  worker-Feeds i s awaits_trade l o v e = elim (Outcome-cases (pop (s.shards i).queue)) [
    | inl waits ↦ inl (ground (arith, e, pop_waits (s.shards i).queue waits))
    | inr (r, q, h) ↦ inr (_, taken-Feeds i s r q l e h)
  ]
  worker-Feeds i s (adds t) l o v e =
      inr (
        _,
        record { move = Move.worker_adds i l e; writer = refl; stopper = refl; accepted = refl },
      )
  worker-Feeds i s worker_ended l o v e = absurd (ground (arith, o, v.queue_shut, v.worker_over e))

  -- All threads of shards have nothing to do, or one can move.
  pub workers-Feeds :
      (k : ℕ) (s : System)
      → k ≤ n
      → s.stopper ≡ not_called
      → ((i : ℕ) → i < n → IsShardOrdered i s)
      → ((i : ℕ) → i < k → unadded lib hash n i s ≡ []) ⊎ ((t : System) × Feeds s t)
  workers-Feeds zero s b o v = inl (λ i l. absurd (omega (arith, l)))
  workers-Feeds (suc k) s b o v =
      let l : k < n = omega arith in
      elim (worker-Feeds k s (s.workers k) l o (v k l) refl) [
        | inr more ↦ inr more
        | inl last ↦ elim (workers-Feeds k s (omega arith) o v) [
          | inr more ↦ inr more
          | inl others ↦ inl (λ i m. elim (ltb-cases i k) [
            | inl below ↦ others i below
            | inr above ↦ ap (λ j. unadded lib hash n j s) (omega (arith, m, above)) ∙ last
          ])
        ]
      ]

  -- The parser has nothing to do, or some thread can move.
  pub parser-Feeds :
      (s : System) (p : Parser)
      → 0 < n
      → s.stopper ≡ not_called
      → IsOrdered s
      → ((i : ℕ) → i < n → IsShardOrdered i s)
      → ((i : ℕ) → 0 < (s.shards i).queue.capacity)
      → s.parser ≡ p
      → (unrouted lib hash n s ≡ []) ⊎ ((t : System) × Feeds s t)
  parser-Feeds s awaits_message m o x v c e = elim (Outcome-cases (pop s.raw_queue)) [
    | inl waits ↦ inl (ground (arith, e, pop_waits s.raw_queue waits))
    | inr (r, q, h) ↦ inr (_, parsed-Feeds s r q e h)
  ]
  parser-Feeds s parser_ended m o x v c e = absurd (ground (arith, o, x.raw_shut, x.parser_over e))
  parser-Feeds s (routes t) m o x v c e =
      let k : ℕ = shard_of hash n t in
      let l : k < n = mod-lt (hash t.symbol) m in
      elim (Outcome-cases (push (s.shards k).queue t)) [
        | inr (r, q, h) ↦ inr (
          _,
          record { move = Move.parser_pushes e h; writer = refl; stopper = refl; accepted = refl },
        )
        | inl waits ↦
            let (unshut, full) = (blocks_iff (s.shards k).queue t).0.0 waits in
            elim (worker-Feeds k s (s.workers k) l o (v k l) refl) [
              | inr more ↦ inr more
              | inl idle ↦ absurd (
                  ground (
                    arith,
                    full,
                    c k,
                    idle,
                    append_empty (worker_holds (s.workers k)) (s.shards k).queue.items idle,
                  ))
            ]
      ]
