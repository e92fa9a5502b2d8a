-- ===== src/Threads/Progress.antt =====
-- Some thread can always move until stop() has returned.
use native.Mathlib.Nat.{mod-lt}
use binance_aggregator.Prelude.{
  ℕ, zero, suc, ◌<◌, ◌≡◌, ◌≢◌, ◌⊎◌, refl, ap, ◌∙◌, true, false, [], Bytes, arith, ltb-cases, inl,
  inr,
}
use binance_aggregator.BoundedQueue.{BoundedQueue, Outcome, blocks, returns, push, pop}
use binance_aggregator.BoundedQueue.Bounds.{blocks_iff}
use binance_aggregator.Json.{JsonLibrary}
use binance_aggregator.Threads.{
  Parser, awaits_message, routes, parser_ended, Worker, awaits_trade, adds, worker_ended, Writer,
  sleeps, extracts, writer_ended, Stopper, not_called, joins_writer, joins_parser, joins_workers,
  stop_returned, shuts, flushes, System, shard_of, Move, Reach,
}
use binance_aggregator.Threads.Control.{
  IsOrdered, IsShardOrdered, Reach-IsOrdered, Reach-IsShardOrdered, has_shut,
}
use binance_aggregator.Threads.Bounded.{IsWithin, Reach-IsWithin, Reach-HasCapacity}

pub Outcome-cases {ℓ κ} :
    {T : Type ℓ} {R : Type κ} (o : Outcome T R)
    → (o ≡ blocks) ⊎ ((r : R) × (q : BoundedQueue T) × (o ≡ returns r q))
Outcome-cases blocks = inl refl
Outcome-cases (returns r q) = inr (r, q, refl)

pub pop_waits :
    {T : Type 0} (q : BoundedQueue T) → pop q ≡ blocks → (q.shut ≡ false) × (q.items ≡ [])
unfolding pop
pop_waits q h = ground arith

-- A family of threads below `n`: all have ended, or one has not.
worker_last :
    (n : ℕ) (f : ℕ → Worker) (w : Worker)
    → f n ≡ w
    → ((i : ℕ) → i < n → f i ≡ worker_ended)
    → ((i : ℕ) → i < suc n → f i ≡ worker_ended) ⊎ ((i : ℕ) × (i < suc n) × (f i ≢ worker_ended))
worker_last n f awaits_trade e h = inr (n, omega arith, λ d. absurd (cc))
worker_last n f (adds t) e h = inr (n, omega arith, λ d. absurd (cc))
worker_last n f worker_ended e h = inl (λ i l. elim (ltb-cases i n) [
  | inl below ↦ h i below
  | inr above ↦ ap f (omega (arith, l, above)) ∙ e
])

-- A family of threads below `n`: all have ended, or one has not.
all_ended :
    (n : ℕ) (f : ℕ → Worker)
    → ((i : ℕ) → i < n → f i ≡ worker_ended) ⊎ ((i : ℕ) × (i < n) × (f i ≢ worker_ended))
all_ended zero f = inl (λ i l. absurd (omega (arith, l)))
all_ended (suc n) f = elim (all_ended n f) [
  | inr found ↦ inr (found.0, omega (arith, found.1), found.2)
  | inl others ↦ worker_last n f (f n) refl others
]

module _ (lib : JsonLibrary) (hash : Bytes → ℕ) (n window_ms : ℕ) where
  abbrev CanMove : System → Type 0
  CanMove s = (t : System) × Move lib hash n window_ms s t

  writer_moves :
      (s : System) (w : Writer)
      → s.writer ≡ w
      → s.stopper ≡ joins_writer
      → s.stop_requested ≡ true
      → IsWithin n s
      → CanMove s
  writer_moves s sleeps e h r b = (_, Move.writer_ends e r)
  writer_moves s writer_ended e h r b = (_, Move.stop_joins_writer h e)
  writer_moves s (extracts now i ws) e h r b = elim (ltb-cases i n) [
    | inl l ↦ (_, Move.writer_extracts e l)
    | inr l ↦ (
      _,
      Move.writer_writes (e ∙ ap (λ k. extracts now k ws) (ground (arith, b.writer_within, l, e))),
    )
  ]

  -- A thread that is not at its end moves when its queue has an item or is shut down.
  worker_moves :
      (i : ℕ) (s : System) (w : Worker)
      → i < n
      → s.workers i ≡ w
      → w ≢ worker_ended
      → ((s.shards i).queue.items ≢ []) ⊎ ((s.shards i).queue.shut ≡ true)
      → CanMove s
  worker_moves i s awaits_trade l e h r = elim (Outcome-cases (pop (s.shards i).queue)) [
    | inl waits ↦
        let (unshut, empty) = pop_waits (s.shards i).queue waits in
        absurd (ground (arith, r, unshut, empty))
    | inr (x, q, p) ↦ (_, Move.worker_pops i l e p)
  ]
  worker_moves i s (adds t) l e h r = (_, Move.worker_adds i l e)
  worker_moves i s worker_ended l e h r = absurd (h refl)

  parser_moves :
      (s : System) (p : Parser)
      → s.parser ≡ p
      → s.stopper ≡ joins_parser
      → 0 < n
      → IsOrdered s
      → ((i : ℕ) → i < n → IsShardOrdered i s)
      → ((i : ℕ) → 0 < (s.shards i).queue.capacity)
      → CanMove s
  parser_moves s awaits_message e h m o v c = elim (Outcome-cases (pop s.raw_queue)) [
    | inl waits ↦
        let (unshut, empty) = pop_waits s.raw_queue waits in
        absurd (ground (arith, h, unshut, o.raw_shut))
    | inr (x, q, p) ↦ (_, Move.parser_pops e p)
  ]
  parser_moves s parser_ended e h m o v c = (_, Move.stop_joins_parser h e)
  parser_moves s (routes t) e h m o v c =
      let k : ℕ = shard_of hash n t in
      let l : k < n = mod-lt (hash t.symbol) m in
      elim (Outcome-cases (push (s.shards k).queue t)) [
        | inl waits ↦
            let (unshut, full) = (blocks_iff (s.shards k).queue t).0.0 waits in
            worker_moves k s (s.workers k) l refl
              (λ d. absurd (ground (arith, unshut, d, (v k l).worker_over d)))
              (inl (λ empty. ground (arith, full, empty, c k)))
        | inr (x, q, p) ↦ (_, Move.parser_pushes e p)
      ]

  stopper_moves :
      (s : System) (x : Stopper)
      → s.stopper ≡ x
      → x ≢ not_called
      → x ≢ stop_returned
      → 0 < n
      → IsOrdered s
      → ((i : ℕ) → i < n → IsShardOrdered i s)
      → IsWithin n s
      → ((i : ℕ) → 0 < (s.shards i).queue.capacity)
      → CanMove s
  stopper_moves s not_called e u r m o v b c = absurd (u refl)
  stopper_moves s stop_returned e u r m o v b c = absurd (r refl)
  stopper_moves s joins_writer e u r m o v b c =
      writer_moves s s.writer refl e (ground (arith, o.requested, e)) b
  stopper_moves s joins_parser e u r m o v b c = parser_moves s s.parser refl e m o v c
  stopper_moves s (shuts i) e u r m o v b c = elim (ltb-cases i n) [
    | inl l ↦ (_, Move.stop_shuts e l)
    | inr l ↦ (_, Move.stop_shut_all (e ∙ ap shuts (ground (arith, b.stopper_within, l, e))))
  ]
  stopper_moves s joins_workers e u r m o v b c = elim (all_ended n s.workers) [
    | inl ended ↦ (_, Move.stop_joins_workers e ended)
    | inr found ↦
        worker_moves (found.0) s (s.workers (found.0)) (found.1) refl (found.2)
          (inr ((v (found.0) (found.1)).queue_shut ∙ ap (has_shut (found.0)) e))
  ]
  stopper_moves s (flushes i ws) e u r m o v b c = elim (ltb-cases i n) [
    | inl l ↦ (_, Move.stop_extracts e l)
    | inr l ↦
        (_, Move.stop_writes (e ∙ ap (λ k. flushes k ws) (ground (arith, b.stopper_within, l, e))))
  ]

  -- From the call of stop() until it has returned, in every state that the threads reach, some thread
  -- of the pipeline can move: no deadlock. The number of shards and the capacity of their queues
  -- are not 0.
  pub stop-progress :
      {c d : ℕ}
      → 0 < n
      → 0 < d
      → {s : System} → Reach lib hash n window_ms c d s
      → s.stopper ≢ not_called
      → s.stopper ≢ stop_returned
      → (t : System) × Move lib hash n window_ms s t
  stop-progress m l {s} r u w =
      stopper_moves s s.stopper refl u w m (Reach-IsOrdered lib hash n window_ms r)
        (λ i k. Reach-IsShardOrdered lib hash n window_ms i k r)
        (Reach-IsWithin lib hash n window_ms r)
        (λ i. omega (arith, l, Reach-HasCapacity lib hash n window_ms r i))
