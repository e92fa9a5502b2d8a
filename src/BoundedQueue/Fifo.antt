-- ===== src/BoundedQueue/Fifo.antt =====
-- Sequences of calls from all threads: order, loss and the end of a consumer's loop.
use binance_aggregator.Prelude.{
  ℕ, zero, suc, ◌≤◌, ◌<◌, ◌≡◌, refl, sym, ap, ◌∙◌, Bool, true, false, List, [], ◌∷◌, ◌++◌,
  append_assoc, Option, none, some, arith, length, length-append, if◌then◌else◌, inl, inr,
  Bool-cases,
}
use binance_aggregator.BoundedQueue.{
  BoundedQueue, Outcome, blocks, returns, new, push, pop, take_front, shutdown, size, may_pop,
}

pub data Call {ℓ} (T : Type ℓ) : Type ℓ where
  pushes : T → Call T
  pops : Call T
  shuts : Call T

-- A queue, the items whose push returned true, and the items that pops returned, oldest first.
pub record Trace {ℓ} (T : Type ℓ) : Type ℓ where
  pub queue : BoundedQueue T
  pub accepted : List T
  pub delivered : List T

module _ {T : Type 0} where
  abbrev pub begin : ℕ → Trace T
  begin capacity = record { queue = new capacity; accepted = []; delivered = [] }

  -- What a push or a pop did to a trace.
  pub pushed : Trace T → T → Outcome T Bool → Trace T
  pushed t x blocks = t
  pushed t x (returns b q) = record t {
    queue = q;
    accepted = if b then t.accepted ++ x ∷ [] else t.accepted;
  }

  pub popped : Trace T → Outcome T (Option T) → Trace T
  popped t blocks = t
  popped t (returns none q) = record t { queue = q }
  popped t (returns (some x) q) = record t { queue = q; delivered = t.delivered ++ x ∷ [] }

  unfoldable pub step : Trace T → Call T → Trace T
  unfolding pushed popped
  step t (pushes x) = pushed t x (push t.queue x)
  step t pops = popped t (pop t.queue)
  step t shuts = record t { queue = shutdown t.queue }

  unfoldable pub run : Trace T → List (Call T) → Trace T
  run t [] = t
  run t (c ∷ cs) = run (step t c) cs

  pub record IsFaithful (capacity : ℕ) (t : Trace T) : Type 0 where
    pub in_order : t.accepted ≡ t.delivered ++ t.queue.items
    pub bounded : size t.queue ≤ t.queue.capacity
    pub fixed : t.queue.capacity ≡ capacity

  push-IsFaithful :
      (capacity : ℕ) (t : Trace T) (x : T)
      → IsFaithful capacity t
      → IsFaithful capacity (pushed t x (push t.queue x))
  unfolding push pushed
  push-IsFaithful capacity t x h =
      ground (
        arith,
        length-append t.queue.items (x ∷ []),
        append_assoc t.delivered t.queue.items (x ∷ []),
      )

  take_front-IsFaithful :
      (capacity : ℕ) (t : Trace T) (xs : List T)
      → t.queue.items ≡ xs
      → IsFaithful capacity t
      → IsFaithful capacity (popped t (take_front t.queue xs))
  unfolding take_front popped
  take_front-IsFaithful capacity t [] e h = h
  take_front-IsFaithful capacity t (x ∷ xs) e h = record {
    in_order = h.in_order ∙ ap (◌++◌ t.delivered) e ∙ sym (append_assoc t.delivered (x ∷ []) xs);
    bounded = omega (arith, h.bounded, ap length e);
    fixed = h.fixed;
  }

  pop-IsFaithful :
      (capacity : ℕ) (t : Trace T)
      → IsFaithful capacity t
      → IsFaithful capacity (popped t (pop t.queue))
  unfolding pop popped
  pop-IsFaithful capacity t h = elim (Bool-cases (may_pop t.queue)) [
    | inl ready ↦
        rw ready (unfold take_front in take_front-IsFaithful capacity t t.queue.items refl h)
    | inr waits ↦ rw waits h
  ]

  step-IsFaithful :
      (capacity : ℕ) (t : Trace T) (c : Call T)
      → IsFaithful capacity t
      → IsFaithful capacity (step t c)
  step-IsFaithful capacity t (pushes x) h = unfold step in push-IsFaithful capacity t x h
  step-IsFaithful capacity t pops h = unfold step in pop-IsFaithful capacity t h
  step-IsFaithful capacity t shuts h =
      unfold step shutdown in record { in_order = h.in_order; bounded = h.bounded; fixed = h.fixed }

  run_keeps :
      (capacity : ℕ) (t : Trace T) (cs : List (Call T))
      → IsFaithful capacity t
      → IsFaithful capacity (run t cs)
  unfolding run
  run_keeps capacity t [] h = h
  run_keeps capacity t (c ∷ cs) h =
      run_keeps capacity (step t c) cs (step-IsFaithful capacity t c h)

  -- After any calls of any threads, what was accepted is what was delivered followed by what is
  -- queued, in order, and the queue holds at most `capacity` items.
  pub run-IsFaithful :
      (capacity : ℕ) (cs : List (Call T)) → IsFaithful capacity (run (begin capacity) cs)
  run-IsFaithful capacity cs =
      run_keeps capacity (begin capacity) cs
        (record { in_order = refl; bounded = omega arith; fixed = refl })

  -- A consumer's loop, `while (auto item = queue.pop())`, on a queue that no one pushes to: the items
  -- it got, and whether it ended because a pop answered none.
  pub drain : ℕ → BoundedQueue T → List T × Bool
  drain zero q = ([], false)
  drain (suc fuel) q = elim (pop q) [
    | blocks ↦ ([], false)
    | returns none p ↦ ([], true)
    | returns (some x) p ↦ (let (xs, ended) = drain fuel p in (x ∷ xs, ended))
  ]

  drain_items :
      (fuel : ℕ) (xs : List T) (capacity : ℕ)
      → length xs < fuel
      → drain fuel (record { items = xs; capacity = capacity; shut = true }) ≡ (xs, true)
  unfolding drain pop
  drain_items zero xs capacity h = elim h [ ]
  drain_items (suc fuel) [] capacity h = refl
  drain_items (suc fuel) (x ∷ xs) capacity h = rw (drain_items fuel xs capacity (omega arith))

  -- After a shutdown the loop of a consumer ends: with one round for each item and one more it has
  -- every queued item, in order, and leaves by the answer none.
  pub drain-shutdown :
      (q : BoundedQueue T) (fuel : ℕ) → size q < fuel → drain fuel (shutdown q) ≡ (q.items, true)
  unfolding shutdown
  drain-shutdown q fuel h = drain_items fuel q.items q.capacity h
