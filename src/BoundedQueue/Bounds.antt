-- ===== src/BoundedQueue/Bounds.antt =====
-- When the calls wait, and the bound on the queue's length.
use binance_aggregator.Prelude.{
  ◌≤◌, ◌≡◌, ◌↔◌, ◌⊎◌, Bool, true, false, [], ◌∷◌, ◌++◌, arith, length-append, Option, none, some,
  List, Bool-cases, inl, inr, refl,
}
use binance_aggregator.BoundedQueue.{
  BoundedQueue, blocks, returns, push, pop, size, may_pop, take_front,
}

module _ {T : Type 0} where
  -- `push` waits exactly on a full queue that is not shut down, and `pop` exactly on an empty
  -- queue that is not shut down.
  pub blocks_iff :
      (q : BoundedQueue T) (x : T)
      → ((push q x ≡ blocks) ↔ ((q.shut ≡ false) × (q.capacity ≤ size q)))
        × ((pop q ≡ blocks) ↔ ((q.shut ≡ false) × (q.items ≡ [])))
  unfolding push pop
  blocks_iff q x = ((ground arith, ground arith), (ground arith, ground arith))

  -- A push that returns true has put the item at the end, within the capacity; one that returns
  -- false has changed nothing, and the queue is shut down.
  pub push_returns :
      (q p : BoundedQueue T) (x : T) (b : Bool)
      → push q x ≡ returns b p
      → ((b ≡ true)
          × (q.shut ≡ false)
          × (p.items ≡ q.items ++ x ∷ [])
          × (size p ≤ q.capacity)
          × (p.capacity ≡ q.capacity))
        ⊎ ((b ≡ false) × (q.shut ≡ true) × (p ≡ q))
  unfolding push
  push_returns q p x b h = ground (arith, length-append q.items (x ∷ []))

  -- What a push that returned `b` has left.
  abbrev pub Pushed : BoundedQueue T → T → Bool → BoundedQueue T → Type 0
  Pushed q x true p =
      (q.shut ≡ false)
      × (p.items ≡ q.items ++ x ∷ [])
      × (p.shut ≡ false)
      × (p.capacity ≡ q.capacity)
  Pushed q x false p = (q.shut ≡ true) × (p ≡ q)

  pub push-Pushed :
      (q p : BoundedQueue T) (x : T) (b : Bool) → push q x ≡ returns b p → Pushed q x b p
  unfolding push
  push-Pushed q p x true h = ground arith
  push-Pushed q p x false h = ground arith

  -- What a pop that returned `r` has done: it took the first item, or the queue is empty and shut
  -- down, and stays as it is.
  abbrev pub Popped : BoundedQueue T → Option T → BoundedQueue T → Type 0
  Popped q none p = (q.items ≡ []) × (q.shut ≡ true) × (p ≡ q)
  Popped q (some x) p = (q.items ≡ x ∷ p.items) × (p.shut ≡ q.shut) × (p.capacity ≡ q.capacity)

  take_front-Popped :
      (q p : BoundedQueue T) (r : Option T) (xs : List T)
      → q.items ≡ xs
      → may_pop q ≡ true
      → take_front q xs ≡ returns r p
      → Popped q r p
  unfolding take_front
  take_front-Popped q p none [] e m h = ground arith
  take_front-Popped q p (some x) [] e m h = absurd (cc)
  take_front-Popped q p none (y ∷ ys) e m h = absurd (cc)
  take_front-Popped q p (some x) (y ∷ ys) e m h = ground arith

  pub pop-Popped : (q p : BoundedQueue T) (r : Option T) → pop q ≡ returns r p → Popped q r p
  unfolding pop
  pop-Popped q p r h = elim (Bool-cases (may_pop q)) [
    | inr waits ↦ absurd (cc (rw waits at h))
    | inl ready ↦ take_front-Popped q p r q.items refl ready (unfold take_front in rw ready at h)
  ]
