-- ===== src/BoundedQueue.antt =====
-- app/include/agg/runtime/BoundedQueue.hpp. A call runs under the queue's mutex, so the calls of all
-- threads form one sequence. A call whose wait predicate is false waits: it `blocks` and changes
-- nothing, and its thread tries again after a notification.
pub mod Bounds
pub mod Fifo
use binance_aggregator.Prelude.{
  ℕ, Bool, true, false, not, ◌||◌, List, [], ◌∷◌, ◌++◌, Option, none, some, length, ltb,
  if◌then◌else◌,
}

pub record BoundedQueue {ℓ} (T : Type ℓ) : Type ℓ where
  pub items : List T
  pub capacity : ℕ
  pub shut : Bool

-- What a call did: it waits, or it returned a value and left a queue.
pub data Outcome {ℓ κ} (T : Type ℓ) (R : Type κ) : Type (ℓ ⊔ κ) where
  blocks : Outcome T R
  returns : R → BoundedQueue T → Outcome T R

module _ {ℓ} {T : Type ℓ} where
  abbrev pub new : ℕ → BoundedQueue T
  new capacity = record { items = []; capacity = capacity; shut = false }

  -- The predicate of not_full_.wait.
  abbrev pub may_push : BoundedQueue T → Bool
  may_push q = q.shut || ltb (length q.items) q.capacity

  unfoldable pub push : BoundedQueue T → T → Outcome T Bool
  push q item =
      if may_push q
      then (if q.shut
          then returns false q
          else returns true (record q { items = q.items ++ item ∷ [] }))
      else blocks

  abbrev pub is_empty : List T → Bool
  is_empty [] = true
  is_empty (x ∷ xs) = false

  -- The predicate of not_empty_.wait.
  abbrev pub may_pop : BoundedQueue T → Bool
  may_pop q = q.shut || not (is_empty q.items)

  -- The part of `pop` behind the wait.
  take_front : BoundedQueue T → List T → Outcome T (Option T)
  take_front q [] = returns none q
  take_front q (x ∷ rest) = returns (some x) (record q { items = rest })

  unfoldable pub pop : BoundedQueue T → Outcome T (Option T)
  unfolding take_front
  pop q = if may_pop q then take_front q q.items else blocks

  unfoldable pub shutdown : BoundedQueue T → BoundedQueue T
  shutdown q = record q { shut = true }

  abbrev pub size : BoundedQueue T → ℕ
  size q = length q.items
