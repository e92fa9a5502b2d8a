-- ===== src/Threads/Bounded.antt =====
-- The positions of the flushes and of stop(), and the capacities of the queues, in every reachable
-- state.
use binance_aggregator.Prelude.{
  ℕ, ◌≤◌, ◌≡◌, refl, true, false, none, some, Bytes, arith, ◌==◌, Bool-cases, inl, inr,
}
use binance_aggregator.BoundedQueue.{BoundedQueue, shutdown}
use binance_aggregator.BoundedQueue.Bounds.{push-Pushed, pop-Popped}
use binance_aggregator.Aggregation.{TradeEvent}
use binance_aggregator.Json.{JsonLibrary}
use binance_aggregator.Pipeline.{Shard, aggregate}
use binance_aggregator.Threads.{
  Writer, extracts, Stopper, shuts, flushes, System, set_queue, parsed, taken, shard_of,
  writer_extracted, stop_extracted, Move, Input, Reach,
}

-- How far a flush or the shutdown of the queues is.
abbrev pub writer_at : Writer → ℕ
writer_at (extracts now i ws) = i
writer_at _ = 0

abbrev pub stopper_at : Stopper → ℕ
stopper_at (shuts i) = i
stopper_at (flushes i ws) = i
stopper_at _ = 0

pub record IsWithin (n : ℕ) (s : System) : Type 0 where
  pub writer_within : writer_at s.writer ≤ n
  pub stopper_within : stopper_at s.stopper ≤ n

abbrev pub HasCapacity : ℕ → ℕ → System → Type 0
HasCapacity d i s = (s.shards i).queue.capacity ≡ d

module _ (lib : JsonLibrary) (hash : Bytes → ℕ) (n window_ms : ℕ) where
  Move-IsWithin : {s t : System} → Move lib hash n window_ms s t → IsWithin n s → IsWithin n t
  unfolding parsed taken writer_extracted stop_extracted
  Move-IsWithin (Move.parser_pops {r = none} e h) v = ground arith
  Move-IsWithin (Move.parser_pops {r = some raw} e h) v = ground arith
  Move-IsWithin (Move.parser_pushes e h) v = ground arith
  Move-IsWithin (Move.worker_pops i {r = none} l e h) v = ground arith
  Move-IsWithin (Move.worker_pops i {r = some x} l e h) v = ground arith
  Move-IsWithin (Move.worker_adds i l e) v = ground arith
  Move-IsWithin (Move.writer_wakes now e h) v = ground arith
  Move-IsWithin (Move.writer_extracts e l) v = ground arith
  Move-IsWithin (Move.writer_writes e) v = ground arith
  Move-IsWithin (Move.writer_ends e h) v = ground arith
  Move-IsWithin (Move.stop_joins_writer e h) v = ground arith
  Move-IsWithin (Move.stop_joins_parser e h) v = ground arith
  Move-IsWithin (Move.stop_shuts e l) v = ground arith
  Move-IsWithin (Move.stop_shut_all e) v = ground arith
  Move-IsWithin (Move.stop_joins_workers e h) v = ground arith
  Move-IsWithin (Move.stop_extracts e l) v = ground arith
  Move-IsWithin (Move.stop_writes e) v = ground arith

  set_queue-capacity :
      (shards : ℕ → Shard) (j i d : ℕ) (q : BoundedQueue TradeEvent)
      → q.capacity ≡ (shards j).queue.capacity
      → ((k : ℕ) → (shards k).queue.capacity ≡ d)
      → (set_queue shards j q i).queue.capacity ≡ d
  set_queue-capacity shards j i d q e h = elim (Bool-cases (j == i)) [
    | inl same ↦ ground (arith, same, h j)
    | inr other ↦ ground (arith, other, h i)
  ]

  Move-HasCapacity :
      (d : ℕ) {s t : System}
      → Move lib hash n window_ms s t
      → ((k : ℕ) → HasCapacity d k s)
      → (i : ℕ) → HasCapacity d i t
  unfolding parsed taken writer_extracted stop_extracted aggregate shutdown
  Move-HasCapacity d (Move.parser_pops {r = none} e h) v i = v i
  Move-HasCapacity d {s} (Move.parser_pops {r = some raw} e h) v i = ground (arith, v i)
  Move-HasCapacity d {s} (Move.parser_pushes {t = t} {b = true} {q = q} e h) v i =
      set_queue-capacity s.shards (shard_of hash n t) i d q
        (ground (arith, push-Pushed (s.shards (shard_of hash n t)).queue q t true h)) v
  Move-HasCapacity d {s} (Move.parser_pushes {t = t} {b = false} {q = q} e h) v i =
      set_queue-capacity s.shards (shard_of hash n t) i d q
        (ground (arith, push-Pushed (s.shards (shard_of hash n t)).queue q t false h)) v
  Move-HasCapacity d {s} (Move.worker_pops j {r = none} {q = q} l e h) v i =
      set_queue-capacity s.shards j i d q (ground (arith, pop-Popped (s.shards j).queue q none h)) v
  Move-HasCapacity d {s} (Move.worker_pops j {r = some x} {q = q} l e h) v i =
      set_queue-capacity s.shards j i d q
        (ground (arith, pop-Popped (s.shards j).queue q (some x) h)) v
  Move-HasCapacity d (Move.worker_adds j l e) v i = ground (arith, v i, v j)
  Move-HasCapacity d (Move.writer_wakes now e h) v i = v i
  Move-HasCapacity d (Move.writer_extracts {i = j} e l) v i = ground (arith, v i, v j)
  Move-HasCapacity d (Move.writer_writes e) v i = v i
  Move-HasCapacity d (Move.writer_ends e h) v i = v i
  Move-HasCapacity d (Move.stop_joins_writer e h) v i = v i
  Move-HasCapacity d (Move.stop_joins_parser e h) v i = v i
  Move-HasCapacity d {s} (Move.stop_shuts {i = j} e l) v i = ground (arith, v i, v j)
  Move-HasCapacity d (Move.stop_shut_all e) v i = v i
  Move-HasCapacity d (Move.stop_joins_workers e h) v i = v i
  Move-HasCapacity d (Move.stop_extracts {i = j} e l) v i = ground (arith, v i, v j)
  Move-HasCapacity d (Move.stop_writes e) v i = v i

  Input-HasCapacity :
      (d : ℕ) {s t : System}
      → Input lib hash n window_ms s t
      → ((k : ℕ) → HasCapacity d k s)
      → (i : ℕ) → HasCapacity d i t
  Input-HasCapacity d (Input.submits raw h) v i = v i
  Input-HasCapacity d (Input.calls_stop e) v i = v i

  Input-IsWithin : {s t : System} → Input lib hash n window_ms s t → IsWithin n s → IsWithin n t
  Input-IsWithin (Input.submits raw h) v = ground arith
  Input-IsWithin (Input.calls_stop e) v = ground arith

  module _ {c d : ℕ} where
    pub Reach-HasCapacity :
        {s : System} → Reach lib hash n window_ms c d s → (i : ℕ) → HasCapacity d i s
    Reach-HasCapacity Reach.started = λ i. refl
    Reach-HasCapacity (Reach.moves r m) = Move-HasCapacity d m (Reach-HasCapacity r)
    Reach-HasCapacity (Reach.inputs r m) = Input-HasCapacity d m (Reach-HasCapacity r)

    pub Reach-IsWithin : {s : System} → Reach lib hash n window_ms c d s → IsWithin n s
    Reach-IsWithin Reach.started = record {
      writer_within = omega arith;
      stopper_within = omega arith;
    }
    Reach-IsWithin (Reach.moves r m) = Move-IsWithin m (Reach-IsWithin r)
    Reach-IsWithin (Reach.inputs r m) = Input-IsWithin m (Reach-IsWithin r)
