-- ===== src/Threads/Control.antt =====
-- The order in which stop() ends the threads, in every reachable state.
use binance_aggregator.Prelude.{
  ℕ, ◌<◌, ◌≡◌, refl, Bool, true, false, [], Option, none, some, Bytes, arith, ltb,
}
use binance_aggregator.BoundedQueue.{BoundedQueue, returns, push, pop, shutdown}
use binance_aggregator.BoundedQueue.Bounds.{push-Pushed, pop-Popped}
use binance_aggregator.Aggregation.{TradeEvent}
use binance_aggregator.Json.{JsonLibrary}
use binance_aggregator.Pipeline.{aggregate}
use binance_aggregator.Threads.{
  awaits_message, routes, parser_ended, awaits_trade, worker_ended, writer_ended, Stopper,
  not_called, joins_writer, joins_parser, joins_workers, stop_returned, shuts, flushes, System,
  set_queue, start, parsed, taken, shard_of, writer_extracted, stop_extracted, Move, Input, Reach,
}

abbrev pub writer_joined : Stopper → Bool
writer_joined not_called = false
writer_joined joins_writer = false
writer_joined _ = true

abbrev pub parser_joined : Stopper → Bool
parser_joined not_called = false
parser_joined joins_writer = false
parser_joined joins_parser = false
parser_joined _ = true

abbrev pub workers_joined : Stopper → Bool
workers_joined (flushes _ _) = true
workers_joined stop_returned = true
workers_joined _ = false

-- Whether stop() has shut the queue of shard `i` down.
abbrev pub has_shut : ℕ → Stopper → Bool
has_shut i (shuts k) = ltb i k
has_shut i joins_workers = true
has_shut i (flushes _ _) = true
has_shut i stop_returned = true
has_shut i _ = false

abbrev pub is_called : Stopper → Bool
is_called not_called = false
is_called _ = true

-- Each thread that stop() has joined is at its end, and the raw queue is shut down once the writer
-- is; the parser ends only on an empty raw queue.
pub record IsOrdered (s : System) : Type 0 where
  pub requested : is_called s.stopper ≡ s.stop_requested
  pub writer_first : writer_joined s.stopper ≡ true → s.writer ≡ writer_ended
  pub raw_shut : s.raw_queue.shut ≡ writer_joined s.stopper
  pub parser_next : parser_joined s.stopper ≡ true → s.parser ≡ parser_ended
  pub parser_over : s.parser ≡ parser_ended → (s.raw_queue.items ≡ []) × (s.raw_queue.shut ≡ true)

-- The same of the thread and the queue of shard `i`.
pub record IsShardOrdered (i : ℕ) (s : System) : Type 0 where
  pub queue_shut : (s.shards i).queue.shut ≡ has_shut i s.stopper
  pub worker_next : workers_joined s.stopper ≡ true → s.workers i ≡ worker_ended
  pub worker_over :
      s.workers i ≡ worker_ended
      → ((s.shards i).queue.items ≡ []) × ((s.shards i).queue.shut ≡ true)

abbrev pub AreOrdered : ℕ → System → Type 0
AreOrdered i s = IsOrdered s × IsShardOrdered i s

start-IsOrdered : (window_ms c d : ℕ) → IsOrdered (start window_ms c d)
start-IsOrdered window_ms c d = record {
  requested = refl;
  writer_first = λ h. absurd (cc);
  raw_shut = refl;
  parser_next = λ h. absurd (cc);
  parser_over = λ h. absurd (cc);
}

start-IsShardOrdered : (i window_ms c d : ℕ) → IsShardOrdered i (start window_ms c d)
start-IsShardOrdered i window_ms c d = record {
  queue_shut = refl;
  worker_next = λ h. absurd (cc);
  worker_over = λ h. absurd (cc);
}

module _ (lib : JsonLibrary) (hash : Bytes → ℕ) (n window_ms : ℕ) where
  Input-IsOrdered : {s t : System} → Input lib hash n window_ms s t → IsOrdered s → IsOrdered t
  Input-IsOrdered {s} (Input.submits raw {b = true} {q = q} h) v =
      ground (arith, push-Pushed s.raw_queue q raw true h)
  Input-IsOrdered {s} (Input.submits raw {b = false} {q = q} h) v =
      ground (arith, push-Pushed s.raw_queue q raw false h)
  Input-IsOrdered (Input.calls_stop e) v = ground arith

  Input-IsShardOrdered :
      (i : ℕ) {s t : System}
      → Input lib hash n window_ms s t
      → IsShardOrdered i s
      → IsShardOrdered i t
  Input-IsShardOrdered i (Input.submits raw h) v = ground arith
  Input-IsShardOrdered i (Input.calls_stop e) v = ground arith

  parsed-IsOrdered :
      (s : System) (r : Option Bytes) (q : BoundedQueue Bytes)
      → s.parser ≡ awaits_message
      → pop s.raw_queue ≡ returns r q
      → IsOrdered s
      → IsOrdered (parsed lib r (record s { raw_queue = q }))
  unfolding parsed
  parsed-IsOrdered s none q e h v = ground (arith, pop-Popped s.raw_queue q none h)
  parsed-IsOrdered s (some raw) q e h v = ground (arith, pop-Popped s.raw_queue q (some raw) h)

  Move-IsOrdered : {s t : System} → Move lib hash n window_ms s t → IsOrdered s → IsOrdered t
  unfolding writer_extracted stop_extracted taken shutdown
  Move-IsOrdered {s} (Move.parser_pops {r = r} {q = q} e h) v = parsed-IsOrdered s r q e h v
  Move-IsOrdered (Move.parser_pushes e h) v = ground arith
  Move-IsOrdered (Move.worker_pops i {r = none} l e h) v = ground arith
  Move-IsOrdered (Move.worker_pops i {r = some x} l e h) v = ground arith
  Move-IsOrdered (Move.worker_adds i l e) v = ground arith
  Move-IsOrdered (Move.writer_wakes now e h) v = ground arith
  Move-IsOrdered (Move.writer_extracts e l) v = ground arith
  Move-IsOrdered (Move.writer_writes e) v = ground arith
  Move-IsOrdered (Move.writer_ends e h) v = ground arith
  Move-IsOrdered (Move.stop_joins_writer e h) v = ground arith
  Move-IsOrdered (Move.stop_joins_parser e h) v = ground arith
  Move-IsOrdered (Move.stop_shuts e l) v = ground arith
  Move-IsOrdered (Move.stop_shut_all e) v = ground arith
  Move-IsOrdered (Move.stop_joins_workers e h) v = ground arith
  Move-IsOrdered (Move.stop_extracts e l) v = ground arith
  Move-IsOrdered (Move.stop_writes e) v = ground arith

  taken-IsShardOrdered :
      (i j : ℕ) (s : System) (r : Option TradeEvent) (q : BoundedQueue TradeEvent)
      → s.workers j ≡ awaits_trade
      → pop (s.shards j).queue ≡ returns r q
      → IsShardOrdered i s
      → IsShardOrdered i (taken j r (record s { shards = set_queue s.shards j q }))
  unfolding taken
  taken-IsShardOrdered i j s none q e h v = ground (arith, pop-Popped (s.shards j).queue q none h)
  taken-IsShardOrdered i j s (some x) q e h v =
      ground (arith, pop-Popped (s.shards j).queue q (some x) h)

  pushed-IsShardOrdered :
      (i : ℕ) (s : System) (t : TradeEvent) (b : Bool) (q : BoundedQueue TradeEvent)
      → s.parser ≡ routes t
      → push (s.shards (shard_of hash n t)).queue t ≡ returns b q
      → IsShardOrdered i s
      → IsShardOrdered i
          (record s { shards = set_queue s.shards (shard_of hash n t) q; parser = awaits_message })
  pushed-IsShardOrdered i s t true q e h v =
      ground (arith, push-Pushed (s.shards (shard_of hash n t)).queue q t true h)
  pushed-IsShardOrdered i s t false q e h v =
      ground (arith, push-Pushed (s.shards (shard_of hash n t)).queue q t false h)

  Move-IsShardOrdered :
      (i : ℕ) {s t : System}
      → i < n
      → IsOrdered s
      → Move lib hash n window_ms s t
      → IsShardOrdered i s
      → IsShardOrdered i t
  unfolding writer_extracted stop_extracted parsed aggregate shutdown
  Move-IsShardOrdered i m o (Move.parser_pops {r = none} e h) v = ground arith
  Move-IsShardOrdered i m o (Move.parser_pops {r = some raw} e h) v = ground arith
  Move-IsShardOrdered i {s} m o (Move.parser_pushes {t = t} {b = b} {q = q} e h) v =
      pushed-IsShardOrdered i s t b q e h v
  Move-IsShardOrdered i {s} m o (Move.worker_pops j {r = r} {q = q} l e h) v =
      taken-IsShardOrdered i j s r q e h v
  Move-IsShardOrdered i m o (Move.worker_adds j l e) v = ground arith
  Move-IsShardOrdered i m o (Move.writer_wakes now e h) v = ground arith
  Move-IsShardOrdered i m o (Move.writer_extracts e l) v = ground arith
  Move-IsShardOrdered i m o (Move.writer_writes e) v = ground arith
  Move-IsShardOrdered i m o (Move.writer_ends e h) v = ground arith
  Move-IsShardOrdered i m o (Move.stop_joins_writer e h) v = ground arith
  Move-IsShardOrdered i m o (Move.stop_joins_parser e h) v = ground arith
  Move-IsShardOrdered i m o (Move.stop_shuts e l) v = ground arith
  Move-IsShardOrdered i m o (Move.stop_shut_all e) v = ground arith
  Move-IsShardOrdered i m o (Move.stop_joins_workers e h) v = ground (arith, h i)
  Move-IsShardOrdered i m o (Move.stop_extracts e l) v = ground arith
  Move-IsShardOrdered i m o (Move.stop_writes e) v = ground arith

  pub Reach-IsOrdered : {c d : ℕ} {s : System} → Reach lib hash n window_ms c d s → IsOrdered s
  Reach-IsOrdered {c} {d} Reach.started = start-IsOrdered window_ms c d
  Reach-IsOrdered (Reach.moves r m) = Move-IsOrdered m (Reach-IsOrdered r)
  Reach-IsOrdered (Reach.inputs r m) = Input-IsOrdered m (Reach-IsOrdered r)

  pub Reach-IsShardOrdered :
      (i : ℕ)
      → i < n
      → {c d : ℕ} {s : System} → Reach lib hash n window_ms c d s
      → IsShardOrdered i s
  Reach-IsShardOrdered i l {c} {d} Reach.started = start-IsShardOrdered i window_ms c d
  Reach-IsShardOrdered i l (Reach.moves r m) =
      Move-IsShardOrdered i l (Reach-IsOrdered r) m (Reach-IsShardOrdered i l r)
  Reach-IsShardOrdered i l (Reach.inputs r m) =
      Input-IsShardOrdered i m (Reach-IsShardOrdered i l r)

  -- In every state that the threads reach: stop() has been called exactly if stop_requested_ is set;
  -- the writer has ended once stop() has joined it, and the raw queue is shut down exactly from then
  -- on; the parser has ended once stop() has joined it, and it has only ended with the raw queue empty
  -- and shut down. For each shard below the number of shards: its queue is shut down exactly if stop()
  -- has shut it; its thread has ended once stop() has joined the threads, and it has only ended with
  -- this queue empty and shut down.
  pub Reach-AreOrdered :
      (i : ℕ) → i < n → {c d : ℕ} {s : System} → Reach lib hash n window_ms c d s → AreOrdered i s
  Reach-AreOrdered i l r = (Reach-IsOrdered r, Reach-IsShardOrdered i l r)
