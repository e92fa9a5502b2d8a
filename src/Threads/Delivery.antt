-- ===== src/Threads/Delivery.antt =====
-- The accepted messages against the trades added, in every reachable state and behind stop().
use native.Mathlib.Nat.{mod-lt}
use binance_aggregator.Prelude.{ℕ, ◌<◌, ◌≡◌, true, false, append-nil, Bytes, arith}
use binance_aggregator.BoundedQueue.{shutdown}
use binance_aggregator.BoundedQueue.Bounds.{push-Pushed}
use binance_aggregator.Aggregation.{TradeEvent}
use binance_aggregator.Json.{JsonLibrary}
use binance_aggregator.Threads.{
  routes, System, shard_of, for_shard, writer_extracted, stop_extracted, Move, Input, Reach,
}
use binance_aggregator.Threads.Control.{
  IsOrdered, IsShardOrdered, workers_joined, Reach-IsOrdered, Reach-IsShardOrdered,
}
use binance_aggregator.Threads.Flow.{
  trades_of, Flows, start-Flows, submits-Flows, parsed-Flows, taken-Flows, added-Flows,
  pushed-Flows,
}

module _ (lib : JsonLibrary) (hash : Bytes → ℕ) (n window_ms : ℕ) where
  Input-Flows :
      (i : ℕ) {s t : System}
      → Input lib hash n window_ms s t
      → Flows lib hash n i s
      → Flows lib hash n i t
  Input-Flows i {s} (Input.submits raw {b = true} {q = q} h) f =
      submits-Flows lib hash n i s raw q ((push-Pushed s.raw_queue q raw true h).1) f
  Input-Flows i {s} (Input.submits raw {b = false} {q = q} h) f =
      ground (arith, push-Pushed s.raw_queue q raw false h)
  Input-Flows i (Input.calls_stop e) f = f

  -- While the parser has a trade, the queue of each shard is open.
  pub routes_open :
      (i : ℕ) (s : System) (t : TradeEvent)
      → s.parser ≡ routes t
      → IsOrdered s
      → IsShardOrdered i s
      → (s.shards i).queue.shut ≡ false
  routes_open i s t e o v = ground arith

  Move-Flows :
      (i : ℕ) {s t : System}
      → 0 < n
      → IsOrdered s
      → ((j : ℕ) → j < n → IsShardOrdered j s)
      → Move lib hash n window_ms s t
      → Flows lib hash n i s
      → Flows lib hash n i t
  unfolding writer_extracted stop_extracted shutdown
  Move-Flows i {s} m o v (Move.parser_pops {r = r} {q = q} e h) f =
      parsed-Flows lib hash n i s r q e h f
  Move-Flows i {s} m o v (Move.parser_pushes {t = t} {b = true} {q = q} e h) f =
      pushed-Flows lib hash n i s t q e
        ((push-Pushed (s.shards (shard_of hash n t)).queue q t true h).1) f
  Move-Flows i {s} m o v (Move.parser_pushes {t = t} {b = false} {q = q} e h) f =
      let k : ℕ = shard_of hash n t in
      ground (
        arith,
        push-Pushed (s.shards k).queue q t false h,
        routes_open k s t e o (v k (mod-lt (hash t.symbol) m)),
      )
  Move-Flows i {s} m o v (Move.worker_pops j {r = r} {q = q} l e h) f =
      taken-Flows lib hash n i j s r q e h f
  Move-Flows i {s} m o v (Move.worker_adds j {t = t} l e) f = added-Flows lib hash n i j s t e f
  Move-Flows i m o v (Move.writer_wakes now e h) f = f
  Move-Flows i m o v (Move.writer_extracts e l) f = ground arith
  Move-Flows i m o v (Move.writer_writes e) f = f
  Move-Flows i m o v (Move.writer_ends e h) f = f
  Move-Flows i m o v (Move.stop_joins_writer e h) f = f
  Move-Flows i m o v (Move.stop_joins_parser e h) f = f
  Move-Flows i m o v (Move.stop_shuts e l) f = ground arith
  Move-Flows i m o v (Move.stop_shut_all e) f = f
  Move-Flows i m o v (Move.stop_joins_workers e h) f = f
  Move-Flows i m o v (Move.stop_extracts e l) f = ground arith
  Move-Flows i m o v (Move.stop_writes e) f = f

  module _ {c d : ℕ} where
    -- In every state that the threads reach, for each shard `i`: the trades of the accepted messages
    -- that go to this shard are, in the order of the messages, the trades its thread has added, then
    -- the one it holds, then those in its queue, then those of shard `i` that the parser holds or
    -- that are in the raw queue. The number of shards is not 0.
    pub Reach-Flows :
        (i : ℕ) → 0 < n → {s : System} → Reach lib hash n window_ms c d s → Flows lib hash n i s
    Reach-Flows i m Reach.started = start-Flows lib hash n i window_ms c d
    Reach-Flows i m (Reach.moves r step) =
        Move-Flows i m (Reach-IsOrdered lib hash n window_ms r)
          (λ j l. Reach-IsShardOrdered lib hash n window_ms j l r) step (Reach-Flows i m r)
    Reach-Flows i m (Reach.inputs r step) = Input-Flows i step (Reach-Flows i m r)

    -- Once stop() has joined the threads of the shards, whatever the interleaving was, the thread of
    -- each shard has added exactly the trades of that shard in the accepted messages, in their order.
    pub stop-added :
        (i : ℕ)
        → i < n
        → {s : System} → Reach lib hash n window_ms c d s
        → workers_joined s.stopper ≡ true
        → s.added i ≡ for_shard hash n i (trades_of lib s.accepted)
    stop-added i l {s} r e =
        let o : IsOrdered s = Reach-IsOrdered lib hash n window_ms r in
        let v : IsShardOrdered i s = Reach-IsShardOrdered lib hash n window_ms i l r in
        let flows : Flows lib hash n i s = Reach-Flows i (omega arith) r in
        ground (
          arith,
          e,
          flows,
          o.parser_next,
          o.parser_over,
          v.worker_next,
          v.worker_over,
          append-nil (s.added i),
        )
