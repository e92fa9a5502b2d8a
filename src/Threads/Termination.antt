-- ===== src/Threads/Termination.antt =====
-- What is left to do once stop() has been called, and that every move makes it less.
use binance_aggregator.Prelude.{
  ℕ, ◌<◌, ◌≡◌, ◌∙◌, ◌⊎◌, Bool, true, false, [], ◌∷◌, length-append, Option, none, some, Bytes,
  arith, inl, inr, Option-cases,
}
use binance_aggregator.BoundedQueue.{BoundedQueue, returns, push, pop, shutdown}
use binance_aggregator.BoundedQueue.Bounds.{push-Pushed, pop-Popped}
use binance_aggregator.Aggregation.{TradeEvent, extract_completed_windows, extract_all_windows}
use binance_aggregator.Json.{JsonLibrary}
use binance_aggregator.TradeParser
use binance_aggregator.Pipeline.{Shard, aggregate}
use binance_aggregator.Threads.{
  awaits_message, routes, awaits_trade, adds, worker_ended, parsed, taken, update, set_queue,
  writer_extracted, stop_extracted, System, shard_of, cutoff, Move,
}
use native.Mathlib.Nat.{mod-lt}
use binance_aggregator.Threads.Load.{work, shard-work, worker-work}

module _ (lib : JsonLibrary) (hash : Bytes → ℕ) (n window_ms : ℕ) where
  -- The move has done some of the work, and stop() is called exactly if it was.
  abbrev Works : System → System → Type 0
  Works s t = (work n t < work n s) × (t.stop_requested ≡ s.stop_requested)

  parsed-work :
      (s : System) (r : Option Bytes) (q : BoundedQueue Bytes)
      → s.parser ≡ awaits_message
      → pop s.raw_queue ≡ returns r q
      → Works s (parsed lib r (record s { raw_queue = q }))
  unfolding parsed
  parsed-work s none q e h = ground (arith, pop-Popped s.raw_queue q none h)
  parsed-work s (some raw) q e h = elim (Option-cases (TradeParser.parse lib raw)) [
    | inl no_trade ↦ ground (arith, pop-Popped s.raw_queue q (some raw) h, no_trade)
    | inr found ↦ ground (arith, pop-Popped s.raw_queue q (some raw) h, found)
  ]

  taken-work :
      (i : ℕ) (s : System) (r : Option TradeEvent) (q : BoundedQueue TradeEvent)
      → i < n
      → s.workers i ≡ awaits_trade
      → pop (s.shards i).queue ≡ returns r q
      → Works s (taken i r (record s { shards = set_queue s.shards i q }))
  unfolding taken
  taken-work i s none q l e h =
      let x : Shard = record (s.shards i) { queue = q } in
      ground (
        arith,
        pop-Popped (s.shards i).queue q none h,
        shard-work n s.shards s.workers i x l,
        worker-work n (update s.shards i x) s.workers i worker_ended l,
      )
  taken-work i s (some t) q l e h =
      let x : Shard = record (s.shards i) { queue = q } in
      ground (
        arith,
        pop-Popped (s.shards i).queue q (some t) h,
        shard-work n s.shards s.workers i x l,
        worker-work n (update s.shards i x) s.workers i (adds t) l,
      )

  pushed-work :
      (s : System) (t : TradeEvent) (b : Bool) (q : BoundedQueue TradeEvent)
      → 0 < n
      → s.parser ≡ routes t
      → push (s.shards (shard_of hash n t)).queue t ≡ returns b q
      → Works s
          (record s { shards = set_queue s.shards (shard_of hash n t) q; parser = awaits_message })
  pushed-work s t true q m e h =
      let k : ℕ = shard_of hash n t in
      ground (
        arith,
        push-Pushed (s.shards k).queue q t true h,
        length-append (s.shards k).queue.items (t ∷ []),
        shard-work n s.shards s.workers k (record (s.shards k) { queue = q })
            (mod-lt (hash t.symbol) m),
      )
  pushed-work s t false q m e h =
      let k : ℕ = shard_of hash n t in
      ground (
        arith,
        push-Pushed (s.shards k).queue q t false h,
        shard-work n s.shards s.workers k (record (s.shards k) { queue = q })
            (mod-lt (hash t.symbol) m),
      )

  pub Move-Works :
      {s t : System}
      → 0 < n
      → Move lib hash n window_ms s t
      → (s.stop_requested ≡ true) ⊎ (t.writer ≡ s.writer)
      → Works s t
  unfolding writer_extracted stop_extracted aggregate shutdown
  Move-Works {s} m (Move.parser_pops {r = r} {q = q} e h) c = parsed-work s r q e h
  Move-Works {s} m (Move.parser_pushes {t = t} {b = b} {q = q} e h) c = pushed-work s t b q m e h
  Move-Works {s} m (Move.worker_pops i {r = r} {q = q} l e h) c = taken-work i s r q l e h
  Move-Works {s} m (Move.worker_adds i {t = t} l e) c =
      let x : Shard = aggregate t (s.shards i) in
      ground (
        arith,
        shard-work n s.shards s.workers i x l,
        worker-work n (update s.shards i x) s.workers i awaits_trade l,
      )
  Move-Works m (Move.writer_wakes now e h) (inl c) = absurd (cc)
  Move-Works m (Move.writer_wakes now e h) (inr w) = absurd (cc (w, e))
  Move-Works {s} m (Move.writer_extracts {now = now} {i = i} e l) c = ground (
    arith,
    shard-work n s.shards s.workers i
        (record (s.shards i) {
          aggregator = (extract_completed_windows (s.shards i).aggregator (cutoff window_ms now)).1;
        })
        l,
  )
  Move-Works m (Move.writer_writes e) c = ground arith
  Move-Works m (Move.writer_ends e h) c = ground arith
  Move-Works m (Move.stop_joins_writer e h) c = ground arith
  Move-Works m (Move.stop_joins_parser e h) c = ground arith
  Move-Works {s} m (Move.stop_shuts {i = i} e l) c = ground (
    arith,
    shard-work n s.shards s.workers i (record (s.shards i) { queue = shutdown (s.shards i).queue })
        l,
  )
  Move-Works m (Move.stop_shut_all e) c = ground arith
  Move-Works m (Move.stop_joins_workers e h) c = ground arith
  Move-Works {s} m (Move.stop_extracts {i = i} e l) c = ground (
    arith,
    shard-work n s.shards s.workers i
        (record (s.shards i) { aggregator = (extract_all_windows (s.shards i).aggregator).1 }) l,
  )
  Move-Works m (Move.stop_writes e) c = ground arith

  pub Move-work :
      {s t : System}
      → 0 < n
      → Move lib hash n window_ms s t
      → s.stop_requested ≡ true
      → (work n t < work n s) × (t.stop_requested ≡ true)
  Move-work m x c = let (less, same) = Move-Works m x (inl c) in (less, same ∙ c)
