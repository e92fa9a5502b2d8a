-- ===== src/NetworkStage/Interleaving.antt =====
-- The thread of NetworkStage (app/src/runtime/NetworkStage.cpp) with the client that it runs
-- (app/src/net/BinanceWebSocketClient.cpp), against a thread that calls NetworkStage::stop(). A move
-- is one access to what both share, or what one call of Boost does; how such a call ends is open.
use binance_aggregator.Prelude.{
  ℕ, suc, ◌≡◌, ◌≢◌, Bool, true, false, Option, none, some, if◌then◌else◌,
}

-- Where the thread is: in the loop of NetworkStage::run, and from `enters` to `reads` in
-- BinanceWebSocketClient::run; `pushes` is behind a read, before or in the push of
-- the message. The flag of `leaves` and `rechecks` is had_successful_read.
pub data Position : Type 0 where
  checks makes enters resolves loads emplaces connects reads pushes : Position
  leaves rechecks : Bool → Position
  resets_policy waits ended : Position

-- Where stop() is: not called, before the stop of the policy, before the mutex of the client, in the
-- client's stop() with that mutex and before the mutex of the stream, in join, or returned.
pub data StopPosition : Type 0 where
  not_called stops_policy locks_client locks_stream joins returned : StopPosition

-- The stream of the client: not made, made, or closed.
pub data Stream : Type 0 where
  absent usable closed : Stream

pub record Client : Type 0 where
  pub stop_requested : Bool
  pub stream : Stream

-- `queue_full` tells that raw_message_queue_ is full and not shut down, so that a push waits; only this
-- thread pushes. `late` counts the clients made since stop() has set stop_requested_.
pub record Stage : Type 0 where
  pub stop_requested : Bool
  pub policy_stopped : Bool
  pub client : Option Client
  pub thread : Position
  pub stopper : StopPosition
  pub queue_full : Bool
  pub late : ℕ

abbrev pub start : Stage
start = record {
  stop_requested = false;
  policy_stopped = false;
  client = none;
  thread = checks;
  stopper = not_called;
  queue_full = false;
  late = 0;
}

-- cancel and close, if there is a stream.
abbrev pub close : Stream → Stream
close absent = absent
close usable = closed
close closed = closed

pub data Move (s : Stage) : Stage → Type 0 where
  loop_goes_on : s.thread ≡ checks → s.stop_requested ≡ false → Move s (record s { thread = makes })
  loop_ends : s.thread ≡ checks → s.stop_requested ≡ true → Move s (record s { thread = ended })
  makes_client :
      s.thread ≡ makes
      → s.stopper ≢ locks_stream
      → Move s (record s {
        client = some (record { stop_requested = false; stream = absent });
        thread = enters;
        late = if s.stop_requested then suc s.late else s.late;
      })
  begins_run :
      {c : Client}
      → s.thread ≡ enters
      → s.client ≡ some c
      → Move s (record s { client = some (record c { stop_requested = false }); thread = resolves })
  resolve_works : s.thread ≡ resolves → Move s (record s { thread = loads })
  resolve_fails : s.thread ≡ resolves → Move s (record s { thread = leaves false })
  run_goes_on :
      {c : Client}
      → s.thread ≡ loads
      → s.client ≡ some c
      → c.stop_requested ≡ false
      → Move s (record s { thread = emplaces })
  run_is_stopped :
      {c : Client}
      → s.thread ≡ loads
      → s.client ≡ some c
      → c.stop_requested ≡ true
      → Move s (record s { thread = leaves false })
  emplaces_stream :
      {c : Client}
      → s.thread ≡ emplaces
      → s.client ≡ some c
      → Move s (record s { client = some (record c { stream = usable }); thread = connects })
  connect_works : s.thread ≡ connects → Move s (record s { thread = reads })
  connect_fails : s.thread ≡ connects → Move s (record s { thread = leaves false })
  read_fails : s.thread ≡ reads → Move s (record s { thread = leaves true })
  -- The message comes into the queue, which may be full then.
  push_ends :
      (full : Bool)
      → s.thread ≡ pushes
      → s.queue_full ≡ false
      → Move s (record s { thread = reads; queue_full = full })
  -- The parser takes a message from the queue, or the queue is shut down.
  queue_has_room : s.queue_full ≡ true → Move s (record s { queue_full = false })
  resets_client :
      {read : Bool}
      → s.thread ≡ leaves read
      → s.stopper ≢ locks_stream
      → Move s (record s { client = none; thread = rechecks read })
  breaks :
      {read : Bool}
      → s.thread ≡ rechecks read
      → s.stop_requested ≡ true
      → Move s (record s { thread = ended })
  retries :
      {read : Bool}
      → s.thread ≡ rechecks read
      → s.stop_requested ≡ false
      → Move s (record s { thread = if read then resets_policy else waits })
  resets : s.thread ≡ resets_policy → Move s (record s { policy_stopped = false; thread = waits })
  wait_is_over : s.thread ≡ waits → s.policy_stopped ≡ false → Move s (record s { thread = checks })
  wait_is_stopped :
      s.thread ≡ waits → s.policy_stopped ≡ true → Move s (record s { thread = ended })
  policy_stops :
      s.stopper ≡ stops_policy → Move s (record s { policy_stopped = true; stopper = locks_client })
  finds_no_client :
      s.stopper ≡ locks_client → s.client ≡ none → Move s (record s { stopper = joins })
  client_stops :
      {c : Client}
      → s.stopper ≡ locks_client
      → s.client ≡ some c
      → Move s
          (record s { client = some (record c { stop_requested = true }); stopper = locks_stream })
  stream_closes :
      {c : Client}
      → s.stopper ≡ locks_stream
      → s.client ≡ some c
      → Move s (record s { client = some (record c { stream = close c.stream }); stopper = joins })
  joins_thread : s.stopper ≡ joins → s.thread ≡ ended → Move s (record s { stopper = returned })

-- What comes from outside: a message is read, and is to be pushed; and stop() is called, by main and then, behind the
-- return of that call, by the destructor.
pub data Outside (s : Stage) : Stage → Type 0 where
  read_works : s.thread ≡ reads → Outside s (record s { thread = pushes })
  calls_stop :
      s.stopper ≡ not_called
      → Outside s (record s { stop_requested = true; stopper = stops_policy })
  calls_stop_again :
      s.stopper ≡ returned → Outside s (record s { stop_requested = true; stopper = stops_policy })

pub data Reach : Stage → Type 0 where
  started : Reach start
  moves : {s t : Stage} → Reach s → Move s t → Reach t
  meets : {s t : Stage} → Reach s → Outside s t → Reach t
