-- ===== src/NetworkStage/LastClient.antt =====
-- What holds between the thread of NetworkStage and stop(), in every interleaving.
use binance_aggregator.Prelude.{◌≤◌, ◌≡◌, refl, Bool, true, false, Option, none, some, arith}
use binance_aggregator.NetworkStage.Interleaving.{
  Position, makes, enters, resolves, loads, emplaces, connects, reads, pushes, leaves, ended,
  StopPosition, not_called, locks_stream, returned, Client, Stage, start, Move, Outside, Reach,
  started, moves, meets,
}

-- Whether the thread uses the client.
abbrev pub runs_client : Position → Bool
runs_client enters = true
runs_client resolves = true
runs_client loads = true
runs_client emplaces = true
runs_client connects = true
runs_client reads = true
runs_client pushes = true
runs_client (leaves read) = true
runs_client _ = false

abbrev pub is_called : StopPosition → Bool
is_called not_called = false
is_called _ = true

abbrev pub is_some : Option Client → Bool
is_some none = false
is_some (some c) = true

pub record IsGuarded (s : Stage) : Type 0 where
  pub called : is_called s.stopper ≡ s.stop_requested
  pub thread_has_client : is_some s.client ≡ runs_client s.thread
  pub stop_has_client : s.stopper ≡ locks_stream → is_some s.client ≡ true
  pub none_before : s.stop_requested ≡ false → s.late ≡ 0
  pub none_yet : s.thread ≡ makes → s.late ≡ 0
  pub at_most_one : s.late ≤ 1
  pub joined : s.stopper ≡ returned → s.thread ≡ ended

start-IsGuarded : IsGuarded start
start-IsGuarded = record {
  called = refl;
  thread_has_client = refl;
  stop_has_client = λ h. absurd (cc);
  none_before = λ h. refl;
  none_yet = λ h. refl;
  at_most_one = omega arith;
  joined = λ h. absurd (cc);
}

pub Move-IsGuarded : {s t : Stage} → Move s t → IsGuarded s → IsGuarded t
Move-IsGuarded (Move.loop_goes_on e h) v = ground arith
Move-IsGuarded (Move.loop_ends e h) v = ground arith
Move-IsGuarded (Move.makes_client e h) v = ground arith
Move-IsGuarded (Move.begins_run e h) v = ground arith
Move-IsGuarded (Move.resolve_works e) v = ground arith
Move-IsGuarded (Move.resolve_fails e) v = ground arith
Move-IsGuarded (Move.run_goes_on e h f) v = ground arith
Move-IsGuarded (Move.run_is_stopped e h f) v = ground arith
Move-IsGuarded (Move.emplaces_stream e h) v = ground arith
Move-IsGuarded (Move.connect_works e) v = ground arith
Move-IsGuarded (Move.connect_fails e) v = ground arith
Move-IsGuarded (Move.read_fails e) v = ground arith
Move-IsGuarded (Move.push_ends b e h) v = ground arith
Move-IsGuarded (Move.queue_has_room h) v = ground arith
Move-IsGuarded (Move.resets_client e h) v = ground arith
Move-IsGuarded (Move.breaks e h) v = ground arith
Move-IsGuarded (Move.retries {read = true} e h) v = ground arith
Move-IsGuarded (Move.retries {read = false} e h) v = ground arith
Move-IsGuarded (Move.resets e) v = ground arith
Move-IsGuarded (Move.wait_is_over e h) v = ground arith
Move-IsGuarded (Move.wait_is_stopped e h) v = ground arith
Move-IsGuarded (Move.policy_stops e) v = ground arith
Move-IsGuarded (Move.finds_no_client e h) v = ground arith
Move-IsGuarded (Move.client_stops e h) v = ground arith
Move-IsGuarded (Move.stream_closes e h) v = ground arith
Move-IsGuarded (Move.joins_thread e h) v = ground arith

Outside-IsGuarded : {s t : Stage} → Outside s t → IsGuarded s → IsGuarded t
Outside-IsGuarded (Outside.read_works e) v = ground arith
Outside-IsGuarded (Outside.calls_stop e) v = ground arith
Outside-IsGuarded (Outside.calls_stop_again e) v = ground arith

-- In every state that the thread and stop() reach: stop() has been called exactly if the flag is set;
-- a client exists exactly while the thread is in its run() or about to drop it, and also whenever
-- stop() works on it; at most one client has been made since stop() set the flag, and none if the
-- flag is not set or the thread is about to make one; and stop() has returned only with the thread
-- at its end.
pub Reach-IsGuarded : {s : Stage} → Reach s → IsGuarded s
Reach-IsGuarded started = start-IsGuarded
Reach-IsGuarded (moves r m) = Move-IsGuarded m (Reach-IsGuarded r)
Reach-IsGuarded (meets r m) = Outside-IsGuarded m (Reach-IsGuarded r)
