-- ===== src/Tests/Stops.antt =====
-- Interleavings of NetworkStage::stop() with the thread of NetworkStage.
use binance_aggregator.NetworkStage.LastMoves.{Moves, stays, goes, stop-ends}
use binance_aggregator.Prelude.{ℕ, ◌+◌, ◌≤◌, ◌≡◌, refl, true, some}
use binance_aggregator.NetworkStage.Interleaving.{
  Stage, Reach, started, moves, meets, Move, Outside, Client, usable, reads, joins, returned,
}
use binance_aggregator.NetworkStage.LastClient.{IsGuarded, Reach-IsGuarded}

-- stop() waits for the thread, and the thread reads from a stream that nobody closes.
abbrev IsLost : Stage → Type 0
IsLost s =
    (s.stopper ≡ joins)
    × (s.thread ≡ reads)
    × ((c : Client) × (s.client ≡ some c) × (c.stream ≡ usable))

-- stop() comes between the test of the loop and the making of the client.
abbrev before_client : (s : Stage) × Reach s
before_client =
    let called = meets (moves started (Move.loop_goes_on refl refl)) (Outside.calls_stop refl) in
    let stopped = moves (moves called (Move.policy_stops refl)) (Move.finds_no_client refl refl) in
    let run =
      moves (moves stopped (Move.makes_client refl (λ e. absurd (cc))))
        (Move.begins_run refl refl) in
    let resolved = moves (moves run (Move.resolve_works refl)) (Move.run_goes_on refl refl refl) in
    (_, moves (moves resolved (Move.emplaces_stream refl refl)) (Move.connect_works refl))

before_client-IsLost : IsLost (before_client.0)
before_client-IsLost = (refl, refl, (_, refl, refl))

-- stop() comes between the load of the client's flag and the making of its stream.
abbrev before_stream : (s : Stage) × Reach s
before_stream =
    let made =
      moves (moves started (Move.loop_goes_on refl refl))
        (Move.makes_client refl (λ e. absurd (cc))) in
    let run = moves (moves made (Move.begins_run refl refl)) (Move.resolve_works refl) in
    let loaded = meets (moves run (Move.run_goes_on refl refl refl)) (Outside.calls_stop refl) in
    let stopped = moves (moves loaded (Move.policy_stops refl)) (Move.client_stops refl refl) in
    let closed = moves stopped (Move.stream_closes refl refl) in
    (_, moves (moves closed (Move.emplaces_stream refl refl)) (Move.connect_works refl))

before_stream-IsLost : IsLost (before_stream.0)
before_stream-IsLost = (refl, refl, (_, refl, refl))

Reach-IsGuarded_example : IsGuarded (before_client.0)
Reach-IsGuarded_example = Reach-IsGuarded (before_client.1)

-- main's call of stop() has returned before a client was made, and the destructor calls it again.
abbrev stopped_twice : (s : Stage) × Reach s
stopped_twice =
    let called = meets started (Outside.calls_stop refl) in
    let stopped = moves (moves called (Move.policy_stops refl)) (Move.finds_no_client refl refl) in
    let returned_once =
      moves (moves stopped (Move.loop_ends refl refl)) (Move.joins_thread refl refl) in
    (_, meets returned_once (Outside.calls_stop_again refl))

-- The destructor's call comes to its join.
joins_again : (s : Stage) × Moves 2 (stopped_twice.0) s
joins_again = (_, goes (Move.policy_stops refl) (goes (Move.finds_no_client refl refl) stays))

-- The thread waits in the push of a second message to a full queue when stop() is called.
abbrev waits_in_push : (s : Stage) × Reach s
waits_in_push =
    let made =
      moves (moves started (Move.loop_goes_on refl refl))
        (Move.makes_client refl (λ e. absurd (cc))) in
    let run = moves (moves made (Move.begins_run refl refl)) (Move.resolve_works refl) in
    let connected =
      moves (moves (moves run (Move.run_goes_on refl refl refl)) (Move.emplaces_stream refl refl))
        (Move.connect_works refl) in
    let pushed =
      moves (meets connected (Outside.read_works refl)) (Move.push_ends true refl refl) in
    (_, meets (meets pushed (Outside.read_works refl)) (Outside.calls_stop refl))

-- The parser takes a message.
has_room : (s : Stage) × Moves 1 (waits_in_push.0) s
has_room = (_, goes (Move.queue_has_room refl) stays)

stop-ends_example :
    (1 ≤ 14)
    × ((j : ℕ) × (u : Stage) × Moves j (has_room.0) u × (u.stopper ≡ returned) × (1 + j ≤ 14))
stop-ends_example = stop-ends (waits_in_push.1) refl (has_room.1)
