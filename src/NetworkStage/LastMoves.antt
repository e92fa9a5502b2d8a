-- ===== src/NetworkStage/LastMoves.antt =====
-- NetworkStage::stop() can come to its end if the calls of Boost end and the raw queue is taken from.
use binance_aggregator.Prelude.{
  ℕ, zero, suc, ◌+◌, ◌≤◌, ◌<◌, ◌≡◌, ◌≢◌, ◌⊎◌, refl, ap, ◌∙◌, inl, inr, Bool, true, false, Option,
  none, some, arith, Bool-cases, Option-cases,
}
use binance_aggregator.NetworkStage.Interleaving.{
  Position, checks, makes, enters, resolves, loads, emplaces, connects, reads, pushes, leaves,
  rechecks, resets_policy, waits, ended, StopPosition, not_called, stops_policy, locks_client,
  locks_stream, joins, returned, Client, Stage, Move, Reach,
}
use binance_aggregator.NetworkStage.LastClient.{
  IsGuarded, Move-IsGuarded, Reach-IsGuarded, is_some, is_called, runs_client,
}

-- The moves that a position is from its end, once stop() has set the flag.
abbrev pub thread_work : Position → ℕ
thread_work makes = 9
thread_work enters = 8
thread_work resolves = 7
thread_work loads = 6
thread_work emplaces = 5
thread_work connects = 4
thread_work reads = 3
thread_work pushes = 5
thread_work (leaves read) = 2
thread_work (rechecks read) = 1
thread_work resets_policy = 3
thread_work waits = 2
thread_work checks = 1
thread_work ended = 0

abbrev pub stop_work : StopPosition → ℕ
stop_work not_called = 0
stop_work stops_policy = 4
stop_work locks_client = 3
stop_work locks_stream = 2
stop_work joins = 1
stop_work returned = 0

-- A full queue is taken from once.
abbrev pub queue_work : Bool → ℕ
queue_work true = 1
queue_work false = 0

abbrev pub work : Stage → ℕ
work s = thread_work s.thread + stop_work s.stopper + queue_work s.queue_full

Move-work :
    {s t : Stage}
    → Move s t
    → s.stop_requested ≡ true
    → (work t < work s) × (t.stop_requested ≡ true)
Move-work (Move.loop_goes_on e h) c = absurd (cc)
Move-work (Move.loop_ends e h) c = ground arith
Move-work (Move.makes_client e h) c = ground arith
Move-work (Move.begins_run e h) c = ground arith
Move-work (Move.resolve_works e) c = ground arith
Move-work (Move.resolve_fails e) c = ground arith
Move-work (Move.run_goes_on e h f) c = ground arith
Move-work (Move.run_is_stopped e h f) c = ground arith
Move-work (Move.emplaces_stream e h) c = ground arith
Move-work (Move.connect_works e) c = ground arith
Move-work (Move.connect_fails e) c = ground arith
Move-work (Move.read_fails e) c = ground arith
Move-work (Move.push_ends true e h) c = ground arith
Move-work (Move.push_ends false e h) c = ground arith
Move-work (Move.queue_has_room h) c = ground arith
Move-work (Move.resets_client e h) c = ground arith
Move-work (Move.breaks e h) c = ground arith
Move-work (Move.retries e h) c = absurd (cc)
Move-work (Move.resets e) c = ground arith
Move-work (Move.wait_is_over e h) c = ground arith
Move-work (Move.wait_is_stopped e h) c = ground arith
Move-work (Move.policy_stops e) c = ground arith
Move-work (Move.finds_no_client e h) c = ground arith
Move-work (Move.client_stops e h) c = ground arith
Move-work (Move.stream_closes e h) c = ground arith
Move-work (Move.joins_thread e h) c = ground arith

work_bound : (s : Stage) → work s ≤ 14
work_bound s = omega (arith, thread_bound s.thread, stop_bound s.stopper, queue_bound s.queue_full)
  where
    thread_bound : (p : Position) → thread_work p ≤ 9
    thread_bound p = ground arith

    stop_bound : (p : StopPosition) → stop_work p ≤ 4
    stop_bound p = ground arith

    queue_bound : (b : Bool) → queue_work b ≤ 1
    queue_bound b = ground arith

client_of : (o : Option Client) → is_some o ≡ true → (c : Client) × (o ≡ some c)
client_of none h = absurd (cc)
client_of (some c) h = (c, refl)

-- The thread is at its end, or it can go on while stop() does not hold the client's mutex.
thread_moves :
    (s : Stage) (p : Position)
    → IsGuarded s
    → s.stop_requested ≡ true
    → s.stopper ≢ locks_stream
    → s.thread ≡ p
    → (s.thread ≡ ended) ⊎ ((t : Stage) × Move s t)
thread_moves s checks v c h e = inr (_, Move.loop_ends e c)
thread_moves s makes v c h e = inr (_, Move.makes_client e h)
thread_moves s enters v c h e =
    inr (_, Move.begins_run e (client_of s.client (v.thread_has_client ∙ ap runs_client e)).1)
thread_moves s resolves v c h e = inr (_, Move.resolve_fails e)
thread_moves s loads v c h e =
    let (x, f) = client_of s.client (v.thread_has_client ∙ ap runs_client e) in
    elim (Bool-cases x.stop_requested) [
      | inl set ↦ inr (_, Move.run_is_stopped e f set)
      | inr clear ↦ inr (_, Move.run_goes_on e f clear)
    ]
thread_moves s emplaces v c h e =
    inr (_, Move.emplaces_stream e (client_of s.client (v.thread_has_client ∙ ap runs_client e)).1)
thread_moves s connects v c h e = inr (_, Move.connect_fails e)
thread_moves s reads v c h e = inr (_, Move.read_fails e)
thread_moves s pushes v c h e = elim (Bool-cases s.queue_full) [
  | inl full ↦ inr (_, Move.queue_has_room full)
  | inr room ↦ inr (_, Move.push_ends false e room)
]
thread_moves s (leaves read) v c h e = inr (_, Move.resets_client e h)
thread_moves s (rechecks read) v c h e = inr (_, Move.breaks e c)
thread_moves s resets_policy v c h e = inr (_, Move.resets e)
thread_moves s waits v c h e = elim (Bool-cases s.policy_stopped) [
  | inl set ↦ inr (_, Move.wait_is_stopped e set)
  | inr clear ↦ inr (_, Move.wait_is_over e clear)
]
thread_moves s ended v c h e = inl e

-- stop() has returned, or something can move.
stop_moves :
    (s : Stage) (p : StopPosition)
    → IsGuarded s
    → s.stop_requested ≡ true
    → s.stopper ≡ p
    → (s.stopper ≡ returned) ⊎ ((t : Stage) × Move s t)
stop_moves s not_called v c e = absurd (cc (ap is_called e, v.called, c))
stop_moves s stops_policy v c e = inr (_, Move.policy_stops e)
stop_moves s locks_client v c e = elim (Option-cases s.client) [
  | inl none_there ↦ inr (_, Move.finds_no_client e none_there)
  | inr (x, there) ↦ inr (_, Move.client_stops e there)
]
stop_moves s locks_stream v c e =
    inr (_, Move.stream_closes e (client_of s.client (v.stop_has_client e)).1)
stop_moves s joins v c e = elim (thread_moves s s.thread v c (λ f. absurd (cc)) refl) [
  | inl done ↦ inr (_, Move.joins_thread e done)
  | inr more ↦ inr more
]
stop_moves s returned v c e = inl e

-- `k` moves, one after the other.
pub data Moves : ℕ → Stage → Stage → Type 0 where
  stays : {s : Stage} → Moves 0 s s
  goes : {k : ℕ} {s t u : Stage} → Move s t → Moves k t u → Moves (suc k) s u

-- Any moves take their number off the work, and keep the invariant and the flag.
moves-work :
    {k : ℕ} {s t : Stage}
    → Moves k s t
    → IsGuarded s
    → s.stop_requested ≡ true
    → (k + work t ≤ work s) × IsGuarded t × (t.stop_requested ≡ true)
moves-work stays v c = (omega arith, v, c)
moves-work (goes x xs) v c =
    let (less, still) = Move-work x c in
    let (rest, kept, last) = moves-work xs (Move-IsGuarded x v) still in
    (omega (arith, less, rest), kept, last)

returns_within :
    (fuel : ℕ) (s : Stage)
    → IsGuarded s
    → s.stop_requested ≡ true
    → work s ≤ fuel
    → (k : ℕ) × (t : Stage) × Moves k s t × (t.stopper ≡ returned) × (k ≤ fuel)
returns_within zero s v c b = elim (stop_moves s s.stopper v c refl) [
  | inl done ↦ (0, s, stays, done, omega arith)
  | inr (t, x) ↦ absurd (omega (arith, (Move-work x c).0, b))
]
returns_within (suc fuel) s v c b = elim (stop_moves s s.stopper v c refl) [
  | inl done ↦ (0, s, stays, done, omega arith)
  | inr (t, x) ↦
      let (less, still) = Move-work x c in
      let (k, u, xs, done, l) =
        returns_within fuel t (Move-IsGuarded x v) still (omega (arith, less, b)) in
      (suc k, u, goes x xs, done, omega (arith, l))
]

-- Once stop() has been called, by main or by the destructor, the thread and stop() are left with at
-- most 14 moves as long as no further message is read: after any `k` moves in a row, `k` is at most 14,
-- and with not more than the rest of the 14 moves, stop() can return. Among these are those by which
-- calls of Boost fail, and, if the thread waits in the push of a message to a full queue, the one by
-- which the parser takes a message from the queue.
pub stop-ends :
    {k : ℕ} {s t : Stage}
    → Reach s
    → s.stop_requested ≡ true
    → Moves k s t
    → (k ≤ 14) × ((j : ℕ) × (u : Stage) × Moves j t u × (u.stopper ≡ returned) × (k + j ≤ 14))
stop-ends {s = s} {t = t} r c xs =
    let (less, kept, last) = moves-work xs (Reach-IsGuarded r) c in
    let (j, u, ys, done, l) = returns_within (work t) t kept last (omega arith) in
    (omega (arith, less, work_bound s), (j, u, ys, done, omega (arith, less, work_bound s, l)))
