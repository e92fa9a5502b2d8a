-- ===== src/NetworkStage/Retries.antt =====
-- The delays over a run of attempts, and the end of the loop after stop().
use binance_aggregator.Prelude.{
  ℕ, suc, ◌+◌, ◌*◌, ◌%◌, ◌^◌, ◌≤◌, ◌<◌, ◌≡◌, ◌≢◌, refl, ap, ◌∙◌, inl, inr, Bool, true, false, ◌||◌,
  List, [], ◌∷◌, Option, arith, length, if◌then◌else◌, Bool-cases,
}
use binance_aggregator.Prelude.Int.{pos}
use binance_aggregator.ReconnectPolicy
use binance_aggregator.ReconnectPolicy.{ReconnectPolicy, wait_for_next_attempt, next_delay, min}
use binance_aggregator.ReconnectPolicy.Backoff.{next_delay-at}
use binance_aggregator.ConnectionError.{ConnectionStage}
use binance_aggregator.NetworkStage.{
  NetworkStage, StopMoment, never, before_load, before_reset, while_waiting, Attempt, new, stop,
  had_successful_read, Progress, ended, continues, after_wait, reset_and_wait, connect, go_on, run,
}

-- An attempt that is not interrupted.
abbrev pub tried : Option ConnectionStage → Attempt
tried reported = record { reported = reported; stop_moment = never }

abbrev pub tries : List (Option ConnectionStage) → List Attempt
tries [] = []
tries (r ∷ rs) = tried r ∷ tries rs

-- How many attempts there have been from the last one that reported a failed read, itself counted,
-- or from the start with `n`.
abbrev pub streak : ℕ → List (Option ConnectionStage) → ℕ
streak n [] = n
streak n (r ∷ rs) = streak (if had_successful_read r then 1 else suc n) rs

abbrev at_attempt : ℕ → ℕ → ℕ → NetworkStage
at_attempt initial maximum n = record {
  stop_requested = false;
  policy = record (ReconnectPolicy.new initial maximum) { attempt = n };
}

connect-tried :
    (initial maximum n : ℕ) (r : Option ConnectionStage)
    → n + 1 < 2 ^ 32
    → connect (at_attempt initial maximum n) (tried r)
      ≡ continues (at_attempt initial maximum (if had_successful_read r then 1 else suc n))
unfolding connect reset_and_wait wait_for_next_attempt ReconnectPolicy.reset
connect-tried initial maximum n r h =
    let fits : (n + 1) % 2 ^ 32 ≡ suc n = ground arith in
    elim (Bool-cases (had_successful_read r)) [
      | inl read ↦ rw read refl
      | inr failed ↦ rw failed (ap (λ k. continues (at_attempt initial maximum k)) fits)
    ]

run-tries :
    (initial maximum n : ℕ) (rs : List (Option ConnectionStage))
    → n + length rs < 2 ^ 32
    → run (at_attempt initial maximum n) (tries rs)
      ≡ continues (at_attempt initial maximum (streak n rs))
unfolding run
run-tries initial maximum n [] h = refl
run-tries initial maximum n (r ∷ rs) h =
    ap (λ p. go_on p (λ next. run next (tries rs)))
      (connect-tried initial maximum n r (omega arith))
    ∙ run-tries initial maximum (if had_successful_read r then 1 else suc n) rs (ground arith)

streak_bound : (n : ℕ) (rs : List (Option ConnectionStage)) → streak n rs ≤ n + length rs
streak_bound n [] = omega arith
streak_bound n (r ∷ rs) =
    ground (arith, streak_bound (if had_successful_read r then 1 else suc n) rs)

-- The attempts from a new stage on, none interrupted and fewer than 2 ^ 32: the loop goes on, and
-- the delay before jitter that comes next is the smaller one of max_backoff_ms, below 2 ^ 63, and
-- initial_backoff_ms * 2 ^ n, where n counts the attempts from the last one that reported a failed
-- read, itself counted, or all of them if none did.
pub run-streak :
    (initial maximum : ℕ) (rs : List (Option ConnectionStage))
    → length rs < 2 ^ 32
    → maximum < 2 ^ 63
    → (stage : NetworkStage) × (run (new initial maximum) (tries rs) ≡ continues stage)
      × (next_delay (λ d. d) stage.policy ≡ pos (min (initial * 2 ^ streak 0 rs) maximum))
run-streak initial maximum rs h k = (
  at_attempt initial maximum (streak 0 rs),
  run-tries initial maximum 0 rs (omega arith),
  next_delay-at initial maximum (streak 0 rs) k,
)

-- The stop flag of the state in which a round leaves the loop, or goes on.
abbrev flag_of : Progress → Bool
flag_of (ended stage) = stage.stop_requested
flag_of (continues stage) = stage.stop_requested

after_wait_stopped :
    (stage : NetworkStage) (stopped : Bool) (w : Bool × ReconnectPolicy)
    → (stage.stop_requested || stopped) ≡ true
    → flag_of (after_wait stage stopped w) ≡ true
unfolding after_wait
after_wait_stopped stage stopped (true, policy) h = h
after_wait_stopped stage stopped (false, policy) h = h

reset_and_wait_stopped :
    (read stopped : Bool) (stage : NetworkStage)
    → (stage.stop_requested || stopped) ≡ true
    → flag_of (reset_and_wait read stopped stage) ≡ true
unfolding reset_and_wait
reset_and_wait_stopped read stopped stage h = after_wait_stopped stage stopped _ h

guarded :
    (b : Bool) (stage : NetworkStage) (p : Progress)
    → stage.stop_requested ≡ b
    → flag_of p ≡ true
    → flag_of (if b then ended stage else p) ≡ true
guarded true stage p e h = e
guarded false stage p e h = h

or_true : (b : Bool) → (b || true) ≡ true
or_true true = refl
or_true false = refl

connect_stopped :
    (stage : NetworkStage) (r : Option ConnectionStage) (m : StopMoment)
    → m ≢ never
    → flag_of (connect stage (record { reported = r; stop_moment = m })) ≡ true
unfolding connect
connect_stopped stage r never h = absurd (h refl)
connect_stopped stage r before_load h = unfold stop in refl
connect_stopped stage r before_reset h =
    guarded stage.stop_requested stage _ refl
      (reset_and_wait_stopped (had_successful_read r) false (stop stage) (unfold stop in refl))
connect_stopped stage r while_waiting h =
    guarded stage.stop_requested stage _ refl
      (reset_and_wait_stopped (had_successful_read r) true stage (or_true stage.stop_requested))

stops_after :
    (p : Progress) (attempts : List Attempt)
    → flag_of p ≡ true
    → (last : NetworkStage) × (last.stop_requested ≡ true)
      × (go_on p (λ next. run next attempts) ≡ ended last)
      × (go_on p (λ next. run next []) ≡ ended last)
unfolding run
stops_after (ended stage) attempts h = (stage, h, refl, refl)
stops_after (continues stage) [] h = (stage, h, rw h refl, rw h refl)
stops_after (continues stage) (a ∷ attempts) h = (stage, h, rw h refl, rw h refl)

-- The test at the head of the loop.
tested :
    (b : Bool) (stage : NetworkStage) (p q : Progress)
    → stage.stop_requested ≡ b
    → (last : NetworkStage) × (last.stop_requested ≡ true) × (p ≡ ended last) × (q ≡ ended last)
    → (last : NetworkStage) × (last.stop_requested ≡ true)
      × ((if b then ended stage else p) ≡ ended last)
      × ((if b then ended stage else q) ≡ ended last)
tested true stage p q e h = (stage, e, refl, refl)
tested false stage p q e h = h

-- If stop() comes during an attempt, at whichever moment, the loop ends in that round or at the head
-- of the next one, before another connection is made: it ends in the same state whatever attempts
-- would come after.
pub run-stopped :
    (stage : NetworkStage) (a : Attempt) (attempts : List Attempt)
    → a.stop_moment ≢ never
    → (last : NetworkStage) × (last.stop_requested ≡ true)
      × (run stage (a ∷ attempts) ≡ ended last)
      × (run stage (a ∷ []) ≡ ended last)
unfolding run
run-stopped stage a attempts h =
    tested stage.stop_requested stage _ _ refl
      (stops_after (connect stage a) attempts (connect_stopped stage a.reported a.stop_moment h))
