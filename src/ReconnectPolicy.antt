-- ===== src/ReconnectPolicy.antt =====
-- app/include/agg/net/ReconnectPolicy.hpp and app/src/net/ReconnectPolicy.cpp. The doubles and the
-- random numbers of apply_jitter are an interface; where a delay is only passed on, apply_jitter is a
-- parameter. wait_for_next_attempt takes whether stop() was called while it waited.
pub mod Backoff
pub mod Jitter
use binance_aggregator.Prelude.{
  ℕ, zero, suc, ◌+◌, ◌*◌, ◌%◌, ◌^◌, Bool, true, false, ◌||◌, ltb, if◌then◌else◌,
}
use binance_aggregator.Prelude.Int.{ℤ, to_i64, u64_mod}

-- std::min
abbrev pub min : ℕ → ℕ → ℕ
min a b = if ltb b a then b else a

-- The fields of agg::config::ReconnectConfig that the delay depends on, and the guarded state.
pub record ReconnectPolicy : Type 0 where
  pub initial_backoff_ms : ℕ
  pub max_backoff_ms : ℕ
  pub attempt : ℕ
  pub stop_requested : Bool

-- The constructor.
abbrev pub new : ℕ → ℕ → ReconnectPolicy
new initial maximum = record {
  initial_backoff_ms = initial;
  max_backoff_ms = maximum;
  attempt = 0;
  stop_requested = false;
}

-- The loop, with the rounds left.
unfoldable pub double_delay : ℕ → ℕ → ℕ → ℕ
double_delay maximum zero delay = delay
double_delay maximum (suc rounds) delay =
    let next = double_delay maximum rounds ((delay * 2) % u64_mod) in
    if ltb delay maximum then next else delay

-- The count of std::chrono::milliseconds is an int64_t.
unfoldable pub base_delay_for_attempt : ReconnectPolicy → ℕ → ℤ
base_delay_for_attempt policy attempt = to_i64 (
    min (double_delay policy.max_backoff_ms attempt policy.initial_backoff_ms)
      policy.max_backoff_ms)

-- The delay that wait_for is given.
pub next_delay : (ℤ → ℤ) → ReconnectPolicy → ℤ
next_delay apply_jitter policy = apply_jitter (base_delay_for_attempt policy policy.attempt)

-- wait_for returns the value of its predicate; `attempt_` is an unsigned of 32 bits.
unfoldable pub wait_for_next_attempt : Bool → ReconnectPolicy → Bool × ReconnectPolicy
wait_for_next_attempt stopped policy =
    let interrupted = policy.stop_requested || stopped in
    if interrupted
    then (false, record policy { stop_requested = true })
    else (true, record policy { attempt = (policy.attempt + 1) % 2 ^ 32 })

unfoldable pub stop : ReconnectPolicy → ReconnectPolicy
stop policy = record policy { stop_requested = true }

unfoldable pub reset : ReconnectPolicy → ReconnectPolicy
reset policy = record policy { attempt = 0; stop_requested = false }

abbrev pub current_attempt : ReconnectPolicy → ℕ
current_attempt policy = policy.attempt

-- What apply_jitter uses of double, other than NaN, of std::mt19937 and of
-- std::uniform_real_distribution. The engine stands for the state of rng_.
pub record DoubleLibrary : Type 1 where
  pub Double : Type 0
  pub Engine : Type 0
  pub zero_point_zero : Double
  pub less : Double → Double → Bool
  pub less_or_equal : Double → Double → Bool
  pub add : Double → Double → Double
  pub subtract : Double → Double → Double
  pub multiply : Double → Double → Double
  pub from_int64 : ℤ → Double
  pub to_int64 : Double → ℤ
  pub draw : Double → Double → Engine → Double × Engine

module _ (doubles : DoubleLibrary) where
  -- std::max(0.0, x)
  abbrev pub max_zero : doubles.Double → doubles.Double
  max_zero x = if doubles.less doubles.zero_point_zero x then x else doubles.zero_point_zero

  unfoldable pub apply_jitter : doubles.Double → ℤ → doubles.Engine → ℤ × doubles.Engine
  apply_jitter jitter_ratio base engine =
      let base_ms = doubles.from_int64 base in
      let spread = doubles.multiply base_ms jitter_ratio in
      let (jittered_ms, next) =
        doubles.draw (doubles.subtract base_ms spread) (doubles.add base_ms spread) engine in
      if doubles.less_or_equal jitter_ratio doubles.zero_point_zero
      then (base, engine)
      else (doubles.to_int64 (max_zero jittered_ms), next)
