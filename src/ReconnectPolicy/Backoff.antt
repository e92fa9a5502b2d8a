-- ===== src/ReconnectPolicy/Backoff.antt =====
-- The delay in closed form, as the comment above base_delay_for_attempt states it, and over a run
-- of failed attempts.
use binance_aggregator.Prelude.{
  ℕ, zero, suc, ◌+◌, ◌*◌, ◌%◌, ◌^◌, ◌≤◌, ◌<◌, ◌≡◌, refl, ap, ◌∙◌, inl, inr, false, arith, ltb,
  Bool-cases, lt→ltb,
}
use binance_aggregator.Prelude.Int.{pos, to_i64, u64_mod}
use binance_aggregator.ReconnectPolicy.{
  min, ReconnectPolicy, new, double_delay, base_delay_for_attempt, wait_for_next_attempt,
  next_delay,
}

one_le_pow : (n : ℕ) → 1 ≤ 2 ^ n
one_le_pow zero = omega arith
one_le_pow (suc n) = omega (arith, one_le_pow n)

doubled : (delay n : ℕ) → delay * 2 * 2 ^ n ≡ delay * 2 ^ suc n
doubled delay n = grind arith

grows : (delay n : ℕ) → delay ≤ delay * 2 ^ n
grows delay n = grind (arith, one_le_pow n)

min-double_delay :
    (maximum n delay : ℕ)
    → maximum ≤ 2 ^ 63
    → min (double_delay maximum n delay) maximum ≡ min (delay * 2 ^ n) maximum
unfolding double_delay
min-double_delay maximum zero delay h = ground arith
min-double_delay maximum (suc n) delay h = elim (Bool-cases (ltb delay maximum)) [
  | inl low ↦
      let no_wrap : (delay * 2) % u64_mod ≡ delay * 2 = ground arith in
      rw low
        (min-double_delay maximum n ((delay * 2) % u64_mod) h ∙ rw (no_wrap, doubled delay n) refl)
  | inr high ↦ rw high (ground (arith, grows delay (suc n)))
]

-- The policy after the given number of failed attempts, each waited out.
pub after_failures : ℕ → ReconnectPolicy → ReconnectPolicy
after_failures zero policy = policy
after_failures (suc n) policy = (wait_for_next_attempt false (after_failures n policy)).1

after_failures-attempt :
    (n initial maximum : ℕ)
    → n < 2 ^ 32
    → after_failures n (new initial maximum) ≡ record (new initial maximum) { attempt = n }
unfolding after_failures wait_for_next_attempt
after_failures-attempt zero initial maximum h = refl
after_failures-attempt (suc n) initial maximum h =
    let fits : (n + 1) % 2 ^ 32 ≡ suc n = ground arith in
    ap (λ p. (wait_for_next_attempt false p).1)
      (after_failures-attempt n initial maximum (omega arith))
    ∙ ap (λ a. record (new initial maximum) { attempt = a }) fits

min_bound : (a b : ℕ) → min a b ≤ b
min_bound a b = ground arith

pub next_delay-at :
    (initial maximum n : ℕ)
    → maximum < 2 ^ 63
    → next_delay (λ d. d) (record (new initial maximum) { attempt = n })
      ≡ pos (min (initial * 2 ^ n) maximum)
unfolding next_delay base_delay_for_attempt to_i64
next_delay-at initial maximum n k =
    rw
      (
        min-double_delay maximum n initial (omega arith),
        lt→ltb (min (initial * 2 ^ n) maximum) (2 ^ 63)
            (omega (arith, min_bound (initial * 2 ^ n) maximum)),
      )
      refl

-- After n failed attempts, for n below 2 ^ 32 and a max_backoff_ms below 2 ^ 63, the delay before
-- jitter is the smaller one of initial_backoff_ms * 2 ^ n and max_backoff_ms.
pub next_delay-after_failures :
    (n initial maximum : ℕ)
    → n < 2 ^ 32
    → maximum < 2 ^ 63
    → next_delay (λ d. d) (after_failures n (new initial maximum))
      ≡ pos (min (initial * 2 ^ n) maximum)
next_delay-after_failures n initial maximum h k =
    ap (next_delay (λ d. d)) (after_failures-attempt n initial maximum h)
    ∙ next_delay-at initial maximum n k
