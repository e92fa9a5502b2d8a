-- ===== src/Tests/Delays.antt =====
-- Runs of apply_jitter (app/src/net/ReconnectPolicy.cpp) with numbers in place of doubles, ratios in
-- tenths, and an engine that counts.
use binance_aggregator.Prelude.{
  ℕ, suc, ◌+◌, ◌-◌, ◌*◌, ◌/◌, ◌≤◌, ◌≡◌, ◌⊎◌, refl, true, leb, ltb, if◌then◌else◌, arith,
}
use binance_aggregator.Prelude.Int.{pos, pos_part}
use binance_aggregator.ReconnectPolicy.{DoubleLibrary, apply_jitter}
use binance_aggregator.ReconnectPolicy.Jitter.{
  IsUniform, IsBetween, lowest, highest, apply_jitter-IsBetween,
}

abbrev numbers : DoubleLibrary
numbers = record {
  Double = ℕ;
  Engine = ℕ;
  zero_point_zero = 0;
  less = ltb;
  less_or_equal = leb;
  add = λ a b. a + b;
  subtract = λ a b. a - b;
  multiply = λ a b. a * b / 10;
  from_int64 = pos_part;
  to_int64 = λ a. pos a;
  draw = λ low high engine. (if leb (low + engine) high then low + engine else high, suc engine);
}

numbers-IsUniform : IsUniform numbers
numbers-IsUniform = record {
  from_less = λ x y h. ground arith;
  from_not_less = λ x y h. ground arith;
  reflexive = λ x. ground arith;
  transitive = λ x y z h k. ground arith;
  above = λ low high engine h. ground arith;
  below = λ low high engine h. ground arith;
  from_zero = refl;
  from_ordered = λ a b h l. ground arith;
  truncates = λ x a b l h k. (x, refl, ground arith, ground arith);
}

-- A fifth of 500, drawn 30 above the lower end.
jittered : apply_jitter numbers 2 (pos 500) 30 ≡ (pos 430, 31)
unfolding apply_jitter
jittered = refl

apply_jitter-IsBetween_example :
    ((leb 2 0 ≡ true) × ((apply_jitter numbers 2 (pos 500) 30).0 ≡ pos 500))
    ⊎ (((x : ℕ) × ((apply_jitter numbers 2 (pos 500) 30).0 ≡ pos x)
          × IsBetween numbers (lowest numbers (pos 500) 2) (highest numbers (pos 500) 2) x)
        × ((m : ℕ) × ((apply_jitter numbers 2 (pos 500) 30).0 ≡ pos m) × (400 ≤ m) × (m ≤ 600)))
apply_jitter-IsBetween_example =
    apply_jitter-IsBetween numbers numbers-IsUniform 2 (pos 500) 30 400 600 refl (omega arith) refl
      refl
