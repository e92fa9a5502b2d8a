-- ===== src/Decimal/Loops.antt =====
-- The loops of `Decimal::parse` on digits: where they stop, and what they compute modulo 2 ^ 64.
use mathlib.Core.List.{foldl}
use binance_aggregator.Prelude.{
  ℕ, zero, suc, ◌+◌, ◌-◌, ◌*◌, ◌%◌, ◌≤◌, ◌≡◌, refl, ap, Bool, true, false, [], ◌∷◌, ◌++◌, Bytes,
  arith, length, replicate, All, if◌then◌else◌,
}
use binance_aggregator.Prelude.Int.{
  ℤ, pos, negsuc, ◌+ℤ◌, ◌*ℤ◌, -ℤ◌, wrap, to_u64, u64_mod, to_u64-wrap, to_u64-add, to_u64-neg,
  wrap-eq_of_u64,
}
use binance_aggregator.Decimal.{
  next_digit, digit_ahead, read_integer, read_fraction, scale_up, finish, ok, from_raw, scale,
  scale_factor,
}
use binance_aggregator.Decimal.Digits.{IsDigit, is_digit, value_from}

to_u64-mul_ten : (a : ℤ) → to_u64 (a *ℤ pos 10) ≡ (to_u64 a * 10) % u64_mod
unfolding to_u64 ◌*ℤ◌
to_u64-mul_ten (pos n) = ground arith
to_u64-mul_ten (negsuc n) = ground arith

to_u64-mul_scale : (a : ℤ) → to_u64 (a *ℤ pos scale_factor) ≡ (to_u64 a * scale_factor) % u64_mod
unfolding to_u64 ◌*ℤ◌
to_u64-mul_scale (pos n) = ground arith
to_u64-mul_scale (negsuc n) = ground arith

to_u64-pos : (n : ℕ) → to_u64 (pos n) ≡ n % u64_mod
unfolding to_u64
to_u64-pos n = refl

-- The part that the loop holds is a number `n` modulo 2 ^ 64.
abbrev pub Holds : ℤ → ℕ → Type 0
Holds part n = to_u64 part ≡ n % u64_mod

pub zero_Holds : Holds (pos 0) 0
unfolding to_u64
zero_Holds = refl

next_digit-Holds :
    (part : ℤ) (n c : ℕ) → Holds part n → Holds (next_digit part c) (n * 10 + (c - b'0'))
unfolding next_digit
next_digit-Holds part n c h =
    rw (to_u64-wrap, to_u64-add, to_u64-wrap, to_u64-mul_ten, to_u64-pos, h) (omega arith)

pub accumulate-Holds :
    (s : Bytes) (part : ℤ) (n : ℕ) → Holds part n → Holds (foldl next_digit part s) (value_from n s)
accumulate-Holds [] part n h = h
accumulate-Holds (c ∷ s) part n h =
    accumulate-Holds s (next_digit part c) (n * 10 + (c - b'0')) (next_digit-Holds part n c h)

pub scale_up-Holds :
    (k : ℕ) (part : ℤ) (n : ℕ)
    → Holds part n
    → Holds (scale_up k part) (value_from n (replicate k b'0'))
unfolding scale_up
scale_up-Holds zero part n h = h
scale_up-Holds (suc k) part n h =
    scale_up-Holds k (wrap (part *ℤ pos 10)) (n * 10 + (b'0' - b'0'))
      (rw (to_u64-wrap, to_u64-mul_ten, h) (omega arith))

abbrev pub negate_if : Bool → ℤ → ℤ
negate_if negative a = if negative then -ℤ◌ a else a

wrap-negate_if :
    (negative : Bool) (x y : ℤ)
    → to_u64 x ≡ to_u64 y
    → (if negative then wrap (-ℤ◌ (wrap x)) else wrap x) ≡ wrap (negate_if negative y)
wrap-negate_if true x y h =
    wrap-eq_of_u64 (-ℤ◌ (wrap x)) (-ℤ◌ y) (rw (to_u64-neg, to_u64-neg, to_u64-wrap, h))
wrap-negate_if false x y h = wrap-eq_of_u64 x y h

-- The end of `parse` on the whole text read: the parts are put together, scaled and negated.
pub finish_lem :
    (negative : Bool) (whole part : ℤ) (n a b : ℕ)
    → Holds whole a
    → Holds part b
    → finish negative whole part n []
      ≡ ok (
          from_raw (
            wrap (
              negate_if negative
                (pos (a * scale_factor + value_from b (replicate (scale - n) b'0'))))))
unfolding finish
finish_lem negative whole part n a b h k =
    ap (λ x. ok (from_raw x)) (wrap-negate_if negative _ _ same)
  where
    same :
        to_u64 (wrap (whole *ℤ pos scale_factor) +ℤ scale_up (scale - n) part)
        ≡ to_u64 (pos (a * scale_factor + value_from b (replicate (scale - n) b'0')))
    same =
        rw
          (
            to_u64-add,
            to_u64-wrap,
            to_u64-mul_scale,
            scale_up-Holds (scale - n) part b k,
            h,
            to_u64-pos,
          )
          (omega arith)

-- The first loop stops at the first character that is no digit.
pub read_integer_lem :
    (s rest : Bytes) (part : ℤ)
    → All IsDigit s
    → digit_ahead rest ≡ false
    → read_integer (s ++ rest) part ≡ (foldl next_digit part s, rest)
unfolding read_integer digit_ahead is_digit
read_integer_lem [] [] part h k = refl
read_integer_lem [] (c ∷ rest) part h k = rw k
read_integer_lem (c ∷ s) rest part h k =
    ground (arith, read_integer_lem s rest (next_digit part c) h.1 k)

-- So does the second, which also counts the digits.
pub read_fraction_lem :
    (s : Bytes) (part : ℤ) (n : ℕ)
    → All IsDigit s
    → n + length s ≤ scale
    → read_fraction s part n ≡ ok (foldl next_digit part s, n + length s, [])
unfolding read_fraction is_digit
read_fraction_lem [] part n h k = ground arith
read_fraction_lem (c ∷ s) part n h k =
    ground (arith, read_fraction_lem s (next_digit part c) (suc n) h.1)
