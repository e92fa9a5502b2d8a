-- ===== src/Decimal/Product.antt =====
-- The product of two Decimal values: exact in 128 bits, then divided and truncated.
use native.Mathlib.Nat.{mul-le-mul}
use binance_aggregator.Prelude.{ℕ, ◌+◌, ◌*◌, ◌/◌, ◌^◌, ◌≤◌, ◌<◌, ◌≡◌, arith}
use binance_aggregator.Prelude.Int.{
  ℤ, pos, negsuc, pos_part, neg_part, ◌*ℤ◌, ◌/ℤ◌, wrap, IsI64, wrap_of_IsI64,
}
use binance_aggregator.Decimal.{Decimal, mul, scale_factor}

abbrev pub magnitude_of : ℤ → ℕ
magnitude_of a = pos_part a + neg_part a

magnitude_bound : (a : ℤ) → IsI64 a → magnitude_of a ≤ 2 ^ 63
magnitude_bound (pos n) h = omega (arith, h.upper)
magnitude_bound (negsuc n) h = omega (arith, h.lower)

magnitude-mul : (a b : ℤ) → magnitude_of (a *ℤ b) ≡ magnitude_of a * magnitude_of b
unfolding ◌*ℤ◌
magnitude-mul (pos a) (pos b) = ground arith
magnitude-mul (pos a) (negsuc b) = ground arith
magnitude-mul (negsuc a) (pos b) = ground arith
magnitude-mul (negsuc a) (negsuc b) = ground arith

magnitude-div : (a : ℤ) → magnitude_of (a /ℤ scale_factor) ≡ magnitude_of a / scale_factor
unfolding ◌/ℤ◌
magnitude-div (pos a) = ground arith
magnitude-div (negsuc a) = ground arith

-- The product of two values of an int64_t has a magnitude of at most 2 ^ 126, so it fits the 128
-- bits in which it is taken.
pub product_fits :
    (a b : Decimal) → IsI64 a.raw → IsI64 b.raw → magnitude_of (a.raw *ℤ b.raw) ≤ 2 ^ 126
product_fits a b h k =
    rw (magnitude-mul a.raw b.raw) (mul-le-mul (magnitude_bound a.raw h) (magnitude_bound b.raw k))

-- Where the result fits an int64_t, the exact product of the magnitudes, in units of 10 ^ -16, is
-- not below the magnitude of the result, and less than one unit of 10 ^ -8 above it.
pub mul_truncates :
    (a b : Decimal)
    → IsI64 ((a.raw *ℤ b.raw) /ℤ scale_factor)
    → let exact = magnitude_of a.raw * magnitude_of b.raw in
      let result = magnitude_of (mul a b).raw in
      (result * scale_factor ≤ exact) × (exact < (result + 1) * scale_factor)
unfolding mul
mul_truncates a b h =
    let cut : wrap ((a.raw *ℤ b.raw) /ℤ scale_factor) ≡ (a.raw *ℤ b.raw) /ℤ scale_factor =
      wrap_of_IsI64 _ h in
    rw (cut, magnitude-div (a.raw *ℤ b.raw), magnitude-mul a.raw b.raw) (omega arith, omega arith)
