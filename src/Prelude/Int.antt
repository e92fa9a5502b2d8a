-- ===== src/Prelude/Int.antt =====
-- Signed integers over the native numbers, and the machine integers of 64 bits among them.
use native.Mathlib.Bridge.{le_prop}
use binance_aggregator.Prelude.{
  ℕ, suc, ◌+◌, ◌-◌, ◌*◌, ◌/◌, ◌%◌, ◌^◌, ◌≤◌, ◌<◌, ◌≡◌, ap, Bool, arith, ltb, leb, if◌then◌else◌,
}

-- `negsuc n` is -(n + 1).
pub data ℤ : Type 0 where
  pos : ℕ → ℤ
  negsuc : ℕ → ℤ

abbrev pub pos_part : ℤ → ℕ
pos_part (pos n) = n
pos_part (negsuc n) = 0

abbrev pub neg_part : ℤ → ℕ
neg_part (pos n) = 0
neg_part (negsuc n) = suc n

abbrev pub sub_ℕ : ℕ → ℕ → ℤ
sub_ℕ a b = if leb b a then pos (a - b) else negsuc (b - a - 1)

infixl 65 ◌+ℤ◌
infixl 70 ◌*ℤ◌ ◌/ℤ◌
infix 50 ◌≤ℤ◌
unfoldable pub ◌+ℤ◌ : ℤ → ℤ → ℤ
a +ℤ b = sub_ℕ (pos_part a + pos_part b) (neg_part a + neg_part b)

unfoldable pub -ℤ◌ : ℤ → ℤ
-ℤ◌ a = sub_ℕ (neg_part a) (pos_part a)

unfoldable pub ◌*ℤ◌ : ℤ → ℤ → ℤ
a *ℤ b =
    sub_ℕ (pos_part a * pos_part b + neg_part a * neg_part b)
      (pos_part a * neg_part b + neg_part a * pos_part b)

-- Division by a positive number, truncated towards zero as in C++.
unfoldable pub ◌/ℤ◌ : ℤ → ℕ → ℤ
a /ℤ n = sub_ℕ (pos_part a / n) (neg_part a / n)

abbrev pub ◌≤ℤ◌ : ℤ → ℤ → Type 0
a ≤ℤ b = pos_part a + neg_part b ≤ pos_part b + neg_part a

abbrev pub ltb_ℤ : ℤ → ℤ → Bool
ltb_ℤ a b = ltb (pos_part a + neg_part b) (pos_part b + neg_part a)

abbrev pub u64_mod : ℕ
u64_mod = 2 ^ 64

-- The unsigned reading of an integer modulo 2 ^ 64: a cast to uint64_t.
unfoldable pub to_u64 : ℤ → ℕ
to_u64 (pos n) = n % u64_mod
to_u64 (negsuc n) = u64_mod - 1 - n % u64_mod

-- The integer that a pattern of 64 bits stands for: a cast from uint64_t to int64_t.
unfoldable pub to_i64 : ℕ → ℤ
to_i64 w = if ltb w (2 ^ 63) then pos w else negsuc (u64_mod - 1 - w)

-- A result in int64_t: modulo 2 ^ 64, in two's complement.
unfoldable pub wrap : ℤ → ℤ
unfolding to_u64 to_i64
wrap a = to_i64 (to_u64 a)

-- An integer that int64_t holds.
pub record IsI64 (a : ℤ) : Type 0 where
  pub upper : pos_part a < 2 ^ 63
  pub lower : neg_part a ≤ 2 ^ 63

pub IsI64-IsProp : (a : ℤ) → IsProp (IsI64 a)
IsI64-IsProp a = hlevel (le_prop)

pub wrap_of_IsI64 : (a : ℤ) → IsI64 a → wrap a ≡ a
unfolding wrap
wrap_of_IsI64 (pos n) h = ground arith
wrap_of_IsI64 (negsuc n) h = ground arith

pub wrap-IsI64 : (a : ℤ) → IsI64 (wrap a)
unfolding wrap
wrap-IsI64 (pos n) = ground arith
wrap-IsI64 (negsuc n) = ground arith

pub to_u64-wrap : (a : ℤ) → to_u64 (wrap a) ≡ to_u64 a
unfolding wrap
to_u64-wrap (pos n) = ground arith
to_u64-wrap (negsuc n) = ground arith

pub to_u64-lt : (a : ℤ) → to_u64 a < u64_mod
unfolding to_u64
to_u64-lt (pos n) = omega arith
to_u64-lt (negsuc n) = omega arith

pub to_u64-add : (a b : ℤ) → to_u64 (a +ℤ b) ≡ (to_u64 a + to_u64 b) % u64_mod
unfolding to_u64 ◌+ℤ◌
to_u64-add (pos a) (pos b) = ground arith
to_u64-add (pos a) (negsuc b) = ground arith
to_u64-add (negsuc a) (pos b) = ground arith
to_u64-add (negsuc a) (negsuc b) = ground arith

pub to_u64-neg : (a : ℤ) → to_u64 (-ℤ◌ a) ≡ (u64_mod - to_u64 a) % u64_mod
unfolding to_u64 -ℤ◌
to_u64-neg (pos a) = ground arith
to_u64-neg (negsuc a) = ground arith

pub wrap-eq_of_u64 : (a b : ℤ) → to_u64 a ≡ to_u64 b → wrap a ≡ wrap b
unfolding wrap
wrap-eq_of_u64 a b h = ap to_i64 h

pub +ℤ_comm : (a b : ℤ) → a +ℤ b ≡ b +ℤ a
unfolding ◌+ℤ◌
+ℤ_comm a b = ground arith

pub +ℤ_assoc : (a b c : ℤ) → a +ℤ b +ℤ c ≡ a +ℤ (b +ℤ c)
unfolding ◌+ℤ◌
+ℤ_assoc a b c = ground arith
