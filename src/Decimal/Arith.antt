-- ===== src/Decimal/Arith.antt =====
-- The arithmetic and the order of Decimal values.
use binance_aggregator.Prelude.{◌≡◌, refl, ap, ◌∙◌, arith, if◌then◌else◌}
use binance_aggregator.Prelude.Int.{
  ℤ, pos, ◌+ℤ◌, wrap, to_u64-wrap, to_u64-add, wrap-eq_of_u64, +ℤ_comm,
}
use binance_aggregator.Decimal.{Decimal, from_raw, zero_decimal, add, less}

pub add_comm : (a b : Decimal) → add a b ≡ add b a
unfolding add
add_comm a b = ap (λ x. from_raw (wrap x)) (+ℤ_comm a.raw b.raw)

pub wrap-add_left : (a b : ℤ) → wrap (wrap a +ℤ b) ≡ wrap (a +ℤ b)
wrap-add_left a b =
    wrap-eq_of_u64 (wrap a +ℤ b) (a +ℤ b) (rw (to_u64-add (wrap a) b, to_u64-add a b, to_u64-wrap))

-- Summands can be added in either order, whatever wraps.
pub add_right_comm : (a b c : Decimal) → add (add a b) c ≡ add (add a c) b
unfolding add
add_right_comm a b c = ap from_raw (
    wrap-eq_of_u64 _ _ (
      rw
        (
          to_u64-add (wrap (a.raw +ℤ b.raw)) c.raw,
          to_u64-add (wrap (a.raw +ℤ c.raw)) b.raw,
          to_u64-wrap (a.raw +ℤ b.raw),
          to_u64-wrap (a.raw +ℤ c.raw),
          to_u64-add a.raw b.raw,
          to_u64-add a.raw c.raw,
        )
        (omega arith)))

abbrev pub lower : Decimal → Decimal → Decimal
lower a b = if less a b then a else b

abbrev pub higher : Decimal → Decimal → Decimal
higher a b = if less b a then a else b

pub lower_left_comm : (a b c : Decimal) → lower a (lower b c) ≡ lower b (lower a c)
unfolding less
lower_left_comm a b c = ground arith

pub higher_left_comm : (a b c : Decimal) → higher a (higher b c) ≡ higher b (higher a c)
unfolding less
higher_left_comm a b c = ground arith

pub lower_comm : (a b : Decimal) → lower a b ≡ lower b a
unfolding less
lower_comm a b = ground arith

pub higher_comm : (a b : Decimal) → higher a b ≡ higher b a
unfolding less
higher_comm a b = ground arith

-- A value added to a sum that was cut to int64_t: the cut can be made once, at the end.
pub add-wrap :
    (sum : ℤ) (d : Decimal) → add (from_raw (wrap sum)) d ≡ from_raw (wrap (d.raw +ℤ sum))
unfolding add
add-wrap sum d = ap from_raw (wrap-add_left sum d.raw ∙ ap wrap (+ℤ_comm sum d.raw))

pub zero_wrapped : zero_decimal ≡ from_raw (wrap (pos 0))
unfolding wrap
zero_wrapped = refl
