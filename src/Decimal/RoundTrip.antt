-- ===== src/Decimal/RoundTrip.antt =====
-- `Decimal::parse` reads back what `Decimal::to_string` prints.
use mathlib.Core.Path.{ap₂}
use binance_aggregator.Prelude.{
  ℕ, suc, ◌/◌, ◌%◌, ◌^◌, ◌<◌, ◌≡◌, refl, ◌∙◌, ap, Bool, true, false, [], ◌∷◌, ◌++◌, Bytes, arith,
  if◌then◌else◌,
}
use binance_aggregator.Prelude.Int.{ℤ, pos, negsuc, -ℤ◌, ltb_ℤ, wrap, to_u64, IsI64, wrap_of_IsI64}
use binance_aggregator.Decimal.{
  Decimal, parse, to_string, magnitude, fraction_text, point_text, ok, from_raw, scale_factor,
}
use binance_aggregator.Decimal.Digits.{
  print_u64, value-print_u64, print_u64-digits, print_u64-ne-nil,
}
use binance_aggregator.Decimal.Grammar.{
  Sign, Literal, IsLiteral, spell, spell_sign, spell_fraction, units, signed, exact,
}
use binance_aggregator.Decimal.Parsing.{parse_complete}
use binance_aggregator.Decimal.Printing.{
  fraction_text-digits, length-fraction_text, value-fraction_text,
}

-- The literal that stands for a value.
pub literal_of : Decimal → Literal
literal_of d = record {
  sign = if ltb_ℤ d.raw (pos 0) then Sign.minus else Sign.unsigned;
  whole = print_u64 (magnitude d / scale_factor);
  fraction = fraction_text (magnitude d % scale_factor);
}

fraction_below : (n : ℕ) → n % scale_factor < scale_factor
fraction_below n = omega arith

pub literal_of-IsLiteral : (d : Decimal) → IsLiteral (literal_of d)
unfolding literal_of
literal_of-IsLiteral d = record {
  some_whole = print_u64-ne-nil _;
  whole_digits = print_u64-digits _;
  fraction_digits =
      fraction_text-digits (magnitude d % scale_factor) (fraction_below (magnitude d));
  precision = length-fraction_text (magnitude d % scale_factor) (fraction_below (magnitude d));
}

units-literal_of : (d : Decimal) → units (literal_of d) ≡ magnitude d
unfolding literal_of
units-literal_of d = omega (
  arith,
  value-print_u64 (magnitude d / scale_factor),
  value-fraction_text (magnitude d % scale_factor) (fraction_below (magnitude d)),
)

point_text-eq : (f : Bytes) → point_text f ≡ spell_fraction f
unfolding point_text
point_text-eq [] = refl
point_text-eq (c ∷ s) = refl

sign_text :
    (b : Bool)
    → (if b then b'-' ∷ [] else []) ≡ spell_sign (if b then Sign.minus else Sign.unsigned)
sign_text true = refl
sign_text false = refl

pub to_string_shape : (d : Decimal) → to_string d ≡ spell (literal_of d)
unfolding literal_of to_string
to_string_shape d =
    ap₂ ◌++◌ (sign_text (ltb_ℤ d.raw (pos 0)))
      (ap (◌++◌ (print_u64 (magnitude d / scale_factor))) (point_text-eq _))

magnitude-pos : (n : ℕ) → n < 2 ^ 63 → magnitude (from_raw (pos n)) ≡ n
unfolding magnitude to_u64
magnitude-pos n h = ground arith

magnitude-negsuc : (n : ℕ) → n < 2 ^ 63 → magnitude (from_raw (negsuc n)) ≡ suc n
unfolding magnitude to_u64 wrap -ℤ◌
magnitude-negsuc n h = ground arith

sign_of : ℤ → Sign
sign_of a = if ltb_ℤ a (pos 0) then Sign.minus else Sign.unsigned

signed-magnitude : (a : ℤ) → IsI64 a → signed (sign_of a) (magnitude (from_raw a)) ≡ a
unfolding sign_of
signed-magnitude (pos n) h = rw (magnitude-pos n h.upper) (ground arith)
signed-magnitude (negsuc n) h = rw (magnitude-negsuc n (omega arith)) (unfold -ℤ◌ in ground arith)

-- The printed text is read back as the value, for every value of an int64_t.
pub parse-to_string : (d : Decimal) → IsI64 d.raw → parse (to_string d) ≡ ok d
parse-to_string d h =
    ap parse (to_string_shape d)
    ∙ parse_complete (literal_of d) (literal_of-IsLiteral d)
    ∙ ap (λ a. ok (from_raw a)) (ap wrap same ∙ wrap_of_IsI64 d.raw h)
  where
    same : exact (literal_of d) ≡ d.raw
    same =
        ap (signed (literal_of d).sign) (units-literal_of d)
        ∙ unfold literal_of sign_of in signed-magnitude d.raw h
