-- ===== src/Decimal/Parsing.antt =====
-- `Decimal::parse` accepts the literals of Grammar and nothing else, and computes their value.
use mathlib.Core.List.{foldl}
use native.Mathlib.Nat.{zero-add}
use binance_aggregator.Prelude.{
  ℕ, ◌+◌, ◌-◌, ◌*◌, ◌≤◌, ◌≡◌, ◌≢◌, refl, ◌∙◌, Bool, true, false, [], ◌∷◌, ◌++◌, Bytes, arith,
  length, replicate, All,
}
use binance_aggregator.Prelude.Int.{pos, wrap}
use binance_aggregator.Decimal.{
  parse, parse_integer, parse_fraction, next_digit, digit_ahead, finish, ok, from_raw, scale,
  scale_factor,
}
use binance_aggregator.Decimal.Digits.{IsDigit, is_digit, value, value_from-append}
use binance_aggregator.Decimal.Grammar.{
  Sign, Literal, IsLiteral, spell, spell_sign, spell_fraction, signed, exact,
}
use binance_aggregator.Decimal.Loops.{
  zero_Holds, accumulate-Holds, read_integer_lem, read_fraction_lem, finish_lem, negate_if,
}

abbrev number : Bytes → Bytes → ℕ
number whole fraction =
    value whole * scale_factor + value (fraction ++ replicate (scale - length fraction) b'0')

digit_ahead_of_digits : (s : Bytes) → s ≢ [] → All IsDigit s → digit_ahead s ≡ true
unfolding digit_ahead is_digit
digit_ahead_of_digits [] h k = absurd (h refl)
digit_ahead_of_digits (c ∷ s) h k = ground arith

digit_ahead-spell_fraction : (f : Bytes) → digit_ahead (spell_fraction f) ≡ false
unfolding digit_ahead is_digit
digit_ahead-spell_fraction [] = refl
digit_ahead-spell_fraction (c ∷ s) = refl

digit_ahead-append : (s t : Bytes) → s ≢ [] → All IsDigit s → digit_ahead (s ++ t) ≡ true
unfolding digit_ahead is_digit
digit_ahead-append [] t h k = absurd (h refl)
digit_ahead-append (c ∷ s) t h k = ground arith

finish_digits :
    (negative : Bool) (w f : Bytes)
    → finish negative (foldl next_digit (pos 0) w) (foldl next_digit (pos 0) f) (length f) []
      ≡ ok (from_raw (wrap (negate_if negative (pos (number w f)))))
finish_digits negative w f = rw (value_from-append 0 f) (
    finish_lem negative _ _ (length f) (value w) (value f) (accumulate-Holds w (pos 0) 0 zero_Holds)
      (accumulate-Holds f (pos 0) 0 zero_Holds))

parse_fraction_digits :
    (negative : Bool) (w f : Bytes)
    → All IsDigit f
    → length f ≤ scale
    → parse_fraction negative (foldl next_digit (pos 0) w) (spell_fraction f)
      ≡ ok (from_raw (wrap (negate_if negative (pos (number w f)))))
unfolding parse_fraction
parse_fraction_digits negative w [] h k = finish_digits negative w []
parse_fraction_digits negative w (c ∷ f) h k =
    rw (digit_ahead_of_digits (c ∷ f) (cc) h, read_fraction_lem (c ∷ f) (pos 0) 0 h (omega arith))
      (rw (zero-add (length (c ∷ f))) (finish_digits negative w (c ∷ f)))

parse_integer_digits :
    (negative : Bool) (w f : Bytes)
    → w ≢ []
    → All IsDigit w
    → All IsDigit f
    → length f ≤ scale
    → parse_integer negative (w ++ spell_fraction f)
      ≡ ok (from_raw (wrap (negate_if negative (pos (number w f)))))
unfolding parse_integer
parse_integer_digits negative w f some hw hf k =
    rw
      (
        digit_ahead-append w (spell_fraction f) some hw,
        read_integer_lem w (spell_fraction f) (pos 0) hw (digit_ahead-spell_fraction f),
      )
      (parse_fraction_digits negative w f hf k)

parse_unsigned : (c : ℕ) (s : Bytes) → IsDigit c → parse (c ∷ s) ≡ parse_integer false (c ∷ s)
unfolding parse
parse_unsigned c s h = ground arith

parse-spell :
    (g : Sign) (w f : Bytes)
    → w ≢ []
    → All IsDigit w
    → All IsDigit f
    → length f ≤ scale
    → parse (spell_sign g ++ (w ++ spell_fraction f)) ≡ ok (from_raw (wrap (signed g (number w f))))
parse-spell Sign.unsigned [] f some hw hf k = absurd (some refl)
parse-spell Sign.unsigned (c ∷ w) f some hw hf k =
    parse_unsigned c (w ++ spell_fraction f) hw.0
    ∙ parse_integer_digits false (c ∷ w) f some hw hf k
parse-spell Sign.plus w f some hw hf k = unfold parse in parse_integer_digits false w f some hw hf k
parse-spell Sign.minus w f some hw hf k = unfold parse in parse_integer_digits true w f some hw hf k

-- Every literal of the documented form is accepted, and the result is its exact value in units of
-- 10 ^ -8, cut to int64_t.
pub parse_complete : (l : Literal) → IsLiteral l → parse (spell l) ≡ ok (from_raw (wrap (exact l)))
parse_complete l h =
    parse-spell l.sign l.whole l.fraction h.some_whole h.whole_digits h.fraction_digits h.precision
