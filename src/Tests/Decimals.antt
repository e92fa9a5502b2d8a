-- ===== src/Tests/Decimals.antt =====
-- Runs of app/src/util/Decimal.cpp, most of them those of tests/unit/DecimalTest.cpp.
use binance_aggregator.Prelude.{◌*◌, ◌+◌, ◌≤◌, ◌<◌, ◌≡◌, refl, [], codes, arith}
use binance_aggregator.Prelude.Int.{pos, negsuc, wrap, ◌*ℤ◌, ◌/ℤ◌, IsI64}
use binance_aggregator.Decimal.{
  Decimal, ok, throws, ParseError, parse, to_string, from_raw, mul, scale_factor,
}
use binance_aggregator.Decimal.Grammar.{Sign, Literal, IsLiteral, spell, exact}
use binance_aggregator.Decimal.Parsing.{parse_complete}
use binance_aggregator.Decimal.Soundness.{parse_sound}
use binance_aggregator.Decimal.RoundTrip.{parse-to_string}
use binance_aggregator.Decimal.Product.{magnitude_of, mul_truncates}

abbrev price : Decimal
price = from_raw (pos 4_301_210_000_000)

abbrev half : Decimal
half = from_raw (pos 50_000_000)

abbrev loss : Decimal
loss = from_raw (negsuc 49_999_999)

price_literal : Literal
price_literal = record { sign = Sign.unsigned; whole = codes "43012"; fraction = codes "10" }

parses_price : parse (codes "43012.10") ≡ ok price
unfolding parse
parses_price = refl

rejects_empty : parse [] ≡ throws ParseError.empty
unfolding parse
rejects_empty = refl

rejects_letters : parse (codes "abc") ≡ throws ParseError.no_integer_part
unfolding parse
rejects_letters = refl

rejects_trailing_dot : parse (codes "12.") ≡ throws ParseError.no_fraction_digits
unfolding parse
rejects_trailing_dot = refl

rejects_nine_digits : parse (codes "0.123456789") ≡ throws ParseError.exceeds_precision
unfolding parse
rejects_nine_digits = refl

rejects_garbage : parse (codes "1.5x") ≡ throws ParseError.invalid_characters
unfolding parse
rejects_garbage = refl

-- An integer part that does not fit is accepted, with the wrapped value.
wraps_silently : parse (codes "92233720369") ≡ ok (from_raw (negsuc 9_223_372_036_809_551_615))
unfolding parse
wraps_silently = refl

volume : mul price half ≡ from_raw (pos 2_150_605_000_000)
unfolding mul ◌/ℤ◌ ◌*ℤ◌
volume = refl

price_literal-IsLiteral : IsLiteral price_literal
unfolding price_literal
price_literal-IsLiteral = record {
  some_whole = λ e. cc;
  whole_digits = omega arith;
  fraction_digits = omega arith;
  precision = omega arith;
}

parse_complete_example : parse (codes "43012.10") ≡ ok (from_raw (wrap (exact price_literal)))
unfolding price_literal
parse_complete_example = parse_complete price_literal price_literal-IsLiteral

parse_sound_example :
    (l : Literal) × IsLiteral l × (codes "43012.10" ≡ spell l) × (price ≡ from_raw (wrap (exact l)))
parse_sound_example = parse_sound (codes "43012.10") parses_price

parse-to_string_example : parse (to_string loss) ≡ ok loss
parse-to_string_example = parse-to_string loss (omega arith)

price_half-IsI64 : IsI64 ((price.raw *ℤ half.raw) /ℤ scale_factor)
unfolding ◌*ℤ◌ ◌/ℤ◌
price_half-IsI64 = omega arith

mul_truncates_example :
    (magnitude_of (mul price half).raw * scale_factor
      ≤ magnitude_of price.raw * magnitude_of half.raw)
    × (magnitude_of price.raw * magnitude_of half.raw
        < (magnitude_of (mul price half).raw + 1) * scale_factor)
mul_truncates_example = mul_truncates price half price_half-IsI64
