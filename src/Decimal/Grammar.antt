-- ===== src/Decimal/Grammar.antt =====
-- The texts that `Decimal::parse` is meant to accept, and the numbers that they stand for.
use binance_aggregator.Prelude.{
  ℕ, ◌+◌, ◌-◌, ◌*◌, ◌≤◌, ◌≢◌, [], ◌∷◌, ◌++◌, Bytes, length, replicate, All,
}
use binance_aggregator.Prelude.Int.{ℤ, pos, -ℤ◌}
use binance_aggregator.Decimal.Digits.{IsDigit, value}

pub data Sign : Type 0 where
  unsigned plus minus : Sign

pub record Literal : Type 0 where
  pub sign : Sign
  pub whole : Bytes
  pub fraction : Bytes

-- At least one digit before the point, and at most eight behind it.
pub record IsLiteral (l : Literal) : Type 0 where
  pub some_whole : l.whole ≢ []
  pub whole_digits : All IsDigit l.whole
  pub fraction_digits : All IsDigit l.fraction
  pub precision : length l.fraction ≤ 8

abbrev pub spell_sign : Sign → Bytes
spell_sign Sign.unsigned = []
spell_sign Sign.plus = b'+' ∷ []
spell_sign Sign.minus = b'-' ∷ []

-- No fractional digits, no point.
abbrev pub spell_fraction : Bytes → Bytes
spell_fraction [] = []
spell_fraction (c ∷ s) = b'.' ∷ c ∷ s

abbrev pub spell : Literal → Bytes
spell l = spell_sign l.sign ++ (l.whole ++ spell_fraction l.fraction)

-- The magnitude in units of 10 ^ -8: the fraction is padded to eight digits.
abbrev pub units : Literal → ℕ
units l = value l.whole * 100_000_000 + value (l.fraction ++ replicate (8 - length l.fraction) b'0')

abbrev pub signed : Sign → ℕ → ℤ
signed Sign.unsigned n = pos n
signed Sign.plus n = pos n
signed Sign.minus n = -ℤ◌ (pos n)

abbrev pub exact : Literal → ℤ
exact l = signed l.sign (units l)
