-- ===== src/Decimal.antt =====
-- app/include/agg/util/Decimal.hpp and app/src/util/Decimal.cpp: fixed-point values with eight
-- fractional digits in an int64_t. Signed overflow is undefined in C++; the model keeps the
-- two's complement result that the target machines give.
pub mod Digits
pub mod Grammar
pub mod Loops
pub mod Parsing
pub mod Soundness
pub mod Printing
pub mod RoundTrip
pub mod Arith
pub mod Product
use Prim.Native.Nat.{min}
use mathlib.Core.List.{reverse}
use binance_aggregator.Prelude.{
  ℕ, zero, suc, ◌+◌, ◌-◌, ◌*◌, ◌/◌, ◌%◌, ◌^◌, ◌≡◌, refl, Bool, true, false, ◌&&◌, ◌||◌, List, [],
  ◌∷◌, ◌++◌, Bytes, codes, ltb, leb, ◌==◌, if◌then◌else◌, length, replicate,
}
use binance_aggregator.Prelude.Int.{
  ℤ, pos, negsuc, ◌+ℤ◌, ◌*ℤ◌, -ℤ◌, ◌/ℤ◌, ltb_ℤ, wrap, to_u64, sub_ℕ, to_i64,
}
use Digits.{is_digit, print_u64}

pub record Decimal : Type 0 where
  pub raw : ℤ

-- Decimal::kScale and Decimal::kScaleFactor.
abbrev pub scale : ℕ
scale = 8

abbrev pub scale_factor : ℕ
scale_factor = 100_000_000

abbrev pub from_raw : ℤ → Decimal
from_raw r = record { raw = r }

-- The value of a default-constructed Decimal.
abbrev pub zero_decimal : Decimal
zero_decimal = from_raw (pos 0)

-- The messages of the std::invalid_argument that `parse` throws, in the order of the checks.
pub data ParseError : Type 0 where
  empty no_integer_part no_fraction_digits exceeds_precision invalid_characters : ParseError

pub data Result {ℓ} (A : Type ℓ) : Type ℓ where
  ok : A → Result A
  throws : ParseError → Result A

infixl 5 ◌>>=◌
abbrev pub ◌>>=◌ {ℓ κ} : {A : Type ℓ} {B : Type κ} → Result A → (A → Result B) → Result B
ok a >>= f = f a
throws e >>= f = throws e

-- idx < text.size() and std::isdigit(text[idx]), where the list is the text from idx on.
pub digit_ahead : Bytes → Bool
digit_ahead [] = false
digit_ahead (c ∷ s) = is_digit c

-- part = part * 10 + (text[idx] - '0')
pub next_digit : ℤ → ℕ → ℤ
next_digit part c = wrap (wrap (part *ℤ pos 10) +ℤ pos (c - b'0'))

-- The first loop of `parse`.
pub read_integer : Bytes → ℤ → ℤ × Bytes
read_integer [] part = (part, [])
read_integer (c ∷ s) part = if is_digit c then read_integer s (next_digit part c) else (part, c ∷ s)

-- The second loop of `parse`, with its check of the precision.
pub read_fraction : Bytes → ℤ → ℕ → Result (ℤ × ℕ × Bytes)
read_fraction [] part n = ok (part, n, [])
read_fraction (c ∷ s) part n =
    let rest = read_fraction s (next_digit part c) (suc n) in
    if is_digit c
    then (if leb scale n then throws exceeds_precision else rest)
    else ok (part, n, c ∷ s)

-- The third loop of `parse`: the rounds that are left.
pub scale_up : ℕ → ℤ → ℤ
scale_up zero part = part
scale_up (suc k) part = scale_up k (wrap (part *ℤ pos 10))

-- The end of `parse`, from the check of idx against text.size() on.
pub finish : Bool → ℤ → ℤ → ℕ → Bytes → Result Decimal
finish negative whole part n (c ∷ s) = throws invalid_characters
finish negative whole part n [] =
    let raw = wrap (wrap (whole *ℤ pos scale_factor) +ℤ scale_up (scale - n) part) in
    ok (from_raw (if negative then wrap (-ℤ◌ raw) else raw))

pub parse_fraction : Bool → ℤ → Bytes → Result Decimal
parse_fraction negative whole [] = finish negative whole (pos 0) 0 []
parse_fraction negative whole (c ∷ s) =
    if c == b'.'
    then (if digit_ahead s
        then (read_fraction s (pos 0) 0 >>= λ (part, n, rest). finish negative whole part n rest)
        else throws no_fraction_digits)
    else finish negative whole (pos 0) 0 (c ∷ s)

pub parse_integer : Bool → Bytes → Result Decimal
parse_integer negative s =
    if digit_ahead s
    then (let (whole, rest) = read_integer s (pos 0) in parse_fraction negative whole rest)
    else throws no_integer_part

unfoldable pub parse : Bytes → Result Decimal
unfolding parse_integer parse_fraction read_integer read_fraction finish scale_up digit_ahead
    next_digit is_digit wrap ◌+ℤ◌ ◌*ℤ◌ -ℤ◌
parse [] = throws empty
parse (c ∷ s) =
    if c == b'+' || c == b'-' then parse_integer (c == b'-') s else parse_integer false (c ∷ s)

-- while (!text.empty() && text.back() == '0') text.pop_back(), on the text read backwards.
drop_zeros : Bytes → Bytes
drop_zeros [] = []
drop_zeros (c ∷ s) = if c == b'0' then drop_zeros s else c ∷ s

pub trim_zeros : Bytes → Bytes
unfolding drop_zeros
trim_zeros s = reverse (drop_zeros (reverse s))

-- static_cast<std::uint64_t>(negative ? -raw_ : raw_)
pub magnitude : Decimal → ℕ
magnitude d = to_u64 (if ltb_ℤ d.raw (pos 0) then wrap (-ℤ◌ d.raw) else d.raw)

-- The fractional digits, padded to kScale places and trimmed.
pub fraction_text : ℕ → Bytes
unfolding trim_zeros
fraction_text part =
    let text = print_u64 part in trim_zeros (replicate (scale - length text) b'0' ++ text)

pub point_text : Bytes → Bytes
point_text [] = []
point_text (c ∷ s) = b'.' ∷ c ∷ s

unfoldable pub to_string : Decimal → Bytes
to_string d =
    (if ltb_ℤ d.raw (pos 0) then b'-' ∷ [] else [])
    ++ (print_u64 (magnitude d / scale_factor)
        ++ point_text (fraction_text (magnitude d % scale_factor)))

-- operator+, operator< and operator> on Decimal, the last two by the defaulted operator<=>.
unfoldable pub add : Decimal → Decimal → Decimal
unfolding wrap
add a b = from_raw (wrap (a.raw +ℤ b.raw))

unfoldable pub less : Decimal → Decimal → Bool
less a b = ltb_ℤ a.raw b.raw

-- operator*: the product is taken in 128 bits, where it is exact, and cut to int64_t at the end.
unfoldable pub mul : Decimal → Decimal → Decimal
unfolding wrap
mul a b = from_raw (wrap ((a.raw *ℤ b.raw) /ℤ scale_factor))
