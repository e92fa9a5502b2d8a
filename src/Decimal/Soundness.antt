-- ===== src/Decimal/Soundness.antt =====
-- What `Decimal::parse` accepts is a literal: the checks of the loops read backwards.
use mathlib.Core.Path.{subst}
use binance_aggregator.Prelude.{
  ℕ, suc, ◌+◌, ◌≤◌, ◌≡◌, ◌≢◌, refl, sym, ◌∙◌, ap, inl, inr, Bool, true, false, ◌||◌, [], ◌∷◌, ◌++◌,
  append-nil, Bytes, arith, length, All, if◌then◌else◌, Bool-cases, ◌==◌, ==_iff,
}
use binance_aggregator.Prelude.Int.{ℤ, pos, wrap, IsI64, wrap-IsI64}
use binance_aggregator.Decimal.{
  Decimal, parse, parse_integer, parse_fraction, read_integer, read_fraction, next_digit,
  digit_ahead, finish, Result, ok, throws, from_raw, scale, ◌>>=◌,
}
use binance_aggregator.Decimal.Digits.{IsDigit, is_digit}
use binance_aggregator.Decimal.Grammar.{
  Sign, Literal, IsLiteral, spell, spell_sign, spell_fraction, exact,
}
use binance_aggregator.Decimal.Parsing.{parse_complete}

digits_of : Bytes → Bytes
digits_of [] = []
digits_of (c ∷ s) = if is_digit c then c ∷ digits_of s else []

after_digits : Bytes → Bytes
after_digits [] = []
after_digits (c ∷ s) = if is_digit c then after_digits s else c ∷ s

split_digits : (s : Bytes) → s ≡ digits_of s ++ after_digits s
unfolding digits_of after_digits
split_digits [] = refl
split_digits (c ∷ s) = ground (arith, split_digits s)

digits_of-digits : (s : Bytes) → All IsDigit (digits_of s)
unfolding digits_of is_digit
digits_of-digits [] = tt
digits_of-digits (c ∷ s) = ground (arith, digits_of-digits s)

digits_of-ne-nil : (s : Bytes) → digit_ahead s ≡ true → digits_of s ≢ []
unfolding digits_of digit_ahead
digits_of-ne-nil [] h = λ _. cc
digits_of-ne-nil (c ∷ s) h = ground arith

read_integer-rest : (s : Bytes) (part : ℤ) → (read_integer s part).1 ≡ after_digits s
unfolding read_integer after_digits
read_integer-rest [] part = refl
read_integer-rest (c ∷ s) part = ground (arith, read_integer-rest s (next_digit part c))

read_fraction-rest :
    (s : Bytes) (part : ℤ) (n : ℕ) {p : ℤ} {m : ℕ} {rest : Bytes}
    → n ≤ scale
    → read_fraction s part n ≡ ok (p, m, rest)
    → (n + length (digits_of s) ≤ scale) × (rest ≡ after_digits s)
unfolding read_fraction digits_of after_digits
read_fraction-rest [] part n h e = ground arith
read_fraction-rest (c ∷ s) part n {p} {m} {rest} h e =
    ground (arith, read_fraction-rest s (next_digit part c) (suc n) {p = p} {m = m} {rest = rest})

finish_ok :
    (negative : Bool) (whole part : ℤ) (n : ℕ) (s : Bytes) {d : Decimal}
    → finish negative whole part n s ≡ ok d
    → s ≡ []
unfolding finish
finish_ok negative whole part n [] e = refl
finish_ok negative whole part n (c ∷ s) e = cc

-- The digits behind the point, on a text that `parse_fraction` accepts.
abbrev Fraction : Bytes → Type 0
Fraction s = (f : Bytes) × (s ≡ spell_fraction f) × All IsDigit f × (length f ≤ scale)

point_digits :
    (s : Bytes) (negative : Bool) (whole : ℤ) (r : Result (ℤ × ℕ × Bytes)) {d : Decimal}
    → digit_ahead s ≡ true
    → read_fraction s (pos 0) 0 ≡ r
    → (r >>= λ (part, n, rest). finish negative whole part n rest) ≡ ok d
    → Fraction (b'.' ∷ s)
point_digits s negative whole (throws x) ahead e h = cc
point_digits [] negative whole (ok (part, n, rest)) ahead e h = absurd (unfold digit_ahead in cc)
point_digits (c ∷ s) negative whole (ok (part, n, rest)) ahead e h =
    let (few, tail) = read_fraction-rest (c ∷ s) (pos 0) 0 (omega arith) e in
    let whole_text : c ∷ s ≡ digits_of (c ∷ s) =
      split_digits (c ∷ s)
      ∙ ap (◌++◌ (digits_of (c ∷ s))) (sym tail ∙ finish_ok negative whole part n rest h)
      ∙ append-nil _ in
    (
      c ∷ s,
      refl,
      subst (All IsDigit) (sym whole_text) (digits_of-digits (c ∷ s)),
      subst (λ t. length t ≤ scale) (sym whole_text) (omega arith),
    )

parse_fraction_sound :
    (negative : Bool) (whole : ℤ) (s : Bytes) {d : Decimal}
    → parse_fraction negative whole s ≡ ok d
    → Fraction s
unfolding parse_fraction
parse_fraction_sound negative whole [] h = ([], refl, tt, omega arith)
parse_fraction_sound negative whole (c ∷ s) {d} h = elim (Bool-cases (c == b'.')) [
  | inr other ↦ absurd (cc (finish_ok negative whole (pos 0) 0 (c ∷ s) {d = d} (rw other at h)))
  | inl point ↦ elim (Bool-cases (digit_ahead s)) [
    | inl ahead ↦
        rw ((==_iff c b'.').0 point)
          (point_digits s negative whole _ ahead refl (rw (point, ahead) at h))
    | inr missing ↦ absurd (ground arith)
  ]
]

-- A row of digits and a fraction, on a text that `parse_integer` accepts.
abbrev Unsigned : Bytes → Type 0
Unsigned s =
    (w : Bytes) × (f : Bytes) × (s ≡ w ++ spell_fraction f)
    × (w ≢ [])
    × All IsDigit w
    × All IsDigit f
    × (length f ≤ scale)

parse_integer_sound :
    (negative : Bool) (s : Bytes) {d : Decimal} → parse_integer negative s ≡ ok d → Unsigned s
unfolding parse_integer
parse_integer_sound negative s {d} h = elim (Bool-cases (digit_ahead s)) [
  | inr missing ↦ absurd (ground arith)
  | inl ahead ↦ go ahead (rw ahead at h)
]
  where
    some : digit_ahead s ≡ true → digits_of s ≢ []
    some = digits_of-ne-nil s

    go :
        digit_ahead s ≡ true
        → parse_fraction negative (read_integer s (pos 0)).0 (read_integer s (pos 0)).1 ≡ ok d
        → Unsigned s
    go ahead e =
        let (f, spelt, digits, few) =
          parse_fraction_sound negative _ (after_digits s)
            (rw (read_integer-rest s (pos 0)) at e) in
        (
          digits_of s,
          f,
          split_digits s ∙ ap (◌++◌ (digits_of s)) spelt,
          some ahead,
          digits_of-digits s,
          digits,
          few,
        )

abbrev Shape : Bytes → Type 0
Shape s = (l : Literal) × IsLiteral l × (s ≡ spell l)

signed-Shape : (g : Sign) (s : Bytes) → Unsigned s → Shape (spell_sign g ++ s)
signed-Shape g s (w, f, spelt, some, hw, hf, few) = (
  record { sign = g; whole = w; fraction = f },
  record { some_whole = some; whole_digits = hw; fraction_digits = hf; precision = few },
  ap (◌++◌ (spell_sign g)) spelt,
)

parse_cons :
    (c : ℕ) (s : Bytes)
    → parse (c ∷ s) ≡ (
        if c == b'+' || c == b'-' then parse_integer (c == b'-') s else parse_integer false (c ∷ s))
unfolding parse
parse_cons c s = refl

parse-Shape : (s : Bytes) {d : Decimal} → parse s ≡ ok d → Shape s
parse-Shape [] h = absurd (unfold parse in cc)
parse-Shape (c ∷ s) {d} h = elim (Bool-cases (c == b'+')) [
  | inl p ↦
      rw ((==_iff c b'+').0 p)
        (signed-Shape Sign.plus s (parse_integer_sound (c == b'-') s {d = d} (rw p at shown)))
  | inr p ↦ elim (Bool-cases (c == b'-')) [
    | inl m ↦
        rw ((==_iff c b'-').0 m)
          (signed-Shape Sign.minus s (parse_integer_sound true s {d = d} (rw (p, m) at shown)))
    | inr m ↦
        signed-Shape Sign.unsigned (c ∷ s)
          (parse_integer_sound false (c ∷ s) {d = d} (rw (p, m) at shown))
  ]
]
  where
    shown :
        (if c == b'+' || c == b'-'
          then parse_integer (c == b'-') s
          else parse_integer false (c ∷ s))
        ≡ ok d
    shown = sym (parse_cons c s) ∙ h

-- An accepted text is a literal of the documented form, and the result is its exact value in units
-- of 10 ^ -8, cut to int64_t.
pub parse_sound :
    (s : Bytes) {d : Decimal}
    → parse s ≡ ok d
    → (l : Literal) × IsLiteral l × (s ≡ spell l) × (d ≡ from_raw (wrap (exact l)))
parse_sound s h =
    let (l, shape, spelt) = parse-Shape s h in
    (l, shape, spelt, cc (h, spelt, parse_complete l shape))

-- Whatever text is read, the value is one of int64_t.
pub parse-IsI64 : (s : Bytes) {d : Decimal} → parse s ≡ ok d → IsI64 d.raw
parse-IsI64 s h =
    let (l, shape, spelt, value) = parse_sound s h in
    subst (λ x. IsI64 x.raw) (sym value) (wrap-IsI64 (exact l))
