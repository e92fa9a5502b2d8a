-- ===== src/Output/Fields.antt =====
-- The fields of a line of the output (app/src/output/StatsSerializer.cpp): what they lack, and that
-- each determines its value.
use mathlib.Core.Path.{subst}
use binance_aggregator.Prelude.{
  ℕ, ◌≡◌, ◌≢◌, sym, ap, ◌∙◌, [], ◌∷◌, ◌++◌, Bytes, All, All-append, All-map,
}
use binance_aggregator.Prelude.Int.{IsI64}
use binance_aggregator.Prelude.Fields.{Lacks, cut, drop_label}
use binance_aggregator.Decimal.{Decimal, parse, to_string, ok}
use binance_aggregator.Decimal.Digits.{IsDigit, print_u64, value, value-print_u64, print_u64-digits}
use binance_aggregator.Decimal.Grammar.{Sign, IsLiteral, spell_sign, spell_fraction}
use binance_aggregator.Decimal.RoundTrip.{
  literal_of, literal_of-IsLiteral, to_string_shape, parse-to_string,
}

pub print_u64_injective : (m n : ℕ) → print_u64 m ≡ print_u64 n → m ≡ n
print_u64_injective m n e = sym (value-print_u64 m) ∙ ap value e ∙ value-print_u64 n

pub to_string_injective :
    (a b : Decimal) → IsI64 a.raw → IsI64 b.raw → to_string a ≡ to_string b → a ≡ b
to_string_injective a b h k e =
    let read : ok a ≡ ok b = sym (parse-to_string a h) ∙ ap parse e ∙ parse-to_string b k in cc

-- A separator is a byte that no number is printed with.
pub record IsSeparator (c : ℕ) : Type 0 where
  pub no_digit : IsDigit c → ⊥
  pub no_plus : b'+' ≢ c
  pub no_minus : b'-' ≢ c
  pub no_point : b'.' ≢ c

digits-Lacks : (c : ℕ) (s : Bytes) → IsSeparator c → All IsDigit s → Lacks c s
digits-Lacks c s h a = All-map _ _ s (λ x d e. h.no_digit (subst IsDigit e d)) a

pub print_u64-Lacks : (c n : ℕ) → IsSeparator c → Lacks c (print_u64 n)
print_u64-Lacks c n h = digits-Lacks c (print_u64 n) h (print_u64-digits n)

spell_sign-Lacks : (c : ℕ) (g : Sign) → IsSeparator c → Lacks c (spell_sign g)
spell_sign-Lacks c Sign.unsigned h = tt
spell_sign-Lacks c Sign.plus h = (h.no_plus, tt)
spell_sign-Lacks c Sign.minus h = (h.no_minus, tt)

spell_fraction-Lacks :
    (c : ℕ) (s : Bytes) → IsSeparator c → All IsDigit s → Lacks c (spell_fraction s)
spell_fraction-Lacks c [] h a = tt
spell_fraction-Lacks c (d ∷ s) h a = (h.no_point, digits-Lacks c (d ∷ s) h a)

pub to_string-Lacks : (c : ℕ) (d : Decimal) → IsSeparator c → Lacks c (to_string d)
to_string-Lacks c d h =
    let l : IsLiteral (literal_of d) = literal_of-IsLiteral d in
    subst (Lacks c) (sym (to_string_shape d)) (
      All-append (λ x. x ≢ c) (spell_sign (literal_of d).sign) _ (spell_sign-Lacks c _ h)
        (All-append (λ x. x ≢ c) (literal_of d).whole _
          (digits-Lacks c (literal_of d).whole h l.whole_digits)
          (spell_fraction-Lacks c (literal_of d).fraction h l.fraction_digits)))

-- A field that ends at a space, with the rest of the label behind it.
pub field :
    (label xs ys r s : Bytes)
    → Lacks b' ' xs
    → Lacks b' ' ys
    → xs ++ ((b' ' ∷ label) ++ r) ≡ ys ++ ((b' ' ∷ label) ++ s)
    → (xs ≡ ys) × (r ≡ s)
field label xs ys r s h k e =
    let (same, rest) = cut b' ' xs ys (label ++ r) (label ++ s) h k e in
    (same, drop_label label r s rest)
