-- ===== src/Decimal/Printing.antt =====
-- `Decimal::to_string`: the literal that it spells, and what `parse` makes of it.
use mathlib.Core.Path.{subst}
use mathlib.Core.List.{reverse, reverse-cons, reverse-reverse}
use binance_aggregator.Prelude.{
  ℕ, zero, suc, ◌-◌, ◌≤◌, ◌<◌, ◌≡◌, refl, sym, ◌∙◌, ap, inl, inr, [], ◌∷◌, ◌++◌, append-nil,
  append_assoc, Bytes, arith, length, length-append, replicate, length-replicate, All, All-append,
  Bool-cases, ◌==◌, ==_iff,
}
use binance_aggregator.Decimal.{fraction_text, trim_zeros, drop_zeros, scale, scale_factor}
use binance_aggregator.Decimal.Digits.{
  IsDigit, print_u64, value, value_from, value_from-append, value-print_u64, print_u64-digits,
  length-print_u64,
}

zeros : ℕ → Bytes
zeros n = replicate n b'0'

zeros-snoc : (n : ℕ) → zeros n ++ b'0' ∷ [] ≡ zeros (suc n)
unfolding zeros
zeros-snoc zero = refl
zeros-snoc (suc n) = ap (◌∷◌ b'0') (zeros-snoc n)

length-drop_zeros : (s : Bytes) → length (drop_zeros s) ≤ length s
unfolding drop_zeros
length-drop_zeros [] = omega arith
length-drop_zeros (c ∷ s) = ground (arith, length-drop_zeros s)

-- The zeros that the loop drops, put back.
drop_zeros-pad :
    (s : Bytes) → reverse (drop_zeros s) ++ zeros (length s - length (drop_zeros s)) ≡ reverse s
unfolding drop_zeros
drop_zeros-pad [] = unfold zeros in refl
drop_zeros-pad (c ∷ s) = elim (Bool-cases (c == b'0')) [
  | inl z ↦
      let more : suc (length s) - length (drop_zeros s) ≡ suc (length s - length (drop_zeros s)) =
        omega (arith, length-drop_zeros s) in
      rw
        (
          z,
          more,
          ← zeros-snoc (length s - length (drop_zeros s)),
          ← append_assoc,
          drop_zeros-pad s,
          (==_iff c b'0').0 z,
        )
        (sym (reverse-cons b'0' s))
  | inr kept ↦
      let none_left : suc (length s) - suc (length s) ≡ 0 = omega arith in
      rw (kept, none_left) (unfold zeros in append-nil _)
]

length-reverse : (xs : Bytes) → length (reverse xs) ≡ length xs
length-reverse [] = refl
length-reverse (x ∷ xs) =
    omega
      (arith, ap length (reverse-cons x xs), length-append (reverse xs) (x ∷ []), length-reverse xs)

length-trim_zeros : (s : Bytes) → length (trim_zeros s) ≡ length (drop_zeros (reverse s))
unfolding trim_zeros
length-trim_zeros s = length-reverse (drop_zeros (reverse s))

-- A trimmed text, padded to its old length, is the text.
trim_zeros-pad : (s : Bytes) → trim_zeros s ++ zeros (length s - length (trim_zeros s)) ≡ s
trim_zeros-pad s =
    rw (length-trim_zeros s, ← length-reverse s)
      (unfold trim_zeros in drop_zeros-pad (reverse s) ∙ reverse-reverse s)

All-left {ℓ} : (P : ℕ → Type ℓ) (xs ys : Bytes) → All P (xs ++ ys) → All P xs
All-left P [] ys h = tt
All-left P (x ∷ xs) ys h = (h.0, All-left P xs ys h.1)

value_from-zeros : (k : ℕ) → value_from 0 (zeros k) ≡ 0
unfolding zeros
value_from-zeros zero = refl
value_from-zeros (suc k) = value_from-zeros k

zeros-digits : (k : ℕ) → All IsDigit (zeros k)
unfolding zeros
zeros-digits zero = tt
zeros-digits (suc k) = ((omega arith, omega arith), zeros-digits k)

module _ (part : ℕ) (small : part < scale_factor) where
  -- The eight digits behind the point.
  padded : Bytes
  padded = zeros (scale - length (print_u64 part)) ++ print_u64 part

  fraction_trimmed : fraction_text part ≡ trim_zeros padded
  unfolding fraction_text padded zeros
  fraction_trimmed = refl

  padded-digits : All IsDigit padded
  unfolding padded
  padded-digits = All-append IsDigit _ (print_u64 part) (zeros-digits _) (print_u64-digits part)

  length-padded : length padded ≡ scale
  unfolding padded zeros
  length-padded = omega (
    arith,
    length-append (replicate (scale - length (print_u64 part)) b'0') (print_u64 part),
    length-replicate {A = ℕ} (scale - length (print_u64 part)) b'0',
    length-print_u64 7 part (omega arith),
  )

  value-padded : value padded ≡ part
  unfolding padded
  value-padded =
      value_from-append 0 (zeros (scale - length (print_u64 part))) (print_u64 part)
      ∙ ap (λ n. value_from n (print_u64 part)) (value_from-zeros _)
      ∙ value-print_u64 part

  fraction_text-pad :
      fraction_text part ++ replicate (scale - length (fraction_text part)) b'0' ≡ padded
  fraction_text-pad = rw (fraction_trimmed, ← length-padded) (unfold zeros in trim_zeros-pad padded)

  pub fraction_text-digits : All IsDigit (fraction_text part)
  fraction_text-digits =
      All-left IsDigit (fraction_text part) (replicate (scale - length (fraction_text part)) b'0')
        (subst (All IsDigit) (sym fraction_text-pad) padded-digits)

  pub length-fraction_text : length (fraction_text part) ≤ scale
  length-fraction_text = omega (
    arith,
    length-padded,
    ap length fraction_trimmed,
    length-trim_zeros padded,
    length-drop_zeros (reverse padded),
    length-reverse padded,
  )

  pub value-fraction_text :
      value (fraction_text part ++ replicate (scale - length (fraction_text part)) b'0') ≡ part
  value-fraction_text = ap value fraction_text-pad ∙ value-padded
