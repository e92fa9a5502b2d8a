-- ===== src/Decimal/Digits.antt =====
-- Decimal digits: std::isdigit and std::to_string on unsigned numbers, as the program uses them,
-- and the number that a row of digits spells.
use mathlib.Core.List.{foldl}
use mathlib.Core.Logic.{ite, dite}
use mathlib.Core.WellFounded
use mathlib.Core.WellFounded.{Acc, Acc-prop}
use native.Mathlib.Decide.{dec_lt}
use native.Mathlib.Nat.{pow-suc}
use binance_aggregator.Prelude.{
  ℕ, zero, suc, ◌+◌, ◌-◌, ◌*◌, ◌/◌, ◌%◌, ◌^◌, ◌≤◌, ◌<◌, ◌≡◌, ◌≢◌, refl, Bool, ◌&&◌, [], ◌∷◌, ◌++◌,
  Bytes, leb, arith, length, length-append, All, All-append,
}
use binance_aggregator.Prelude.Order.{lt_wf}

abbrev pub IsDigit : ℕ → Type 0
IsDigit c = (b'0' ≤ c) × (c ≤ b'9')

-- std::isdigit in the C locale.
unfoldable pub is_digit : ℕ → Bool
is_digit c = leb b'0' c && leb c b'9'

tenth_lt : {n : ℕ} → (n < 10 → ⊥) → n / 10 < n
tenth_lt h = omega arith

print_acc : (n : ℕ) → Acc ◌<◌ n → Bytes
print_acc n (Acc.intro _ smaller) =
    dite (dec_lt n 10) (λ _. (b'0' + n) ∷ [])
      (λ h. print_acc (n / 10) (smaller (n / 10) (tenth_lt h)) ++ (b'0' + n % 10) ∷ [])

-- std::to_string on an unsigned number.
unfoldable pub print_u64 : ℕ → Bytes
unfolding print_acc lt_wf dec_lt tenth_lt
print_u64 n = print_acc n (lt_wf.apply n)

-- The number that digits spell behind `n`.
abbrev pub value_from : ℕ → Bytes → ℕ
value_from = foldl (λ n c. n * 10 + (c - b'0'))

abbrev pub value : Bytes → ℕ
value = value_from 0

pub value_from-append :
    (n : ℕ) (s t : Bytes) → value_from n (s ++ t) ≡ value_from (value_from n s) t
value_from-append n [] t = refl
value_from-append n (c ∷ s) t = value_from-append (n * 10 + (c - b'0')) s t

print_acc_step :
    (n : ℕ) (w : Acc ◌<◌ n) (w' : Acc ◌<◌ (n / 10))
    → print_acc n w
      ≡ ite (dec_lt n 10) ((b'0' + n) ∷ []) (print_acc (n / 10) w' ++ (b'0' + n % 10) ∷ [])
unfolding print_acc
print_acc_step n (Acc.intro _ smaller) w' = λ i.
    dite (dec_lt n 10) (λ _. (b'0' + n) ∷ [])
      (λ h.
        print_acc (n / 10) (Acc-prop (smaller (n / 10) (tenth_lt h)) w' i) ++ (b'0' + n % 10) ∷ [])

pub print_u64_step :
    (n : ℕ)
    → print_u64 n ≡ ite (dec_lt n 10) ((b'0' + n) ∷ []) (print_u64 (n / 10) ++ (b'0' + n % 10) ∷ [])
unfolding print_u64
print_u64_step n = print_acc_step n (lt_wf.apply n) (lt_wf.apply (n / 10))

value-snoc : (s : Bytes) (c : ℕ) → value (s ++ c ∷ []) ≡ value s * 10 + (c - b'0')
value-snoc s c = value_from-append 0 s (c ∷ [])

-- What a print spells is the number.
pub value-print_u64 : (n : ℕ) → value (print_u64 n) ≡ n
value-print_u64 n = WellFounded.induction lt_wf {C = λ m. value (print_u64 m) ≡ m} n λ m ih.
    ground (arith, print_u64_step m, ih (m / 10), value-snoc (print_u64 (m / 10)) (b'0' + m % 10))

pub print_u64-digits : (n : ℕ) → All IsDigit (print_u64 n)
print_u64-digits n = WellFounded.induction lt_wf {C = λ m. All IsDigit (print_u64 m)} n λ m ih.
    ground (
      arith,
      print_u64_step m,
      ih (m / 10),
      All-append IsDigit (print_u64 (m / 10)) ((b'0' + m % 10) ∷ []),
    )

snoc-ne-nil : (s : Bytes) (c : ℕ) → s ++ c ∷ [] ≢ []
snoc-ne-nil [] c = λ e. cc
snoc-ne-nil (d ∷ s) c = λ e. cc

pub print_u64-ne-nil : (n : ℕ) → print_u64 n ≢ []
print_u64-ne-nil n =
    ground (arith, print_u64_step n, snoc-ne-nil (print_u64 (n / 10)) (b'0' + n % 10))

-- A number below 10 ^ (k + 1) prints in at most k + 1 digits.
pub length-print_u64 : (k n : ℕ) → n < 10 ^ suc k → length (print_u64 n) ≤ suc k
length-print_u64 zero n h = ground (arith, print_u64_step n)
length-print_u64 (suc k) n h =
    let small : n / 10 < 10 ^ suc k = omega (arith, pow-suc 10 (suc k)) in
    ground (
      arith,
      print_u64_step n,
      length-print_u64 k (n / 10) small,
      length-append (print_u64 (n / 10)) ((b'0' + n % 10) ∷ []),
    )
