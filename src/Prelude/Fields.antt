-- ===== src/Prelude/Fields.antt =====
-- Texts put together from fields: what stands before a separator, and what stands behind a label.
use binance_aggregator.Prelude.{◌≡◌, ◌≢◌, refl, List, [], ◌∷◌, ◌++◌, All}
use binance_aggregator.Prelude.Perms.{All-IsProp}

-- No element of the list is `c`.
abbrev pub Lacks {ℓ} : {A : Type ℓ} → A → List A → Type ℓ
Lacks c = All (λ x. x ≢ c)

module _ {ℓ} {A : Type ℓ} where
  -- Two texts that agree, with first fields that end at the same separator.
  pub cut :
      (c : A) (xs ys r s : List A)
      → Lacks c xs
      → Lacks c ys
      → xs ++ c ∷ r ≡ ys ++ c ∷ s
      → (xs ≡ ys) × (r ≡ s)
  cut c [] [] r s h k e = (refl, cc)
  cut c [] (y ∷ ys) r s h k e = absurd (k.0 cc)
  cut c (x ∷ xs) [] r s h k e = absurd (h.0 cc)
  cut c (x ∷ xs) (y ∷ ys) r s h k e = let (same, rest) = cut c xs ys r s h.1 k.1 cc in (cc, rest)

  pub drop_label : (label r s : List A) → label ++ r ≡ label ++ s → r ≡ s
  drop_label [] r s e = e
  drop_label (c ∷ label) r s e = drop_label label r s cc

pub Lacks-IsProp {ℓ} : {A : Type ℓ} (c : A) (xs : List A) → IsProp (Lacks c xs)
Lacks-IsProp c xs = All-IsProp _ xs (λ x. hlevel)
