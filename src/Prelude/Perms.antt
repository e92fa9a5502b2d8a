-- ===== src/Prelude/Perms.antt =====
-- The elements of a list put in parts: what the tests of `keep` part, and what numbers part.
use mathlib.Core.List.{Perm, Permᴰ, perm_middle}
use mathlib.Core.Logic.{∥∥₁_elim}
use mathlib.Core.List.Perm
use mathlib.Core.Path.{subst}
use binance_aggregator.Prelude.{
  ℕ, zero, suc, ◌<◌, ◌≡◌, refl, sym, ap, List, [], ◌∷◌, ◌++◌, arith, ltb, ◌==◌, ◌||◌, Bool, true,
  false, not, keep, All, All-split, inl, inr, Bool-cases, lt→ltb,
}

module _ {ℓ} {A : Type ℓ} (p : A → Bool) where
  pub keep-Perm : (xs : List A) → Perm (keep p xs ++ keep (λ x. not (p x)) xs) xs
  keep-Perm [] = Perm.nil
  keep-Perm (x ∷ xs) = elim (Bool-cases (p x)) [
    | inl yes_x ↦ rw yes_x (Perm.cons x (keep-Perm xs))
    | inr no_x ↦ rw no_x (
        Perm.trans (perm_middle (keep p xs) (keep (λ y. not (p y)) xs))
          (Perm.cons x (keep-Perm xs)))
  ]

pub keep_none {ℓ} : {A : Type ℓ} (xs : List A) → keep (λ x. false) xs ≡ []
keep_none [] = refl
keep_none (x ∷ xs) = keep_none xs

pub keep_all {ℓ} : {A : Type ℓ} (xs : List A) → keep (λ x. true) xs ≡ xs
keep_all [] = refl
keep_all (x ∷ xs) = ap (◌∷◌ x) (keep_all xs)

abbrev pub concat {ℓ} : {A : Type ℓ} → List (List A) → List A
concat [] = []
concat (xs ∷ rest) = xs ++ concat rest

module _ {ℓ} {A : Type ℓ} where
  keep-or :
      (p q : A → Bool) (xs : List A)
      → ((x : A) → p x ≡ true → q x ≡ false)
      → Perm (keep (λ x. p x || q x) xs) (keep p xs ++ keep q xs)
  keep-or p q [] h = Perm.nil
  keep-or p q (x ∷ xs) h = elim (Bool-cases (p x)) [
    | inl first ↦ rw (first, h x first) (Perm.cons x (keep-or p q xs h))
    | inr fails ↦ rw fails (elim (Bool-cases (q x)) [
      | inr none_here ↦ rw none_here (keep-or p q xs h)
      | inl second ↦ rw second (
          Perm.trans (Perm.cons x (keep-or p q xs h))
            (Perm.symm (perm_middle (keep p xs) (keep q xs))))
    ])
  ]

  module _ (f : A → ℕ) where
    -- The elements with a number below `n`, those of one number after those of the other.
    spread : ℕ → List A → List A
    spread zero xs = []
    spread (suc n) xs = keep (λ x. f x == n) xs ++ spread n xs

    keep-suc :
        (n : ℕ) (xs : List A)
        → Perm
            (keep (λ x. ltb (f x) (suc n)) xs)
            (keep (λ x. f x == n) xs ++ keep (λ x. ltb (f x) n) xs)
    keep-suc n xs =
        let either : (x : A) → ltb (f x) (suc n) ≡ (f x == n || ltb (f x) n) = λ x. ground arith in
        subst (λ p. Perm (keep p xs) (keep (λ x. f x == n) xs ++ keep (λ x. ltb (f x) n) xs))
          (sym (λ i x. either x i))
          (keep-or (λ x. f x == n) (λ x. ltb (f x) n) xs (λ x e. ground (arith, e)))

    keep-spread : (n : ℕ) (xs : List A) → Perm (keep (λ x. ltb (f x) n) xs) (spread n xs)
    unfolding spread
    keep-spread zero [] = Perm.nil
    keep-spread zero (x ∷ xs) = ground (arith, keep-spread zero xs)
    keep-spread (suc n) xs =
        Perm.trans (keep-suc n xs) (Perm.append_left (keep (λ x. f x == n) xs) (keep-spread n xs))

    spread-eq :
        (n : ℕ) (xs ys : List A)
        → ((i : ℕ) → keep (λ x. f x == i) xs ≡ keep (λ x. f x == i) ys)
        → spread n xs ≡ spread n ys
    unfolding spread
    spread-eq zero xs ys h = refl
    spread-eq (suc n) xs ys h = rw (h n, spread-eq n xs ys h) refl

    keep_below : (n : ℕ) (xs : List A) → ((x : A) → f x < n) → keep (λ x. ltb (f x) n) xs ≡ xs
    keep_below n [] h = refl
    keep_below n (x ∷ xs) h = rw (lt→ltb (f x) n (h x), keep_below n xs h) refl

    -- Two lists that have the same elements of each number, with numbers below `n`.
    pub Perm_of_parts :
        (n : ℕ) (xs ys : List A)
        → ((x : A) → f x < n)
        → ((i : ℕ) → keep (λ x. f x == i) xs ≡ keep (λ x. f x == i) ys)
        → Perm xs ys
    Perm_of_parts n xs ys h e =
        let spreads : (zs : List A) → Perm zs (spread n zs) =
          λ zs. subst (λ l. Perm l (spread n zs)) (keep_below n zs h) (keep-spread n zs) in
        Perm.trans (spreads xs)
          (subst (λ l. Perm l ys) (sym (spread-eq n xs ys e)) (Perm.symm (spreads ys)))

module _ {ℓ κ} {A : Type ℓ} (P : A → Type κ) where
  pub All-IsProp : (xs : List A) → ((x : A) → IsProp (P x)) → IsProp (All P xs)
  All-IsProp [] h = hlevel
  All-IsProp (x ∷ xs) h = let rest = All-IsProp xs h in hlevel (h x, rest)

  All_of_Permᴰ : {xs ys : List A} → Permᴰ xs ys → All P xs → All P ys
  All_of_Permᴰ Permᴰ.nil h = h
  All_of_Permᴰ (Permᴰ.cons e p) h = (subst P e h.0, All_of_Permᴰ p h.1)
  All_of_Permᴰ (Permᴰ.swap {l = l} e f) h = (subst P f h.1.0, (subst P e h.0, h.1.1))
  All_of_Permᴰ (Permᴰ.trans p q) h = All_of_Permᴰ q (All_of_Permᴰ p h)

  pub All_of_Perm : {xs ys : List A} → ((x : A) → IsProp (P x)) → Perm xs ys → All P xs → All P ys
  All_of_Perm {ys = ys} h p a = ∥∥₁_elim p (All-IsProp ys h) (λ d. All_of_Permᴰ d a)

  pub All_of_concat : (xss : List (List A)) → All P (concat xss) → All (All P) xss
  All_of_concat [] h = tt
  All_of_concat (xs ∷ xss) h =
      let (first, rest) = All-split P xs (concat xss) h in (first, All_of_concat xss rest)
