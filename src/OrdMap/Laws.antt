-- ===== src/OrdMap/Laws.antt =====
-- Lookup after a write, the order of keys, and equality of maps by their lookups.
use mathlib.Core.Path.{subst}
use binance_aggregator.Prelude.{
  ◌≡◌, refl, sym, ◌∙◌, inl, inr, true, false, [], ◌∷◌, Option, none, some, arith, if◌then◌else◌,
  Bool-cases,
}
use binance_aggregator.StrictOrder.{StrictOrder, same, asym}
use binance_aggregator.OrdMap.{OrdMap, find, alter, Above, IsSorted}

module _ {ℓ κ} {K : Type ℓ} {V : Type κ} ⦃o : StrictOrder K⦄ where
  pub find-alter :
      (k j : K) (f : Option V → V) (m : OrdMap K V)
      → find j (alter k f m) ≡ (if same k j then some (f (find k m)) else find j m)
  unfolding find alter same
  find-alter k j f [] = ground arith
  find-alter k j f ((i, v) ∷ m) = ground (
    arith,
    find-alter k j f m,
    asym i k,
    asym i j,
    asym k j,
    o.trans j i k,
    o.trans i k j,
    o.trans j k i,
    o.trans k i j,
    o.trans k j i,
    o.total i k,
    o.total i j,
    o.total k j,
  )

  pub Above-trans : (a b : K) (m : OrdMap K V) → o.lt a b ≡ true → Above b m → Above a m
  Above-trans a b [] h k = tt
  Above-trans a b ((j, v) ∷ m) h k = (o.trans a b j h k.0, Above-trans a b m h k.1)

  pub Above-alter :
      (a k : K) (f : Option V → V) (m : OrdMap K V)
      → o.lt a k ≡ true
      → Above a m
      → Above a (alter k f m)
  unfolding alter
  Above-alter a k f [] h b = (h, tt)
  Above-alter a k f ((j, v) ∷ m) h b = ground (arith, Above-alter a k f m h b.1)

  pub alter-IsSorted :
      (k : K) (f : Option V → V) (m : OrdMap K V) → IsSorted m → IsSorted (alter k f m)
  unfolding alter
  alter-IsSorted k f [] s = (tt, tt)
  alter-IsSorted k f ((j, v) ∷ m) s = elim (Bool-cases (o.lt j k)) [
    | inl past ↦ rw past (Above-alter j k f m past s.0, alter-IsSorted k f m s.1)
    | inr here ↦ elim (Bool-cases (o.lt k j)) [
      | inl before ↦ rw (here, before) ((before, Above-trans k j m before s.0), s)
      | inr equal ↦ rw (here, equal) s
    ]
  ]

  pub find_of_Above : (k : K) (m : OrdMap K V) → Above k m → find k m ≡ none
  unfolding find
  find_of_Above k [] h = refl
  find_of_Above k ((j, v) ∷ m) h = ground (arith, asym k j)

  pub find_head : (k : K) (v : V) (m : OrdMap K V) → find k ((k, v) ∷ m) ≡ some v
  unfolding find
  find_head k v m = rw (o.irrefl k)

  find_tail : (k j : K) (v : V) (m : OrdMap K V) → o.lt k j ≡ true → find j ((k, v) ∷ m) ≡ find j m
  unfolding find
  find_tail k j v m h = rw h

  find_before : (k j : K) (v : V) (m : OrdMap K V) → o.lt j k ≡ true → find j ((k, v) ∷ m) ≡ none
  unfolding find
  find_before k j v m h = rw (asym j k h, h)

  pub find_missing : (i j : K) (m : OrdMap K V) → Above j m → o.lt j i ≡ false → find i m ≡ none
  unfolding find
  find_missing i j [] h k = refl
  find_missing i j ((x, v) ∷ m) h k =
      let before : o.lt i x ≡ true = elim (Bool-cases (o.lt i j)) [
        | inl lower ↦ o.trans i j x lower h.0
        | inr equal ↦ rw (o.total i j equal k) h.0
      ] in
      rw (asym i x before, before)

  -- In key order, a lookup tests the first key for equality.
  pub find-cons :
      (j k : K) (v : V) (m : OrdMap K V)
      → Above j m
      → find k ((j, v) ∷ m) ≡ (if same j k then some v else find k m)
  unfolding find same
  find-cons j k v m h = elim (Bool-cases (o.lt j k)) [
    | inl past ↦ rw past refl
    | inr upto ↦ rw (upto, find_missing k j m h upto) (ground arith)
  ]

  same_tails :
      (j k : K) (v w : V) (m n : OrdMap K V)
      → j ≡ k
      → Above j m
      → Above k n
      → ((i : K) → find i ((j, v) ∷ m) ≡ find i ((k, w) ∷ n))
      → (i : K) → find i m ≡ find i n
  same_tails j k v w m n q h l e i = elim (Bool-cases (o.lt j i)) [
    | inl past ↦
        let past' = subst (λ x. o.lt x i ≡ true) q past in
        sym (find_tail j i v m past) ∙ e i ∙ find_tail k i w n past'
    | inr upto ↦
        let upto' = subst (λ x. o.lt x i ≡ false) q upto in
        find_missing i j m h upto ∙ sym (find_missing i k n l upto')
  ]

  find_at :
      (j k : K) (w : V) (n : OrdMap K V)
      → o.lt j k ≡ false
      → o.lt k j ≡ false
      → find j ((k, w) ∷ n) ≡ some w
  unfolding find
  find_at j k w n h l = rw (l, h)

  pub find-nil : (k : K) → find k (let e : OrdMap K V = [] in e) ≡ none
  unfolding find
  find-nil k = refl

  -- Two maps with the same lookups are the same map.
  pub eq_of_find :
      (m n : OrdMap K V) → IsSorted m → IsSorted n → ((k : K) → find k m ≡ find k n) → m ≡ n
  eq_of_find [] [] s t e = refl
  eq_of_find [] ((k, w) ∷ n) s t e = absurd (cc (e k, find_head k w n, find-nil k))
  eq_of_find ((j, v) ∷ m) [] s t e = absurd (cc (e j, find_head j v m, find-nil j))
  eq_of_find ((j, v) ∷ m) ((k, w) ∷ n) s t e = elim (Bool-cases (o.lt j k)) [
    | inl before ↦ absurd (cc (e j, find_head j v m, find_before k j w n before))
    | inr upto ↦ elim (Bool-cases (o.lt k j)) [
      | inl after ↦ absurd (cc (e k, find_head k w n, find_before j k v m after))
      | inr from ↦
          let q = o.total j k upto from in
          let tails = eq_of_find m n s.1 t.1 (same_tails j k v w m n q s.0 t.0 e) in
          cc (q, tails, e j, find_head j v m, find_at j k w n upto from)
    ]
  ]
