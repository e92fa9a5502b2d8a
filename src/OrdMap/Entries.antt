-- ===== src/OrdMap/Entries.antt =====
-- A property of every entry of a map, kept by a write.
use mathlib.Core.Path.{subst}
use binance_aggregator.Prelude.{
  ◌≡◌, sym, ◌∙◌, inl, inr, [], ◌∷◌, ◌≢◌, Option, none, some, arith, Bool-cases,
}
use binance_aggregator.StrictOrder.{StrictOrder, same, eq_of_same}
use binance_aggregator.OrdMap.{OrdMap, find, alter, IsSorted}
use binance_aggregator.OrdMap.Laws.{find_head, find_of_Above, find-cons}

module _ {ℓ κ} {K : Type ℓ} {V : Type κ} ⦃o : StrictOrder K⦄ (P : K → V → Type 0) where
  abbrev pub Entries : OrdMap K V → Type 0
  Entries [] = Unit
  Entries ((k, v) ∷ m) = P k v × Entries m

  pub Entries-alter :
      (k : K) (f : Option V → V) (m : OrdMap K V)
      → P k (f none)
      → ((v : V) → P k v → P k (f (some v)))
      → Entries m
      → Entries (alter k f m)
  unfolding alter
  Entries-alter k f [] new old h = (new, tt)
  Entries-alter k f ((j, v) ∷ m) new old h = elim (Bool-cases (o.lt j k)) [
    | inl past ↦ rw past (h.0, Entries-alter k f m new old h.1)
    | inr upto ↦ elim (Bool-cases (o.lt k j)) [
      | inl before ↦ rw (upto, before) (new, h)
      | inr from ↦
          let q = o.total j k upto from in
          rw (upto, from)
            (subst (λ x. P x (f (some v))) (sym q) (old v (subst (λ x. P x v) q h.0)), h.1)
    ]
  ]

  pub Entries-find : (k : K) (m : OrdMap K V) (v : V) → Entries m → find k m ≡ some v → P k v
  unfolding find
  Entries-find k [] v h e = absurd (cc)
  Entries-find k ((j, x) ∷ m) v h e = elim (Bool-cases (o.lt j k)) [
    | inl past ↦ Entries-find k m v h.1 (rw past at e)
    | inr upto ↦ elim (Bool-cases (o.lt k j)) [
      | inl before ↦ absurd (cc (rw (upto, before) at e))
      | inr from ↦
          let found : ◌≡◌ {A = Option V} (some x) (some v) = rw (upto, from) at e in
          let same_value : x ≡ v = cc in
          subst (P k) same_value (subst (λ y. P y x) (o.total j k upto from) h.0)
    ]
  ]

-- The entries of a sorted map are what lookups find.
pub find-Entries {ℓ κ} :
    {K : Type ℓ} {V : Type κ} ⦃o : StrictOrder K⦄ (P : K → V → Type 0) (m : OrdMap K V)
    → IsSorted m
    → ((k : K) (v : V) → find k m ≡ some v → P k v)
    → Entries P m
find-Entries P [] s h = tt
find-Entries P ((j, v) ∷ m) s h = (
  h j v (find_head j v m),
  find-Entries P m s.1 (λ k x e. h k x (
      find-cons j k v m s.0 ∙ elim (Bool-cases (same j k)) [
        | inr other ↦ rw other e
        | inl here ↦ absurd (cc (eq_of_same j k here, find_of_Above j m s.0, e))
      ])),
)

pub alter-ne-nil {ℓ κ} :
    {K : Type ℓ} {V : Type κ} ⦃o : StrictOrder K⦄ (k : K) (f : Option V → V) (m : OrdMap K V)
    → alter k f m ≢ []
unfolding alter
alter-ne-nil k f [] = λ e. cc
alter-ne-nil ⦃o⦄ k f ((j, v) ∷ m) = ground arith
