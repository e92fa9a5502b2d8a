-- ===== src/OrdMap/Commute.antt =====
-- Writes to one map commute, and two writes to one entry are one.
use mathlib.Core.Path.{fun_ext}
use binance_aggregator.Prelude.{
  ◌≡◌, ap, inl, inr, true, false, [], ◌∷◌, Option, some, arith, Bool-cases,
}
use binance_aggregator.StrictOrder.{StrictOrder, same, asym, eq_of_same}
use binance_aggregator.OrdMap.{OrdMap, alter}

module _ {ℓ κ} {K : Type ℓ} {V : Type κ} ⦃o : StrictOrder K⦄ where
  pub alter-alter_self :
      (k : K) (f g : Option V → V) (m : OrdMap K V)
      → alter k f (alter k g m) ≡ alter k (λ old. f (some (g old))) m
  unfolding alter
  alter-alter_self k f g [] = rw (o.irrefl k)
  alter-alter_self k f g ((j, v) ∷ m) = ground (arith, alter-alter_self k f g m, o.irrefl k)

  pub alter_comm :
      (j k : K) (f g : Option V → V) (m : OrdMap K V)
      → same j k ≡ false
      → alter j f (alter k g m) ≡ alter k g (alter j f m)
  unfolding alter same
  alter_comm j k f g [] h = ground (arith, asym j k)
  alter_comm j k f g ((i, v) ∷ m) h = ground (
    arith,
    alter_comm j k f g m,
    asym j k,
    o.trans i j k,
    o.trans i k j,
    o.trans j i k,
    o.trans k i j,
    o.trans j k i,
    o.trans k j i,
    o.total i j,
    o.total i k,
  )

  -- Two writes commute if their functions do wherever they write to one entry.
  pub alter_comm_of :
      (j k : K) (f g : Option V → V) (m : OrdMap K V)
      → (same j k ≡ true → (old : Option V) → f (some (g old)) ≡ g (some (f old)))
      → alter j f (alter k g m) ≡ alter k g (alter j f m)
  alter_comm_of j k f g m h = elim (Bool-cases (same j k)) [
    | inr other ↦ alter_comm j k f g m other
    | inl one ↦
        rw (eq_of_same j k one, alter-alter_self k f g m, alter-alter_self k g f m)
          (ap (λ e. alter k e m) (fun_ext (h one)))
  ]
