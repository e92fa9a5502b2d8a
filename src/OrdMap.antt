-- ===== src/OrdMap.antt =====
-- std::map as the list of its entries in key order. The red-black tree is the standard library's;
-- the program sees lookup, insertion through a reference, erasure and iteration in key order.
pub mod Laws
pub mod Entries
pub mod Commute
use binance_aggregator.Prelude.{
  ◌≡◌, Bool, true, List, [], ◌∷◌, Option, none, some, All, if◌then◌else◌,
}
use binance_aggregator.StrictOrder.{StrictOrder}

abbrev pub OrdMap {ℓ κ} : Type ℓ → Type κ → Type (ℓ ⊔ κ)
OrdMap K V = List (K × V)

module _ {ℓ κ} {K : Type ℓ} {V : Type κ} ⦃o : StrictOrder K⦄ where
  unfoldable pub find : K → OrdMap K V → Option V
  find k [] = none
  find k ((j, v) ∷ m) = if o.lt j k then find k m else if o.lt k j then none else some v

  -- The entry of `k`, made if it is missing, is assigned `f` of its old value: what `m[k]` or
  -- `m.try_emplace(k)` followed by writes through the reference does.
  unfoldable pub alter : K → (Option V → V) → OrdMap K V → OrdMap K V
  alter k f [] = (k, f none) ∷ []
  alter k f ((j, v) ∷ m) =
      if o.lt j k
      then (j, v) ∷ alter k f m
      else if o.lt k j
      then (k, f none) ∷ (j, v) ∷ m
      else (j, f (some v)) ∷ m

  abbrev pub Above : K → OrdMap K V → Type 0
  Above k [] = Unit
  Above k ((j, v) ∷ m) = (o.lt k j ≡ true) × Above k m

  -- Keys grow strictly along the list.
  abbrev pub IsSorted : OrdMap K V → Type 0
  IsSorted [] = Unit
  IsSorted ((j, v) ∷ m) = Above j m × IsSorted m
