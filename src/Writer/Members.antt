-- ===== src/Writer/Members.antt =====
-- Grouping and sorting (write_windows of app/src/runtime/MarketDataPipeline.cpp) keep each window.
use mathlib.Core.List.{Perm, perm_middle}
use mathlib.Core.List.Perm
use mathlib.Core.Path.{subst}
use binance_aggregator.Prelude.{
  ℕ, ◌≢◌, refl, inl, inr, List, [], ◌∷◌, ◌++◌, append_assoc, append-nil, arith, All, Bool-cases,
}
use binance_aggregator.StrictOrder.{text_order, nat_order, text_lt}
use binance_aggregator.OrdMap.{alter}
use binance_aggregator.Aggregation.{WindowStats}
use binance_aggregator.Writer.{Snapshots, or_empty, group_into, insert, sort}

insert-Perm : (w : WindowStats) (vs : List WindowStats) → Perm (insert w vs) (w ∷ vs)
unfolding insert
insert-Perm w [] = Perm.refl (w ∷ [])
insert-Perm w (v ∷ vs) = elim (Bool-cases (text_lt v.symbol w.symbol)) [
  | inl past ↦ rw past (Perm.trans (Perm.cons v (insert-Perm w vs)) (Perm.swap w v vs))
  | inr here ↦ rw here (Perm.refl (w ∷ v ∷ vs))
]

pub sort-Perm : (ws : List WindowStats) → Perm (sort ws) ws
unfolding sort
sort-Perm [] = Perm.nil
sort-Perm (w ∷ ws) = Perm.trans (insert-Perm w (sort ws)) (Perm.cons w (sort-Perm ws))

insert-ne-nil : (w : WindowStats) (vs : List WindowStats) → insert w vs ≢ []
unfolding insert
insert-ne-nil w [] = λ e. cc
insert-ne-nil w (v ∷ vs) = ground arith

pub sort-ne-nil : (ws : List WindowStats) → ws ≢ [] → sort ws ≢ []
unfolding sort
sort-ne-nil [] h = λ e. h refl
sort-ne-nil (w ∷ ws) h = insert-ne-nil w (sort ws)

-- All windows of the groups.
abbrev pub members : Snapshots → List WindowStats
members [] = []
members ((k, g) ∷ m) = g ++ members m

alter-members :
    (w : WindowStats) (k : ℕ) (m : Snapshots)
    → Perm (members (alter k (λ old. or_empty old ++ w ∷ []) m)) (w ∷ members m)
unfolding alter
alter-members w k [] = Perm.refl (w ∷ [])
alter-members w k ((j, g) ∷ m) = elim (Bool-cases (nat_order.lt j k)) [
  | inl past ↦
      rw past (Perm.trans (Perm.append_left g (alter-members w k m)) (perm_middle g (members m)))
  | inr upto ↦ elim (Bool-cases (nat_order.lt k j)) [
    | inl before ↦ rw (upto, before) (Perm.refl (w ∷ (g ++ members m)))
    | inr from ↦ rw (upto, from, append_assoc g (w ∷ []) (members m)) (perm_middle g (members m))
  ]
]

group_into_from :
    (m : Snapshots) (ws : List WindowStats) → Perm (members (group_into m ws)) (ws ++ members m)
unfolding group_into
group_into_from m [] = Perm.refl (members m)
group_into_from m (w ∷ ws) =
    Perm.trans (group_into_from (alter w.window_start_ms (λ old. or_empty old ++ w ∷ []) m) ws) (
      Perm.trans (Perm.append_left ws (alter-members w w.window_start_ms m))
        (perm_middle ws (members m)))

-- Grouping keeps each window.
pub group_into-members : (ws : List WindowStats) → Perm (members (group_into [] ws)) ws
group_into-members ws =
    subst (λ l. Perm (members (group_into [] ws)) l) (append-nil ws) (group_into_from [] ws)

All-insert :
    (P : WindowStats → Type 0) (w : WindowStats) (vs : List WindowStats)
    → P w
    → All P vs
    → All P (insert w vs)
unfolding insert
All-insert P w [] h a = (h, tt)
All-insert P w (v ∷ vs) h a = elim (Bool-cases (text_lt v.symbol w.symbol)) [
  | inl past ↦ rw past (a.0, All-insert P w vs h a.1)
  | inr here ↦ rw here (h, a)
]

pub All-sort : (P : WindowStats → Type 0) (ws : List WindowStats) → All P ws → All P (sort ws)
unfolding sort
All-sort P [] a = tt
All-sort P (w ∷ ws) a = All-insert P w (sort ws) a.0 (All-sort P ws a.1)
