-- ===== src/Writer/Groups.antt =====
-- The groups that write_windows makes: under each start the windows of that start, in order.
use binance_aggregator.Prelude.{
  ℕ, ◌≡◌, refl, sym, ap, ◌∙◌, inl, inr, Bool, List, [], ◌∷◌, ◌++◌, append_assoc, Option, none, some,
  Bytes, arith, keep, Bool-cases,
}
use binance_aggregator.StrictOrder.{same, text_order, nat_order, eq_of_same}
use binance_aggregator.OrdMap.{find, alter, IsSorted, Above}
use binance_aggregator.OrdMap.Laws.{find-alter, alter-IsSorted, eq_of_find}
use binance_aggregator.Aggregation.{WindowStats}
use binance_aggregator.Output.{serialize_windows}
use binance_aggregator.Writer.{
  Snapshots, or_empty, group_into, insert, sort, write_text, write_snapshots, write_windows,
}

abbrev pub starts_at : ℕ → WindowStats → Bool
starts_at k x = same x.window_start_ms k

-- A group with more windows behind it; no group if there are none.
abbrev pub extend : Option (List WindowStats) → List WindowStats → Option (List WindowStats)
extend old [] = old
extend old (x ∷ xs) = some (or_empty old ++ x ∷ xs)

extend-snoc :
    (old : Option (List WindowStats)) (x : WindowStats) (xs : List WindowStats)
    → extend (some (or_empty old ++ x ∷ [])) xs ≡ some (or_empty old ++ x ∷ xs)
extend-snoc old x [] = refl
extend-snoc old x (y ∷ ys) = ap some (append_assoc (or_empty old) (x ∷ []) (y ∷ ys))

pub find-group_into :
    (k : ℕ) (m : Snapshots) (ws : List WindowStats)
    → find k (group_into m ws) ≡ extend (find k m) (keep (starts_at k) ws)
unfolding group_into
find-group_into k m [] = refl
find-group_into k m (w ∷ ws) =
    find-group_into k (alter w.window_start_ms (λ old. or_empty old ++ w ∷ []) m) ws
    ∙ rw (find-alter w.window_start_ms k (λ old. or_empty old ++ w ∷ []) m)
        (elim (Bool-cases (same w.window_start_ms k)) [
          | inl hit ↦
              rw (hit, ap (λ i. find i m) (eq_of_same w.window_start_ms k hit))
                (extend-snoc (find k m) w (keep (starts_at k) ws))
          | inr miss ↦ rw miss
        ])

pub group_into-IsSorted :
    (m : Snapshots) (ws : List WindowStats) → IsSorted m → IsSorted (group_into m ws)
unfolding group_into
group_into-IsSorted m [] s = s
group_into-IsSorted m (w ∷ ws) s =
    group_into-IsSorted (alter w.window_start_ms (λ old. or_empty old ++ w ∷ []) m) ws
      (alter-IsSorted w.window_start_ms _ m s)

-- The snapshots with their windows sorted.
sort_all : Snapshots → Snapshots
sort_all [] = []
sort_all ((k, ws) ∷ m) = (k, sort ws) ∷ sort_all m

write_sorted : Snapshots → List Bytes
write_sorted [] = []
write_sorted ((k, ws) ∷ m) = write_text (serialize_windows k ws) (write_sorted m)

write_snapshots-sort_all : (m : Snapshots) → write_snapshots m ≡ write_sorted (sort_all m)
unfolding write_snapshots write_sorted sort_all
write_snapshots-sort_all [] = refl
write_snapshots-sort_all ((k, ws) ∷ m) =
    ap (write_text (serialize_windows k (sort ws))) (write_snapshots-sort_all m)

sort_all-Above : (j : ℕ) (m : Snapshots) → Above j m → Above j (sort_all m)
unfolding sort_all
sort_all-Above j [] h = tt
sort_all-Above j ((k, ws) ∷ m) h = (h.0, sort_all-Above j m h.1)

sort_all-IsSorted : (m : Snapshots) → IsSorted m → IsSorted (sort_all m)
unfolding sort_all
sort_all-IsSorted [] s = tt
sort_all-IsSorted ((k, ws) ∷ m) s = (sort_all-Above k m s.0, sort_all-IsSorted m s.1)

abbrev sort_in : Option (List WindowStats) → Option (List WindowStats)
sort_in none = none
sort_in (some ws) = some (sort ws)

find-sort_all : (k : ℕ) (m : Snapshots) → find k (sort_all m) ≡ sort_in (find k m)
unfolding sort_all find
find-sort_all k [] = refl
find-sort_all k ((j, ws) ∷ m) = ground (arith, find-sort_all k m)

-- A group, from its sorted windows.
abbrev boxed : List WindowStats → Option (List WindowStats)
boxed [] = none
boxed (x ∷ xs) = some (x ∷ xs)

boxed-insert : (x : WindowStats) (xs : List WindowStats) → some (insert x xs) ≡ boxed (insert x xs)
unfolding insert
boxed-insert x [] = refl
boxed-insert x (y ∷ ys) = ground arith

boxed-sort : (ws : List WindowStats) → sort_in (extend none ws) ≡ boxed (sort ws)
unfolding sort
boxed-sort [] = refl
boxed-sort (x ∷ xs) = boxed-insert x (sort xs)

pub find-empty : (k : ℕ) → find k (let e : Snapshots = [] in e) ≡ none
unfolding find
find-empty k = refl

find-sorted_groups :
    (k : ℕ) (ws : List WindowStats)
    → find k (sort_all (group_into [] ws)) ≡ boxed (sort (keep (starts_at k) ws))
find-sorted_groups k ws =
    find-sort_all k (group_into [] ws)
    ∙ ap sort_in
        (find-group_into k [] ws ∙ ap (λ old. extend old (keep (starts_at k) ws)) (find-empty k))
    ∙ boxed-sort (keep (starts_at k) ws)

pub write_windows_lem :
    (ws : List WindowStats) → write_windows ws ≡ write_snapshots (group_into [] ws)
unfolding write_windows write_snapshots group_into
write_windows_lem [] = refl
write_windows_lem (w ∷ ws) = refl

-- What is written depends on the sorted groups alone.
pub write_windows-eq :
    (xs ys : List WindowStats)
    → ((k : ℕ) → sort (keep (starts_at k) xs) ≡ sort (keep (starts_at k) ys))
    → write_windows xs ≡ write_windows ys
write_windows-eq xs ys h =
    rw
      (
        write_windows_lem xs,
        write_windows_lem ys,
        write_snapshots-sort_all (group_into [] xs),
        write_snapshots-sort_all (group_into [] ys),
      )
      (ap write_sorted (
        eq_of_find _ _ (sort_all-IsSorted _ (group_into-IsSorted [] xs tt))
          (sort_all-IsSorted _ (group_into-IsSorted [] ys tt))
          (λ k. find-sorted_groups k xs ∙ ap boxed (h k) ∙ sym (find-sorted_groups k ys))))
