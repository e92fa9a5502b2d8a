-- ===== src/Writer/Unique.antt =====
-- The texts of write_windows depend only on which windows there are, not on their order: sorting
-- windows of different symbols has one outcome.
use mathlib.Core.Path.{subst}
use binance_aggregator.Prelude.{
  ℕ, ◌≡◌, refl, sym, ap, ◌∙◌, inl, inr, List, [], ◌∷◌, Option, none, some, Bytes, arith, keep,
  if◌then◌else◌, Bool-cases,
}
use binance_aggregator.StrictOrder.{same, text_order, nat_order, eq_of_same}
use binance_aggregator.OrdMap.{OrdMap, find, alter, IsSorted}
use binance_aggregator.OrdMap.Laws.{find-alter, alter-IsSorted, eq_of_find}
use binance_aggregator.Aggregation.{WindowStats}
use binance_aggregator.Writer.{insert, sort, write_windows}
use binance_aggregator.Writer.Lookup.{found, AreDistinct}
use binance_aggregator.Writer.Groups.{starts_at, write_windows-eq}

-- The first window of symbol `s`.
pub seek : Bytes → List WindowStats → Option WindowStats
seek s [] = none
seek s (x ∷ xs) = if same x.symbol s then some x else seek s xs

abbrev pub AreApart : List WindowStats → Type 0
AreApart [] = Unit
AreApart (x ∷ xs) = (seek x.symbol xs ≡ none) × AreApart xs

abbrev pub keyed : List WindowStats → OrdMap Bytes WindowStats
keyed [] = []
keyed (x ∷ xs) = (x.symbol, x) ∷ keyed xs

abbrev unkeyed : OrdMap Bytes WindowStats → List WindowStats
unkeyed [] = []
unkeyed ((s, x) ∷ m) = x ∷ unkeyed m

unkeyed-keyed : (xs : List WindowStats) → unkeyed (keyed xs) ≡ xs
unkeyed-keyed [] = refl
unkeyed-keyed (x ∷ xs) = ap (λ ys. x ∷ ys) (unkeyed-keyed xs)

keyed-insert :
    (w : WindowStats) (vs : List WindowStats)
    → find w.symbol (keyed vs) ≡ none
    → keyed (insert w vs) ≡ alter w.symbol (λ old. w) (keyed vs)
unfolding insert find alter
keyed-insert w [] h = refl
keyed-insert w (v ∷ vs) h = ground (arith, keyed-insert w vs)

find-keyed_nil : (s : Bytes) → find s (keyed []) ≡ none
unfolding find
find-keyed_nil s = refl

find-keyed-sort :
    (s : Bytes) (xs : List WindowStats) → AreApart xs → find s (keyed (sort xs)) ≡ seek s xs
unfolding sort seek
find-keyed-sort s [] a = find-keyed_nil s
find-keyed-sort s (x ∷ xs) a =
    ap (find s) (keyed-insert x (sort xs) (find-keyed-sort x.symbol xs a.1 ∙ a.0))
    ∙ find-alter x.symbol s (λ old. x) (keyed (sort xs))
    ∙ ap (λ rest. if same x.symbol s then some x else rest) (find-keyed-sort s xs a.1)

pub keyed-sort-IsSorted : (xs : List WindowStats) → AreApart xs → IsSorted (keyed (sort xs))
unfolding sort
keyed-sort-IsSorted [] a = tt
keyed-sort-IsSorted (x ∷ xs) a =
    subst IsSorted (sym (keyed-insert x (sort xs) (find-keyed-sort x.symbol xs a.1 ∙ a.0)))
      (alter-IsSorted x.symbol (λ old. x) (keyed (sort xs)) (keyed-sort-IsSorted xs a.1))

-- Lists with the same windows sort to the same list.
sort-eq :
    (xs ys : List WindowStats)
    → AreApart xs
    → AreApart ys
    → ((s : Bytes) → seek s xs ≡ seek s ys)
    → sort xs ≡ sort ys
sort-eq xs ys a b h =
    let same_maps : keyed (sort xs) ≡ keyed (sort ys) =
      eq_of_find _ _ (keyed-sort-IsSorted xs a) (keyed-sort-IsSorted ys b)
        (λ s. find-keyed-sort s xs a ∙ h s ∙ sym (find-keyed-sort s ys b)) in
    sym (unkeyed-keyed (sort xs)) ∙ ap unkeyed same_maps ∙ unkeyed-keyed (sort ys)

seek-keep :
    (s : Bytes) (k : ℕ) (xs : List WindowStats) → seek s (keep (starts_at k) xs) ≡ found s k xs
unfolding seek found
seek-keep s k [] = refl
seek-keep s k (x ∷ xs) = ground (arith, seek-keep s k xs)

pub keep-AreApart :
    (k : ℕ) (xs : List WindowStats) → AreDistinct xs → AreApart (keep (starts_at k) xs)
keep-AreApart k [] d = tt
keep-AreApart k (x ∷ xs) d = elim (Bool-cases (same x.window_start_ms k)) [
  | inr other ↦ rw other (keep-AreApart k xs d.1)
  | inl here ↦
      let apart : seek x.symbol (keep (starts_at k) xs) ≡ none =
        seek-keep x.symbol k xs
        ∙ ap (λ i. found x.symbol i xs) (sym (eq_of_same x.window_start_ms k here))
        ∙ d.0 in
      rw here (apart, keep-AreApart k xs d.1)
]

-- Two lists of windows, in any two orders, of which no two in a list share symbol and start: if
-- every symbol and start has the same window in both, write_windows writes the same texts.
pub write_windows-found :
    (xs ys : List WindowStats)
    → AreDistinct xs
    → AreDistinct ys
    → ((s : Bytes) (k : ℕ) → found s k xs ≡ found s k ys)
    → write_windows xs ≡ write_windows ys
write_windows-found xs ys a b h = write_windows-eq xs ys (λ k.
    sort-eq _ _ (keep-AreApart k xs a) (keep-AreApart k ys b)
      (λ s. seek-keep s k xs ∙ h s k ∙ sym (seek-keep s k ys)))
