-- ===== src/Writer/Snapshots.antt =====
-- write_windows (app/src/runtime/MarketDataPipeline.cpp) as a list of snapshots: what each has, and
-- in which order they are written.
use mathlib.Core.List.{Perm}
use mathlib.Core.List.Perm
use mathlib.Core.Path.{subst}
use binance_aggregator.Prelude.{
  ℕ, ◌≡◌, ◌≢◌, refl, sym, ap, ◌∙◌, inl, inr, List, [], ◌∷◌, map, none, some, Bytes, keep, All,
  Bool-cases,
}
use binance_aggregator.Prelude.Perms.{concat}
use binance_aggregator.StrictOrder.{same, text_order, nat_order, eq_of_same}
use binance_aggregator.OrdMap.{OrdMap, IsSorted, Above}
use binance_aggregator.OrdMap.Entries.{Entries, find-Entries}
use binance_aggregator.Aggregation.{WindowStats}
use binance_aggregator.Output.{StatsSnapshot, serialize, serialize_windows}
use binance_aggregator.Writer.{
  Snapshots, group_into, sort, write_text, write_snapshots, write_windows,
}
use binance_aggregator.Writer.Members.{
  sort-Perm, sort-ne-nil, members, group_into-members, All-sort,
}
use binance_aggregator.Writer.Lookup.{AreDistinct}
use binance_aggregator.Writer.Groups.{
  starts_at, extend, find-group_into, find-empty, group_into-IsSorted, write_windows_lem,
}
use binance_aggregator.Writer.Unique.{AreApart, keyed, keyed-sort-IsSorted, keep-AreApart}

-- A snapshot as it is written: it has windows, all of its start, in strictly growing order of their
-- symbols.
pub record IsSnapshot (snapshot : StatsSnapshot) : Type 0 where
  pub some_window : snapshot.windows ≢ []
  pub starts : All (λ w. w.window_start_ms ≡ snapshot.window_start_ms) snapshot.windows
  pub by_symbol : IsSorted (keyed snapshot.windows)

abbrev pub dated : List StatsSnapshot → OrdMap ℕ StatsSnapshot
dated [] = []
dated (x ∷ xs) = (x.window_start_ms, x) ∷ dated xs

-- The snapshots of some windows: in strictly growing order of their starts, and with each of the
-- windows once.
pub record IsListing (ws : List WindowStats) (snapshots : List StatsSnapshot) : Type 0 where
  pub blocks : All IsSnapshot snapshots
  pub by_start : IsSorted (dated snapshots)
  pub complete : Perm (concat (map (λ x. x.windows) snapshots)) ws

-- What a group holds.
record IsGroup (k : ℕ) (ws : List WindowStats) : Type 0 where
  some_window : ws ≢ []
  starts : All (λ w. w.window_start_ms ≡ k) ws
  apart : AreApart ws

keep-starts_at :
    (k : ℕ) (ws : List WindowStats) → All (λ w. w.window_start_ms ≡ k) (keep (starts_at k) ws)
keep-starts_at k [] = tt
keep-starts_at k (w ∷ ws) = elim (Bool-cases (same w.window_start_ms k)) [
  | inl here ↦ rw here (eq_of_same w.window_start_ms k here, keep-starts_at k ws)
  | inr other ↦ rw other (keep-starts_at k ws)
]

extend-none : (l g : List WindowStats) → extend none l ≡ some g → (g ≡ l) × (g ≢ [])
extend-none [] g e = absurd (cc)
extend-none (x ∷ xs) g e = let same_list : g ≡ x ∷ xs = cc in (same_list, λ q. cc)

groups : (ws : List WindowStats) → AreDistinct ws → Entries IsGroup (group_into [] ws)
groups ws d = find-Entries IsGroup (group_into [] ws) (group_into-IsSorted [] ws tt) (λ k g e.
    let (kept, some_window) = extend-none (keep (starts_at k) ws) g (
      sym (find-group_into k [] ws ∙ ap (λ old. extend old (keep (starts_at k) ws)) (find-empty k))
      ∙ e) in
    record {
      some_window = some_window;
      starts = subst (All (λ w. w.window_start_ms ≡ k)) (sym kept) (keep-starts_at k ws);
      apart = subst AreApart (sym kept) (keep-AreApart k ws d);
    })

snapshots_of : Snapshots → List StatsSnapshot
snapshots_of [] = []
snapshots_of ((k, g) ∷ m) = record { window_start_ms = k; windows = sort g } ∷ snapshots_of m

snapshots_of-members :
    (m : Snapshots) → Perm (concat (map (λ x. x.windows) (snapshots_of m))) (members m)
unfolding snapshots_of
snapshots_of-members [] = Perm.nil
snapshots_of-members ((k, g) ∷ m) = Perm.append (sort-Perm g) (snapshots_of-members m)

snapshots_of-Above : (k : ℕ) (m : Snapshots) → Above k m → Above k (dated (snapshots_of m))
unfolding snapshots_of
snapshots_of-Above k [] h = tt
snapshots_of-Above k ((j, g) ∷ m) h = (h.0, snapshots_of-Above k m h.1)

snapshots_of-IsSorted : (m : Snapshots) → IsSorted m → IsSorted (dated (snapshots_of m))
unfolding snapshots_of
snapshots_of-IsSorted [] s = tt
snapshots_of-IsSorted ((j, g) ∷ m) s = (snapshots_of-Above j m s.0, snapshots_of-IsSorted m s.1)

snapshots_of-blocks : (m : Snapshots) → Entries IsGroup m → All IsSnapshot (snapshots_of m)
unfolding snapshots_of
snapshots_of-blocks [] h = tt
snapshots_of-blocks ((k, g) ∷ m) h = (
  record {
    some_window = sort-ne-nil g h.0.some_window;
    starts = All-sort (λ w. w.window_start_ms ≡ k) g h.0.starts;
    by_symbol = keyed-sort-IsSorted g h.0.apart;
  },
  snapshots_of-blocks m h.1,
)

write_text-some :
    (k : ℕ) (ws : List WindowStats) (rest : List Bytes)
    → ws ≢ []
    → write_text (serialize_windows k ws) rest ≡ serialize_windows k ws ∷ rest
unfolding write_text serialize_windows
write_text-some k [] rest h = absurd (h refl)
write_text-some k (w ∷ ws) rest h = refl

write_snapshots-map :
    (m : Snapshots) → Entries IsGroup m → write_snapshots m ≡ map serialize (snapshots_of m)
unfolding write_snapshots snapshots_of serialize
write_snapshots-map [] h = refl
write_snapshots-map ((k, g) ∷ m) h =
    write_text-some k (sort g) (write_snapshots m) (sort-ne-nil g h.0.some_window)
    ∙ ap (λ rest. serialize_windows k (sort g) ∷ rest) (write_snapshots-map m h.1)

-- Windows of which no two share symbol and start are written as the texts of a list of snapshots,
-- one text for each, in strictly growing order of their starts: a snapshot has windows, all of its
-- own start, in strictly growing order of their symbols, and each of the windows is in one snapshot.
pub write_windows-IsListing :
    (ws : List WindowStats)
    → AreDistinct ws
    → (snapshots : List StatsSnapshot) × (write_windows ws ≡ map serialize snapshots)
      × IsListing ws snapshots
write_windows-IsListing ws d =
    let m : Snapshots = group_into [] ws in
    (
      snapshots_of m,
      write_windows_lem ws ∙ write_snapshots-map m (groups ws d),
      record {
        blocks = snapshots_of-blocks m (groups ws d);
        by_start = snapshots_of-IsSorted m (group_into-IsSorted [] ws tt);
        complete = Perm.trans (snapshots_of-members m) (group_into-members ws);
      },
    )
