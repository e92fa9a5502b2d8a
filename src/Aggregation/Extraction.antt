-- ===== src/Aggregation/Extraction.antt =====
-- What the two extractions return and what they leave: nothing is lost and nothing is doubled.
use binance_aggregator.Prelude.{
  ℕ, ◌≡◌, refl, ap, ◌∙◌, inl, inr, Bool, true, false, not, [], ◌∷◌, ◌++◌, none, Bytes, arith, ltb,
  if◌then◌else◌, Bool-cases, keep, keep-append,
}
use binance_aggregator.StrictOrder.{text_order, nat_order, text_lt}
use binance_aggregator.OrdMap.{OrdMap, find, IsSorted, Above}
use binance_aggregator.OrdMap.Laws.{find_missing}
use binance_aggregator.OrdMap.Entries.{Entries}
use binance_aggregator.Aggregation.{
  WindowStats, SymbolWindows, MarketDataAggregator, window_stats, stats_of, all_windows,
  take_completed, take_all_completed, put_back, extract_completed_windows, extract_all_windows,
}
use binance_aggregator.Aggregation.Lookup.{find_in, window_stats_lem}
use binance_aggregator.Aggregation.Invariant.{IsFiled, AreFiled, IsValid, take_all_completed-Above}

-- A window that lies wholly before `current`, and one that does not.
abbrev pub is_completed : ℕ → WindowStats → Bool
is_completed current stats = ltb stats.window_start_ms current

abbrev pub is_open : ℕ → WindowStats → Bool
is_open current stats = not (is_completed current stats)

module _ (current : ℕ) where
  -- Of one symbol's windows, the returned ones are the completed ones and the others stay.
  take_completed-keep :
      (n : ℕ) (s : Bytes) (m : SymbolWindows)
      → Entries (IsFiled n s) m
      → ((take_completed current m).0 ≡ keep (is_completed current) (stats_of m))
        × (stats_of (take_completed current m).1 ≡ keep (is_open current) (stats_of m))
  unfolding take_completed stats_of
  take_completed-keep n s [] h = (refl, refl)
  take_completed-keep n s ((w, stats) ∷ m) h =
      let (done, left) = take_completed-keep n s m h.1 in
      elim (Bool-cases (ltb w current)) [
        | inl e ↦
            let own : ltb stats.window_start_ms current ≡ true = rw (h.0).start_key e in
            rw (e, own) (ap (◌∷◌ stats) done, left)
        | inr e ↦
            let own : ltb stats.window_start_ms current ≡ false = rw (h.0).start_key e in
            rw (e, own) (done, ap (◌∷◌ stats) left)
      ]

  all_windows-put_back :
      (s : Bytes) (m : SymbolWindows) (rest : OrdMap Bytes SymbolWindows)
      → all_windows (put_back s m rest) ≡ stats_of m ++ all_windows rest
  unfolding all_windows stats_of
  all_windows-put_back s [] rest = refl
  all_windows-put_back s (w ∷ m) rest = refl

  take_all_completed-keep :
      (n : ℕ) (m : OrdMap Bytes SymbolWindows)
      → Entries (AreFiled n) m
      → ((take_all_completed current m).0 ≡ keep (is_completed current) (all_windows m))
        × (all_windows (take_all_completed current m).1 ≡ keep (is_open current) (all_windows m))
  unfolding take_all_completed all_windows
  take_all_completed-keep n [] h = (refl, refl)
  take_all_completed-keep n ((s, m) ∷ rest) h =
      let (done, left) = take_completed-keep n s m (h.0).filed in
      let (more, kept) = take_all_completed-keep n rest h.1 in
      (
        rw (keep-append (is_completed current) (stats_of m) (all_windows rest), done, more),
        rw (
          keep-append (is_open current) (stats_of m) (all_windows rest),
          all_windows-put_back s _ _,
          left,
          kept,
        ),
      )

-- For an aggregator that meets IsValid: the windows returned are those that start before
-- `current`, each once and in the order of `extract_all_windows`; the windows left are all the
-- others.
pub extract_completed_windows-keep :
    (agg : MarketDataAggregator) (current : ℕ)
    → IsValid agg
    → let all = (extract_all_windows agg).0 in
      ((extract_completed_windows agg current).0 ≡ keep (is_completed current) all)
      × ((extract_all_windows (extract_completed_windows agg current).1).0
          ≡ keep (is_open current) all)
unfolding extract_completed_windows extract_all_windows
extract_completed_windows-keep agg current v =
    take_all_completed-keep current agg.window_ms agg.windows v.symbols_filed

module _ (current : ℕ) where
  find-take_completed :
      (w : ℕ) (m : SymbolWindows)
      → find w (take_completed current m).1 ≡ (if ltb w current then none else find w m)
  unfolding take_completed find
  find-take_completed w [] = ground arith
  find-take_completed w ((v, stats) ∷ m) = ground (arith, find-take_completed w m)

  find-put_back :
      (s s' : Bytes) (w : ℕ) (m : SymbolWindows) (rest : OrdMap Bytes SymbolWindows)
      → Above s rest
      → find_in (find s' (put_back s m rest)) w ≡ find_in (find s' ((s, m) ∷ rest)) w
  unfolding find
  find-put_back s s' w (x ∷ m) rest h = refl
  find-put_back s s' w [] rest h = elim (Bool-cases (text_lt s s')) [
    | inl past ↦ rw past
    | inr upto ↦ elim (Bool-cases (text_lt s' s)) [
      | inl before ↦ rw (find_missing s' s rest h upto, upto, before)
      | inr from ↦ rw (find_missing s' s rest h upto, upto, from)
    ]
  ]

  find_round :
      (s : Bytes) (w : ℕ) (s' : Bytes) (m : SymbolWindows) (rest : OrdMap Bytes SymbolWindows)
      → find_in (find s (take_all_completed current rest).1) w
        ≡ (if ltb w current then none else find_in (find s rest) w)
      → find_in
          (find s ((s', (take_completed current m).1) ∷ (take_all_completed current rest).1))
          w
        ≡ (if ltb w current then none else find_in (find s ((s', m) ∷ rest)) w)
  unfolding find
  find_round s w s' m rest ih = elim (Bool-cases (text_lt s' s)) [
    | inl past ↦ rw past ih
    | inr upto ↦ elim (Bool-cases (text_lt s s')) [
      | inl before ↦ rw (upto, before) (ground arith)
      | inr from ↦ rw (upto, from) (find-take_completed w m)
    ]
  ]

  find-take_all_completed :
      (s : Bytes) (w : ℕ) (m : OrdMap Bytes SymbolWindows)
      → IsSorted m
      → find_in (find s (take_all_completed current m).1) w
        ≡ (if ltb w current then none else find_in (find s m) w)
  unfolding take_all_completed
  find-take_all_completed s w [] h = unfold find in ground arith
  find-take_all_completed s w ((s', m) ∷ rest) h =
      find-put_back s' s w (take_completed current m).1 (take_all_completed current rest).1
        (take_all_completed-Above current s' rest h.0)
      ∙ find_round s w s' m rest (find-take_all_completed s w rest h.1)

-- For an aggregator that meets IsValid: afterwards the windows that start before `current` are
-- gone, and every other lookup is as before.
pub window_stats-extract_completed_windows :
    (agg : MarketDataAggregator) (current : ℕ) (s : Bytes) (w : ℕ)
    → IsValid agg
    → window_stats (extract_completed_windows agg current).1 s w
      ≡ (if ltb w current then none else window_stats agg s w)
unfolding extract_completed_windows
window_stats-extract_completed_windows agg current s w v =
    rw (window_stats_lem (extract_completed_windows agg current).1 s w, window_stats_lem agg s w)
      (find-take_all_completed current s w agg.windows v.symbols_in_order)
