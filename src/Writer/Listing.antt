-- ===== src/Writer/Listing.antt =====
-- The windows that extract_all_windows lists are those that window_stats finds, each once.
use binance_aggregator.Prelude.{
  ℕ, ◌≡◌, refl, sym, ap, ◌∙◌, inl, inr, [], ◌∷◌, Option, none, some, Bytes, arith, if◌then◌else◌,
  Bool-cases, ◌&&◌,
}
use binance_aggregator.StrictOrder.{same, text_order, nat_order, eq_of_same, same_refl}
use binance_aggregator.OrdMap.{OrdMap, find, IsSorted, Above}
use binance_aggregator.OrdMap.Entries.{Entries}
use binance_aggregator.OrdMap.Laws.{find_of_Above, find-cons, find-nil}
use binance_aggregator.Aggregation.{
  WindowStats, SymbolWindows, MarketDataAggregator, stats_of, all_windows, window_stats,
}
use binance_aggregator.Aggregation.Lookup.{find_in, window_stats_lem}
use binance_aggregator.Aggregation.Invariant.{IsFiled, AreFiled, IsValid}
use binance_aggregator.Writer.Lookup.{
  is_window, found, or_else, found-append, AreDistinct, AreDistinct-append,
}

or_else-none : (a : Option WindowStats) → or_else a none ≡ a
or_else-none none = refl
or_else-none (some a) = refl

module _ (n : ℕ) where
  found-stats_of :
      (t s : Bytes) (k : ℕ) (m : SymbolWindows)
      → IsSorted m
      → Entries (IsFiled n t) m
      → found s k (stats_of m) ≡ (if same t s then find k m else none)
  unfolding found stats_of
  found-stats_of t s k [] o h = rw (find-nil k) (ground arith)
  found-stats_of t s k ((w, x) ∷ m) o h =
      let here : is_window s k x ≡ (same t s && same w k) =
        ap (λ y. same y s && same x.window_start_ms k) h.0.symbol_key
        ∙ ap (λ y. same t s && same y k) h.0.start_key in
      rw (here, found-stats_of t s k m o.1 h.1, find-cons w k x m o.0) (ground arith)

  stats_of-AreDistinct :
      (t : Bytes) (m : SymbolWindows)
      → IsSorted m
      → Entries (IsFiled n t) m
      → AreDistinct (stats_of m)
  unfolding stats_of
  stats_of-AreDistinct t [] o h = tt
  stats_of-AreDistinct t ((w, x) ∷ m) o h = (
    rw
        (
          h.0.symbol_key,
          h.0.start_key,
          found-stats_of t t w m o.1 h.1,
          same_refl t,
          find_of_Above w m o.0,
        )
        refl,
    stats_of-AreDistinct t m o.1 h.1,
  )

  found-round :
      (t s : Bytes) (k : ℕ) (m : SymbolWindows) (rest : OrdMap Bytes SymbolWindows)
      → Above t rest
      → found s k (all_windows rest) ≡ find_in (find s rest) k
      → found s k (stats_of m) ≡ (if same t s then find k m else none)
      → found s k (all_windows ((t, m) ∷ rest)) ≡ find_in (find s ((t, m) ∷ rest)) k
  unfolding all_windows
  found-round t s k m rest a e h =
      rw (found-append s k (stats_of m) (all_windows rest), h, e, find-cons t s m rest a)
        (elim (Bool-cases (same t s)) [
          | inr other ↦ rw other refl
          | inl here ↦
              rw (here, ← eq_of_same t s here, find_of_Above t rest a, find-nil k)
                (or_else-none (find k m))
        ])

  found-all :
      (s : Bytes) (k : ℕ) (m : OrdMap Bytes SymbolWindows)
      → IsSorted m
      → Entries (AreFiled n) m
      → found s k (all_windows m) ≡ find_in (find s m) k
  found-all s k [] o h = unfold found all_windows find in refl
  found-all s k ((t, m) ∷ rest) o h =
      found-round t s k m rest o.0 (found-all s k rest o.1 h.1)
        (found-stats_of t s k m h.0.in_order h.0.filed)

  all-AreDistinct :
      (m : OrdMap Bytes SymbolWindows)
      → IsSorted m
      → Entries (AreFiled n) m
      → AreDistinct (all_windows m)
  unfolding all_windows
  all-AreDistinct [] o h = tt
  all-AreDistinct ((t, m) ∷ rest) o h =
      AreDistinct-append (stats_of m) (all_windows rest)
        (stats_of-AreDistinct t m h.0.in_order h.0.filed) (all-AreDistinct rest o.1 h.1)
        (λ s k. elim (Bool-cases (same t s)) [
          | inr other ↦ inl (found-stats_of t s k m h.0.in_order h.0.filed ∙ rw other refl)
          | inl here ↦ inr (
              found-all s k rest o.1 h.1
              ∙ ap (λ x. find_in (find x rest) k) (sym (eq_of_same t s here))
              ∙ ap (λ x. find_in x k) (find_of_Above t rest o.0)
              ∙ find-nil k)
        ])

-- Each window that window_stats finds is listed, and no other.
pub found-all_windows :
    (agg : MarketDataAggregator) (s : Bytes) (k : ℕ)
    → IsValid agg
    → found s k (all_windows agg.windows) ≡ window_stats agg s k
found-all_windows agg s k v =
    found-all agg.window_ms s k agg.windows v.symbols_in_order v.symbols_filed
    ∙ sym (window_stats_lem agg s k)

pub all_windows-AreDistinct :
    (agg : MarketDataAggregator) → IsValid agg → AreDistinct (all_windows agg.windows)
all_windows-AreDistinct agg v =
    all-AreDistinct agg.window_ms agg.windows v.symbols_in_order v.symbols_filed
