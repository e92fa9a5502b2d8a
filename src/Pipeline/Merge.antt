-- ===== src/Pipeline/Merge.antt =====
-- One shard's extraction, seen through lookups, and the windows merged from all shards.
use mathlib.Core.Path.{subst}
use binance_aggregator.Prelude.{
  ℕ, ◌≡◌, refl, sym, ap, ◌∙◌, Bool, true, List, none, Bytes, ltb, if◌then◌else◌,
}
use binance_aggregator.StrictOrder.{text_order, nat_order}
use binance_aggregator.Aggregation.{
  WindowStats, MarketDataAggregator, all_windows, window_stats, extract_all_windows,
  extract_completed_windows,
}
use binance_aggregator.Aggregation.Invariant.{
  IsValid, extract_all_windows-IsValid, extract_completed_windows-IsValid,
}
use binance_aggregator.Aggregation.Extraction.{
  extract_completed_windows-keep, window_stats-extract_completed_windows,
}
use binance_aggregator.OrdMap.{find}
use binance_aggregator.Writer.Lookup.{found, AreDistinct, found-keep, keep-AreDistinct}
use binance_aggregator.Writer.Listing.{found-all_windows, all_windows-AreDistinct}

-- What a flush asks of an extraction: the windows whose start passes `p` are handed out, each once,
-- and the others stay.
pub record Extraction (extract : MarketDataAggregator → List WindowStats × MarketDataAggregator)
    (p : ℕ → Bool) : Type 0 where
  pub valid : (a : MarketDataAggregator) → IsValid a → IsValid (extract a).1
  pub width : (a : MarketDataAggregator) → (extract a).1.window_ms ≡ a.window_ms
  pub distinct : (a : MarketDataAggregator) → IsValid a → AreDistinct (extract a).0
  pub listed :
      (a : MarketDataAggregator) (s : Bytes) (k : ℕ)
      → IsValid a
      → found s k (extract a).0 ≡ (if p k then window_stats a s k else none)
  pub left :
      (a : MarketDataAggregator) (s : Bytes) (k : ℕ)
      → IsValid a
      → window_stats (extract a).1 s k ≡ (if p k then none else window_stats a s k)

nothing_left :
    (a : MarketDataAggregator) (s : Bytes) (k : ℕ)
    → window_stats (extract_all_windows a).1 s k ≡ none
unfolding window_stats extract_all_windows find
nothing_left a s k = refl

pub extract_all_windows-Extraction : Extraction extract_all_windows (λ k. true)
unfolding extract_all_windows
extract_all_windows-Extraction = record {
  valid = λ a v. extract_all_windows-IsValid a;
  width = λ a. refl;
  distinct = all_windows-AreDistinct;
  listed = found-all_windows;
  left = λ a s k v. nothing_left a s k;
}

completed_listed :
    (current : ℕ) (a : MarketDataAggregator) (s : Bytes) (k : ℕ)
    → IsValid a
    → found s k (extract_completed_windows a current).0
      ≡ (if ltb k current then window_stats a s k else none)
unfolding extract_all_windows
completed_listed current a s k v =
    ap (found s k) (extract_completed_windows-keep a current v).0
    ∙ found-keep (λ w. ltb w current) s k (all_windows a.windows)
    ∙ ap (λ x. if ltb k current then x else none) (found-all_windows a s k v)

completed_distinct :
    (current : ℕ) (a : MarketDataAggregator)
    → IsValid a
    → AreDistinct (extract_completed_windows a current).0
unfolding extract_all_windows
completed_distinct current a v =
    subst AreDistinct (sym (extract_completed_windows-keep a current v).0)
      (keep-AreDistinct (λ w. ltb w current) (all_windows a.windows) (all_windows-AreDistinct a v))

completed_width :
    (current : ℕ) (a : MarketDataAggregator)
    → (extract_completed_windows a current).1.window_ms ≡ a.window_ms
unfolding extract_completed_windows
completed_width current a = refl

pub extract_completed_windows-Extraction :
    (current : ℕ) → Extraction (λ a. extract_completed_windows a current) (λ k. ltb k current)
extract_completed_windows-Extraction current = record {
  valid = λ a v. extract_completed_windows-IsValid a current v;
  width = completed_width current;
  distinct = completed_distinct current;
  listed = completed_listed current;
  left = λ a s k v. window_stats-extract_completed_windows a current s k v;
}
