-- ===== src/Aggregation/Lookup.antt =====
-- What `window_stats` finds after `add_trade` and after the two extractions.
use binance_aggregator.Prelude.{
  ℕ, ◌≡◌, inl, inr, ◌&&◌, Option, some, Bytes, arith, if◌then◌else◌, Bool-cases,
}
use binance_aggregator.StrictOrder.{same, text_order, nat_order, eq_of_same}
use binance_aggregator.OrdMap.{find, alter}
use binance_aggregator.OrdMap.Laws.{find-alter}
use binance_aggregator.Aggregation.{
  TradeEvent, WindowStats, SymbolWindows, MarketDataAggregator, window_start, accumulate,
  windows_or_empty, add_trade, window_stats,
}

-- The window that a trade belongs to.
abbrev pub start_of : MarketDataAggregator → TradeEvent → ℕ
start_of agg trade = window_start agg.window_ms trade.trade_time_ms

-- The lookup in the two levels, a missing inner map read as an empty one.
abbrev pub find_in : Option SymbolWindows → ℕ → Option WindowStats
find_in m start = find start (windows_or_empty m)

pub window_stats_lem :
    (agg : MarketDataAggregator) (s : Bytes) (w : ℕ)
    → window_stats agg s w ≡ find_in (find s agg.windows) w
unfolding window_stats find
window_stats_lem agg s w = ground arith

-- A trade changes the stats of its own symbol and window, and no others.
pub window_stats-add_trade :
    (agg : MarketDataAggregator) (t : TradeEvent) (s : Bytes) (w : ℕ)
    → window_stats (add_trade agg t) s w ≡ (
        if same t.symbol s && same (start_of agg t) w
        then some (accumulate t (start_of agg t) (window_stats agg t.symbol (start_of agg t)))
        else window_stats agg s w)
unfolding add_trade
window_stats-add_trade agg t s w =
    rw
      (
        window_stats_lem (add_trade agg t) s w,
        window_stats_lem agg s w,
        window_stats_lem agg t.symbol (start_of agg t),
        find-alter t.symbol s
            (λ old. alter (start_of agg t) (accumulate t (start_of agg t)) (windows_or_empty old))
            agg.windows,
      )
      (elim (Bool-cases (same t.symbol s)) [
        | inl hit ↦ rw (
          hit,
          ← eq_of_same t.symbol s hit,
          find-alter (start_of agg t) w (accumulate t (start_of agg t))
              (windows_or_empty (find t.symbol agg.windows)),
        )
        | inr miss ↦ rw miss
      ])
