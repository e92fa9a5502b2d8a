-- ===== src/Aggregation/History.antt =====
-- Histories of calls on one aggregator.
use binance_aggregator.Prelude.{ℕ, List, [], ◌∷◌}
use binance_aggregator.Aggregation.{
  TradeEvent, MarketDataAggregator, new, add_trade, extract_all_windows, extract_completed_windows,
}
use binance_aggregator.Aggregation.Invariant.{
  IsValid, new-IsValid, add_trade-IsValid, extract_all_windows-IsValid,
  extract_completed_windows-IsValid,
}

-- A call of a method that changes the state.
pub data Call : Type 0 where
  adds : TradeEvent → Call
  extracts_all : Call
  extracts_completed : ℕ → Call

pub step : MarketDataAggregator → Call → MarketDataAggregator
step agg (adds trade) = add_trade agg trade
step agg extracts_all = (extract_all_windows agg).1
step agg (extracts_completed current) = (extract_completed_windows agg current).1

pub run : MarketDataAggregator → List Call → MarketDataAggregator
run agg [] = agg
run agg (c ∷ cs) = run (step agg c) cs

step-IsValid : (agg : MarketDataAggregator) (c : Call) → IsValid agg → IsValid (step agg c)
unfolding step
step-IsValid agg (adds trade) v = add_trade-IsValid agg trade v
step-IsValid agg extracts_all v = extract_all_windows-IsValid agg
step-IsValid agg (extracts_completed current) v = extract_completed_windows-IsValid agg current v

run_keeps : (agg : MarketDataAggregator) (cs : List Call) → IsValid agg → IsValid (run agg cs)
unfolding run
run_keeps agg [] v = v
run_keeps agg (c ∷ cs) v = run_keeps (step agg c) cs (step-IsValid agg c v)

-- After any calls on a new aggregator its maps are in key order, no symbol is without a window, and
-- every window is filed under its own symbol and start, on the grid of window_ms, with the counters
-- of both sides adding up to the trade count and the lowest price not above the highest.
pub run-IsValid : (window_ms : ℕ) (cs : List Call) → IsValid (run (new window_ms) cs)
run-IsValid window_ms cs = run_keeps (new window_ms) cs (new-IsValid window_ms)
