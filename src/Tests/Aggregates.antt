-- ===== src/Tests/Aggregates.antt =====
-- Runs of app/src/aggregation/MarketDataAggregator.cpp.
use mathlib.Core.List.Perm
use binance_aggregator.Prelude.{◌≡◌, true, false, [], ◌∷◌, Bytes, codes, keep}
use binance_aggregator.Prelude.Int.{pos}
use binance_aggregator.StrictOrder.{text_order, nat_order}
use binance_aggregator.Decimal.{from_raw}
use binance_aggregator.Aggregation.{
  TradeEvent, MarketDataAggregator, new, add_trade, window_stats, extract_all_windows,
  extract_completed_windows,
}
use binance_aggregator.Aggregation.Invariant.{IsValid, new-IsValid, add_trade-IsValid}
use binance_aggregator.Aggregation.Extraction.{
  is_completed, is_open, extract_completed_windows-keep,
}
use binance_aggregator.Aggregation.Order.{add_trades, add_trades-perm}
use binance_aggregator.Aggregation.History.{adds, extracts_completed, run, run-IsValid}
use binance_aggregator.Aggregation.Summary.{after, bucket, Summary, window_stats-Summary}

abbrev pub bitcoin : Bytes
bitcoin = codes "BTCUSDT"

abbrev pub first_trade : TradeEvent
first_trade = record {
  symbol = bitcoin;
  trade_id = 1;
  price = from_raw (pos 10_000_000_000);
  quantity = from_raw (pos 100_000_000);
  trade_time_ms = 1200;
  buyer_is_maker = false;
}

abbrev pub second_trade : TradeEvent
second_trade = record first_trade {
  trade_id = 2;
  price = from_raw (pos 11_000_000_000);
  trade_time_ms = 1500;
  buyer_is_maker = true;
}

abbrev one_trade : MarketDataAggregator
one_trade = add_trade (new 1000) first_trade

one_trade-IsValid : IsValid one_trade
one_trade-IsValid = add_trade-IsValid (new 1000) first_trade (new-IsValid 1000)

window_stats-Summary_example :
    Summary bitcoin 1000
      (bucket 1000 bitcoin 1000 (second_trade ∷ first_trade ∷ []))
      (window_stats (after 1000 (second_trade ∷ first_trade ∷ [])) bitcoin 1000)
window_stats-Summary_example =
    window_stats-Summary 1000 (second_trade ∷ first_trade ∷ []) bitcoin 1000

add_trades-perm_example :
    add_trades (new 1000) (first_trade ∷ second_trade ∷ [])
    ≡ add_trades (new 1000) (second_trade ∷ first_trade ∷ [])
add_trades-perm_example = add_trades-perm (new 1000) (Perm.swap second_trade first_trade [])

extract_completed_windows-keep_example :
    ((extract_completed_windows one_trade 2000).0
      ≡ keep (is_completed 2000) (extract_all_windows one_trade).0)
    × ((extract_all_windows (extract_completed_windows one_trade 2000).1).0
        ≡ keep (is_open 2000) (extract_all_windows one_trade).0)
extract_completed_windows-keep_example =
    extract_completed_windows-keep one_trade 2000 one_trade-IsValid

run-IsValid_example :
    IsValid (run (new 1000) (adds first_trade ∷ extracts_completed 2000 ∷ adds second_trade ∷ []))
run-IsValid_example =
    run-IsValid 1000 (adds first_trade ∷ extracts_completed 2000 ∷ adds second_trade ∷ [])
