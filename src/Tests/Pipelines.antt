-- ===== src/Tests/Pipelines.antt =====
-- Runs of app/src/output/StatsSerializer.cpp and app/src/runtime/MarketDataPipeline.cpp.
use binance_aggregator.Prelude.{◌+◌, ◌≤◌, ◌≡◌, refl, [], ◌∷◌, codes, length, List, arith}
use binance_aggregator.Prelude.Int.{pos}
use binance_aggregator.StrictOrder.{text_order, nat_order}
use binance_aggregator.Decimal.{from_raw}
use binance_aggregator.Decimal.Digits.{print_u64}
use binance_aggregator.Aggregation.{WindowStats, TradeEvent}
use binance_aggregator.Output.{format_iso8601_utc, date_of_seconds, two_digits}
use binance_aggregator.Output.Timestamp.{timestamp_fits}
use binance_aggregator.Pipeline.{new, traded, ticked, stopped, Event, run}
use binance_aggregator.Pipeline.ThreadCount.{run-new}
use binance_aggregator.Tests.Aggregates.{first_trade, second_trade, bitcoin}

-- The timestamp in the README.
documented_timestamp : format_iso8601_utc 1_768_227_800_000 ≡ codes "2026-01-12T14:23:20Z"
unfolding format_iso8601_utc date_of_seconds two_digits print_u64
documented_timestamp = refl

leap_day : format_iso8601_utc 1_709_164_800_000 ≡ codes "2024-02-29T00:00:00Z"
unfolding format_iso8601_utc date_of_seconds two_digits print_u64
leap_day = refl

timestamp_fits_example : length (format_iso8601_utc 1_768_227_800_000) + 1 ≤ 32
timestamp_fits_example = timestamp_fits 1_768_227_800_000 (omega arith)

abbrev ether_trade : TradeEvent
ether_trade = record first_trade { symbol = codes "ETHUSDT" }

abbrev pub events : List Event
events =
    traded first_trade
    ∷ traded ether_trade
    ∷ traded second_trade
    ∷ ticked 1999
    ∷ ticked 2500
    ∷ stopped
    ∷ []

-- One thread with a hash that is constant, and four threads with the length as the hash.
run-new_example :
    (run (λ s. 7) (new 1000 5000 10 1) events).written
    ≡ (run length (new 1000 5000 10 4) events).written
run-new_example = run-new (λ s. 7) length 1000 5000 10 1 4 events

abbrev pub bitcoin_window : WindowStats
bitcoin_window = record {
  symbol = bitcoin;
  window_start_ms = 1000;
  trade_count = 1;
  total_volume = from_raw (pos 5);
  min_price = from_raw (pos 5);
  max_price = from_raw (pos 5);
  buyer_initiated_count = 1;
  seller_initiated_count = 0;
}

abbrev pub later_window : WindowStats
later_window = record bitcoin_window { window_start_ms = 2000 }
