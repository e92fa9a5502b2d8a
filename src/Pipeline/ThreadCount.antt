-- ===== src/Pipeline/ThreadCount.antt =====
-- The README's claim that the output is the same for any aggregator_threads.
use binance_aggregator.Prelude.{ℕ, ◌≡◌, List, Bytes}
use binance_aggregator.Pipeline.{new, Event, run}
use binance_aggregator.Pipeline.Accounts.{run-Writes}
use binance_aggregator.Pipeline.Determined.{Writes-eq}

-- Two pipelines with the same window_ms, flush interval and queue capacity, any numbers of aggregator
-- threads and any two hash functions: after the same trades, flushes at the same clock times and
-- stops, in the same order, they have written the same texts.
pub run-new :
    (hash hash' : Bytes → ℕ) (window_ms interval capacity threads threads' : ℕ) (es : List Event)
    → (run hash (new window_ms interval capacity threads) es).written
      ≡ (run hash' (new window_ms interval capacity threads') es).written
run-new hash hash' window_ms interval capacity threads threads' es =
    Writes-eq window_ms (run-Writes hash window_ms interval capacity threads es)
      (run-Writes hash' window_ms interval capacity threads' es)
