-- ===== src/Pipeline.antt =====
-- app/include/agg/runtime/MarketDataPipeline.hpp and app/src/runtime/MarketDataPipeline.cpp: the
-- shards, the routing of a symbol, the add of the aggregation stage, the two flushes. std::hash is
-- a parameter.
pub mod Accounts
pub mod Book
pub mod Determined
pub mod Merge
pub mod Readable
pub mod Sharded
pub mod Shards
pub mod ThreadCount
pub mod Twice
use binance_aggregator.Prelude.{
  ℕ, ◌-◌, ◌%◌, ◌/◌, zero, suc, List, [], ◌∷◌, ◌++◌, Bytes, ltb, if◌then◌else◌, length, replicate,
}
use binance_aggregator.BoundedQueue
use binance_aggregator.BoundedQueue.{BoundedQueue}
use binance_aggregator.Aggregation
use binance_aggregator.Aggregation.{
  TradeEvent, WindowStats, MarketDataAggregator, add_trade, extract_all_windows,
  extract_completed_windows,
}
use binance_aggregator.Writer.{write_windows}

pub record Shard : Type 0 where
  pub queue : BoundedQueue TradeEvent
  pub aggregator : MarketDataAggregator

-- `written` is what sink_.write was called with, in order.
pub record MarketDataPipeline : Type 0 where
  pub window_ms : ℕ
  pub flush_interval_ms : ℕ
  pub raw_queue : BoundedQueue Bytes
  pub shards : List Shard
  pub written : List Bytes

-- std::max
abbrev pub max : ℕ → ℕ → ℕ
max a b = if ltb a b then b else a

-- The constructor.
unfoldable pub new : ℕ → ℕ → ℕ → ℕ → MarketDataPipeline
new window_ms flush_interval_ms queue_capacity aggregator_threads =
    let shard_count = max aggregator_threads 1 in
    let per_shard_capacity = max (queue_capacity / shard_count) 1 in
    record {
      window_ms = window_ms;
      flush_interval_ms = flush_interval_ms;
      raw_queue = BoundedQueue.new queue_capacity;
      shards = replicate shard_count (record {
        queue = BoundedQueue.new per_shard_capacity;
        aggregator = Aggregation.new window_ms;
      });
      written = [];
    }

unfoldable pub shard_index_for_symbol : (Bytes → ℕ) → MarketDataPipeline → Bytes → ℕ
shard_index_for_symbol hash p symbol = hash symbol % length p.shards

-- A write through `shards_[i]`.
unfoldable pub modify : ℕ → (Shard → Shard) → List Shard → List Shard
modify i f [] = []
modify zero f (x ∷ xs) = f x ∷ xs
modify (suc i) f (x ∷ xs) = x ∷ modify i f xs

-- What run_aggregation_stage does, under the lock, with a trade from its queue.
unfoldable pub aggregate : TradeEvent → Shard → Shard
aggregate trade shard = record shard { aggregator = add_trade shard.aggregator trade }

-- The loop over the shards in both flushes.
unfoldable pub extract_from :
    (MarketDataAggregator → List WindowStats × MarketDataAggregator)
    → List Shard
    → List WindowStats × List Shard
extract_from extract [] = ([], [])
extract_from extract (shard ∷ shards) =
    let (windows, aggregator) = extract shard.aggregator in
    let (more, rest) = extract_from extract shards in
    (windows ++ more, record shard { aggregator = aggregator } ∷ rest)

-- A flush: the loop, then write_windows.
unfoldable pub flush :
    (MarketDataAggregator → List WindowStats × MarketDataAggregator)
    → MarketDataPipeline
    → MarketDataPipeline
flush extract p =
    let (windows, shards) = extract_from extract p.shards in
    record p { shards = shards; written = p.written ++ write_windows windows }

-- With the wall clock at `now_ms`.
unfoldable pub flush_completed_windows : ℕ → MarketDataPipeline → MarketDataPipeline
flush_completed_windows now_ms p =
    flush (λ agg. extract_completed_windows agg (now_ms - now_ms % p.window_ms)) p

unfoldable pub flush_remaining_windows : MarketDataPipeline → MarketDataPipeline
flush_remaining_windows p = flush extract_all_windows p

-- What happens to the aggregators: a trade is added in the shard of its symbol, the writer thread
-- flushes, stop() flushes what remains. A flush is one event: it takes the shards' mutexes one after
-- the other, so a trade that comes in between stands before or behind it, as its shard was locked.
pub data Event : Type 0 where
  traded : TradeEvent → Event
  ticked : ℕ → Event
  stopped : Event

unfoldable pub handle : (Bytes → ℕ) → MarketDataPipeline → Event → MarketDataPipeline
handle hash p (traded t) = record p {
  shards = modify (shard_index_for_symbol hash p t.symbol) (aggregate t) p.shards;
}
handle hash p (ticked now_ms) = flush_completed_windows now_ms p
handle hash p stopped = flush_remaining_windows p

unfoldable pub run : (Bytes → ℕ) → MarketDataPipeline → List Event → MarketDataPipeline
run hash p [] = p
run hash p (e ∷ es) = run hash (handle hash p e) es
