-- ===== src/Threads.antt =====
-- The threads of MarketDataPipeline (app/src/runtime/MarketDataPipeline.cpp) from start() on: the
-- parser, one aggregation thread for each shard, the writer, and a thread that calls stop(). A move
-- is what a thread does under one mutex; the moves of all threads interleave. Shards are indexed by
-- the numbers below `n`, the number of shards. What sink_.write throws ends the program.
pub mod Accounts
pub mod Again
pub mod Aggregators
pub mod Bounded
pub mod CatchUp
pub mod Control
pub mod Delivery
pub mod Feeding
pub mod Flow
pub mod Linear
pub mod Load
pub mod Progress
pub mod Published
pub mod Refinement
pub mod Sequence
pub mod Shutdown
pub mod Sweep
pub mod Termination
use binance_aggregator.Prelude.{
  ℕ, zero, suc, ◌-◌, ◌%◌, ◌<◌, ◌≡◌, Bool, true, false, List, [], ◌∷◌, ◌++◌, Option, none, some,
  Bytes, ◌==◌, if◌then◌else◌, keep,
}
use binance_aggregator.BoundedQueue
use binance_aggregator.BoundedQueue.{BoundedQueue, Outcome, returns, push, pop, shutdown}
use binance_aggregator.Aggregation
use binance_aggregator.Aggregation.{
  TradeEvent, WindowStats, MarketDataAggregator, extract_all_windows, extract_completed_windows,
}
use binance_aggregator.Json.{JsonLibrary}
use binance_aggregator.TradeParser
use binance_aggregator.Writer.{write_windows}
use binance_aggregator.Pipeline.{Shard, aggregate}

-- Where run_parser_stage is: before its pop, before the push of a trade, or at its end.
pub data Parser : Type 0 where
  awaits_message : Parser
  routes : TradeEvent → Parser
  parser_ended : Parser

-- Where run_aggregation_stage is: before its pop, before the mutex of the shard, or at its end.
pub data Worker : Type 0 where
  awaits_trade : Worker
  adds : TradeEvent → Worker
  worker_ended : Worker

-- Where run_writer_stage is: in wait_for, or in flush_completed_windows with the time it read, the
-- shard that is next and the windows it has, or at its end.
pub data Writer : Type 0 where
  sleeps : Writer
  extracts : ℕ → ℕ → List WindowStats → Writer
  writer_ended : Writer

-- Where stop() is: not called, before each of its joins, among the shutdowns of the queues with the
-- shard that is next, in flush_remaining_windows likewise, or returned.
pub data Stopper : Type 0 where
  not_called joins_writer joins_parser joins_workers stop_returned : Stopper
  shuts : ℕ → Stopper
  flushes : ℕ → List WindowStats → Stopper

-- `accepted`, `added` and `clock` record what happened, oldest first: the messages whose push returned
-- true, the trades that the thread of a shard has added, and the times that the writer has read.
pub record System : Type 0 where
  pub raw_queue : BoundedQueue Bytes
  pub shards : ℕ → Shard
  pub parser : Parser
  pub workers : ℕ → Worker
  pub writer : Writer
  pub stopper : Stopper
  pub stop_requested : Bool
  pub written : List Bytes
  pub accepted : List Bytes
  pub added : ℕ → List TradeEvent
  pub clock : List ℕ

-- A write at one index.
abbrev pub update {ℓ} : {A : Type ℓ} → (ℕ → A) → ℕ → A → ℕ → A
update f i a j = if i == j then a else f j

abbrev pub set_queue : (ℕ → Shard) → ℕ → BoundedQueue TradeEvent → ℕ → Shard
set_queue shards i q = update shards i (record (shards i) { queue = q })

abbrev pub set_aggregator : (ℕ → Shard) → ℕ → MarketDataAggregator → ℕ → Shard
set_aggregator shards i agg = update shards i (record (shards i) { aggregator = agg })

-- The constructor and start(), with the capacities of the raw queue and of a shard's queue.
abbrev pub start : ℕ → ℕ → ℕ → System
start window_ms capacity shard_capacity = record {
  raw_queue = BoundedQueue.new capacity;
  shards = λ i. record {
    queue = BoundedQueue.new shard_capacity;
    aggregator = Aggregation.new window_ms;
  };
  parser = awaits_message;
  workers = λ i. awaits_trade;
  writer = sleeps;
  stopper = not_called;
  stop_requested = false;
  written = [];
  accepted = [];
  added = λ i. [];
  clock = [];
}

-- run_parser_stage behind its pop.
unfoldable pub parsed : JsonLibrary → Option Bytes → System → System
parsed lib none s = record s { parser = parser_ended }
parsed lib (some raw) s = elim (TradeParser.parse lib raw) [
  | none ↦ s
  | some trade ↦ record s { parser = routes trade }
]

-- run_aggregation_stage behind its pop.
unfoldable pub taken : ℕ → Option TradeEvent → System → System
taken i none s = record s { workers = update s.workers i worker_ended }
taken i (some trade) s = record s { workers = update s.workers i (adds trade) }

abbrev pub shard_of : (Bytes → ℕ) → ℕ → TradeEvent → ℕ
shard_of hash n trade = hash trade.symbol % n

-- The trades that go to shard `i`.
abbrev pub for_shard : (Bytes → ℕ) → ℕ → ℕ → List TradeEvent → List TradeEvent
for_shard hash n i = keep (λ t. shard_of hash n t == i)

-- current_window_start_ms
abbrev pub cutoff : ℕ → ℕ → ℕ
cutoff window_ms now = now - now % window_ms

abbrev pub extract_shard :
    (MarketDataAggregator → List WindowStats × MarketDataAggregator)
    → System
    → ℕ
    → List WindowStats × (ℕ → Shard)
extract_shard extract s i =
    let (windows, agg) = extract (s.shards i).aggregator in (windows, set_aggregator s.shards i agg)

-- A round of the loop of flush_completed_windows, under the mutex of the shard.
unfoldable pub writer_extracted : ℕ → ℕ → ℕ → List WindowStats → System → System
writer_extracted window_ms now i ws s =
    let (windows, shards) =
      extract_shard (λ agg. extract_completed_windows agg (cutoff window_ms now)) s i in
    record s { shards = shards; writer = extracts now (suc i) (ws ++ windows) }

-- A round of the loop of flush_remaining_windows.
unfoldable pub stop_extracted : ℕ → List WindowStats → System → System
stop_extracted i ws s =
    let (windows, shards) = extract_shard extract_all_windows s i in
    record s { shards = shards; stopper = flushes (suc i) (ws ++ windows) }

module _ (lib : JsonLibrary) (hash : Bytes → ℕ) (n window_ms : ℕ) where
  -- A move of a thread of the pipeline, stop() included.
  pub data Move (s : System) : System → Type 0 where
    parser_pops :
        {r : Option Bytes} {q : BoundedQueue Bytes}
        → s.parser ≡ awaits_message
        → pop s.raw_queue ≡ returns r q
        → Move s (parsed lib r (record s { raw_queue = q }))
    parser_pushes :
        {t : TradeEvent} {b : Bool} {q : BoundedQueue TradeEvent}
        → s.parser ≡ routes t
        → push (s.shards (shard_of hash n t)).queue t ≡ returns b q
        → Move s (record s {
          shards = set_queue s.shards (shard_of hash n t) q;
          parser = awaits_message;
        })
    worker_pops :
        (i : ℕ) {r : Option TradeEvent} {q : BoundedQueue TradeEvent}
        → i < n
        → s.workers i ≡ awaits_trade
        → pop (s.shards i).queue ≡ returns r q
        → Move s (taken i r (record s { shards = set_queue s.shards i q }))
    worker_adds :
        (i : ℕ) {t : TradeEvent}
        → i < n
        → s.workers i ≡ adds t
        → Move s (record s {
          shards = update s.shards i (aggregate t (s.shards i));
          workers = update s.workers i awaits_trade;
          added = update s.added i (s.added i ++ t ∷ []);
        })
    -- wait_for times out, and the clock is read.
    writer_wakes :
        (now : ℕ)
        → s.writer ≡ sleeps
        → s.stop_requested ≡ false
        → Move s (record s { writer = extracts now 0 []; clock = s.clock ++ now ∷ [] })
    writer_extracts :
        {now i : ℕ} {ws : List WindowStats}
        → s.writer ≡ extracts now i ws
        → i < n
        → Move s (writer_extracted window_ms now i ws s)
    writer_writes :
        {now : ℕ} {ws : List WindowStats}
        → s.writer ≡ extracts now n ws
        → Move s (record s { writer = sleeps; written = s.written ++ write_windows ws })
    writer_ends :
        s.writer ≡ sleeps → s.stop_requested ≡ true → Move s (record s { writer = writer_ended })
    stop_joins_writer :
        s.stopper ≡ joins_writer
        → s.writer ≡ writer_ended
        → Move s (record s { raw_queue = shutdown s.raw_queue; stopper = joins_parser })
    stop_joins_parser :
        s.stopper ≡ joins_parser → s.parser ≡ parser_ended → Move s (record s { stopper = shuts 0 })
    stop_shuts :
        {i : ℕ}
        → s.stopper ≡ shuts i
        → i < n
        → Move s (record s {
          shards = set_queue s.shards i (shutdown (s.shards i).queue);
          stopper = shuts (suc i);
        })
    stop_shut_all : s.stopper ≡ shuts n → Move s (record s { stopper = joins_workers })
    stop_joins_workers :
        s.stopper ≡ joins_workers
        → ((i : ℕ) → i < n → s.workers i ≡ worker_ended)
        → Move s (record s { stopper = flushes 0 [] })
    stop_extracts :
        {i : ℕ} {ws : List WindowStats}
        → s.stopper ≡ flushes i ws
        → i < n
        → Move s (stop_extracted i ws s)
    stop_writes :
        {ws : List WindowStats}
        → s.stopper ≡ flushes n ws
        → Move s (record s { stopper = stop_returned; written = s.written ++ write_windows ws })

  -- What comes from outside: a message is pushed to the raw queue, or stop() is called.
  pub data Input (s : System) : System → Type 0 where
    submits :
        (raw : Bytes) {b : Bool} {q : BoundedQueue Bytes}
        → push s.raw_queue raw ≡ returns b q
        → Input s (record s {
          raw_queue = q;
          accepted = if b then s.accepted ++ raw ∷ [] else s.accepted;
        })
    calls_stop :
        s.stopper ≡ not_called
        → Input s (record s { stop_requested = true; stopper = joins_writer })

  pub data Reach (capacity shard_capacity : ℕ) : System → Type 0 where
    started : Reach capacity shard_capacity (start window_ms capacity shard_capacity)
    moves :
        {s t : System}
        → Reach capacity shard_capacity s
        → Move s t
        → Reach capacity shard_capacity t
    inputs :
        {s t : System}
        → Reach capacity shard_capacity s
        → Input s t
        → Reach capacity shard_capacity t
