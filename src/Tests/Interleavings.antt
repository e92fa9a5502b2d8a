-- ===== src/Tests/Interleavings.antt =====
-- A run of the threads of app/src/runtime/MarketDataPipeline.cpp with one shard.
use mathlib.Core.Path.{subst}
use binance_aggregator.Prelude.{
  ℕ, ◌+◌, ◌≡◌, ◌≤◌, ◌<◌, true, refl, [], Bytes, codes, arith, List, All, map,
}
use binance_aggregator.StrictOrder.{same, text_lt}
use binance_aggregator.BoundedQueue.{push, pop, shutdown}
use binance_aggregator.Decimal
use binance_aggregator.TradeParser
use binance_aggregator.Pipeline.{aggregate}
use binance_aggregator.Threads.{
  System, for_shard, parsed, taken, writer_extracted, stop_extracted, Move, Input, Reach,
  stop_returned, flushes, joins_workers, not_called, worker_ended,
}
use binance_aggregator.Threads.Control.{AreOrdered, Reach-AreOrdered}
use binance_aggregator.Threads.Flow.{trades_of}
use binance_aggregator.Threads.Aggregators.{IsFedWith, stop-delivers}
use binance_aggregator.Threads.Again.{Again, IsUnchanged}
use binance_aggregator.Threads.Again.Returns.{stop-again}
use binance_aggregator.Threads.CatchUp.{catches_up}
use binance_aggregator.Threads.Published.{stop-publishes}
use binance_aggregator.Threads.Load.{work}
use binance_aggregator.Threads.Shutdown.{Moves, stays, goes, stop-bounded, stop-returns}
use binance_aggregator.Prelude.Fields.{Lacks}
use binance_aggregator.Output.{StatsSnapshot, serialize}
use binance_aggregator.Output.Blocks.{IsBlock}
use binance_aggregator.Writer.Snapshots.{IsSnapshot}
use binance_aggregator.Tests.Messages.{library}
use binance_aggregator.Tests.Blocks.{bitcoin-Lacks}

abbrev constant : Bytes → ℕ
constant s = 0

first : 0 < 1
first = omega arith

only_first : (P : ℕ → Type 0) → P 0 → (i : ℕ) → i < 1 → P i
only_first P h i l = subst P (omega (arith, l)) h

abbrev Run : Type 0
Run = (s : System) × Reach library constant 1 1000 2 1 s

-- One message is on its way to a window that a flush of the writer writes.
abbrev flushed_run : Run
unfolding push pop shutdown parsed taken writer_extracted stop_extracted TradeParser.parse
    TradeParser.parse_document TradeParser.parse_root TradeParser.parse_payload
    TradeParser.unwrap_payload TradeParser.has_required_fields TradeParser.is_unsupported_event_type
    TradeParser.with_numbers Decimal.parse same text_lt aggregate
flushed_run =
    let accepted = Reach.inputs Reach.started (Input.submits (codes "t") refl) in
    let routed =
      Reach.moves (Reach.moves accepted (Move.parser_pops refl refl))
        (Move.parser_pushes refl refl) in
    let added =
      Reach.moves (Reach.moves routed (Move.worker_pops 0 first refl refl))
        (Move.worker_adds 0 first refl) in
    (
      _,
      Reach.moves
          (Reach.moves (Reach.moves added (Move.writer_wakes 2500 refl refl))
            (Move.writer_extracts refl first))
          (Move.writer_writes refl),
    )

-- A second one is still in the raw queue when stop() is called.
abbrev closed_run : Run
unfolding push pop shutdown parsed taken writer_extracted stop_extracted TradeParser.parse
    TradeParser.parse_document TradeParser.parse_root TradeParser.parse_payload
    TradeParser.unwrap_payload TradeParser.has_required_fields TradeParser.is_unsupported_event_type
    TradeParser.with_numbers Decimal.parse same text_lt aggregate
closed_run =
    let called =
      Reach.inputs (Reach.inputs (flushed_run.1) (Input.submits (codes "u") refl))
        (Input.calls_stop refl) in
    let shut =
      Reach.moves (Reach.moves called (Move.writer_ends refl refl))
        (Move.stop_joins_writer refl refl) in
    let parsed_all =
      Reach.moves
        (Reach.moves (Reach.moves shut (Move.parser_pops refl refl)) (Move.parser_pushes refl refl))
        (Move.parser_pops refl refl) in
    (
      _,
      Reach.moves
          (Reach.moves (Reach.moves parsed_all (Move.stop_joins_parser refl refl))
            (Move.stop_shuts refl first))
          (Move.stop_shut_all refl),
    )

abbrev added_run : Run
unfolding push pop shutdown parsed taken writer_extracted stop_extracted TradeParser.parse
    TradeParser.parse_document TradeParser.parse_root TradeParser.parse_payload
    TradeParser.unwrap_payload TradeParser.has_required_fields TradeParser.is_unsupported_event_type
    TradeParser.with_numbers Decimal.parse same text_lt aggregate
added_run = (
  _,
  Reach.moves
      (Reach.moves (Reach.moves (closed_run.1) (Move.worker_pops 0 first refl refl))
        (Move.worker_adds 0 first refl))
      (Move.worker_pops 0 first refl refl),
)

abbrev joined_run : Run
unfolding push pop shutdown parsed taken writer_extracted stop_extracted TradeParser.parse
    TradeParser.parse_document TradeParser.parse_root TradeParser.parse_payload
    TradeParser.unwrap_payload TradeParser.has_required_fields TradeParser.is_unsupported_event_type
    TradeParser.with_numbers Decimal.parse same text_lt aggregate
joined_run = (
  _,
  Reach.moves (added_run.1) (
      Move.stop_joins_workers refl (only_first (λ i. (added_run.0).workers i ≡ worker_ended) refl)),
)

abbrev stopped_run : Run
unfolding stop_extracted joined_run
stopped_run = (
  _,
  Reach.moves (Reach.moves (joined_run.1) (Move.stop_extracts refl first)) (Move.stop_writes refl),
)

abbrev end_state : System
end_state = stopped_run.0

has_returned : end_state.stopper ≡ stop_returned
unfolding stop_extracted stopped_run
has_returned = refl

-- A message is in the raw queue.
abbrev waiting_run : Run
unfolding push
waiting_run = (_, Reach.inputs Reach.started (Input.submits (codes "t") refl))

still_running : (waiting_run.0).stopper ≡ not_called
unfolding waiting_run
still_running = refl

catches_up_example :
    (k : ℕ) × (t : System) × Moves library constant 1 1000 k (waiting_run.0) t
    × (t.stopper ≡ not_called)
    × (t.accepted ≡ (waiting_run.0).accepted)
    × ((i : ℕ)
        → i < 1
        → IsFedWith library constant 1 1000 i t
            (for_shard constant 1 i (trades_of library (waiting_run.0).accepted)))
    × (k ≤ work 1 (waiting_run.0))
catches_up_example = catches_up library constant 1 1000 first first (waiting_run.1) still_running

joined_all : (joined_run.0).stopper ≡ flushes 0 []
unfolding joined_run
joined_all = refl

stop-delivers_example :
    (f : IsFedWith library constant 1 1000 0
      (joined_run.0)
      (for_shard constant 1 0 (trades_of library (joined_run.0).accepted)))
    × (f.to_come ≡ [])
stop-delivers_example = stop-delivers library constant 1 1000 0 first (joined_run.1) joined_all

one_word : All (λ t. Lacks b' ' t.symbol) (trades_of library end_state.accepted)
unfolding stopped_run stop_extracted
one_word = (bitcoin-Lacks, (bitcoin-Lacks, tt))

stop-publishes_example :
    (snapshots : List StatsSnapshot) × (end_state.written ≡ map serialize snapshots)
    × All IsSnapshot snapshots
    × All IsBlock snapshots
stop-publishes_example =
    stop-publishes library constant 1 1000 first (stopped_run.1) has_returned one_word

-- A message that comes while the destructor is in stop() is refused.
abbrev again_run : (t : System) × Again library constant 1 1000 end_state t
unfolding push shutdown stopped_run stop_extracted
again_run =
    let joined = Again.moves Again.called (Move.stop_joins_writer refl refl) in
    (_, Again.inputs joined (Input.submits (codes "t") refl))

stop-again_example :
    IsUnchanged 1 end_state (again_run.0)
    × ((k : ℕ) × (u : System) × Moves library constant 1 1000 k (again_run.0) u
        × (u.stopper ≡ stop_returned)
        × (k ≤ work 1 (again_run.0)))
stop-again_example =
    stop-again library constant 1 1000 first (stopped_run.1) has_returned (again_run.1)

Reach-AreOrdered_example : AreOrdered 0 (closed_run.0)
Reach-AreOrdered_example = Reach-AreOrdered library constant 1 1000 0 first (closed_run.1)

-- The thread of the shard has ended, and stop() waits for it.
joins_all : ((added_run.0).stop_requested ≡ true) × ((added_run.0).stopper ≡ joins_workers)
unfolding added_run
joins_all = (refl, refl)

-- Both calls of the flush of what remains.
flush_moves : (t : System) × Moves library constant 1 1000 3 (added_run.0) t
unfolding stop_extracted added_run
flush_moves = (
  _,
  goes
      (Move.stop_joins_workers refl (only_first (λ i. (added_run.0).workers i ≡ worker_ended) refl))
      (goes (Move.stop_extracts refl first) (goes (Move.stop_writes refl) stays)),
)

stop-bounded_example :
    (3 + work 1 (flush_moves.0) ≤ work 1 (added_run.0)) × ((flush_moves.0).stop_requested ≡ true)
stop-bounded_example = stop-bounded library constant 1 1000 first (flush_moves.1) (joins_all.0)

stop-returns_example :
    (k : ℕ) × (t : System) × Moves library constant 1 1000 k (added_run.0) t
    × (t.stopper ≡ stop_returned)
    × (k ≤ work 1 (added_run.0))
stop-returns_example = stop-returns library constant 1 1000 first first (added_run.1) (joins_all.0)
