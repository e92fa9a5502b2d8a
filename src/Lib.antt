-- ===== src/Lib.antt =====
-- Verification library of binance-aggregator, a service that reads trades from Binance's WebSocket
-- stream, adds them up per symbol and exchange-time window, and writes the windows to a file.
--
-- Parts and files
-- - Decimal (app/include/agg/util/Decimal.hpp, app/src/util/Decimal.cpp): Decimal.antt has
--   Decimal::parse, to_string, operator+, operator* and the order; Decimal/Digits.antt has the
--   digits of a number, Decimal/Grammar.antt the texts that parse is meant to accept. The proofs
--   are in Decimal/Loops, Parsing, Soundness, Printing, RoundTrip, Arith and Product.
-- - Aggregation (app/include/agg/model/TradeEvent.hpp, app/include/agg/aggregation,
--   app/src/aggregation/MarketDataAggregator.cpp): Aggregation.antt has add_trade, window_stats,
--   extract_all_windows and extract_completed_windows; Aggregation/Lookup, Invariant, Extraction,
--   Order, History, Summary and Determined are about what they do.
-- - BoundedQueue (app/include/agg/runtime/BoundedQueue.hpp): BoundedQueue.antt has push, pop and
--   shutdown as calls under the mutex; Bounds.antt is about single calls, Fifo.antt about sequences
--   of calls from all threads and the loop of a consumer.
-- - StatsSerializer (app/src/output/StatsSerializer.cpp, app/include/agg/output/StatsSnapshot.hpp):
--   Output.antt has serialize with the timestamp; Output/Timestamp.antt is about its buffer, and
--   Output/Calendar, Seconds, Fields, Reading and Blocks are about what the text tells its reader:
--   days, seconds, fields, lines and rows of blocks.
-- - MarketDataPipeline (app/include/agg/runtime, app/src/runtime/MarketDataPipeline.cpp): Writer.antt
--   has write_windows; Writer/Groups, Lookup, Listing, Unique, Members and Snapshots are about
--   it. Pipeline.antt has the
--   constructor, the shards, the routing by hash and both flushes, with the hash as a parameter;
--   Pipeline/Merge, Shards, Sharded and ThreadCount compare pipelines with different shards;
--   Pipeline/Twice is about a second flush of what remains. Pipeline/Book is the account of the same
--   events on a plain list of trades, without windows, maps or shards: what a flush takes and what
--   it leaves. Pipeline/Accounts compares the pipeline with it, Pipeline/Determined and Readable are
--   about the texts.
--   Threads.antt has start(), submit_raw_message(), the three stages and stop() as a step relation:
--   a move is what one thread does under one mutex. Threads/Control is about the order of the
--   shutdown, Threads/Flow, Delivery and Aggregators follow the trades, Threads/Sequence, Sweep, Linear and
--   Refinement compare with the sequential pipeline, Threads/Accounts and Published are about what
--   was written in the end, against the accepted messages, Threads/Bounded, Progress, Load,
--   Termination and Shutdown are about the end of stop(), Threads/Feeding and CatchUp about the
--   threads before it. Threads/Again has the call of stop() that the destructor
--   makes, as moves behind the first one; Again/Kept and Again/Returns are about it.
--   Its moves are those of a run in which no write to the output file throws; one that throws ends
--   the program, which is in Main.
-- - BinanceTradeParser (app/src/parse/BinanceTradeParser.cpp): TradeParser.antt, with
--   TradeParser/Meaning.antt about the messages it accepts. ConfigLoader (app/include/agg/config,
--   app/src/config/ConfigLoader.cpp): Config.antt, with Config/Loaded.antt about a loaded Config.
--   Both are over Json.antt, an interface of what they use of nlohmann::json and of double.
-- - ReconnectPolicy (app/include/agg/net/ReconnectPolicy.hpp, app/src/net/ReconnectPolicy.cpp):
--   ReconnectPolicy.antt, with ReconnectPolicy/Backoff.antt about the delays and
--   ReconnectPolicy/Jitter.antt about apply_jitter, over an interface of the doubles.
-- - ConnectionError (app/include/agg/net/ConnectionError.hpp, app/src/net/ConnectionError.cpp):
--   ConnectionError.antt, over an interface of the error codes of Boost; ConnectionError/Causes.antt.
-- - CliOptions (app/include/agg/runtime/CliOptions.hpp, app/src/runtime/CliOptions.cpp):
--   CliOptions.antt, with CliOptions/Arguments.antt about the order of arguments.
-- - NetworkStage (app/include/agg/runtime/NetworkStage.hpp, app/src/runtime/NetworkStage.cpp):
--   NetworkStage.antt has the reconnect loop over the outcomes of connection attempts, with stop()
--   at every moment of a round; NetworkStage/Retries.antt is about delays and stops.
--   NetworkStage/Interleaving.antt has its thread, the client's run() and stop() and
--   NetworkStage::stop as a step relation, with NetworkStage/LastClient.antt and
--   NetworkStage/LastMoves.antt about it.
-- - build_combined_stream_target (app/src/net/BinanceWebSocketClient.cpp): StreamTarget.antt, with
--   StreamTarget/Subscriptions.antt about the symbols that a target tells.
-- - BinanceWebSocketClient::run (the same file): WebSocketClient.antt, over what Boost and OpenSSL
--   return; WebSocketClient/Reports.antt is about the calls of the handler.
-- - FileOutputSink (app/include/agg/output, app/src/output/FileOutputSink.cpp): FileOutputSink.antt,
--   over an interface of std::ofstream; FileOutputSink/Appends.antt is about the file's contents.
-- - main (app/main.cpp): Main.antt, the calls of main in order, with Main/Startup, Stages and Cuts about its
--   endings and Main/Construction.antt about the pipeline that it makes.
-- - Not modelled: sockets and TLS, the formats of log lines.
-- - OrdMap.antt and StrictOrder.antt: std::map as the list of its entries in key order, with its
--   laws, over `<` on numbers and the byte order of std::string. Prelude: shared names, the signed
--   integers with the cut to an int64_t (Prelude/Int.antt), parts of lists and their permutations
--   (Prelude/Perms.antt), and texts cut at separators (Prelude/Fields.antt).
-- - Tests: runs, and the theorems at concrete inputs.
--
-- Numbers
-- std::uint64_t is a natural number with `% 2 ^ 64` on additions. A value of std::int64_t is an
-- integer; each operation ends in `wrap`, the two's complement result. Signed overflow is undefined
-- in C++, so where a result wraps the model states what the target machines do.
--
-- Loops are recursions on the text, list or map that they walk, or on the rounds left. std::to_string
-- recurs on the number by the well-founded order. The consumer's loop of BoundedQueue/Fifo takes
-- fuel: one round more than there are items. Threads/Shutdown's `leads_to` and
-- NetworkStage/LastMoves take the work that is left as fuel, since every move makes it less.
mod Prelude
mod StrictOrder
mod OrdMap
pub mod Decimal
pub mod Aggregation
pub mod BoundedQueue
pub mod Output
pub mod Writer
mod Json
pub mod TradeParser
pub mod Config
pub mod ReconnectPolicy
pub mod CliOptions
pub mod ConnectionError
pub mod StreamTarget
pub mod NetworkStage
pub mod WebSocketClient
pub mod Pipeline
pub mod Threads
pub mod FileOutputSink
pub mod Main
pub mod Tests
