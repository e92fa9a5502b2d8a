-- ===== src/Tests/Stages.antt =====
-- Runs of app/src/runtime/NetworkStage.cpp and app/src/net/BinanceWebSocketClient.cpp.
use binance_aggregator.Prelude.{
  ◌≡◌, ◌⊎◌, ◌*◌, ◌^◌, refl, inl, inr, true, false, List, [], ◌∷◌, Option, some, codes, arith, Bytes,
  All,
}
use binance_aggregator.Prelude.Int.{pos}
use binance_aggregator.ReconnectPolicy
use binance_aggregator.ReconnectPolicy.{next_delay, min, wait_for_next_attempt}
use binance_aggregator.ConnectionError.{ConnectionStage}
use binance_aggregator.NetworkStage.{
  NetworkStage, Attempt, StopMoment, new, stop, connect, reset_and_wait, after_wait, run, ended,
  continues,
}
use binance_aggregator.NetworkStage.Retries.{tries, streak, run-streak, run-stopped}
use binance_aggregator.WebSocketClient
use binance_aggregator.WebSocketClient.{Connection}
use binance_aggregator.WebSocketClient.Reports.{IsReported, run-IsReported}
use binance_aggregator.Tests.Edges.{codes_of_boost}
use binance_aggregator.Config.Loaded.{IsSymbol}
use binance_aggregator.StreamTarget.{
  build_combined_stream_target, streams, stream_name, other_streams, lowercase,
}
use binance_aggregator.StreamTarget.Subscriptions.{build_combined_stream_target-injective}

abbrev outcomes : List (Option ConnectionStage)
outcomes =
    some ConnectionStage.resolve ∷ some ConnectionStage.read ∷ some ConnectionStage.tcp_connect ∷ []

run-streak_example :
    (stage : NetworkStage) × (run (new 500 30_000) (tries outcomes) ≡ continues stage)
    × (next_delay (λ d. d) stage.policy ≡ pos (min (500 * 2 ^ streak 0 outcomes) 30_000))
run-streak_example = run-streak 500 30_000 outcomes (omega arith) (omega arith)

-- A read fails, and stop() comes just before the policy is reset.
abbrev late_stop : Attempt
late_stop = record { reported = some ConnectionStage.read; stop_moment = StopMoment.before_reset }

-- The reset takes the stop back, so the policy waits its delay out; the loop ends behind the wait.
waits_out :
    connect (new 500 30_000) late_stop
    ≡ continues (record {
      stop_requested = true;
      policy = record (ReconnectPolicy.new 500 30_000) { attempt = 1 };
    })
unfolding connect reset_and_wait after_wait wait_for_next_attempt stop ReconnectPolicy.reset
    ReconnectPolicy.stop
waits_out = refl

run-stopped_example :
    (last : NetworkStage) × (last.stop_requested ≡ true)
    × (run (new 500 30_000) (late_stop ∷ tries outcomes) ≡ ended last)
    × (run (new 500 30_000) (late_stop ∷ []) ≡ ended last)
run-stopped_example = run-stopped (new 500 30_000) late_stop (tries outcomes) (λ e. cc)

abbrev pair : List Bytes
pair = codes "BTC" ∷ codes "E1" ∷ []

documented_target :
    build_combined_stream_target (codes "BTCUSDT" ∷ codes "ETHUSDT" ∷ [])
    ≡ codes "/stream?streams=btcusdt@trade/ethusdt@trade"
unfolding build_combined_stream_target streams stream_name other_streams lowercase
documented_target = refl

plain : All IsSymbol pair
plain = (
  (
    λ e. cc,
    (
      inr (omega arith, omega arith),
      (inr (omega arith, omega arith), (inr (omega arith, omega arith), tt)),
    ),
  ),
  ((λ e. cc, (inr (omega arith, omega arith), (inl (omega arith, omega arith), tt))), tt),
)

build_combined_stream_target-injective_example : pair ≡ pair
build_combined_stream_target-injective_example =
    build_combined_stream_target-injective pair pair (λ e. cc) (λ e. cc) plain plain refl

-- A connection that reads two messages until the server ends it.
abbrev connection : Connection codes_of_boost
connection = record {
  resolve_error = 0;
  stopped = false;
  host_name_set = true;
  host_name_error = 0;
  connect_error = 0;
  tls_error = 0;
  handshake_error = 0;
  messages = codes "one" ∷ codes "two" ∷ [];
  read_error = 2;
}

run-IsReported_example :
    ((codes_of_boost.is_error connection.resolve_error ≡ false)
      × (connection.stopped ≡ true)
      × (WebSocketClient.run codes_of_boost true connection ≡ record { reports = []; pushed = [] }))
    ⊎ IsReported codes_of_boost true connection (WebSocketClient.run codes_of_boost true connection)
run-IsReported_example = run-IsReported codes_of_boost true connection
