-- ===== src/Tests/Edges.antt =====
-- Runs of app/src/net/ReconnectPolicy.cpp, ConnectionError.cpp and app/src/runtime/CliOptions.cpp.
use binance_aggregator.Prelude.{
  ◌*◌, ◌-◌, ◌^◌, ◌≡◌, ◌↔◌, ◌⊎◌, refl, some, ◌==◌, zero, suc, true, false, [], ◌∷◌, codes, arith,
  if◌then◌else◌, ℕ,
}
use binance_aggregator.Prelude.Int.{pos}
use binance_aggregator.ReconnectPolicy
use binance_aggregator.ReconnectPolicy.{next_delay, min, double_delay}
use binance_aggregator.ReconnectPolicy.Backoff.{after_failures, next_delay-after_failures}
use binance_aggregator.CliOptions.{
  ok, missing_path, config_flag, equals, other_argument, parse_arguments, parse_cli_options,
  default_options, strip_prefix,
}
use binance_aggregator.CliOptions.Arguments.{parse_cli_options-append}
use binance_aggregator.ConnectionError.{
  ErrorCodes, ConnectionStage, ConnectionErrorKind, classify_error, kind_of_stage,
}
use binance_aggregator.ConnectionError.Causes.{stage_of, IsGone, classify_error-stage}

next_delay-after_failures_example :
    next_delay (λ d. d) (after_failures 7 (ReconnectPolicy.new 500 30_000))
    ≡ pos (min (500 * 2 ^ 7) 30_000)
next_delay-after_failures_example =
    next_delay-after_failures 7 500 30_000 (omega arith) (omega arith)

-- With the largest max_backoff_ms, doubling 2 ^ 63 wraps to 0.
doubling_wraps : min (double_delay (2 ^ 64 - 1) 1 (2 ^ 63)) (2 ^ 64 - 1) ≡ 0
unfolding double_delay
doubling_wraps = refl

accepted : parse_cli_options (codes "--verbose" ∷ []) ≡ ok default_options
unfolding parse_cli_options parse_arguments equals other_argument strip_prefix
accepted = refl

parse_cli_options-append_example :
    (parse_cli_options (codes "--verbose" ∷ config_flag ∷ codes "a" ∷ [])
      ≡ ok (record { config_path = codes "a" }))
    × (parse_cli_options (codes "--verbose" ∷ codes "--config=a" ∷ [])
        ≡ ok (record { config_path = codes "a" }))
    × (parse_cli_options (codes "--verbose" ∷ config_flag ∷ []) ≡ missing_path)
    × (parse_cli_options (codes "--verbose" ∷ codes "x" ∷ []) ≡ (
        if equals (codes "x") config_flag
        then missing_path
        else ok (other_argument (codes "x") default_options)))
parse_cli_options-append_example =
    parse_cli_options-append (codes "--verbose" ∷ []) default_options (codes "a") (codes "x")
      accepted

-- Error codes as numbers: none, a time-out, an end of the stream, a close, and others.
abbrev pub codes_of_boost : ErrorCodes
codes_of_boost = record {
  ErrorCode = ℕ;
  is_error = λ n. elim n [ zero ↦ false | suc _ ↦ true ];
  is_timed_out = λ n. n == 1;
  is_eof = λ n. n == 2;
  is_closed = λ n. n == 3;
}

at_end :
    classify_error codes_of_boost ConnectionStage.read 2 ≡ ConnectionErrorKind.server_disconnect
unfolding classify_error kind_of_stage
at_end = refl

at_close :
    classify_error codes_of_boost ConnectionStage.read 3 ≡ ConnectionErrorKind.server_disconnect
unfolding classify_error kind_of_stage
at_close = refl

classify_error-stage_example :
    ((codes_of_boost.is_error 3 ≡ false)
      × (classify_error codes_of_boost ConnectionStage.read 3 ≡ ConnectionErrorKind.unknown))
    ⊎ ((codes_of_boost.is_error 3 ≡ true)
        × (codes_of_boost.is_timed_out 3 ≡ true)
        × (classify_error codes_of_boost ConnectionStage.read 3 ≡ ConnectionErrorKind.timeout))
    ⊎ ((codes_of_boost.is_error 3 ≡ true)
        × (codes_of_boost.is_timed_out 3 ≡ false)
        × (stage_of (classify_error codes_of_boost ConnectionStage.read 3)
            ≡ some ConnectionStage.read)
        × ((classify_error codes_of_boost ConnectionStage.read 3
              ≡ ConnectionErrorKind.server_disconnect)
            ↔ ((ConnectionStage.read ≡ ConnectionStage.read) × IsGone codes_of_boost 3)))
classify_error-stage_example = classify_error-stage codes_of_boost ConnectionStage.read 3
