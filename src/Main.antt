-- ===== src/Main.antt =====
-- app/main.cpp. What the program does is the list of its calls in order, log lines included; the
-- threads that it starts are in Threads and NetworkStage. The texts of std::exception::what(), the
-- formats of spdlog and std::signal are left out.
pub mod Construction
pub mod Cuts
pub mod Stages
pub mod Startup
use mathlib.Core.Option
use binance_aggregator.Prelude.{
  ℕ, zero, suc, Bool, true, false, List, [], ◌∷◌, ◌++◌, Option, none, some, Bytes, codes,
  if◌then◌else◌,
}
use binance_aggregator.Json.{JsonLibrary}
use binance_aggregator.CliOptions
use binance_aggregator.CliOptions.{CliOptions, parse_cli_options}
use binance_aggregator.Config
use binance_aggregator.Config.{Config, ReconnectConfig, load_from_file}
use binance_aggregator.ConnectionError.{
  ConnectionStage, resolve, tcp_connect, tls_handshake, web_socket_handshake, read,
  ConnectionErrorKind, dns_failure, tcp_connect_failure, tls_handshake_failure,
  web_socket_handshake_failure, read_failure, timeout, server_disconnect, unknown,
}
use binance_aggregator.StreamTarget.{build_combined_stream_target}
use binance_aggregator.FileOutputSink
use binance_aggregator.FileOutputSink.{FileLibrary, FileOutputSink}

-- The rounds of the loop of join_symbols with i != 0.
unfoldable pub other_symbols : List Bytes → Bytes
other_symbols [] = []
other_symbols (symbol ∷ symbols) = b',' ∷ (symbol ++ other_symbols symbols)

unfoldable pub join_symbols : List Bytes → Bytes
join_symbols [] = []
join_symbols (symbol ∷ symbols) = symbol ++ other_symbols symbols

unfoldable pub stage_name : ConnectionStage → Bytes
stage_name resolve = codes "resolve"
stage_name tcp_connect = codes "tcp_connect"
stage_name tls_handshake = codes "tls_handshake"
stage_name web_socket_handshake = codes "websocket_handshake"
stage_name read = codes "read"

unfoldable pub kind_name : ConnectionErrorKind → Bytes
kind_name dns_failure = codes "dns_failure"
kind_name tcp_connect_failure = codes "tcp_connect_failure"
kind_name tls_handshake_failure = codes "tls_handshake_failure"
kind_name web_socket_handshake_failure = codes "websocket_handshake_failure"
kind_name read_failure = codes "read_failure"
kind_name timeout = codes "timeout"
kind_name server_disconnect = codes "server_disconnect"
kind_name unknown = codes "unknown"

-- kQueueCapacity
abbrev pub queue_capacity : ℕ
queue_capacity = 4096

-- The exceptions of FileOutputSink that nothing catches: that of its constructor, and that of a write,
-- by the writer thread or by flush_remaining_windows in stop().
pub data Exception : Type 0 where
  not_opened not_written : Exception

-- How a run of the program ends: with an exit status, by std::terminate for an exception that is not
-- caught, or not yet.
pub data Ending : Type 0 where
  exit_success exit_failure waits : Ending
  terminated : Exception → Ending

module _ (json : JsonLibrary) where
  -- A line of the log, with the values in it.
  pub data Line : Type 0 where
    starting : Line
    bad_arguments bad_configuration : Line
    loading : Bytes → Line
    symbols : Bytes → Line
    window_and_interval : ℕ → ℕ → Line
    threads : ℕ → Line
    output_file : Bytes → Line
    host_and_port : Bytes → Bytes → Line
    reconnect : ReconnectConfig json → Line
    starting_stages signal_received stopped : Line

  pub data Action : Type 0 where
    logs : Line → Action
    sets_handlers : Action
    opens : Bytes → Action
    constructs_pipeline : ℕ → ℕ → ℕ → ℕ → Action
    constructs_network : Bytes → Bytes → Bytes → ReconnectConfig json → Action
    starts_pipeline starts_network : Action
    sleeps : Action
    stops_network stops_pipeline : Action

  -- The loop on g_stop_requested, over the values that its loads give.
  unfoldable pub wait_for_signal : List Bool → List Action × Bool
  wait_for_signal [] = ([], false)
  wait_for_signal (true ∷ loads) = ([], true)
  wait_for_signal (false ∷ loads) =
      let (actions, signalled) = wait_for_signal loads in (sleeps ∷ actions, signalled)

  -- What stands behind the loop. The destructors of the stages call stop() again.
  unfoldable pub shut_down : Bool → List Action × Ending
  shut_down false = ([], waits)
  shut_down true = (
    logs signal_received
        ∷ stops_network
        ∷ stops_pipeline
        ∷ logs stopped
        ∷ stops_network
        ∷ stops_pipeline
        ∷ [],
    exit_success,
  )

  abbrev pub is_stop : Action → Bool
  is_stop stops_pipeline = true
  is_stop _ = false

  -- The calls up to the one in which a write throws, that one included, with the number of calls before
  -- it. None if all have been made by then, or the first stop() of the pipeline has returned: nothing is
  -- written behind it.
  unfoldable pub cut : ℕ → List Action → Option (List Action)
  cut k [] = none
  cut zero (action ∷ actions) = some (action ∷ [])
  cut (suc k) (action ∷ actions) =
      let rest = cut k actions in
      if is_stop action then none else Option.map (λ begun. action ∷ begun) rest

  -- The calls with their ending, if a write throws in one of them.
  abbrev pub or_cut : List Action × Ending → Option (List Action) → List Action × Ending
  or_cut whole none = whole
  or_cut whole (some begun) = (begun, terminated not_written)

  unfoldable pub interrupt : Option ℕ → List Action × Ending → List Action × Ending
  interrupt none whole = whole
  interrupt (some k) whole = or_cut whole (cut k (whole.0))

  -- From start() of the pipeline on, as long as no write throws.
  abbrev pub stages : List Bool → List Action × Ending
  stages loads =
      let (polls, signalled) = wait_for_signal loads in
      let (ends, ending) = shut_down signalled in
      (starts_pipeline ∷ starts_network ∷ (polls ++ ends), ending)

  abbrev pub run_stages : Config json → List Bool → Option ℕ → List Action × Ending
  run_stages config loads failure =
      let (calls, ending) = interrupt failure (stages loads) in
      (
        constructs_pipeline config.window_ms config.flush_interval_ms queue_capacity
              config.aggregator_threads
            ∷ constructs_network config.ws_host config.ws_port
                (build_combined_stream_target config.symbols) config.reconnect
            ∷ logs starting_stages
            ∷ calls,
        ending,
      )

  abbrev pub config_lines : Config json → List Action
  config_lines config =
      logs (symbols (join_symbols config.symbols))
      ∷ logs (window_and_interval config.window_ms config.flush_interval_ms)
      ∷ logs (threads config.aggregator_threads)
      ∷ logs (output_file config.output_file)
      ∷ logs (host_and_port config.ws_host config.ws_port)
      ∷ logs (reconnect config.reconnect)
      ∷ []

  module _ (files : FileLibrary) where
    -- From the constructor of the sink on.
    unfoldable pub with_sink :
        Config json → Option (FileOutputSink files) → List Bool → Option ℕ → List Action × Ending
    with_sink config none loads failure = ([], terminated not_opened)
    with_sink config (some sink) loads failure = run_stages config loads failure

    -- From the result of load_from_file on.
    unfoldable pub with_config :
        Config.Result (Config json) → List Bool → Option ℕ → List Action × Ending
    with_config (Config.throws e) loads failure = (logs bad_configuration ∷ [], exit_failure)
    with_config (Config.ok config) loads failure =
        let (actions, ending) =
          with_sink config (FileOutputSink.new files config.output_file) loads failure in
        (config_lines config ++ (sets_handlers ∷ opens config.output_file ∷ actions), ending)

    -- From the result of parse_cli_options on.
    unfoldable pub with_options :
        (Bytes → Option Bytes) → CliOptions.Result → List Bool → Option ℕ → List Action × Ending
    with_options read_file CliOptions.missing_path loads failure =
        (logs bad_arguments ∷ [], exit_failure)
    with_options read_file (CliOptions.ok options) loads failure =
        let (actions, ending) =
          with_config (load_from_file json (read_file options.config_path)) loads failure in
        (logs (loading options.config_path) ∷ actions, ending)

    -- The whole of main, with the arguments, the files it can read, the values that the loads of
    -- g_stop_requested give, and the call, if any, in which a write to the output file throws.
    unfoldable pub main :
        List Bytes → (Bytes → Option Bytes) → List Bool → Option ℕ → List Action × Ending
    main args read_file loads failure =
        let (actions, ending) = with_options read_file (parse_cli_options args) loads failure in
        (logs starting ∷ actions, ending)
