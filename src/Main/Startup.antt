-- ===== src/Main/Startup.antt =====
-- How main ends, and what has happened by then.
use binance_aggregator.Prelude.{
  ℕ, Option-cases, ◌≡◌, ◌⊎◌, refl, inl, inr, Bool, true, false, List, [], ◌∷◌, Option, none, some,
  Bytes, arith, All, Any, keep,
}
use binance_aggregator.Json.{JsonLibrary}
use binance_aggregator.CliOptions
use binance_aggregator.CliOptions.{CliOptions, parse_cli_options}
use binance_aggregator.Config
use binance_aggregator.Config.{Config, load_from_file}
use binance_aggregator.FileOutputSink
use binance_aggregator.FileOutputSink.{FileLibrary, FileOutputSink}
use binance_aggregator.Main.Stages.{is_stage, AreStages, with_options-stages}
use binance_aggregator.Main.{
  Ending, exit_success, exit_failure, terminated, waits, not_opened, not_written, wait_for_signal,
  shut_down, cut, interrupt, stages, with_sink, with_config, with_options, main,
}

module _ (json : JsonLibrary) where
  -- When the loop ends, and that it only sleeps.
  wait_cases :
      (loads : List Bool)
      → (((wait_for_signal json loads).1 ≡ true) × Any (λ b. b ≡ true) loads)
        ⊎ (((wait_for_signal json loads).1 ≡ false) × All (λ b. b ≡ false) loads)
  unfolding wait_for_signal
  wait_cases [] = inr (refl, tt)
  wait_cases (true ∷ loads) = inl (refl, inl refl)
  wait_cases (false ∷ loads) = elim (wait_cases loads) [
    | inl ends ↦ inl (ends.0, inr (ends.1))
    | inr goes ↦ inr (goes.0, (refl, goes.1))
  ]

  module _ (files : FileLibrary) where
    -- The sink of a Config can be made.
    abbrev pub Opens : Config json → Type 0
    Opens c = (sink : FileOutputSink files) × (FileOutputSink.new files c.output_file ≡ some sink)

    module _ (args : List Bytes) (read_file : Bytes → Option Bytes) (loads : List Bool)
        (failure : Option ℕ) where
      -- A Config is loaded from the file that the arguments name.
      abbrev pub Loads : Config json → Type 0
      Loads c =
          (options : CliOptions) × (parse_cli_options args ≡ CliOptions.ok options)
          × (load_from_file json (read_file options.config_path) ≡ Config.ok c)

      -- What an ending says of the start.
      abbrev pub Explains : Ending → Type 0
      Explains exit_success = (c : Config json) × Loads c × Opens c × Any (λ b. b ≡ true) loads
      Explains waits = (c : Config json) × Loads c × Opens c × All (λ b. b ≡ false) loads
      Explains (terminated not_opened) =
          (c : Config json) × Loads c × (FileOutputSink.new files c.output_file ≡ none)
      Explains (terminated not_written) =
          (c : Config json) × Loads c × Opens c × ((k : ℕ) × (failure ≡ some k))
      Explains exit_failure =
          (parse_cli_options args ≡ CliOptions.missing_path)
          ⊎ ((options : CliOptions) × (e : Config.ConfigError) × (parse_cli_options args
                ≡ CliOptions.ok options)
              × (load_from_file json (read_file options.config_path) ≡ Config.throws e))

      shut_down-Explains :
          (b : Bool)
          → (wait_for_signal json loads).1 ≡ b
          → (c : Config json) → Loads c
          → Opens c
          → Explains (shut_down json b).1
      unfolding shut_down
      shut_down-Explains true e c l o = elim (wait_cases loads) [
        | inl ends ↦ (c, l, o, ends.1)
        | inr goes ↦ absurd (ground (arith, e, goes.0))
      ]
      shut_down-Explains false e c l o = elim (wait_cases loads) [
        | inl ends ↦ absurd (ground (arith, e, ends.0))
        | inr goes ↦ (c, l, o, goes.1)
      ]

      interrupt-Explains :
          (r : Option ℕ)
          → failure ≡ r
          → (c : Config json) → Loads c
          → Opens c
          → Explains (interrupt json r (stages json loads)).1
      unfolding interrupt
      interrupt-Explains none e c l o = shut_down-Explains _ refl c l o
      interrupt-Explains (some k) e c l o =
          elim (Option-cases (cut json k ((stages json loads).0))) [
            | inl over ↦ rw over (shut_down-Explains _ refl c l o)
            | inr (begun, f) ↦ rw f (c, l, o, (k, e))
          ]

      with_sink-Explains :
          (c : Config json)
          → Loads c
          → (sink : Option (FileOutputSink files)) → FileOutputSink.new files c.output_file ≡ sink
          → Explains (with_sink json files c sink loads failure).1
      unfolding with_sink
      with_sink-Explains c l none e = (c, l, e)
      with_sink-Explains c l (some sink) e = interrupt-Explains failure refl c l (sink, e)

      with_config-Explains :
          (options : CliOptions)
          → parse_cli_options args ≡ CliOptions.ok options
          → (r : Config.Result (Config json))
          → load_from_file json (read_file options.config_path) ≡ r
          → Explains (with_config json files r loads failure).1
      unfolding with_config
      with_config-Explains o p (Config.throws e) h = inr (o, e, p, h)
      with_config-Explains o p (Config.ok c) h = with_sink-Explains c (o, p, h) _ refl

      with_options-Explains :
          (r : CliOptions.Result)
          → parse_cli_options args ≡ r
          → Explains (with_options json files read_file r loads failure).1
      unfolding with_options
      with_options-Explains CliOptions.missing_path p = inl p
      with_options-Explains (CliOptions.ok o) p = with_config-Explains o p _ refl

    -- For any arguments, files, loads of g_stop_requested and moment in which a write to the output file
    -- throws, if one does. The ending of main tells what happened: EXIT_SUCCESS, that a Config was
    -- loaded, its output file was opened and a load gave true; no ending yet, the same but that all
    -- loads gave false; std::terminate, that a Config was loaded, and that its output file was not
    -- opened or that it was and a write threw; EXIT_FAILURE, that the path of --config is missing or the
    -- Config was not loaded. The stages are started, the pipeline first, at EXIT_SUCCESS and without an
    -- ending; at EXIT_SUCCESS both have been stopped, each twice, and each time the network first. When
    -- a write threw, the pipeline was started, and then some of the start of the network, its stop and
    -- the first stop of the pipeline were called, in this order; in the other cases no stage is started.
    pub main-Explains :
        (args : List Bytes) (read_file : Bytes → Option Bytes) (loads : List Bool)
        (failure : Option ℕ)
        → Explains args read_file loads failure ((main json files args read_file loads failure).1)
          × AreStages json
              ((main json files args read_file loads failure).1)
              (keep (is_stage json) ((main json files args read_file loads failure).0))
    unfolding main
    main-Explains args read_file loads failure = (
      with_options-Explains args read_file loads failure _ refl,
      with_options-stages json files read_file (parse_cli_options args) loads failure,
    )
