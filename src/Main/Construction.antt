-- ===== src/Main/Construction.antt =====
-- With what main makes the pipeline.
use binance_aggregator.Prelude.{
  ℕ, Option-cases, ◌≡◌, ◌⊎◌, refl, ap, ◌∙◌, inl, inr, Bool, true, false, List, [], ◌∷◌, ◌++◌,
  Option, none, some, Bytes, keep, keep-append,
}
use binance_aggregator.Json.{JsonLibrary}
use binance_aggregator.CliOptions
use binance_aggregator.CliOptions.{CliOptions, parse_cli_options}
use binance_aggregator.Config
use binance_aggregator.Config.{Config, load_from_file}
use binance_aggregator.Config.Loaded.{IsUsable, DefaultRatio, load_from_file-IsUsable}
use binance_aggregator.FileOutputSink.{FileLibrary, FileOutputSink}
use binance_aggregator.Main.Cuts.{cut-keep}
use binance_aggregator.Main.{
  Action, constructs_pipeline, wait_for_signal, shut_down, run_stages, with_sink, with_config,
  with_options, main, queue_capacity, cut, interrupt, stages,
}

module _ (json : JsonLibrary) where
  abbrev pub is_construction : Action json → Bool
  is_construction (constructs_pipeline w i c t) = true
  is_construction _ = false

  wait_constructions :
      (loads : List Bool) → keep is_construction ((wait_for_signal json loads).0) ≡ []
  unfolding wait_for_signal
  wait_constructions [] = refl
  wait_constructions (true ∷ loads) = refl
  wait_constructions (false ∷ loads) = wait_constructions loads

  module _ (files : FileLibrary) where
    -- What is made of a Config that is usable.
    abbrev pub IsSound : List (Action json) → Type 0
    IsSound made =
        (made ≡ [])
        ⊎ ((c : Config json) × IsUsable json c
            × (made
                ≡ constructs_pipeline c.window_ms c.flush_interval_ms queue_capacity
                    c.aggregator_threads
                  ∷ []))

    shut_down-made : (b : Bool) → keep is_construction ((shut_down json b).0) ≡ []
    unfolding shut_down
    shut_down-made true = refl
    shut_down-made false = refl

    stages-made : (loads : List Bool) → keep is_construction ((stages json loads).0) ≡ []
    stages-made loads =
        keep-append is_construction ((wait_for_signal json loads).0)
          ((shut_down json ((wait_for_signal json loads).1)).0)
        ∙ ap (λ l. l ++ keep is_construction ((shut_down json ((wait_for_signal json loads).1)).0))
            (wait_constructions loads)
        ∙ shut_down-made ((wait_for_signal json loads).1)

    interrupt-made :
        (failure : Option ℕ) (loads : List Bool)
        → keep is_construction ((interrupt json failure (stages json loads)).0) ≡ []
    unfolding interrupt
    interrupt-made none loads = stages-made loads
    interrupt-made (some k) loads = elim (Option-cases (cut json k ((stages json loads).0))) [
      | inl over ↦ rw over (stages-made loads)
      | inr (begun, e) ↦
          rw e (cut-keep json is_construction k ((stages json loads).0) begun (stages-made loads) e)
    ]

    run_stages-made :
        (c : Config json) (loads : List Bool) (failure : Option ℕ)
        → keep is_construction ((run_stages json c loads failure).0)
          ≡ constructs_pipeline c.window_ms c.flush_interval_ms queue_capacity c.aggregator_threads
            ∷ []
    run_stages-made c loads failure =
        ap
          (◌∷◌ (
            constructs_pipeline c.window_ms c.flush_interval_ms queue_capacity
              c.aggregator_threads))
          (interrupt-made failure loads)

    with_sink-made :
        (c : Config json) (sink : Option (FileOutputSink files)) (loads : List Bool)
        (failure : Option ℕ)
        → IsUsable json c
        → IsSound (keep is_construction ((with_sink json files c sink loads failure).0))
    unfolding with_sink
    with_sink-made c none loads failure u = inl refl
    with_sink-made c (some sink) loads failure u = inr (c, u, run_stages-made c loads failure)

    with_config-made :
        DefaultRatio json
        → (file : Option Bytes) (r : Config.Result (Config json)) (loads : List Bool)
          (failure : Option ℕ)
        → load_from_file json file ≡ r
        → IsSound (keep is_construction ((with_config json files r loads failure).0))
    unfolding with_config
    with_config-made d file (Config.throws e) loads failure h = inl refl
    with_config-made d file (Config.ok c) loads failure h =
        with_sink-made c _ loads failure (load_from_file-IsUsable json d file c h)

    with_options-made :
        DefaultRatio json
        → (read_file : Bytes → Option Bytes) (r : CliOptions.Result) (loads : List Bool)
          (failure : Option ℕ)
        → IsSound (keep is_construction ((with_options json files read_file r loads failure).0))
    unfolding with_options
    with_options-made d read_file CliOptions.missing_path loads failure = inl refl
    with_options-made d read_file (CliOptions.ok o) loads failure =
        with_config-made d (read_file o.config_path) _ loads failure refl

    -- If the default ratio 0.2 is between 0.0 and 1.0, main makes at most one pipeline, with queues of
    -- 4096, and its window, interval and number of threads are those of a Config that is usable: they
    -- are positive, so that the pipeline does not divide by zero.
    pub main-IsSound :
        DefaultRatio json
        → (args : List Bytes) (read_file : Bytes → Option Bytes) (loads : List Bool)
          (failure : Option ℕ)
        → IsSound (keep is_construction ((main json files args read_file loads failure).0))
    unfolding main
    main-IsSound d args read_file loads failure = with_options-made d read_file _ loads failure
