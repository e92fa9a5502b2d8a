-- ===== src/Main/Stages.antt =====
-- Which stages main has started and stopped when it ends.
use mathlib.Core.Path.{subst}
use binance_aggregator.Prelude.{
  ℕ, zero, suc, Option-cases, append_assoc, sym, ◌≡◌, refl, ap, ◌∙◌, inl, inr, Bool, true, false,
  List, [], ◌∷◌, ◌++◌, Option, none, some, Bytes, arith, keep, keep-append,
}
use binance_aggregator.Json.{JsonLibrary}
use binance_aggregator.CliOptions
use binance_aggregator.CliOptions.{CliOptions, parse_cli_options}
use binance_aggregator.Config
use binance_aggregator.Config.{Config, load_from_file}
use binance_aggregator.FileOutputSink.{FileLibrary, FileOutputSink}
use binance_aggregator.Main.Cuts.{to_stop, cut-to_stop}
use binance_aggregator.Main.{
  Action, starts_pipeline, starts_network, stops_network, stops_pipeline, Ending, exit_success,
  exit_failure, terminated, waits, not_opened, not_written, wait_for_signal, shut_down, cut,
  interrupt, stages, with_sink, with_config, with_options,
}

module _ (json : JsonLibrary) where
  -- The starts and stops of the two stages.
  abbrev pub is_stage : Action json → Bool
  is_stage starts_pipeline = true
  is_stage starts_network = true
  is_stage stops_network = true
  is_stage stops_pipeline = true
  is_stage _ = false

  -- The starts and stops that belong to an ending: the destructors stop a second time. A write can
  -- throw in any call from the start of the pipeline to the return of its first stop.
  abbrev pub AreStages : Ending → List (Action json) → Type 0
  AreStages exit_success calls =
      calls
      ≡ starts_pipeline ∷ starts_network ∷ stops_network ∷ stops_pipeline ∷ stops_network
        ∷ stops_pipeline ∷ []
  AreStages waits calls = calls ≡ starts_pipeline ∷ starts_network ∷ []
  AreStages exit_failure calls = calls ≡ []
  AreStages (terminated not_opened) calls = calls ≡ []
  AreStages (terminated not_written) calls =
      (begun : List (Action json)) × (rest : List (Action json)) × (calls ≡ starts_pipeline ∷ begun)
      × (begun ++ rest ≡ starts_network ∷ stops_network ∷ stops_pipeline ∷ [])

  wait_stages : (loads : List Bool) → keep is_stage ((wait_for_signal json loads).0) ≡ []
  unfolding wait_for_signal
  wait_stages [] = refl
  wait_stages (true ∷ loads) = refl
  wait_stages (false ∷ loads) = wait_stages loads

  -- What is cut begins with the first call.
  cut_starts :
      (k : ℕ) (actions begun : List (Action json))
      → cut json k (starts_pipeline ∷ actions) ≡ some begun
      → (rest : List (Action json)) × (begun ≡ starts_pipeline ∷ rest)
  unfolding cut
  cut_starts zero actions begun e = ([], ground arith)
  cut_starts (suc k) actions begun e = elim (Option-cases (cut json k actions)) [
    | inl over ↦ absurd (ground (arith, over, e))
    | inr (rest, f) ↦ (rest, ground (arith, f, e))
  ]

  abbrev tail_of : List (Action json) → List (Action json)
  tail_of [] = []
  tail_of (a ∷ actions) = actions

  shut_down-stages :
      (b : Bool)
      → AreStages
          ((shut_down json b).1)
          (starts_pipeline ∷ starts_network ∷ keep is_stage ((shut_down json b).0))
  unfolding shut_down
  shut_down-stages true = refl
  shut_down-stages false = refl

  stages-stages :
      (loads : List Bool)
      → AreStages ((stages json loads).1) (keep is_stage ((stages json loads).0))
  stages-stages loads =
      subst (λ l. AreStages ((stages json loads).1) (starts_pipeline ∷ starts_network ∷ l))
        (sym (
          keep-append is_stage ((wait_for_signal json loads).0)
            ((shut_down json ((wait_for_signal json loads).1)).0)
          ∙ ap (λ l. l ++ keep is_stage ((shut_down json ((wait_for_signal json loads).1)).0))
              (wait_stages loads)))
        (shut_down-stages ((wait_for_signal json loads).1))

  -- The calls up to the first stop() of the pipeline, behind the two starts.
  shut_down-to_stop :
      (b : Bool)
      → (rest : List (Action json)) × (keep is_stage (to_stop json ((shut_down json b).0)) ++ rest
          ≡ stops_network ∷ stops_pipeline ∷ [])
  unfolding shut_down
  shut_down-to_stop true = ([], refl)
  shut_down-to_stop false = (_, refl)

  wait-to_stop :
      (loads : List Bool) (ends : List (Action json))
      → keep is_stage (to_stop json ((wait_for_signal json loads).0 ++ ends))
        ≡ keep is_stage (to_stop json ends)
  unfolding wait_for_signal
  wait-to_stop [] ends = refl
  wait-to_stop (true ∷ loads) ends = refl
  wait-to_stop (false ∷ loads) ends = wait-to_stop loads ends

  cut-stages :
      (k : ℕ) (loads : List Bool) (begun : List (Action json))
      → cut json k ((stages json loads).0) ≡ some begun
      → AreStages (terminated not_written) (keep is_stage begun)
  cut-stages k loads begun e =
      let polls = (wait_for_signal json loads).0 in
      let ends = (shut_down json ((wait_for_signal json loads).1)).0 in
      let (first, f) = cut_starts k (starts_network ∷ (polls ++ ends)) begun e in
      let (more, g) = cut-to_stop json k ((stages json loads).0) begun e in
      let (rest, h) = shut_down-to_stop ((wait_for_signal json loads).1) in
      let behind : first ++ more ≡ starts_network ∷ to_stop json (polls ++ ends) =
        ap tail_of (ap (λ l. l ++ more) (sym f) ∙ g) in
      let kept : keep is_stage first ++ keep is_stage more
          ≡ starts_network ∷ keep is_stage (to_stop json ends) =
        sym (keep-append is_stage first more)
        ∙ ap (keep is_stage) behind
        ∙ ap (◌∷◌ starts_network) (wait-to_stop loads ends) in
      (
        keep is_stage first,
        keep is_stage more ++ rest,
        ap (keep is_stage) f,
        sym (append_assoc (keep is_stage first) (keep is_stage more) rest)
            ∙ ap (λ l. l ++ rest) kept
            ∙ ap (◌∷◌ starts_network) h,
      )

  interrupt-stages :
      (failure : Option ℕ) (loads : List Bool)
      → AreStages
          ((interrupt json failure (stages json loads)).1)
          (keep is_stage ((interrupt json failure (stages json loads)).0))
  unfolding interrupt
  interrupt-stages none loads = stages-stages loads
  interrupt-stages (some k) loads = elim (Option-cases (cut json k ((stages json loads).0))) [
    | inl over ↦ rw over (stages-stages loads)
    | inr (begun, e) ↦ rw e (cut-stages k loads begun e)
  ]

  module _ (files : FileLibrary) where
    with_sink-stages :
        (c : Config json) (sink : Option (FileOutputSink files)) (loads : List Bool)
        (failure : Option ℕ)
        → AreStages
            ((with_sink json files c sink loads failure).1)
            (keep is_stage ((with_sink json files c sink loads failure).0))
    unfolding with_sink
    with_sink-stages c none loads failure = refl
    with_sink-stages c (some sink) loads failure = interrupt-stages failure loads

    with_config-stages :
        (r : Config.Result (Config json)) (loads : List Bool) (failure : Option ℕ)
        → AreStages
            ((with_config json files r loads failure).1)
            (keep is_stage ((with_config json files r loads failure).0))
    unfolding with_config
    with_config-stages (Config.throws e) loads failure = refl
    with_config-stages (Config.ok c) loads failure = with_sink-stages c _ loads failure

    pub with_options-stages :
        (read_file : Bytes → Option Bytes) (r : CliOptions.Result) (loads : List Bool)
        (failure : Option ℕ)
        → AreStages
            ((with_options json files read_file r loads failure).1)
            (keep is_stage ((with_options json files read_file r loads failure).0))
    unfolding with_options
    with_options-stages read_file CliOptions.missing_path loads failure = refl
    with_options-stages read_file (CliOptions.ok o) loads failure =
        with_config-stages _ loads failure
