-- ===== src/Main/Cuts.antt =====
-- What is called before a write throws: a part of the calls up to the first stop() of the pipeline.
use binance_aggregator.Prelude.{
  ℕ, zero, suc, ◌≡◌, inl, inr, Bool, List, [], ◌∷◌, ◌++◌, some, Bool-cases, Option-cases, keep,
  if◌then◌else◌, arith,
}
use binance_aggregator.Json.{JsonLibrary}
use binance_aggregator.Main.{Action, is_stop, cut}

module _ (json : JsonLibrary) where
  -- The calls up to the first stop() of the pipeline.
  abbrev pub to_stop : List (Action json) → List (Action json)
  to_stop [] = []
  to_stop (action ∷ actions) =
      let rest = to_stop actions in if is_stop json action then action ∷ [] else action ∷ rest

  pub cut-to_stop :
      (k : ℕ) (actions begun : List (Action json))
      → cut json k actions ≡ some begun
      → (rest : List (Action json)) × (begun ++ rest ≡ to_stop actions)
  unfolding cut
  cut-to_stop k [] begun e = absurd (cc (e))
  cut-to_stop zero (a ∷ actions) begun e = elim (Bool-cases (is_stop json a)) [
    | inl stop ↦ ([], ground (arith, stop))
    | inr other ↦ (to_stop actions, ground (arith, other))
  ]
  cut-to_stop (suc k) (a ∷ actions) begun e = elim (Bool-cases (is_stop json a)) [
    | inl stop ↦ absurd (ground (arith, stop, e))
    | inr other ↦ elim (Option-cases (cut json k actions)) [
      | inl over ↦ absurd (ground (arith, other, over, e))
      | inr (more, f) ↦
          let (rest, g) = cut-to_stop k actions more f in (rest, ground (arith, other, f, e, g))
    ]
  ]

  pub cut-keep :
      (p : Action json → Bool) (k : ℕ) (actions begun : List (Action json))
      → keep p actions ≡ []
      → cut json k actions ≡ some begun
      → keep p begun ≡ []
  unfolding cut
  cut-keep p k [] begun h e = absurd (cc (e))
  cut-keep p zero (a ∷ actions) begun h e = ground arith
  cut-keep p (suc k) (a ∷ actions) begun h e = elim (Bool-cases (is_stop json a)) [
    | inl stop ↦ absurd (ground (arith, stop, e))
    | inr other ↦ elim (Option-cases (cut json k actions)) [
      | inl over ↦ absurd (ground (arith, other, over, e))
      | inr (more, f) ↦ ground (arith, other, f, cut-keep p k actions more (ground arith) f)
    ]
  ]
