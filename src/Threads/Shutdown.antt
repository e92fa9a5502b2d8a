-- ===== src/Threads/Shutdown.antt =====
-- stop() comes to its end, whatever the threads of the pipeline do.
use binance_aggregator.Prelude.{
  ℕ, zero, suc, ◌+◌, ◌≤◌, ◌<◌, ◌≡◌, ◌≢◌, ◌⊎◌, refl, true, Bytes, arith, inl, inr,
}
use binance_aggregator.Json.{JsonLibrary}
use binance_aggregator.Threads.{
  Stopper, not_called, joins_writer, joins_parser, joins_workers, stop_returned, shuts, flushes,
  System, Move, Reach,
}
use binance_aggregator.Threads.Control.{Reach-IsOrdered}
use binance_aggregator.Threads.Progress.{stop-progress}
use binance_aggregator.Threads.Load.{work}
use binance_aggregator.Threads.Termination.{Move-work}

Stopper-cases : (x : Stopper) → (x ≡ not_called) ⊎ ((x ≡ stop_returned) ⊎ (x ≢ stop_returned))
Stopper-cases not_called = inl refl
Stopper-cases stop_returned = inr (inl refl)
Stopper-cases joins_writer = inr (inr (λ e. absurd (cc)))
Stopper-cases joins_parser = inr (inr (λ e. absurd (cc)))
Stopper-cases joins_workers = inr (inr (λ e. absurd (cc)))
Stopper-cases (shuts i) = inr (inr (λ e. absurd (cc)))
Stopper-cases (flushes i ws) = inr (inr (λ e. absurd (cc)))

module _ (lib : JsonLibrary) (hash : Bytes → ℕ) (n window_ms : ℕ) where
  -- `k` moves, one after the other.
  pub data Moves : ℕ → System → System → Type 0 where
    stays : {s : System} → Moves 0 s s
    goes :
        {k : ℕ} {s t u : System} → Move lib hash n window_ms s t → Moves k t u → Moves (suc k) s u

  -- Once stop() has been called, any `k` moves in a row take `k` off the work that is left, which the
  -- messages, the trades and the threads tell: the threads cannot go on for ever. The number of shards
  -- is not 0.
  pub stop-bounded :
      {k : ℕ} {s t : System}
      → 0 < n
      → Moves k s t
      → s.stop_requested ≡ true
      → (k + work n t ≤ work n s) × (t.stop_requested ≡ true)
  stop-bounded m stays c = (omega arith, c)
  stop-bounded m (goes x xs) c =
      let (less, still) = Move-work lib hash n window_ms m x c in
      let (rest, last) = stop-bounded m xs still in (omega (arith, less, rest), last)

  -- A state of the goal, or a move that leaves less work and keeps `P`.
  abbrev pub Descends : (System → Type 0) → (System → Type 0) → System → Type 0
  Descends Goal P s =
      Goal s ⊎ ((t : System) × Move lib hash n window_ms s t × (work n t < work n s) × P t)

  leads_within :
      (Goal P : System → Type 0)
      → ((s : System) → P s → Descends Goal P s)
      → (fuel : ℕ) (s : System) → P s
      → work n s ≤ fuel
      → (k : ℕ) × (t : System) × Moves k s t × P t × Goal t × (k ≤ fuel)
  leads_within Goal P h zero s p b = elim (h s p) [
    | inl done ↦ (0, s, stays, p, done, omega arith)
    | inr (t, x, less, q) ↦ absurd (omega (arith, less, b))
  ]
  leads_within Goal P h (suc fuel) s p b = elim (h s p) [
    | inl done ↦ (0, s, stays, p, done, omega arith)
    | inr (t, x, less, q) ↦
        let (k, u, xs, kept, done, l) = leads_within Goal P h fuel t q (omega (arith, less, b)) in
        (suc k, u, goes x xs, kept, done, omega (arith, l))
  ]

  -- Where some move leaves less work, moves lead to the goal, not more than there is work.
  pub leads_to :
      (Goal P : System → Type 0)
      → ((s : System) → P s → Descends Goal P s)
      → (s : System) → P s
      → (k : ℕ) × (t : System) × Moves k s t × P t × Goal t × (k ≤ work n s)
  leads_to Goal P h s p = leads_within Goal P h (work n s) s p (omega arith)

  abbrev pub HasReturned : System → Type 0
  HasReturned s = s.stopper ≡ stop_returned

  module _ (c d : ℕ) where
    abbrev IsCalled : System → Type 0
    IsCalled s = Reach lib hash n window_ms c d s × (s.stop_requested ≡ true)

    descends : 0 < n → 0 < d → (s : System) → IsCalled s → Descends HasReturned IsCalled s
    descends m l s (r, q) = elim (Stopper-cases s.stopper) [
      | inl off ↦
          absurd (ground (arith, off, q, (Reach-IsOrdered lib hash n window_ms r).requested))
      | inr (inl done) ↦ inl done
      | inr (inr more) ↦
          let (t, x) =
            stop-progress lib hash n window_ms m l r
              (λ e. ground (arith, e, q, (Reach-IsOrdered lib hash n window_ms r).requested))
              more in
          let (less, still) = Move-work lib hash n window_ms m x q in
          inr (t, x, less, (Reach.moves r x, still))
    ]

  -- From every state that the threads reach once stop() has been called, moves of the threads lead
  -- to a state in which stop() has returned, not more of them than there is work left. The number
  -- of shards and the capacity of their queues are not 0.
  pub stop-returns :
      {c d : ℕ}
      → 0 < n
      → 0 < d
      → {s : System} → Reach lib hash n window_ms c d s
      → s.stop_requested ≡ true
      → (k : ℕ) × (t : System) × Moves k s t × (t.stopper ≡ stop_returned) × (k ≤ work n s)
  stop-returns {c} {d} m l {s} r q =
      let (k, t, xs, called, done, b) =
        leads_to HasReturned (IsCalled c d) (descends c d m l) s (r, q) in
      (k, t, xs, done, b)
