-- ===== src/Threads/Again/Returns.antt =====
-- A second call of stop() (app/src/runtime/MarketDataPipeline.cpp) returns.
use mathlib.Core.Path.{subst}
use binance_aggregator.Prelude.{
  ℕ, ◌≤◌, ◌<◌, ◌≡◌, refl, sym, ap, ◌∙◌, inl, inr, [], ◌∷◌, Bytes, arith, ltb-cases, ◌⊎◌,
}
use binance_aggregator.Aggregation
use binance_aggregator.Aggregation.{
  TradeEvent, WindowStats, MarketDataAggregator, extract_all_windows, all_windows,
}
use binance_aggregator.Json.{JsonLibrary}
use binance_aggregator.Pipeline.{stopped}
use binance_aggregator.Threads.{
  Stopper, not_called, joins_writer, joins_parser, joins_workers, stop_returned, shuts, flushes,
  System, Move, Reach,
}
use binance_aggregator.Threads.Control.{
  IsOrdered, IsShardOrdered, writer_joined, parser_joined, workers_joined, has_shut,
  Reach-IsOrdered, Reach-IsShardOrdered,
}
use binance_aggregator.Threads.Sequence.{follow-append}
use binance_aggregator.Threads.Linear.{phase, over, Explained, Explained-same, aggregators}
use binance_aggregator.Threads.Refinement.{Reach-Linear}
use binance_aggregator.Threads.Load.{work}
use binance_aggregator.Threads.Termination.{Move-work}
use binance_aggregator.Threads.Shutdown.{Moves, Descends, HasReturned, leads_to}
use binance_aggregator.Threads.Again.{IsOver, IsAt, IsUnchanged, Again}
use binance_aggregator.Threads.Again.Kept.{Move-IsUnchanged, Input-IsUnchanged}

extract_all_windows-twice :
    (a : MarketDataAggregator)
    → extract_all_windows (extract_all_windows a).1 ≡ ([], (extract_all_windows a).1)
unfolding extract_all_windows all_windows
extract_all_windows-twice a = refl

module _ (lib : JsonLibrary) (hash : Bytes → ℕ) (n window_ms : ℕ) where
  Reach-IsOver :
      {c d : ℕ} {s : System}
      → 0 < n
      → Reach lib hash n window_ms c d s
      → s.stopper ≡ stop_returned
      → IsOver n s
  Reach-IsOver {s = s} m r e = record {
    raw_shut = o.raw_shut ∙ ap writer_joined e;
    shards_shut = λ i l. (at i l).queue_shut ∙ ap (has_shut i) e;
    empty = λ i l.
        let flushed =
          explained.1.aggregators i l
          ∙ follow-append hash n window_ms i explained.0 (stopped ∷ [])
              (Aggregation.new window_ms) in
        subst (λ a. extract_all_windows a ≡ ([], a)) (sym flushed) (extract_all_windows-twice _);
    parser_over = o.parser_next (ap parser_joined e);
    writer_over = o.writer_first (ap writer_joined e);
    workers_over = λ i l. (at i l).worker_next (ap workers_joined e);
  }
    where
      o : IsOrdered s
      o = Reach-IsOrdered lib hash n window_ms r

      at : (i : ℕ) → i < n → IsShardOrdered i s
      at i l = Reach-IsShardOrdered lib hash n window_ms i l r

      ended : phase s.writer s.stopper ≡ over
      ended = ground (arith, e)

      explained : Explained hash n window_ms over (aggregators s.shards) s.written s.added s.clock
      explained =
          Explained-same lib hash n window_ms s.written s.added s.clock ended (λ i. refl)
            (Reach-Linear lib hash n window_ms m r)

  Again-IsUnchanged :
      {s t : System} → IsOver n s → Again lib hash n window_ms s t → IsUnchanged n s t
  Again-IsUnchanged o Again.called = record {
    raw_queue = refl;
    shards = λ i. refl;
    parser = refl;
    workers = λ i. refl;
    writer = refl;
    written = refl;
    accepted = refl;
    added = λ i. refl;
    requested = refl;
    position = tt;
  }
  Again-IsUnchanged o (Again.moves a x) =
      Move-IsUnchanged lib hash n window_ms o x (Again-IsUnchanged o a)
  Again-IsUnchanged o (Again.inputs a x) =
      Input-IsUnchanged lib hash n window_ms o x (Again-IsUnchanged o a)

  -- The second call goes on, from wherever it is.
  goes_on :
      {s : System} (t : System) (p : Stopper)
      → IsOver n s
      → IsUnchanged n s t
      → t.stopper ≡ p
      → (t.stopper ≡ stop_returned) ⊎ ((u : System) × Move lib hash n window_ms t u)
  goes_on t not_called o v e = absurd (subst (IsAt n) e v.position)
  goes_on t joins_writer o v e = inr (_, Move.stop_joins_writer e (v.writer ∙ o.writer_over))
  goes_on t joins_parser o v e = inr (_, Move.stop_joins_parser e (v.parser ∙ o.parser_over))
  goes_on t joins_workers o v e =
      inr (_, Move.stop_joins_workers e (λ i l. v.workers i ∙ o.workers_over i l))
  goes_on t stop_returned o v e = inl e
  goes_on t (shuts i) o v e = elim (ltb-cases i n) [
    | inl more ↦ inr (_, Move.stop_shuts e more)
    | inr done ↦
        let bound : i ≤ n = subst (IsAt n) e v.position in
        inr (_, Move.stop_shut_all (e ∙ ap shuts (omega (arith, bound))))
  ]
  goes_on t (flushes i ws) o v e = elim (ltb-cases i n) [
    | inl more ↦ inr (_, Move.stop_extracts e more)
    | inr done ↦
        let (bound, none_there) = subst (IsAt n) e v.position in
        inr (_, Move.stop_writes (e ∙ ap (λ k. flushes k ws) (omega (arith, bound))))
  ]

  descends :
      {s : System}
      → 0 < n
      → IsOver n s
      → (t : System) → IsUnchanged n s t
      → Descends lib hash n window_ms (HasReturned lib hash n window_ms) (IsUnchanged n s) t
  descends m o t v = elim (goes_on t t.stopper o v refl) [
    | inl done ↦ inl done
    | inr (u, x) ↦ inr (
      u,
      x,
      (Move-work lib hash n window_ms m x v.requested).0,
      Move-IsUnchanged lib hash n window_ms o x v,
    )
  ]

  -- The destructor's call of stop(), behind a call that has returned, whatever comes to
  -- submit_raw_message in between: at every moment the queues, the aggregators, the threads, what was
  -- written, accepted and added are as the first call left them, and from there a bounded number of
  -- moves lead to its return. The number of shards is not 0.
  pub stop-again :
      {c d : ℕ} {s t : System}
      → 0 < n
      → Reach lib hash n window_ms c d s
      → s.stopper ≡ stop_returned
      → Again lib hash n window_ms s t
      → IsUnchanged n s t
        × ((k : ℕ) × (u : System) × Moves lib hash n window_ms k t u
            × (u.stopper ≡ stop_returned)
            × (k ≤ work n t))
  stop-again {s = s} {t = t} m r e a =
      let o = Reach-IsOver m r e in
      let v = Again-IsUnchanged o a in
      let (k, u, xs, kept, done, b) =
        leads_to lib hash n window_ms (HasReturned lib hash n window_ms) (IsUnchanged n s)
          (descends m o) t v in
      (v, (k, u, xs, done, b))
