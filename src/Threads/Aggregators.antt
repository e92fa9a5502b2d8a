-- ===== src/Threads/Aggregators.antt =====
-- What the aggregators of the shards hold, against the accepted messages
-- (app/src/runtime/MarketDataPipeline.cpp).
use mathlib.Core.Path.{subst}
use binance_aggregator.Prelude.{
  ℕ, ◌≤◌, ◌<◌, ◌≡◌, ◌≢◌, refl, sym, ap, ◌∙◌, inl, inr, List, [], ◌∷◌, ◌++◌, append-nil, map, Bytes,
  arith, ltb-cases,
}
use binance_aggregator.Aggregation
use binance_aggregator.Aggregation.{TradeEvent, WindowStats, MarketDataAggregator}
use binance_aggregator.Json.{JsonLibrary}
use binance_aggregator.Pipeline.{Event, ticked}
use binance_aggregator.Pipeline.Book.{traded_of, flushes_of, flushes_of-append}
use binance_aggregator.Threads.{not_called, flushes, System, Reach, for_shard}
use binance_aggregator.Threads.Flow.{trades_of}
use binance_aggregator.Threads.Sequence.{follow, follow-append}
use binance_aggregator.Threads.Sweep.{trades_at-append, trades_at-late, flushes_of-late}
use binance_aggregator.Threads.Linear.{
  Phase, between, completes, remains, over, phase, aggregators, Explained,
}
use binance_aggregator.Threads.Refinement.{Reach-Linear}
use binance_aggregator.Threads.Control.{workers_joined}
use binance_aggregator.Threads.Delivery.{stop-added}

module _ (hash : Bytes → ℕ) (n window_ms : ℕ) where
  -- The aggregator of shard `i` is what some trades and ticks make of a new one, by add_trade and by
  -- extract_completed_windows: the trades of shard `i` among them are `ts`, and the ticks are at the
  -- times of `clock`, in their order, up to some time.
  pub record IsFed (i : ℕ) (agg : MarketDataAggregator) (ts : List TradeEvent) (clock : List ℕ)
      : Type 0 where
    pub events : List Event
    pub to_come : List Event
    pub ticks : flushes_of events ++ to_come ≡ map ticked clock
    pub trades : for_shard hash n i (traded_of events) ≡ ts
    pub holds : agg ≡ follow hash n window_ms i events (Aggregation.new window_ms)

  -- Before flush_remaining_windows comes to a shard.
  remains-IsFed :
      (i k : ℕ) (ws : List WindowStats) (A : ℕ → MarketDataAggregator) (W : List Bytes)
      (D : ℕ → List TradeEvent) (C : List ℕ)
      → i < n
      → k ≤ i
      → Explained hash n window_ms (remains k ws) A W D C
      → (f : IsFed i (A i) (D i) C) × (f.to_come ≡ [])
  remains-IsFed i k ws A W D C l b (es, v, c) = (
    record {
      events = es;
      to_come = [];
      ticks = append-nil (flushes_of es) ∙ c;
      trades = sym (append-nil (for_shard hash n i (traded_of es))) ∙ sym (v.trades i l);
      holds = v.ahead i b l;
    },
    refl,
  )

  Explained-IsFed :
      (i : ℕ) (ph : Phase) (A : ℕ → MarketDataAggregator) (W : List Bytes) (D : ℕ → List TradeEvent)
      (C : List ℕ)
      → i < n
      → ph ≢ over
      → ((k : ℕ) (ws : List WindowStats) → ph ≡ remains k ws → k ≤ i)
      → Explained hash n window_ms ph A W D C
      → IsFed i (A i) (D i) C
  Explained-IsFed i between A W D C l o b (es, v, c) = record {
    events = es;
    to_come = [];
    ticks = append-nil (flushes_of es) ∙ c;
    trades = sym (v.trades i l);
    holds = v.aggregators i l;
  }
  Explained-IsFed i (completes now k ws) A W D C l o b (es, late, v, c) = elim (ltb-cases i k) [
    | inl behind ↦ record {
      events = es ++ ticked now ∷ late;
      to_come = [];
      ticks =
          append-nil (flushes_of (es ++ ticked now ∷ late))
          ∙ flushes_of-append es (ticked now ∷ late)
          ∙ ap (λ x. flushes_of es ++ ticked now ∷ x)
              (flushes_of-late hash n window_ms (λ j. Aggregation.new window_ms) k late v.passed)
          ∙ c;
      trades =
          trades_at-append hash n window_ms (λ j. Aggregation.new window_ms) i es
            (ticked now ∷ late)
          ∙ sym (v.trades i l);
      holds =
          v.behind i behind l
          ∙ sym
              (follow-append hash n window_ms i es (ticked now ∷ late) (Aggregation.new window_ms));
    }
    | inr ahead ↦ record {
      events = es;
      to_come = ticked now ∷ [];
      ticks = c;
      trades =
          sym (append-nil (for_shard hash n i (traded_of es)))
          ∙ ap (λ x. for_shard hash n i (traded_of es) ++ x)
              (sym (
                trades_at-late hash n window_ms (λ j. Aggregation.new window_ms) i k late ahead
                  v.passed))
          ∙ sym (v.trades i l);
      holds = v.ahead i ahead l;
    }
  ]
  Explained-IsFed i (remains k ws) A W D C l o b x =
      (remains-IsFed i k ws A W D C l (b k ws refl) x).0
  Explained-IsFed i over A W D C l o b v = absurd (o refl)

module _ (lib : JsonLibrary) (hash : Bytes → ℕ) (n window_ms : ℕ) where
  -- The aggregator of shard `i` in a state.
  abbrev pub IsFedWith : ℕ → System → List TradeEvent → Type 0
  IsFedWith i s ts = IsFed hash n window_ms i (s.shards i).aggregator ts s.clock

  module _ {c d : ℕ} where
    pub running-IsFed :
        (i : ℕ) {s : System}
        → i < n
        → Reach lib hash n window_ms c d s
        → s.stopper ≡ not_called
        → IsFedWith i s (s.added i)
    running-IsFed i {s} l r e =
        Explained-IsFed hash n window_ms i (phase s.writer s.stopper) (aggregators s.shards)
          s.written s.added s.clock l (λ h. ground (arith, e, h)) (λ k ws h. ground (arith, e, h))
          (Reach-Linear lib hash n window_ms (omega (arith, l)) r)

    -- When stop() has joined all threads, and before it extracts what remains, whatever the interleaving
    -- was: the aggregator of each shard is what some trades and ticks make of a new one, by add_trade
    -- and by extract_completed_windows. The trades of the shard among them are the trades of that shard
    -- in the accepted messages, in their order, and the ticks are at the times that the writer has read,
    -- all of them, in their order.
    pub stop-delivers :
        (i : ℕ)
        → i < n
        → {s : System} → Reach lib hash n window_ms c d s
        → s.stopper ≡ flushes 0 []
        → (f : IsFedWith i s (for_shard hash n i (trades_of lib s.accepted))) × (f.to_come ≡ [])
    stop-delivers i l {s} r e =
        let joined : phase s.writer s.stopper ≡ remains 0 [] = ground (arith, e) in
        subst (λ ts. (f : IsFedWith i s ts) × (f.to_come ≡ []))
          (stop-added lib hash n window_ms i l r (ap workers_joined e))
          (remains-IsFed hash n window_ms i 0 [] (aggregators s.shards) s.written s.added s.clock l
            (omega arith)
            (subst
              (λ ph. Explained hash n window_ms ph (aggregators s.shards) s.written s.added s.clock)
              joined (Reach-Linear lib hash n window_ms (omega (arith, l)) r)))
