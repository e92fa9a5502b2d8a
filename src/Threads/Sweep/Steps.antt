-- ===== src/Threads/Sweep/Steps.antt =====
-- What an add, the begin of a flush, one of its extractions and its end make of an explanation.
use mathlib.Core.Path.{subst}
use binance_aggregator.Prelude.{
  ℕ, suc, ◌≤◌, ◌<◌, ◌≡◌, refl, sym, ap, ◌∙◌, inl, inr, false, List, [], ◌∷◌, ◌++◌, append_assoc,
  append-nil, Bytes, arith, ◌==◌, if◌then◌else◌, All-append, All-map, Bool-cases, ==_iff,
}
use binance_aggregator.Aggregation.{TradeEvent, WindowStats, MarketDataAggregator}
use binance_aggregator.Writer.{write_windows}
use binance_aggregator.Pipeline.{Event, traded}
use binance_aggregator.Threads.{shard_of, for_shard}
use binance_aggregator.Threads.Sequence.{
  Flush, completed, remaining, extraction, event_of, step_at, follow, emitted, output, gather,
  gather_last, gather-congr, follow-append, output-append, trade_at,
}
use binance_aggregator.Threads.Sweep.{
  Idle, Sweeping, now_at, trades_at, IsLate, append_at, trade_at-other, trades_at-ahead, now_at-add,
  trades_at-add, trades_at-append, output-add, follow-late, output-late, suc-IsLate,
}
use binance_aggregator.Pipeline.Book.{traded_of}

module _ (hash : Bytes → ℕ) (n window_ms : ℕ) (f : ℕ → MarketDataAggregator) where
  module _ {aggs bggs : ℕ → MarketDataAggregator} {W : List Bytes} {D E : ℕ → List TradeEvent} where
    pub Idle-add :
        (t : TradeEvent) (es : List Event)
        → ((i : ℕ) → i < n → bggs i ≡ trade_at (shard_of hash n t) t i (aggs i))
        → ((i : ℕ) → i < n → E i ≡ append_at hash n window_ms f (shard_of hash n t) t i (D i))
        → Idle hash n window_ms f aggs W D es
        → Idle hash n window_ms f bggs W E (es ++ traded t ∷ [])
    Idle-add t es ha hd v = record {
      aggregators = λ i l.
          ha i l
          ∙ ap (trade_at (shard_of hash n t) t i) (v.aggregators i l)
          ∙ sym (now_at-add hash n window_ms f i es t);
      texts = v.texts ∙ sym (output-add hash n window_ms f es t);
      trades = λ i l.
          hd i l
          ∙ ap (append_at hash n window_ms f (shard_of hash n t) t i) (v.trades i l)
          ∙ sym (trades_at-add hash n window_ms f i es t);
    }

    -- The shard of the trade is behind the flush.
    pub Sweeping-add_behind :
        (t : TradeEvent) (fl : Flush) (k : ℕ) (ws : List WindowStats) (es late : List Event)
        → shard_of hash n t < k
        → ((i : ℕ) → i < n → bggs i ≡ trade_at (shard_of hash n t) t i (aggs i))
        → ((i : ℕ) → i < n → E i ≡ append_at hash n window_ms f (shard_of hash n t) t i (D i))
        → Sweeping hash n window_ms f fl k ws aggs W D es late
        → Sweeping hash n window_ms f fl k ws bggs W E es (late ++ traded t ∷ [])
    Sweeping-add_behind t fl k ws es late b ha hd v = record {
      behind = λ i lk l.
          ha i l
          ∙ ap (trade_at (shard_of hash n t) t i) (v.behind i lk l)
          ∙ sym (follow-append hash n window_ms i late (traded t ∷ []) _);
      ahead = λ i lk l. ground (arith, ha i l, v.ahead i lk l, b, lk);
      windows = v.windows;
      texts = v.texts;
      trades = λ i l. ground (
        arith,
        hd i l,
        v.trades i l,
        trades_at-add hash n window_ms f i late t,
        append_assoc (trades_at hash n window_ms f i es) (trades_at hash n window_ms f i late)
            (t ∷ []),
      );
      passed = All-append (IsLate hash n window_ms f k) late (traded t ∷ []) v.passed (b, tt);
    }

    -- The shard of the trade is still ahead of the flush.
    pub Sweeping-add_ahead :
        (t : TradeEvent) (fl : Flush) (k : ℕ) (ws : List WindowStats) (es late : List Event)
        → k ≤ shard_of hash n t
        → ((i : ℕ) → i < n → bggs i ≡ trade_at (shard_of hash n t) t i (aggs i))
        → ((i : ℕ) → i < n → E i ≡ append_at hash n window_ms f (shard_of hash n t) t i (D i))
        → Sweeping hash n window_ms f fl k ws aggs W D es late
        → Sweeping hash n window_ms f fl k ws bggs W E (es ++ traded t ∷ []) late
    Sweeping-add_ahead t fl k ws es late b ha hd v =
        let same : (i : ℕ)
            → i < k
            → now_at hash n window_ms f i (es ++ traded t ∷ []) ≡ now_at hash n window_ms f i es =
          λ i l. ground (arith, now_at-add hash n window_ms f i es t, b, l) in
        record {
          behind = λ i lk l.
              ha i l
              ∙ trade_at-other hash n window_ms f (shard_of hash n t) t i (aggs i)
                  (omega (arith, lk, b))
              ∙ v.behind i lk l
              ∙ ap
                  (λ a. follow hash n window_ms i late (step_at hash n window_ms i (event_of fl) a))
                  (sym (same i lk));
          ahead = λ i lk l.
              ha i l
              ∙ ap (trade_at (shard_of hash n t) t i) (v.ahead i lk l)
              ∙ sym (now_at-add hash n window_ms f i es t);
          windows =
              v.windows
              ∙ gather-congr (extraction window_ms fl) _ _ 0 k
                  (λ i l. sym (same i (omega (arith, l))));
          texts = v.texts ∙ sym (output-add hash n window_ms f es t);
          trades = λ i l.
              hd i l
              ∙ ap (append_at hash n window_ms f (shard_of hash n t) t i) (v.trades i l)
              ∙ trades_at-ahead hash n window_ms f i k es late t b v.passed;
          passed = v.passed;
        }

  below_other : (a b : ℕ) → (a == b) ≡ false → b < suc a → b < a
  below_other a b h l = ground arith

  step_at-event_of :
      (fl : Flush) (i : ℕ) (agg : MarketDataAggregator)
      → (extraction window_ms fl agg).1 ≡ step_at hash n window_ms i (event_of fl) agg
  step_at-event_of (completed now) i agg = refl
  step_at-event_of remaining i agg = refl

  emitted-event_of :
      (fl : Flush) (g : ℕ → MarketDataAggregator)
      → write_windows (gather (extraction window_ms fl) g 0 n)
        ≡ emitted hash n window_ms (event_of fl) g
  emitted-event_of (completed now) g = refl
  emitted-event_of remaining g = refl

  traded_of-event_of : (fl : Flush) (es : List Event) → traded_of (event_of fl ∷ es) ≡ traded_of es
  traded_of-event_of (completed now) es = refl
  traded_of-event_of remaining es = refl

  pub Idle-begin :
      {aggs : ℕ → MarketDataAggregator} {W : List Bytes} {D : ℕ → List TradeEvent} (fl : Flush)
      (es : List Event)
      → Idle hash n window_ms f aggs W D es
      → Sweeping hash n window_ms f fl 0 [] aggs W D es []
  Idle-begin fl es v = record {
    behind = λ i lk l. absurd (omega (arith, lk));
    ahead = λ i lk l. v.aggregators i l;
    windows = refl;
    texts = v.texts;
    trades = λ i l. v.trades i l ∙ sym (append-nil (trades_at hash n window_ms f i es));
    passed = tt;
  }

  -- The flush extracts the windows of shard `k`.
  pub Sweeping-extract :
      {aggs bggs : ℕ → MarketDataAggregator} {W : List Bytes} {D : ℕ → List TradeEvent} (fl : Flush)
      (k : ℕ) (ws : List WindowStats) (es late : List Event)
      → k < n
      → ((i : ℕ)
          → i < n
          → bggs i ≡ (if k == i then (extraction window_ms fl (aggs k)).1 else aggs i))
      → Sweeping hash n window_ms f fl k ws aggs W D es late
      → Sweeping hash n window_ms f fl
          (suc k)
          (ws ++ (extraction window_ms fl (aggs k)).0)
          bggs
          W
          D
          es
          late
  Sweeping-extract {aggs} {bggs} fl k ws es late m ha v = record {
    behind = λ i lk l. elim (Bool-cases (k == i)) [
      | inl same ↦
          subst
            (λ j.
              bggs j
              ≡ follow hash n window_ms j late
                  (step_at hash n window_ms j (event_of fl) (now_at hash n window_ms f j es)))
            ((==_iff k i).0 same)
            (ground (arith, ha k m)
              ∙ ap (λ a. (extraction window_ms fl a).1) (v.ahead k (omega arith) m)
              ∙ step_at-event_of fl k (now_at hash n window_ms f k es)
              ∙ sym (follow-late hash n window_ms f k k late _ (omega arith) v.passed))
      | inr other ↦ ground (arith, other, ha i l, v.behind i (below_other k i other lk) l)
    ];
    ahead = λ i lk l. ground (arith, ha i l, lk, v.ahead i (omega (arith, lk)) l);
    windows =
        ap (λ a. ws ++ (extraction window_ms fl a).0) (v.ahead k (omega arith) m)
        ∙ ap (λ l. l ++ (extraction window_ms fl (now_at hash n window_ms f k es)).0) v.windows
        ∙ sym (
            gather_last (extraction window_ms fl) (λ i. now_at hash n window_ms f i es) 0 k k
              (omega arith));
    texts = v.texts;
    trades = v.trades;
    passed =
        All-map (IsLate hash n window_ms f k) (IsLate hash n window_ms f (suc k)) late
          (suc-IsLate hash n window_ms f k) v.passed;
  }

  -- The flush writes its windows.
  pub Sweeping-finish :
      {aggs : ℕ → MarketDataAggregator} {W : List Bytes} {D : ℕ → List TradeEvent} (fl : Flush)
      (ws : List WindowStats) (es late : List Event)
      → Sweeping hash n window_ms f fl n ws aggs W D es late
      → Idle hash n window_ms f aggs (W ++ write_windows ws) D (es ++ event_of fl ∷ late)
  Sweeping-finish {W = W} fl ws es late v = record {
    aggregators = λ i l.
        v.behind i l l ∙ sym (follow-append hash n window_ms i es (event_of fl ∷ late) (f i));
    texts =
        ap (◌++◌ W) (
          ap write_windows v.windows
          ∙ emitted-event_of fl (λ i. now_at hash n window_ms f i es)
          ∙ sym (append-nil _))
        ∙ ap
            (λ o.
              W
              ++ (emitted hash n window_ms (event_of fl) (λ i. now_at hash n window_ms f i es)
                  ++ o))
            (sym (output-late hash n window_ms f n late _ v.passed))
        ∙ ap
            (λ o.
              o
              ++ output hash n window_ms (event_of fl ∷ late) (λ i. now_at hash n window_ms f i es))
            v.texts
        ∙ sym (output-append hash n window_ms es (event_of fl ∷ late) f);
    trades = λ i l.
        v.trades i l
        ∙ ap (λ ts. trades_at hash n window_ms f i es ++ for_shard hash n i ts)
            (sym (traded_of-event_of fl late))
        ∙ sym (trades_at-append hash n window_ms f i es (event_of fl ∷ late));
  }
