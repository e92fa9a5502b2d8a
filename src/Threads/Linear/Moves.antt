-- ===== src/Threads/Linear/Moves.antt =====
-- Every move of a thread, and every input, keeps the state that of a sequence of events.
use mathlib.Core.List.{map-append}
use binance_aggregator.Prelude.{
  ℕ, suc, ◌<◌, ◌≡◌, refl, sym, ap, ◌∙◌, inl, inr, List, [], ◌∷◌, ◌++◌, Bytes, arith, ◌==◌,
  if◌then◌else◌, Bool-cases,
}
use binance_aggregator.BoundedQueue.{shutdown}
use binance_aggregator.Aggregation
use binance_aggregator.Aggregation.{TradeEvent, WindowStats, MarketDataAggregator, add_trade}
use binance_aggregator.Json.{JsonLibrary}
use binance_aggregator.Pipeline.{Shard, ticked}
use binance_aggregator.Pipeline.Book.{flushes_of, flushes_of-append}
use binance_aggregator.Writer.{write_windows}
use binance_aggregator.Threads.{
  sleeps, extracts, flushes, System, set_queue, set_aggregator, shard_of, writer_extracted,
  stop_extracted, Move, Input,
}
use binance_aggregator.Threads.Control.{IsOrdered, IsShardOrdered}
use binance_aggregator.Threads.Flow.{Flows}
use binance_aggregator.Threads.Sequence.{extraction, completed, remaining}
use binance_aggregator.Threads.Sweep.{flushes_of-late}
use binance_aggregator.Threads.Sweep.Steps.{Idle-begin, Sweeping-extract, Sweeping-finish}
use binance_aggregator.Threads.Linear.{
  between, completes, remains, phase, aggregators, set_queue-aggregators, Linear, Explained-same,
  parsed-Linear, taken-Linear, added-Linear, adds_own,
}

module _ (lib : JsonLibrary) (hash : Bytes → ℕ) (n window_ms : ℕ) where
  set_aggregator-aggregators :
      (shards : ℕ → Shard) (k : ℕ) (agg : MarketDataAggregator) (i : ℕ)
      → aggregators (set_aggregator shards k agg) i ≡ (if k == i then agg else aggregators shards i)
  set_aggregator-aggregators shards k agg i = elim (Bool-cases (k == i)) [
    | inl same ↦ ground (arith, same)
    | inr other ↦ ground (arith, other)
  ]

  writer_extracted-Linear :
      (now k : ℕ) (ws : List WindowStats) (s : System)
      → s.writer ≡ extracts now k ws
      → k < n
      → IsOrdered s
      → Linear lib hash n window_ms s
      → Linear lib hash n window_ms (writer_extracted window_ms now k ws s)
  unfolding writer_extracted
  writer_extracted-Linear now k ws s e l o v =
      let on : phase s.writer s.stopper ≡ completes now k ws = ground (arith, e, o.writer_first) in
      let on' : completes now (suc k)
            (ws ++ (extraction window_ms (completed now) (aggregators s.shards k)).0)
          ≡ phase (writer_extracted window_ms now k ws s).writer s.stopper =
        ground (arith, e, o.writer_first) in
      let (es, late, x, c) =
        Explained-same lib hash n window_ms s.written s.added s.clock on (λ i. refl) v in
      Explained-same lib hash n window_ms s.written s.added s.clock on' (λ i. refl)
        (
          es,
          late,
          Sweeping-extract hash n window_ms (λ i. Aggregation.new window_ms) (completed now) k ws es
              late l (λ i m. set_aggregator-aggregators s.shards k _ i) x,
          c,
        )

  stop_extracted-Linear :
      (k : ℕ) (ws : List WindowStats) (s : System)
      → s.stopper ≡ flushes k ws
      → k < n
      → Linear lib hash n window_ms s
      → Linear lib hash n window_ms (stop_extracted k ws s)
  unfolding stop_extracted
  stop_extracted-Linear k ws s e l v =
      let on : phase s.writer s.stopper ≡ remains k ws = ground (arith, e) in
      let (es, x, c) =
        Explained-same lib hash n window_ms s.written s.added s.clock on (λ i. refl) v in
      (
        es,
        Sweeping-extract hash n window_ms (λ i. Aggregation.new window_ms) remaining k ws es [] l
            (λ i m. set_aggregator-aggregators s.shards k _ i) x,
        c,
      )

  pub Move-Linear :
      {s t : System}
      → IsOrdered s
      → ((j : ℕ) → j < n → IsShardOrdered j s)
      → ((j : ℕ) → j < n → Flows lib hash n j s)
      → Move lib hash n window_ms s t
      → Linear lib hash n window_ms s
      → Linear lib hash n window_ms t
  Move-Linear {s} o v f (Move.parser_pops {r = r} {q = q} e h) x =
      parsed-Linear lib hash n window_ms r q s x
  Move-Linear {s} o v f (Move.parser_pushes {t = t} {q = q} e h) x =
      Explained-same lib hash n window_ms s.written s.added s.clock refl
        (set_queue-aggregators s.shards (shard_of hash n t) q) x
  Move-Linear {s} o v f (Move.worker_pops i {r = r} {q = q} l e h) x =
      taken-Linear lib hash n window_ms i r (record s { shards = set_queue s.shards i q })
        (Explained-same lib hash n window_ms s.written s.added s.clock refl
          (set_queue-aggregators s.shards i q) x)
  Move-Linear {s} o v f (Move.worker_adds i {t = t} l e) x =
      added-Linear lib hash n window_ms i t s e (adds_own lib hash n window_ms i s t e (f i l)) l o
        (v i l) x
  Move-Linear {s} o v f (Move.writer_wakes now e h) x =
      let off : phase s.writer s.stopper ≡ between = ground (arith, e, h, o.requested) in
      let on : completes now 0 [] ≡ phase (extracts now 0 []) s.stopper =
        ground (arith, h, o.requested) in
      let (es, i, c) =
        Explained-same lib hash n window_ms s.written s.added s.clock off (λ i. refl) x in
      Explained-same lib hash n window_ms s.written s.added (s.clock ++ now ∷ []) on (λ i. refl)
        (
          es,
          [],
          Idle-begin hash n window_ms (λ i. Aggregation.new window_ms) (completed now) es i,
          ap (λ l. l ++ ticked now ∷ []) c ∙ sym (map-append ticked s.clock (now ∷ [])),
        )
  Move-Linear {s} o v f (Move.writer_extracts {now = now} {i = k} {ws = ws} e l) x =
      writer_extracted-Linear now k ws s e l o x
  Move-Linear {s} o v f (Move.writer_writes {now = now} {ws = ws} e) x =
      let on : phase s.writer s.stopper ≡ completes now n ws = ground (arith, e, o.writer_first) in
      let off : between ≡ phase sleeps s.stopper = ground (arith, e, o.writer_first) in
      let (es, late, y, c) =
        Explained-same lib hash n window_ms s.written s.added s.clock on (λ i. refl) x in
      Explained-same lib hash n window_ms (s.written ++ write_windows ws) s.added s.clock off
        (λ i. refl)
        (
          es ++ ticked now ∷ late,
          Sweeping-finish hash n window_ms (λ i. Aggregation.new window_ms) (completed now) ws es
              late y,
          flushes_of-append es (ticked now ∷ late)
              ∙ ap (λ l. flushes_of es ++ ticked now ∷ l)
                  (flushes_of-late hash n window_ms (λ i. Aggregation.new window_ms) n late
                    y.passed)
              ∙ c,
        )
  Move-Linear {s} o v f (Move.writer_ends e h) x =
      Explained-same lib hash n window_ms s.written s.added s.clock (ground (arith, e, h))
        (λ i. refl) x
  Move-Linear {s} o v f (Move.stop_joins_writer e h) x =
      Explained-same lib hash n window_ms s.written s.added s.clock (ground (arith, e)) (λ i. refl)
        x
  Move-Linear {s} o v f (Move.stop_joins_parser e h) x =
      Explained-same lib hash n window_ms s.written s.added s.clock (ground (arith, e)) (λ i. refl)
        x
  Move-Linear {s} o v f (Move.stop_shuts {i = i} e l) x =
      Explained-same lib hash n window_ms s.written s.added s.clock (ground (arith, e))
        (set_queue-aggregators s.shards i (shutdown (s.shards i).queue)) x
  Move-Linear {s} o v f (Move.stop_shut_all e) x =
      Explained-same lib hash n window_ms s.written s.added s.clock (ground (arith, e)) (λ i. refl)
        x
  Move-Linear {s} o v f (Move.stop_joins_workers e h) x =
      let off : phase s.writer s.stopper ≡ between = ground (arith, e, o.writer_first) in
      let (es, i, c) =
        Explained-same lib hash n window_ms s.written s.added s.clock off (λ i. refl) x in
      (es, Idle-begin hash n window_ms (λ i. Aggregation.new window_ms) remaining es i, c)
  Move-Linear {s} o v f (Move.stop_extracts {i = k} {ws = ws} e l) x =
      stop_extracted-Linear k ws s e l x
  Move-Linear {s} o v f (Move.stop_writes {ws = ws} e) x =
      let on : phase s.writer s.stopper ≡ remains n ws = ground (arith, e) in
      let (es, y, c) =
        Explained-same lib hash n window_ms s.written s.added s.clock on (λ i. refl) x in
      (
        es,
        Sweeping-finish hash n window_ms (λ i. Aggregation.new window_ms) remaining ws es [] y,
        c,
      )

  pub Input-Linear :
      {s t : System}
      → Input lib hash n window_ms s t
      → Linear lib hash n window_ms s
      → Linear lib hash n window_ms t
  Input-Linear (Input.submits raw h) x = x
  Input-Linear {s} (Input.calls_stop e) x =
      Explained-same lib hash n window_ms s.written s.added s.clock (ground (arith, e)) (λ i. refl)
        x
