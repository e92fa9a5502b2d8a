-- ===== src/Pipeline/Accounts.antt =====
-- The flushes of app/src/runtime/MarketDataPipeline.cpp against the book of held trades: what the
-- windows of a flush say of the trades that the flush takes.
use mathlib.Core.Path.{subst}
use binance_aggregator.Prelude.{
  ℕ, ◌-◌, ◌≡◌, refl, sym, ap, ◌∙◌, inl, Bool, true, false, not, List, [], ◌∷◌, ◌++◌, append_assoc,
  append-nil, Option, none, Bytes, arith, if◌then◌else◌, keep, ◌%◌,
}
use binance_aggregator.StrictOrder.{text_order, nat_order, eq_of_same}
use binance_aggregator.Aggregation.{
  TradeEvent, WindowStats, MarketDataAggregator, window_start, extract_completed_windows,
}
use binance_aggregator.Aggregation.Summary.{Summary, bucket, accumulate-Summary}
use binance_aggregator.Writer.{write_windows}
use binance_aggregator.Writer.Lookup.{found, AreDistinct}
use binance_aggregator.Pipeline.{
  MarketDataPipeline, new, max, extract_from, flush, flush_completed_windows,
  flush_remaining_windows, Event, traded, ticked, stopped, handle, run,
}
use binance_aggregator.Pipeline.Merge.{
  Extraction, extract_all_windows-Extraction, extract_completed_windows-Extraction,
}
use binance_aggregator.Pipeline.Shards.{look, found-extract_from, extract_from-AreDistinct}
use binance_aggregator.Pipeline.Sharded.{
  IsSharded, handle-IsSharded, look-handle, new-IsSharded, look-new, new-written,
}
use binance_aggregator.Pipeline.Book.{takes, batch, left, batches}

-- The windows report the trades: for every symbol and start with a trade there is one window, and it
-- is the summary of those trades; for the others there is none.
pub record Reports (window_ms : ℕ) (ts : List TradeEvent) (windows : List WindowStats)
    : Type 0 where
  pub distinct : AreDistinct windows
  pub summaries : (s : Bytes) (k : ℕ) → Summary s k (bucket window_ms s k ts) (found s k windows)

-- The texts are what write_windows makes of windows that report the batches, in order.
pub data Writes (window_ms : ℕ) : List (List TradeEvent) → List Bytes → Type 0 where
  nothing : Writes window_ms [] []
  writes :
      {ts : List TradeEvent} {windows : List WindowStats} {more : List (List TradeEvent)}
      {texts : List Bytes}
      → Reports window_ms ts windows
      → Writes window_ms more texts
      → Writes window_ms (ts ∷ more) (write_windows windows ++ texts)

-- The trades of a bucket among those that pass a test on the start of their window.
bucket-keep :
    (window_ms : ℕ) (p : ℕ → Bool) (s : Bytes) (k : ℕ) (ts : List TradeEvent)
    → bucket window_ms s k (keep (λ t. p (window_start window_ms t.trade_time_ms)) ts)
      ≡ (if p k then bucket window_ms s k ts else [])
bucket-keep m p s k [] = ground arith
bucket-keep m p s k (t ∷ ts) =
    ground (arith, bucket-keep m p s k ts, eq_of_same (window_start m t.trade_time_ms) k)

Summary-if :
    (b : Bool) (s : Bytes) (k : ℕ) (ts : List TradeEvent) (w : Option WindowStats)
    → Summary s k ts w
    → Summary s k (if b then ts else []) (if b then w else none)
Summary-if true s k ts w h = h
Summary-if false s k ts w h = inl (refl, refl)

Summary-if_not :
    (b : Bool) (s : Bytes) (k : ℕ) (ts : List TradeEvent) (w : Option WindowStats)
    → Summary s k ts w
    → Summary s k (if not b then ts else []) (if b then none else w)
Summary-if_not true s k ts w h = inl (refl, refl)
Summary-if_not false s k ts w h = h

module _ (hash : Bytes → ℕ) (n window_ms : ℕ) where
  -- The shards hold the summaries of the held trades.
  abbrev Holds : MarketDataPipeline → List TradeEvent → Type 0
  Holds p held = (s : Bytes) (k : ℕ) → Summary s k (bucket window_ms s k held) (look s k p.shards)

  handle-Holds :
      (p : MarketDataPipeline) (e : Event) (held : List TradeEvent)
      → IsSharded hash n window_ms p
      → Holds p held
      → Holds (handle hash p e) (left window_ms held e)
  handle-Holds p (traded t) held v h = λ s k.
      rw (look-handle hash n window_ms p (traded t) s k v)
        (accumulate-Summary window_ms t held (λ x j. look x j p.shards) h s k)
  handle-Holds p (ticked now) held v h = λ s k.
      rw
        (
          look-handle hash n window_ms p (ticked now) s k v,
          bucket-keep window_ms (λ j. not (takes window_ms (ticked now) j)) s k held,
        )
        (Summary-if_not (takes window_ms (ticked now) k) s k (bucket window_ms s k held)
          (look s k p.shards) (h s k))
  handle-Holds p stopped held v h =
      λ s k. rw (look-handle hash n window_ms p stopped s k v) (inl (refl, refl))

  flush-Reports :
      (extract : MarketDataAggregator → List WindowStats × MarketDataAggregator) (b : ℕ → Bool)
      (p : MarketDataPipeline) (held : List TradeEvent)
      → Extraction extract b
      → IsSharded hash n window_ms p
      → Holds p held
      → Reports window_ms
          (keep (λ t. b (window_start window_ms t.trade_time_ms)) held)
          (extract_from extract p.shards).0
  flush-Reports extract b p held law v h = record {
    distinct =
        extract_from-AreDistinct (λ s. hash s % n) window_ms extract b law 0 p.shards v.routed;
    summaries = λ s k.
        rw
          (
            found-extract_from (λ x. hash x % n) window_ms extract b law s k 0 p.shards v.routed,
            bucket-keep window_ms b s k held,
          )
          (Summary-if (b k) s k (bucket window_ms s k held) (look s k p.shards) (h s k));
  }

  -- What an event writes: windows that report the trades it takes.
  handle-Reports :
      (p : MarketDataPipeline) (e : Event) (held : List TradeEvent)
      → IsSharded hash n window_ms p
      → Holds p held
      → (windows : List WindowStats) × Reports window_ms (batch window_ms held e) windows
        × ((handle hash p e).written ≡ p.written ++ write_windows windows)
  unfolding handle flush_completed_windows flush_remaining_windows flush write_windows
  handle-Reports p (traded t) held v h = (
    [],
    record {
      distinct = tt;
      summaries = λ s k.
          rw (bucket-keep window_ms (λ j. false) s k held) (inl (refl, unfold found in refl));
    },
    sym (append-nil p.written),
  )
  handle-Reports p (ticked now) held v h = (
    _,
    flush-Reports _ (λ k. takes window_ms (ticked now) k) p held
        (subst
          (λ w.
            Extraction (λ agg. extract_completed_windows agg (now - now % p.window_ms))
              (λ k. takes w (ticked now) k))
          v.width (extract_completed_windows-Extraction (now - now % p.window_ms)))
        v h,
    refl,
  )
  handle-Reports p stopped held v h =
      (_, flush-Reports _ (λ k. true) p held extract_all_windows-Extraction v h, refl)

  run-Writes_from :
      (p : MarketDataPipeline) (es : List Event) (held : List TradeEvent)
      → IsSharded hash n window_ms p
      → Holds p held
      → (texts : List Bytes) × Writes window_ms (batches window_ms held es) texts
        × ((run hash p es).written ≡ p.written ++ texts)
  unfolding run
  run-Writes_from p [] held v h = ([], Writes.nothing, sym (append-nil p.written))
  run-Writes_from p (e ∷ es) held v h =
      let (windows, reports, old) = handle-Reports p e held v h in
      let (texts, rest, new_texts) =
        run-Writes_from (handle hash p e) es (left window_ms held e)
          (handle-IsSharded hash n window_ms p e v) (handle-Holds p e held v h) in
      (
        write_windows windows ++ texts,
        Writes.writes reports rest,
        new_texts ∙ ap (λ w. w ++ texts) old ∙ append_assoc p.written (write_windows windows) texts,
      )

-- After any trades, flushes and stops on a new pipeline, what was written is, event by event, what
-- write_windows makes of a list of windows, no two of one symbol and start, that reports the trades
-- which the event takes out of a plain list of held trades: a tick takes those of windows that start
-- before the one of the clock, a stop takes all. A bucket without trades has no window; that of any
-- other has the number of its trades and of each side modulo 2 ^ 64, the sum of their notional
-- values cut to int64_t, and the lowest and the highest price that occur.
pub run-Writes :
    (hash : Bytes → ℕ) (window_ms interval capacity threads : ℕ) (es : List Event)
    → Writes window_ms
        (batches window_ms [] es)
        (run hash (new window_ms interval capacity threads) es).written
run-Writes hash window_ms interval capacity threads es =
    let p : MarketDataPipeline = new window_ms interval capacity threads in
    let (texts, done, e) =
      run-Writes_from hash (max threads 1) window_ms p es []
        (new-IsSharded hash window_ms interval capacity threads)
        (λ s k. inl (refl, look-new s k window_ms interval capacity threads)) in
    subst (Writes window_ms (batches window_ms [] es))
      (sym (e ∙ ap (λ w. w ++ texts) (new-written window_ms interval capacity threads))) done
