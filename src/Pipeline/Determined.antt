-- ===== src/Pipeline/Determined.antt =====
-- What a flush of app/src/runtime/MarketDataPipeline.cpp writes is determined by the trades it takes.
use binance_aggregator.Prelude.{ℕ, ◌≡◌, refl, List, Bytes}
use binance_aggregator.StrictOrder.{text_order, nat_order}
use binance_aggregator.Aggregation.{TradeEvent, WindowStats}
use binance_aggregator.Aggregation.Summary.{bucket}
use binance_aggregator.Aggregation.Determined.{Summary-eq}
use binance_aggregator.Writer.{write_windows}
use binance_aggregator.Writer.Lookup.{found}
use binance_aggregator.Writer.Unique.{write_windows-found}
use binance_aggregator.Pipeline.Accounts.{Reports, Writes}

-- Two lists of windows that report the same trades are written as the same texts.
pub write_windows-Reports :
    (window_ms : ℕ) (ts : List TradeEvent) (xs ys : List WindowStats)
    → Reports window_ms ts xs
    → Reports window_ms ts ys
    → write_windows xs ≡ write_windows ys
write_windows-Reports m ts xs ys a b = write_windows-found xs ys a.distinct b.distinct (λ s k.
    Summary-eq s k (bucket m s k ts) (found s k xs) (found s k ys) (a.summaries s k)
      (b.summaries s k))

-- The trades that are taken flush by flush determine what is written: two lists of texts that
-- are each, flush by flush, what write_windows makes of distinct windows that report the trades of
-- the flush are the same list.
pub Writes-eq :
    (window_ms : ℕ) {parts : List (List TradeEvent)} {texts others : List Bytes}
    → Writes window_ms parts texts
    → Writes window_ms parts others
    → texts ≡ others
Writes-eq m Writes.nothing Writes.nothing = refl
Writes-eq m (Writes.writes {ts = ts} {windows = xs} r w) (Writes.writes {windows = ys} q v) =
    rw (write_windows-Reports m ts xs ys r q, Writes-eq m w v) refl
