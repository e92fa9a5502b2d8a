-- ===== src/Pipeline/Twice.antt =====
-- The second call of stop(), which the destructor of MarketDataPipeline makes behind main's
-- (app/src/runtime/MarketDataPipeline.cpp).
use binance_aggregator.Prelude.{◌≡◌, refl, ap, ◌∙◌, List, [], ◌∷◌, ◌++◌, append-nil}
use binance_aggregator.Aggregation.{WindowStats, extract_all_windows, all_windows}
use binance_aggregator.Writer.{write_windows}
use binance_aggregator.Pipeline.{
  Shard, MarketDataPipeline, extract_from, flush, flush_remaining_windows,
}

extract_from-twice :
    (xs : List Shard)
    → extract_from extract_all_windows ((extract_from extract_all_windows xs).1)
      ≡ ([], (extract_from extract_all_windows xs).1)
unfolding extract_from extract_all_windows all_windows
extract_from-twice [] = refl
extract_from-twice (x ∷ xs) =
    ap (λ r. (r.0, record x { aggregator = (extract_all_windows x.aggregator).1 } ∷ r.1))
      (extract_from-twice xs)

-- A flush of what remains, behind another one, writes nothing and changes nothing.
pub flush_remaining_windows-twice :
    (p : MarketDataPipeline)
    → flush_remaining_windows (flush_remaining_windows p) ≡ flush_remaining_windows p
unfolding flush_remaining_windows flush write_windows
flush_remaining_windows-twice p =
    let first : List WindowStats × List Shard = extract_from extract_all_windows p.shards in
    ap
      (λ r. record p {
        shards = r.1;
        written = (p.written ++ write_windows (first.0)) ++ write_windows (r.0);
      })
      (extract_from-twice p.shards)
    ∙ ap (λ w. record p { shards = first.1; written = w })
        (append-nil (p.written ++ write_windows (first.0)))
