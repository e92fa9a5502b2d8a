-- ===== src/Pipeline/Sharded.antt =====
-- The pipeline's shards under events: where windows are, and what lookups become.
use mathlib.Core.Path.{subst}
use native.Mathlib.Nat.{mod-lt}
use binance_aggregator.Prelude.{
  ℕ, ◌-◌, ◌<◌, suc, zero, ◌≡◌, refl, sym, ap, ◌∙◌, inr, Bool, List, [], ◌∷◌, Option, none, some,
  Bytes, arith, ltb, if◌then◌else◌, ◌&&◌, ◌%◌, length, replicate, length-replicate,
}
use binance_aggregator.StrictOrder.{same, text_order, nat_order}
use binance_aggregator.OrdMap.{find}
use binance_aggregator.Aggregation
use binance_aggregator.Aggregation.{
  TradeEvent, WindowStats, MarketDataAggregator, window_start, accumulate, window_stats,
  extract_all_windows, extract_completed_windows,
}
use binance_aggregator.Aggregation.Invariant.{IsValid, new-IsValid}
use binance_aggregator.Writer.Lookup.{or_else}
use binance_aggregator.Pipeline.{
  Shard, MarketDataPipeline, new, max, shard_index_for_symbol, modify, aggregate, extract_from,
  flush, flush_completed_windows, flush_remaining_windows, Event, traded, ticked, stopped, handle,
}
use binance_aggregator.Pipeline.Merge.{
  Extraction, extract_all_windows-Extraction, extract_completed_windows-Extraction,
}
use binance_aggregator.Pipeline.Shards.{
  look, AreRouted, look-modify, modify-AreRouted, extract_from-AreRouted, look-extract_from,
}

-- A pipeline of `n` shards with windows of `window_ms`, whose windows are where their symbols go.
pub record IsSharded (hash : Bytes → ℕ) (n window_ms : ℕ) (p : MarketDataPipeline) : Type 0 where
  pub some_shard : 0 < n
  pub shard_count : length p.shards ≡ n
  pub width : p.window_ms ≡ window_ms
  pub routed : AreRouted (λ s. hash s % n) window_ms 0 p.shards

pub length-modify :
    (i : ℕ) (f : Shard → Shard) (xs : List Shard) → length (modify i f xs) ≡ length xs
unfolding modify
length-modify i f [] = refl
length-modify zero f (x ∷ xs) = refl
length-modify (suc i) f (x ∷ xs) = omega (arith, length-modify i f xs)

pub length-extract_from :
    (extract : MarketDataAggregator → List WindowStats × MarketDataAggregator) (xs : List Shard)
    → length (extract_from extract xs).1 ≡ length xs
unfolding extract_from
length-extract_from extract [] = refl
length-extract_from extract (x ∷ xs) = omega (arith, length-extract_from extract xs)

-- What window lookups become, whatever the shards.
abbrev pub lookups_after :
    ℕ → (Bytes → ℕ → Option WindowStats) → Event → Bytes → ℕ → Option WindowStats
lookups_after window_ms V (traded t) s k =
    let start = window_start window_ms t.trade_time_ms in
    if same t.symbol s && same start k then some (accumulate t start (V t.symbol start)) else V s k
lookups_after window_ms V (ticked now) s k = if ltb k (now - now % window_ms) then none else V s k
lookups_after window_ms V stopped s k = none

window_stats-new :
    (window_ms : ℕ) (s : Bytes) (k : ℕ) → window_stats (Aggregation.new window_ms) s k ≡ none
unfolding window_stats find
window_stats-new window_ms s k = refl

module _ (hash : Bytes → ℕ) (n window_ms : ℕ) where
  flush-IsSharded :
      (extract : MarketDataAggregator → List WindowStats × MarketDataAggregator) (b : ℕ → Bool)
      (p : MarketDataPipeline)
      → Extraction extract b
      → IsSharded hash n window_ms p
      → IsSharded hash n window_ms (flush extract p)
  unfolding flush
  flush-IsSharded extract b p law v = record {
    some_shard = v.some_shard;
    shard_count = length-extract_from extract p.shards ∙ v.shard_count;
    width = v.width;
    routed = extract_from-AreRouted (λ s. hash s % n) window_ms extract b law 0 p.shards v.routed;
  }

  index-eq :
      (p : MarketDataPipeline) (s : Bytes)
      → IsSharded hash n window_ms p
      → hash s % n ≡ shard_index_for_symbol hash p s
  unfolding shard_index_for_symbol
  index-eq p s v = ap (λ k. hash s % k) (sym v.shard_count)

  index_bound :
      (p : MarketDataPipeline) (s : Bytes)
      → IsSharded hash n window_ms p
      → shard_index_for_symbol hash p s < length p.shards
  index_bound p s v = omega (arith, index-eq p s v, v.shard_count, mod-lt (hash s) v.some_shard)

  pub handle-IsSharded :
      (p : MarketDataPipeline) (e : Event)
      → IsSharded hash n window_ms p
      → IsSharded hash n window_ms (handle hash p e)
  unfolding handle flush_completed_windows flush_remaining_windows
  handle-IsSharded p (traded t) v = record {
    some_shard = v.some_shard;
    shard_count =
        length-modify (shard_index_for_symbol hash p t.symbol) (aggregate t) p.shards
        ∙ v.shard_count;
    width = v.width;
    routed =
        modify-AreRouted (λ s. hash s % n) window_ms t 0 (shard_index_for_symbol hash p t.symbol)
          p.shards v.routed (omega (arith, index-eq p t.symbol v));
  }
  handle-IsSharded p (ticked now) v =
      flush-IsSharded _ _ p (extract_completed_windows-Extraction (now - now % p.window_ms)) v
  handle-IsSharded p stopped v = flush-IsSharded _ _ p extract_all_windows-Extraction v

  -- The lookups after an event, from those before it.
  pub look-handle :
      (p : MarketDataPipeline) (e : Event) (s : Bytes) (k : ℕ)
      → IsSharded hash n window_ms p
      → look s k (handle hash p e).shards ≡ lookups_after window_ms (λ t j. look t j p.shards) e s k
  unfolding handle flush_completed_windows flush_remaining_windows flush
  look-handle p (traded t) s k v =
      look-modify (λ s. hash s % n) window_ms t s k 0 (shard_index_for_symbol hash p t.symbol)
        p.shards v.routed (omega (arith, index-eq p t.symbol v)) (index_bound p t.symbol v)
  look-handle p (ticked now) s k v =
      look-extract_from (λ s. hash s % n) window_ms _ _
        (extract_completed_windows-Extraction (now - now % p.window_ms)) s k 0 p.shards v.routed
      ∙ ap (λ w. if ltb k (now - now % w) then none else look s k p.shards) v.width
  look-handle p stopped s k v =
      look-extract_from (λ s. hash s % n) window_ms _ _ extract_all_windows-Extraction s k 0
        p.shards v.routed

fresh-AreRouted :
    (shard : Bytes → ℕ) (window_ms j n : ℕ) (x : Shard)
    → x.aggregator ≡ Aggregation.new window_ms
    → AreRouted shard window_ms j (replicate n x)
fresh-AreRouted shard window_ms j zero x e = tt
fresh-AreRouted shard window_ms j (suc n) x e = (
  record {
    valid = subst IsValid (sym e) (new-IsValid window_ms);
    width = ap (λ a. a.window_ms) e;
    own = λ s k. inr (ap (λ a. window_stats a s k) e ∙ window_stats-new window_ms s k);
  },
  fresh-AreRouted shard window_ms (suc j) n x e,
)

look-fresh :
    (s : Bytes) (k window_ms n : ℕ) (x : Shard)
    → x.aggregator ≡ Aggregation.new window_ms
    → look s k (replicate n x) ≡ none
unfolding look
look-fresh s k window_ms zero x e = refl
look-fresh s k window_ms (suc n) x e =
    ap (λ a. or_else (window_stats a s k) (look s k (replicate n x))) e
    ∙ ap (λ y. or_else y (look s k (replicate n x))) (window_stats-new window_ms s k)
    ∙ look-fresh s k window_ms n x e

pub new-IsSharded :
    (hash : Bytes → ℕ) (window_ms interval capacity threads : ℕ)
    → IsSharded hash (max threads 1) window_ms (new window_ms interval capacity threads)
unfolding new
new-IsSharded hash window_ms interval capacity threads = record {
  some_shard = ground arith;
  shard_count = length-replicate (max threads 1) _;
  width = refl;
  routed = fresh-AreRouted (λ s. hash s % max threads 1) window_ms 0 (max threads 1) _ refl;
}

pub look-new :
    (s : Bytes) (k window_ms interval capacity threads : ℕ)
    → look s k (new window_ms interval capacity threads).shards ≡ none
unfolding new
look-new s k window_ms interval capacity threads = look-fresh s k window_ms (max threads 1) _ refl

pub new-written :
    (window_ms interval capacity threads : ℕ)
    → (new window_ms interval capacity threads).written ≡ []
unfolding new
new-written window_ms interval capacity threads = refl
