-- ===== src/Pipeline/Shards.antt =====
-- The shards seen as one aggregator: a lookup in all of them, kept by the routing of trades and by
-- the flushes.
use mathlib.Core.Path.{subst}
use binance_aggregator.Prelude.{
  ℕ, ◌+◌, ◌<◌, suc, zero, ◌≡◌, refl, sym, ap, ◌∙◌, inl, inr, Bool, true, false, List, [], ◌∷◌,
  Option, none, some, Bytes, arith, if◌then◌else◌, Bool-cases, ◌⊎◌, ◌&&◌, length,
}
use binance_aggregator.StrictOrder.{same, text_order, nat_order, eq_of_same}
use binance_aggregator.Aggregation.{
  TradeEvent, WindowStats, MarketDataAggregator, window_start, accumulate, add_trade, window_stats,
}
use binance_aggregator.Aggregation.Invariant.{IsValid, add_trade-IsValid}
use binance_aggregator.Aggregation.Lookup.{window_stats-add_trade}
use binance_aggregator.Writer.Lookup.{found, or_else, found-append, AreDistinct, AreDistinct-append}
use binance_aggregator.Pipeline.{Shard, modify, aggregate, extract_from}
use binance_aggregator.Pipeline.Merge.{Extraction}

-- The window of a symbol and a start, in whichever shard it is.
unfoldable pub look : Bytes → ℕ → List Shard → Option WindowStats
look s k [] = none
look s k (x ∷ xs) = or_else (window_stats x.aggregator s k) (look s k xs)

or_else-none : (a : Option WindowStats) → or_else a none ≡ a
or_else-none none = refl
or_else-none (some a) = refl

some-or_else :
    (b : Bool) (c : WindowStats) (x y : Option WindowStats)
    → or_else (if b then some c else x) y ≡ (if b then some c else or_else x y)
some-or_else true c x y = refl
some-or_else false c x y = refl

add_trade-window_ms :
    (a : MarketDataAggregator) (t : TradeEvent) → (add_trade a t).window_ms ≡ a.window_ms
unfolding add_trade
add_trade-window_ms a t = refl

-- After a trade, with the width of the windows given.
window_stats-add_trade_at :
    (n : ℕ) (a : MarketDataAggregator) (t : TradeEvent) (s : Bytes) (k : ℕ)
    → a.window_ms ≡ n
    → let start = window_start n t.trade_time_ms in
      window_stats (add_trade a t) s k ≡ (
        if same t.symbol s && same start k
        then some (accumulate t start (window_stats a t.symbol start))
        else window_stats a s k)
window_stats-add_trade_at n a t s k e =
    subst
      (λ m.
        let start = window_start m t.trade_time_ms in
        window_stats (add_trade a t) s k ≡ (
          if same t.symbol s && same start k
          then some (accumulate t start (window_stats a t.symbol start))
          else window_stats a s k))
      e (window_stats-add_trade a t s k)

-- `shard` gives the index of the shard of a symbol; `window_ms` is that of all shards.
module _ (shard : Bytes → ℕ) (window_ms : ℕ) where
  -- Shard number `j`: a valid aggregator that has windows only of its own symbols.
  pub record IsRouted (j : ℕ) (x : Shard) : Type 0 where
    pub valid : IsValid x.aggregator
    pub width : x.aggregator.window_ms ≡ window_ms
    pub own : (s : Bytes) (k : ℕ) → (shard s ≡ j) ⊎ (window_stats x.aggregator s k ≡ none)

  abbrev pub AreRouted : ℕ → List Shard → Type 0
  AreRouted j [] = Unit
  AreRouted j (x ∷ xs) = IsRouted j x × AreRouted (suc j) xs

  foreign :
      (j : ℕ) (x : Shard) (s : Bytes) (k : ℕ)
      → IsRouted j x
      → (shard s ≡ j → ⊥)
      → window_stats x.aggregator s k ≡ none
  foreign j x s k r h = elim (r.own s k) [ inl mine ↦ absurd (h mine) | inr fine ↦ fine ]

  look_past :
      (j : ℕ) (xs : List Shard) (s : Bytes) (k : ℕ)
      → AreRouted j xs
      → shard s < j
      → look s k xs ≡ none
  unfolding look
  look_past j [] s k r h = refl
  look_past j (x ∷ xs) s k r h =
      rw (foreign j x s k r.0 (λ e. omega arith), look_past (suc j) xs s k r.1 (omega arith)) refl

  -- Adding a trade in the shard of its symbol changes the lookups as add_trade does.
  pub look-modify :
      (t : TradeEvent) (s : Bytes) (k : ℕ) (j i : ℕ) (xs : List Shard)
      → AreRouted j xs
      → shard t.symbol ≡ j + i
      → i < length xs
      → let start = window_start window_ms t.trade_time_ms in
        look s k (modify i (aggregate t) xs) ≡ (
          if same t.symbol s && same start k
          then some (accumulate t start (look t.symbol start xs))
          else look s k xs)
  unfolding modify look aggregate
  look-modify t s k j i [] r e l = absurd (omega arith)
  look-modify t s k j zero (x ∷ xs) r e l =
      rw
        (
          window_stats-add_trade_at window_ms x.aggregator t s k r.0.width,
          look_past (suc j) xs t.symbol (window_start window_ms t.trade_time_ms) r.1 (omega arith),
          or_else-none
              (window_stats x.aggregator t.symbol (window_start window_ms t.trade_time_ms)),
        )
        (some-or_else (same t.symbol s && same (window_start window_ms t.trade_time_ms) k)
          (accumulate t (window_start window_ms t.trade_time_ms)
            (window_stats x.aggregator t.symbol (window_start window_ms t.trade_time_ms)))
          (window_stats x.aggregator s k) (look s k xs))
  look-modify t s k j (suc i) (x ∷ xs) r e l =
      rw
        (
          look-modify t s k (suc j) i xs r.1 (omega arith) (omega arith),
          foreign j x t.symbol (window_start window_ms t.trade_time_ms) r.0 (λ q. omega arith),
        )
        (elim (Bool-cases (same t.symbol s && same (window_start window_ms t.trade_time_ms) k)) [
          | inr miss ↦ rw miss refl
          | inl hit ↦
              let q = eq_of_same t.symbol s (ground arith) in
              let none_here : window_stats x.aggregator s k ≡ none =
                foreign j x s k r.0 (λ u. omega (arith, ap shard q)) in
              rw (hit, none_here) refl
        ])

  aggregate-IsRouted :
      (t : TradeEvent) (j : ℕ) (x : Shard)
      → IsRouted j x
      → shard t.symbol ≡ j
      → IsRouted j (aggregate t x)
  unfolding aggregate
  aggregate-IsRouted t j x r e = record {
    valid = add_trade-IsValid x.aggregator t r.valid;
    width = add_trade-window_ms x.aggregator t ∙ r.width;
    own = λ s k.
        rw (window_stats-add_trade x.aggregator t s k) (elim (Bool-cases (same t.symbol s)) [
          | inl hit ↦ inl (sym (ap shard (eq_of_same t.symbol s hit)) ∙ e)
          | inr miss ↦ rw miss (r.own s k)
        ]);
  }

  pub modify-AreRouted :
      (t : TradeEvent) (j i : ℕ) (xs : List Shard)
      → AreRouted j xs
      → shard t.symbol ≡ j + i
      → AreRouted j (modify i (aggregate t) xs)
  unfolding modify
  modify-AreRouted t j i [] r e = tt
  modify-AreRouted t j zero (x ∷ xs) r e = (aggregate-IsRouted t j x r.0 (omega arith), r.1)
  modify-AreRouted t j (suc i) (x ∷ xs) r e =
      (r.0, modify-AreRouted t (suc j) i xs r.1 (omega arith))

  module _ (extract : MarketDataAggregator → List WindowStats × MarketDataAggregator) (p : ℕ → Bool)
      (law : Extraction extract p) where
    pub extract_from-AreRouted :
        (j : ℕ) (xs : List Shard) → AreRouted j xs → AreRouted j (extract_from extract xs).1
    unfolding extract_from
    extract_from-AreRouted j [] r = tt
    extract_from-AreRouted j (x ∷ xs) r = (
      record {
        valid = law.valid x.aggregator r.0.valid;
        width = law.width x.aggregator ∙ r.0.width;
        own = λ s k.
            rw (law.left x.aggregator s k r.0.valid)
              (elim (r.0.own s k) [ inl mine ↦ inl mine | inr fine ↦ inr (ground (arith, fine)) ]);
      },
      extract_from-AreRouted (suc j) xs r.1,
    )

    -- What a flush leaves.
    pub look-extract_from :
        (s : Bytes) (k j : ℕ) (xs : List Shard)
        → AreRouted j xs
        → look s k (extract_from extract xs).1 ≡ (if p k then none else look s k xs)
    unfolding look extract_from
    look-extract_from s k j [] r = ground arith
    look-extract_from s k j (x ∷ xs) r =
        rw (law.left x.aggregator s k r.0.valid, look-extract_from s k (suc j) xs r.1)
          (ground arith)

    -- What a flush takes.
    pub found-extract_from :
        (s : Bytes) (k j : ℕ) (xs : List Shard)
        → AreRouted j xs
        → found s k (extract_from extract xs).0 ≡ (if p k then look s k xs else none)
    unfolding look extract_from found
    found-extract_from s k j [] r = ground arith
    found-extract_from s k j (x ∷ xs) r =
        found-append s k (extract x.aggregator).0 (extract_from extract xs).0
        ∙ rw (law.listed x.aggregator s k r.0.valid, found-extract_from s k (suc j) xs r.1)
            (ground arith)

    pub extract_from-AreDistinct :
        (j : ℕ) (xs : List Shard) → AreRouted j xs → AreDistinct (extract_from extract xs).0
    unfolding extract_from
    extract_from-AreDistinct j [] r = tt
    extract_from-AreDistinct j (x ∷ xs) r =
        AreDistinct-append (extract x.aggregator).0 (extract_from extract xs).0
          (law.distinct x.aggregator r.0.valid) (extract_from-AreDistinct (suc j) xs r.1)
          (λ s k.
            rw (law.listed x.aggregator s k r.0.valid, found-extract_from s k (suc j) xs r.1)
              (elim (r.0.own s k) [
                | inr fine ↦ inl (ground (arith, fine))
                | inl mine ↦ inr (ground (arith, look_past (suc j) xs s k r.1 (omega arith)))
              ]))
