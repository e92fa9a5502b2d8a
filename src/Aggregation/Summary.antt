-- ===== src/Aggregation/Summary.antt =====
-- The specification of the stats: what they say of the trades that fell into their window.
use mathlib.Core.Path.{subst, subst₂}
use binance_aggregator.Prelude.{
  ℕ, ◌%◌, ◌≡◌, refl, sym, ◌⊎◌, inl, inr, Bool, true, false, not, ◌&&◌, List, [], ◌∷◌, Option, none,
  some, Bytes, arith, length, keep, All, All-map, Any, if◌then◌else◌, Bool-cases,
}
use binance_aggregator.Prelude.Int.{ℤ, pos, ◌+ℤ◌, wrap, u64_mod}
use binance_aggregator.StrictOrder.{same, text_order, nat_order, eq_of_same}
use binance_aggregator.OrdMap.{find}
use binance_aggregator.Decimal
use binance_aggregator.Decimal.{Decimal, from_raw, zero_decimal}
use binance_aggregator.Decimal.Arith.{add-wrap, zero_wrapped, lower, higher}
use binance_aggregator.Aggregation.{
  TradeEvent, WindowStats, MarketDataAggregator, new, window_start, increment, accumulate, count,
  widen, fresh_stats, add_trade, window_stats,
}
use binance_aggregator.Aggregation.Lookup.{window_stats-add_trade}

-- The aggregator after a history of trades, the latest one first.
pub after : ℕ → List TradeEvent → MarketDataAggregator
after window_ms [] = new window_ms
after window_ms (t ∷ ts) = add_trade (after window_ms ts) t

-- The trades of a history that belong to a symbol and to the window that starts at `w`.
abbrev pub belongs : ℕ → Bytes → ℕ → TradeEvent → Bool
belongs window_ms s w t = same t.symbol s && same (window_start window_ms t.trade_time_ms) w

abbrev pub bucket : ℕ → Bytes → ℕ → List TradeEvent → List TradeEvent
bucket window_ms s w = keep (belongs window_ms s w)

-- price * quantity, as the program rounds it.
abbrev pub notional : TradeEvent → ℤ
notional t = (Decimal.mul t.price t.quantity).raw

abbrev pub turnover : List TradeEvent → ℤ
turnover [] = pos 0
turnover (t ∷ ts) = notional t +ℤ turnover ts

abbrev pub sold : TradeEvent → Bool
sold t = t.buyer_is_maker

abbrev pub bought : TradeEvent → Bool
bought t = not t.buyer_is_maker

-- The stats count the trades of the bucket, sum their notional values, and bound their prices by
-- two prices that occur; counters are modulo 2 ^ 64 and the sum is cut to an int64_t once.
pub record Describes (s : Bytes) (w : ℕ) (ts : List TradeEvent) (stats : WindowStats) : Type 0 where
  pub symbol_key : stats.symbol ≡ s
  pub start_key : stats.window_start_ms ≡ w
  pub trades : stats.trade_count ≡ length ts % u64_mod
  pub volume : stats.total_volume ≡ from_raw (wrap (turnover ts))
  pub lowest : All (λ t. Decimal.less t.price stats.min_price ≡ false) ts
  pub lowest_occurs : Any (λ t. t.price ≡ stats.min_price) ts
  pub highest : All (λ t. Decimal.less stats.max_price t.price ≡ false) ts
  pub highest_occurs : Any (λ t. t.price ≡ stats.max_price) ts
  pub buys : stats.buyer_initiated_count ≡ length (keep bought ts) % u64_mod
  pub sells : stats.seller_initiated_count ≡ length (keep sold ts) % u64_mod

-- A window is there exactly if a trade fell into it.
abbrev pub Summary : Bytes → ℕ → List TradeEvent → Option WindowStats → Type 0
Summary s w ts found =
    ((ts ≡ []) × (found ≡ none))
    ⊎ ((stats : WindowStats) × (found ≡ some stats) × Describes s w ts stats)

less_irrefl : (d : Decimal) → Decimal.less d d ≡ false
unfolding Decimal.less
less_irrefl d = ground arith

not-less-lower : (p q m : Decimal) → Decimal.less q m ≡ false → Decimal.less q (lower p m) ≡ false
unfolding Decimal.less
not-less-lower p q m h = ground arith

not-less-lower_left : (p m : Decimal) → Decimal.less p (lower p m) ≡ false
unfolding Decimal.less
not-less-lower_left p m = ground arith

not-higher-less : (p q m : Decimal) → Decimal.less m q ≡ false → Decimal.less (higher p m) q ≡ false
unfolding Decimal.less
not-higher-less p q m h = ground arith

not-higher-less_left : (p m : Decimal) → Decimal.less (higher p m) p ≡ false
unfolding Decimal.less
not-higher-less_left p m = ground arith

-- A chosen price occurs if the other one does.
occurs :
    (b : Bool) (p m : Decimal) (ts : List TradeEvent)
    → Any (λ x. x.price ≡ m) ts
    → (p ≡ (if b then p else m)) ⊎ Any (λ x. x.price ≡ (if b then p else m)) ts
occurs true p m ts h = inl refl
occurs false p m ts h = inr h

module _ (t : TradeEvent) (w : ℕ) where
  counted_first : Describes t.symbol w (t ∷ []) (count t (fresh_stats t w))
  unfolding count fresh_stats increment
  counted_first = record {
    symbol_key = refl;
    start_key = refl;
    trades = refl;
    volume = rw zero_wrapped (add-wrap (pos 0) (Decimal.mul t.price t.quantity));
    lowest = (less_irrefl t.price, tt);
    lowest_occurs = inl refl;
    highest = (less_irrefl t.price, tt);
    highest_occurs = inl refl;
    buys = ground arith;
    sells = ground arith;
  }

  counted_next :
      (ts : List TradeEvent) (stats : WindowStats)
      → Describes t.symbol w ts stats
      → Describes t.symbol w (t ∷ ts) (count t (widen t stats))
  unfolding count widen increment
  counted_next ts stats h = record {
    symbol_key = h.symbol_key;
    start_key = h.start_key;
    trades = omega (arith, h.trades);
    volume = rw h.volume (add-wrap (turnover ts) (Decimal.mul t.price t.quantity));
    lowest = (
      not-less-lower_left t.price stats.min_price,
      All-map _ _ ts (λ x. not-less-lower t.price x.price stats.min_price) h.lowest,
    );
    lowest_occurs =
        occurs (Decimal.less t.price stats.min_price) t.price stats.min_price ts h.lowest_occurs;
    highest = (
      not-higher-less_left t.price stats.max_price,
      All-map _ _ ts (λ x. not-higher-less t.price x.price stats.max_price) h.highest,
    );
    highest_occurs =
        occurs (Decimal.less stats.max_price t.price) t.price stats.max_price ts h.highest_occurs;
    buys = ground (arith, h.buys);
    sells = ground (arith, h.sells);
  }

  accumulate-Describes :
      (ts : List TradeEvent) (old : Option WindowStats)
      → Summary t.symbol w ts old
      → Describes t.symbol w (t ∷ ts) (accumulate t w old)
  unfolding accumulate
  accumulate-Describes ts none (inl (e, _)) = rw e counted_first
  accumulate-Describes ts none (inr (stats, e, d)) = absurd (cc)
  accumulate-Describes ts (some stats) (inl (_, e)) = absurd (cc)
  accumulate-Describes ts (some stats) (inr (x, e, d)) =
      counted_next ts stats (subst (Describes t.symbol w ts) (sym same_stats) d)
    where
      same_stats : stats ≡ x
      same_stats = cc

after-window_ms : (n : ℕ) (ts : List TradeEvent) → (after n ts).window_ms ≡ n
unfolding after add_trade
after-window_ms n [] = refl
after-window_ms n (t ∷ ts) = after-window_ms n ts

window_stats-after :
    (n : ℕ) (t : TradeEvent) (ts : List TradeEvent) (s : Bytes) (w : ℕ)
    → let start = window_start n t.trade_time_ms in
      window_stats (add_trade (after n ts) t) s w ≡ (
        if belongs n s w t
        then some (accumulate t start (window_stats (after n ts) t.symbol start))
        else window_stats (after n ts) s w)
window_stats-after n t ts s w =
    subst
      (λ k.
        let start = window_start k t.trade_time_ms in
        window_stats (add_trade (after n ts) t) s w ≡ (
          if belongs k s w t
          then some (accumulate t start (window_stats (after n ts) t.symbol start))
          else window_stats (after n ts) s w))
      (after-window_ms n ts) (window_stats-add_trade (after n ts) t s w)

-- The lookups after one more trade, from those before it.
pub accumulate-Summary :
    (n : ℕ) (t : TradeEvent) (ts : List TradeEvent) (V : Bytes → ℕ → Option WindowStats)
    → ((s : Bytes) (w : ℕ) → Summary s w (bucket n s w ts) (V s w))
    → (s : Bytes) (w : ℕ)
    → let start = window_start n t.trade_time_ms in
      Summary s w
        (bucket n s w (t ∷ ts))
        (if belongs n s w t then some (accumulate t start (V t.symbol start)) else V s w)
accumulate-Summary n t ts V h s w = elim (Bool-cases (belongs n s w t)) [
  | inr miss ↦ rw miss (h s w)
  | inl mine ↦ rw mine (inr (_, refl, moved mine))
]
  where
    start : ℕ
    start = window_start n t.trade_time_ms

    moved :
        belongs n s w t ≡ true
        → Describes s w (t ∷ bucket n s w ts) (accumulate t start (V t.symbol start))
    moved mine =
        subst₂ (λ x y. Describes x y (t ∷ bucket n x y ts) (accumulate t start (V t.symbol start)))
          (eq_of_same t.symbol s (ground arith)) (eq_of_same start w (ground arith))
          (accumulate-Describes t start (bucket n t.symbol start ts) (V t.symbol start)
            (h t.symbol start))

-- After any list of trades added to a new aggregator, every lookup gives the summary of the trades
-- of that symbol and window: no window if there are none, and otherwise their number and the
-- numbers of both sides modulo 2 ^ 64, the sum of their notional values cut to int64_t once, and
-- the lowest and the highest price that occur.
pub window_stats-Summary :
    (n : ℕ) (ts : List TradeEvent) (s : Bytes) (w : ℕ)
    → Summary s w (bucket n s w ts) (window_stats (after n ts) s w)
unfolding after
window_stats-Summary n [] s w = inl (refl, unfold window_stats find in refl)
window_stats-Summary n (t ∷ ts) s w =
    rw (window_stats-after n t ts s w)
      (accumulate-Summary n t ts (window_stats (after n ts)) (window_stats-Summary n ts) s w)
