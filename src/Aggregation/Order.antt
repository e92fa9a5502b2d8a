-- ===== src/Aggregation/Order.antt =====
-- The order in which trades arrive does not matter: the README's claim that aggregation within a
-- bucket is commutative, for the whole state of the aggregator.
use mathlib.Core.List.{Perm, Permᴰ}
use mathlib.Core.Logic.{∥∥₁_elim}
use binance_aggregator.Prelude.{
  ℕ, ◌≡◌, refl, sym, ap, ◌∙◌, List, [], ◌∷◌, Option, none, some, arith, if◌then◌else◌,
}
use binance_aggregator.StrictOrder.{text_order, nat_order, eq_of_same}
use binance_aggregator.OrdMap.{alter}
use binance_aggregator.OrdMap.Commute.{alter_comm_of}
use binance_aggregator.Decimal
use binance_aggregator.Decimal.{Decimal, zero_decimal}
use binance_aggregator.Decimal.Arith.{
  add_right_comm, lower_comm, higher_comm, lower_left_comm, higher_left_comm,
}
use binance_aggregator.Aggregation.{
  TradeEvent, WindowStats, SymbolWindows, MarketDataAggregator, window_start, increment, accumulate,
  count, widen, fresh_stats, windows_or_empty, add_trade,
}

pub WindowStats-eq :
    (a b : WindowStats)
    → a.symbol ≡ b.symbol
    → a.window_start_ms ≡ b.window_start_ms
    → a.trade_count ≡ b.trade_count
    → a.total_volume ≡ b.total_volume
    → a.min_price ≡ b.min_price
    → a.max_price ≡ b.max_price
    → a.buyer_initiated_count ≡ b.buyer_initiated_count
    → a.seller_initiated_count ≡ b.seller_initiated_count
    → a ≡ b
WindowStats-eq a b p q r s t u v w = λ i. record {
  symbol = p i;
  window_start_ms = q i;
  trade_count = r i;
  total_volume = s i;
  min_price = t i;
  max_price = u i;
  buyer_initiated_count = v i;
  seller_initiated_count = w i;
}

module _ (t u : TradeEvent) where
  makers_comm :
      (n : ℕ)
      → (if u.buyer_is_maker
          then (if t.buyer_is_maker then n else increment n)
          else increment (if t.buyer_is_maker then n else increment n))
        ≡ (if t.buyer_is_maker
            then (if u.buyer_is_maker then n else increment n)
            else increment (if u.buyer_is_maker then n else increment n))
  makers_comm n = ground arith

  takers_comm :
      (n : ℕ)
      → (if u.buyer_is_maker
          then increment (if t.buyer_is_maker then increment n else n)
          else (if t.buyer_is_maker then increment n else n))
        ≡ (if t.buyer_is_maker
            then increment (if u.buyer_is_maker then increment n else n)
            else (if u.buyer_is_maker then increment n else n))
  takers_comm n = ground arith

  count-widen_comm :
      (stats : WindowStats)
      → count u (widen u (count t (widen t stats))) ≡ count t (widen t (count u (widen u stats)))
  unfolding count widen
  count-widen_comm stats =
      WindowStats-eq _ _ refl refl refl
        (add_right_comm stats.total_volume (Decimal.mul t.price t.quantity)
          (Decimal.mul u.price u.quantity))
        (lower_left_comm u.price t.price stats.min_price)
        (higher_left_comm u.price t.price stats.max_price) (makers_comm stats.buyer_initiated_count)
        (takers_comm stats.seller_initiated_count)

  count-fresh_comm :
      (w : ℕ)
      → t.symbol ≡ u.symbol
      → count u (widen u (count t (fresh_stats t w)))
        ≡ count t (widen t (count u (fresh_stats u w)))
  unfolding count widen fresh_stats
  count-fresh_comm w e =
      WindowStats-eq _ _ e refl refl
        (add_right_comm zero_decimal (Decimal.mul t.price t.quantity)
          (Decimal.mul u.price u.quantity))
        (lower_comm u.price t.price) (higher_comm u.price t.price) (makers_comm 0) (takers_comm 0)

  accumulate_comm :
      (w : ℕ) (old : Option WindowStats)
      → t.symbol ≡ u.symbol
      → accumulate u w (some (accumulate t w old)) ≡ accumulate t w (some (accumulate u w old))
  unfolding accumulate
  accumulate_comm w none e = count-fresh_comm w e
  accumulate_comm w (some stats) e = count-widen_comm stats

  -- Two trades of one symbol, on its windows.
  windows_comm :
      (v w : ℕ) (m : SymbolWindows)
      → t.symbol ≡ u.symbol
      → alter w (accumulate u w) (alter v (accumulate t v) m)
        ≡ alter v (accumulate t v) (alter w (accumulate u w) m)
  windows_comm v w m e =
      alter_comm_of w v (accumulate u w) (accumulate t v) m
        λ one old. rw (eq_of_same w v one) (accumulate_comm v old e)

  -- Two trades leave the aggregator in the same state in either order.
  pub add_trade_comm :
      (agg : MarketDataAggregator) → add_trade (add_trade agg t) u ≡ add_trade (add_trade agg u) t
  unfolding add_trade
  add_trade_comm agg =
      ap (λ m. record agg { windows = m })
        (alter_comm_of u.symbol t.symbol _ _ agg.windows λ one old.
          windows_comm (start_at t) (start_at u) (windows_or_empty old) (sym (eq_of_same _ _ one)))
    where
      start_at : TradeEvent → ℕ
      start_at x = window_start agg.window_ms x.trade_time_ms

MarketDataAggregator-set : IsSet MarketDataAggregator
MarketDataAggregator-set = hlevel

-- A batch of trades.
pub add_trades : MarketDataAggregator → List TradeEvent → MarketDataAggregator
add_trades agg [] = agg
add_trades agg (t ∷ ts) = add_trades (add_trade agg t) ts

add_trades-permᴰ :
    {ts us : List TradeEvent} (agg : MarketDataAggregator)
    → Permᴰ ts us
    → add_trades agg ts ≡ add_trades agg us
unfolding add_trades
add_trades-permᴰ agg Permᴰ.nil = refl
add_trades-permᴰ agg (Permᴰ.cons {a} {b} {l₁} {l₂} e p) =
    rw e (add_trades-permᴰ (add_trade agg b) p)
add_trades-permᴰ agg (Permᴰ.swap {a} {b} {a'} {b'} {l} e f) =
    rw (e, f) (ap (λ s. add_trades s l) (add_trade_comm b' a' agg))
add_trades-permᴰ agg (Permᴰ.trans p q) = add_trades-permᴰ agg p ∙ add_trades-permᴰ agg q

-- A batch leaves the aggregator in the same state in whatever order its trades arrive.
pub add_trades-perm :
    (agg : MarketDataAggregator) {ts us : List TradeEvent}
    → Perm ts us
    → add_trades agg ts ≡ add_trades agg us
add_trades-perm agg p = ∥∥₁_elim p (MarketDataAggregator-set _ _) (add_trades-permᴰ agg)
