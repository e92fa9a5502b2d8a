-- ===== src/Aggregation/Determined.antt =====
-- The description of a window leaves no choice: two stats that describe the same trades are equal.
use mathlib.Core.Path.{subst}
use binance_aggregator.Prelude.{
  ◌≡◌, sym, ap, ◌∙◌, inl, inr, false, List, [], ◌∷◌, ℕ, Option, some, Bytes, arith, All, Any,
}
use binance_aggregator.StrictOrder.{text_order, nat_order}
use binance_aggregator.Decimal
use binance_aggregator.Decimal.{Decimal}
use binance_aggregator.Aggregation.{TradeEvent, WindowStats}
use binance_aggregator.Aggregation.Order.{WindowStats-eq}
use binance_aggregator.Aggregation.Summary.{Describes, Summary}

less_antisym : (a b : Decimal) → Decimal.less a b ≡ false → Decimal.less b a ≡ false → a ≡ b
unfolding Decimal.less
less_antisym a b h k = ground arith

-- A bound of all prices bounds one that occurs.
price_of_All :
    (P : Decimal → Type 0) (p : Decimal) (ts : List TradeEvent)
    → All (λ t. P t.price) ts
    → Any (λ t. t.price ≡ p) ts
    → P p
price_of_All P p [] a o = absurd o
price_of_All P p (t ∷ ts) a (inl e) = subst P e a.0
price_of_All P p (t ∷ ts) a (inr o) = price_of_All P p ts a.1 o

pub Describes-eq :
    (s : Bytes) (w : ℕ) (ts : List TradeEvent) (a b : WindowStats)
    → Describes s w ts a
    → Describes s w ts b
    → a ≡ b
Describes-eq s w ts a b x y =
    WindowStats-eq a b (x.symbol_key ∙ sym y.symbol_key) (x.start_key ∙ sym y.start_key)
      (x.trades ∙ sym y.trades) (x.volume ∙ sym y.volume)
      (less_antisym a.min_price b.min_price
        (price_of_All (λ p. Decimal.less p b.min_price ≡ false) a.min_price ts y.lowest
          x.lowest_occurs)
        (price_of_All (λ p. Decimal.less p a.min_price ≡ false) b.min_price ts x.lowest
          y.lowest_occurs))
      (less_antisym a.max_price b.max_price
        (price_of_All (λ p. Decimal.less a.max_price p ≡ false) b.max_price ts x.highest
          y.highest_occurs)
        (price_of_All (λ p. Decimal.less b.max_price p ≡ false) a.max_price ts y.highest
          x.highest_occurs))
      (x.buys ∙ sym y.buys) (x.sells ∙ sym y.sells)

no_window :
    (ts : List TradeEvent) (s : Bytes) (w : ℕ) (a : WindowStats) → ts ≡ [] → Describes s w ts a → ⊥
no_window [] s w a e d = d.lowest_occurs
no_window (t ∷ ts) s w a e d = absurd (cc)

-- A summary of given trades is one option.
pub Summary-eq :
    (s : Bytes) (w : ℕ) (ts : List TradeEvent) (a b : Option WindowStats)
    → Summary s w ts a
    → Summary s w ts b
    → a ≡ b
Summary-eq s w ts a b (inl (_, e)) (inl (_, f)) = e ∙ sym f
Summary-eq s w ts a b (inl (e, _)) (inr (y, _, d)) = absurd (no_window ts s w y e d)
Summary-eq s w ts a b (inr (x, _, d)) (inl (e, _)) = absurd (no_window ts s w x e d)
Summary-eq s w ts a b (inr (x, e, c)) (inr (y, f, d)) =
    e ∙ ap some (Describes-eq s w ts x y c d) ∙ sym f
