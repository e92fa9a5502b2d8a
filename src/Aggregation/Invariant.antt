-- ===== src/Aggregation/Invariant.antt =====
-- The representation invariant of the aggregator: every operation keeps it.
use native.Mathlib.Nat.{mod-add-div, mul-mod_right}
use binance_aggregator.Prelude.{
  ℕ, ◌+◌, ◌-◌, ◌*◌, ◌%◌, ◌≡◌, ◌≢◌, refl, true, false, [], ◌∷◌, none, some, Bytes, arith, ltb,
  Bool-cases, inl, inr, ◌/◌,
}
use binance_aggregator.Prelude.Int.{u64_mod}
use binance_aggregator.StrictOrder.{text_order, nat_order, text_lt}
use binance_aggregator.OrdMap.{OrdMap, alter, IsSorted, Above}
use binance_aggregator.OrdMap.Laws.{alter-IsSorted}
use binance_aggregator.OrdMap.Entries.{Entries, Entries-alter, alter-ne-nil}
use binance_aggregator.Decimal
use binance_aggregator.Decimal.{Decimal}
use binance_aggregator.Aggregation.{
  TradeEvent, WindowStats, SymbolWindows, MarketDataAggregator, new, window_start, fresh_stats,
  widen, count, accumulate, add_trade, take_completed, take_all_completed, put_back,
  extract_completed_windows, extract_all_windows,
}

-- The stats under symbol `s` and start `w`: filed under their own key, at a start of the grid, with
-- counters that agree, and with the lowest price not above the highest.
pub record IsFiled (window_ms : ℕ) (s : Bytes) (w : ℕ) (stats : WindowStats) : Type 0 where
  pub symbol_key : stats.symbol ≡ s
  pub start_key : stats.window_start_ms ≡ w
  pub on_grid : w % window_ms ≡ 0
  pub counters :
      (stats.buyer_initiated_count + stats.seller_initiated_count) % u64_mod ≡ stats.trade_count
  pub prices : Decimal.less stats.max_price stats.min_price ≡ false

-- The windows of one symbol: some, in order, each one filed.
pub record AreFiled (window_ms : ℕ) (s : Bytes) (m : SymbolWindows) : Type 0 where
  pub some_window : m ≢ []
  pub in_order : IsSorted m
  pub filed : Entries (IsFiled window_ms s) m

pub record IsValid (agg : MarketDataAggregator) : Type 0 where
  pub symbols_in_order : IsSorted agg.windows
  pub symbols_filed : Entries (AreFiled agg.window_ms) agg.windows

pub new-IsValid : (window_ms : ℕ) → IsValid (new window_ms)
new-IsValid window_ms = record { symbols_in_order = tt; symbols_filed = tt }

window_start_on_grid : (n time : ℕ) → window_start n time % n ≡ 0
unfolding window_start
window_start_on_grid n time =
    let multiple : time - time % n ≡ n * (time / n) = omega (arith, mod-add-div time n) in
    rw multiple (mul-mod_right n (time / n))

less_irrefl : (d : Decimal) → Decimal.less d d ≡ false
unfolding Decimal.less
less_irrefl d = ground arith

module _ (n : ℕ) (t : TradeEvent) where
  start : ℕ
  start = window_start n t.trade_time_ms

  count-IsFiled :
      (stats : WindowStats)
      → IsFiled n t.symbol start stats
      → IsFiled n t.symbol start (count t stats)
  unfolding count
  count-IsFiled stats h = ground arith

  fresh_stats-IsFiled : IsFiled n t.symbol start (fresh_stats t start)
  unfolding fresh_stats
  fresh_stats-IsFiled = record {
    symbol_key = refl;
    start_key = refl;
    on_grid = unfold start in window_start_on_grid n t.trade_time_ms;
    counters = refl;
    prices = less_irrefl t.price;
  }

  widen-IsFiled :
      (stats : WindowStats)
      → IsFiled n t.symbol start stats
      → IsFiled n t.symbol start (widen t stats)
  unfolding widen Decimal.less
  widen-IsFiled stats h = ground arith

  fresh-IsFiled : IsFiled n t.symbol start (accumulate t start none)
  unfolding accumulate
  fresh-IsFiled = count-IsFiled _ fresh_stats-IsFiled

  accumulate-IsFiled :
      (stats : WindowStats)
      → IsFiled n t.symbol start stats
      → IsFiled n t.symbol start (accumulate t start (some stats))
  unfolding accumulate
  accumulate-IsFiled stats h = count-IsFiled _ (widen-IsFiled stats h)

  alter-AreFiled :
      (m : SymbolWindows)
      → IsSorted m
      → Entries (IsFiled n t.symbol) m
      → AreFiled n t.symbol (alter start (accumulate t start) m)
  alter-AreFiled m s h = record {
    some_window = alter-ne-nil start (accumulate t start) m;
    in_order = alter-IsSorted start (accumulate t start) m s;
    filed =
        Entries-alter (IsFiled n t.symbol) start (accumulate t start) m fresh-IsFiled
          accumulate-IsFiled h;
  }

pub add_trade-IsValid :
    (agg : MarketDataAggregator) (t : TradeEvent) → IsValid agg → IsValid (add_trade agg t)
unfolding add_trade
add_trade-IsValid agg t v = record {
  symbols_in_order = alter-IsSorted t.symbol _ agg.windows v.symbols_in_order;
  symbols_filed =
      Entries-alter (AreFiled agg.window_ms) t.symbol _ agg.windows
        (unfold start in alter-AreFiled agg.window_ms t [] tt tt)
        (λ m h. unfold start in alter-AreFiled agg.window_ms t m h.in_order h.filed)
        v.symbols_filed;
}

pub extract_all_windows-IsValid : (agg : MarketDataAggregator) → IsValid (extract_all_windows agg).1
unfolding extract_all_windows
extract_all_windows-IsValid agg = record { symbols_in_order = tt; symbols_filed = tt }

module _ (current : ℕ) where
  take_completed-Above :
      (w : ℕ) (m : SymbolWindows) → Above w m → Above w (take_completed current m).1
  unfolding take_completed
  take_completed-Above w [] h = tt
  take_completed-Above w ((v, stats) ∷ m) h = ground (arith, take_completed-Above w m h.1)

  take_completed-IsSorted : (m : SymbolWindows) → IsSorted m → IsSorted (take_completed current m).1
  unfolding take_completed
  take_completed-IsSorted [] s = tt
  take_completed-IsSorted ((v, stats) ∷ m) s =
      ground (arith, take_completed-IsSorted m s.1, take_completed-Above v m s.0)

  take_completed-Entries :
      (P : ℕ → WindowStats → Type 0) (m : SymbolWindows)
      → Entries P m
      → Entries P (take_completed current m).1
  unfolding take_completed
  take_completed-Entries P [] h = tt
  take_completed-Entries P ((v, stats) ∷ m) h = elim (Bool-cases (ltb v current)) [
    | inl done ↦ rw done (take_completed-Entries P m h.1)
    | inr kept ↦ rw kept (h.0, take_completed-Entries P m h.1)
  ]

  put_back-Above :
      (s s' : Bytes) (m : SymbolWindows) (rest : OrdMap Bytes SymbolWindows)
      → text_lt s s' ≡ true
      → Above s rest
      → Above s (put_back s' m rest)
  put_back-Above s s' [] rest h a = a
  put_back-Above s s' (w ∷ m) rest h a = (h, a)

  put_back-IsSorted :
      (s : Bytes) (m : SymbolWindows) (rest : OrdMap Bytes SymbolWindows)
      → Above s rest
      → IsSorted rest
      → IsSorted (put_back s m rest)
  put_back-IsSorted s [] rest a h = h
  put_back-IsSorted s (w ∷ m) rest a h = (a, h)

  put_back-Entries :
      (n : ℕ) (s : Bytes) (m : SymbolWindows) (rest : OrdMap Bytes SymbolWindows)
      → IsSorted m
      → Entries (IsFiled n s) m
      → Entries (AreFiled n) rest
      → Entries (AreFiled n) (put_back s m rest)
  put_back-Entries n s [] rest o f h = h
  put_back-Entries n s (w ∷ m) rest o f h =
      (record { some_window = λ e. cc; in_order = o; filed = f }, h)

  pub take_all_completed-Above :
      (s : Bytes) (m : OrdMap Bytes SymbolWindows)
      → Above s m
      → Above s (take_all_completed current m).1
  unfolding take_all_completed
  take_all_completed-Above s [] h = tt
  take_all_completed-Above s ((s', m) ∷ rest) h =
      put_back-Above s s' _ _ h.0 (take_all_completed-Above s rest h.1)

  pub take_all_completed-IsSorted :
      (m : OrdMap Bytes SymbolWindows) → IsSorted m → IsSorted (take_all_completed current m).1
  unfolding take_all_completed
  take_all_completed-IsSorted [] h = tt
  take_all_completed-IsSorted ((s, m) ∷ rest) h =
      put_back-IsSorted s _ _ (take_all_completed-Above s rest h.0)
        (take_all_completed-IsSorted rest h.1)

  pub take_all_completed-Entries :
      (n : ℕ) (m : OrdMap Bytes SymbolWindows)
      → Entries (AreFiled n) m
      → Entries (AreFiled n) (take_all_completed current m).1
  unfolding take_all_completed
  take_all_completed-Entries n [] h = tt
  take_all_completed-Entries n ((s, m) ∷ rest) h =
      put_back-Entries n s _ _ (take_completed-IsSorted m (h.0).in_order)
        (take_completed-Entries (IsFiled n s) m (h.0).filed) (take_all_completed-Entries n rest h.1)

pub extract_completed_windows-IsValid :
    (agg : MarketDataAggregator) (current : ℕ)
    → IsValid agg
    → IsValid (extract_completed_windows agg current).1
unfolding extract_completed_windows
extract_completed_windows-IsValid agg current v = record {
  symbols_in_order = take_all_completed-IsSorted current agg.windows v.symbols_in_order;
  symbols_filed = take_all_completed-Entries current agg.window_ms agg.windows v.symbols_filed;
}
