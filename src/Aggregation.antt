-- ===== src/Aggregation.antt =====
-- app/include/agg/model/TradeEvent.hpp, app/include/agg/aggregation/WindowStats.hpp and
-- MarketDataAggregator.hpp, app/src/aggregation/MarketDataAggregator.cpp.
-- Times, identifiers and counters are std::uint64_t: natural numbers, with `% 2 ^ 64` on additions.
pub mod Lookup
pub mod Invariant
pub mod Extraction
pub mod Order
pub mod History
pub mod Summary
pub mod Determined
use binance_aggregator.Prelude.{
  ℕ, ◌+◌, ◌-◌, ◌%◌, ◌^◌, ◌≡◌, Bool, List, [], ◌∷◌, ◌++◌, Option, none, some, Bytes, ltb,
  if◌then◌else◌,
}
use binance_aggregator.Prelude.Int.{u64_mod}
use binance_aggregator.StrictOrder.{StrictOrder, text_order, nat_order}
use binance_aggregator.OrdMap.{OrdMap, find, alter}
use binance_aggregator.Decimal
use binance_aggregator.Decimal.{Decimal, zero_decimal}

pub record TradeEvent : Type 0 where
  pub symbol : Bytes
  pub trade_id : ℕ
  pub price : Decimal
  pub quantity : Decimal
  pub trade_time_ms : ℕ
  pub buyer_is_maker : Bool

pub record WindowStats : Type 0 where
  pub symbol : Bytes
  pub window_start_ms : ℕ
  pub trade_count : ℕ
  pub total_volume : Decimal
  pub min_price : Decimal
  pub max_price : Decimal
  pub buyer_initiated_count : ℕ
  pub seller_initiated_count : ℕ

-- The windows of one symbol by their start, and those by symbol.
abbrev pub SymbolWindows : Type 0
SymbolWindows = OrdMap ℕ WindowStats

pub record MarketDataAggregator : Type 0 where
  pub window_ms : ℕ
  pub windows : OrdMap Bytes SymbolWindows

-- The constructor.
abbrev pub new : ℕ → MarketDataAggregator
new window_ms = record { window_ms = window_ms; windows = [] }

-- trade_time_ms - (trade_time_ms % window_ms_)
unfoldable pub window_start : ℕ → ℕ → ℕ
window_start window_ms time = time - time % window_ms

-- counter += 1 on std::uint64_t
unfoldable pub increment : ℕ → ℕ
increment n = (n + 1) % u64_mod

-- What try_emplace inserts, with the writes of the branch for a new window.
pub fresh_stats : TradeEvent → ℕ → WindowStats
fresh_stats trade start = record {
  symbol = trade.symbol;
  window_start_ms = start;
  trade_count = 0;
  total_volume = zero_decimal;
  min_price = trade.price;
  max_price = trade.price;
  buyer_initiated_count = 0;
  seller_initiated_count = 0;
}

-- The branch for a window that is there.
pub widen : TradeEvent → WindowStats → WindowStats
widen trade stats = record stats {
  min_price = if Decimal.less trade.price stats.min_price then trade.price else stats.min_price;
  max_price = if Decimal.less stats.max_price trade.price then trade.price else stats.max_price;
}

-- The statements behind the branches.
pub count : TradeEvent → WindowStats → WindowStats
unfolding increment
count trade stats = record stats {
  trade_count = increment stats.trade_count;
  total_volume = Decimal.add stats.total_volume (Decimal.mul trade.price trade.quantity);
  seller_initiated_count =
      if trade.buyer_is_maker
      then increment stats.seller_initiated_count
      else stats.seller_initiated_count;
  buyer_initiated_count =
      if trade.buyer_is_maker
      then stats.buyer_initiated_count
      else increment stats.buyer_initiated_count;
}

-- The stats of a window after a trade, from those before it.
pub accumulate : TradeEvent → ℕ → Option WindowStats → WindowStats
accumulate trade start none = count trade (fresh_stats trade start)
accumulate trade start (some stats) = count trade (widen trade stats)

abbrev pub windows_or_empty : Option SymbolWindows → SymbolWindows
windows_or_empty none = []
windows_or_empty (some m) = m

unfoldable pub add_trade : MarketDataAggregator → TradeEvent → MarketDataAggregator
add_trade agg trade =
    let start = window_start agg.window_ms trade.trade_time_ms in
    record agg {
      windows =
          alter trade.symbol (λ old. alter start (accumulate trade start) (windows_or_empty old))
            agg.windows;
    }

unfoldable pub window_stats : MarketDataAggregator → Bytes → ℕ → Option WindowStats
window_stats agg symbol start = elim (find symbol agg.windows) [
  | none ↦ none
  | some symbol_windows ↦ find start symbol_windows
]

-- The inner loop of extract_all_windows.
unfoldable pub stats_of : SymbolWindows → List WindowStats
stats_of [] = []
stats_of ((start, stats) ∷ m) = stats ∷ stats_of m

-- The windows in the order of the two loops of extract_all_windows.
unfoldable pub all_windows : OrdMap Bytes SymbolWindows → List WindowStats
all_windows [] = []
all_windows ((symbol, m) ∷ rest) = stats_of m ++ all_windows rest

unfoldable pub extract_all_windows : MarketDataAggregator → List WindowStats × MarketDataAggregator
extract_all_windows agg = (all_windows agg.windows, record agg { windows = [] })

-- The inner loop of extract_completed_windows: the windows to return, and those that stay.
pub take_completed : ℕ → SymbolWindows → List WindowStats × SymbolWindows
take_completed current [] = ([], [])
take_completed current ((start, stats) ∷ m) =
    let (done, left) = take_completed current m in
    if ltb start current then (stats ∷ done, left) else (done, (start, stats) ∷ left)

-- The end of a round of the outer loop: a symbol with no window left is erased.
abbrev pub put_back :
    Bytes → SymbolWindows → OrdMap Bytes SymbolWindows → OrdMap Bytes SymbolWindows
put_back symbol [] rest = rest
put_back symbol (w ∷ m) rest = (symbol, w ∷ m) ∷ rest

-- The outer loop.
pub take_all_completed :
    ℕ → OrdMap Bytes SymbolWindows → List WindowStats × OrdMap Bytes SymbolWindows
take_all_completed current [] = ([], [])
take_all_completed current ((symbol, m) ∷ rest) =
    let (done, left) = take_completed current m in
    let (more, kept) = take_all_completed current rest in (done ++ more, put_back symbol left kept)

unfoldable pub extract_completed_windows :
    MarketDataAggregator → ℕ → List WindowStats × MarketDataAggregator
extract_completed_windows agg current =
    let (done, kept) = take_all_completed current agg.windows in
    (done, record agg { windows = kept })
