-- ===== src/Output/Reading.antt =====
-- What the text of app/src/output/StatsSerializer.cpp says: a block determines its second and its
-- windows, and a row of blocks determines the blocks.
use binance_aggregator.Prelude.{ℕ, ◌≡◌, ◌∷◌, ◌++◌, append_assoc, Bytes, codes, arith}
use binance_aggregator.Prelude.Int.{IsI64}
use binance_aggregator.Prelude.Fields.{Lacks, cut, drop_label}
use binance_aggregator.Decimal.{to_string}
use binance_aggregator.Decimal.Digits.{print_u64}
use binance_aggregator.Aggregation.{WindowStats}
use binance_aggregator.Output.{newline, window_line}
use binance_aggregator.Output.Fields.{
  print_u64_injective, to_string_injective, IsSeparator, print_u64-Lacks, to_string-Lacks, field,
}

-- A window whose text can be read: its symbol has no space, and its decimals are int64_t.
pub record IsReadable (w : WindowStats) : Type 0 where
  pub one_word : Lacks b' ' w.symbol
  pub volume : IsI64 w.total_volume.raw
  pub lowest : IsI64 w.min_price.raw
  pub highest : IsI64 w.max_price.raw

space_separates : IsSeparator b' '
space_separates = record {
  no_digit = λ d. omega arith;
  no_plus = λ e. omega arith;
  no_minus = λ e. omega arith;
  no_point = λ e. omega arith;
}

newline_separates : IsSeparator newline
newline_separates = record {
  no_digit = λ d. omega arith;
  no_plus = λ e. omega arith;
  no_minus = λ e. omega arith;
  no_point = λ e. omega arith;
}

-- A line with what follows it, field by field.
unfoldable pub line_from : WindowStats → Bytes → Bytes
line_from w rest =
    codes "symbol="
    ++ (w.symbol
        ++ (codes " trades="
            ++ (print_u64 w.trade_count
                ++ (codes " volume="
                    ++ (to_string w.total_volume
                        ++ (codes " min="
                            ++ (to_string w.min_price
                                ++ (codes " max="
                                    ++ (to_string w.max_price
                                        ++ (codes " buy="
                                            ++ (print_u64 w.buyer_initiated_count
                                                ++ (codes " sell="
                                                    ++ (print_u64 w.seller_initiated_count
                                                        ++ newline ∷ rest)))))))))))))

pub window_line-append : (w : WindowStats) (rest : Bytes) → window_line w ++ rest ≡ line_from w rest
unfolding window_line line_from
window_line-append w rest = simp (append_assoc)

-- What two lines that agree have in common.
pub record SameLine (a b : WindowStats) : Type 0 where
  pub symbol : a.symbol ≡ b.symbol
  pub trades : a.trade_count ≡ b.trade_count
  pub volume : a.total_volume ≡ b.total_volume
  pub lowest : a.min_price ≡ b.min_price
  pub highest : a.max_price ≡ b.max_price
  pub buys : a.buyer_initiated_count ≡ b.buyer_initiated_count
  pub sells : a.seller_initiated_count ≡ b.seller_initiated_count

pub line_from-SameLine :
    (a b : WindowStats) (r s : Bytes)
    → IsReadable a
    → IsReadable b
    → line_from a r ≡ line_from b s
    → SameLine a b × (r ≡ s)
unfolding line_from
line_from-SameLine a b r s x y e =
    let number : (n : ℕ) → Lacks b' ' (print_u64 n) = λ n. print_u64-Lacks b' ' n space_separates in
    let decimal : (d : _) → Lacks b' ' (to_string d) =
      λ d. to_string-Lacks b' ' d space_separates in
    let (symbols, e1) =
      field (codes "trades=") a.symbol b.symbol _ _ x.one_word y.one_word
        (drop_label (codes "symbol=") _ _ e) in
    let (counts, e2) =
      field (codes "volume=") _ _ _ _ (number a.trade_count) (number b.trade_count) e1 in
    let (volumes, e3) =
      field (codes "min=") _ _ _ _ (decimal a.total_volume) (decimal b.total_volume) e2 in
    let (lows, e4) = field (codes "max=") _ _ _ _ (decimal a.min_price) (decimal b.min_price) e3 in
    let (highs, e5) = field (codes "buy=") _ _ _ _ (decimal a.max_price) (decimal b.max_price) e4 in
    let (buys, e6) =
      field (codes "sell=") _ _ _ _ (number a.buyer_initiated_count)
        (number b.buyer_initiated_count) e5 in
    let (sells, e7) =
      cut newline _ _ r s (print_u64-Lacks newline a.seller_initiated_count newline_separates)
        (print_u64-Lacks newline b.seller_initiated_count newline_separates) e6 in
    (
      record {
        symbol = symbols;
        trades = print_u64_injective _ _ counts;
        volume = to_string_injective _ _ x.volume y.volume volumes;
        lowest = to_string_injective _ _ x.lowest y.lowest lows;
        highest = to_string_injective _ _ x.highest y.highest highs;
        buys = print_u64_injective _ _ buys;
        sells = print_u64_injective _ _ sells;
      },
      e7,
    )
