-- ===== src/Output.antt =====
-- app/include/agg/output/StatsSnapshot.hpp, app/src/output/StatsSerializer.cpp.
-- std::gmtime is the proleptic Gregorian calendar on days since 1970-01-01; std::strftime prints the
-- fields of that day in two digits each, and the year in as many as it has.
pub mod Timestamp
pub mod Blocks
pub mod Calendar
pub mod Fields
pub mod Reading
pub mod Seconds
use binance_aggregator.Prelude.{
  ℕ, ◌+◌, ◌-◌, ◌*◌, ◌/◌, ◌%◌, List, [], ◌∷◌, ◌++◌, Bytes, codes, leb, ltb, if◌then◌else◌,
}
use binance_aggregator.Decimal.{to_string}
use binance_aggregator.Decimal.Digits.{print_u64}
use binance_aggregator.Aggregation.{WindowStats}

pub record StatsSnapshot : Type 0 where
  pub window_start_ms : ℕ
  pub windows : List WindowStats

pub record Date : Type 0 where
  pub year : ℕ
  pub month : ℕ
  pub day : ℕ

-- The date of a day, counted from 0000-03-01, so that a leap day ends its year.
date_of_day : ℕ → Date
date_of_day z =
    let era = z / 146_097 in
    let day_of_era = z % 146_097 in
    let year_of_era =
      (day_of_era - day_of_era / 1_460 + day_of_era / 36_524 - day_of_era / 146_096) / 365 in
    let day_of_year = day_of_era - (365 * year_of_era + year_of_era / 4 - year_of_era / 100) in
    let from_march = (5 * day_of_year + 2) / 153 in
    let month = if ltb from_march 10 then from_march + 3 else from_march - 9 in
    record {
      year = year_of_era + era * 400 + (if leb month 2 then 1 else 0);
      month = month;
      day = day_of_year - (153 * from_march + 2) / 5 + 1;
    }

-- The date of a std::time_t; 1970-01-01 is day 719468.
unfoldable pub date_of_seconds : ℕ → Date
unfolding date_of_day
date_of_seconds seconds = date_of_day (seconds / 86_400 + 719_468)

-- Two digits, for a number below 100.
unfoldable pub two_digits : ℕ → Bytes
two_digits n = (b'0' + n / 10) ∷ (b'0' + n % 10) ∷ []

-- The text that std::strftime puts into the buffer.
unfoldable pub format_iso8601_utc : ℕ → Bytes
format_iso8601_utc epoch_ms =
    let seconds = epoch_ms / 1_000 in
    let date = date_of_seconds seconds in
    print_u64 date.year
    ++ (b'-' ∷ two_digits date.month
        ++ (b'-' ∷ two_digits date.day
            ++ (b'T' ∷ two_digits (seconds / 3_600 % 24)
                ++ (b':' ∷ two_digits (seconds / 60 % 60)
                    ++ (b':' ∷ two_digits (seconds % 60) ++ b'Z' ∷ [])))))

abbrev pub newline : ℕ
newline = 10

-- The line of one window.
pub window_line : WindowStats → Bytes
window_line w =
    codes "symbol="
    ++ (w.symbol
        ++ (codes " trades="
            ++ (print_u64 w.trade_count
                ++ (codes " volume="
                    ++ (to_string w.total_volume
                        ++ (codes " min="
                            ++ (to_string w.min_price
                                ++ (codes " max="
                                    ++ (to_string w.max_price
                                        ++ (codes " buy="
                                            ++ (print_u64 w.buyer_initiated_count
                                                ++ (codes " sell="
                                                    ++ (print_u64 w.seller_initiated_count
                                                        ++ newline ∷ [])))))))))))))

-- The loop over the windows.
pub window_lines : List WindowStats → Bytes
window_lines [] = []
window_lines (w ∷ ws) = window_line w ++ window_lines ws

unfoldable pub serialize_windows : ℕ → List WindowStats → Bytes
serialize_windows start [] = []
serialize_windows start (w ∷ ws) =
    codes "timestamp="
    ++ (format_iso8601_utc start ++ (newline ∷ window_lines (w ∷ ws) ++ newline ∷ []))

unfoldable pub serialize : StatsSnapshot → Bytes
unfolding serialize_windows
serialize snapshot = serialize_windows snapshot.window_start_ms snapshot.windows
