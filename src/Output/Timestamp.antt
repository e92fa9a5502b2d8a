-- ===== src/Output/Timestamp.antt =====
-- The timestamp of a block fits the buffer of 32 bytes.
use binance_aggregator.Prelude.{ℕ, ◌+◌, ◌/◌, ◌^◌, ◌≤◌, ◌<◌, ◌≡◌, refl, arith, length, length-append}
use binance_aggregator.Decimal.Digits.{print_u64, length-print_u64}
use binance_aggregator.Output.{date_of_seconds, two_digits, format_iso8601_utc}

year_bound : (epoch_ms : ℕ) → epoch_ms < 2 ^ 64 → (date_of_seconds (epoch_ms / 1_000)).year < 10 ^ 9
unfolding date_of_seconds
year_bound epoch_ms h = ground arith

length-two_digits : (n : ℕ) → length (two_digits n) ≡ 2
unfolding two_digits
length-two_digits n = refl

-- For every std::uint64_t the text of the timestamp, with its terminating zero, fits the 32 bytes of
-- the buffer.
pub timestamp_fits :
    (epoch_ms : ℕ) → epoch_ms < 2 ^ 64 → length (format_iso8601_utc epoch_ms) + 1 ≤ 32
unfolding format_iso8601_utc two_digits
timestamp_fits epoch_ms h =
    let year = (date_of_seconds (epoch_ms / 1_000)).year in
    rw (length-append (print_u64 year))
      (omega (arith, length-print_u64 8 year (year_bound epoch_ms h)))
