-- ===== src/Output/Seconds.antt =====
-- The timestamp of a block (format_iso8601_utc of app/src/output/StatsSerializer.cpp) determines the
-- second that it was made from.
use binance_aggregator.Prelude.{
  ℕ, ◌+◌, ◌/◌, ◌%◌, ◌≡◌, sym, ◌∙◌, [], ◌∷◌, ◌++◌, append_assoc, Bytes, All-map, arith,
}
use binance_aggregator.Prelude.Fields.{Lacks, cut, drop_label}
use binance_aggregator.Decimal.Digits.{print_u64, print_u64-digits}
use binance_aggregator.Output.{Date, date_of_seconds, two_digits, format_iso8601_utc}
use binance_aggregator.Output.Calendar.{date_of_seconds_injective}
use binance_aggregator.Output.Fields.{print_u64_injective}

-- The timestamp with what follows it.
timestamp_from : Date → ℕ → Bytes → Bytes
timestamp_from date seconds rest =
    print_u64 date.year
    ++ (b'-' ∷ two_digits date.month
        ++ (b'-' ∷ two_digits date.day
            ++ (b'T' ∷ two_digits (seconds / 3_600 % 24)
                ++ (b':' ∷ two_digits (seconds / 60 % 60)
                    ++ (b':' ∷ two_digits (seconds % 60) ++ b'Z' ∷ rest)))))

timestamp-append :
    (k : ℕ) (rest : Bytes)
    → format_iso8601_utc k ++ rest ≡ timestamp_from (date_of_seconds (k / 1_000)) (k / 1_000) rest
unfolding format_iso8601_utc timestamp_from two_digits
timestamp-append k rest = append_assoc (print_u64 (date_of_seconds (k / 1_000)).year) _ rest

-- The time of day of a second.
time_of_day_eq :
    (s t : ℕ)
    → s / 3_600 % 24 ≡ t / 3_600 % 24
    → s / 60 % 60 ≡ t / 60 % 60
    → s % 60 ≡ t % 60
    → s % 86_400 ≡ t % 86_400
time_of_day_eq s t e f g = omega arith

two_digits-eq : (m n : ℕ) (r s : Bytes) → two_digits m ++ r ≡ two_digits n ++ s → (m ≡ n) × (r ≡ s)
unfolding two_digits
two_digits-eq m n r s e =
    let tens : b'0' + m / 10 ≡ b'0' + n / 10 = cc in
    let ones : b'0' + m % 10 ≡ b'0' + n % 10 = cc in (omega arith, cc)

date-eq : (a b : Date) → a.year ≡ b.year → a.month ≡ b.month → a.day ≡ b.day → a ≡ b
date-eq a b p q r = λ i. record { year = p i; month = q i; day = r i }

hyphen_separates : (n : ℕ) → Lacks b'-' (print_u64 n)
hyphen_separates n =
    All-map _ _ (print_u64 n) (λ c d e. omega (arith, d.0, d.1)) (print_u64-digits n)

timestamp_from-eq :
    (a b : Date) (s t : ℕ) (q r : Bytes)
    → timestamp_from a s q ≡ timestamp_from b t r
    → (a ≡ b) × (s % 86_400 ≡ t % 86_400) × (q ≡ r)
unfolding timestamp_from
timestamp_from-eq a b s t q r e =
    let (years, e1) =
      cut b'-' (print_u64 a.year) (print_u64 b.year) _ _ (hyphen_separates a.year)
        (hyphen_separates b.year) e in
    let (months, e2) = two_digits-eq a.month b.month _ _ e1 in
    let (days, e3) = two_digits-eq a.day b.day _ _ (drop_label (b'-' ∷ []) _ _ e2) in
    let (hours, e4) =
      two_digits-eq (s / 3_600 % 24) (t / 3_600 % 24) _ _ (drop_label (b'T' ∷ []) _ _ e3) in
    let (minutes, e5) =
      two_digits-eq (s / 60 % 60) (t / 60 % 60) _ _ (drop_label (b':' ∷ []) _ _ e4) in
    let (seconds, e6) = two_digits-eq (s % 60) (t % 60) _ _ (drop_label (b':' ∷ []) _ _ e5) in
    (
      date-eq a b (print_u64_injective _ _ years) months days,
      time_of_day_eq s t hours minutes seconds,
      drop_label (b'Z' ∷ []) _ _ e6,
    )

-- Two timestamps with texts behind them.
pub timestamp-eq :
    (k j : ℕ) (q r : Bytes)
    → format_iso8601_utc k ++ q ≡ format_iso8601_utc j ++ r
    → (k / 1_000 ≡ j / 1_000) × (q ≡ r)
timestamp-eq k j q r e =
    let (dates, times, rest) =
      timestamp_from-eq _ _ (k / 1_000) (j / 1_000) q r
        (sym (timestamp-append k q) ∙ e ∙ timestamp-append j r) in
    let days = date_of_seconds_injective (k / 1_000) (j / 1_000) dates in
    (omega (arith, days, times), rest)
