-- ===== src/Output/Blocks.antt =====
-- Rows of blocks of app/src/output/StatsSerializer.cpp: the output file determines what it shows.
use binance_aggregator.Prelude.{
  ℕ, ◌/◌, ◌≡◌, ◌≢◌, refl, sym, ap, ◌∙◌, List, [], ◌∷◌, ◌++◌, append_assoc, Bytes, codes, arith, All,
  map,
}
use binance_aggregator.Prelude.Fields.{drop_label}
use binance_aggregator.Prelude.Perms.{concat}
use binance_aggregator.Aggregation.{WindowStats}
use binance_aggregator.Aggregation.Order.{WindowStats-eq}
use binance_aggregator.Output.{
  StatsSnapshot, newline, format_iso8601_utc, window_line, window_lines, serialize_windows,
  serialize,
}
use binance_aggregator.Output.Reading.{
  IsReadable, SameLine, line_from, window_line-append, line_from-SameLine,
}
use binance_aggregator.Output.Seconds.{timestamp-eq}

-- What a block is made for: there is a window, and every window is readable.
pub record IsBlock (snapshot : StatsSnapshot) : Type 0 where
  pub some_window : snapshot.windows ≢ []
  pub readable : All IsReadable snapshot.windows

-- A window without its start, which its line does not show.
abbrev pub timeless : WindowStats → WindowStats
timeless w = record w { window_start_ms = 0 }

-- What the text of a snapshot shows: the second of its start, and its windows in order.
abbrev pub shown : StatsSnapshot → ℕ × List WindowStats
shown snapshot = (snapshot.window_start_ms / 1_000, map timeless snapshot.windows)

SameLine-timeless : (a b : WindowStats) → SameLine a b → timeless a ≡ timeless b
SameLine-timeless a b h =
    WindowStats-eq (timeless a) (timeless b) h.symbol refl h.trades h.volume h.lowest h.highest
      h.buys h.sells

lines_from : List WindowStats → Bytes → Bytes
lines_from [] rest = newline ∷ rest
lines_from (w ∷ ws) rest = line_from w (lines_from ws rest)

window_lines-append :
    (ws : List WindowStats) (rest : Bytes)
    → (window_lines ws ++ newline ∷ []) ++ rest ≡ lines_from ws rest
unfolding window_lines lines_from
window_lines-append [] rest = refl
window_lines-append (w ∷ ws) rest =
    ap (◌++ rest) (append_assoc (window_line w) (window_lines ws) (newline ∷ []))
    ∙ append_assoc (window_line w) (window_lines ws ++ newline ∷ []) rest
    ∙ ap (◌++◌ (window_line w)) (window_lines-append ws rest)
    ∙ window_line-append w (lines_from ws rest)

lines_from-eq :
    (xs ys : List WindowStats) (r s : Bytes)
    → All IsReadable xs
    → All IsReadable ys
    → lines_from xs r ≡ lines_from ys s
    → (map timeless xs ≡ map timeless ys) × (r ≡ s)
unfolding lines_from line_from
lines_from-eq [] [] r s h k e = (refl, drop_label (newline ∷ []) r s e)
lines_from-eq [] (y ∷ ys) r s h k e = let c : newline ≡ b's' = cc in absurd (omega (arith, c))
lines_from-eq (x ∷ xs) [] r s h k e = let c : newline ≡ b's' = cc in absurd (omega (arith, c))
lines_from-eq (x ∷ xs) (y ∷ ys) r s h k e =
    let (one, more) = line_from-SameLine x y (lines_from xs r) (lines_from ys s) h.0 k.0 e in
    let (all, rest) = lines_from-eq xs ys r s h.1 k.1 more in
    (rw (SameLine-timeless x y one, all) refl, rest)

-- A block with what follows it.
block_from : ℕ → List WindowStats → Bytes → Bytes
block_from start ws rest =
    codes "timestamp=" ++ (format_iso8601_utc start ++ (newline ∷ lines_from ws rest))

serialize_windows-append :
    (k : ℕ) (ws : List WindowStats) (rest : Bytes)
    → ws ≢ []
    → serialize_windows k ws ++ rest ≡ block_from k ws rest
unfolding serialize_windows block_from
serialize_windows-append k [] rest h = absurd (h refl)
serialize_windows-append k (w ∷ ws) rest h =
    let stamp : Bytes = format_iso8601_utc k in
    let lines : Bytes = newline ∷ (window_lines (w ∷ ws) ++ newline ∷ []) in
    append_assoc (codes "timestamp=") (stamp ++ lines) rest
    ∙ ap (λ l. codes "timestamp=" ++ l)
        (append_assoc stamp lines rest
          ∙ ap (λ l. stamp ++ (newline ∷ l)) (window_lines-append (w ∷ ws) rest))

serialize-append :
    (a : StatsSnapshot) (rest : Bytes)
    → IsBlock a
    → serialize a ++ rest ≡ block_from a.window_start_ms a.windows rest
unfolding serialize
serialize-append a rest h = serialize_windows-append a.window_start_ms a.windows rest h.some_window

block_from-eq :
    (a b : StatsSnapshot) (r s : Bytes)
    → IsBlock a
    → IsBlock b
    → serialize a ++ r ≡ serialize b ++ s
    → (shown a ≡ shown b) × (r ≡ s)
unfolding block_from
block_from-eq a b r s h k e =
    let (starts, e1) = timestamp-eq a.window_start_ms b.window_start_ms _ _ (
      drop_label (codes "timestamp=") _ _
        (sym (serialize-append a r h) ∙ e ∙ serialize-append b s k)) in
    let (windows, rest) =
      lines_from-eq a.windows b.windows r s h.readable k.readable
        (drop_label (newline ∷ []) _ _ e1) in
    (λ i. (starts i, windows i), rest)

block_ne_nil : (a : StatsSnapshot) (r : Bytes) → IsBlock a → serialize a ++ r ≢ []
unfolding block_from
block_ne_nil a r h e =
    let c : block_from a.window_start_ms a.windows r ≡ [] = sym (serialize-append a r h) ∙ e in cc

-- Two rows of blocks, such as two output files: if the texts are the same, the rows have the same
-- number of blocks, and block by block the same second and the same windows in the same order, but
-- for the milliseconds of their start. Every block has a window, no symbol has a space, and the
-- volumes and prices are int64_t.
pub serialize-injective :
    (xs ys : List StatsSnapshot)
    → All IsBlock xs
    → All IsBlock ys
    → concat (map serialize xs) ≡ concat (map serialize ys)
    → map shown xs ≡ map shown ys
serialize-injective [] [] h k e = refl
serialize-injective [] (y ∷ ys) h k e = absurd (block_ne_nil y _ k.0 (sym e))
serialize-injective (x ∷ xs) [] h k e = absurd (block_ne_nil x _ h.0 e)
serialize-injective (x ∷ xs) (y ∷ ys) h k e =
    let (one, more) =
      block_from-eq x y (concat (map serialize xs)) (concat (map serialize ys)) h.0 k.0 e in
    λ i. one i ∷ serialize-injective xs ys h.1 k.1 more i
