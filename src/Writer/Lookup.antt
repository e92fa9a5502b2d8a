-- ===== src/Writer/Lookup.antt =====
-- Windows in a list, looked up by symbol and start.
use binance_aggregator.Prelude.{
  ℕ, ◌≡◌, refl, inl, inr, Bool, ◌&&◌, List, [], ◌∷◌, ◌++◌, Option, none, some, Bytes, arith, keep,
  if◌then◌else◌, Bool-cases, ◌⊎◌,
}
use binance_aggregator.StrictOrder.{same, text_order, nat_order, eq_of_same, same_refl}
use binance_aggregator.Aggregation.{WindowStats}

-- The window of symbol `s` that starts at `w`.
abbrev pub is_window : Bytes → ℕ → WindowStats → Bool
is_window s w x = same x.symbol s && same x.window_start_ms w

unfoldable pub found : Bytes → ℕ → List WindowStats → Option WindowStats
found s w [] = none
found s w (x ∷ xs) = if is_window s w x then some x else found s w xs

abbrev pub or_else {ℓ} : {A : Type ℓ} → Option A → Option A → Option A
or_else none b = b
or_else (some a) b = some a

pub found-append :
    (s : Bytes) (w : ℕ) (xs ys : List WindowStats)
    → found s w (xs ++ ys) ≡ or_else (found s w xs) (found s w ys)
unfolding found
found-append s w [] ys = refl
found-append s w (x ∷ xs) ys = ground (arith, found-append s w xs ys)

-- No two windows share symbol and start.
abbrev pub AreDistinct : List WindowStats → Type 0
AreDistinct [] = Unit
AreDistinct (x ∷ xs) = (found x.symbol x.window_start_ms xs ≡ none) × AreDistinct xs

pub AreDistinct-append :
    (xs ys : List WindowStats)
    → AreDistinct xs
    → AreDistinct ys
    → ((s : Bytes) (w : ℕ) → (found s w xs ≡ none) ⊎ (found s w ys ≡ none))
    → AreDistinct (xs ++ ys)
unfolding found
AreDistinct-append [] ys a b h = b
AreDistinct-append (x ∷ xs) ys a b h = (
  rw (found-append x.symbol x.window_start_ms xs ys, a.0)
      (elim (h x.symbol x.window_start_ms) [
        | inr fine ↦ fine
        | inl bad ↦ absurd (cc (rw (same_refl x.symbol, same_refl x.window_start_ms) at bad))
      ]),
  AreDistinct-append xs ys a.1 b
      (λ s w. elim (h s w) [ inr fine ↦ inr fine | inl bad ↦ ground arith ]),
)

-- The windows that pass a test on their start.
pub found-keep :
    (p : ℕ → Bool) (s : Bytes) (w : ℕ) (xs : List WindowStats)
    → found s w (keep (λ x. p x.window_start_ms) xs) ≡ (if p w then found s w xs else none)
unfolding found
found-keep p s w [] = ground arith
found-keep p s w (x ∷ xs) = ground (arith, found-keep p s w xs, eq_of_same x.window_start_ms w)

pub keep-AreDistinct :
    (p : ℕ → Bool) (xs : List WindowStats)
    → AreDistinct xs
    → AreDistinct (keep (λ x. p x.window_start_ms) xs)
keep-AreDistinct p [] d = tt
keep-AreDistinct p (x ∷ xs) d = elim (Bool-cases (p x.window_start_ms)) [
  | inr drop ↦ rw drop (keep-AreDistinct p xs d.1)
  | inl stay ↦
      rw stay (rw (found-keep p x.symbol x.window_start_ms xs, stay) d.0, keep-AreDistinct p xs d.1)
]
