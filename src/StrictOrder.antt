-- ===== src/StrictOrder.antt =====
-- The orders by which the program keys its std::map containers and sorts: `<` on std::uint64_t,
-- and the byte order of std::string.
use binance_aggregator.Prelude.{
  ℕ, ◌≡◌, refl, inl, inr, Bool, true, false, not, ◌&&◌, [], ◌∷◌, Bytes, arith, ltb, if◌then◌else◌,
  Bool-cases,
}

-- A strict total order, decided by `lt`.
pub record StrictOrder {ℓ} (K : Type ℓ) : Type ℓ where
  pub lt : K → K → Bool
  pub irrefl : (a : K) → lt a a ≡ false
  pub trans : (a b c : K) → lt a b ≡ true → lt b c ≡ true → lt a c ≡ true
  pub total : (a b : K) → lt a b ≡ false → lt b a ≡ false → a ≡ b

module _ {ℓ} {K : Type ℓ} ⦃o : StrictOrder K⦄ where
  -- Equality by the order, as std::map tests it.
  unfoldable pub same : K → K → Bool
  same a b = not (o.lt a b) && not (o.lt b a)

  pub asym : (a b : K) → o.lt a b ≡ true → o.lt b a ≡ false
  asym a b h = elim (Bool-cases (o.lt b a)) [
    | inl back ↦ absurd (cc (o.irrefl a, o.trans a b a h back))
    | inr fine ↦ fine
  ]

  pub same_refl : (a : K) → same a a ≡ true
  unfolding same
  same_refl a = rw (o.irrefl a)

  pub eq_of_same : (a b : K) → same a b ≡ true → a ≡ b
  unfolding same
  eq_of_same a b h = o.total a b (ground arith) (ground arith)

pub ltb_irrefl : (a : ℕ) → ltb a a ≡ false
ltb_irrefl a = ground arith

pub ltb_trans : (a b c : ℕ) → ltb a b ≡ true → ltb b c ≡ true → ltb a c ≡ true
ltb_trans a b c h k = ground arith

pub ltb_total : (a b : ℕ) → ltb a b ≡ false → ltb b a ≡ false → a ≡ b
ltb_total a b h k = ground arith

instance abbrev pub nat_order : StrictOrder ℕ
nat_order = record { lt = ltb; irrefl = ltb_irrefl; trans = ltb_trans; total = ltb_total }

-- operator< on std::string: the first byte that differs decides, or the length.
unfoldable pub text_lt : Bytes → Bytes → Bool
text_lt [] [] = false
text_lt [] (d ∷ t) = true
text_lt (c ∷ s) [] = false
text_lt (c ∷ s) (d ∷ t) = if ltb c d then true else if ltb d c then false else text_lt s t

pub text_lt_irrefl : (s : Bytes) → text_lt s s ≡ false
unfolding text_lt
text_lt_irrefl [] = refl
text_lt_irrefl (c ∷ s) = ground (arith, text_lt_irrefl s)

pub text_lt_trans : (s t u : Bytes) → text_lt s t ≡ true → text_lt t u ≡ true → text_lt s u ≡ true
unfolding text_lt
text_lt_trans [] [] u h k = cc
text_lt_trans [] (d ∷ t) [] h k = cc
text_lt_trans [] (d ∷ t) (e ∷ u) h k = refl
text_lt_trans (c ∷ s) [] u h k = cc
text_lt_trans (c ∷ s) (d ∷ t) [] h k = cc
text_lt_trans (c ∷ s) (d ∷ t) (e ∷ u) h k = ground (arith, text_lt_trans s t u)

pub text_lt_total : (s t : Bytes) → text_lt s t ≡ false → text_lt t s ≡ false → s ≡ t
unfolding text_lt
text_lt_total [] [] h k = refl
text_lt_total [] (d ∷ t) h k = cc
text_lt_total (c ∷ s) [] h k = cc
text_lt_total (c ∷ s) (d ∷ t) h k = ground (arith, text_lt_total s t)

instance abbrev pub text_order : StrictOrder Bytes
text_order = record {
  lt = text_lt;
  irrefl = text_lt_irrefl;
  trans = text_lt_trans;
  total = text_lt_total;
}
