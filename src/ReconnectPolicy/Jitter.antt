-- ===== src/ReconnectPolicy/Jitter.antt =====
-- The range that apply_jitter documents.
use binance_aggregator.Prelude.{
  ℕ, ◌≤◌, ◌^◌, ◌≡◌, ◌⊎◌, refl, inl, inr, true, false, Bool-cases, arith,
}
use binance_aggregator.Prelude.Int.{ℤ, pos}
use binance_aggregator.ReconnectPolicy.{DoubleLibrary, max_zero, apply_jitter}

module _ (doubles : DoubleLibrary) where
  -- The order of the doubles other than NaN, that a draw lies between its bounds where these are in
  -- order, and that the conversions keep the order, as far as to 2 ^ 53, where doubles are exact.
  pub record IsUniform : Type 0 where
    pub from_less :
        (x y : doubles.Double) → doubles.less x y ≡ true → doubles.less_or_equal x y ≡ true
    pub from_not_less :
        (x y : doubles.Double) → doubles.less x y ≡ false → doubles.less_or_equal y x ≡ true
    pub reflexive : (x : doubles.Double) → doubles.less_or_equal x x ≡ true
    pub transitive :
        (x y z : doubles.Double)
        → doubles.less_or_equal x y ≡ true
        → doubles.less_or_equal y z ≡ true
        → doubles.less_or_equal x z ≡ true
    pub above :
        (low high : doubles.Double) (engine : doubles.Engine)
        → doubles.less_or_equal low high ≡ true
        → doubles.less_or_equal low (doubles.draw low high engine).0 ≡ true
    pub below :
        (low high : doubles.Double) (engine : doubles.Engine)
        → doubles.less_or_equal low high ≡ true
        → doubles.less_or_equal (doubles.draw low high engine).0 high ≡ true
    pub from_zero : doubles.from_int64 (pos 0) ≡ doubles.zero_point_zero
    pub from_ordered :
        (a b : ℕ)
        → a ≤ b
        → b ≤ 2 ^ 53
        → doubles.less_or_equal (doubles.from_int64 (pos a)) (doubles.from_int64 (pos b)) ≡ true
    pub truncates :
        (x : doubles.Double) (a b : ℕ)
        → b ≤ 2 ^ 53
        → doubles.less_or_equal (doubles.from_int64 (pos a)) x ≡ true
        → doubles.less_or_equal x (doubles.from_int64 (pos b)) ≡ true
        → (m : ℕ) × (doubles.to_int64 x ≡ pos m) × (a ≤ m) × (m ≤ b)

  -- Between two bounds, or 0.0 where it would be negative.
  abbrev pub IsBetween : doubles.Double → doubles.Double → doubles.Double → Type 0
  IsBetween low high x =
      (doubles.less_or_equal doubles.zero_point_zero x ≡ true)
      × (doubles.less_or_equal low x ≡ true)
      × ((doubles.less_or_equal x high ≡ true) ⊎ (x ≡ doubles.zero_point_zero))

  -- base - base * jitter_ratio, and base + base * jitter_ratio
  abbrev pub lowest : ℤ → doubles.Double → doubles.Double
  lowest base ratio =
      doubles.subtract (doubles.from_int64 base) (doubles.multiply (doubles.from_int64 base) ratio)

  abbrev pub highest : ℤ → doubles.Double → doubles.Double
  highest base ratio =
      doubles.add (doubles.from_int64 base) (doubles.multiply (doubles.from_int64 base) ratio)

  max_zero-IsBetween :
      IsUniform
      → (low high x : doubles.Double) → doubles.less_or_equal low x ≡ true
      → doubles.less_or_equal x high ≡ true
      → IsBetween low high (max_zero doubles x)
  max_zero-IsBetween laws low high x l h =
      elim (Bool-cases (doubles.less doubles.zero_point_zero x)) [
        | inl positive ↦ rw positive (laws.from_less _ _ positive, l, inl h)
        | inr negative ↦ rw negative (
          laws.reflexive _,
          laws.transitive low x _ l (laws.from_not_less _ _ negative),
          inr refl,
        )
      ]

  -- A double between the bounds is not below an integer that is not above the lower one, where 0.0
  -- stands for a negative one, and not above an integer that is not below the upper one.
  IsBetween-truncates :
      IsUniform
      → (low high x : doubles.Double) (a b : ℕ) → b ≤ 2 ^ 53
      → doubles.less_or_equal (doubles.from_int64 (pos a)) (max_zero doubles low) ≡ true
      → doubles.less_or_equal high (doubles.from_int64 (pos b)) ≡ true
      → IsBetween low high x
      → (m : ℕ) × (doubles.to_int64 x ≡ pos m) × (a ≤ m) × (m ≤ b)
  IsBetween-truncates laws low high x a b l f g (positive, above, below) =
      laws.truncates x a b l (laws.transitive _ (max_zero doubles low) x f least) (elim below [
        | inl h ↦ laws.transitive x high _ h g
        | inr zero_there ↦ rw (zero_there, ← laws.from_zero) (laws.from_ordered 0 b (omega arith) l)
      ])
    where
      least : doubles.less_or_equal (max_zero doubles low) x ≡ true
      least = elim (Bool-cases (doubles.less doubles.zero_point_zero low)) [
        | inl over ↦ rw over above
        | inr under ↦ rw under positive
      ]

  -- If the doubles are ordered, a draw lies between bounds that are in order, and conversions keep the
  -- order up to 2 ^ 53: a jitter_ratio that is not above 0.0 leaves the delay as it is. Otherwise,
  -- where base - base * jitter_ratio is not above base + base * jitter_ratio, the delay is the integer
  -- part of a double between these two, or of 0.0 where that would be negative. With an integer `a`
  -- that is not above the lower one of the two, or not above 0 where that is negative, and an integer
  -- `b` up to 2 ^ 53 that is not below the upper one, the delay is between `a` and `b`.
  pub apply_jitter-IsBetween :
      IsUniform
      → (ratio : doubles.Double) (base : ℤ) (engine : doubles.Engine) (a b : ℕ)
      → doubles.less_or_equal (lowest base ratio) (highest base ratio) ≡ true
      → b ≤ 2 ^ 53
      → doubles.less_or_equal (doubles.from_int64 (pos a)) (max_zero doubles (lowest base ratio))
        ≡ true
      → doubles.less_or_equal (highest base ratio) (doubles.from_int64 (pos b)) ≡ true
      → ((doubles.less_or_equal ratio doubles.zero_point_zero ≡ true)
          × ((apply_jitter doubles ratio base engine).0 ≡ base))
        ⊎ (((x : doubles.Double) × ((apply_jitter doubles ratio base engine).0 ≡ doubles.to_int64 x)
              × IsBetween (lowest base ratio) (highest base ratio) x)
            × ((m : ℕ) × ((apply_jitter doubles ratio base engine).0 ≡ pos m) × (a ≤ m) × (m ≤ b)))
  unfolding apply_jitter
  apply_jitter-IsBetween laws ratio base engine a b o l f g =
      let low : doubles.Double = lowest base ratio in
      let high : doubles.Double = highest base ratio in
      let drawn : doubles.Double = (doubles.draw low high engine).0 in
      elim (Bool-cases (doubles.less_or_equal ratio doubles.zero_point_zero)) [
        | inl off ↦ inl (off, rw off refl)
        | inr on ↦
            let between =
              max_zero-IsBetween laws low high drawn (laws.above low high engine o)
                (laws.below low high engine o) in
            let (m, whole, more, less) =
              IsBetween-truncates laws low high (max_zero doubles drawn) a b l f g between in
            inr ((max_zero doubles drawn, rw on refl, between), (m, rw on whole, more, less))
      ]
