-- ===== src/Protocol/Asset/Compare.antt =====
-- Prices are compared as fractions: the products do not wrap, and the order is transitive.
use wenode.Base.{ℕ, ◌*◌, ◌^◌, ◌<◌, ◌≡◌, ◌∙◌, ap, Bool, true, ◌&&◌, ltb, leb, ◌==◌, arith}
use wenode.Base.Int.{pos}
use wenode.Protocol.Asset.{Price, UInt128, cross, price_eq, price_lt, price_le, price_gt, price_ge}
use wenode.Protocol.Asset.Convert.{product_bound}
use native.Mathlib.Nat.{mul_comm, mul_assoc, mul-lt-mul_of_pos_right, lt_of_mul-lt-mul_right}

-- A price whose amounts are positive and fit 63 bits, with the amounts.
pub record Positive (p : Price) : Type 0 where
  pub base : ℕ
  pub quote : ℕ
  pub base-eq : p.base.amount ≡ pos base
  pub quote-eq : p.quote.amount ≡ pos quote
  pub base_positive : 0 < base
  pub quote_positive : 0 < quote
  pub base_fits : base < 2 ^ 63
  pub quote_fits : quote < 2 ^ 63

-- The same product with its last factor in the middle.
right_comm : (x y z : ℕ) → x * y * z ≡ x * z * y
right_comm x y z = simp (mul_assoc, mul_comm y z)

below_trans :
    (x₁ y₁ x₂ y₂ x₃ y₃ : ℕ)
    → 0 < y₁
    → 0 < y₃
    → x₁ * y₂ < x₂ * y₁
    → x₂ * y₃ < x₃ * y₂
    → x₁ * y₃ < x₃ * y₁
below_trans x₁ y₁ x₂ y₂ x₃ y₃ p₁ p₃ h k =
    let one = mul-lt-mul_of_pos_right h p₃ in
    let two = mul-lt-mul_of_pos_right k p₁ in
    lt_of_mul-lt-mul_right y₂
      (omega (arith, one, two, right_comm x₁ y₂ y₃, right_comm x₂ y₁ y₃, right_comm x₃ y₂ y₁))

chained : (x y z : Bool) → (x && y ≡ true → z ≡ true) → x && y && z ≡ x && y
chained x y z h = ground (arith, h)

module _ (wide : UInt128) where
  cross-exact : (a b : Price) (p : Positive a) (q : Positive b) → cross wide a b ≡ p.base * q.quote
  unfolding cross
  cross-exact a b p q =
      let product =
        wide.times-exact q.quote p.base (product_bound q.quote p.base q.quote_fits p.base_fits) in
      let base = ap wide.of_int64 p.base-eq ∙ wide.of_int64-pos p.base p.base_fits in
      let quote = ap wide.of_int64 q.quote-eq ∙ wide.of_int64-pos q.quote q.quote_fits in
      ap (λ x. wide.times x (wide.of_int64 a.base.amount)) quote
      ∙ ap (wide.times q.quote) base
      ∙ product
      ∙ mul_comm q.quote p.base

  module _ (a b c : Price) (p : Positive a) (q : Positive b) (r : Positive c) where
    below_trans-Bool :
        ltb (p.base * q.quote) (q.base * p.quote) && ltb (q.base * r.quote) (r.base * q.quote)
          ≡ true
        → ltb (p.base * r.quote) (r.base * p.quote) ≡ true
    below_trans-Bool h =
        let below =
          below_trans p.base p.quote q.base q.quote r.base r.quote p.quote_positive r.quote_positive
            (ground (arith, h)) (ground (arith, h)) in
        ground (arith, below)

    price_lt_trans : price_lt wide a b && price_lt wide b c ≡ true → price_lt wide a c ≡ true
    unfolding price_lt
    price_lt_trans h = ground (
      arith,
      h,
      cross-exact a b p q,
      cross-exact b a q p,
      cross-exact b c q r,
      cross-exact c b r q,
      cross-exact a c p r,
      cross-exact c a r p,
      below_trans-Bool,
    )

    -- Prices of one pair, with positive amounts that fit 63 bits, compare as the fractions of base
    -- and quote: each of the five comparisons is that of the exact cross products. And a third such
    -- price, of any pair, that is above the second where the second is above the first is above the
    -- first too.
    pub price_lt_fractions :
        a.base.symbol ≡ b.base.symbol
        → a.quote.symbol ≡ b.quote.symbol
        → (price_lt wide a b ≡ ltb (p.base * q.quote) (q.base * p.quote))
          × (price_eq wide a b ≡ p.base * q.quote == q.base * p.quote)
          × (price_le wide a b ≡ leb (p.base * q.quote) (q.base * p.quote))
          × (price_gt wide a b ≡ ltb (q.base * p.quote) (p.base * q.quote))
          × (price_ge wide a b ≡ leb (q.base * p.quote) (p.base * q.quote))
          × (price_lt wide a b && price_lt wide b c && price_lt wide a c
              ≡ price_lt wide a b && price_lt wide b c)
    unfolding price_lt price_eq price_le price_gt price_ge
    price_lt_fractions base quote =
        let one = cross-exact a b p q in
        let two = cross-exact b a q p in
        (
          ground (arith, one, two, base, quote),
          ground (arith, one, two, base, quote),
          ground (arith, one, two, base, quote),
          ground (arith, one, two, base, quote),
          ground (arith, one, two, base, quote),
          chained (price_lt wide a b) (price_lt wide b c) (price_lt wide a c) price_lt_trans,
        )
