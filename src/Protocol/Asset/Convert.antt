-- ===== src/Protocol/Asset/Convert.antt =====
-- Rounding in `asset * price`.
use wenode.Base.{
  assert, inl, inr, ℕ, ◌*◌, ◌/◌, ◌^◌, ◌≤◌, ◌<◌, ◌≡◌, refl, sym, subst, ◌∙◌, ap, true, false, not,
  ok, arith, Bool-cases, ◌==◌, >>=-eq-ok, assert-eq-ok,
}
use wenode.Base.Int.{pos, ltb_ℤ, ◌≤ℤ◌}
use wenode.Protocol.Names.{name_eq→≡, Name, name_eq, name_eq_refl}
use wenode.Protocol.Asset.{
  Asset, Price, UInt128, symbol_name, convert, asset_times_price, validate_price,
}
use native.Mathlib.Nat.{mul-le-mul, div-mul-le_self, div-le_of_le-mul, mul_comm}

pub product_bound : (x q : ℕ) → x < 2 ^ 63 → q < 2 ^ 63 → x * q < 2 ^ 128
product_bound x q hx hq =
    omega
      (arith, mul-le-mul {n₁ = x} {m₁ = q} {n₂ = 2 ^ 63} {m₂ = 2 ^ 63} (omega arith) (omega arith))

there_and_back : (x q b : ℕ) → x * q / b * b / q ≤ x
there_and_back x q b =
    div-le_of_le-mul q (subst (λ z. x * q / b * b ≤ z) (mul_comm x q) (div-mul-le_self (x * q) b))

symbol_name-amount : (a b : Asset) → a.symbol ≡ b.symbol → symbol_name a ≡ symbol_name b
unfolding symbol_name
symbol_name-amount a b e = rw e refl

name_eq_sym_false : (s t : Name) → name_eq s t ≡ false → name_eq t s ≡ false
name_eq_sym_false s t e = elim (Bool-cases (name_eq t s)) [
  | inr other ↦ other
  | inl same ↦ absurd (
      cc (
        e,
        sym (name_eq_refl s),
        subst (λ z. name_eq s z ≡ true) (sym (name_eq→≡ t s same)) (name_eq_refl s),
      ))
]

record ValidPrice (p : Price) : Type 0 where
  base_name : Name
  quote_name : Name
  base_positive : ltb_ℤ (pos 0) p.base.amount ≡ true
  quote_positive : ltb_ℤ (pos 0) p.quote.amount ≡ true
  named_base : symbol_name p.base ≡ ok base_name
  named_quote : symbol_name p.quote ≡ ok quote_name
  different : name_eq base_name quote_name ≡ false

validate_price-ValidPrice : (p : Price) → validate_price p ≡ ok tt → ValidPrice p
unfolding validate_price
validate_price-ValidPrice p v =
    let (u₁, e₁, f₁) = >>=-eq-ok (assert (ltb_ℤ (pos 0) p.base.amount)) _ v in
    let (u₂, e₂, f₂) = >>=-eq-ok (assert (ltb_ℤ (pos 0) p.quote.amount)) _ f₁ in
    let (b, e₃, f₃) = >>=-eq-ok (symbol_name p.base) _ f₂ in
    let (q, e₄, f₄) = >>=-eq-ok (symbol_name p.quote) _ f₃ in
    record {
      base_name = b;
      quote_name = q;
      base_positive = assert-eq-ok _ e₁;
      quote_positive = assert-eq-ok _ e₂;
      named_base = e₃;
      named_quote = e₄;
      different = ground (arith, assert-eq-ok (not (name_eq b q)) f₄);
    }

module _ (wide : UInt128) where
  convert-floor :
      (x b q : ℕ) (per to : Asset)
      → per.amount ≡ pos b
      → to.amount ≡ pos q
      → 0 < b
      → x < 2 ^ 63
      → b < 2 ^ 63
      → q < 2 ^ 63
      → x * q / b < 2 ^ 63
      → convert wide (pos x) per to ≡ ok (record to { amount = pos (x * q / b) })
  unfolding convert
  convert-floor x b q per to eb eq hb hx hb' hq small =
      let product = wide.times-exact x q (product_bound x q hx hq) in
      let exact : wide.divide (wide.times (wide.of_int64 (pos x)) (wide.of_int64 to.amount))
            (wide.of_int64 per.amount)
          ≡ x * q / b =
        rw eb (
          rw eq (
            rw (wide.of_int64-pos x hx) (
              rw (wide.of_int64-pos q hq)
                (rw (wide.of_int64-pos b hb') (rw product (wide.divide-exact (x * q) b hb)))))) in
      let positive : ltb_ℤ (pos 0) per.amount ≡ true = rw eb (ground arith) in
      let low : (wide.high (x * q / b) == 0) ≡ true =
        rw (wide.high-eq (x * q / b)) (ground arith) in
      rw (positive, convert)
        (rw exact
          (rw low (ap (λ n. ok (record to { amount = n })) (wide.to_share-pos (x * q / b) small))))

  by_base :
      (a : Asset) (p : Price) {n : Name}
      → symbol_name a ≡ ok n
      → symbol_name p.base ≡ ok n
      → asset_times_price wide a p ≡ convert wide a.amount p.base p.quote
  unfolding asset_times_price
  by_base a p {n} ea eb = rw (ea, asset_times_price) (rw eb (rw (name_eq_refl n) refl))

  by_quote :
      (a : Asset) (p : Price) {n m : Name}
      → symbol_name a ≡ ok n
      → symbol_name p.base ≡ ok m
      → symbol_name p.quote ≡ ok n
      → name_eq n m ≡ false
      → asset_times_price wide a p ≡ convert wide a.amount p.quote p.base
  unfolding asset_times_price
  by_quote a p {n} ea eb eq other =
      rw (ea, asset_times_price) (rw eb (rw other (rw eq (rw (name_eq_refl n) refl))))

  -- Exchanging an amount at a valid price and exchanging the result back never gains: with both
  -- sides of the price and the amount in int64, and the first result below 2^63, both exchanges
  -- succeed, the first gives amount * quote / base rounded down in the quote's currency, and the
  -- second gives at most the amount that was there before.
  pub asset_times_price-there_and_back :
      (a : Asset) (p : Price) (x b q : ℕ)
      → a.amount ≡ pos x
      → p.base.amount ≡ pos b
      → p.quote.amount ≡ pos q
      → x < 2 ^ 63
      → b < 2 ^ 63
      → q < 2 ^ 63
      → x * q / b < 2 ^ 63
      → validate_price p ≡ ok tt
      → symbol_name a ≡ symbol_name p.base
      → (c d : Asset) × (asset_times_price wide a p ≡ ok c)
        × (c.amount ≡ pos (x * q / b))
        × (c.symbol ≡ p.quote.symbol)
        × (asset_times_price wide c p ≡ ok d)
        × (d.amount ≤ℤ a.amount)
        × (d.symbol ≡ p.base.symbol)
  asset_times_price-there_and_back a p x b q ea eb eq hx hb hq small v same =
      let valid = validate_price-ValidPrice p v in
      let hb' : 0 < b = ground (arith, valid.base_positive, eb) in
      let hq' : 0 < q = ground (arith, valid.quote_positive, eq) in
      let c = record p.quote { amount = pos (x * q / b) } in
      let d = record p.base { amount = pos (x * q / b * b / q) } in
      let back = there_and_back x q b in
      let forth : asset_times_price wide a p ≡ ok c =
        by_base a p (same ∙ valid.named_base) valid.named_base
        ∙ (rw ea (convert-floor x b q p.base p.quote eb eq hb' hx hb hq small)) in
      let return : asset_times_price wide c p ≡ ok d =
        by_quote c p (symbol_name-amount c p.quote refl ∙ valid.named_quote) valid.named_base
          valid.named_quote (name_eq_sym_false valid.base_name valid.quote_name valid.different)
        ∙ convert-floor (x * q / b) q b p.quote p.base eq eb hq' small hq hb
            (omega (arith, back)) in
      (c, d, forth, refl, refl, return, rw ea (omega (arith, back)), refl)
