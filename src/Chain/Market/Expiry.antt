-- ===== src/Chain/Market/Expiry.antt =====
-- `clear_expired_orders`: its loop ends with no expired order left, and it keeps the books.
use wenode.Base.{
  ℕ, zero, suc, ◌≤◌, ◌≡◌, refl, sym, ◌∙◌, ap, Bool, true, false, not, none, some, List, [], ◌∷◌,
  ltb, length, all, ok, Option-cases, Bool-cases, inl, inr, arith,
}
use wenode.Base.Returns.{Returns, gives, follows, after, after_if, after_option}
use wenode.Protocol.Asset.{SafeInt, UInt128}
use wenode.Chain.Table.{find_by, length-erase_by}
use wenode.Chain.Ledger.{LimitOrder, Ledger, head_block_time, adjust_balance, amount_for_sale}
use wenode.Chain.Ledger.Held.{Kept, Kept-refl, Kept-trans}
use wenode.Chain.Ledger.Adjust.{adjust_balance-Moved}
use wenode.Chain.Market.{
  is_order, order_at, remove_order, cancel_order, expires_first, soonest, clear_expired,
  clear_expired_orders,
}
use wenode.Chain.Market.Books.{order_at-find_by, cancel_order-Kept}

-- The order has not expired.
unfoldable pub is_live : ℕ → LimitOrder → Bool
is_live now o = not (ltb o.expiration now)

not_expired : (o : LimitOrder) (now : ℕ) → ltb o.expiration now ≡ false → is_live now o ≡ true
unfolding is_live
not_expired o now h = rw h refl

all-empty : (p : LimitOrder → Bool) (os : List LimitOrder) → length os ≤ 0 → all p os ≡ true
all-empty p [] h = refl
all-empty p (o ∷ os) h = ground (arith, h)

soonest-none : (os : List LimitOrder) → soonest os ≡ none → os ≡ []
unfolding soonest expires_first
soonest-none [] h = refl
soonest-none (p ∷ os) h = elim (Option-cases (soonest os)) [
  | inl nothing ↦ (let h' = rw nothing at h in cc)
  | inr (q, there) ↦
      (let h' = rw there at h in
        elim (Bool-cases (expires_first q p)) [
          | inl yes_it_is ↦ (let h'' = rw yes_it_is at h' in cc)
          | inr other ↦ (let h'' = rw other at h' in cc)
        ])
]

soonest-is_live :
    (now : ℕ) (os : List LimitOrder) {o : LimitOrder}
    → soonest os ≡ some o
    → is_live now o ≡ true
    → all (is_live now) os ≡ true
unfolding soonest is_live expires_first
soonest-is_live now [] first live = refl
soonest-is_live now (p ∷ os) {o} first live = elim (Option-cases (soonest os)) [
  | inl nothing ↦
      (let same : p ≡ o = ground (arith, rw nothing at first) in
        rw (soonest-none os nothing)
          (let lives : is_live now p ≡ true = rw same live in ground (arith, lives)))
  | inr (q, there) ↦
      (let first' = rw there at first in
        elim (Bool-cases (expires_first q p)) [
          | inl earlier ↦
              (let same : q ≡ o = ground (arith, rw earlier at first') in
                let q_lives : is_live now q ≡ true = rw same live in
                let rest = soonest-is_live now os there q_lives in
                ground (arith, earlier, q_lives, rest))
          | inr later ↦
              (let same : p ≡ o = ground (arith, rw later at first') in
                let p_lives : is_live now p ≡ true = rw same live in
                let q_lives : is_live now q ≡ true = ground (arith, later, p_lives) in
                let rest = soonest-is_live now os there q_lives in ground (arith, p_lives, rest))
        ])
]

module _ (wide : UInt128) (safe : SafeInt) where
  cancel_order-orders :
      (id : ℕ) (l : Ledger)
      → Returns
          (λ l'.
            (suc (length l'.limit_orders) ≡ length l.limit_orders)
            × (head_block_time l' ≡ head_block_time l))
          (cancel_order wide safe id l)
  unfolding cancel_order remove_order
  cancel_order-orders id l = after (order_at id l) _ (λ o there.
      after (adjust_balance wide safe o.seller (amount_for_sale o) l) _ (λ l₁ paid.
        let h = (adjust_balance-Moved wide safe 0 o.seller (amount_for_sale o) l).returned paid in
        let found = ap (find_by (is_order id)) h.same_orders ∙ order_at-find_by 0 id l there in
        gives _ (
          length-erase_by (is_order id) o l₁.limit_orders found ∙ ap length h.same_orders,
          h.same_time,
        )))

  clear_expired-is_live :
      (fuel : ℕ) (l : Ledger)
      → length l.limit_orders ≤ fuel
      → Returns
          (λ l'. all (is_live (head_block_time l)) l'.limit_orders ≡ true)
          (clear_expired wide safe fuel l)
  unfolding clear_expired
  clear_expired-is_live zero l enough =
      gives _ (all-empty (is_live (head_block_time l)) l.limit_orders enough)
  clear_expired-is_live (suc fuel) l enough =
      after_option (soonest l.limit_orders) _ _
        (λ nothing.
          gives _ (ap (all (is_live (head_block_time l))) (soonest-none l.limit_orders nothing)))
        (λ o first.
          after_if (ltb o.expiration (head_block_time l)) _ _
            (λ expired. after (cancel_order wide safe o.id l) _ (λ l₁ cancelled.
              let h = (cancel_order-orders o.id l).returned cancelled in
              follows (clear_expired-is_live fuel l₁ (omega (arith, h.0, enough)))
                (λ l' live. ap (λ now. all (is_live now) l'.limit_orders) (sym (h.1)) ∙ live)))
            (λ live. gives _ (
              soonest-is_live (head_block_time l) l.limit_orders first
                (not_expired o (head_block_time l) live))))

  clear_expired-Kept :
      (s : ℕ) (fuel : ℕ) (l : Ledger) → Returns (Kept s l) (clear_expired wide safe fuel l)
  unfolding clear_expired
  clear_expired-Kept s zero l = gives _ (Kept-refl s l)
  clear_expired-Kept s (suc fuel) l =
      after_option (soonest l.limit_orders) _ _ (λ nothing. gives _ (Kept-refl s l))
        (λ o first.
          after_if (ltb o.expiration (head_block_time l)) _ _
            (λ expired. after (cancel_order wide safe o.id l) _ (λ l₁ cancelled.
              let h = (cancel_order-Kept wide safe s o.id l).returned cancelled in
              follows (clear_expired-Kept s fuel l₁) (λ l' rest. Kept-trans s h rest)))
            (λ live. gives _ (Kept-refl s l)))

  pub clear_expired_orders-Kept :
      (s : ℕ) (l : Ledger) → Returns (Kept s l) (clear_expired_orders wide safe l)
  unfolding clear_expired_orders
  clear_expired_orders-Kept s l = clear_expired-Kept s (length l.limit_orders) l

  -- When `clear_expired_orders` returns, no order is left whose expiration is before the head
  -- block's time: the bound on its rounds does not cut the loop short.
  pub clear_expired_orders-is_live :
      (l : Ledger) {l' : Ledger}
      → clear_expired_orders wide safe l ≡ ok l'
      → all (is_live (head_block_time l)) l'.limit_orders ≡ true
  unfolding clear_expired_orders
  clear_expired_orders-is_live l done =
      (clear_expired-is_live (length l.limit_orders) l (omega arith)).returned done
