-- ===== src/Chain/Market/Books.antt =====
-- Orders on the market move money between accounts and orders, and neither make nor lose any.
use wenode.Base.{
  ℕ, suc, ◌≡◌, refl, sym, ◌∙◌, ap, ap₂, Bool, true, ◌||◌, not, some, List, [], ◌∷◌, ◌==◌, is_some,
  ok, logic_error, undefined, assert_or, or_throw-eq-ok, arith,
}
use wenode.Base.Returns.{Returns, gives, follows, after, after_assert, after_if}
use wenode.Base.Int.{ℤ, pos, parts, eqb_ℤ, eqb_ℤ-eq, +ℤ_zero, ◌+ℤ◌, int_laws}
use wenode.Protocol.Names.{Name, name_eq}
use wenode.Protocol.Asset.{
  Asset, Price, SafeInt, UInt128, negate_asset, asset_eq, asset_times_price, make_price, inverse,
  symbol_name,
}
use wenode.Protocol.Operations.Market.{LimitOrderCreate, LimitOrderCreate2, LimitOrderCancel}
use wenode.Chain.Table.{
  find_by, insert_by, total, total-erase_by, total-insert_by, total-replace_by,
}
use wenode.Chain.Ledger.{LimitOrder, Ledger, adjust_balance, amount_for_sale}
use wenode.Chain.Ledger.Held.{
  excess, locked, order_holds, amount_in, Kept, Kept-refl, Kept-trans, negate_asset-amount_in,
  sub_amount_in,
}
use wenode.Chain.Ledger.Adjust.{adjust_balance-Moved}
use wenode.Chain.Market.{
  is_order, order_at, put_order, remove_order, is_order_of, get_limit_order, order_precedes,
  create_order, cancel_order, fill_order, trade, match_orders, match_all, matching, apply_order,
  place_order, check_order, limit_order_create, limit_order_create2, limit_order_cancel,
}

module _ (s : ℕ) where
  -- The orders of a ledger change, and nothing else.
  orders-excess :
      (l : Ledger) (os : List LimitOrder) (n : ℕ) (x y : ℤ)
      → total (order_holds s) os +ℤ x ≡ total (order_holds s) l.limit_orders +ℤ y
      → excess s (record l { limit_orders = os; next_order_id = n }) +ℤ x ≡ excess s l +ℤ y
  unfolding excess locked
  orders-excess l os n x y h = omega (int_laws, parts h)

  put_order-excess :
      (id : ℕ) (o o' : LimitOrder) (l : Ledger)
      → find_by (is_order id) l.limit_orders ≡ some o
      → excess s (put_order id o' l) +ℤ order_holds s o ≡ excess s l +ℤ order_holds s o'
  unfolding put_order
  put_order-excess id o o' l found =
      orders-excess l _ l.next_order_id (order_holds s o) (order_holds s o')
        (total-replace_by (is_order id) (order_holds s) o o' l.limit_orders found)

  remove_order-excess :
      (id : ℕ) (o : LimitOrder) (l : Ledger)
      → find_by (is_order id) l.limit_orders ≡ some o
      → excess s (remove_order id l) +ℤ order_holds s o ≡ excess s l
  unfolding remove_order
  remove_order-excess id o l found =
      orders-excess l _ l.next_order_id (order_holds s o) (pos 0) (
        total-erase_by (is_order id) (order_holds s) o l.limit_orders found
        ∙ sym (+ℤ_zero (total (order_holds s) l.limit_orders)))
      ∙ +ℤ_zero (excess s l)

  create_order-excess :
      (wide : UInt128) (safe : SafeInt) (o : LimitOrder) (l : Ledger)
      → Returns
          (λ l'. (excess s l' ≡ excess s l +ℤ order_holds s o) × (l'.escrows ≡ l.escrows))
          (create_order wide safe o l)
  unfolding create_order order_holds amount_for_sale
  create_order-excess wide safe o l =
      let new : LimitOrder = record o { id = l.next_order_id } in
      let os = insert_by (order_precedes wide safe) new l.limit_orders in
      let sum = total-insert_by (order_precedes wide safe) (order_holds s) new l.limit_orders in
      after
        (assert_or (not (is_some (find_by (is_order_of o.seller o.order_id) l.limit_orders)))
          logic_error)
        _
        (λ u unique. gives _ (
          sym (
                +ℤ_zero
                  (excess s (record l { limit_orders = os; next_order_id = suc l.next_order_id })))
              ∙ orders-excess l os (suc l.next_order_id) (pos 0) (order_holds s o)
                  (omega (int_laws, parts sum)),
          refl,
        ))

  pub order_at-find_by :
      (id : ℕ) (l : Ledger) {o : LimitOrder}
      → order_at id l ≡ ok o
      → find_by (is_order id) l.limit_orders ≡ some o
  unfolding order_at
  order_at-find_by id l there =
      or_throw-eq-ok (find_by (is_order id) l.limit_orders) undefined there

  asset_eq-amount_in : (a b : Asset) → asset_eq a b ≡ true → amount_in s a ≡ amount_in s b
  unfolding asset_eq
  asset_eq-amount_in a b same =
      let symbols : a.symbol ≡ b.symbol = ground (arith, same) in
      let amounts = eqb_ℤ-eq a.amount b.amount (ground (arith, same)) in
      ap₂ (λ n x. amount_in s (record { amount = n; symbol = x })) amounts symbols

module _ (wide : UInt128) (safe : SafeInt) (s : ℕ) where
  pub cancel_order-Kept : (id : ℕ) (l : Ledger) → Returns (Kept s l) (cancel_order wide safe id l)
  unfolding cancel_order order_holds remove_order
  cancel_order-Kept id l = after (order_at id l) _ (λ o there.
      after (adjust_balance wide safe o.seller (amount_for_sale o) l) _ (λ l₁ paid.
        let h = (adjust_balance-Moved wide safe s o.seller (amount_for_sale o) l).returned paid in
        let gone =
          remove_order-excess s id o l₁
            (ap (find_by (is_order id)) h.same_orders ∙ order_at-find_by s id l there) in
        gives _ (record {
          kept = omega (int_laws, parts h.moved, parts gone);
          same_escrows = h.same_escrows;
        })))

  fill_order-excess :
      (id : ℕ) (pays receives : Asset) (l : Ledger)
      → Returns
          (λ r.
            (excess s r.1 +ℤ amount_in s pays ≡ excess s l +ℤ amount_in s receives)
            × (r.1.escrows ≡ l.escrows))
          (fill_order wide safe id pays receives l)
  unfolding fill_order order_holds amount_for_sale put_order remove_order
  fill_order-excess id pays receives l = after (order_at id l) _ (λ o there.
      after_assert (o.sell_price.base.symbol == pays.symbol) _ (λ own.
        after_assert (not (pays.symbol == receives.symbol)) _ (λ other.
          after (adjust_balance wide safe o.seller receives l) _ (λ l₁ paid.
            let h = (adjust_balance-Moved wide safe s o.seller receives l).returned paid in
            let found = ap (find_by (is_order id)) h.same_orders ∙ order_at-find_by s id l there in
            after_if (asset_eq pays (amount_for_sale o)) _ _
              (λ all_of_it.
                let gone = remove_order-excess s id o l₁ found in
                let same = asset_eq-amount_in s pays (amount_for_sale o) all_of_it in
                gives _ (omega (int_laws, parts h.moved, parts gone, parts same), h.same_escrows))
              (λ part. after (safe.sub o.for_sale pays.amount) _ (λ left taken.
                let o' : LimitOrder = record o { for_sale = left } in
                let less =
                  sub_amount_in safe s o.sell_price.base.symbol o.for_sale pays taken
                    (ground (arith, own)) in
                let put = put_order-excess s id o o' l₁ found in
                after (asset_times_price wide (amount_for_sale o') o.sell_price) _ (λ wants worth.
                  after_if (eqb_ℤ wants.amount (pos 0)) _ _
                    (λ worthless.
                      after (cancel_order wide safe id (put_order id o' l₁)) _ (λ l₂ cancelled.
                        let same = (cancel_order-Kept id (put_order id o' l₁)).returned cancelled in
                        gives _ (
                          omega (int_laws, parts h.moved, parts put, parts less, parts same.kept),
                          same.same_escrows ∙ h.same_escrows,
                        )))
                    (λ more. gives _ (
                      omega (int_laws, parts h.moved, parts put, parts less),
                      h.same_escrows,
                    )))))))))

  match_orders-Kept :
      (new_id old_id : ℕ) (l : Ledger)
      → Returns (λ r. Kept s l r.2) (match_orders wide safe new_id old_id l)
  unfolding match_orders
  match_orders-Kept new_id old_id l = after (order_at new_id l) _ (λ new there.
      after (order_at old_id l) _ (λ old there_too. after (trade wide safe new old) _ (λ t traded.
        after (fill_order wide safe new_id (t.0) (t.1) l) _ (λ r filled.
          after (fill_order wide safe old_id (t.1) (t.0) (r.1)) _ (λ q filled_too.
            let one = (fill_order-excess new_id (t.0) (t.1) l).returned filled in
            let two = (fill_order-excess old_id (t.1) (t.0) (r.1)).returned filled_too in
            gives _ (record {
              kept = omega (int_laws, parts (one.0), parts (two.0));
              same_escrows = two.1 ∙ one.1;
            }))))))

  match_all-Kept :
      (olds : List LimitOrder) (id : ℕ) (l : Ledger)
      → Returns (Kept s l) (match_all wide safe olds id l)
  unfolding match_all
  match_all-Kept [] id l = gives _ (Kept-refl s l)
  match_all-Kept (old ∷ olds) id l = after (match_orders wide safe id old.id l) _ (λ r matched.
      let same = (match_orders-Kept id old.id l).returned matched in
      after_if (r.0) _ _ (λ finished. gives _ same)
        (λ more. follows (match_all-Kept olds id (r.2)) (λ l' rest. Kept-trans s same rest)))

  apply_order-Kept :
      (id : ℕ) (l : Ledger) → Returns (λ r. Kept s l r.1) (apply_order wide safe id l)
  unfolding apply_order
  apply_order-Kept id l = after (order_at id l) _ (λ o there.
      after (matching wide safe (inverse o.sell_price) l) _ (λ olds range.
        after (match_all wide safe olds id l) _
          (λ l₁ matched. gives _ ((match_all-Kept olds id l).returned matched))))

  place_order-Kept :
      (owner : Name) (order_id : ℕ) (sell : Asset) (p : Price) (fill_or_kill : Bool)
      (expiration : ℕ) (l : Ledger)
      → p.base.symbol ≡ sell.symbol
      → Returns (Kept s l) (place_order wide safe owner order_id sell p fill_or_kill expiration l)
  unfolding place_order order_holds amount_for_sale
  place_order-Kept owner order_id sell p fill_or_kill expiration l same_symbol =
      after (negate_asset safe sell) _ (λ minus negated.
        after (adjust_balance wide safe owner minus l) _ (λ l₁ paid.
          after (create_order wide safe _ l₁) _ (λ l₂ created.
            after (apply_order wide safe l₁.next_order_id l₂) _ (λ r applied.
              after_assert (not fill_or_kill || r.0) _ (λ h.
                let one = (adjust_balance-Moved wide safe s owner minus l).returned paid in
                let two = (create_order-excess s wide safe _ l₁).returned created in
                let three = (apply_order-Kept l₁.next_order_id l₂).returned applied in
                let sum = negate_asset-amount_in safe s sell negated in
                let locks =
                  ap (λ x. amount_in s (record { amount = sell.amount; symbol = x })) same_symbol in
                gives _ (record {
                  kept = omega (
                    int_laws,
                    parts one.moved,
                    parts (two.0),
                    parts three.kept,
                    parts sum,
                    parts locks,
                  );
                  same_escrows = three.same_escrows ∙ two.1 ∙ one.same_escrows;
                }))))))

  make_price-base : (x y : Asset) → Returns (λ p. p.base.symbol ≡ x.symbol) (make_price x y)
  unfolding make_price
  make_price-base x y = after (symbol_name x) _ (λ b named.
      after (symbol_name y) _
        (λ q named_too. after_assert (not (name_eq b q)) _ (λ h. gives _ refl)))

  pub limit_order_create-Kept :
      (o : LimitOrderCreate) (l : Ledger) → Returns (Kept s l) (limit_order_create wide safe o l)
  unfolding limit_order_create
  limit_order_create-Kept o l =
      after (check_order wide safe o.owner o.amount_to_sell o.expiration l) _ (λ u checked.
        after (make_price o.amount_to_sell o.min_to_receive) _ (λ p priced.
          place_order-Kept o.owner o.order_id o.amount_to_sell p o.fill_or_kill o.expiration l
            ((make_price-base o.amount_to_sell o.min_to_receive).returned priced)))

  -- The operation is validated before.
  pub limit_order_create2-Kept :
      (o : LimitOrderCreate2) (l : Ledger)
      → o.exchange_rate.base.symbol ≡ o.amount_to_sell.symbol
      → Returns (Kept s l) (limit_order_create2 wide safe o l)
  unfolding limit_order_create2
  limit_order_create2-Kept o l same =
      after (check_order wide safe o.owner o.amount_to_sell o.expiration l) _ (λ u checked.
        place_order-Kept o.owner o.order_id o.amount_to_sell o.exchange_rate o.fill_or_kill
          o.expiration l same)

  pub limit_order_cancel-Kept :
      (b : Bool) (o : LimitOrderCancel) (l : Ledger)
      → Returns (Kept s l) (limit_order_cancel wide safe b o l)
  unfolding limit_order_cancel
  limit_order_cancel-Kept b o l =
      after (get_limit_order b o.owner o.order_id l) _ (λ order there. cancel_order-Kept order.id l)

  -- A match that goes through moves money between accounts and orders, and neither makes nor loses
  -- any, whichever of the two orders it fills, and where the rest of one is too small to trade too.
  pub match_orders-excess :
      (new_id old_id : ℕ) (l : Ledger) {new_filled old_filled : Bool} {l' : Ledger}
      → match_orders wide safe new_id old_id l ≡ ok (new_filled, old_filled, l')
      → excess s l' ≡ excess s l
  match_orders-excess new_id old_id l done =
      ((match_orders-Kept new_id old_id l).returned done).kept
