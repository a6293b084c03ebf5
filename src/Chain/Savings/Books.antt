-- ===== src/Chain/Savings/Books.antt =====
-- Transfers, and the way into savings and out of them, neither make nor lose money.
use wenode.Base.{
  ℕ, ◌≡◌, refl, sym, ◌∙◌, ap, true, false, not, some, List, [], ◌∷◌, ltb, is_some, ok, logic_error,
  out_of_range, assert_or, or_throw-eq-ok, arith, ◌+◌, ◌%◌, Bool-cases, inl, inr,
}
use wenode.Base.Returns.{Returns, gives, follows, after, after_assert, after_if}
use wenode.Base.Int.{ℤ, pos, parts, +ℤ_zero, ◌+ℤ◌, ◌-ℤ◌, int_laws}
use wenode.Protocol.Names.{Name, name_eq_refl}
use wenode.Protocol.Asset.{SafeInt, UInt128, negate_asset}
use wenode.Protocol.Operations.Transfers.{
  Transfer, TransferToSavings, TransferFromSavings, CancelTransferFromSavings,
}
use wenode.Chain.Table.{
  find_by, erase_by, insert_by, total, total-erase_by, total-insert_by, find_by-head, erase_by-head,
}
use wenode.Chain.Ledger.{
  Account, SavingsWithdraw, Ledger, head_block_time, get_account, adjust_balance,
  adjust_savings_balance, get_balance, get_savings_balance, assert_ge,
}
use wenode.Chain.Ledger.Held.{
  excess, locked, withdraw_holds, account_holds, supply, Moved, Kept, Kept-refl, Moved-refl,
  Moved-trans, negate_asset-amount_in, put_account-Moved,
}
use wenode.Chain.Ledger.Adjust.{adjust_balance-Moved, adjust_savings_balance-Moved}
use wenode.Chain.Savings.{
  withdraw_precedes, is_withdraw, get_savings_withdraw, create_withdraw, remove_withdraw,
  count_requests, prove_active, transfer, transfer_to_savings, transfer_from_savings,
  cancel_transfer_from_savings, process_from, process_savings_withdraws,
  savings_withdraw_request_limit,
}

module _ (s : ℕ) where
  withdraws-excess :
      (l : Ledger) (ws : List SavingsWithdraw) (x y : ℤ)
      → total (withdraw_holds s) ws +ℤ x ≡ total (withdraw_holds s) l.savings_withdraws +ℤ y
      → excess s (record l { savings_withdraws = ws }) +ℤ x ≡ excess s l +ℤ y
  unfolding excess locked
  withdraws-excess l ws x y h = omega (int_laws, parts h)

  remove_withdraw-excess :
      (from : Name) (id : ℕ) (w : SavingsWithdraw) (l : Ledger)
      → find_by (is_withdraw from id) l.savings_withdraws ≡ some w
      → excess s (remove_withdraw from id l) +ℤ withdraw_holds s w ≡ excess s l +ℤ pos 0
  unfolding remove_withdraw
  remove_withdraw-excess from id w l found = withdraws-excess l _ (withdraw_holds s w) (pos 0) (
      total-erase_by (is_withdraw from id) (withdraw_holds s) w l.savings_withdraws found
      ∙ sym (+ℤ_zero (total (withdraw_holds s) l.savings_withdraws)))

  create_withdraw-excess :
      (w : SavingsWithdraw) (l : Ledger)
      → Returns
          (λ l'. (excess s l' ≡ excess s l +ℤ withdraw_holds s w) × (l'.escrows ≡ l.escrows))
          (create_withdraw w l)
  unfolding create_withdraw
  create_withdraw-excess w l =
      let ws = insert_by withdraw_precedes w l.savings_withdraws in
      let sum = total-insert_by withdraw_precedes (withdraw_holds s) w l.savings_withdraws in
      after
        (assert_or (not (is_some (find_by (is_withdraw w.from w.request_id) l.savings_withdraws)))
          logic_error)
        _
        (λ u unique. gives _ (
          sym (+ℤ_zero (excess s (record l { savings_withdraws = ws })))
              ∙ withdraws-excess l ws (pos 0) (withdraw_holds s w) (omega (int_laws, parts sum)),
          refl,
        ))

  count_requests-Moved :
      (n : ℕ) (name : Name) (l : Ledger) → Returns (Moved s (pos 0) l) (count_requests n name l)
  unfolding count_requests account_holds
  count_requests-Moved n name l = after (get_account name l) _ (λ a found. gives _ (
      put_account-Moved s name l a
        (record a { savings_withdraw_requests = (a.savings_withdraw_requests + n) % 256 })
        l.properties (pos 0) found (sym (+ℤ_zero (account_holds s a -ℤ supply s l.properties)))
        refl))

  prove_active-Moved :
      (name : Name) (a : Account) (l : Ledger)
      → get_account name l ≡ ok a
      → Moved s (pos 0) l (prove_active name a l)
  unfolding prove_active account_holds
  prove_active-Moved name a l found = elim (Bool-cases a.active_challenged) [
    | inl challenged ↦ rw challenged (
        put_account-Moved s name l a
          (record a { active_challenged = false; last_active_proved = head_block_time l })
          l.properties (pos 0) found (sym (+ℤ_zero (account_holds s a -ℤ supply s l.properties)))
          refl)
    | inr quiet ↦ rw quiet (Moved-refl s l)
  ]

module _ (wide : UInt128) (safe : SafeInt) (s : ℕ) where
  pub transfer-Kept : (o : Transfer) (l : Ledger) → Returns (Kept s l) (transfer wide safe o l)
  unfolding transfer
  transfer-Kept o l = after (get_account o.from l) _ (λ a found.
      after (get_account o.to l) _ (λ b found_to.
        after (get_balance a o.amount.symbol) _ (λ balance has.
          after (assert_ge balance o.amount) _ (λ u enough.
            after (negate_asset safe o.amount) _ (λ minus negated.
              after (adjust_balance wide safe o.from minus (prove_active o.from a l)) _ (λ l₂ paid.
                follows (adjust_balance-Moved wide safe s o.to o.amount l₂) (λ l₃ received.
                  let zero = prove_active-Moved s o.from a l found in
                  let one =
                    (adjust_balance-Moved wide safe s o.from minus
                        (prove_active o.from a l)).returned
                      paid in
                  let sum = negate_asset-amount_in safe s o.amount negated in
                  record {
                    kept = omega (
                      int_laws,
                      parts zero.moved,
                      parts one.moved,
                      parts received.moved,
                      parts sum,
                    );
                    same_escrows = received.same_escrows ∙ one.same_escrows ∙ zero.same_escrows;
                  })))))))

  pub transfer_to_savings-Kept :
      (o : TransferToSavings) (l : Ledger) → Returns (Kept s l) (transfer_to_savings wide safe o l)
  unfolding transfer_to_savings
  transfer_to_savings-Kept o l = after (get_account o.from l) _ (λ a found.
      after (get_account o.to l) _ (λ b found_to.
        after (get_balance a o.amount.symbol) _ (λ balance has.
          after (assert_ge balance o.amount) _ (λ u enough.
            after (negate_asset safe o.amount) _ (λ minus negated.
              after (adjust_balance wide safe o.from minus l) _ (λ l₁ paid.
                follows (adjust_savings_balance-Moved wide safe s o.to o.amount l₁) (λ l₂ received.
                  let one = (adjust_balance-Moved wide safe s o.from minus l).returned paid in
                  let sum = negate_asset-amount_in safe s o.amount negated in
                  record {
                    kept = omega (int_laws, parts one.moved, parts received.moved, parts sum);
                    same_escrows = received.same_escrows ∙ one.same_escrows;
                  })))))))

  pub transfer_from_savings-Kept :
      (o : TransferFromSavings) (l : Ledger)
      → Returns (Kept s l) (transfer_from_savings wide safe o l)
  unfolding transfer_from_savings withdraw_holds
  transfer_from_savings-Kept o l = after (get_account o.from l) _ (λ a found.
      after (get_account o.to l) _ (λ b found_to.
        after_assert (ltb a.savings_withdraw_requests savings_withdraw_request_limit) _ (λ few.
          after (get_savings_balance a o.amount.symbol) _ (λ balance has.
            after (assert_ge balance o.amount) _ (λ u enough.
              after (negate_asset safe o.amount) _ (λ minus negated.
                after (adjust_savings_balance wide safe o.from minus l) _ (λ l₁ paid.
                  after (create_withdraw _ l₁) _ (λ l₂ created.
                    follows (count_requests-Moved s 1 o.from l₂) (λ l₃ counted.
                      let one =
                        (adjust_savings_balance-Moved wide safe s o.from minus l).returned paid in
                      let two = (create_withdraw-excess s _ l₁).returned created in
                      let sum = negate_asset-amount_in safe s o.amount negated in
                      record {
                        kept = omega (
                          int_laws,
                          parts one.moved,
                          parts (two.0),
                          parts counted.moved,
                          parts sum,
                        );
                        same_escrows = counted.same_escrows ∙ two.1 ∙ one.same_escrows;
                      })))))))))

  get_savings_withdraw-find_by :
      (from : Name) (id : ℕ) (l : Ledger) {w : SavingsWithdraw}
      → get_savings_withdraw from id l ≡ ok w
      → find_by (is_withdraw from id) l.savings_withdraws ≡ some w
  unfolding get_savings_withdraw
  get_savings_withdraw-find_by from id l got =
      or_throw-eq-ok (find_by (is_withdraw from id) l.savings_withdraws) out_of_range got

  pub cancel_transfer_from_savings-Kept :
      (o : CancelTransferFromSavings) (l : Ledger)
      → Returns (Kept s l) (cancel_transfer_from_savings wide safe o l)
  unfolding cancel_transfer_from_savings withdraw_holds remove_withdraw
  cancel_transfer_from_savings-Kept o l =
      after (get_savings_withdraw o.from o.request_id l) _ (λ w got.
        after (adjust_savings_balance wide safe w.from w.amount l) _ (λ l₁ returned.
          follows (count_requests-Moved s 255 o.from (remove_withdraw o.from o.request_id l₁))
            (λ l₂ counted.
              let one =
                (adjust_savings_balance-Moved wide safe s w.from w.amount l).returned returned in
              let found =
                ap (find_by (is_withdraw o.from o.request_id)) one.same_withdraws
                ∙ get_savings_withdraw-find_by o.from o.request_id l got in
              let two = remove_withdraw-excess s o.from o.request_id w l₁ found in
              record {
                kept = omega (int_laws, parts one.moved, parts two, parts counted.moved);
                same_escrows = counted.same_escrows ∙ one.same_escrows;
              })))

  it_is_first : (w : SavingsWithdraw) → is_withdraw w.from w.request_id w ≡ true
  unfolding is_withdraw
  it_is_first w = ground (arith, name_eq_refl w.from)

  process_from-Kept :
      (ws : List SavingsWithdraw) (l : Ledger)
      → l.savings_withdraws ≡ ws
      → Returns (Kept s l) (process_from wide safe ws l)
  unfolding process_from withdraw_holds remove_withdraw
  process_from-Kept [] l listed = gives _ (Kept-refl s l)
  process_from-Kept (w ∷ ws) l listed =
      after_if (ltb (head_block_time l) w.complete) _ _ (λ early. gives _ (Kept-refl s l))
        (λ due. after (adjust_balance wide safe w.to w.amount l) _ (λ l₁ paid.
          after (count_requests 255 w.from l₁) _ (λ l₂ counted.
            let one = (adjust_balance-Moved wide safe s w.to w.amount l).returned paid in
            let two = (count_requests-Moved s 255 w.from l₁).returned counted in
            let both = Moved-trans s _ _ l l₁ l₂ one two in
            let test = is_withdraw w.from w.request_id in
            let found =
              ap (find_by test) (both.same_withdraws ∙ listed)
              ∙ find_by-head test w ws (it_is_first w) in
            let gone = remove_withdraw-excess s w.from w.request_id w l₂ found in
            let rest =
              ap (erase_by test) (both.same_withdraws ∙ listed)
              ∙ erase_by-head test w ws (it_is_first w) in
            follows (process_from-Kept ws (remove_withdraw w.from w.request_id l₂) rest) (λ l' same.
              record {
                kept = omega (int_laws, parts both.moved, parts gone, parts same.kept);
                same_escrows = same.same_escrows ∙ both.same_escrows;
              }))))

  pub process_savings_withdraws-Kept :
      (l : Ledger) → Returns (Kept s l) (process_savings_withdraws wide safe l)
  unfolding process_savings_withdraws
  process_savings_withdraws-Kept l = process_from-Kept l.savings_withdraws l refl
