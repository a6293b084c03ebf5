-- ===== src/Chain/Escrow/Books.antt =====
-- The escrow operations move money between accounts and escrows, and neither make nor lose any.
use wenode.Base.{
  ℕ, suc, ◌≡◌, refl, sym, ◌∙◌, ap, true, ◌||◌, not, some, List, ltb, leb, ◌==◌, is_some, ok,
  logic_error, out_of_range, assert_or, or_throw-eq-ok,
}
use wenode.Base.Returns.{Returns, gives, follows, after, after_assert, after_if}
use wenode.Base.Int.{ℤ, pos, parts, +ℤ_zero, ◌+ℤ◌, int_laws}
use wenode.Protocol.Names.{Name, name_eq}
use wenode.Protocol.Asset.{SafeInt, UInt128, add_asset, negate_asset}
use wenode.Protocol.Operations.{symbol_coin}
use wenode.Protocol.Operations.Escrow.{EscrowTransfer, EscrowApprove, EscrowDispute}
use wenode.Chain.Table.{find_by, insert_by, total, total-erase_by, total-insert_by, total-move_by}
use wenode.Chain.Ledger.{Escrow, Ledger, head_block_time, get_account, adjust_balance, assert_ge}
use wenode.Chain.Ledger.Held.{
  excess, locked, escrow_holds, withdraw_holds, order_holds, convert_holds, account_holds, supply,
  amount_in, Moved, Moved-refl, Moved-trans, add_asset-amount_in, negate_asset-amount_in, relock,
  zero-amount_in,
}
use wenode.Chain.Ledger.Adjust.{adjust_balance-Moved}
use wenode.Chain.Escrow.{
  is_escrow, get_escrow, escrow_precedes, create_escrow, put_escrow, remove_escrow, escrow_spent,
  escrow_transfer, refund_escrow, note_approval, escrow_approve, is_approved, escrow_dispute,
}

module _ (s : ℕ) where
  -- The escrows of a ledger change, and nothing else.
  escrows-excess :
      (l : Ledger) (es : List Escrow) (n : ℕ) (x y : ℤ)
      → total (escrow_holds s) es +ℤ x ≡ total (escrow_holds s) l.escrows +ℤ y
      → excess s (record l { escrows = es; next_escrow_object_id = n }) +ℤ x ≡ excess s l +ℤ y
  unfolding excess locked
  escrows-excess l es n x y h =
      relock (total (account_holds s) l.accounts) (total (escrow_holds s) l.escrows)
        (total (escrow_holds s) es) (total (withdraw_holds s) l.savings_withdraws)
        (total (order_holds s) l.limit_orders) (total (convert_holds s) l.convert_requests)
        (supply s l.properties) x y h

  put_escrow-excess :
      (from : Name) (id : ℕ) (e e' : Escrow) (l : Ledger)
      → find_by (is_escrow from id) l.escrows ≡ some e
      → excess s (put_escrow from id e' l) +ℤ escrow_holds s e ≡ excess s l +ℤ escrow_holds s e'
  unfolding put_escrow
  put_escrow-excess from id e e' l found =
      escrows-excess l _ l.next_escrow_object_id (escrow_holds s e) (escrow_holds s e')
        (total-move_by escrow_precedes (is_escrow from id) (escrow_holds s) e e' l.escrows found)

  remove_escrow-excess :
      (from : Name) (id : ℕ) (e : Escrow) (l : Ledger)
      → find_by (is_escrow from id) l.escrows ≡ some e
      → excess s (remove_escrow from id l) +ℤ escrow_holds s e ≡ excess s l +ℤ pos 0
  unfolding remove_escrow
  remove_escrow-excess from id e l found =
      escrows-excess l _ l.next_escrow_object_id (escrow_holds s e) (pos 0) (
        total-erase_by (is_escrow from id) (escrow_holds s) e l.escrows found
        ∙ sym (+ℤ_zero (total (escrow_holds s) l.escrows)))

  create_escrow-excess :
      (e : Escrow) (l : Ledger)
      → Returns (λ l'. excess s l' ≡ excess s l +ℤ escrow_holds s e) (create_escrow e l)
  unfolding create_escrow escrow_holds
  create_escrow-excess e l =
      let new : Escrow = record e { id = l.next_escrow_object_id } in
      let es = insert_by escrow_precedes new l.escrows in
      let sum = total-insert_by escrow_precedes (escrow_holds s) new l.escrows in
      after
        (assert_or (not (is_some (find_by (is_escrow e.from e.escrow_id) l.escrows))) logic_error) _
        (λ u unique. gives _ (
          sym (
            +ℤ_zero (
              excess s
                (record l { escrows = es; next_escrow_object_id = suc l.next_escrow_object_id })))
          ∙ escrows-excess l es (suc l.next_escrow_object_id) (pos 0) (escrow_holds s e)
              (omega (int_laws, parts sum))))

  pub get_escrow-find_by :
      (from : Name) (id : ℕ) (l : Ledger) {e : Escrow}
      → get_escrow from id l ≡ ok e
      → find_by (is_escrow from id) l.escrows ≡ some e
  unfolding get_escrow
  get_escrow-find_by from id l found =
      or_throw-eq-ok (find_by (is_escrow from id) l.escrows) out_of_range found

module _ (wide : UInt128) (safe : SafeInt) (s : ℕ) where
  escrow_spent-amount_in :
      (o : EscrowTransfer)
      → Returns
          (λ r.
            amount_in s r.0 +ℤ amount_in s r.1
            ≡ amount_in s o.tme_amount +ℤ amount_in s o.tsd_amount +ℤ amount_in s o.fee)
          (escrow_spent wide safe o)
  unfolding escrow_spent
  escrow_spent-amount_in o =
      after_if (o.fee.symbol == symbol_coin) _ _
        (λ coin. after (add_asset safe o.tme_amount o.fee) _ (λ tme added.
          let sum = add_asset-amount_in safe s o.tme_amount o.fee added in
          gives _ (omega (int_laws, parts sum))))
        (λ usd. after (add_asset safe o.tsd_amount o.fee) _ (λ tsd added.
          let sum = add_asset-amount_in safe s o.tsd_amount o.fee added in
          gives _ (omega (int_laws, parts sum))))

  pub escrow_transfer-excess :
      (o : EscrowTransfer) (l : Ledger)
      → Returns (λ l'. excess s l' ≡ excess s l) (escrow_transfer wide safe o l)
  unfolding escrow_transfer escrow_holds
  escrow_transfer-excess o l = after (get_account o.from l) _ (λ from found.
      after (get_account o.to l) _ (λ to found_to.
        after (get_account o.agent l) _ (λ agent found_agent.
          after_assert (ltb (head_block_time l) o.ratification_deadline) _ (λ h.
            after_assert (ltb (head_block_time l) o.escrow_expiration) _ (λ k.
              after (escrow_spent wide safe o) _ (λ spent spends.
                after (assert_ge from.balance (spent.0)) _ (λ u covers_tme.
                  after (assert_ge from.tsd.balance (spent.1)) _ (λ v covers_tsd.
                    after (negate_asset safe (spent.0)) _ (λ tme minus_tme.
                      after (adjust_balance wide safe o.from tme l) _ (λ l₁ paid_tme.
                        after (negate_asset safe (spent.1)) _ (λ tsd minus_tsd.
                          after (adjust_balance wide safe o.from tsd l₁) _ (λ l₂ paid_tsd.
                            follows (create_escrow-excess s _ l₂) (λ l₃ created.
                              let sum = (escrow_spent-amount_in o).returned spends in
                              let first = negate_asset-amount_in safe s (spent.0) minus_tme in
                              let second = negate_asset-amount_in safe s (spent.1) minus_tsd in
                              let one =
                                ((adjust_balance-Moved wide safe s o.from tme l).returned
                                  paid_tme).moved in
                              let two =
                                ((adjust_balance-Moved wide safe s o.from tsd l₁).returned
                                  paid_tsd).moved in
                              omega (
                                int_laws,
                                parts sum,
                                parts first,
                                parts second,
                                parts one,
                                parts two,
                                parts created,
                              ))))))))))))))

  pub refund_escrow-Moved :
      (name : Name) (e : Escrow) (l : Ledger)
      → Returns (Moved s (escrow_holds s e) l) (refund_escrow wide safe name e l)
  unfolding refund_escrow escrow_holds
  refund_escrow-Moved name e l = after (adjust_balance wide safe name e.tme_balance l) _ (λ l₁ tme.
      after (adjust_balance wide safe name e.tsd_balance l₁) _ (λ l₂ tsd.
        follows (adjust_balance-Moved wide safe s name e.pending_fee l₂) (λ l₃ third.
          let first = (adjust_balance-Moved wide safe s name e.tme_balance l).returned tme in
          let second = (adjust_balance-Moved wide safe s name e.tsd_balance l₁).returned tsd in
          Moved-trans s _ _ l l₂ l₃ (Moved-trans s _ _ l l₁ l₂ first second) third)))

  paid_out :
      (e e' : Escrow)
      → escrow_holds s e' ≡ escrow_holds s e
      → e'.pending_fee ≡ e.pending_fee
      → escrow_holds s (record e' { pending_fee = record (e.pending_fee) { amount = pos 0 } })
          +ℤ amount_in s e.pending_fee
        ≡ escrow_holds s e
  unfolding escrow_holds
  paid_out e e' same same_fee =
      let empty = zero-amount_in s e.pending_fee.symbol in
      let fee = ap (amount_in s) same_fee in omega (int_laws, parts same, parts fee, parts empty)

  -- An escrow is removed, and what it holds has been moved to accounts.
  pub removed-excess :
      (from : Name) (id : ℕ) (e : Escrow) (d : ℤ) (l l' : Ledger)
      → Moved s d l l'
      → find_by (is_escrow from id) l.escrows ≡ some e
      → d ≡ escrow_holds s e
      → excess s (remove_escrow from id l') ≡ excess s l
  removed-excess from id e d l l' h found all_of_it =
      let gone =
        remove_escrow-excess s from id e l'
          (ap (find_by (is_escrow from id)) h.same_escrows ∙ found) in
      omega (int_laws, parts h.moved, parts gone, parts all_of_it)

  -- An escrow is changed, and what it holds less has been moved to accounts.
  pub changed-excess :
      (from : Name) (id : ℕ) (e e' : Escrow) (d : ℤ) (l l' : Ledger)
      → Moved s d l l'
      → find_by (is_escrow from id) l.escrows ≡ some e
      → escrow_holds s e' +ℤ d ≡ escrow_holds s e
      → excess s (put_escrow from id e' l') ≡ excess s l
  changed-excess from id e e' d l l' h found less =
      let put =
        put_escrow-excess s from id e e' l'
          (ap (find_by (is_escrow from id)) h.same_escrows ∙ found) in
      omega (int_laws, parts h.moved, parts put, parts less)

  pub note_approval-holds :
      (o : EscrowApprove) (e : Escrow)
      → Returns
          (λ e'. (escrow_holds s e' ≡ escrow_holds s e) × (e'.pending_fee ≡ e.pending_fee))
          (note_approval wide safe o e)
  unfolding note_approval escrow_holds
  note_approval-holds o e = after_assert (not (name_eq o.who o.to) || not e.to_approved) _ (λ h.
      after_assert (not (name_eq o.who o.agent) || not e.agent_approved) _
        (λ k. gives _ (refl, refl)))

  pub escrow_approve-excess :
      (o : EscrowApprove) (l : Ledger)
      → Returns (λ l'. excess s l' ≡ excess s l) (escrow_approve wide safe o l)
  unfolding escrow_approve
  escrow_approve-excess o l = after (get_escrow o.from o.escrow_id l) _ (λ e got.
      after_assert (name_eq e.to o.to) _ (λ h. after_assert (name_eq e.agent o.agent) _ (λ k.
        after_assert (leb (head_block_time l) e.ratification_deadline) _ (λ m.
          after (note_approval wide safe o e) _ (λ e' noted.
            let found = get_escrow-find_by s o.from o.escrow_id l got in
            let same = (note_approval-holds o e).returned noted in
            after_if (not o.approve) _ _
              (λ rejected. after (refund_escrow wide safe o.from e l) _ (λ l₁ refunded. gives _ (
                removed-excess o.from o.escrow_id e _ l l₁
                  ((refund_escrow-Moved o.from e l).returned refunded) found refl)))
              (λ agreed.
                after_if (is_approved e') _ _
                  (λ all_agreed.
                    after (adjust_balance wide safe o.agent e.pending_fee l) _ (λ l₁ paid. gives _ (
                      changed-excess o.from o.escrow_id e _ (amount_in s e.pending_fee) l l₁
                        ((adjust_balance-Moved wide safe s o.agent e.pending_fee l).returned paid)
                        found (paid_out e e' (same.0) (same.1)))))
                  (λ waiting. gives _ (
                    changed-excess o.from o.escrow_id e e' (pos 0) l l (Moved-refl s l) found
                      (omega (int_laws, parts (same.0)))))))))))

  pub escrow_dispute-excess :
      (o : EscrowDispute) (l : Ledger)
      → Returns (λ l'. excess s l' ≡ excess s l) (escrow_dispute wide safe o l)
  unfolding escrow_dispute escrow_holds
  escrow_dispute-excess o l = after (get_account o.from l) _ (λ a there.
      after (get_escrow o.from o.escrow_id l) _ (λ e got.
        after_assert (ltb (head_block_time l) e.escrow_expiration) _ (λ h.
          after_assert (is_approved e) _ (λ k. after_assert (not e.disputed) _ (λ m.
            after_assert (name_eq e.to o.to) _ (λ n. after_assert (name_eq e.agent o.agent) _ (λ p.
              gives _ (
                changed-excess o.from o.escrow_id e (record e { disputed = true }) (pos 0) l l
                  (Moved-refl s l) (get_escrow-find_by s o.from o.escrow_id l got)
                  (+ℤ_zero (escrow_holds s e))))))))))
