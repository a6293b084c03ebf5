-- ===== src/Chain/Escrow/Fees.antt =====
-- No escrow that both parties have approved holds a fee.
use wenode.Base.{
  ℕ, ◌≡◌, refl, ◌∙◌, ap, true, false, ◌&&◌, ◌||◌, not, List, [], ◌∷◌, ltb, leb, is_some,
  logic_error, assert_or, arith,
}
use wenode.Base.Returns.{Returns, gives, after, after_assert, after_if}
use wenode.Base.Int.{ℤ, pos, eqb_ℤ}
use wenode.Protocol.Names.{Name, name_eq}
use wenode.Protocol.Asset.{SafeInt, UInt128, sub_asset, negate_asset}
use wenode.Protocol.Operations.Escrow.{EscrowTransfer, EscrowApprove, EscrowDispute, EscrowRelease}
use wenode.Chain.Table.{find_by, erase_by, move_by}
use wenode.Chain.Ledger.{Escrow, Ledger, head_block_time, get_account, adjust_balance, assert_ge}
use wenode.Chain.Ledger.Held.{Moved}
use wenode.Chain.Ledger.Adjust.{adjust_balance-Moved}
use wenode.Chain.Escrow.{
  is_escrow, get_escrow, escrow_precedes, create_escrow, put_escrow, remove_escrow, escrow_spent,
  escrow_transfer, refund_escrow, note_approval, escrow_approve, is_approved, escrow_dispute,
  may_release, escrow_release, expire_from, expire_escrow_ratification,
}
use wenode.Chain.Escrow.Books.{refund_escrow-Moved, get_escrow-find_by}
use wenode.Chain.Escrow.{fee_paid}
use wenode.Chain.Table.{all-find_by}
use wenode.Base.{all}
use wenode.Chain.Table.{all-erase_by, all-insert_by}

-- The fees of a ledger are paid.
unfoldable pub FeesPaid : Ledger → Type 0
FeesPaid l = all fee_paid l.escrows ≡ true

module _ (wide : UInt128) (safe : SafeInt) where
  put_escrow-FeesPaid :
      (from : Name) (id : ℕ) (e : Escrow) (l : Ledger)
      → FeesPaid l
      → fee_paid e ≡ true
      → FeesPaid (put_escrow from id e l)
  unfolding FeesPaid put_escrow move_by
  put_escrow-FeesPaid from id e l paid h =
      all-insert_by fee_paid escrow_precedes e (erase_by (is_escrow from id) l.escrows) h
        (all-erase_by fee_paid (is_escrow from id) l.escrows paid)

  remove_escrow-FeesPaid :
      (from : Name) (id : ℕ) (l : Ledger) → FeesPaid l → FeesPaid (remove_escrow from id l)
  unfolding FeesPaid remove_escrow
  remove_escrow-FeesPaid from id l paid = all-erase_by fee_paid (is_escrow from id) l.escrows paid

  Moved-FeesPaid : {d : ℤ} (l l' : Ledger) → Moved 0 d l l' → FeesPaid l → FeesPaid l'
  unfolding FeesPaid
  Moved-FeesPaid l l' h paid = ap (all fee_paid) h.same_escrows ∙ paid

  create_escrow-FeesPaid :
      (e : Escrow) (l : Ledger)
      → FeesPaid l
      → is_approved e ≡ false
      → Returns FeesPaid (create_escrow e l)
  unfolding create_escrow FeesPaid fee_paid is_approved
  create_escrow-FeesPaid e l paid waiting =
      after
        (assert_or (not (is_some (find_by (is_escrow e.from e.escrow_id) l.escrows))) logic_error) _
        (λ u unique. gives _ (
          all-insert_by fee_paid escrow_precedes (record e { id = l.next_escrow_object_id })
            l.escrows (rw waiting refl) paid))

  pub escrow_transfer-FeesPaid :
      (o : EscrowTransfer) (l : Ledger)
      → FeesPaid l
      → Returns FeesPaid (escrow_transfer wide safe o l)
  unfolding escrow_transfer is_approved
  escrow_transfer-FeesPaid o l paid = after (get_account o.from l) _ (λ from found.
      after (get_account o.to l) _ (λ to found_to.
        after (get_account o.agent l) _ (λ agent found_agent.
          after_assert (ltb (head_block_time l) o.ratification_deadline) _ (λ h.
            after_assert (ltb (head_block_time l) o.escrow_expiration) _ (λ k.
              after (escrow_spent wide safe o) _ (λ spent spends.
                after (assert_ge from.balance (spent.0)) _ (λ u covers_tme.
                  after (assert_ge from.tsd.balance (spent.1)) _ (λ v covers_tsd.
                    after (negate_asset safe (spent.0)) _ (λ tme minus_tme.
                      after (adjust_balance wide safe o.from tme l) _ (λ l₁ paid_tme.
                        after (negate_asset safe (spent.1)) _ (λ tsd minus_tsd.
                          after (adjust_balance wide safe o.from tsd l₁) _ (λ l₂ paid_tsd.
                            let one =
                              (adjust_balance-Moved wide safe 0 o.from tme l).returned paid_tme in
                            let two =
                              (adjust_balance-Moved wide safe 0 o.from tsd l₁).returned paid_tsd in
                            create_escrow-FeesPaid _ l₂
                              (Moved-FeesPaid l₁ l₂ two (Moved-FeesPaid l l₁ one paid))
                              refl))))))))))))

  pub escrow_approve-FeesPaid :
      (o : EscrowApprove) (l : Ledger)
      → FeesPaid l
      → Returns FeesPaid (escrow_approve wide safe o l)
  unfolding escrow_approve fee_paid
  escrow_approve-FeesPaid o l paid = after (get_escrow o.from o.escrow_id l) _ (λ e got.
      after_assert (name_eq e.to o.to) _ (λ h. after_assert (name_eq e.agent o.agent) _ (λ k.
        after_assert (leb (head_block_time l) e.ratification_deadline) _ (λ m.
          after (note_approval wide safe o e) _ (λ e' noted.
            after_if (not o.approve) _ _
              (λ rejected. after (refund_escrow wide safe o.from e l) _ (λ l₁ refunded.
                let one = (refund_escrow-Moved wide safe 0 o.from e l).returned refunded in
                gives _
                  (remove_escrow-FeesPaid o.from o.escrow_id l₁ (Moved-FeesPaid l l₁ one paid))))
              (λ agreed.
                after_if (is_approved e') _ _
                  (λ all_agreed.
                    after (adjust_balance wide safe o.agent e.pending_fee l) _ (λ l₁ paid_fee.
                      let one =
                        (adjust_balance-Moved wide safe 0 o.agent e.pending_fee l).returned
                          paid_fee in
                      gives _ (
                        put_escrow-FeesPaid o.from o.escrow_id _ l₁ (Moved-FeesPaid l l₁ one paid)
                          (ground arith))))
                  (λ waiting. gives _ (
                    put_escrow-FeesPaid o.from o.escrow_id e' l paid
                      (ground (arith, waiting))))))))))

  pub escrow_dispute-FeesPaid :
      (o : EscrowDispute) (l : Ledger)
      → FeesPaid l
      → Returns FeesPaid (escrow_dispute wide safe o l)
  unfolding escrow_dispute FeesPaid fee_paid is_approved
  escrow_dispute-FeesPaid o l paid = after (get_account o.from l) _ (λ a there.
      after (get_escrow o.from o.escrow_id l) _ (λ e got.
        after_assert (ltb (head_block_time l) e.escrow_expiration) _ (λ h.
          after_assert (is_approved e) _ (λ k. after_assert (not e.disputed) _ (λ m.
            after_assert (name_eq e.to o.to) _ (λ n. after_assert (name_eq e.agent o.agent) _ (λ p.
              gives _ (
                put_escrow-FeesPaid o.from o.escrow_id (record e { disputed = true }) l paid
                  (all-find_by fee_paid (is_escrow o.from o.escrow_id) e l.escrows paid
                    (get_escrow-find_by 0 o.from o.escrow_id l got))))))))))

  pub escrow_release-FeesPaid :
      (o : EscrowRelease) (l : Ledger)
      → FeesPaid l
      → Returns FeesPaid (escrow_release wide safe o l)
  unfolding escrow_release FeesPaid fee_paid is_approved
  escrow_release-FeesPaid o l paid = after (get_account o.from l) _ (λ a there.
      after (get_account o.receiver l) _ (λ b there_too.
        after (get_escrow o.from o.escrow_id l) _ (λ e got.
          after (assert_ge e.tme_balance o.tme_amount) _ (λ u h₁.
            after (assert_ge e.tsd_balance o.tsd_amount) _ (λ v h₂.
              after_assert (name_eq e.to o.to) _ (λ h₃.
                after_assert (name_eq e.agent o.agent) _ (λ h₄.
                  after_assert (name_eq o.receiver e.from || name_eq o.receiver e.to) _ (λ h₅.
                    after_assert (is_approved e) _ (λ approved.
                      after_assert (may_release wide safe (head_block_time l) o e) _ (λ may.
                        after (adjust_balance wide safe o.receiver o.tme_amount l) _ (λ l₁ paid_tme.
                          after (adjust_balance wide safe o.receiver o.tsd_amount l₁) _
                            (λ l₂ paid_tsd.
                              after (sub_asset safe e.tme_balance o.tme_amount) _ (λ tme less_tme.
                                after (sub_asset safe e.tsd_balance o.tsd_amount) _ (λ tsd less_tsd.
                                  let one =
                                    (adjust_balance-Moved wide safe 0 o.receiver o.tme_amount
                                        l).returned
                                      paid_tme in
                                  let two =
                                    (adjust_balance-Moved wide safe 0 o.receiver o.tsd_amount
                                        l₁).returned
                                      paid_tsd in
                                  let still =
                                    Moved-FeesPaid l₁ l₂ two (Moved-FeesPaid l l₁ one paid) in
                                  after_if (eqb_ℤ tme.amount (pos 0) && eqb_ℤ tsd.amount (pos 0)) _
                                    _
                                    (λ empty.
                                      gives _ (remove_escrow-FeesPaid o.from o.escrow_id l₂ still))
                                    (λ more. gives _ (
                                      put_escrow-FeesPaid o.from o.escrow_id
                                        (record e { tme_balance = tme; tsd_balance = tsd }) l₂ still
                                        (all-find_by fee_paid (is_escrow o.from o.escrow_id) e
                                          l.escrows paid
                                          (get_escrow-find_by 0 o.from o.escrow_id l
                                            got))))))))))))))))))

  expire_from-FeesPaid :
      (es : List Escrow) (l : Ledger) → FeesPaid l → Returns FeesPaid (expire_from wide safe es l)
  unfolding expire_from
  expire_from-FeesPaid [] l paid = gives _ paid
  expire_from-FeesPaid (e ∷ es) l paid =
      after_if (not (is_approved e) && leb e.ratification_deadline (head_block_time l)) _ _
        (λ due. after (refund_escrow wide safe e.from e l) _ (λ l₁ refunded.
          let one = (refund_escrow-Moved wide safe 0 e.from e l).returned refunded in
          expire_from-FeesPaid es (remove_escrow e.from e.escrow_id l₁)
            (remove_escrow-FeesPaid e.from e.escrow_id l₁ (Moved-FeesPaid l l₁ one paid))))
        (λ over. gives _ paid)

  pub expire_escrow_ratification-FeesPaid :
      (l : Ledger) → FeesPaid l → Returns FeesPaid (expire_escrow_ratification wide safe l)
  unfolding expire_escrow_ratification
  expire_escrow_ratification-FeesPaid l paid = expire_from-FeesPaid l.escrows l paid
