-- ===== src/Chain/Escrow/Settle.antt =====
-- Where an escrow ends, all that it held has gone to accounts.
use wenode.Base.{ℕ, ◌≡◌, refl, ◌∙◌, ap, true, ◌&&◌, ◌||◌, not, some, List, [], ◌∷◌, leb, arith}
use wenode.Base.Returns.{Returns, gives, follows, after, after_assert, after_if}
use wenode.Base.Int.{pos, parts, eqb_ℤ, int_laws}
use wenode.Protocol.Names.{Name, name_eq, name_eq_refl}
use wenode.Protocol.Asset.{Asset, SafeInt, UInt128, sub_asset}
use wenode.Protocol.Operations.Escrow.{EscrowRelease}
use wenode.Chain.Table.{find_by, erase_by}
use wenode.Chain.Ledger.{Escrow, Ledger, head_block_time, get_account, adjust_balance, assert_ge}
use wenode.Chain.Ledger.Held.{
  excess, escrow_holds, amount_in, Moved-trans, sub_asset-amount_in, zero-amount_in,
}
use wenode.Chain.Ledger.Adjust.{adjust_balance-Moved}
use wenode.Chain.Escrow.{
  is_escrow, get_escrow, remove_escrow, refund_escrow, is_approved, may_release, escrow_release,
  expire_from, expire_escrow_ratification,
}
use wenode.Chain.Escrow.Books.{
  removed-excess, changed-excess, refund_escrow-Moved, get_escrow-find_by,
}
use wenode.Chain.Escrow.{fee_paid}
use wenode.Chain.Table.{all-find_by, find_by-head, erase_by-head}
use wenode.Base.{all}
use wenode.Base.Int.{eqb_ℤ-eq}

module _ (wide : UInt128) (safe : SafeInt) (s : ℕ) where
  no_fee-amount_in :
      (e : Escrow) → is_approved e ≡ true → fee_paid e ≡ true → amount_in s e.pending_fee ≡ pos 0
  unfolding fee_paid
  no_fee-amount_in e approved h =
      let zero : e.pending_fee.amount ≡ pos 0 =
        eqb_ℤ-eq e.pending_fee.amount (pos 0) (ground (arith, h, approved)) in
      ap (λ x. amount_in s (record { amount = x; symbol = e.pending_fee.symbol })) zero
      ∙ zero-amount_in s e.pending_fee.symbol

  pub none_left : (a : Asset) → eqb_ℤ a.amount (pos 0) ≡ true → amount_in s a ≡ pos 0
  none_left a h =
      ap (λ x. amount_in s (record { amount = x; symbol = a.symbol })) (eqb_ℤ-eq a.amount (pos 0) h)
      ∙ zero-amount_in s a.symbol

  pub escrow_release-excess :
      (o : EscrowRelease) (l : Ledger)
      → all fee_paid l.escrows ≡ true
      → Returns (λ l'. excess s l' ≡ excess s l) (escrow_release wide safe o l)
  unfolding escrow_release escrow_holds
  escrow_release-excess o l paid = after (get_account o.from l) _ (λ a there.
      after (get_account o.receiver l) _ (λ b there_too.
        after (get_escrow o.from o.escrow_id l) _ (λ e got.
          after (assert_ge e.tme_balance o.tme_amount) _ (λ u h₁.
            after (assert_ge e.tsd_balance o.tsd_amount) _ (λ v h₂.
              after_assert (name_eq e.to o.to) _ (λ h₃.
                after_assert (name_eq e.agent o.agent) _ (λ h₄.
                  after_assert (name_eq o.receiver e.from || name_eq o.receiver e.to) _ (λ h₅.
                    after_assert (is_approved e) _ (λ approved.
                      after_assert (may_release wide safe (head_block_time l) o e) _ (λ may.
                        after (adjust_balance wide safe o.receiver o.tme_amount l) _ (λ l₁ paid_tme.
                          after (adjust_balance wide safe o.receiver o.tsd_amount l₁) _
                            (λ l₂ paid_tsd.
                              after (sub_asset safe e.tme_balance o.tme_amount) _ (λ tme less_tme.
                                after (sub_asset safe e.tsd_balance o.tsd_amount) _ (λ tsd less_tsd.
                                  let found = get_escrow-find_by s o.from o.escrow_id l got in
                                  let no_fee = no_fee-amount_in e approved (
                                    all-find_by fee_paid (is_escrow o.from o.escrow_id) e l.escrows
                                      paid found) in
                                  let one =
                                    sub_asset-amount_in safe s e.tme_balance o.tme_amount
                                      less_tme in
                                  let two =
                                    sub_asset-amount_in safe s e.tsd_balance o.tsd_amount
                                      less_tsd in
                                  let first =
                                    (adjust_balance-Moved wide safe s o.receiver o.tme_amount
                                        l).returned
                                      paid_tme in
                                  let second =
                                    (adjust_balance-Moved wide safe s o.receiver o.tsd_amount
                                        l₁).returned
                                      paid_tsd in
                                  let both = Moved-trans s _ _ l l₁ l₂ first second in
                                  after_if (eqb_ℤ tme.amount (pos 0) && eqb_ℤ tsd.amount (pos 0)) _
                                    _
                                    (λ empty.
                                      let none_tme = none_left tme (ground (arith, empty)) in
                                      let none_tsd = none_left tsd (ground (arith, empty)) in
                                      gives _ (
                                        removed-excess wide safe s o.from o.escrow_id e _ l l₂ both
                                          found
                                          (omega (
                                            int_laws,
                                            parts one,
                                            parts two,
                                            parts none_tme,
                                            parts none_tsd,
                                            parts no_fee,
                                          ))))
                                    (λ more. gives _ (
                                      changed-excess wide safe s o.from o.escrow_id e _ _ l l₂ both
                                        found
                                        (omega (int_laws, parts one, parts two))))))))))))))))))

  first_is_it : (e : Escrow) (es : List Escrow) → is_escrow e.from e.escrow_id e ≡ true
  unfolding is_escrow
  first_is_it e es = ground (arith, name_eq_refl e.from)

  remove_escrow-escrows :
      (from : Name) (id : ℕ) (l : Ledger)
      → (remove_escrow from id l).escrows ≡ erase_by (is_escrow from id) l.escrows
  unfolding remove_escrow
  remove_escrow-escrows from id l = refl

  expire_from-excess :
      (es : List Escrow) (l : Ledger)
      → l.escrows ≡ es
      → Returns (λ l'. excess s l' ≡ excess s l) (expire_from wide safe es l)
  unfolding expire_from
  expire_from-excess [] l listed = gives _ refl
  expire_from-excess (e ∷ es) l listed =
      after_if (not (is_approved e) && leb e.ratification_deadline (head_block_time l)) _ _
        (λ due. after (refund_escrow wide safe e.from e l) _ (λ l₁ refunded.
          let h = (refund_escrow-Moved wide safe s e.from e l).returned refunded in
          let it_is = first_is_it e es in
          let found : find_by (is_escrow e.from e.escrow_id) l.escrows ≡ some e =
            ap (find_by (is_escrow e.from e.escrow_id)) listed
            ∙ find_by-head (is_escrow e.from e.escrow_id) e es it_is in
          let kept = removed-excess wide safe s e.from e.escrow_id e _ l l₁ h found refl in
          let rest : (remove_escrow e.from e.escrow_id l₁).escrows ≡ es =
            remove_escrow-escrows e.from e.escrow_id l₁
            ∙ ap (erase_by (is_escrow e.from e.escrow_id)) (h.same_escrows ∙ listed)
            ∙ erase_by-head (is_escrow e.from e.escrow_id) e es it_is in
          follows (expire_from-excess es (remove_escrow e.from e.escrow_id l₁) rest)
            (λ l' same. same ∙ kept)))
        (λ over. gives _ refl)

  pub expire_escrow_ratification-excess :
      (l : Ledger)
      → Returns (λ l'. excess s l' ≡ excess s l) (expire_escrow_ratification wide safe l)
  unfolding expire_escrow_ratification
  expire_escrow_ratification-excess l = expire_from-excess l.escrows l refl
