-- ===== src/Chain/Operations/Run.antt =====
-- Over all modelled steps of the ledger, no money is made and none is lost.
use wenode.Base.{
  ℕ, ◌≡◌, refl, ◌∙◌, ap, Bool, true, not, List, [], ◌∷◌, is_empty, all, >>=-eq-ok, ◌==◌, Result, ok,
  arith,
}
use wenode.Base.Returns.{Returns, gives, follows, after, after_assert}
use wenode.Protocol.Asset.{Price, SafeInt, UInt128}
use wenode.Protocol.Operations.{validate_account_name}
use wenode.Protocol.Operations.Market.{LimitOrderCreate2, validate_limit_order_create2}
use wenode.Chain.Ledger.{Ledger}
use wenode.Chain.Ledger.Held.{excess, locked, supply, Kept}
use wenode.Chain.Escrow.{fee_paid}
use wenode.Chain.Escrow.Books.{escrow_transfer-excess, escrow_approve-excess, escrow_dispute-excess}
use wenode.Chain.Escrow.Settle.{escrow_release-excess, expire_escrow_ratification-excess}
use wenode.Chain.Escrow.Fees.{
  FeesPaid, escrow_transfer-FeesPaid, escrow_approve-FeesPaid, escrow_dispute-FeesPaid,
  escrow_release-FeesPaid, expire_escrow_ratification-FeesPaid,
}
use wenode.Chain.Savings.Books.{
  transfer-Kept, transfer_to_savings-Kept, transfer_from_savings-Kept,
  cancel_transfer_from_savings-Kept, process_savings_withdraws-Kept,
}
use wenode.Chain.Market.Books.{
  limit_order_create-Kept, limit_order_create2-Kept, limit_order_cancel-Kept,
}
use wenode.Chain.Market.Expiry.{clear_expired_orders-Kept}
use wenode.Chain.Conversions.Books.{
  convert-Kept, process_conversions-Kept, update_virtual_supply-Kept,
}
use wenode.Chain.Operations.{
  Operation, transfer_operation, transfer_to_savings_operation, transfer_from_savings_operation,
  cancel_transfer_from_savings_operation, escrow_transfer_operation, escrow_approve_operation,
  escrow_dispute_operation, escrow_release_operation, limit_order_create_operation,
  limit_order_create2_operation, limit_order_cancel_operation, convert_operation, Hardforks,
  fill_conversions, renew_virtual_supply, publish_feed, transact, clear_orders, pay_withdraws,
  expire_escrows, next_block, stay, go_on, validate, validate_all, apply_operation, apply_all,
  apply_operations, Step, Reaches,
}

-- The books are as they were, and the fees of the escrows are paid.
unfoldable pub Sound : ℕ → Ledger → Ledger → Type 0
Sound s l l' = (excess s l' ≡ excess s l) × FeesPaid l'

both :
    {P Q : Ledger → Type 0} {r : Result Ledger}
    → Returns P r
    → Returns Q r
    → Returns (λ l. P l × Q l) r
both h k = record { returned = λ e. (h.returned e, k.returned e) }

Kept-Sound :
    (s : ℕ) (l : Ledger)
    → FeesPaid l
    → {r : Result Ledger} → Returns (Kept s l) r
    → Returns (Sound s l) r
unfolding Sound FeesPaid
Kept-Sound s l paid h = follows h (λ l' k. (k.kept, ap (all fee_paid) k.same_escrows ∙ paid))

fees_of : (l : Ledger) → FeesPaid l → all fee_paid l.escrows ≡ true
unfolding FeesPaid
fees_of l paid = paid

next_block-Sound :
    (s number time : ℕ) (l : Ledger)
    → FeesPaid l
    → Sound s l (record l {
      properties = record (l.properties) { head_block_number = number; time = time };
    })
unfolding Sound FeesPaid excess locked supply
next_block-Sound s number time l paid = (refl, paid)

publish_feed-Sound :
    (s : ℕ) (price : Price) (l : Ledger)
    → FeesPaid l
    → Sound s l (record l { current_median_history = price })
unfolding Sound FeesPaid excess locked
publish_feed-Sound s price l paid = (refl, paid)

module _ (wide : UInt128) (safe : SafeInt) (is_utf8 is_valid_json : List ℕ → Bool) (s : ℕ) where
  same_symbol :
      (o : LimitOrderCreate2)
      → Returns
          (λ u. o.exchange_rate.base.symbol ≡ o.amount_to_sell.symbol)
          (validate_limit_order_create2 wide o)
  unfolding validate_limit_order_create2
  same_symbol o = after (validate_account_name o.owner) _ (λ u h.
      after_assert (o.amount_to_sell.symbol == o.exchange_rate.base.symbol) _
        (λ same. record { returned = λ e. ground (arith, same) }))

  apply_operation-Sound :
      (hf : Hardforks) (o : Operation) (l : Ledger)
      → FeesPaid l
      → validate wide is_utf8 is_valid_json o ≡ ok tt
      → Returns (Sound s l) (apply_operation wide safe hf o l)
  unfolding apply_operation Sound validate
  apply_operation-Sound hf (transfer_operation o) l paid valid =
      Kept-Sound s l paid (transfer-Kept wide safe s o l)
  apply_operation-Sound hf (transfer_to_savings_operation o) l paid valid =
      Kept-Sound s l paid (transfer_to_savings-Kept wide safe s o l)
  apply_operation-Sound hf (transfer_from_savings_operation o) l paid valid =
      Kept-Sound s l paid (transfer_from_savings-Kept wide safe s o l)
  apply_operation-Sound hf (cancel_transfer_from_savings_operation o) l paid valid =
      Kept-Sound s l paid (cancel_transfer_from_savings-Kept wide safe s o l)
  apply_operation-Sound hf (escrow_transfer_operation o) l paid valid =
      both (escrow_transfer-excess wide safe s o l) (escrow_transfer-FeesPaid wide safe o l paid)
  apply_operation-Sound hf (escrow_approve_operation o) l paid valid =
      both (escrow_approve-excess wide safe s o l) (escrow_approve-FeesPaid wide safe o l paid)
  apply_operation-Sound hf (escrow_dispute_operation o) l paid valid =
      both (escrow_dispute-excess wide safe s o l) (escrow_dispute-FeesPaid wide safe o l paid)
  apply_operation-Sound hf (escrow_release_operation o) l paid valid =
      both (escrow_release-excess wide safe s o l (fees_of l paid))
        (escrow_release-FeesPaid wide safe o l paid)
  apply_operation-Sound hf (limit_order_create_operation o) l paid valid =
      Kept-Sound s l paid (limit_order_create-Kept wide safe s o l)
  apply_operation-Sound hf (limit_order_create2_operation o) l paid valid =
      Kept-Sound s l paid
        (limit_order_create2-Kept wide safe s o l ((same_symbol o).returned valid))
  apply_operation-Sound hf (limit_order_cancel_operation o) l paid valid =
      Kept-Sound s l paid (limit_order_cancel-Kept wide safe s hf.hardfork_0_6__127 o l)
  apply_operation-Sound hf (convert_operation o) l paid valid =
      Kept-Sound s l paid (convert-Kept wide safe s hf.hardfork_0_16__551 o l)

  apply_all-Sound :
      (hf : Hardforks) (os : List Operation) (l : Ledger)
      → FeesPaid l
      → validate_all wide is_utf8 is_valid_json os ≡ ok tt
      → Returns (Sound s l) (apply_all wide safe hf os l)
  unfolding apply_all Sound validate_all
  apply_all-Sound hf [] l paid valid = gives _ (refl, paid)
  apply_all-Sound hf (o ∷ os) l paid valid =
      let (u, one, rest) = >>=-eq-ok (validate wide is_utf8 is_valid_json o) _ valid in
      after (apply_operation wide safe hf o l) _ (λ l₁ applied.
        let (kept, still) = (apply_operation-Sound hf o l paid one).returned applied in
        follows (apply_all-Sound hf os l₁ still rest) (λ l' h. (h.0 ∙ kept, h.1)))

  Step-Sound :
      (l l' : Ledger) → Step wide safe is_utf8 is_valid_json l l' → FeesPaid l → Sound s l l'
  unfolding apply_operations Sound
  Step-Sound _ _ (transact hf os l l' applied) paid =
      (after_assert (not (is_empty os)) _ (λ some_op.
          after (validate_all wide is_utf8 is_valid_json os) _
            (λ u valid. apply_all-Sound hf os l paid valid))).returned
        applied
  Step-Sound _ _ (clear_orders l l' done) paid =
      (Kept-Sound s l paid (clear_expired_orders-Kept wide safe s l)).returned done
  Step-Sound _ _ (pay_withdraws l l' done) paid =
      (Kept-Sound s l paid (process_savings_withdraws-Kept wide safe s l)).returned done
  Step-Sound _ _ (fill_conversions l l' done) paid =
      (Kept-Sound s l paid (process_conversions-Kept wide safe s l)).returned done
  Step-Sound _ _ (renew_virtual_supply l l' done) paid =
      (Kept-Sound s l paid (update_virtual_supply-Kept wide safe s l)).returned done
  Step-Sound _ _ (publish_feed price l) paid = publish_feed-Sound s price l paid
  Step-Sound _ _ (expire_escrows l l' done) paid =
      (both (expire_escrow_ratification-excess wide safe s l)
          (expire_escrow_ratification-FeesPaid wide safe l paid)).returned
        done
  Step-Sound _ _ (next_block number time l) paid = next_block-Sound s number time l paid

  -- From a ledger whose approved escrows hold no fee on, over any sequence of transactions of the
  -- modelled operations, of the loops of a block over orders, conversions, savings withdraws and
  -- escrows, of updates of the virtual supply, of new feed prices, and of new numbers and times of
  -- the head block: what accounts, escrows, savings withdraws, orders and requests for conversion
  -- hold of a currency changes by as much as its supply does, less what is in the fund for SCORE,
  -- and no approved escrow holds a fee.
  pub Reaches-excess :
      (l l' : Ledger)
      → Reaches wide safe is_utf8 is_valid_json l l'
      → FeesPaid l
      → (excess s l' ≡ excess s l) × FeesPaid l'
  unfolding Sound
  Reaches-excess _ _ (stay l) paid = (refl, paid)
  Reaches-excess _ _ (go_on l l' l'' run step) paid =
      let (kept, still) = Reaches-excess l l' run paid in
      let (kept', still') = Step-Sound l' l'' step still in (kept' ∙ kept, still')
