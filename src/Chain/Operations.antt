-- ===== src/Chain/Operations.antt =====
-- The operations of the modelled evaluators in one type, the part of `_apply_transaction` of
-- libraries/chain/database.cpp that validates and evaluates them, and the ways in which the
-- ledger goes from one state to the next. `is_utf8` and `is_valid_json` are those of fc.
pub mod Run
use wenode.Base.{ℕ, ◌≡◌, Bool, not, List, [], ◌∷◌, is_empty, Result, ok, assert, ◌>>=◌, ◌>>◌}
use wenode.Protocol.Asset.{Price, SafeInt, UInt128}
use wenode.Protocol.Operations.Transfers.{
  Transfer, TransferToSavings, TransferFromSavings, CancelTransferFromSavings, validate_transfer,
  validate_transfer_to_savings, validate_transfer_from_savings,
  validate_cancel_transfer_from_savings,
}
use wenode.Protocol.Operations.Escrow.{
  EscrowTransfer, EscrowApprove, EscrowDispute, EscrowRelease, validate_escrow_transfer,
  validate_escrow_approve, validate_escrow_dispute, validate_escrow_release,
}
use wenode.Protocol.Operations.Market.{
  LimitOrderCreate, LimitOrderCreate2, LimitOrderCancel, validate_limit_order_create,
  validate_limit_order_create2, validate_limit_order_cancel, Convert, validate_convert,
}
use wenode.Chain.Ledger.{Ledger}
use wenode.Chain.Escrow.{
  escrow_transfer, escrow_approve, escrow_dispute, escrow_release, expire_escrow_ratification,
}
use wenode.Chain.Savings.{
  transfer, transfer_to_savings, transfer_from_savings, cancel_transfer_from_savings,
  process_savings_withdraws,
}
use wenode.Chain.Market.{
  limit_order_create, limit_order_create2, limit_order_cancel, clear_expired_orders,
}
use wenode.Chain.Conversions.{convert, process_conversions, update_virtual_supply}

pub data Operation : Type 0 where
  transfer_operation : Transfer → Operation
  transfer_to_savings_operation : TransferToSavings → Operation
  transfer_from_savings_operation : TransferFromSavings → Operation
  cancel_transfer_from_savings_operation : CancelTransferFromSavings → Operation
  escrow_transfer_operation : EscrowTransfer → Operation
  escrow_approve_operation : EscrowApprove → Operation
  escrow_dispute_operation : EscrowDispute → Operation
  escrow_release_operation : EscrowRelease → Operation
  limit_order_create_operation : LimitOrderCreate → Operation
  limit_order_create2_operation : LimitOrderCreate2 → Operation
  limit_order_cancel_operation : LimitOrderCancel → Operation
  convert_operation : Convert → Operation

-- `has_hardfork` of the hardforks that the evaluators ask for.
pub record Hardforks : Type 0 where
  pub hardfork_0_6__127 : Bool
  pub hardfork_0_16__551 : Bool

module _ (wide : UInt128) (is_utf8 is_valid_json : List ℕ → Bool) where
  unfoldable pub validate : Operation → Result (Unit {0})
  validate (transfer_operation o) = validate_transfer is_utf8 is_valid_json o
  validate (transfer_to_savings_operation o) = validate_transfer_to_savings is_utf8 is_valid_json o
  validate (transfer_from_savings_operation o) =
      validate_transfer_from_savings is_utf8 is_valid_json o
  validate (cancel_transfer_from_savings_operation o) = validate_cancel_transfer_from_savings o
  validate (escrow_transfer_operation o) = validate_escrow_transfer is_utf8 is_valid_json o
  validate (escrow_approve_operation o) = validate_escrow_approve o
  validate (escrow_dispute_operation o) = validate_escrow_dispute o
  validate (escrow_release_operation o) = validate_escrow_release o
  validate (limit_order_create_operation o) = validate_limit_order_create o
  validate (limit_order_create2_operation o) = validate_limit_order_create2 wide o
  validate (limit_order_cancel_operation o) = validate_limit_order_cancel o
  validate (convert_operation o) = validate_convert o

  unfoldable pub validate_all : List Operation → Result (Unit {0})
  validate_all [] = ok tt
  validate_all (o ∷ os) = do validate o; validate_all os

module _ (wide : UInt128) (safe : SafeInt) where
  -- `apply_operation`
  unfoldable pub apply_operation : Hardforks → Operation → Ledger → Result Ledger
  apply_operation hf (transfer_operation o) l = transfer wide safe o l
  apply_operation hf (transfer_to_savings_operation o) l = transfer_to_savings wide safe o l
  apply_operation hf (transfer_from_savings_operation o) l = transfer_from_savings wide safe o l
  apply_operation hf (cancel_transfer_from_savings_operation o) l =
      cancel_transfer_from_savings wide safe o l
  apply_operation hf (escrow_transfer_operation o) l = escrow_transfer wide safe o l
  apply_operation hf (escrow_approve_operation o) l = escrow_approve wide safe o l
  apply_operation hf (escrow_dispute_operation o) l = escrow_dispute wide safe o l
  apply_operation hf (escrow_release_operation o) l = escrow_release wide safe o l
  apply_operation hf (limit_order_create_operation o) l = limit_order_create wide safe o l
  apply_operation hf (limit_order_create2_operation o) l = limit_order_create2 wide safe o l
  apply_operation hf (limit_order_cancel_operation o) l =
      limit_order_cancel wide safe hf.hardfork_0_6__127 o l
  apply_operation hf (convert_operation o) l = convert wide safe hf.hardfork_0_16__551 o l

  unfoldable pub apply_all : Hardforks → List Operation → Ledger → Result Ledger
  apply_all hf [] l = ok l
  apply_all hf (o ∷ os) l = do l₁ ← apply_operation hf o l; apply_all hf os l₁

  module _ (is_utf8 is_valid_json : List ℕ → Bool) where
    -- `trx.validate()`, then the operations one after the other.
    unfoldable pub apply_operations : Hardforks → List Operation → Ledger → Result Ledger
    apply_operations hf os l = do
      assert (not (is_empty os))
      validate_all wide is_utf8 is_valid_json os
      apply_all hf os l

    -- What changes the ledger: the operations of a transaction; the modelled part of what a block
    -- does after its transactions, each call by itself; a new price from the feeds; the number and
    -- the time of the next block. The other calls of `_apply_block` have no step: funds, cashouts,
    -- liquidity rewards, withdrawals of SCORE, delegations, the account that burns what it gets,
    -- the witness schedule, recovery, voting rights and hardforks.
    pub data Step : Ledger → Ledger → Type 0 where
      transact :
          (hf : Hardforks) (os : List Operation) (l l' : Ledger)
          → apply_operations hf os l ≡ ok l'
          → Step l l'
      clear_orders : (l l' : Ledger) → clear_expired_orders wide safe l ≡ ok l' → Step l l'
      pay_withdraws : (l l' : Ledger) → process_savings_withdraws wide safe l ≡ ok l' → Step l l'
      fill_conversions : (l l' : Ledger) → process_conversions wide safe l ≡ ok l' → Step l l'
      renew_virtual_supply : (l l' : Ledger) → update_virtual_supply wide safe l ≡ ok l' → Step l l'
      publish_feed :
          (price : Price) (l : Ledger) → Step l (record l { current_median_history = price })
      expire_escrows : (l l' : Ledger) → expire_escrow_ratification wide safe l ≡ ok l' → Step l l'
      next_block :
          (number time : ℕ) (l : Ledger)
          → Step l (record l {
            properties = record (l.properties) { head_block_number = number; time = time };
          })

    pub data Reaches : Ledger → Ledger → Type 0 where
      stay : (l : Ledger) → Reaches l l
      go_on : (l l' l'' : Ledger) → Reaches l l' → Step l' l'' → Reaches l l''
