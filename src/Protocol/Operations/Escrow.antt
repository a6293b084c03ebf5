-- ===== src/Protocol/Operations/Escrow.antt =====
-- The checks of the escrow operations.
pub mod Facts
use wenode.Base.{
  ℕ, Bool, true, false, ◌&&◌, ◌||◌, not, List, [], ◌∷◌, ltb, ◌==◌, Result, ok, err, assert, ◌>>=◌,
  ◌>>◌,
}
use wenode.Protocol.Names.{Name, name_eq}
use wenode.Protocol.Asset.{Asset}
use wenode.Protocol.Operations.{
  symbol_coin, symbol_usd, validate_account_name, not_negative, is_positive, validate_metadata,
}

pub record EscrowTransfer : Type 0 where
  pub from : Name
  pub to : Name
  pub agent : Name
  pub escrow_id : ℕ
  pub tsd_amount : Asset
  pub tme_amount : Asset
  pub fee : Asset
  pub ratification_deadline : ℕ
  pub escrow_expiration : ℕ
  pub json : List ℕ

pub record EscrowApprove : Type 0 where
  pub from : Name
  pub to : Name
  pub agent : Name
  pub who : Name
  pub escrow_id : ℕ
  pub approve : Bool

pub record EscrowDispute : Type 0 where
  pub from : Name
  pub to : Name
  pub agent : Name
  pub who : Name
  pub escrow_id : ℕ

pub record EscrowRelease : Type 0 where
  pub from : Name
  pub to : Name
  pub agent : Name
  pub who : Name
  pub receiver : Name
  pub escrow_id : ℕ
  pub tsd_amount : Asset
  pub tme_amount : Asset

module _ (is_utf8 is_valid_json : List ℕ → Bool) where
  unfoldable pub validate_escrow_transfer : EscrowTransfer → Result (Unit {0})
  validate_escrow_transfer o = do
    validate_account_name o.from
    validate_account_name o.to
    validate_account_name o.agent
    assert (not_negative o.fee)
    assert (not_negative o.tsd_amount)
    assert (not_negative o.tme_amount)
    assert (is_positive o.tsd_amount || is_positive o.tme_amount)
    assert (not (name_eq o.from o.agent) && not (name_eq o.to o.agent))
    assert (o.fee.symbol == symbol_coin || o.fee.symbol == symbol_usd)
    assert (o.tsd_amount.symbol == symbol_usd)
    assert (o.tme_amount.symbol == symbol_coin)
    assert (ltb o.ratification_deadline o.escrow_expiration)
    validate_metadata is_utf8 is_valid_json o.json

unfoldable pub validate_escrow_approve : EscrowApprove → Result (Unit {0})
validate_escrow_approve o = do
  validate_account_name o.from
  validate_account_name o.to
  validate_account_name o.agent
  validate_account_name o.who
  assert (name_eq o.who o.to || name_eq o.who o.agent)

unfoldable pub validate_escrow_dispute : EscrowDispute → Result (Unit {0})
validate_escrow_dispute o = do
  validate_account_name o.from
  validate_account_name o.to
  validate_account_name o.agent
  validate_account_name o.who
  assert (name_eq o.who o.from || name_eq o.who o.to)

unfoldable pub validate_escrow_release : EscrowRelease → Result (Unit {0})
validate_escrow_release o = do
  validate_account_name o.from
  validate_account_name o.to
  validate_account_name o.agent
  validate_account_name o.who
  validate_account_name o.receiver
  assert (name_eq o.who o.from || name_eq o.who o.to || name_eq o.who o.agent)
  assert (name_eq o.receiver o.from || name_eq o.receiver o.to)
  assert (not_negative o.tsd_amount)
  assert (not_negative o.tme_amount)
  assert (is_positive o.tsd_amount || is_positive o.tme_amount)
  assert (o.tsd_amount.symbol == symbol_usd)
  assert (o.tme_amount.symbol == symbol_coin)
