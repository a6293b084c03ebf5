-- ===== src/Protocol/Operations/Transfers.antt =====
-- The checks of the operations that move money.
use wenode.Base.{ℕ, Bool, ◌&&◌, ◌||◌, not, List, leb, ◌==◌, Result, assert, ◌>>=◌, ◌>>◌}
use wenode.Base.Int.{pos}
use wenode.Protocol.Names.{Name, name_eq}
use wenode.Protocol.Asset.{Asset, asset_gt}
use wenode.Protocol.Operations.{
  symbol_coin, symbol_score, symbol_usd, percent_100, is_asset_type, validate_account_name,
  validate_optional_name, assert_not_negative, not_negative, is_positive, validate_memo,
}

pub record Transfer : Type 0 where
  pub from : Name
  pub to : Name
  pub amount : Asset
  pub memo : List ℕ

pub record TransferToScoreFund : Type 0 where
  pub from : Name
  pub to : Name
  pub amount : Asset

pub record WithdrawScore : Type 0 where
  pub account : Name
  pub score : Asset

pub record SetWithdrawRoute : Type 0 where
  pub from_account : Name
  pub to_account : Name
  pub percent : ℕ
  pub auto_score : Bool

pub record TransferToSavings : Type 0 where
  pub from : Name
  pub to : Name
  pub amount : Asset
  pub memo : List ℕ

pub record TransferFromSavings : Type 0 where
  pub from : Name
  pub request_id : ℕ
  pub to : Name
  pub amount : Asset
  pub memo : List ℕ

pub record CancelTransferFromSavings : Type 0 where
  pub from : Name
  pub request_id : ℕ

pub record ClaimRewardBalance : Type 0 where
  pub account : Name
  pub tme_reward : Asset
  pub tsd_reward : Asset
  pub score_reward : Asset

pub record DelegateScore : Type 0 where
  pub delegator : Name
  pub delegatee : Name
  pub score : Asset

module _ (is_utf8 is_valid_json : List ℕ → Bool) where
  pub validate_transfer : Transfer → Result (Unit {0})
  validate_transfer o = do
    validate_account_name o.from
    validate_account_name o.to
    assert (not (o.amount.symbol == symbol_score))
    assert (is_positive o.amount)
    validate_memo is_utf8 is_valid_json o.memo

  pub validate_transfer_to_savings : TransferToSavings → Result (Unit {0})
  validate_transfer_to_savings o = do
    validate_account_name o.from
    validate_account_name o.to
    assert (is_positive o.amount)
    assert (o.amount.symbol == symbol_coin || o.amount.symbol == symbol_usd)
    validate_memo is_utf8 is_valid_json o.memo

  pub validate_transfer_from_savings : TransferFromSavings → Result (Unit {0})
  validate_transfer_from_savings o = do
    validate_account_name o.from
    validate_account_name o.to
    assert (is_positive o.amount)
    assert (o.amount.symbol == symbol_coin || o.amount.symbol == symbol_usd)
    validate_memo is_utf8 is_valid_json o.memo

pub validate_transfer_to_score_fund : TransferToScoreFund → Result (Unit {0})
validate_transfer_to_score_fund o = do
  validate_account_name o.from
  assert (is_asset_type o.amount symbol_coin)
  validate_optional_name o.to
  r ← asset_gt o.amount (record { amount = pos 0; symbol = symbol_coin })
  assert r

pub validate_withdraw_score : WithdrawScore → Result (Unit {0})
validate_withdraw_score o = do
  validate_account_name o.account
  assert (is_asset_type o.score symbol_score)

pub validate_set_withdraw_route : SetWithdrawRoute → Result (Unit {0})
validate_set_withdraw_route o = do
  validate_account_name o.from_account
  validate_account_name o.to_account
  assert (leb 0 o.percent && leb o.percent percent_100)

pub validate_cancel_transfer_from_savings : CancelTransferFromSavings → Result (Unit {0})
validate_cancel_transfer_from_savings o = validate_account_name o.from

pub validate_claim_reward_balance : ClaimRewardBalance → Result (Unit {0})
validate_claim_reward_balance o = do
  validate_account_name o.account
  assert (is_asset_type o.tme_reward symbol_coin)
  assert (is_asset_type o.tsd_reward symbol_usd)
  assert (is_asset_type o.score_reward symbol_score)
  assert (not_negative o.tme_reward)
  assert (not_negative o.tsd_reward)
  assert (not_negative o.score_reward)
  assert (is_positive o.tme_reward || is_positive o.tsd_reward || is_positive o.score_reward)

pub validate_delegate_score : DelegateScore → Result (Unit {0})
validate_delegate_score o = do
  validate_account_name o.delegator
  validate_account_name o.delegatee
  assert (not (name_eq o.delegator o.delegatee))
  assert (is_asset_type o.score symbol_score)
  assert_not_negative o.score symbol_score
