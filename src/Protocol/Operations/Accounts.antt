-- ===== src/Protocol/Operations/Accounts.antt =====
-- The checks of the operations on accounts, their authorities and their witnesses.
use wenode.Base.{ℕ, Bool, not, Option, List, ltb, leb, ◌==◌, is_empty, Result, assert, ◌>>◌}
use wenode.Base.Int.{pos, ltb_ℤ}
use wenode.Protocol.Names.{Name, name_eq}
use wenode.Protocol.Authority.{Authority, validate_authority, is_impossible, authority_eq}
use wenode.Protocol.Asset.{Asset}
use wenode.Protocol.Operations.{
  symbol_coin, symbol_score, percent_100, is_asset_type, validate_account_name,
  validate_optional_name, assert_not_negative, validate_metadata,
}

pub record AccountCreate : Type 0 where
  pub fee : Asset
  pub creator : Name
  pub new_account_name : Name
  pub owner : Authority
  pub active : Authority
  pub posting : Authority
  pub memo_key : ℕ
  pub json : List ℕ

pub record AccountCreateWithDelegation : Type 0 where
  pub fee : Asset
  pub delegation : Asset
  pub creator : Name
  pub new_account_name : Name
  pub owner : Authority
  pub active : Authority
  pub posting : Authority
  pub memo_key : ℕ
  pub json : List ℕ

pub record AccountUpdate : Type 0 where
  pub account : Name
  pub owner : Option Authority
  pub active : Option Authority
  pub posting : Option Authority
  pub memo_key : ℕ
  pub json : List ℕ

pub record ChallengeAuthority : Type 0 where
  pub challenger : Name
  pub challenged : Name
  pub require_owner : Bool

pub record ProveAuthority : Type 0 where
  pub challenged : Name
  pub require_owner : Bool

pub record ChainProperties : Type 0 where
  pub account_creation_fee : Asset
  pub maximum_block_size : ℕ
  pub tsd_interest_rate : ℕ

pub record WitnessUpdate : Type 0 where
  pub owner : Name
  pub url : List ℕ
  pub block_signing_key : ℕ
  pub props : ChainProperties
  pub fee : Asset

pub record AccountWitnessVote : Type 0 where
  pub account : Name
  pub witness : Name
  pub approve : Bool

pub record AccountWitnessProxy : Type 0 where
  pub account : Name
  pub proxy : Name

pub record RequestAccountRecovery : Type 0 where
  pub recovery_account : Name
  pub account_to_recover : Name
  pub new_owner_authority : Authority

pub record RecoverAccount : Type 0 where
  pub account_to_recover : Name
  pub new_owner_authority : Authority
  pub recent_owner_authority : Authority

pub record ResetAccount : Type 0 where
  pub reset_account : Name
  pub account_to_reset : Name
  pub new_owner_authority : Authority

pub record SetResetAccount : Type 0 where
  pub account : Name
  pub current_reset_account : Name
  pub reset_account : Name

pub record ChangeRecoveryAccount : Type 0 where
  pub account_to_recover : Name
  pub new_recovery_account : Name

pub record DeclineVotingRights : Type 0 where
  pub account : Name
  pub decline : Bool

module _ (is_utf8 is_valid_json : List ℕ → Bool) where
  pub validate_account_create : AccountCreate → Result (Unit {0})
  validate_account_create o = do
    validate_account_name o.new_account_name
    assert (is_asset_type o.fee symbol_coin)
    validate_authority o.owner
    validate_authority o.active
    validate_metadata is_utf8 is_valid_json o.json
    assert_not_negative o.fee symbol_coin

  pub validate_account_create_with_delegation : AccountCreateWithDelegation → Result (Unit {0})
  validate_account_create_with_delegation o = do
    validate_account_name o.new_account_name
    validate_account_name o.creator
    assert (is_asset_type o.fee symbol_coin)
    assert (is_asset_type o.delegation symbol_score)
    validate_authority o.owner
    validate_authority o.active
    validate_authority o.posting
    validate_metadata is_utf8 is_valid_json o.json
    assert_not_negative o.fee symbol_coin
    assert_not_negative o.delegation symbol_score

  pub validate_account_update : AccountUpdate → Result (Unit {0})
  validate_account_update o = do
    validate_account_name o.account
    validate_metadata is_utf8 is_valid_json o.json

pub validate_challenge_authority : ChallengeAuthority → Result (Unit {0})
validate_challenge_authority o = do
  validate_account_name o.challenger
  validate_account_name o.challenged
  assert (not (name_eq o.challenged o.challenger))

pub validate_prove_authority : ProveAuthority → Result (Unit {0})
validate_prove_authority o = validate_account_name o.challenged

-- The limits of the live network.
abbrev pub min_account_creation_fee : ℕ
min_account_creation_fee = 1000

abbrev pub min_block_size_limit : ℕ
min_block_size_limit = 65536

pub validate_chain_properties : ChainProperties → Result (Unit {0})
validate_chain_properties p = do
  assert (not (ltb_ℤ p.account_creation_fee.amount (pos min_account_creation_fee)))
  assert (not (ltb p.maximum_block_size min_block_size_limit))
  assert (leb 0 p.tsd_interest_rate)
  assert (leb p.tsd_interest_rate percent_100)

pub validate_witness_update : (List ℕ → Bool) → WitnessUpdate → Result (Unit {0})
unfolding validate_chain_properties
validate_witness_update is_utf8 o = do
  validate_account_name o.owner
  assert (not (is_empty o.url))
  assert (is_utf8 o.url)
  assert_not_negative o.fee symbol_coin
  validate_chain_properties o.props

pub validate_account_witness_vote : AccountWitnessVote → Result (Unit {0})
validate_account_witness_vote o = do
  validate_account_name o.account
  validate_account_name o.witness

pub validate_account_witness_proxy : AccountWitnessProxy → Result (Unit {0})
validate_account_witness_proxy o = do
  validate_account_name o.account
  validate_optional_name o.proxy
  assert (not (name_eq o.proxy o.account))

unfoldable pub validate_request_account_recovery : RequestAccountRecovery → Result (Unit {0})
validate_request_account_recovery o = do
  validate_account_name o.recovery_account
  validate_account_name o.account_to_recover
  validate_authority o.new_owner_authority

unfoldable pub validate_recover_account : RecoverAccount → Result (Unit {0})
validate_recover_account o = do
  validate_account_name o.account_to_recover
  assert (not (authority_eq o.new_owner_authority o.recent_owner_authority))
  assert (not (is_impossible o.new_owner_authority))
  assert (not (is_impossible o.recent_owner_authority))
  assert (not (o.new_owner_authority.weight_threshold == 0))
  validate_authority o.new_owner_authority
  validate_authority o.recent_owner_authority

unfoldable pub validate_reset_account : ResetAccount → Result (Unit {0})
validate_reset_account o = do
  validate_account_name o.reset_account
  validate_account_name o.account_to_reset
  assert (not (is_impossible o.new_owner_authority))
  assert (not (o.new_owner_authority.weight_threshold == 0))
  validate_authority o.new_owner_authority

pub validate_set_reset_account : SetResetAccount → Result (Unit {0})
validate_set_reset_account o = do
  validate_account_name o.account
  validate_optional_name o.current_reset_account
  validate_account_name o.reset_account
  assert (not (name_eq o.current_reset_account o.reset_account))

pub validate_change_recovery_account : ChangeRecoveryAccount → Result (Unit {0})
validate_change_recovery_account o = do
  validate_account_name o.account_to_recover
  validate_account_name o.new_recovery_account

pub validate_decline_voting_rights : DeclineVotingRights → Result (Unit {0})
validate_decline_voting_rights o = validate_account_name o.account
