-- ===== src/Protocol/Operations/Content.antt =====
-- The checks of the operations on posts, votes and custom data.
pub mod Beneficiaries
use wenode.Base.{
  ℕ, ◌+◌, ◌%◌, ◌^◌, Bool, true, false, ◌&&◌, ◌||◌, not, Option, List, [], ◌∷◌, ltb, leb, ◌==◌,
  if◌then◌else◌, length, is_empty, Result, ok, err, fc_assert, assert, ◌>>=◌, ◌>>◌,
}
use wenode.Base.Int.{ℤ, pos, ltb_ℤ, abs}
use wenode.Protocol.Names.{Name, name_eq}
use wenode.Protocol.Authority.{Authority, validate_authority, name_lt}
use wenode.Protocol.Asset.{Asset}
use wenode.Protocol.Operations.{
  symbol_usd, percent_100, validate_account_name, validate_optional_name, not_negative,
  validate_permlink,
}

pub record Comment : Type 0 where
  pub parent_author : Name
  pub parent_permlink : List ℕ
  pub author : Name
  pub permlink : List ℕ
  pub title : List ℕ
  pub body : List ℕ
  pub json : List ℕ

pub record BeneficiaryRoute : Type 0 where
  pub account : Name
  pub weight : ℕ

-- `comment_options_extension` has one alternative, `comment_payout_beneficiaries`.
pub record CommentOptions : Type 0 where
  pub author : Name
  pub permlink : List ℕ
  pub max_accepted_payout : Asset
  pub percent_tsd : ℕ
  pub allow_votes : Bool
  pub allow_curation_rewards : Bool
  pub extensions : List (List BeneficiaryRoute)

pub record DeleteComment : Type 0 where
  pub author : Name
  pub permlink : List ℕ

pub record Vote : Type 0 where
  pub voter : Name
  pub author : Name
  pub permlink : List ℕ
  pub weight : ℤ

pub record Custom : Type 0 where
  pub required_auths : List Name
  pub id : ℕ
  pub data_bytes : List ℕ

pub record CustomJson : Type 0 where
  pub required_auths : List Name
  pub required_posting_auths : List Name
  pub id : List ℕ
  pub json : List ℕ

pub record CustomBinary : Type 0 where
  pub required_owner_auths : List Name
  pub required_active_auths : List Name
  pub required_posting_auths : List Name
  pub required_auths : List Authority
  pub id : List ℕ
  pub data_bytes : List ℕ

-- The tests on one entry; `sum` is a uint32.
pub check_route : ℕ → BeneficiaryRoute → Result ℕ
check_route sum b = do
  validate_account_name b.account
  assert (leb b.weight percent_100)
  assert (leb ((sum + b.weight) % 2 ^ 32) percent_100)
  ok ((sum + b.weight) % 2 ^ 32)

-- The loop, from the second entry on.
pub check_routes : ℕ → BeneficiaryRoute → List BeneficiaryRoute → Result (Unit {0})
unfolding check_route
check_routes sum previous [] = ok tt
check_routes sum previous (b ∷ rest) = do
  sum' ← check_route sum b
  assert (name_lt previous.account b.account)
  check_routes sum' b rest

pub validate_beneficiaries : List BeneficiaryRoute → Result (Unit {0})
unfolding check_route check_routes
validate_beneficiaries [] = err fc_assert
validate_beneficiaries (b ∷ rest) = do
  assert (ltb (length (b ∷ rest)) 128)
  sum ← check_route 0 b
  check_routes sum b rest

validate_extensions : List (List BeneficiaryRoute) → Result (Unit {0})
unfolding validate_beneficiaries
validate_extensions [] = ok tt
validate_extensions (e ∷ rest) = do validate_beneficiaries e; validate_extensions rest

validate_authorities : List Authority → Result (Unit {0})
validate_authorities [] = ok tt
validate_authorities (a ∷ rest) = do validate_authority a; validate_authorities rest

pub validate_custom : Custom → Result (Unit {0})
validate_custom o = assert (ltb 0 (length o.required_auths))

pub validate_custom_binary : CustomBinary → Result (Unit {0})
unfolding validate_authorities
validate_custom_binary o = do
  assert (
      ltb 0 (
        length o.required_owner_auths
        + length o.required_active_auths
        + length o.required_posting_auths))
  assert (leb (length o.id) 32)
  validate_authorities o.required_auths

module _ (is_utf8 is_valid_json : List ℕ → Bool) where
  pub validate_comment : Comment → Result (Unit {0})
  validate_comment o = do
    assert (ltb (length o.title) 256)
    assert (is_utf8 o.title)
    assert (ltb 0 (length o.body))
    assert (is_utf8 o.body)
    validate_optional_name o.parent_author
    validate_account_name o.author
    validate_permlink is_utf8 is_valid_json o.parent_permlink
    validate_permlink is_utf8 is_valid_json o.permlink
    if is_empty o.json then ok tt else assert (is_valid_json o.json)

  pub validate_comment_options : CommentOptions → Result (Unit {0})
  unfolding validate_extensions
  validate_comment_options o = do
    validate_account_name o.author
    assert (leb o.percent_tsd percent_100)
    assert (o.max_accepted_payout.symbol == symbol_usd)
    assert (not_negative o.max_accepted_payout)
    validate_permlink is_utf8 is_valid_json o.permlink
    validate_extensions o.extensions

  pub validate_delete_comment : DeleteComment → Result (Unit {0})
  validate_delete_comment o = do
    validate_permlink is_utf8 is_valid_json o.permlink
    validate_account_name o.author

  pub validate_vote : Vote → Result (Unit {0})
  validate_vote o = do
    validate_account_name o.voter
    validate_account_name o.author
    assert (not (ltb_ℤ (pos percent_100) (abs o.weight)))
    validate_permlink is_utf8 is_valid_json o.permlink

  pub validate_custom_json : CustomJson → Result (Unit {0})
  validate_custom_json o = do
    assert (ltb 0 (length o.required_auths + length o.required_posting_auths))
    assert (leb (length o.id) 32)
    assert (is_utf8 o.json)
    assert (is_valid_json o.json)
