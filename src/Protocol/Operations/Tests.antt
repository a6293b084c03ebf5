-- ===== src/Protocol/Operations/Tests.antt =====
-- The checks of operations on small inputs.
use wenode.Base.{ℕ, ◌≡◌, ◌≢◌, refl, Bool, true, List, [], ◌∷◌, ok, assert}
use wenode.Base.Int.{pos}
use wenode.Protocol.Names.{Name, name_eq}
use wenode.Protocol.Authority.{
  is_letter, is_letter_or_digit, is_inner, tail_ok, label_ok, split_label, labels_ok,
  is_valid_account_name,
}
use wenode.Protocol.Asset.{Asset}
use wenode.Protocol.Operations.{
  symbol_coin, symbol_usd, validate_account_name, not_negative, is_positive, validate_metadata,
}
use wenode.Protocol.Operations.Escrow.{
  EscrowTransfer, EscrowApprove, EscrowDispute, EscrowRelease, validate_escrow_transfer,
  validate_escrow_approve, validate_escrow_dispute, validate_escrow_release,
}
use wenode.Protocol.Operations.Escrow.Facts.{name_eq-false, agent-third_party}
use wenode.Protocol.Operations.Content.{BeneficiaryRoute, validate_beneficiaries}
use wenode.Protocol.Operations.Content.Beneficiaries.{accepted, validate_beneficiaries-accepted}

abbrev ann : Name
ann = b'a' ∷ b'n' ∷ b'n' ∷ []

abbrev bob : Name
bob = b'b' ∷ b'o' ∷ b'b' ∷ []

abbrev eve : Name
eve = b'e' ∷ b'v' ∷ b'e' ∷ []

abbrev always : List ℕ → Bool
always s = true

abbrev tsd : ℕ → Asset
tsd n = record { amount = pos n; symbol = symbol_usd }

abbrev tme : ℕ → Asset
tme n = record { amount = pos n; symbol = symbol_coin }

abbrev transfer : EscrowTransfer
transfer = record {
  from = ann;
  to = bob;
  agent = eve;
  escrow_id = 30;
  tsd_amount = tsd 5;
  tme_amount = tme 0;
  fee = tme 1;
  ratification_deadline = 100;
  escrow_expiration = 200;
  json = [];
}

abbrev approval : EscrowApprove
approval = record { from = ann; to = bob; agent = eve; who = eve; escrow_id = 30; approve = true }

abbrev dispute : EscrowDispute
dispute = record { from = ann; to = bob; agent = eve; who = ann; escrow_id = 30 }

abbrev release : EscrowRelease
release = record {
  from = ann;
  to = bob;
  agent = eve;
  who = eve;
  receiver = bob;
  escrow_id = 30;
  tsd_amount = tsd 5;
  tme_amount = tme 0;
}

valid_ann : is_valid_account_name ann ≡ true
unfolding is_valid_account_name labels_ok split_label label_ok tail_ok is_inner is_letter_or_digit
    is_letter
valid_ann = refl

valid_bob : is_valid_account_name bob ≡ true
unfolding is_valid_account_name labels_ok split_label label_ok tail_ok is_inner is_letter_or_digit
    is_letter
valid_bob = refl

valid_eve : is_valid_account_name eve ≡ true
unfolding is_valid_account_name labels_ok split_label label_ok tail_ok is_inner is_letter_or_digit
    is_letter
valid_eve = refl

transfer_passes : validate_escrow_transfer always always transfer ≡ ok tt
unfolding validate_escrow_transfer validate_account_name not_negative is_positive validate_metadata
    name_eq
transfer_passes = rw valid_ann (rw valid_bob (rw valid_eve refl))

approval_passes : validate_escrow_approve approval ≡ ok tt
unfolding validate_escrow_approve validate_account_name name_eq
approval_passes = rw valid_ann (rw valid_bob (rw valid_eve refl))

dispute_passes : validate_escrow_dispute dispute ≡ ok tt
unfolding validate_escrow_dispute validate_account_name name_eq
dispute_passes = rw valid_ann (rw valid_bob (rw valid_eve refl))

release_passes : validate_escrow_release release ≡ ok tt
unfolding validate_escrow_release validate_account_name not_negative is_positive name_eq
release_passes = rw valid_ann (rw valid_bob (rw valid_eve refl))

ann-bob : ann ≢ bob
unfolding name_eq
ann-bob = name_eq-false ann bob refl

agent-third_party_example : (eve ≢ ann) × (ann ≢ eve) × (bob ≢ eve)
agent-third_party_example =
    agent-third_party always always transfer approval dispute release (refl, refl, refl)
      (refl, refl, refl) (refl, refl, refl) transfer_passes approval_passes dispute_passes
      release_passes ann-bob

abbrev shares : List BeneficiaryRoute
shares = record { account = ann; weight = 2500 } ∷ record { account = bob; weight = 7500 } ∷ []

validate_beneficiaries-accepted_example : validate_beneficiaries shares ≡ assert (accepted shares)
validate_beneficiaries-accepted_example = validate_beneficiaries-accepted shares
