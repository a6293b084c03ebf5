-- ===== src/Protocol/Verify/Tests.antt =====
-- The soundness theorems on a transaction with one signature, that needs one posting account.
use wenode.Protocol.SignState.Sound.{done, count}
use wenode.Protocol.SignState.Complete.{Provides, check_authority-true}
use wenode.Protocol.Verify.Available.{minimize_required_signatures-available}
use wenode.Protocol.Verify.{
  minimize_required_signatures, minimize_loop, get_required_signatures, attempt, keep_available,
  get_signature_keys, collect_keys, keep_if_needed,
}
use wenode.Protocol.SignState.{check_accounts}
use wenode.Base.{arith, ℕ, ◌≡◌, refl, true, List, [], ◌∷◌, ◌⊎◌, ok, member}
use wenode.Protocol.Names.{Name, has_name, name_eq, assign}
use wenode.Protocol.Authority.{Authority}
use wenode.Protocol.SignState.{
  init_sign_state, all_unused, check_authority, check_account, check_with, check_keys, signed_by,
  unused, used_only, remove_unused_signatures,
}
use wenode.Protocol.SignState.Sound.{check_authority-Grants}
use wenode.Protocol.Verify.{
  Required, verify_authority, verify_posting, get_required_authorities, require, any_of,
  posting_checks, approve_all, refuse_unused, nothing_required,
}
use wenode.Protocol.Verify.Sound.{
  All, Granted, SignsBacked, no_key, start-Backed, approved_with, approved_by_either, ByPosting,
  ByActive, ByOwner, verify_authority-Granted,
}

abbrev alice : Name
alice = b'a' ∷ b'l' ∷ b'i' ∷ b'c' ∷ b'e' ∷ []

-- One signature with the key 5.
abbrev one_key : Authority
one_key = record { weight_threshold = 1; account_auths = []; key_auths = (5, 1) ∷ [] }

abbrev always_one_key : Name → Authority
always_one_key a = one_key

abbrev with_five : List ℕ
with_five = 5 ∷ []

started : SignsBacked always_one_key with_five (approved_with []) (init_sign_state with_five)
unfolding init_sign_state has_name
started =
    start-Backed always_one_key with_five (init_sign_state with_five) (approved_with []) refl
      (λ a. refl)

answers_true : (check_authority always_one_key [] 1 one_key (init_sign_state with_five)).0 ≡ true
unfolding check_authority check_with check_keys signed_by init_sign_state all_unused assign
answers_true = refl

check_authority-Grants_example :
    SignsBacked always_one_key with_five
      (approved_with [])
      (check_authority always_one_key [] 1 one_key (init_sign_state with_five)).1
    × Granted always_one_key with_five (approved_with []) one_key
check_authority-Grants_example =
    check_authority-Grants always_one_key [] (λ k. member k with_five) (approved_with [])
      (no_key always_one_key with_five) 1 one_key (init_sign_state with_five) started answers_true

-- An operation is the list of the posting accounts that it requires.
abbrev required_posting : List Name → Required → Required
required_posting names r = record r { posting = names }

abbrev own_key : ℕ → ℕ
own_key k = k

passes :
    verify_authority required_posting own_key always_one_key always_one_key always_one_key
      ((alice ∷ []) ∷ [])
      with_five
      2
      []
      []
      []
    ≡ ok tt
unfolding verify_authority verify_posting get_required_authorities require any_of posting_checks
    approve_all refuse_unused check_account check_authority check_with check_keys signed_by
    init_sign_state all_unused assign has_name name_eq unused used_only remove_unused_signatures
passes = refl

verify_authority-Granted_example :
    let r =
      get_required_authorities required_posting own_key always_one_key always_one_key always_one_key
        ((alice ∷ []) ∷ [])
        nothing_required in
    ((r.active ≡ [])
      × (r.owner ≡ [])
      × (r.other ≡ [])
      × All
          (ByPosting always_one_key always_one_key always_one_key with_five (approved_with []))
          r.posting)
    ⊎ ((r.posting ≡ [])
        × All (Granted always_one_key with_five (approved_by_either [] [])) r.other
        × All (ByActive always_one_key always_one_key with_five [] []) r.active
        × All (ByOwner always_one_key always_one_key with_five [] []) r.owner)
verify_authority-Granted_example =
    verify_authority-Granted required_posting own_key always_one_key always_one_key always_one_key
      ((alice ∷ []) ∷ []) with_five 2 [] [] [] passes

five-Provides : Provides always_one_key [] (λ k. member k with_five) (init_sign_state with_five)
unfolding init_sign_state all_unused assign
five-Provides k e = ground arith

check_authority-true_example :
    (check_authority always_one_key [] 1 one_key (init_sign_state with_five)).0 ≡ true
check_authority-true_example =
    check_authority-true always_one_key [] (λ k. member k with_five) 1 1 one_key
      (init_sign_state with_five) (count refl done refl) five-Provides (omega arith) (omega arith)
      (omega arith)

abbrev five_and_six : List ℕ
five_and_six = 5 ∷ 6 ∷ []

minimized :
    minimize_required_signatures required_posting own_key always_one_key always_one_key
      always_one_key
      ((alice ∷ []) ∷ [])
      with_five
      five_and_six
      2
    ≡ ok with_five
unfolding minimize_required_signatures minimize_loop get_required_signatures attempt keep_available
    get_signature_keys collect_keys keep_if_needed verify_authority verify_posting
    get_required_authorities require any_of posting_checks approve_all refuse_unused check_account
    check_authority check_with check_keys check_accounts signed_by init_sign_state all_unused assign
    has_name name_eq unused used_only remove_unused_signatures
minimized = refl

minimize_required_signatures-available_example : member 5 five_and_six ≡ true
minimize_required_signatures-available_example =
    minimize_required_signatures-available required_posting own_key always_one_key always_one_key
      always_one_key ((alice ∷ []) ∷ []) with_five five_and_six 2 5 minimized refl
