-- ===== src/Protocol/Verify.antt =====
-- libraries/protocol/transaction.cpp: the authorities that a transaction's operations require.
-- `operation_get_required_authorities`, a template over all operations, and the recovery of a
-- public key from a signature are parameters.
pub mod Sound
pub mod Available
mod Tests
use wenode.Base.{
  ℕ, Bool, true, false, not, Option, none, some, List, [], ◌∷◌, if◌then◌else◌, is_empty, Dict,
  member, erase_id, insert_id, Result, ok, err, fc_assert, tx_missing_posting_auth,
  tx_missing_active_auth, tx_missing_owner_auth, tx_missing_other_auth, tx_irrelevant_sig,
  tx_duplicate_sig, Exception, assert, assert_or, ◌>>=◌, ◌>>◌,
}
use wenode.Protocol.Names.{Name, has_name}
use wenode.Protocol.Authority.{Authority}
use wenode.Protocol.SignState.{
  SignState, init_sign_state, approve, check_authority, check_account, remove_unused_signatures,
}

pub record Required : Type 0 where
  pub active : List Name
  pub owner : List Name
  pub posting : List Name
  pub other : List Authority

abbrev nothing_required : Required
nothing_required = record { active = []; owner = []; posting = []; other = [] }

abbrev pub Check : Type 0
Check = SignState → Bool × SignState

-- `a || b || …`, each on the state that the ones before it leave.
pub any_of : List Check → Check
any_of [] s = (false, s)
any_of (c ∷ cs) s = elim (c s).0 [ true ↦ c s | false ↦ any_of cs (c s).1 ]

-- `for( … ) ASSERT( …, e )`
pub require : {A : Type 0} → Exception → (A → List Check) → List A → SignState → Result SignState
unfolding any_of
require e checks [] s = ok s
require e checks (x ∷ xs) s = elim (any_of (checks x) s).0 [
  | true ↦ require e checks xs (any_of (checks x) s).1
  | false ↦ err e
]

-- `for( … ) s.check_authority( … );`, with the answers dropped.
attempt : {A : Type 0} → (A → Check) → List A → SignState → SignState
attempt check [] s = s
attempt check (x ∷ xs) s = attempt check xs (check x s).1

pub approve_all : List Name → SignState → SignState
approve_all [] s = s
approve_all (a ∷ names) s = approve_all names (approve a s)

-- The assertion that ends both branches.
refuse_unused : SignState → Result (Unit {0})
refuse_unused s = assert_or (not (remove_unused_signatures s).0) tx_irrelevant_sig

keep_available : List ℕ → Dict Bool → List ℕ
keep_available available [] = []
keep_available available ((k, used) ∷ d) =
    let rest = keep_available available d in if member k available then k ∷ rest else rest

module _ {Op Signature : Type 0} (get_required : Op → Required → Required) (recover : Signature → ℕ)
    (get_active get_owner get_posting : Name → Authority) where
  pub get_required_authorities : List Op → Required → Required
  get_required_authorities [] r = r
  get_required_authorities (op ∷ ops) r = get_required_authorities ops (get_required op r)

  posting_checks : ℕ → Name → List Check
  posting_checks max_recursion id =
      check_account get_posting [] max_recursion id
      ∷ check_authority get_posting [] max_recursion (get_active id)
      ∷ check_authority get_posting [] max_recursion (get_owner id)
      ∷ []

  active_checks : ℕ → Name → List Check
  active_checks max_recursion id =
      check_account get_active [] max_recursion id
      ∷ check_authority get_active [] max_recursion (get_owner id)
      ∷ []

  owner_checks : ℕ → List Name → Name → List Check
  owner_checks max_recursion owner_approvals id =
      (λ s. (has_name id owner_approvals, s))
      ∷ check_authority get_active [] max_recursion (get_owner id)
      ∷ []

  other_checks : ℕ → Authority → List Check
  other_checks max_recursion auth = check_authority get_active [] max_recursion auth ∷ []

  verify_posting : Required → List ℕ → ℕ → List Name → Result (Unit {0})
  unfolding require posting_checks approve_all refuse_unused
  verify_posting r sigs max_recursion posting_approvals = do
    assert (is_empty r.active)
    assert (is_empty r.owner)
    assert (is_empty r.other)
    s ←
        require tx_missing_posting_auth (posting_checks max_recursion) r.posting
          (approve_all posting_approvals (init_sign_state sigs))
    refuse_unused s

  verify_active : Required → List ℕ → ℕ → List Name → List Name → Result (Unit {0})
  unfolding require active_checks owner_checks other_checks approve_all refuse_unused
  verify_active r sigs max_recursion active_approvals owner_approvals = do
    s₁ ←
        require tx_missing_other_auth (other_checks max_recursion) r.other
          (approve_all owner_approvals (approve_all active_approvals (init_sign_state sigs)))
    s₂ ← require tx_missing_active_auth (active_checks max_recursion) r.active s₁
    s₃ ← require tx_missing_owner_auth (owner_checks max_recursion owner_approvals) r.owner s₂
    refuse_unused s₃

  pub verify_authority :
      List Op → List ℕ → ℕ → List Name → List Name → List Name → Result (Unit {0})
  unfolding verify_posting verify_active get_required_authorities
  verify_authority ops sigs max_recursion active_approvals owner_approvals posting_approvals =
      let r = get_required_authorities ops nothing_required in
      if is_empty r.posting
      then verify_active r sigs max_recursion active_approvals owner_approvals
      else verify_posting r sigs max_recursion posting_approvals

  collect_keys : List Signature → List ℕ → Result (List ℕ)
  collect_keys [] keys = ok keys
  collect_keys (sig ∷ sigs) keys = do
    assert_or (not (member (recover sig) keys)) tx_duplicate_sig
    collect_keys sigs (recover sig ∷ keys)

  pub get_signature_keys : List Signature → Result (List ℕ)
  unfolding collect_keys
  get_signature_keys sigs = collect_keys sigs []

  -- `signed_transaction::verify_authority`
  pub verify_signed : List Op → List Signature → ℕ → Result (Unit {0})
  unfolding get_signature_keys
  verify_signed ops sigs max_recursion = do
    keys ← get_signature_keys sigs
    verify_authority ops keys max_recursion [] [] []

  pub get_required_signatures : List Op → List Signature → List ℕ → ℕ → Result (List ℕ)
  unfolding get_required_authorities attempt keep_available get_signature_keys
  get_required_signatures ops sigs available max_recursion = do
    keys ← get_signature_keys sigs
    let r = get_required_authorities ops nothing_required
    if is_empty r.posting
        then (let s₁ =
              attempt (check_authority get_active available max_recursion) r.other
                (init_sign_state keys) in
            let s₂ =
              attempt (λ id. check_authority get_active available max_recursion (get_owner id))
                r.owner s₁ in
            let s₃ = attempt (check_account get_active available max_recursion) r.active s₂ in
            ok (keep_available available (remove_unused_signatures s₃).1.provided_signatures))
        else (do
          assert (is_empty r.owner)
          assert (is_empty r.active)
          ok (
              keep_available available
                (remove_unused_signatures (
                  attempt (check_account get_posting available max_recursion) r.posting
                    (init_sign_state keys))).1.provided_signatures))

  -- A key stays erased if the authorities hold without it, and is put back if one is missing;
  -- any other exception goes on.
  keep_if_needed : ℕ → List ℕ → Result (Unit {0}) → Result (List ℕ)
  keep_if_needed k result (ok _) = ok (erase_id k result)
  keep_if_needed k result (err tx_missing_owner_auth) = ok (insert_id k (erase_id k result))
  keep_if_needed k result (err tx_missing_active_auth) = ok (insert_id k (erase_id k result))
  keep_if_needed k result (err tx_missing_posting_auth) = ok (insert_id k (erase_id k result))
  keep_if_needed k result (err tx_missing_other_auth) = ok (insert_id k (erase_id k result))
  keep_if_needed k result (err e) = err e

  minimize_loop : List Op → ℕ → List ℕ → List ℕ → Result (List ℕ)
  unfolding verify_authority keep_if_needed
  minimize_loop ops max_recursion [] result = ok result
  minimize_loop ops max_recursion (k ∷ keys) result = do
    result' ←
        keep_if_needed k result (verify_authority ops (erase_id k result) max_recursion [] [] [])
    minimize_loop ops max_recursion keys result'

  pub minimize_required_signatures : List Op → List Signature → List ℕ → ℕ → Result (List ℕ)
  unfolding get_required_signatures minimize_loop
  minimize_required_signatures ops sigs available max_recursion = do
    keys ← get_required_signatures ops sigs available max_recursion
    minimize_loop ops max_recursion keys keys
