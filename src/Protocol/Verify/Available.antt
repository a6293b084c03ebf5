-- ===== src/Protocol/Verify/Available.antt =====
-- Which keys `get_required_signatures` and `minimize_required_signatures` ask for.
use wenode.Base.{
  ℕ, ◌≡◌, Bool, true, ◌||◌, List, [], ◌∷◌, ◌==◌, inl, inr, is_empty, Dict, member, erase_id,
  member-erase_id, member-insert_id, Result, ok, err, assert, fc_assert, logic_error, out_of_range,
  undefined, unlinkable_block, tx_missing_posting_auth, tx_missing_active_auth,
  tx_missing_owner_auth, tx_missing_other_auth, tx_irrelevant_sig, tx_duplicate_sig, >>=-eq-ok,
  Bool-cases, arith,
}
use wenode.Protocol.Names.{Name}
use wenode.Protocol.Authority.{Authority}
use wenode.Protocol.Verify.{
  Required, keep_available, get_signature_keys, get_required_authorities, get_required_signatures,
  nothing_required, keep_if_needed, minimize_loop, minimize_required_signatures, verify_authority,
}

keep_available-member :
    (available : List ℕ) (d : Dict Bool) (j : ℕ)
    → member j (keep_available available d) ≡ true
    → member j available ≡ true
unfolding keep_available
keep_available-member available [] j e = cc
keep_available-member available ((k, used) ∷ d) j e = elim (Bool-cases (member k available)) [
  | inr other ↦ keep_available-member available d j (rw other at e)
  | inl found ↦ elim (Bool-cases (j == k)) [
    | inl same ↦ ground (arith, found)
    | inr differ ↦ keep_available-member available d j (ground (arith, found))
  ]
]

ok_keep_available-member :
    (available : List ℕ) (d : Dict Bool) (j : ℕ) {keys : List ℕ}
    → ok (keep_available available d) ≡ ok keys
    → member j keys ≡ true
    → member j available ≡ true
ok_keep_available-member available d j e h =
    keep_available-member available d j (ground (arith, e, h))

module _ {Op Signature : Type 0} (get_required : Op → Required → Required) (recover : Signature → ℕ)
    (get_active get_owner get_posting : Name → Authority) where
  get_required_signatures-available :
      (ops : List Op) (sigs : List Signature) (available : List ℕ) (m j : ℕ) {keys : List ℕ}
      → get_required_signatures get_required recover get_active get_owner get_posting ops sigs
          available m
        ≡ ok keys
      → member j keys ≡ true
      → member j available ≡ true
  unfolding get_required_signatures
  get_required_signatures-available ops sigs available m j {keys} e h =
      let r =
        get_required_authorities get_required recover get_active get_owner get_posting ops
          nothing_required in
      let (signers, _, f) =
        >>=-eq-ok (get_signature_keys get_required recover get_active get_owner get_posting sigs) _
          e in
      elim (Bool-cases (is_empty r.posting)) [
        | inl active ↦ ok_keep_available-member available _ j (rw active at f) h
        | inr posting ↦
            (let (_, _, f₁) = >>=-eq-ok (assert (is_empty r.owner)) _ (rw posting at f) in
              let (_, _, f₂) = >>=-eq-ok (assert (is_empty r.active)) _ f₁ in
              ok_keep_available-member available _ j f₂ h)
      ]

  keep_if_needed-member :
      (k : ℕ) (result : List ℕ) (r : Result (Unit {0})) (j : ℕ) {kept : List ℕ}
      → keep_if_needed get_required recover get_active get_owner get_posting k result r ≡ ok kept
      → member j kept ≡ true
      → (j == k || member j result) ≡ true
  unfolding keep_if_needed
  keep_if_needed-member k result (ok _) j e h = ground (arith, member-erase_id k j result)
  keep_if_needed-member k result (err tx_missing_owner_auth) j e h =
      ground (arith, member-erase_id k j result, member-insert_id k j (erase_id k result))
  keep_if_needed-member k result (err tx_missing_active_auth) j e h =
      ground (arith, member-erase_id k j result, member-insert_id k j (erase_id k result))
  keep_if_needed-member k result (err tx_missing_posting_auth) j e h =
      ground (arith, member-erase_id k j result, member-insert_id k j (erase_id k result))
  keep_if_needed-member k result (err tx_missing_other_auth) j e h =
      ground (arith, member-erase_id k j result, member-insert_id k j (erase_id k result))
  keep_if_needed-member k result (err fc_assert) j e h = cc
  keep_if_needed-member k result (err logic_error) j e h = cc
  keep_if_needed-member k result (err out_of_range) j e h = cc
  keep_if_needed-member k result (err undefined) j e h = cc
  keep_if_needed-member k result (err unlinkable_block) j e h = cc
  keep_if_needed-member k result (err tx_irrelevant_sig) j e h = cc
  keep_if_needed-member k result (err tx_duplicate_sig) j e h = cc

  minimize_loop-member :
      (ops : List Op) (m : ℕ) (keys result : List ℕ) (j : ℕ) {kept : List ℕ}
      → minimize_loop get_required recover get_active get_owner get_posting ops m keys result
        ≡ ok kept
      → member j kept ≡ true
      → (member j keys || member j result) ≡ true
  unfolding minimize_loop
  minimize_loop-member ops m [] result j e h = ground (arith, e, h)
  minimize_loop-member ops m (k ∷ keys) result j e h =
      let attempt =
        verify_authority get_required recover get_active get_owner get_posting ops
          (erase_id k result) m [] [] [] in
      let (smaller, f, g) =
        >>=-eq-ok
          (keep_if_needed get_required recover get_active get_owner get_posting k result attempt) _
          e in
      let later = minimize_loop-member ops m keys smaller j g h in
      ground (arith, later, keep_if_needed-member k result attempt j f)

  -- Every key that `minimize_required_signatures` returns is one of the available keys.
  pub minimize_required_signatures-available :
      (ops : List Op) (sigs : List Signature) (available : List ℕ) (m j : ℕ) {keys : List ℕ}
      → minimize_required_signatures get_required recover get_active get_owner get_posting ops sigs
          available m
        ≡ ok keys
      → member j keys ≡ true
      → member j available ≡ true
  unfolding minimize_required_signatures
  minimize_required_signatures-available ops sigs available m j e h =
      let (required, f, g) =
        >>=-eq-ok
          (get_required_signatures get_required recover get_active get_owner get_posting ops sigs
            available m)
          _ e in
      let found = minimize_loop-member ops m required required j g h in
      get_required_signatures-available ops sigs available m j f (ground (arith, found))
