-- ===== src/Protocol/SignState.antt =====
-- libraries/protocol/sign_state.cpp: whether the signatures at hand satisfy an authority.
pub mod Sound
pub mod Complete
use wenode.Base.{
  ℕ, zero, suc, ◌+◌, ◌%◌, ◌^◌, Bool, true, false, ◌&&◌, ◌||◌, not, Option, none, some, List, [],
  ◌∷◌, leb, ◌==◌, if◌then◌else◌, is_some, is_empty, Dict, lookup, member, all,
}
use wenode.Protocol.Names.{Name, has_name, assign}
use wenode.Protocol.Authority.{Authority}

-- The members that change; the getter, the available keys and `max_recursion` are parameters.
pub record SignState : Type 0 where
  pub provided_signatures : Dict Bool
  pub approved_by : List Name

unfoldable pub all_unused : List ℕ → Dict Bool
unfolding assign
all_unused [] = []
all_unused (k ∷ ks) = assign k false (all_unused ks)

-- The name "temp", which is approved from the start.
abbrev pub temp_account : Name
temp_account = b't' ∷ b'e' ∷ b'm' ∷ b'p' ∷ []

-- The constructor.
unfoldable pub init_sign_state : List ℕ → SignState
unfolding all_unused
init_sign_state sigs = record {
  provided_signatures = all_unused sigs;
  approved_by = temp_account ∷ [];
}

unfoldable pub approve : Name → SignState → SignState
approve a s = record s { approved_by = a ∷ s.approved_by }

unfoldable pub unused : Dict Bool → List ℕ
unused [] = []
unused ((k, used) ∷ d) = if used then unused d else k ∷ unused d

unfoldable pub used_only : Dict Bool → Dict Bool
used_only [] = []
used_only ((k, used) ∷ d) = if used then (k, used) ∷ used_only d else used_only d

unfoldable pub remove_unused_signatures : SignState → Bool × SignState
unfolding unused used_only
remove_unused_signatures s = (
  not (is_empty (unused s.provided_signatures)),
  record s { provided_signatures = used_only s.provided_signatures },
)

module _ (get_active : Name → Authority) (available_keys : List ℕ) where
  unfoldable pub signed_by : ℕ → SignState → Bool × SignState
  unfolding assign
  signed_by k s =
      if is_some (lookup k s.provided_signatures) || member k available_keys
      then (true, record s { provided_signatures = assign k true s.provided_signatures })
      else (false, s)

  -- The first loop: whether it returned, the weight so far (a uint32), and the state.
  unfoldable pub check_keys : ℕ → Dict ℕ → ℕ → SignState → Bool × ℕ × SignState
  check_keys threshold [] total s = (false, total, s)
  check_keys threshold ((k, w) ∷ keys) total s =
      let r = signed_by k s in
      elim r.0 [
        | false ↦ check_keys threshold keys total r.1
        | true ↦ elim (leb threshold ((total + w) % 2 ^ 32)) [
          | true ↦ (true, (total + w) % 2 ^ 32, r.1)
          | false ↦ check_keys threshold keys ((total + w) % 2 ^ 32) r.1
        ]
      ]

  -- The second loop; `deeper` is the recursive call, none at the maximal depth.
  unfoldable pub check_accounts :
      Option (Authority → SignState → Bool × SignState)
      → ℕ
      → List (Name × ℕ)
      → ℕ
      → SignState
      → Bool × SignState
  unfolding has_name
  check_accounts deeper threshold [] total s = (leb threshold total, s)
  check_accounts deeper threshold ((a, w) ∷ rest) total s = elim (has_name a s.approved_by) [
    | true ↦ elim (leb threshold ((total + w) % 2 ^ 32)) [
      | true ↦ (true, s)
      | false ↦ check_accounts deeper threshold rest ((total + w) % 2 ^ 32) s
    ]
    | false ↦ elim deeper [
      | none ↦ check_accounts deeper threshold rest total s
      | some call ↦ elim (call (get_active a) s).0 [
        | false ↦ check_accounts deeper threshold rest total (call (get_active a) s).1
        | true ↦ elim (leb threshold ((total + w) % 2 ^ 32)) [
          | true ↦ (true, approve a (call (get_active a) s).1)
          | false ↦
              check_accounts deeper threshold rest ((total + w) % 2 ^ 32)
                (approve a (call (get_active a) s).1)
        ]
      ]
    ]
  ]

  unfoldable pub check_with :
      Option (Authority → SignState → Bool × SignState) → Authority → SignState → Bool × SignState
  unfolding check_keys check_accounts
  check_with deeper auth s =
      let r = check_keys auth.weight_threshold auth.key_auths 0 s in
      elim r.0 [
        | true ↦ (true, r.2)
        | false ↦ check_accounts deeper auth.weight_threshold auth.account_auths r.1 r.2
      ]

  -- The first argument is `max_recursion - depth`.
  unfoldable pub check_authority : ℕ → Authority → SignState → Bool × SignState
  unfolding check_with
  check_authority zero auth s = check_with none auth s
  check_authority (suc left) auth s = check_with (some (check_authority left)) auth s

  -- The overload for an account.
  unfoldable pub check_account : ℕ → Name → SignState → Bool × SignState
  unfolding has_name
  check_account max_recursion id s =
      if has_name id s.approved_by
      then (true, s)
      else check_authority max_recursion (get_active id) s
