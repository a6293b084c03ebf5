-- ===== src/Protocol/Verify/Sound.antt =====
-- `verify_authority` accepts only what is authorised.
use wenode.Base.{
  tx_missing_posting_auth, tx_missing_active_auth, tx_missing_owner_auth, tx_missing_other_auth,
  subst, ℕ, ◌≡◌, refl, sym, ◌∙◌, Bool, true, false, ◌||◌, List, [], ◌∷◌, ◌⊎◌, inl, inr, is_empty,
  is_some, lookup, member, ok, Exception, assert, >>=-eq-ok, assert-eq-ok, Bool-cases, arith,
}
use wenode.Protocol.Names.{Name, name_eq, has_name}
use wenode.Protocol.Authority.{Authority}
use wenode.Protocol.SignState.{
  SignState, init_sign_state, all_unused, approve, check_authority, check_account, temp_account,
}
use wenode.Protocol.SignState.Sound.{
  Grants, Backed, lookup-assign, check_authority-IsSound, check_account-Sound,
}
use wenode.Protocol.Verify.{
  Required, Check, any_of, require, approve_all, get_required_authorities, posting_checks,
  active_checks, owner_checks, other_checks, verify_posting, verify_active, verify_authority,
  nothing_required,
}

abbrev pub All : {A : Type 0} → (A → Type 0) → List A → Type 0
All P [] = Unit
All P (x ∷ xs) = P x × All P xs

approve_all-names :
    (names : List Name) (s : SignState) (a : Name)
    → has_name a (approve_all names s).approved_by ≡ (has_name a names || has_name a s.approved_by)
unfolding approve_all approve has_name
approve_all-names [] s a = refl
approve_all-names (n ∷ names) s a = ground (arith, approve_all-names names (approve n s) a)

approve_all-signatures :
    (names : List Name) (s : SignState)
    → (approve_all names s).provided_signatures ≡ s.provided_signatures
unfolding approve_all approve
approve_all-signatures [] s = refl
approve_all-signatures (n ∷ names) s = approve_all-signatures names (approve n s)

all_unused-member :
    (k : ℕ) (sigs : List ℕ) → is_some (lookup k (all_unused sigs)) ≡ true → member k sigs ≡ true
unfolding all_unused
all_unused-member k [] e = cc
all_unused-member k (j ∷ sigs) e =
    ground (arith, all_unused-member k sigs, lookup-assign j k false (all_unused sigs))

is_empty-eq-true : {A : Type 0} (xs : List A) → is_empty xs ≡ true → xs ≡ []
is_empty-eq-true [] e = refl
is_empty-eq-true (x ∷ xs) e = cc

-- `IsSound` for a disjunct: it keeps the state backed, and a positive answer shows `P`.
abbrev Supports : (SignState → Type 0) → Type 0 → Check → Type 0
Supports Inv P c = (s : SignState) → Inv s → Inv (c s).1 × ((c s).0 ≡ true → P)

module _ (Inv : SignState → Type 0) where
  any_of-Supports :
      (P : Type 0) (cs : List Check) → All (Supports Inv P) cs → Supports Inv P (any_of cs)
  unfolding any_of
  any_of-Supports P [] h s v = (v, λ e. absurd (cc))
  any_of-Supports P (c ∷ cs) h s v = elim (Bool-cases (c s).0) [
    | inl yes_it_is ↦ rw (yes_it_is, any_of) (h.0 s v)
    | inr not_yet ↦ rw (not_yet, any_of) (any_of-Supports P cs h.1 (c s).1 (h.0 s v).0)
  ]

  require-All :
      {A : Type 0} (P : A → Type 0) (e : Exception) (checks : A → List Check) (xs : List A)
      (s : SignState) {s' : SignState}
      → ((x : A) → All (Supports Inv (P x)) (checks x))
      → Inv s
      → require e checks xs s ≡ ok s'
      → Inv s' × All P xs
  unfolding require
  require-All P e checks [] s h v q = (subst Inv (ground arith) v, tt)
  require-All P e checks (x ∷ xs) s h v q =
      let (v', shows) = any_of-Supports (P x) (checks x) (h x) s v in
      elim (Bool-cases (any_of (checks x) s).0) [
        | inl granted ↦
            (let r =
                require-All P e checks xs (any_of (checks x) s).1 h v'
                  (ground (arith, q, granted)) in
              (r.0, (shows granted, r.1)))
        | inr denied ↦ absurd (ground (arith, q, denied))
      ]

module _ (get : Name → Authority) (sigs : List ℕ) where
  -- The specification for a transaction signed with `sigs`.
  abbrev pub Granted : (Name → Bool) → Authority → Type 0
  Granted approved = Grants get (λ k. member k sigs) approved

  pub no_key : (k : ℕ) → member k [] ≡ true → member k sigs ≡ true
  no_key k e = cc

  abbrev pub SignsBacked : (Name → Bool) → SignState → Type 0
  SignsBacked approved s = Backed get [] (λ k. member k sigs) approved (no_key) s

  -- A state that has looked at no signature is backed by the names that are approved in it.
  pub start-Backed :
      (s : SignState) (approved : Name → Bool)
      → s.provided_signatures ≡ all_unused sigs
      → ((a : Name) → has_name a s.approved_by ≡ approved a)
      → SignsBacked approved s
  start-Backed s approved e same = record {
    keys = λ k q. all_unused-member k sigs (subst (λ d. is_some (lookup k d) ≡ true) e q);
    accounts = λ a q. inl (sym (same a) ∙ q);
  }

  check_account-Supports :
      (approved : Name → Bool) (m : ℕ) (id : Name) (P : Type 0)
      → ((approved id ≡ true) ⊎ Granted approved (get id) → P)
      → Supports (SignsBacked approved) P (check_account get [] m id)
  check_account-Supports approved m id P use_it s v =
      let (v', shows) =
        check_account-Sound get [] (λ k. member k sigs) approved (no_key) m id s v in
      (v', λ e. use_it (shows e))

  check_authority-Supports :
      (approved : Name → Bool) (m : ℕ) (auth : Authority) (P : Type 0)
      → (Granted approved auth → P)
      → Supports (SignsBacked approved) P (check_authority get [] m auth)
  check_authority-Supports approved m auth P use_it s v =
      let (v', shows) =
        check_authority-IsSound get [] (λ k. member k sigs) approved (no_key) m auth s v in
      (v', λ e. use_it (shows e))

-- The names that count as approved with some approvals given.
abbrev pub approved_with : List Name → Name → Bool
approved_with approvals a = has_name a approvals || name_eq a temp_account || false

-- An account whose posting authority is required was approved, or one of its three authorities
-- is granted through posting authorities.
abbrev pub ByPosting :
    (Name → Authority)
    → (Name → Authority)
    → (Name → Authority)
    → List ℕ
    → (Name → Bool)
    → Name
    → Type 0
ByPosting get_active get_owner get_posting sigs approved id =
    (approved id ≡ true)
    ⊎ Granted get_posting sigs approved (get_posting id)
    ⊎ Granted get_posting sigs approved (get_active id)
    ⊎ Granted get_posting sigs approved (get_owner id)

-- The names that count as approved once the active and the owner approvals are in.
abbrev pub approved_by_either : List Name → List Name → Name → Bool
approved_by_either active_approvals owner_approvals a =
    has_name a owner_approvals || has_name a active_approvals || name_eq a temp_account || false

abbrev pub ByActive :
    (Name → Authority) → (Name → Authority) → List ℕ → List Name → List Name → Name → Type 0
ByActive get_active get_owner sigs active_approvals owner_approvals id =
    let names = approved_by_either active_approvals owner_approvals in
    (names id ≡ true)
    ⊎ Granted get_active sigs names (get_active id)
    ⊎ Granted get_active sigs names (get_owner id)

abbrev pub ByOwner :
    (Name → Authority) → (Name → Authority) → List ℕ → List Name → List Name → Name → Type 0
ByOwner get_active get_owner sigs active_approvals owner_approvals id =
    let names = approved_by_either active_approvals owner_approvals in
    (has_name id owner_approvals ≡ true) ⊎ Granted get_active sigs names (get_owner id)

module _ {Op Signature : Type 0} (get_required : Op → Required → Required) (recover : Signature → ℕ)
    (get_active get_owner get_posting : Name → Authority) where
  posting_checks-Supports :
      (sigs : List ℕ) (approved : Name → Bool) (m : ℕ) (id : Name)
      → All
          (Supports
            (SignsBacked get_posting sigs approved)
            (ByPosting get_active get_owner get_posting sigs approved id))
          (posting_checks get_required recover get_active get_owner get_posting m id)
  unfolding posting_checks
  posting_checks-Supports sigs approved m id =
      let by = ByPosting get_active get_owner get_posting sigs approved id in
      (
        check_account-Supports get_posting sigs approved m id by
            (elim [ inl old ↦ inl old | inr g ↦ inr (inl g) ]),
        (
          check_authority-Supports get_posting sigs approved m (get_active id) by
              (λ g. inr (inr (inl g))),
          (
            check_authority-Supports get_posting sigs approved m (get_owner id) by
                (λ g. inr (inr (inr g))),
            tt,
          ),
        ),
      )

  verify_posting-Granted :
      (r : Required) (sigs : List ℕ) (m : ℕ) (approvals : List Name)
      → verify_posting get_required recover get_active get_owner get_posting r sigs m approvals
        ≡ ok tt
      → (r.active ≡ [])
        × (r.owner ≡ [])
        × (r.other ≡ [])
        × All (ByPosting get_active get_owner get_posting sigs (approved_with approvals)) r.posting
  unfolding verify_posting init_sign_state has_name
  verify_posting-Granted r sigs m approvals e =
      let (u₁, e₁, f₁) = >>=-eq-ok (assert (is_empty r.active)) _ e in
      let (u₂, e₂, f₂) = >>=-eq-ok (assert (is_empty r.owner)) _ f₁ in
      let (u₃, e₃, f₃) = >>=-eq-ok (assert (is_empty r.other)) _ f₂ in
      let start = approve_all approvals (init_sign_state sigs) in
      let checks = posting_checks get_required recover get_active get_owner get_posting m in
      let (s, e₄, f₄) = >>=-eq-ok (require tx_missing_posting_auth checks r.posting start) _ f₃ in
      let supported =
        require-All (SignsBacked get_posting sigs (approved_with approvals))
          (ByPosting get_active get_owner get_posting sigs (approved_with approvals))
          tx_missing_posting_auth checks r.posting start
          (posting_checks-Supports sigs (approved_with approvals) m)
          (start-Backed get_posting sigs start (approved_with approvals)
            (approve_all-signatures approvals (init_sign_state sigs))
            (λ a. ground (arith, approve_all-names approvals (init_sign_state sigs) a)))
          e₄ in
      (
        is_empty-eq-true r.active (assert-eq-ok (is_empty r.active) e₁),
        is_empty-eq-true r.owner (assert-eq-ok (is_empty r.owner) e₂),
        is_empty-eq-true r.other (assert-eq-ok (is_empty r.other) e₃),
        supported.1,
      )

  verify_active-Granted :
      (r : Required) (sigs : List ℕ) (m : ℕ) (active_approvals owner_approvals : List Name)
      → verify_active get_required recover get_active get_owner get_posting r sigs m
          active_approvals owner_approvals
        ≡ ok tt
      → All (Granted get_active sigs (approved_by_either active_approvals owner_approvals)) r.other
        × All (ByActive get_active get_owner sigs active_approvals owner_approvals) r.active
        × All (ByOwner get_active get_owner sigs active_approvals owner_approvals) r.owner
  unfolding verify_active active_checks owner_checks other_checks init_sign_state has_name
  verify_active-Granted r sigs m active_approvals owner_approvals e =
      let names = approved_by_either active_approvals owner_approvals in
      let start =
        approve_all owner_approvals (approve_all active_approvals (init_sign_state sigs)) in
      let others = other_checks get_required recover get_active get_owner get_posting m in
      let actives = active_checks get_required recover get_active get_owner get_posting m in
      let owners =
        owner_checks get_required recover get_active get_owner get_posting m owner_approvals in
      let (s₁, e₁, f₁) = >>=-eq-ok (require tx_missing_other_auth others r.other start) _ e in
      let (s₂, e₂, f₂) = >>=-eq-ok (require tx_missing_active_auth actives r.active s₁) _ f₁ in
      let (s₃, e₃, f₃) = >>=-eq-ok (require tx_missing_owner_auth owners r.owner s₂) _ f₂ in
      let (v₁, granted₁) =
        require-All (SignsBacked get_active sigs names) (Granted get_active sigs names)
          tx_missing_other_auth others r.other start
          (λ auth. (check_authority-Supports get_active sigs names m auth _ (λ g. g), tt))
          (start-Backed get_active sigs start names
            (approve_all-signatures owner_approvals
                (approve_all active_approvals (init_sign_state sigs))
              ∙ approve_all-signatures active_approvals (init_sign_state sigs))
            (λ a. ground (
              arith,
              approve_all-names owner_approvals
                  (approve_all active_approvals (init_sign_state sigs)) a,
              approve_all-names active_approvals (init_sign_state sigs) a,
            )))
          e₁ in
      let (v₂, granted₂) =
        require-All (SignsBacked get_active sigs names)
          (ByActive get_active get_owner sigs active_approvals owner_approvals)
          tx_missing_active_auth actives r.active s₁
          (λ id. (
            check_account-Supports get_active sigs names m id _
                (elim [ inl old ↦ inl old | inr g ↦ inr (inl g) ]),
            (
              check_authority-Supports get_active sigs names m (get_owner id) _ (λ g. inr (inr g)),
              tt,
            ),
          ))
          v₁ e₂ in
      let (v₃, granted₃) =
        require-All (SignsBacked get_active sigs names)
          (ByOwner get_active get_owner sigs active_approvals owner_approvals) tx_missing_owner_auth
          owners r.owner s₂
          (λ id. (
            λ s v. (v, λ approved. inl approved),
            (check_authority-Supports get_active sigs names m (get_owner id) _ (λ g. inr g), tt),
          ))
          v₂ e₃ in
      (granted₁, granted₂, granted₃)

  -- Where `verify_authority` does not throw, every requirement of the operations is met. If some
  -- operation needs posting authority, none needs another kind, and for every posting account the
  -- name was approved or one of its authorities is granted by the signatures. Otherwise the other
  -- authorities, the active accounts and the owner accounts are granted in the same sense; an
  -- owner account counts as approved only by the owner approvals.
  pub verify_authority-Granted :
      (ops : List Op) (sigs : List ℕ) (m : ℕ)
      (active_approvals owner_approvals posting_approvals : List Name)
      → verify_authority get_required recover get_active get_owner get_posting ops sigs m
          active_approvals owner_approvals posting_approvals
        ≡ ok tt
      → let r =
          get_required_authorities get_required recover get_active get_owner get_posting ops
            nothing_required in
        ((r.active ≡ [])
          × (r.owner ≡ [])
          × (r.other ≡ [])
          × All
              (ByPosting get_active get_owner get_posting sigs (approved_with posting_approvals))
              r.posting)
        ⊎ ((r.posting ≡ [])
            × All
                (Granted get_active sigs (approved_by_either active_approvals owner_approvals))
                r.other
            × All (ByActive get_active get_owner sigs active_approvals owner_approvals) r.active
            × All (ByOwner get_active get_owner sigs active_approvals owner_approvals) r.owner)
  unfolding verify_authority
  verify_authority-Granted ops sigs m active_approvals owner_approvals posting_approvals e =
      let r =
        get_required_authorities get_required recover get_active get_owner get_posting ops
          nothing_required in
      elim (Bool-cases (is_empty r.posting)) [
        | inl none_posting ↦
            (let granted =
                verify_active-Granted r sigs m active_approvals owner_approvals
                  (rw none_posting at e) in
              inr (is_empty-eq-true r.posting none_posting, granted.0, granted.1, granted.2))
        | inr some_posting ↦
            inl (verify_posting-Granted r sigs m posting_approvals (rw some_posting at e))
      ]
