-- ===== src/Protocol/SignState/Sound.antt =====
-- What a positive answer of `check_authority` rests on.
use wenode.Base.{
  ℕ, zero, suc, ◌+◌, ◌%◌, ◌^◌, ◌≤◌, ◌≡◌, refl, ap, Bool, true, ◌||◌, Option, none, some, List, [],
  ◌∷◌, ◌⊎◌, inl, inr, leb, ◌==◌, is_some, Dict, lookup, member, Bool-cases, arith,
}
use wenode.Protocol.Names.{Name, name_eq, name_eq→≡, has_name, assign}
use wenode.Protocol.Authority.{Authority}
use wenode.Protocol.SignState.{
  SignState, approve, signed_by, check_keys, check_accounts, check_with, check_authority,
  check_account,
}

-- A weight that some of the entries add up to, each for a key that signed.
pub data KeyWeight (signed : ℕ → Bool) : Dict ℕ → ℕ → Type 0 where
  done : {keys : Dict ℕ} → KeyWeight signed keys 0
  skip :
      {e : ℕ × ℕ} {keys : Dict ℕ} {n : ℕ} → KeyWeight signed keys n → KeyWeight signed (e ∷ keys) n
  count :
      {k w n m : ℕ} {keys : Dict ℕ}
      → signed k ≡ true
      → KeyWeight signed keys n
      → m ≡ w + n
      → KeyWeight signed ((k, w) ∷ keys) m

-- The specification, with no depth, no state and no order: an authority is granted if keys that
-- signed and accounts that are approved, or whose own authority is granted, weigh enough.
mutual
  pub data Grants (get : Name → Authority) (signed : ℕ → Bool) (approved : Name → Bool)
      : Authority → Type 0 where
    grants :
        {auth : Authority} {k a : ℕ}
        → KeyWeight signed auth.key_auths k
        → AccountWeight get signed approved auth.account_auths a
        → auth.weight_threshold ≤ k + a
        → Grants get signed approved auth

  pub data AccountWeight (get : Name → Authority) (signed : ℕ → Bool) (approved : Name → Bool)
      : List (Name × ℕ) → ℕ → Type 0 where
    stop : {rest : List (Name × ℕ)} → AccountWeight get signed approved rest 0
    pass :
        {e : Name × ℕ} {rest : List (Name × ℕ)} {n : ℕ}
        → AccountWeight get signed approved rest n
        → AccountWeight get signed approved (e ∷ rest) n
    known :
        {a : Name} {w n m : ℕ} {rest : List (Name × ℕ)}
        → approved a ≡ true
        → AccountWeight get signed approved rest n
        → m ≡ w + n
        → AccountWeight get signed approved ((a, w) ∷ rest) m
    through :
        {a : Name} {w n m : ℕ} {rest : List (Name × ℕ)}
        → Grants get signed approved (get a)
        → AccountWeight get signed approved rest n
        → m ≡ w + n
        → AccountWeight get signed approved ((a, w) ∷ rest) m

pub lookup-assign :
    (k j : ℕ) (b : Bool) (d : Dict Bool)
    → is_some (lookup j (assign k b d)) ≡ (j == k || is_some (lookup j d))
unfolding assign
lookup-assign k j b [] = ground arith
lookup-assign k j b ((i, c) ∷ d) = ground (arith, lookup-assign k j b d)

module _ (get : Name → Authority) (available : List ℕ) (signed : ℕ → Bool) (approved : Name → Bool)
    (has_key : (k : ℕ) → member k available ≡ true → signed k ≡ true) where
  -- What the state says is backed by the specification.
  pub record Backed (s : SignState) : Type 0 where
    pub keys : (k : ℕ) → is_some (lookup k s.provided_signatures) ≡ true → signed k ≡ true
    pub accounts :
        (a : Name)
        → has_name a s.approved_by ≡ true
        → (approved a ≡ true) ⊎ Grants get signed approved (get a)

  signed_by-Backed :
      (k : ℕ) (s : SignState)
      → Backed s
      → Backed (signed_by get available k s).1
        × ((signed_by get available k s).0 ≡ true → signed k ≡ true)
  unfolding signed_by
  signed_by-Backed k s v =
      elim (Bool-cases (is_some (lookup k s.provided_signatures) || member k available)) [
        | inr no_key ↦ rw no_key (v, λ e. absurd (cc))
        | inl key ↦
            (let ok : signed k ≡ true = ground (arith, v.keys k, has_key k) in
              rw key (
                record {
                  keys = λ j e. ground (
                    arith,
                    v.keys j,
                    lookup-assign k j true s.provided_signatures,
                    ok,
                    ap signed {x = j} {y = k},
                  );
                  accounts = v.accounts;
                },
                λ e. ok,
              ))
      ]

  -- After the first loop the weight so far is backed by keys that signed.
  record KeysChecked (threshold total : ℕ) (keys : Dict ℕ) (r : Bool × ℕ × SignState) : Type 0 where
    state : Backed r.2
    weight : ℕ
    signers : KeyWeight signed keys weight
    total_le : r.1 ≤ total + weight
    returned : r.0 ≡ true → threshold ≤ r.1

  KeysChecked-skip :
      (threshold total : ℕ) (e : ℕ × ℕ) (keys : Dict ℕ) (r : Bool × ℕ × SignState)
      → KeysChecked threshold total keys r
      → KeysChecked threshold total (e ∷ keys) r
  KeysChecked-skip threshold total e keys r c = record {
    state = c.state;
    weight = c.weight;
    signers = skip c.signers;
    total_le = c.total_le;
    returned = c.returned;
  }

  KeysChecked-count :
      (threshold total k w : ℕ) (keys : Dict ℕ) (r : Bool × ℕ × SignState)
      → signed k ≡ true
      → KeysChecked threshold ((total + w) % 2 ^ 32) keys r
      → KeysChecked threshold total ((k, w) ∷ keys) r
  KeysChecked-count threshold total k w keys r ok c = record {
    state = c.state;
    weight = w + c.weight;
    signers = count ok c.signers refl;
    total_le = omega (arith, c.total_le);
    returned = c.returned;
  }

  check_keys-Backed :
      (threshold total : ℕ) (keys : Dict ℕ) (s : SignState)
      → Backed s
      → KeysChecked threshold total keys (check_keys get available threshold keys total s)
  unfolding check_keys
  check_keys-Backed threshold total [] s v = record {
    state = v;
    weight = 0;
    signers = done;
    total_le = omega arith;
    returned = λ e. absurd (cc);
  }
  check_keys-Backed threshold total ((k, w) ∷ keys) s v =
      let (v', ok) = signed_by-Backed k s v in
      let t = (total + w) % 2 ^ 32 in
      let s' = (signed_by get available k s).1 in
      elim (Bool-cases (signed_by get available k s).0) [
        | inr unsigned ↦
            rw (unsigned, check_keys)
              (KeysChecked-skip threshold total (k, w) keys _
                (check_keys-Backed threshold total keys s' v'))
        | inl sig ↦ elim (Bool-cases (leb threshold t)) [
          | inl enough ↦
              rw (sig, check_keys)
                (rw enough (
                  KeysChecked-count threshold total k w keys (true, t, s') (ok sig)
                    (record {
                      state = v';
                      weight = 0;
                      signers = done;
                      total_le = omega arith;
                      returned = λ e. ground arith;
                    })))
          | inr short ↦
              rw (sig, check_keys)
                (rw short (
                  KeysChecked-count threshold total k w keys _ (ok sig)
                    (check_keys-Backed threshold t keys s' v')))
        ]
      ]

  -- After the second loop a positive answer is backed by accounts on top of the weight so far.
  record AccountsChecked (threshold total : ℕ) (rest : List (Name × ℕ)) (r : Bool × SignState)
      : Type 0 where
    state : Backed r.1
    weight : ℕ
    accounts : AccountWeight get signed approved rest weight
    returned : r.0 ≡ true → threshold ≤ total + weight

  AccountsChecked-pass :
      (threshold total : ℕ) (e : Name × ℕ) (rest : List (Name × ℕ)) (r : Bool × SignState)
      → AccountsChecked threshold total rest r
      → AccountsChecked threshold total (e ∷ rest) r
  AccountsChecked-pass threshold total e rest r c = record {
    state = c.state;
    weight = c.weight;
    accounts = pass c.accounts;
    returned = c.returned;
  }

  AccountsChecked-count :
      (threshold total : ℕ) (a : Name) (w : ℕ) (rest : List (Name × ℕ)) (r : Bool × SignState)
      → (approved a ≡ true) ⊎ Grants get signed approved (get a)
      → AccountsChecked threshold ((total + w) % 2 ^ 32) rest r
      → AccountsChecked threshold total ((a, w) ∷ rest) r
  AccountsChecked-count threshold total a w rest r (inl ok) c = record {
    state = c.state;
    weight = w + c.weight;
    accounts = known ok c.accounts refl;
    returned = λ e. omega (arith, c.returned e);
  }
  AccountsChecked-count threshold total a w rest r (inr g) c = record {
    state = c.state;
    weight = w + c.weight;
    accounts = through g c.accounts refl;
    returned = λ e. omega (arith, c.returned e);
  }

  AccountsChecked-enough :
      (threshold total : ℕ) (rest : List (Name × ℕ)) (s : SignState)
      → leb threshold total ≡ true
      → Backed s
      → AccountsChecked threshold total rest (true, s)
  AccountsChecked-enough threshold total rest s l v = record {
    state = v;
    weight = 0;
    accounts = stop;
    returned = λ e. ground arith;
  }

  approve-Backed :
      (a : Name) (s : SignState)
      → Grants get signed approved (get a)
      → Backed s
      → Backed (approve a s)
  unfolding approve has_name
  approve-Backed a s g v = record {
    keys = v.keys;
    accounts = λ b e. elim (Bool-cases (name_eq b a)) [
      | inl same ↦ inr (rw (name_eq→≡ b a same) g)
      | inr other ↦ v.accounts b (ground arith)
    ];
  }

  -- What is asked of the recursive call.
  abbrev pub IsSound : (Authority → SignState → Bool × SignState) → Type 0
  IsSound call =
      (auth : Authority) (s : SignState)
      → Backed s
      → Backed (call auth s).1 × ((call auth s).0 ≡ true → Grants get signed approved auth)

  abbrev IsSoundOption : Option (Authority → SignState → Bool × SignState) → Type 0
  IsSoundOption none = Unit
  IsSoundOption (some call) = IsSound call

  check_accounts-Backed :
      (deeper : Option (Authority → SignState → Bool × SignState)) (threshold total : ℕ)
      (rest : List (Name × ℕ)) (s : SignState)
      → IsSoundOption deeper
      → Backed s
      → AccountsChecked threshold total rest
          (check_accounts get available deeper threshold rest total s)
  unfolding check_accounts
  check_accounts-Backed deeper threshold total [] s d v = record {
    state = v;
    weight = 0;
    accounts = stop;
    returned = λ e. ground arith;
  }
  check_accounts-Backed none threshold total ((a, w) ∷ rest) s d v =
      let t = (total + w) % 2 ^ 32 in
      elim (Bool-cases (has_name a s.approved_by)) [
        | inr new ↦
            rw (new, check_accounts)
              (AccountsChecked-pass threshold total (a, w) rest _
                (check_accounts-Backed none threshold total rest s d v))
        | inl old ↦ elim (Bool-cases (leb threshold t)) [
          | inl enough ↦
              rw (old, check_accounts)
                (rw enough (
                  AccountsChecked-count threshold total a w rest _ (v.accounts a old)
                    (AccountsChecked-enough threshold t rest s enough v)))
          | inr short ↦
              rw (old, check_accounts)
                (rw short (
                  AccountsChecked-count threshold total a w rest _ (v.accounts a old)
                    (check_accounts-Backed none threshold t rest s d v)))
        ]
      ]
  check_accounts-Backed (some call) threshold total ((a, w) ∷ rest) s d v =
      let t = (total + w) % 2 ^ 32 in
      let s' = (call (get a) s).1 in
      let (v', ok) = d (get a) s v in
      elim (Bool-cases (has_name a s.approved_by)) [
        | inl old ↦ elim (Bool-cases (leb threshold t)) [
          | inl enough ↦
              rw (old, check_accounts)
                (rw enough (
                  AccountsChecked-count threshold total a w rest _ (v.accounts a old)
                    (AccountsChecked-enough threshold t rest s enough v)))
          | inr short ↦
              rw (old, check_accounts)
                (rw short (
                  AccountsChecked-count threshold total a w rest _ (v.accounts a old)
                    (check_accounts-Backed (some call) threshold t rest s d v)))
        ]
        | inr new ↦ elim (Bool-cases (call (get a) s).0) [
          | inr denied ↦
              rw (new, check_accounts)
                (rw denied (
                  AccountsChecked-pass threshold total (a, w) rest _
                    (check_accounts-Backed (some call) threshold total rest s' d v')))
          | inl granted ↦
              (let v'' = approve-Backed a s' (ok granted) v' in
                elim (Bool-cases (leb threshold t)) [
                  | inl enough ↦
                      rw (new, check_accounts)
                        (rw granted (
                          rw enough (
                            AccountsChecked-count threshold total a w rest _ (inr (ok granted))
                              (AccountsChecked-enough threshold t rest (approve a s') enough v''))))
                  | inr short ↦
                      rw (new, check_accounts)
                        (rw granted (
                          rw short (
                            AccountsChecked-count threshold total a w rest _ (inr (ok granted)) (
                              check_accounts-Backed (some call) threshold t rest (approve a s') d
                                v''))))
                ])
        ]
      ]

  check_with-IsSound :
      (deeper : Option (Authority → SignState → Bool × SignState))
      → IsSoundOption deeper
      → IsSound (check_with get available deeper)
  unfolding check_with
  check_with-IsSound deeper d auth s v =
      let c = check_keys-Backed auth.weight_threshold 0 auth.key_auths s v in
      let r = check_keys get available auth.weight_threshold auth.key_auths 0 s in
      elim (Bool-cases r.0) [
        | inl early ↦
            rw (early, check_with)
              (c.state, λ e. grants c.signers stop (omega (arith, c.total_le, c.returned early)))
        | inr on ↦
            (let b =
                check_accounts-Backed deeper auth.weight_threshold r.1 auth.account_auths r.2 d
                  c.state in
              rw (on, check_with)
                (
                  b.state,
                  λ e. grants c.signers b.accounts (omega (arith, c.total_le, b.returned e)),
                ))
      ]

  pub check_authority-IsSound : (left : ℕ) → IsSound (check_authority get available left)
  unfolding check_authority
  check_authority-IsSound zero = check_with-IsSound none tt
  check_authority-IsSound (suc left) =
      check_with-IsSound (some (check_authority get available left)) (check_authority-IsSound left)

  -- Soundness at every recursion depth, in whatever order the maps are and however the 32-bit sum
  -- wraps: where `check_authority` answers true on a state that is backed, it leaves a backed
  -- state, and the authority is granted: keys that signed or can sign, accounts approved
  -- beforehand, and accounts whose own authority is granted in turn, weigh at least its threshold.
  pub check_authority-Grants :
      (left : ℕ) (auth : Authority) (s : SignState)
      → Backed s
      → (check_authority get available left auth s).0 ≡ true
      → Backed (check_authority get available left auth s).1 × Grants get signed approved auth
  check_authority-Grants left auth s v e =
      let (v', shows) = check_authority-IsSound left auth s v in (v', shows e)

  pub check_account-Sound :
      (max_recursion : ℕ) (id : Name) (s : SignState)
      → Backed s
      → Backed (check_account get available max_recursion id s).1
        × ((check_account get available max_recursion id s).0 ≡ true
            → (approved id ≡ true) ⊎ Grants get signed approved (get id))
  unfolding check_account
  check_account-Sound max_recursion id s v = elim (Bool-cases (has_name id s.approved_by)) [
    | inl old ↦ rw (old, check_account) (v, λ e. v.accounts id old)
    | inr new ↦
        (let (v', ok) = check_authority-IsSound max_recursion (get id) s v in
          rw (new, check_account) (v', λ e. inr (ok e)))
  ]
