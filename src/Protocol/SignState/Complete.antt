-- ===== src/Protocol/SignState/Complete.antt =====
-- Enough signatures are found to be enough.
use wenode.Base.{
  ℕ, zero, suc, ◌+◌, ◌%◌, ◌^◌, ◌≤◌, ◌<◌, ◌≡◌, refl, Bool, true, Option, some, none, List, leb,
  is_some, Dict, lookup, inl, inr, Bool-cases, arith,
}
use wenode.Protocol.Names.{Name}
use wenode.Protocol.Authority.{Authority}
use wenode.Protocol.Authority.Grammar.{weights}
use wenode.Protocol.SignState.{SignState, signed_by, check_keys, check_with, check_authority}
use wenode.Protocol.SignState.Sound.{KeyWeight, done, skip, count, lookup-assign}

module _ (get : Name → Authority) (available : List ℕ) (signed : ℕ → Bool) where
  -- The keys that signed are among the provided signatures.
  abbrev pub Provides : SignState → Type 0
  Provides s = (k : ℕ) → signed k ≡ true → is_some (lookup k s.provided_signatures) ≡ true

  signed_by-Provides :
      (k : ℕ) (s : SignState) → Provides s → Provides (signed_by get available k s).1
  unfolding signed_by
  signed_by-Provides k s h j e = ground (arith, h j e, lookup-assign k j true s.provided_signatures)

  signed_by-true :
      (k : ℕ) (s : SignState)
      → Provides s
      → signed k ≡ true
      → (signed_by get available k s).0 ≡ true
  unfolding signed_by
  signed_by-true k s h e = ground (arith, h k e)

  -- While the total is below the threshold and the missing weight is still to come, the loop over
  -- the keys returns true.
  check_keys-true :
      (threshold total : ℕ) {keys : Dict ℕ} {n : ℕ} (s : SignState)
      → KeyWeight signed keys n
      → Provides s
      → total < threshold
      → threshold ≤ total + n
      → total + weights keys < 2 ^ 32
      → (check_keys get available threshold keys total s).0 ≡ true
  unfolding check_keys
  check_keys-true threshold total s done h below reach fits = absurd (omega arith)
  check_keys-true threshold total s (skip {e = (k, w)} r) h below reach fits =
      let h' = signed_by-Provides k s h in
      let s' = (signed_by get available k s).1 in
      elim (Bool-cases (signed_by get available k s).0) [
        | inr other ↦
            rw (other, check_keys)
              (check_keys-true threshold total s' r h' below reach (omega arith))
        | inl found ↦ elim (Bool-cases (leb threshold ((total + w) % 2 ^ 32))) [
          | inl enough ↦ rw (found, check_keys) (rw enough refl)
          | inr short ↦
              rw (found, check_keys)
                (rw short (
                  check_keys-true threshold ((total + w) % 2 ^ 32) s' r h' (ground arith)
                    (omega arith) (omega arith)))
        ]
      ]
  check_keys-true threshold total s (count {k} {w} sig r e) h below reach fits =
      let h' = signed_by-Provides k s h in
      let s' = (signed_by get available k s).1 in
      elim (Bool-cases (leb threshold ((total + w) % 2 ^ 32))) [
        | inl enough ↦ rw (signed_by-true k s h sig, check_keys) (rw enough refl)
        | inr short ↦
            rw (signed_by-true k s h sig, check_keys)
              (rw short (
                check_keys-true threshold ((total + w) % 2 ^ 32) s' r h' (ground arith)
                  (omega arith) (omega arith)))
      ]

  check_with-true :
      (deeper : Option (Authority → SignState → Bool × SignState)) (auth : Authority)
      (s : SignState)
      → (check_keys get available auth.weight_threshold auth.key_auths 0 s).0 ≡ true
      → (check_with get available deeper auth s).0 ≡ true
  unfolding check_with
  check_with-true deeper auth s e = rw (e, check_with) refl

  -- Completeness for keys: where keys that signed weigh at least the threshold, which is positive,
  -- and all key weights together fit 32 bits, `check_authority` answers true at every depth.
  pub check_authority-true :
      (left n : ℕ) (auth : Authority) (s : SignState)
      → KeyWeight signed auth.key_auths n
      → Provides s
      → 0 < auth.weight_threshold
      → auth.weight_threshold ≤ n
      → weights auth.key_auths < 2 ^ 32
      → (check_authority get available left auth s).0 ≡ true
  unfolding check_authority
  check_authority-true zero n auth s w h positive reach fits =
      check_with-true none auth s
        (check_keys-true auth.weight_threshold 0 s w h positive (omega arith) (omega arith))
  check_authority-true (suc left) n auth s w h positive reach fits =
      check_with-true (some (check_authority get available left)) auth s
        (check_keys-true auth.weight_threshold 0 s w h positive (omega arith) (omega arith))
