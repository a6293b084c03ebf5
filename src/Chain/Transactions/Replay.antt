-- ===== src/Chain/Transactions/Replay.antt =====
-- No transaction is applied twice.
use wenode.Base.{
  ℕ, ◌+◌, ◌<◌, ◌≤◌, ◌≡◌, ◌⊎◌, inl, inr, Bool, true, false, ◌&&◌, ◌||◌, not, List, [], ◌∷◌, ltb, leb,
  ◌==◌, if◌then◌else◌, Bool-cases, assert-eq-ok, leb→le, ok, arith,
}
use wenode.Base.Returns.{Returns, gives, after, after_assert, after_if}
use wenode.Chain.Table.{insert_by}
use wenode.Chain.Transactions.{
  Known, Skip, is_known, expires_before, clear_from, max_time_until_expiration, Chain, State,
  check_expiration, apply_transaction, clear_expired_transactions, Later, now, apply, pass,
}

-- The index has an entry with an id and an expiration.
unfoldable pub has_entry : ℕ → ℕ → List Known → Bool
has_entry id expiration [] = false
has_entry id expiration (k ∷ ks) =
    (id == k.trx_id && expiration == k.expiration) || has_entry id expiration ks

has_entry-is_known : (id e : ℕ) (ks : List Known) → has_entry id e ks ≡ true → is_known id ks ≡ true
unfolding has_entry is_known
has_entry-is_known id e [] h = cc
has_entry-is_known id e (k ∷ ks) h = ground (arith, h, has_entry-is_known id e ks)

has_entry-insert_by :
    (id e : ℕ) (before : Known → Known → Bool) (k : Known) (ks : List Known)
    → has_entry id e ks ≡ true
    → has_entry id e (insert_by before k ks) ≡ true
unfolding has_entry insert_by
has_entry-insert_by id e before k [] h = cc
has_entry-insert_by id e before k (j ∷ ks) h =
    ground (arith, h, has_entry-insert_by id e before k ks)

has_entry-inserted :
    (before : Known → Known → Bool) (k : Known) (ks : List Known)
    → has_entry k.trx_id k.expiration (insert_by before k ks) ≡ true
unfolding has_entry insert_by
has_entry-inserted before k [] = ground arith
has_entry-inserted before k (j ∷ ks) = ground (arith, has_entry-inserted before k ks)

has_entry-clear_from :
    (id e time : ℕ) (ks : List Known)
    → has_entry id e ks ≡ true
    → time ≤ e
    → has_entry id e (clear_from time ks) ≡ true
unfolding has_entry clear_from
has_entry-clear_from id e time [] h live = cc
has_entry-clear_from id e time (k ∷ ks) h live =
    ground (arith, h, live, has_entry-clear_from id e time ks)

module _ {Trx World : Type 0} (chain : Chain Trx World) where
  -- The transaction is in the index or has expired.
  Barred : Trx → State World → Type 0
  Barred t s =
      (has_entry (chain.id t) (chain.expiration t) s.transactions ≡ true)
      ⊎ (chain.expiration t < chain.time s.world)

  apply_transaction-has_entry :
      (skip : Skip) (t : Trx) (s : State World)
      → skip.dupe_check ≡ false
      → Returns
          (λ s'. has_entry (chain.id t) (chain.expiration t) s'.transactions ≡ true)
          (apply_transaction chain skip t s)
  unfolding apply_transaction
  apply_transaction-has_entry skip t s checked =
      after (if skip.validation then ok tt else chain.validate t) _ (λ u valid.
        after_assert (skip.dupe_check || not (is_known (chain.id t) s.transactions)) _ (λ fresh.
          after (if skip.authority_check then ok tt else chain.verify_authority t s.world) _
            (λ v signed. after (check_expiration chain skip t s.world) _ (λ x in_time.
              after (chain.apply_operations t s.world) _ (λ w applied. gives _ (
                rw checked (
                  has_entry-inserted expires_before
                    (record { trx_id = chain.id t; expiration = chain.expiration t })
                    s.transactions)))))))

  apply_transaction-keeps :
      (skip : Skip) (t : Trx) (i e : ℕ) (s : State World)
      → has_entry i e s.transactions ≡ true
      → Returns (λ s'. has_entry i e s'.transactions ≡ true) (apply_transaction chain skip t s)
  unfolding apply_transaction
  apply_transaction-keeps skip t i e s h =
      after (if skip.validation then ok tt else chain.validate t) _ (λ u valid.
        after_assert (skip.dupe_check || not (is_known (chain.id t) s.transactions)) _ (λ fresh.
          after (if skip.authority_check then ok tt else chain.verify_authority t s.world) _
            (λ v signed. after (check_expiration chain skip t s.world) _ (λ x in_time.
              after (chain.apply_operations t s.world) _ (λ w applied.
                gives _ (elim (Bool-cases skip.dupe_check) [
                  | inl unchecked ↦ rw unchecked h
                  | inr checked ↦ rw checked (
                      has_entry-insert_by i e expires_before
                        (record { trx_id = chain.id t; expiration = chain.expiration t })
                        s.transactions h)
                ]))))))

  Later-Barred : (t : Trx) (s s' : State World) → Later chain s s' → Barred t s → Barred t s'
  unfolding Barred clear_expired_transactions
  Later-Barred t _ _ (now s) barred = barred
  Later-Barred t _ _ (apply skip u s s' s'' run applied same_time) barred =
      elim (Later-Barred t s s' run barred) [
        | inl here ↦ inl (
            (apply_transaction-keeps skip u (chain.id t) (chain.expiration t) s' here).returned
              applied)
        | inr over ↦ inr (rw same_time over)
      ]
  Later-Barred t _ _ (pass s s' w run later) barred = elim (Later-Barred t s s' run barred) [
    | inl here ↦ elim (Bool-cases (ltb (chain.expiration t) (chain.time w))) [
      | inl over ↦ inr (ground (arith, over))
      | inr live ↦ inl (
          has_entry-clear_from (chain.id t) (chain.expiration t) (chain.time w) s'.transactions here
            (ground (arith, live)))
    ]
    | inr over ↦ inr (omega (arith, over, later))
  ]

  check_expiration-live :
      (skip : Skip) (t : Trx) (w : World)
      → 0 < chain.head_block_num w
      → Returns (λ u. chain.time w ≤ chain.expiration t) (check_expiration chain skip t w)
  unfolding check_expiration
  check_expiration-live skip t w some_block =
      after_if (ltb 0 (chain.head_block_num w)) _ _
        (λ yes_it_has. after_assert (skip.tapos_check || chain.tapos_ok t w) _ (λ h.
          after_assert (leb (chain.expiration t) (chain.time w + max_time_until_expiration)) _ (λ k.
            after_assert (not (chain.has_hardfork_0_9 w) || ltb (chain.time w) (chain.expiration t))
              _
              (λ m. record {
                returned = λ e. leb→le (chain.time w) (chain.expiration t) (assert-eq-ok _ e);
              }))))
        (λ none_yet. ground (arith, none_yet, some_block))

  Barred-refused :
      (skip : Skip) (t : Trx) (s : State World)
      → Barred t s
      → skip.dupe_check ≡ false
      → 0 < chain.head_block_num s.world
      → Returns (λ s'. ⊥) (apply_transaction chain skip t s)
  unfolding apply_transaction Barred check_expiration
  Barred-refused skip t s barred checked some_block =
      after (if skip.validation then ok tt else chain.validate t) _ (λ u valid.
        after_assert (skip.dupe_check || not (is_known (chain.id t) s.transactions)) _ (λ fresh.
          after (if skip.authority_check then ok tt else chain.verify_authority t s.world) _
            (λ v signed. after (check_expiration chain skip t s.world) _ (λ x in_time.
              let live = (check_expiration-live skip t s.world some_block).returned in_time in
              elim barred [
                | inl here ↦
                    (let known =
                        has_entry-is_known (chain.id t) (chain.expiration t) s.transactions here in
                      ground (arith, fresh, checked, known))
                | inr over ↦ omega (arith, over, live)
              ]))))

  -- A transaction that has been applied with the check for duplicates on is refused from then on by
  -- every application with that check on, whatever transactions and blocks lie between, once the
  -- chain has a block: in time it is in the index, and later its expiration has passed.
  pub apply_transaction-once :
      (skip skip' : Skip) (t : Trx) (s s₁ s₂ : State World)
      → apply_transaction chain skip t s ≡ ok s₁
      → skip.dupe_check ≡ false
      → Later chain s₁ s₂
      → skip'.dupe_check ≡ false
      → 0 < chain.head_block_num s₂.world
      → ¬ ((s₃ : State World) × (apply_transaction chain skip' t s₂ ≡ ok s₃))
  unfolding Barred
  apply_transaction-once skip skip' t s s₁ s₂ first checked run checked' some_block again =
      let barred =
        Later-Barred t s₁ s₂ run
          (inl ((apply_transaction-has_entry skip t s checked).returned first)) in
      (Barred-refused skip' t s₂ barred checked' some_block).returned (again.1)
