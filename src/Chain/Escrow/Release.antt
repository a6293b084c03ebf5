-- ===== src/Chain/Escrow/Release.antt =====
-- Who may release what an escrow holds, and to whom, as a relation, and where the money goes.
use wenode.Base.{
  ℕ, ◌≡◌, refl, sym, ◌∙◌, ap, true, false, ◌&&◌, ◌||◌, ◌⊎◌, ◌≤◌, inl, inr, some, List, Bool-cases,
  ltb, ok, arith,
}
use wenode.Base.Returns.{Returns, gives, after, after_assert, after_if}
use wenode.Base.Int.{ℤ, pos, parts, eqb_ℤ, ◌+ℤ◌, ◌-ℤ◌, ◌≤ℤ◌, int_laws}
use wenode.Protocol.Names.{Name, name_eq, name_eq→≡}
use wenode.Protocol.Asset.{Asset, SafeInt, UInt128, asset_ge, asset_lt, sub_asset}
use wenode.Protocol.Operations.Escrow.{EscrowRelease}
use wenode.Chain.Table.{find_by, total, total-erase_by, total-move_by}
use wenode.Chain.Ledger.{
  Account, Escrow, Ledger, head_block_time, get_account, adjust_balance, assert_ge,
}
use wenode.Chain.Ledger.Held.{amount_in, account_holds, supply, sub_asset-amount_in}
use wenode.Chain.Ledger.Adjust.{adjust_balance-Moved}
use wenode.Chain.Ledger.Credits.{
  Credited, Credited-trans, Credited-escrows, adjust_balance-Credited,
}
use wenode.Chain.Escrow.{
  get_escrow, is_escrow, is_approved, escrow_precedes, put_escrow, remove_escrow, may_release,
  escrow_release,
}
use wenode.Chain.Escrow.Books.{get_escrow-find_by}
use wenode.Chain.Escrow.Settle.{none_left}

-- A release by `who` to `receiver` at a time.
pub data MayRelease (now : ℕ) (who receiver : Name) (e : Escrow) : Type 0 where
  agent_decides : e.disputed ≡ true → who ≡ e.agent → MayRelease now who receiver e
  sender_pays : e.disputed ≡ false → who ≡ e.from → receiver ≡ e.to → MayRelease now who receiver e
  receiver_returns :
      e.disputed ≡ false → who ≡ e.to → receiver ≡ e.from → MayRelease now who receiver e
  after_expiration :
      e.disputed ≡ false
      → (who ≡ e.from) ⊎ (who ≡ e.to)
      → e.escrow_expiration ≤ now
      → MayRelease now who receiver e

pub record Permitted (o : EscrowRelease) (l : Ledger) : Type 0 where
  pub escrow : Escrow
  pub there : get_escrow o.from o.escrow_id l ≡ ok escrow
  pub agreed : is_approved escrow ≡ true
  pub to_party : (o.receiver ≡ escrow.from) ⊎ (o.receiver ≡ escrow.to)
  pub may : MayRelease (head_block_time l) o.who o.receiver escrow
  pub covers_tme : o.tme_amount.amount ≤ℤ escrow.tme_balance.amount
  pub covers_tsd : o.tsd_amount.amount ≤ℤ escrow.tsd_balance.amount

-- What an escrow holds of a currency, but for its fee.
unfoldable pub in_escrow : ℕ → Escrow → ℤ
in_escrow s e = amount_in s e.tme_balance +ℤ amount_in s e.tsd_balance

-- What a release is of, of a currency.
unfoldable pub amount_released : ℕ → EscrowRelease → ℤ
amount_released s o = amount_in s o.tme_amount +ℤ amount_in s o.tsd_amount

assert_ge-le : (a b : Asset) {u : Unit {0}} → assert_ge a b ≡ ok u → b.amount ≤ℤ a.amount
unfolding assert_ge asset_ge asset_lt
assert_ge-le a b done = ground (arith, done)

either_name : (a b c : Name) → name_eq a b || name_eq a c ≡ true → (a ≡ b) ⊎ (a ≡ c)
either_name a b c h = elim (Bool-cases (name_eq a b)) [
  | inl same ↦ inl (name_eq→≡ a b same)
  | inr other ↦ inr (name_eq→≡ a c (ground (arith, h, other)))
]

module _ (wide : UInt128) (safe : SafeInt) where
  may_release-MayRelease :
      (now : ℕ) (o : EscrowRelease) (e : Escrow)
      → may_release wide safe now o e ≡ true
      → MayRelease now o.who o.receiver e
  unfolding may_release
  may_release-MayRelease now o e h = elim (Bool-cases e.disputed) [
    | inl disputed ↦ agent_decides disputed (name_eq→≡ o.who e.agent (rw disputed at h))
    | inr quiet ↦
        (let h' = rw quiet at h in
          elim (Bool-cases (ltb now e.escrow_expiration)) [
            | inl early ↦ elim (Bool-cases (name_eq o.who e.from)) [
              | inl by_from ↦
                  sender_pays quiet (name_eq→≡ o.who e.from by_from)
                    (name_eq→≡ o.receiver e.to (ground (arith, h', early, by_from)))
              | inr not_from ↦
                  receiver_returns quiet
                    (name_eq→≡ o.who e.to (ground (arith, h', early, not_from)))
                    (name_eq→≡ o.receiver e.from (ground (arith, h', early, not_from)))
            ]
            | inr late ↦
                after_expiration quiet (either_name o.who e.from e.to (ground (arith, h', late)))
                  (ground (arith, late))
          ])
  ]

  released-total :
      (s : ℕ) (o : EscrowRelease) (e left : Escrow) (l : Ledger)
      → find_by (is_escrow o.from o.escrow_id) l.escrows ≡ some e
      → sub_asset safe e.tme_balance o.tme_amount ≡ ok left.tme_balance
      → sub_asset safe e.tsd_balance o.tsd_amount ≡ ok left.tsd_balance
      → (es : List Escrow)
      → total (in_escrow s) es +ℤ in_escrow s e ≡ total (in_escrow s) l.escrows +ℤ in_escrow s left
      → total (in_escrow s) es +ℤ amount_released s o ≡ total (in_escrow s) l.escrows
  unfolding in_escrow amount_released
  released-total s o e left l found less_tme less_tsd es sum =
      let one = sub_asset-amount_in safe s e.tme_balance o.tme_amount less_tme in
      let two = sub_asset-amount_in safe s e.tsd_balance o.tsd_amount less_tsd in
      omega (int_laws, parts one, parts two, parts sum)

  nothing_left :
      (s : ℕ) (e : Escrow)
      → eqb_ℤ e.tme_balance.amount (pos 0) && eqb_ℤ e.tsd_balance.amount (pos 0) ≡ true
      → in_escrow s e ≡ pos 0
  unfolding in_escrow
  nothing_left s e h =
      let none_tme = none_left wide safe s e.tme_balance (ground (arith, h)) in
      let none_tsd = none_left wide safe s e.tsd_balance (ground (arith, h)) in
      omega (int_laws, parts none_tme, parts none_tsd)

  -- The two payments, and what is then left of the escrow.
  record Settled (s : ℕ) (o : EscrowRelease) (l l' : Ledger) : Type 0 where
    permitted : Permitted o l
    credited : Credited s o.receiver (amount_released s o) l l'
    taken : total (in_escrow s) l'.escrows +ℤ amount_released s o ≡ total (in_escrow s) l.escrows

  escrow_release-Settled :
      (s : ℕ) (o : EscrowRelease) (l : Ledger)
      → Returns (Settled s o l) (escrow_release wide safe o l)
  unfolding escrow_release amount_released put_escrow remove_escrow
  escrow_release-Settled s o l = after (get_account o.from l) _ (λ a there.
      after (get_account o.receiver l) _ (λ b there_too.
        after (get_escrow o.from o.escrow_id l) _ (λ e got.
          after (assert_ge e.tme_balance o.tme_amount) _ (λ u h₁.
            after (assert_ge e.tsd_balance o.tsd_amount) _ (λ v h₂.
              after_assert (name_eq e.to o.to) _ (λ h₃.
                after_assert (name_eq e.agent o.agent) _ (λ h₄.
                  after_assert (name_eq o.receiver e.from || name_eq o.receiver e.to) _ (λ h₅.
                    after_assert (is_approved e) _ (λ approved.
                      after_assert (may_release wide safe (head_block_time l) o e) _ (λ may.
                        after (adjust_balance wide safe o.receiver o.tme_amount l) _ (λ l₁ paid_tme.
                          after (adjust_balance wide safe o.receiver o.tsd_amount l₁) _
                            (λ l₂ paid_tsd.
                              after (sub_asset safe e.tme_balance o.tme_amount) _ (λ tme less_tme.
                                after (sub_asset safe e.tsd_balance o.tsd_amount) _ (λ tsd less_tsd.
                                  let permitted : Permitted o l = record {
                                    escrow = e;
                                    there = got;
                                    agreed = approved;
                                    to_party = either_name o.receiver e.from e.to h₅;
                                    may = may_release-MayRelease (head_block_time l) o e may;
                                    covers_tme = assert_ge-le e.tme_balance o.tme_amount h₁;
                                    covers_tsd = assert_ge-le e.tsd_balance o.tsd_amount h₂;
                                  } in
                                  let first =
                                    (adjust_balance-Moved wide safe s o.receiver o.tme_amount
                                        l).returned
                                      paid_tme in
                                  let second =
                                    (adjust_balance-Moved wide safe s o.receiver o.tsd_amount
                                        l₁).returned
                                      paid_tsd in
                                  let same : l₂.escrows ≡ l.escrows =
                                    second.same_escrows ∙ first.same_escrows in
                                  let both =
                                    Credited-trans s o.receiver _ _ l l₁ l₂
                                      ((adjust_balance-Credited wide safe s o.receiver o.tme_amount
                                          l).returned
                                        paid_tme)
                                      ((adjust_balance-Credited wide safe s o.receiver o.tsd_amount
                                          l₁).returned
                                        paid_tsd) in
                                  let left : Escrow = record e {
                                    tme_balance = tme;
                                    tsd_balance = tsd;
                                  } in
                                  let test = is_escrow o.from o.escrow_id in
                                  let found = get_escrow-find_by s o.from o.escrow_id l got in
                                  let found₂ : find_by test l₂.escrows ≡ some e =
                                    ap (find_by test) same ∙ found in
                                  let books = ap (total (in_escrow s)) same in
                                  after_if (eqb_ℤ tme.amount (pos 0) && eqb_ℤ tsd.amount (pos 0)) _
                                    _
                                    (λ empty.
                                      let zero = nothing_left s left empty in
                                      let sum =
                                        total-erase_by test (in_escrow s) e l₂.escrows found₂ in
                                      gives _ (record {
                                        permitted = permitted;
                                        credited = Credited-escrows s o.receiver _ l l₂ _ both;
                                        taken =
                                            released-total s o e left l found less_tme less_tsd _ (
                                              omega (int_laws, parts zero, parts sum, parts books));
                                      }))
                                    (λ more.
                                      let sum =
                                        total-move_by escrow_precedes test (in_escrow s) e left
                                          l₂.escrows found₂ in
                                      gives _ (record {
                                        permitted = permitted;
                                        credited = Credited-escrows s o.receiver _ l l₂ _ both;
                                        taken =
                                            released-total s o e left l found less_tme less_tsd _
                                              (omega (int_laws, parts sum, parts books));
                                      }))))))))))))))))

  -- A release that goes through is of an escrow that both parties have approved, to one of its
  -- parties, of no more than it holds, and by one whom the rules allow: the agent where there is a
  -- dispute; without one, one party to the other, or after the expiration either party. Of each
  -- currency, the account of the receiver gains what is released, with any interest, which is in
  -- the supply, every other account is as it was, and the escrows hold as much less.
  pub escrow_release-Permitted :
      (s : ℕ) (o : EscrowRelease) (l : Ledger) (name : Name) (a : Account) {l' : Ledger}
      → escrow_release wide safe o l ≡ ok l'
      → get_account name l ≡ ok a
      → Permitted o l
        × ((a' : Account) × (get_account name l' ≡ ok a')
            × (((name ≡ o.receiver)
                  × (account_holds s a' -ℤ supply s l'.properties
                      ≡ account_holds s a -ℤ supply s l.properties +ℤ amount_released s o))
                ⊎ ((name_eq name o.receiver ≡ false) × (a' ≡ a))))
        × (total (in_escrow s) l'.escrows +ℤ amount_released s o ≡ total (in_escrow s) l.escrows)
  escrow_release-Permitted s o l name a {l'} done there =
      let settled = (escrow_release-Settled s o l).returned done in
      (
        settled.permitted,
        elim (Bool-cases (name_eq name o.receiver)) [
          | inl it_is ↦
              (let same = name_eq→≡ name o.receiver it_is in
                let (a', there', change) =
                  settled.credited.gains a (ap (λ n. get_account n l) (sym same) ∙ there) in
                (a', ap (λ n. get_account n l') same ∙ there', inl (same, change)))
          | inr another ↦ (a, settled.credited.others name another ∙ there, inr (another, refl))
        ],
        settled.taken,
      )
