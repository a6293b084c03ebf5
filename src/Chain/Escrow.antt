-- ===== src/Chain/Escrow.antt =====
-- The evaluators of the escrow operations (libraries/chain/node_evaluator.cpp), and
-- `expire_escrow_ratification` (libraries/chain/database.cpp). The index of the escrows is in the
-- order of `by_ratification_deadline`.
pub mod Books
pub mod Settle
pub mod Fees
pub mod Release
use wenode.Base.{
  ℕ, suc, ◌≡◌, Bool, true, false, ◌&&◌, ◌||◌, not, Option, none, some, List, [], ◌∷◌, ltb, leb,
  ◌==◌, if◌then◌else◌, is_some, Result, ok, err, logic_error, out_of_range, assert, assert_or,
  or_throw, ◌>>=◌, ◌>>◌,
}
use wenode.Base.Int.{ℤ, pos, eqb_ℤ}
use wenode.Protocol.Names.{Name, name_eq}
use wenode.Protocol.Asset.{Asset, SafeInt, UInt128, add_asset, sub_asset, negate_asset, asset_ge}
use wenode.Protocol.Operations.{symbol_coin}
use wenode.Protocol.Operations.Escrow.{EscrowTransfer, EscrowApprove, EscrowDispute, EscrowRelease}
use wenode.Chain.Table.{find_by, erase_by, insert_by, move_by}
use wenode.Chain.Ledger.{
  Account, Escrow, Ledger, head_block_time, get_account, adjust_balance, assert_ge,
}

unfoldable pub is_approved : Escrow → Bool
is_approved e = e.to_approved && e.agent_approved

unfoldable pub is_escrow : Name → ℕ → Escrow → Bool
is_escrow from id e = name_eq from e.from && id == e.escrow_id

unfoldable pub get_escrow : Name → ℕ → Ledger → Result Escrow
get_escrow from id l = or_throw (find_by (is_escrow from id) l.escrows) out_of_range

unfoldable pub escrow_precedes : Escrow → Escrow → Bool
unfolding is_approved
escrow_precedes a b =
    if is_approved a
    then is_approved b
      && (ltb a.ratification_deadline b.ratification_deadline
          || (a.ratification_deadline == b.ratification_deadline && ltb a.id b.id))
    else is_approved b
      || ltb a.ratification_deadline b.ratification_deadline
      || (a.ratification_deadline == b.ratification_deadline && ltb a.id b.id)

-- The fee of an escrow is paid out when both have approved it.
unfoldable pub fee_paid : Escrow → Bool
unfolding is_approved
fee_paid e = not (is_approved e) || eqb_ℤ e.pending_fee.amount (pos 0)

-- `create`: the key (from, escrow_id) is unique.
unfoldable pub create_escrow : Escrow → Ledger → Result Ledger
create_escrow e l = do
  assert_or (not (is_some (find_by (is_escrow e.from e.escrow_id) l.escrows))) logic_error
  ok (record l {
    escrows = insert_by escrow_precedes (record e { id = l.next_escrow_object_id }) l.escrows;
    next_escrow_object_id = suc l.next_escrow_object_id;
  })

-- `modify`, `remove` of the escrow with a key.
unfoldable pub put_escrow : Name → ℕ → Escrow → Ledger → Ledger
put_escrow from id e l = record l {
  escrows = move_by escrow_precedes (is_escrow from id) e l.escrows;
}

unfoldable pub remove_escrow : Name → ℕ → Ledger → Ledger
remove_escrow from id l = record l { escrows = erase_by (is_escrow from id) l.escrows }

module _ (wide : UInt128) (safe : SafeInt) where
  -- What the escrow takes from the balances of its sender, in TME and in TSD.
  unfoldable pub escrow_spent : EscrowTransfer → Result (Asset × Asset)
  escrow_spent o =
      if o.fee.symbol == symbol_coin
      then (do tme ← add_asset safe o.tme_amount o.fee; ok (tme, o.tsd_amount))
      else (do tsd ← add_asset safe o.tsd_amount o.fee; ok (o.tme_amount, tsd))

  unfoldable pub escrow_transfer : EscrowTransfer → Ledger → Result Ledger
  escrow_transfer o l = do
    from ← get_account o.from l
    to ← get_account o.to l
    agent ← get_account o.agent l
    assert (ltb (head_block_time l) o.ratification_deadline)
    assert (ltb (head_block_time l) o.escrow_expiration)
    spent ← escrow_spent o
    assert_ge from.balance (spent.0)
    assert_ge from.tsd.balance (spent.1)
    tme ← negate_asset safe (spent.0)
    l₁ ← adjust_balance wide safe o.from tme l
    tsd ← negate_asset safe (spent.1)
    l₂ ← adjust_balance wide safe o.from tsd l₁
    create_escrow
        (record {
          id = 0;
          escrow_id = o.escrow_id;
          from = o.from;
          to = o.to;
          agent = o.agent;
          ratification_deadline = o.ratification_deadline;
          escrow_expiration = o.escrow_expiration;
          tsd_balance = o.tsd_amount;
          tme_balance = o.tme_amount;
          pending_fee = o.fee;
          to_approved = false;
          agent_approved = false;
          disputed = false;
        })
        l₂

  -- All that the escrow holds goes back to its sender.
  unfoldable pub refund_escrow : Name → Escrow → Ledger → Result Ledger
  refund_escrow name e l = do
    l₁ ← adjust_balance wide safe name e.tme_balance l
    l₂ ← adjust_balance wide safe name e.tsd_balance l₁
    adjust_balance wide safe name e.pending_fee l₂

  -- The approval of `who`, where it is the receiver, the agent or both.
  unfoldable pub note_approval : EscrowApprove → Escrow → Result Escrow
  note_approval o e = do
    let by_to = name_eq o.who o.to
    let by_agent = name_eq o.who o.agent
    assert (not by_to || not e.to_approved)
    assert (not by_agent || not e.agent_approved)
    ok (record e {
      to_approved = e.to_approved || (by_to && o.approve);
      agent_approved = e.agent_approved || (by_agent && o.approve);
    })

  unfoldable pub escrow_approve : EscrowApprove → Ledger → Result Ledger
  escrow_approve o l = do
    e ← get_escrow o.from o.escrow_id l
    assert (name_eq e.to o.to)
    assert (name_eq e.agent o.agent)
    assert (leb (head_block_time l) e.ratification_deadline)
    noted ← note_approval o e
    if not o.approve
        then (do l₁ ← refund_escrow o.from e l; ok (remove_escrow o.from o.escrow_id l₁))
        else (if is_approved noted
            then (do
              l₁ ← adjust_balance wide safe o.agent e.pending_fee l
              let paid : Asset = record (e.pending_fee) { amount = pos 0 }
              ok (put_escrow o.from o.escrow_id (record noted { pending_fee = paid }) l₁))
            else ok (put_escrow o.from o.escrow_id noted l))

  unfoldable pub escrow_dispute : EscrowDispute → Ledger → Result Ledger
  escrow_dispute o l = do
    from ← get_account o.from l
    e ← get_escrow o.from o.escrow_id l
    assert (ltb (head_block_time l) e.escrow_expiration)
    assert (is_approved e)
    assert (not e.disputed)
    assert (name_eq e.to o.to)
    assert (name_eq e.agent o.agent)
    ok (put_escrow o.from o.escrow_id (record e { disputed = true }) l)

  -- Who may release the funds, and to whom.
  unfoldable pub may_release : ℕ → EscrowRelease → Escrow → Bool
  may_release now o e =
      if e.disputed
      then name_eq o.who e.agent
      else (name_eq o.who e.from || name_eq o.who e.to)
        && (not (ltb now e.escrow_expiration)
            || (if name_eq o.who e.from
                then name_eq o.receiver e.to
                else name_eq o.receiver e.from))

  unfoldable pub escrow_release : EscrowRelease → Ledger → Result Ledger
  escrow_release o l = do
    from ← get_account o.from l
    receiver ← get_account o.receiver l
    e ← get_escrow o.from o.escrow_id l
    assert_ge e.tme_balance o.tme_amount
    assert_ge e.tsd_balance o.tsd_amount
    assert (name_eq e.to o.to)
    assert (name_eq e.agent o.agent)
    assert (name_eq o.receiver e.from || name_eq o.receiver e.to)
    assert (is_approved e)
    assert (may_release (head_block_time l) o e)
    l₁ ← adjust_balance wide safe o.receiver o.tme_amount l
    l₂ ← adjust_balance wide safe o.receiver o.tsd_amount l₁
    tme ← sub_asset safe e.tme_balance o.tme_amount
    tsd ← sub_asset safe e.tsd_balance o.tsd_amount
    let left : Escrow = record e { tme_balance = tme; tsd_balance = tsd }
    if eqb_ℤ tme.amount (pos 0) && eqb_ℤ tsd.amount (pos 0)
        then ok (remove_escrow o.from o.escrow_id l₂)
        else ok (put_escrow o.from o.escrow_id left l₂)

  -- The loop over the index, from its first escrow on: `escrows` is what is left of it.
  unfoldable pub expire_from : List Escrow → Ledger → Result Ledger
  expire_from [] l = ok l
  expire_from (e ∷ escrows) l =
      if not (is_approved e) && leb e.ratification_deadline (head_block_time l)
      then (do
        l₁ ← refund_escrow e.from e l
        expire_from escrows (remove_escrow e.from e.escrow_id l₁))
      else ok l

  unfoldable pub expire_escrow_ratification : Ledger → Result Ledger
  expire_escrow_ratification l = expire_from l.escrows l
