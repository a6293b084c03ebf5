-- ===== src/Chain/Savings.antt =====
-- The evaluators of transfers and of the operations on savings
-- (libraries/chain/node_evaluator.cpp), and `process_savings_withdraws`
-- (libraries/chain/database.cpp) but for its virtual operations. The index of the withdraws is in
-- the order of `by_complete_from_rid`. Memos are kept, as without IS_LOW_MEM.
pub mod Books
use wenode.Base.{
  ℕ, ◌+◌, ◌%◌, ◌^◌, Bool, true, false, ◌&&◌, ◌||◌, not, List, [], ◌∷◌, ltb, leb, ◌==◌,
  if◌then◌else◌, is_some, Result, ok, err, logic_error, out_of_range, assert, assert_or, or_throw,
  ◌>>=◌, ◌>>◌,
}
use wenode.Protocol.Names.{Name, name_eq}
use wenode.Protocol.Authority.{name_lt}
use wenode.Protocol.Asset.{SafeInt, UInt128, negate_asset, asset_ge}
use wenode.Protocol.Operations.Transfers.{
  Transfer, TransferToSavings, TransferFromSavings, CancelTransferFromSavings,
}
use wenode.Chain.Table.{find_by, erase_by, insert_by}
use wenode.Chain.Ledger.{
  Account, SavingsWithdraw, Ledger, head_block_time, get_account, put_account, adjust_balance,
  adjust_savings_balance, get_balance, get_savings_balance, assert_ge,
}

abbrev pub savings_withdraw_time : ℕ
savings_withdraw_time = 259200

abbrev pub savings_withdraw_request_limit : ℕ
savings_withdraw_request_limit = 100

unfoldable pub withdraw_precedes : SavingsWithdraw → SavingsWithdraw → Bool
unfolding name_lt
withdraw_precedes a b =
    ltb a.complete b.complete
    || (a.complete == b.complete
        && (name_lt a.from b.from || (name_eq a.from b.from && ltb a.request_id b.request_id)))

unfoldable pub is_withdraw : Name → ℕ → SavingsWithdraw → Bool
is_withdraw from id w = name_eq from w.from && id == w.request_id

unfoldable pub get_savings_withdraw : Name → ℕ → Ledger → Result SavingsWithdraw
get_savings_withdraw from id l =
    or_throw (find_by (is_withdraw from id) l.savings_withdraws) out_of_range

-- `create`: the key (from, request_id) is unique.
unfoldable pub create_withdraw : SavingsWithdraw → Ledger → Result Ledger
create_withdraw w l = do
  assert_or (not (is_some (find_by (is_withdraw w.from w.request_id) l.savings_withdraws)))
      logic_error
  ok (record l { savings_withdraws = insert_by withdraw_precedes w l.savings_withdraws })

unfoldable pub remove_withdraw : Name → ℕ → Ledger → Ledger
remove_withdraw from id l = record l {
  savings_withdraws = erase_by (is_withdraw from id) l.savings_withdraws;
}

-- `savings_withdraw_requests`, a byte, goes up by one, or by 255 for down by one.
unfoldable pub count_requests : ℕ → Name → Ledger → Result Ledger
count_requests n name l = do
  a ← get_account name l
  ok (
      put_account name
        (record a { savings_withdraw_requests = (a.savings_withdraw_requests + n) % 256 }) l)

-- The challenge of an account is answered by its transfer.
unfoldable pub prove_active : Name → Account → Ledger → Ledger
prove_active name a l =
    if a.active_challenged
    then put_account name
        (record a { active_challenged = false; last_active_proved = head_block_time l }) l
    else l

module _ (wide : UInt128) (safe : SafeInt) where
  unfoldable pub transfer : Transfer → Ledger → Result Ledger
  transfer o l = do
    from ← get_account o.from l
    to ← get_account o.to l
    let l₁ = prove_active o.from from l
    balance ← get_balance from o.amount.symbol
    assert_ge balance o.amount
    minus ← negate_asset safe o.amount
    l₂ ← adjust_balance wide safe o.from minus l₁
    adjust_balance wide safe o.to o.amount l₂

  unfoldable pub transfer_to_savings : TransferToSavings → Ledger → Result Ledger
  transfer_to_savings o l = do
    from ← get_account o.from l
    to ← get_account o.to l
    balance ← get_balance from o.amount.symbol
    assert_ge balance o.amount
    minus ← negate_asset safe o.amount
    l₁ ← adjust_balance wide safe o.from minus l
    adjust_savings_balance wide safe o.to o.amount l₁

  unfoldable pub transfer_from_savings : TransferFromSavings → Ledger → Result Ledger
  transfer_from_savings o l = do
    from ← get_account o.from l
    to ← get_account o.to l
    assert (ltb from.savings_withdraw_requests savings_withdraw_request_limit)
    balance ← get_savings_balance from o.amount.symbol
    assert_ge balance o.amount
    minus ← negate_asset safe o.amount
    l₁ ← adjust_savings_balance wide safe o.from minus l
    l₂ ←
        create_withdraw
          (record {
            from = o.from;
            to = o.to;
            memo = o.memo;
            request_id = o.request_id;
            amount = o.amount;
            complete = (head_block_time l + savings_withdraw_time) % 2 ^ 32;
          })
          l₁
    count_requests 1 o.from l₂

  unfoldable pub cancel_transfer_from_savings : CancelTransferFromSavings → Ledger → Result Ledger
  cancel_transfer_from_savings o l = do
    w ← get_savings_withdraw o.from o.request_id l
    l₁ ← adjust_savings_balance wide safe w.from w.amount l
    count_requests 255 o.from (remove_withdraw o.from o.request_id l₁)

  -- The loop over the index: `withdraws` is what is left of it.
  unfoldable pub process_from : List SavingsWithdraw → Ledger → Result Ledger
  process_from [] l = ok l
  process_from (w ∷ withdraws) l = if ltb (head_block_time l) w.complete then ok l else (do
    l₁ ← adjust_balance wide safe w.to w.amount l
    l₂ ← count_requests 255 w.from l₁
    process_from withdraws (remove_withdraw w.from w.request_id l₂))

  unfoldable pub process_savings_withdraws : Ledger → Result Ledger
  process_savings_withdraws l = process_from l.savings_withdraws l
