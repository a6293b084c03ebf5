-- ===== src/Chain/Ledger.antt =====
-- The parts of the chain's state that hold money (account_object.hpp, node_objects.hpp,
-- global_property_object.hpp of libraries/chain/include/node/chain), and the functions of
-- libraries/chain/database.cpp that every balance goes through. An object has the fields that the
-- modelled code reads or writes; an index is a list, in the order of the key it is walked by.
pub mod Held
pub mod Adjust
pub mod Credits
use wenode.Base.{
  ℕ, suc, ◌+◌, ◌-◌, ◌*◌, Bool, true, false, ◌&&◌, not, Option, none, some, List, [], ◌∷◌, ltb, ◌==◌,
  if◌then◌else◌, Result, ok, err, fc_assert, out_of_range, assert, or_throw, ◌>>=◌, ◌>>◌,
}
use wenode.Base.Int.{ℤ, pos, ltb_ℤ, ◌-ℤ◌, eqb_ℤ}
use wenode.Protocol.Names.{Name, name_eq}
use wenode.Protocol.Asset.{
  Asset, Price, SafeInt, UInt128, add_asset, negate_asset, asset_ge, asset_times_price,
}
use wenode.Protocol.Operations.{symbol_coin, symbol_usd, percent_100}
use wenode.Chain.Table.{find_by, replace_by}

-- A TSD balance, and the time that it has been held since the last payment of interest.
pub record Deposit : Type 0 where
  pub balance : Asset
  pub seconds : ℕ
  pub seconds_last_update : ℕ
  pub last_interest_payment : ℕ

pub record Account : Type 0 where
  pub name : Name
  pub active_challenged : Bool
  pub last_active_proved : ℕ
  pub balance : Asset
  pub tme_savings_balance : Asset
  pub tsd : Deposit
  pub tsd_savings : Deposit
  pub savings_withdraw_requests : ℕ
  pub tme_reward_balance : Asset
  pub tsd_reward_balance : Asset

-- dynamic_global_property_object
pub record Properties : Type 0 where
  pub head_block_number : ℕ
  pub time : ℕ
  pub current_supply : Asset
  pub virtual_supply : Asset
  pub current_tsd_supply : Asset
  pub total_tme_fund_for_score : Asset
  pub tsd_interest_rate : ℕ

pub record Escrow : Type 0 where
  pub id : ℕ
  pub escrow_id : ℕ
  pub from : Name
  pub to : Name
  pub agent : Name
  pub ratification_deadline : ℕ
  pub escrow_expiration : ℕ
  pub tsd_balance : Asset
  pub tme_balance : Asset
  pub pending_fee : Asset
  pub to_approved : Bool
  pub agent_approved : Bool
  pub disputed : Bool

pub record SavingsWithdraw : Type 0 where
  pub from : Name
  pub to : Name
  pub memo : List ℕ
  pub request_id : ℕ
  pub amount : Asset
  pub complete : ℕ

pub record LimitOrder : Type 0 where
  pub id : ℕ
  pub created : ℕ
  pub expiration : ℕ
  pub seller : Name
  pub order_id : ℕ
  pub for_sale : ℤ
  pub sell_price : Price

pub record ConvertRequest : Type 0 where
  pub id : ℕ
  pub owner : Name
  pub request_id : ℕ
  pub amount : Asset
  pub conversion_date : ℕ

pub record Ledger : Type 0 where
  pub properties : Properties
  pub current_median_history : Price
  pub accounts : List Account
  pub escrows : List Escrow
  pub savings_withdraws : List SavingsWithdraw
  pub limit_orders : List LimitOrder
  pub convert_requests : List ConvertRequest
  pub next_convert_request_id : ℕ
  pub next_escrow_object_id : ℕ
  pub next_order_id : ℕ

abbrev pub head_block_time : Ledger → ℕ
head_block_time l = l.properties.time

abbrev pub is_named : Name → Account → Bool
is_named name a = name_eq name a.name

unfoldable pub get_account : Name → Ledger → Result Account
get_account name l = or_throw (find_by (is_named name) l.accounts) out_of_range

-- `modify` of the account found under a name, to `a`.
abbrev pub put_account : Name → Account → Ledger → Ledger
put_account name a l = record l { accounts = replace_by (is_named name) a l.accounts }

abbrev pub seconds_per_year : ℕ
seconds_per_year = 31536000

abbrev pub tsd_interest_compound_interval_sec : ℕ
tsd_interest_compound_interval_sec = 2592000

abbrev pub seven_days_of_blocks : ℕ
seven_days_of_blocks = 604800

module _ (wide : UInt128) (safe : SafeInt) where
  -- Interest on a deposit, credited to it and to the supplies.
  unfoldable pub pay_interest : Price → Properties → ℕ → Deposit → Result (Deposit × Properties)
  pay_interest median p seconds d = do
    let interest =
        wide.divide (wide.times (wide.divide seconds seconds_per_year) p.tsd_interest_rate)
          percent_100
    let paid : Asset = record { amount = wide.to_share interest; symbol = symbol_usd }
    balance ← add_asset safe d.balance paid
    supply ← add_asset safe p.current_tsd_supply paid
    value ← asset_times_price wide paid median
    virtual ← add_asset safe p.virtual_supply value
    ok (
      record {
        balance = balance;
        seconds = 0;
        seconds_last_update = p.time;
        last_interest_payment = p.time;
      },
      record p { current_tsd_supply = supply; virtual_supply = virtual },
    )

  -- The part of `adjust_balance` and `adjust_TMEsavingsBalance` in front of the change of a TSD
  -- balance.
  unfoldable pub accrue : Price → Properties → Deposit → Result (Deposit × Properties)
  unfolding pay_interest
  accrue median p d =
      let elapsed = pos p.time -ℤ pos d.seconds_last_update in
      let seconds =
        wide.plus d.seconds (wide.times (wide.of_int64 d.balance.amount) (wide.of_int64 elapsed)) in
      let since_payment = pos p.time -ℤ pos d.last_interest_payment in
      if d.seconds_last_update == p.time
      then ok (d, p)
      else (if ltb 0 seconds && ltb_ℤ (pos tsd_interest_compound_interval_sec) since_payment
          then pay_interest median p seconds d
          else ok (record d { seconds = seconds; seconds_last_update = p.time }, p))

  unfoldable pub adjust_balance : Name → Asset → Ledger → Result Ledger
  unfolding accrue
  adjust_balance name delta l = do
    a ← get_account name l
    if delta.symbol == symbol_coin
        then (do
          balance ← add_asset safe a.balance delta
          ok (put_account name (record a { balance = balance }) l))
        else (if delta.symbol == symbol_usd
            then (do
              r ← accrue l.current_median_history l.properties a.tsd
              balance ← add_asset safe r.0.balance delta
              ok (
                  put_account name (record a { tsd = record (r.0) { balance = balance } })
                    (record l { properties = r.1 })))
            else err fc_assert)

  unfoldable pub adjust_savings_balance : Name → Asset → Ledger → Result Ledger
  unfolding accrue
  adjust_savings_balance name delta l = do
    a ← get_account name l
    if delta.symbol == symbol_coin
        then (do
          balance ← add_asset safe a.tme_savings_balance delta
          ok (put_account name (record a { tme_savings_balance = balance }) l))
        else (if delta.symbol == symbol_usd
            then (do
              r ← accrue l.current_median_history l.properties a.tsd_savings
              balance ← add_asset safe r.0.balance delta
              ok (
                  put_account name (record a { tsd_savings = record (r.0) { balance = balance } })
                    (record l { properties = r.1 })))
            else err fc_assert)

  unfoldable pub adjust_reward_balance : Name → Asset → Ledger → Result Ledger
  adjust_reward_balance name delta l = do
    a ← get_account name l
    if delta.symbol == symbol_coin
        then (do
          balance ← add_asset safe a.tme_reward_balance delta
          ok (put_account name (record a { tme_reward_balance = balance }) l))
        else (if delta.symbol == symbol_usd
            then (do
              balance ← add_asset safe a.tsd_reward_balance delta
              ok (put_account name (record a { tsd_reward_balance = balance }) l))
            else err fc_assert)

  -- Nine tenths of newly made TME go to the fund for SCORE, but in the first week.
  unfoldable pub adjust_supply : Asset → Bool → Ledger → Result Ledger
  adjust_supply delta adjust_fund l = do
    let p = l.properties
    let adjusting = adjust_fund && not (ltb p.head_block_number seven_days_of_blocks)
    if delta.symbol == symbol_coin
        then (do
          n ←
              if adjusting && ltb_ℤ (pos 0) delta.amount
              then safe.mul delta.amount (pos 9)
              else ok (pos 0)
          let new_score : Asset = record { amount = n; symbol = symbol_coin }
          created ← add_asset safe delta new_score
          current ← add_asset safe p.current_supply created
          virtual ← add_asset safe p.virtual_supply created
          fund ← add_asset safe p.total_tme_fund_for_score new_score
          ok (record l {
            properties = record p {
              current_supply = current;
              virtual_supply = virtual;
              total_tme_fund_for_score = fund;
            };
          }))
        else (if delta.symbol == symbol_usd
            then (do
              current ← add_asset safe p.current_tsd_supply delta
              value ← asset_times_price wide current l.current_median_history
              virtual ← add_asset safe value p.current_supply
              ok (record l {
                properties = record p { current_tsd_supply = current; virtual_supply = virtual };
              }))
            else err fc_assert)

  unfoldable pub pay_fee : Name → Asset → Ledger → Result Ledger
  pay_fee name fee l = do
    assert (not (ltb_ℤ fee.amount (pos 0)))
    if eqb_ℤ fee.amount (pos 0) then ok l else (do
      a ← get_account name l
      r ← asset_ge a.balance fee
      assert r
      minus ← negate_asset safe fee
      l₁ ← adjust_balance name minus l
      adjust_supply minus false l₁)

unfoldable pub get_balance : Account → ℕ → Result Asset
get_balance a symbol =
    if symbol == symbol_coin
    then ok a.balance
    else (if symbol == symbol_usd then ok a.tsd.balance else err fc_assert)

unfoldable pub get_savings_balance : Account → ℕ → Result Asset
get_savings_balance a symbol =
    if symbol == symbol_coin
    then ok a.tme_savings_balance
    else (if symbol == symbol_usd then ok a.tsd_savings.balance else err fc_assert)

-- FC_ASSERT( a >= b )
unfoldable pub assert_ge : Asset → Asset → Result (Unit {0})
assert_ge a b = do r ← asset_ge a b; assert r

-- `amount_for_sale`
unfoldable pub amount_for_sale : LimitOrder → Asset
amount_for_sale o = record { amount = o.for_sale; symbol = o.sell_price.base.symbol }
