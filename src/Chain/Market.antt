-- ===== src/Chain/Market.antt =====
-- The market: `apply_order`, `match`, `fill_order`, `cancel_order` and `clear_expired_orders` of
-- libraries/chain/database.cpp, and the evaluators of the limit orders of
-- libraries/chain/node_evaluator.cpp. The index of the orders is in the order of `by_price`; a
-- reference to an order is its id. Left out: virtual operations, the rewards of liquidity, which
-- change none of the modelled objects, and the `assert`s of C, which a release does not test.
pub mod Books
pub mod Expiry
mod Tests
use wenode.Base.{
  ℕ, zero, suc, ◌+◌, ◌%◌, Bool, true, false, ◌&&◌, ◌||◌, not, Option, none, some, List, [], ◌∷◌,
  ltb, ◌==◌, if◌then◌else◌, is_some, length, Result, ok, err, logic_error, out_of_range, undefined,
  assert, assert_or, or_throw, ◌>>=◌, ◌>>◌,
}
use wenode.Base.Int.{ℤ, pos, eqb_ℤ}
use wenode.Protocol.Names.{Name, name_eq}
use wenode.Protocol.Asset.{
  Asset, Price, SafeInt, UInt128, negate_asset, asset_ge, asset_le, asset_eq, asset_times_price,
  make_price, inverse, price_gt,
}
use wenode.Protocol.Operations.Market.{LimitOrderCreate, LimitOrderCreate2, LimitOrderCancel}
use wenode.Chain.Table.{find_by, erase_by, insert_by, replace_by}
use wenode.Chain.Ledger.{
  Account, LimitOrder, Ledger, head_block_time, get_account, adjust_balance, get_balance, assert_ge,
  amount_for_sale,
}

abbrev pub max_score_supply : ℤ
max_score_supply = pos 1000000000000000000

-- `price::max`, of the two currencies of a price.
unfoldable pub max_of : Price → Result Price
max_of p =
    make_price (record { amount = max_score_supply; symbol = p.base.symbol })
      (record { amount = pos 1; symbol = p.quote.symbol })

unfoldable pub is_order : ℕ → LimitOrder → Bool
is_order id o = id == o.id

unfoldable pub order_at : ℕ → Ledger → Result LimitOrder
order_at id l = or_throw (find_by (is_order id) l.limit_orders) undefined

unfoldable pub put_order : ℕ → LimitOrder → Ledger → Ledger
put_order id o l = record l { limit_orders = replace_by (is_order id) o l.limit_orders }

unfoldable pub remove_order : ℕ → Ledger → Ledger
remove_order id l = record l { limit_orders = erase_by (is_order id) l.limit_orders }

unfoldable pub is_order_of : Name → ℕ → LimitOrder → Bool
is_order_of seller id o = name_eq seller o.seller && id == o.order_id

-- Before hardfork 0.6, the upper half of an order's number is not read.
unfoldable pub get_limit_order : Bool → Name → ℕ → Ledger → Result LimitOrder
get_limit_order has_hardfork_0_6 seller id l =
    or_throw
      (find_by (is_order_of seller (if has_hardfork_0_6 then id else id % 65536)) l.limit_orders)
      out_of_range

-- The orders from the first one that fails a test on, and those in front of it.
unfoldable pub drop_while : (LimitOrder → Bool) → List LimitOrder → List LimitOrder
drop_while test [] = []
drop_while test (o ∷ os) = let rest = drop_while test os in if test o then rest else o ∷ os

unfoldable pub take_while : (LimitOrder → Bool) → List LimitOrder → List LimitOrder
take_while test [] = []
take_while test (o ∷ os) = let rest = take_while test os in if test o then o ∷ rest else []

-- The order of the index `by_expiration`.
unfoldable pub expires_first : LimitOrder → LimitOrder → Bool
expires_first p o = ltb p.expiration o.expiration || (p.expiration == o.expiration && ltb p.id o.id)

unfoldable pub soonest : List LimitOrder → Option LimitOrder
unfolding expires_first
soonest [] = none
soonest (o ∷ os) = elim (soonest os) [
  | none ↦ some o
  | some p ↦ if expires_first p o then some p else some o
]

module _ (wide : UInt128) (safe : SafeInt) where
  unfoldable pub order_precedes : LimitOrder → LimitOrder → Bool
  order_precedes a b =
      price_gt wide a.sell_price b.sell_price
      || (not (price_gt wide b.sell_price a.sell_price) && ltb a.id b.id)

  -- `create`: the key (seller, orderid) is unique.
  unfoldable pub create_order : LimitOrder → Ledger → Result Ledger
  create_order o l = do
    assert_or (not (is_some (find_by (is_order_of o.seller o.order_id) l.limit_orders))) logic_error
    ok (record l {
      limit_orders = insert_by order_precedes (record o { id = l.next_order_id }) l.limit_orders;
      next_order_id = suc l.next_order_id;
    })

  unfoldable pub cancel_order : ℕ → Ledger → Result Ledger
  cancel_order id l = do
    o ← order_at id l
    l₁ ← adjust_balance wide safe o.seller (amount_for_sale o) l
    ok (remove_order id l₁)

  -- An order pays and receives; the result says whether it is filled.
  unfoldable pub fill_order : ℕ → Asset → Asset → Ledger → Result (Bool × Ledger)
  fill_order id pays receives l = do
    o ← order_at id l
    assert (o.sell_price.base.symbol == pays.symbol)
    assert (not (pays.symbol == receives.symbol))
    l₁ ← adjust_balance wide safe o.seller receives l
    if asset_eq pays (amount_for_sale o) then ok (true, remove_order id l₁) else (do
      left ← safe.sub o.for_sale pays.amount
      let o' : LimitOrder = record o { for_sale = left }
      wants ← asset_times_price wide (amount_for_sale o') o.sell_price
      if eqb_ℤ wants.amount (pos 0)
          then (do l₂ ← cancel_order id (put_order id o' l₁); ok (true, l₂))
          else ok (false, put_order id o' l₁))

  -- What an old order and a new one receive of each other, at the price of the old one.
  unfoldable pub trade : LimitOrder → LimitOrder → Result (Asset × Asset)
  trade new old = do
    worth ← asset_times_price wide (amount_for_sale old) old.sell_price
    covered ← asset_le (amount_for_sale new) worth
    if covered
        then (do
          received ← asset_times_price wide (amount_for_sale new) old.sell_price
          ok (amount_for_sale new, received))
        else ok (worth, amount_for_sale old)

  -- `match`: whether the new order is filled, and whether the old one is.
  unfoldable pub match_orders : ℕ → ℕ → Ledger → Result (Bool × Bool × Ledger)
  match_orders new_id old_id l = do
    new ← order_at new_id l
    old ← order_at old_id l
    t ← trade new old
    r ← fill_order new_id (t.0) (t.1) l
    q ← fill_order old_id (t.1) (t.0) (r.1)
    ok (r.0, q.0, q.1)

  -- The loop of `apply_order`, over the orders that the new one may be matched with.
  unfoldable pub match_all : List LimitOrder → ℕ → Ledger → Result Ledger
  match_all [] id l = ok l
  match_all (old ∷ olds) id l = do
    r ← match_orders id old.id l
    if r.0 then ok (r.2) else match_all olds id (r.2)

  -- The orders of the other side of the market whose price is not below `max_price`.
  unfoldable pub matching : Price → Ledger → Result (List LimitOrder)
  matching max_price l = do
    upper ← max_of max_price
    ok (
        take_while (λ o. not (price_gt wide max_price o.sell_price))
          (drop_while (λ o. price_gt wide o.sell_price upper) l.limit_orders))

  -- Whether the order is filled: it is gone.
  unfoldable pub apply_order : ℕ → Ledger → Result (Bool × Ledger)
  apply_order id l = do
    o ← order_at id l
    olds ← matching (inverse o.sell_price) l
    l₁ ← match_all olds id l
    ok (not (is_some (find_by (is_order id) l₁.limit_orders)), l₁)

  -- What the two evaluators that create an order share: `sell_price` is that of `get_price`.
  unfoldable pub place_order : Name → ℕ → Asset → Price → Bool → ℕ → Ledger → Result Ledger
  place_order owner order_id amount_to_sell sell_price fill_or_kill expiration l = do
    minus ← negate_asset safe amount_to_sell
    l₁ ← adjust_balance wide safe owner minus l
    l₂ ←
        create_order
          (record {
            id = 0;
            created = head_block_time l;
            expiration = expiration;
            seller = owner;
            order_id = order_id;
            for_sale = amount_to_sell.amount;
            sell_price = sell_price;
          })
          l₁
    r ← apply_order l₁.next_order_id l₂
    assert (not fill_or_kill || r.0)
    ok (r.1)

  unfoldable pub check_order : Name → Asset → ℕ → Ledger → Result (Unit {0})
  check_order owner amount_to_sell expiration l = do
    assert (ltb (head_block_time l) expiration)
    a ← get_account owner l
    balance ← get_balance a amount_to_sell.symbol
    assert_ge balance amount_to_sell

  unfoldable pub limit_order_create : LimitOrderCreate → Ledger → Result Ledger
  limit_order_create o l = do
    check_order o.owner o.amount_to_sell o.expiration l
    p ← make_price o.amount_to_sell o.min_to_receive
    place_order o.owner o.order_id o.amount_to_sell p o.fill_or_kill o.expiration l

  unfoldable pub limit_order_create2 : LimitOrderCreate2 → Ledger → Result Ledger
  limit_order_create2 o l = do
    check_order o.owner o.amount_to_sell o.expiration l
    place_order o.owner o.order_id o.amount_to_sell o.exchange_rate o.fill_or_kill o.expiration l

  unfoldable pub limit_order_cancel : Bool → LimitOrderCancel → Ledger → Result Ledger
  limit_order_cancel has_hardfork_0_6 o l = do
    order ← get_limit_order has_hardfork_0_6 o.owner o.order_id l
    cancel_order order.id l

  unfoldable pub clear_expired : ℕ → Ledger → Result Ledger
  clear_expired zero l = ok l
  clear_expired (suc fuel) l = elim (soonest l.limit_orders) [
    | none ↦ ok l
    | some o ↦
        if ltb o.expiration (head_block_time l)
        then (do l₁ ← cancel_order o.id l; clear_expired fuel l₁)
        else ok l
  ]

  -- Each round removes an order.
  unfoldable pub clear_expired_orders : Ledger → Result Ledger
  clear_expired_orders l = clear_expired (length l.limit_orders) l
