-- ===== src/Protocol/Operations/Market.antt =====
-- The checks of the operations on the TME:TSD market and its price feed.
use wenode.Base.{ℕ, Bool, ◌&&◌, ◌||◌, ltb, ◌==◌, if◌then◌else◌, Result, assert, ◌>>=◌, ◌>>◌}
use wenode.Protocol.Names.{Name}
use wenode.Protocol.Asset.{Asset, Price, UInt128, make_price, validate_price, asset_times_price}
use wenode.Protocol.Operations.{
  symbol_coin, symbol_usd, is_asset_type, validate_account_name, is_positive,
}

pub record FeedPublish : Type 0 where
  pub publisher : Name
  pub exchange_rate : Price

pub record Convert : Type 0 where
  pub owner : Name
  pub request_id : ℕ
  pub amount : Asset

pub record LimitOrderCreate : Type 0 where
  pub owner : Name
  pub order_id : ℕ
  pub amount_to_sell : Asset
  pub min_to_receive : Asset
  pub fill_or_kill : Bool
  pub expiration : ℕ

pub record LimitOrderCreate2 : Type 0 where
  pub owner : Name
  pub order_id : ℕ
  pub amount_to_sell : Asset
  pub fill_or_kill : Bool
  pub exchange_rate : Price
  pub expiration : ℕ

pub record LimitOrderCancel : Type 0 where
  pub owner : Name
  pub order_id : ℕ

-- One asset in TME and the other in TSD.
unfoldable pub is_tme_tsd_market : Asset → Asset → Bool
is_tme_tsd_market a b =
    (is_asset_type a symbol_coin && is_asset_type b symbol_usd)
    || (is_asset_type a symbol_usd && is_asset_type b symbol_coin)

-- `get_market`, of a limit order.
pub get_market : Asset → Asset → ℕ × ℕ
get_market sell receive =
    if ltb sell.symbol receive.symbol
    then (sell.symbol, receive.symbol)
    else (receive.symbol, sell.symbol)

pub validate_feed_publish : FeedPublish → Result (Unit {0})
unfolding is_tme_tsd_market
validate_feed_publish o = do
  validate_account_name o.publisher
  assert (is_tme_tsd_market o.exchange_rate.base o.exchange_rate.quote)
  validate_price o.exchange_rate

pub validate_limit_order_create : LimitOrderCreate → Result (Unit {0})
unfolding is_tme_tsd_market
validate_limit_order_create o = do
  validate_account_name o.owner
  assert (is_tme_tsd_market o.amount_to_sell o.min_to_receive)
  p ← make_price o.amount_to_sell o.min_to_receive
  validate_price p

unfoldable pub validate_limit_order_create2 : UInt128 → LimitOrderCreate2 → Result (Unit {0})
unfolding is_tme_tsd_market
validate_limit_order_create2 wide o = do
  validate_account_name o.owner
  assert (o.amount_to_sell.symbol == o.exchange_rate.base.symbol)
  validate_price o.exchange_rate
  assert (is_tme_tsd_market o.amount_to_sell o.exchange_rate.quote)
  received ← asset_times_price wide o.amount_to_sell o.exchange_rate
  assert (is_positive received)

pub validate_limit_order_cancel : LimitOrderCancel → Result (Unit {0})
validate_limit_order_cancel o = validate_account_name o.owner

pub validate_convert : Convert → Result (Unit {0})
validate_convert o = do
  validate_account_name o.owner
  assert (is_asset_type o.amount symbol_usd)
  assert (is_positive o.amount)
