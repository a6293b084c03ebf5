-- ===== src/Chain/Market/Tests.antt =====
-- Runs of the market: bob buys 5 TME of ann's order, and an order expires.
use wenode.Base.{◌≡◌, refl, Bool, true, false, [], ◌∷◌, all, Result, ok, err}
use wenode.Base.Int.{pos, ◌+ℤ◌, ◌-ℤ◌}
use wenode.Protocol.Names.{name_eq}
use wenode.Protocol.Asset.{
  symbol_name, symbol_byte, c_string, convert, asset_times_price, asset_le, asset_lt, asset_eq,
  add_asset,
}
use wenode.Protocol.Asset.Machine.{wrapping, checked, in_range}
use wenode.Protocol.Operations.{symbol_coin}
use wenode.Chain.Table.{find_by, replace_by, erase_by}
use wenode.Chain.Sample.{ann, bob, tsd, tme, start, value_or}
use wenode.Chain.Ledger.{
  LimitOrder, Ledger, head_block_time, get_account, adjust_balance, accrue, amount_for_sale,
}
use wenode.Chain.Ledger.Held.{excess}
use wenode.Chain.Market.{
  match_orders, order_at, is_order, trade, fill_order, put_order, remove_order, cancel_order,
  clear_expired_orders, clear_expired, soonest, expires_first,
}
use wenode.Chain.Market.Books.{match_orders-excess}
use wenode.Chain.Market.Expiry.{is_live, clear_expired_orders-is_live}

-- 10 TME for 20 TSD.
abbrev ask : LimitOrder
ask = record {
  id = 0;
  created = 10;
  expiration = 40;
  seller = ann;
  order_id = 1;
  for_sale = pos 10;
  sell_price = record { base = tme 10; quote = tsd 20 };
}

-- 10 TSD for 4 TME.
abbrev bid : LimitOrder
bid = record {
  id = 1;
  created = 50;
  expiration = 90;
  seller = bob;
  order_id = 1;
  for_sale = pos 10;
  sell_price = record { base = tsd 10; quote = tme 4 };
}

abbrev listed : Ledger
listed = record start { limit_orders = ask ∷ bid ∷ [] }

abbrev third : Result (Bool × Bool × Ledger) → Ledger
third (err thrown) = listed
third (ok r) = r.2

abbrev matched : Ledger
matched = third (match_orders wrapping checked 1 0 listed)

matched-done : match_orders wrapping checked 1 0 listed ≡ ok (true, false, matched)
unfolding match_orders order_at is_order find_by trade amount_for_sale asset_times_price symbol_name
    symbol_byte c_string convert name_eq asset_le asset_lt asset_eq fill_order adjust_balance
    get_account accrue add_asset in_range replace_by erase_by put_order remove_order cancel_order
    ◌+ℤ◌ ◌-ℤ◌
matched-done = refl

match_orders-excess_example : excess symbol_coin matched ≡ excess symbol_coin listed
match_orders-excess_example =
    match_orders-excess wrapping checked symbol_coin 1 0 listed matched-done

abbrev cleared : Ledger
cleared = value_or (clear_expired_orders wrapping checked listed) listed

cleared-done : clear_expired_orders wrapping checked listed ≡ ok cleared
unfolding clear_expired_orders clear_expired soonest expires_first order_at is_order find_by
    amount_for_sale name_eq adjust_balance get_account accrue add_asset in_range replace_by erase_by
    remove_order cancel_order ◌+ℤ◌ ◌-ℤ◌
cleared-done = refl

clear_expired_orders-is_live_example :
    all (is_live (head_block_time listed)) cleared.limit_orders ≡ true
clear_expired_orders-is_live_example =
    clear_expired_orders-is_live wrapping checked listed cleared-done
