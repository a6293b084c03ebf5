-- ===== src/Chain/Conversions/Tests.antt =====
-- A request for the conversion of three TSD, at the price of one TSD for one TME.
use wenode.Base.{◌≡◌, refl, true, [], Result, ok, err}
use wenode.Base.Int.{◌+ℤ◌, ◌-ℤ◌}
use wenode.Protocol.Names.{name_eq}
use wenode.Protocol.Asset.Machine.{wrapping, checked, in_range}
use wenode.Protocol.Asset.{
  add_asset, asset_ge, asset_lt, negate_asset, sub_asset, asset_times_price, price_eq, cross,
}
use wenode.Chain.Table.{find_by, replace_by, insert_by, erase_by}
use wenode.Chain.Ledger.{Ledger, get_account, get_balance, adjust_balance, accrue, assert_ge}
use wenode.Chain.Sample.{bob, tsd, tme, start, value_or}
use wenode.Chain.Conversions.{
  is_request, is_request_of, converts_before, remove_request, create_request, is_null, convert,
  convert_from, process_conversions,
}

abbrev ap_ok : {A B : Type 0} → (A → B) → Result A → Result B
ap_ok f (err thrown) = err thrown
ap_ok f (ok a) = ok (f a)

abbrev requested : Ledger
requested =
    value_or
      (convert wrapping checked true (record { owner = bob; request_id = 4; amount = tsd 3 }) start)
      start

-- The conversion falls due.
abbrev due : Ledger
due = record requested { properties = record (requested.properties) { time = 302450 } }

abbrev filled : Ledger
filled = value_or (process_conversions wrapping checked due) due

filled-balances :
    (ap_ok (λ a. a.balance) (get_account bob filled) ≡ ok (tme 63))
    × (filled.convert_requests ≡ [])
    × (filled.properties.current_supply ≡ tme 103)
    × (filled.properties.current_tsd_supply ≡ tsd 17)
unfolding convert create_request process_conversions convert_from remove_request is_null price_eq
    cross is_request is_request_of converts_before get_account get_balance find_by replace_by
    insert_by erase_by assert_ge asset_ge asset_lt negate_asset add_asset sub_asset
    asset_times_price adjust_balance accrue name_eq in_range ◌+ℤ◌ ◌-ℤ◌
filled-balances = (refl, refl, refl, refl)
