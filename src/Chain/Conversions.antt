-- ===== src/Chain/Conversions.antt =====
-- Conversions of TSD into TME: `convert_evaluator` of libraries/chain/node_evaluator.cpp, and
-- `process_conversions` of libraries/chain/database.cpp but for its virtual operations; the
-- supplies in TME, `update_virtual_supply`. The index of
-- the requests is in the order of `by_conversion_date`.
pub mod Books
mod Tests
use wenode.Base.{
  ℕ, suc, ◌+◌, ◌%◌, ◌^◌, Bool, ◌&&◌, ◌||◌, not, List, [], ◌∷◌, ltb, ◌==◌, if◌then◌else◌, is_some,
  Result, ok, logic_error, assert, assert_or, ◌>>=◌, ◌>>◌,
}
use wenode.Base.Int.{pos}
use wenode.Protocol.Names.{Name, name_eq}
use wenode.Protocol.Asset.{
  Asset, Price, SafeInt, UInt128, add_asset, sub_asset, negate_asset, price_eq, asset_times_price,
}
use wenode.Protocol.Operations.{symbol_coin, symbol_usd}
use wenode.Protocol.Operations.Market.{Convert}
use wenode.Chain.Table.{find_by, erase_by, insert_by}
use wenode.Chain.Ledger.{
  ConvertRequest, Ledger, head_block_time, get_account, adjust_balance, get_balance, assert_ge,
}

abbrev pub conversion_delay_pre_hf_16 : ℕ
conversion_delay_pre_hf_16 = 604800

abbrev pub conversion_delay : ℕ
conversion_delay = 302400

abbrev pub no_coin : Asset
no_coin = record { amount = pos 0; symbol = symbol_coin }

abbrev pub no_usd : Asset
no_usd = record { amount = pos 0; symbol = symbol_usd }

unfoldable pub converts_before : ConvertRequest → ConvertRequest → Bool
converts_before a b =
    ltb a.conversion_date b.conversion_date
    || (a.conversion_date == b.conversion_date && ltb a.id b.id)

unfoldable pub is_request : ℕ → ConvertRequest → Bool
is_request id c = id == c.id

unfoldable pub is_request_of : Name → ℕ → ConvertRequest → Bool
is_request_of owner request_id c = name_eq owner c.owner && request_id == c.request_id

unfoldable pub remove_request : ℕ → Ledger → Ledger
remove_request id l = record l { convert_requests = erase_by (is_request id) l.convert_requests }

-- `create`: the key (owner, requestid) is unique.
unfoldable pub create_request : Convert → ℕ → Ledger → Result Ledger
create_request o date l = do
  assert_or (not (is_some (find_by (is_request_of o.owner o.request_id) l.convert_requests)))
      logic_error
  ok (record l {
    convert_requests =
        insert_by converts_before
          (record {
            id = l.next_convert_request_id;
            owner = o.owner;
            request_id = o.request_id;
            amount = o.amount;
            conversion_date = date;
          })
          l.convert_requests;
    next_convert_request_id = suc l.next_convert_request_id;
  })

module _ (wide : UInt128) (safe : SafeInt) where
  -- `price::is_null`: equal to the price that is made by default.
  unfoldable pub is_null : Price → Bool
  is_null p = price_eq wide p (record { base = no_coin; quote = no_coin })

  -- The flag is `has_hardfork( HARDFORK_0_16__551 )`.
  unfoldable pub convert : Bool → Convert → Ledger → Result Ledger
  convert hf o l = do
    owner ← get_account o.owner l
    balance ← get_balance owner o.amount.symbol
    assert_ge balance o.amount
    minus ← negate_asset safe o.amount
    l₁ ← adjust_balance wide safe o.owner minus l
    assert (not (is_null l₁.current_median_history))
    let delay = if hf then conversion_delay else conversion_delay_pre_hf_16
    create_request o ((head_block_time l₁ + delay) % 2 ^ 32) l₁

  -- The loop over the index, with the sums of what it takes and of what it issues.
  unfoldable pub convert_from :
      List ConvertRequest → Ledger → Asset → Asset → Result (Ledger × Asset × Asset)
  convert_from [] l net_tsd net_tme = ok (l, net_tsd, net_tme)
  convert_from (c ∷ cs) l net_tsd net_tme =
      if ltb (head_block_time l) c.conversion_date then ok (l, net_tsd, net_tme) else (do
        user ← get_account c.owner l
        issued ← asset_times_price wide c.amount l.current_median_history
        l₁ ← adjust_balance wide safe c.owner issued l
        taken ← add_asset safe net_tsd c.amount
        made ← add_asset safe net_tme issued
        convert_from cs (remove_request c.id l₁) taken made)

  unfoldable pub process_conversions : Ledger → Result Ledger
  process_conversions l = if is_null l.current_median_history then ok l else (do
    r ← convert_from l.convert_requests l no_usd no_coin
    let p = r.0.properties
    current ← add_asset safe p.current_supply r.2
    tsd ← sub_asset safe p.current_tsd_supply r.1
    virtual ← add_asset safe p.virtual_supply r.2
    value ← asset_times_price wide r.1 r.0.current_median_history
    virtual' ← sub_asset safe virtual value
    ok (record (r.0) {
      properties = record p {
        current_supply = current;
        current_tsd_supply = tsd;
        virtual_supply = virtual';
      };
    }))

  -- `update_virtual_supply`, but for the print rate.
  unfoldable pub update_virtual_supply : Ledger → Result Ledger
  update_virtual_supply l = do
    let p = l.properties
    value ←
        if is_null l.current_median_history
        then ok no_coin
        else asset_times_price wide p.current_tsd_supply l.current_median_history
    virtual ← add_asset safe p.current_supply value
    ok (record l { properties = record p { virtual_supply = virtual } })
