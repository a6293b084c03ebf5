-- ===== src/Protocol/Operations.antt =====
-- libraries/protocol/node_operations.cpp and include/node/protocol/node_operations.hpp: the
-- operations, and the checks on one of them by itself. `fc::is_utf8` and `fc::json::is_valid` are
-- parameters. A time, a key and an id are numbers; a string is a list of bytes.
pub mod Accounts
pub mod Content
pub mod Transfers
pub mod Market
pub mod Escrow
mod Tests
use wenode.Base.{
  ℕ, ◌==◌, Bool, true, false, ◌&&◌, ◌||◌, not, List, [], ◌∷◌, ltb, leb, if◌then◌else◌, length,
  is_empty, Result, ok, err, fc_assert, assert, ◌>>=◌, ◌>>◌,
}
use wenode.Base.Int.{ℤ, pos, ltb_ℤ}
use wenode.Protocol.Names.{Name, name_eq}
use wenode.Protocol.Authority.{is_valid_account_name}
use wenode.Protocol.Asset.{Asset, asset_ge}

-- The currencies of config.hpp: their precision, then the letters of their name.
abbrev pub symbol_coin : ℕ
symbol_coin = 1162695683

abbrev pub symbol_score : ℕ
symbol_score = 76219819447046

abbrev pub symbol_usd : ℕ
symbol_usd = 1146311683

abbrev pub percent_100 : ℕ
percent_100 = 10000

abbrev pub max_permlink_length : ℕ
max_permlink_length = 2048

abbrev pub max_memo_size : ℕ
max_memo_size = 2048

unfoldable pub is_asset_type : Asset → ℕ → Bool
is_asset_type a symbol = a.symbol == symbol

unfoldable pub validate_account_name : Name → Result (Unit {0})
validate_account_name name = assert (is_valid_account_name name)

-- `if( name.size() ) validate_account_name( name )`
unfoldable pub validate_optional_name : Name → Result (Unit {0})
unfolding validate_account_name
validate_optional_name name = if is_empty name then ok tt else validate_account_name name

-- `FC_ASSERT( a >= asset( 0, symbol ) )`, which also throws on another currency.
unfoldable pub assert_not_negative : Asset → ℕ → Result (Unit {0})
assert_not_negative a symbol = do
  r ← asset_ge a (record { amount = pos 0; symbol = symbol })
  assert r

-- `FC_ASSERT( a.amount >= 0 )`
unfoldable pub not_negative : Asset → Bool
not_negative a = not (ltb_ℤ a.amount (pos 0))

-- `FC_ASSERT( a.amount > 0 )`
unfoldable pub is_positive : Asset → Bool
is_positive a = ltb_ℤ (pos 0) a.amount

module _ (is_utf8 is_valid_json : List ℕ → Bool) where
  unfoldable pub validate_permlink : List ℕ → Result (Unit {0})
  validate_permlink permlink = do
    assert (ltb (length permlink) max_permlink_length)
    assert (is_utf8 permlink)

  -- `if( json.size() > 0 ) { … }`
  unfoldable pub validate_metadata : List ℕ → Result (Unit {0})
  validate_metadata json =
      if is_empty json then ok tt else (do assert (is_utf8 json); assert (is_valid_json json))

  unfoldable pub validate_memo : List ℕ → Result (Unit {0})
  validate_memo memo = do assert (ltb (length memo) max_memo_size); assert (is_utf8 memo)
