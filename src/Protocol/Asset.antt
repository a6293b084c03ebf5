-- ===== src/Protocol/Asset.antt =====
-- libraries/protocol/asset.cpp and include/node/protocol/asset.hpp: amounts of a currency, and
-- prices. The text forms, `to_string` and `from_string`, and the conversions to `double` are left
-- out. `fc::safe<int64_t>` and `fc::uint128` are not part of the repository: the operations
-- that the code uses of them are the fields of `SafeInt` and `UInt128`.
pub mod Convert
pub mod Compare
pub mod Machine
mod Tests
use wenode.Base.{
  ℕ, ◌+◌, ◌-◌, ◌*◌, ◌/◌, ◌%◌, ◌^◌, ◌<◌, ◌≡◌, Bool, true, false, ◌&&◌, ◌||◌, not, List, [], ◌∷◌, ltb,
  ◌==◌, if◌then◌else◌, Result, ok, err, fc_assert, assert, ◌>>=◌, ◌>>◌,
}
use wenode.Base.Int.{◌+ℤ◌, ◌-ℤ◌, ℤ, pos, negsuc, ltb_ℤ, eqb_ℤ}
use wenode.Protocol.Names.{Name, name_eq}

pub record Asset : Type 0 where
  pub amount : ℤ
  pub symbol : ℕ

-- Byte `i` of the symbol, in little-endian order.
unfoldable pub symbol_byte : ℕ → ℕ → ℕ
symbol_byte symbol i = symbol / 256 ^ i % 256

pub decimals : Asset → Result ℕ
unfolding symbol_byte
decimals a = do assert (ltb (symbol_byte a.symbol 0) 15); ok (symbol_byte a.symbol 0)

pub set_decimals : ℕ → Asset → Result Asset
unfolding symbol_byte
set_decimals d a = do
  assert (ltb d 15)
  ok (record a { symbol = a.symbol - symbol_byte a.symbol 0 + d })

-- The table of the powers of ten.
pub precision : Asset → Result ℕ
unfolding decimals
precision a = do d ← decimals a; ok (10 ^ d)

-- A C string ends in front of the first zero byte.
unfoldable pub c_string : List ℕ → Name
c_string [] = []
c_string (c ∷ s) = let rest = c_string s in if c == 0 then [] else c ∷ rest

unfoldable pub symbol_name : Asset → Result Name
unfolding symbol_byte c_string
symbol_name a = do
  assert (symbol_byte a.symbol 7 == 0)
  ok (
      c_string (
        symbol_byte a.symbol 1
        ∷ symbol_byte a.symbol 2
        ∷ symbol_byte a.symbol 3
        ∷ symbol_byte a.symbol 4
        ∷ symbol_byte a.symbol 5
        ∷ symbol_byte a.symbol 6
        ∷ []))

unfoldable pub asset_eq : Asset → Asset → Bool
asset_eq a b = a.symbol == b.symbol && eqb_ℤ a.amount b.amount

unfoldable pub asset_lt : Asset → Asset → Result Bool
asset_lt a b = do
  assert (a.symbol == b.symbol)
  ok (ltb_ℤ a.amount b.amount || (eqb_ℤ a.amount b.amount && ltb a.symbol b.symbol))

unfoldable pub asset_le : Asset → Asset → Result Bool
unfolding asset_eq asset_lt
asset_le a b = if asset_eq a b then ok true else asset_lt a b

unfoldable pub asset_gt : Asset → Asset → Result Bool
unfolding asset_le
asset_gt a b = do r ← asset_le a b; ok (not r)

unfoldable pub asset_ge : Asset → Asset → Result Bool
unfolding asset_lt
asset_ge a b = do r ← asset_lt a b; ok (not r)

-- What the code uses of `fc::safe<int64_t>`, with what it relies on: an operation throws where
-- the result does not fit, and is exact where it does not throw.
pub record SafeInt : Type 0 where
  pub add : ℤ → ℤ → Result ℤ
  pub sub : ℤ → ℤ → Result ℤ
  pub neg : ℤ → Result ℤ
  pub mul : ℤ → ℤ → Result ℤ
  pub add-ok : (a b : ℤ) {c : ℤ} → add a b ≡ ok c → c ≡ a +ℤ b
  pub sub-ok : (a b : ℤ) {c : ℤ} → sub a b ≡ ok c → c ≡ a -ℤ b
  pub neg-ok : (a : ℤ) {c : ℤ} → neg a ≡ ok c → c ≡ pos 0 -ℤ a

module _ (safe : SafeInt) where
  unfoldable pub add_asset : Asset → Asset → Result Asset
  add_asset a b = do
    assert (a.symbol == b.symbol)
    n ← safe.add a.amount b.amount
    ok (record a { amount = n })

  unfoldable pub sub_asset : Asset → Asset → Result Asset
  sub_asset a b = do
    assert (a.symbol == b.symbol)
    n ← safe.sub a.amount b.amount
    ok (record a { amount = n })

  unfoldable pub negate_asset : Asset → Result Asset
  negate_asset a = do n ← safe.neg a.amount; ok (record a { amount = n })

pub record Price : Type 0 where
  pub base : Asset
  pub quote : Asset

-- `base / quote`
unfoldable pub make_price : Asset → Asset → Result Price
unfolding symbol_name
make_price base quote = do
  b ← symbol_name base
  q ← symbol_name quote
  assert (not (name_eq b q))
  ok (record { base = base; quote = quote })

-- `~p`
pub inverse : Price → Price
inverse p = record { base = p.quote; quote = p.base }

unfoldable pub validate_price : Price → Result (Unit {0})
unfolding symbol_name
validate_price p = do
  assert (ltb_ℤ (pos 0) p.base.amount)
  assert (ltb_ℤ (pos 0) p.quote.amount)
  b ← symbol_name p.base
  q ← symbol_name p.quote
  assert (not (name_eq b q))

-- What the code uses of `fc::uint128`, with what it relies on.
pub record UInt128 : Type 0 where
  pub of_int64 : ℤ → ℕ
  pub plus : ℕ → ℕ → ℕ
  pub times : ℕ → ℕ → ℕ
  pub divide : ℕ → ℕ → ℕ
  pub high : ℕ → ℕ
  pub to_share : ℕ → ℤ
  pub of_int64-pos : (n : ℕ) → n < 2 ^ 63 → of_int64 (pos n) ≡ n
  pub times-exact : (a b : ℕ) → a * b < 2 ^ 128 → times a b ≡ a * b
  pub divide-exact : (a b : ℕ) → 0 < b → divide a b ≡ a / b
  pub high-eq : (a : ℕ) → high a ≡ a / 2 ^ 64
  pub to_share-pos : (n : ℕ) → n < 2 ^ 63 → to_share n ≡ pos n

module _ (wide : UInt128) where
  unfoldable pub cross : Price → Price → ℕ
  cross a b = wide.times (wide.of_int64 b.quote.amount) (wide.of_int64 a.base.amount)

  unfoldable pub price_eq : Price → Price → Bool
  unfolding cross
  price_eq a b =
      a.base.symbol == b.base.symbol && a.quote.symbol == b.quote.symbol && cross a b == cross b a

  unfoldable pub price_lt : Price → Price → Bool
  unfolding cross
  price_lt a b =
      if ltb a.base.symbol b.base.symbol
      then true
      else (if ltb b.base.symbol a.base.symbol
          then false
          else (if ltb a.quote.symbol b.quote.symbol
              then true
              else (if ltb b.quote.symbol a.quote.symbol
                  then false
                  else ltb (cross a b) (cross b a))))

  pub price_le : Price → Price → Bool
  unfolding price_eq price_lt
  price_le a b = price_eq a b || price_lt a b

  pub price_gt : Price → Price → Bool
  unfolding price_le
  price_gt a b = not (price_le a b)

  pub price_ge : Price → Price → Bool
  unfolding price_lt
  price_ge a b = not (price_lt a b)

  -- One side of `asset * price`: `amount * to / per`, rounded down.
  unfoldable pub convert : ℤ → Asset → Asset → Result Asset
  convert amount per to = do
    assert (ltb_ℤ (pos 0) per.amount)
    let r =
        wide.divide (wide.times (wide.of_int64 amount) (wide.of_int64 to.amount))
          (wide.of_int64 per.amount)
    assert (wide.high r == 0)
    ok (record to { amount = wide.to_share r })

  unfoldable pub asset_times_price : Asset → Price → Result Asset
  unfolding symbol_name convert
  asset_times_price a p = do
    n ← symbol_name a
    b ← symbol_name p.base
    if name_eq n b then convert a.amount p.base p.quote else (do
      q ← symbol_name p.quote
      if name_eq n q then convert a.amount p.quote p.base else err fc_assert)
