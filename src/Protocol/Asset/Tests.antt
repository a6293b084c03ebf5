-- ===== src/Protocol/Asset/Tests.antt =====
-- An exchange there and back: 7 units at a price of 2 for 3 give 10, and 10 give 6.
use wenode.Protocol.Asset.Compare.{Positive, price_lt_fractions}
use wenode.Protocol.Asset.{price_lt, price_eq, price_gt, price_ge, price_le}
use wenode.Base.{◌*◌, ltb, leb, ◌==◌, ◌&&◌, ◌≡◌, refl, ok, arith}
use wenode.Base.Int.{pos, ◌≤ℤ◌}
use wenode.Protocol.Names.{name_eq}
use wenode.Protocol.Asset.{
  Asset, Price, symbol_name, symbol_byte, c_string, validate_price, asset_times_price,
}
use wenode.Protocol.Asset.Machine.{wrapping}
use wenode.Protocol.Asset.Convert.{asset_times_price-there_and_back}

abbrev seven : Asset
seven = record { amount = pos 7; symbol = 1162695683 }

abbrev two_for_three : Price
two_for_three = record {
  base = record { amount = pos 2; symbol = 1162695683 };
  quote = record { amount = pos 3; symbol = 1146311683 };
}

two_for_three-valid : validate_price two_for_three ≡ ok tt
unfolding validate_price symbol_name symbol_byte c_string name_eq
two_for_three-valid = refl

asset_times_price-there_and_back_example :
    (c d : Asset) × (asset_times_price wrapping seven two_for_three ≡ ok c)
    × (c.amount ≡ pos 10)
    × (c.symbol ≡ 1146311683)
    × (asset_times_price wrapping c two_for_three ≡ ok d)
    × (d.amount ≤ℤ pos 7)
    × (d.symbol ≡ 1162695683)
unfolding symbol_name
asset_times_price-there_and_back_example =
    asset_times_price-there_and_back wrapping seven two_for_three 7 2 3 refl refl refl (omega arith)
      (omega arith) (omega arith) (omega arith) two_for_three-valid refl

abbrev one_for_two : Price
one_for_two = record {
  base = record { amount = pos 1; symbol = 1162695683 };
  quote = record { amount = pos 2; symbol = 1146311683 };
}

abbrev three_for_one : Price
three_for_one = record {
  base = record { amount = pos 3; symbol = 1162695683 };
  quote = record { amount = pos 1; symbol = 1146311683 };
}

one_for_two-Positive : Positive one_for_two
one_for_two-Positive = record {
  base = 1;
  quote = 2;
  base-eq = refl;
  quote-eq = refl;
  base_positive = omega arith;
  quote_positive = omega arith;
  base_fits = omega arith;
  quote_fits = omega arith;
}

two_for_three-Positive : Positive two_for_three
two_for_three-Positive = record {
  base = 2;
  quote = 3;
  base-eq = refl;
  quote-eq = refl;
  base_positive = omega arith;
  quote_positive = omega arith;
  base_fits = omega arith;
  quote_fits = omega arith;
}

three_for_one-Positive : Positive three_for_one
three_for_one-Positive = record {
  base = 3;
  quote = 1;
  base-eq = refl;
  quote-eq = refl;
  base_positive = omega arith;
  quote_positive = omega arith;
  base_fits = omega arith;
  quote_fits = omega arith;
}

price_lt_fractions_example :
    let a = one_for_two in
    let b = two_for_three in
    let c = three_for_one in
    (price_lt wrapping a b ≡ ltb (1 * 3) (2 * 2))
    × (price_eq wrapping a b ≡ 1 * 3 == 2 * 2)
    × (price_le wrapping a b ≡ leb (1 * 3) (2 * 2))
    × (price_gt wrapping a b ≡ ltb (2 * 2) (1 * 3))
    × (price_ge wrapping a b ≡ leb (2 * 2) (1 * 3))
    × (price_lt wrapping a b && price_lt wrapping b c && price_lt wrapping a c
        ≡ price_lt wrapping a b && price_lt wrapping b c)
unfolding one_for_two-Positive two_for_three-Positive
price_lt_fractions_example =
    price_lt_fractions wrapping one_for_two two_for_three three_for_one one_for_two-Positive
      two_for_three-Positive three_for_one-Positive refl refl
