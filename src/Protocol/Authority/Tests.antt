-- ===== src/Protocol/Authority/Tests.antt =====
-- The validator and the weights on small inputs.
use wenode.Base.{◌≤◌, ◌<◌, ◌≡◌, ◌↔◌, true, [], ◌∷◌, length, arith}
use wenode.Protocol.Names.{Name}
use wenode.Protocol.Authority.{Authority, is_valid_account_name, is_impossible}
use wenode.Protocol.Authority.Grammar.{IsDomain, is_valid_account_name-IsDomain, is_impossible-lt}

abbrev alice_bob : Name
alice_bob = b'a' ∷ b'l' ∷ b'i' ∷ b'.' ∷ b'b' ∷ b'o' ∷ b'b' ∷ []

is_valid_account_name-IsDomain_example :
    (is_valid_account_name alice_bob ≡ true)
    ↔ ((3 ≤ length alice_bob) × (length alice_bob ≤ 16) × IsDomain alice_bob)
is_valid_account_name-IsDomain_example = is_valid_account_name-IsDomain alice_bob

abbrev two_of_three : Authority
two_of_three = record {
  weight_threshold = 4;
  account_auths = (alice_bob, 1) ∷ [];
  key_auths = (5, 1) ∷ (6, 1) ∷ [];
}

is_impossible-lt_example : (is_impossible two_of_three ≡ true) ↔ (3 < 4)
is_impossible-lt_example = is_impossible-lt two_of_three (omega arith)
