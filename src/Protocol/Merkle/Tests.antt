-- ===== src/Protocol/Merkle/Tests.antt =====
-- The Merkle root of three transactions.
use wenode.Base.{ℕ, ◌+◌, ◌*◌, ◌≡◌, refl, ◌⊎◌, List, [], ◌∷◌, length, map, arith}
use wenode.Protocol.Merkle.{merkle_loop}
use wenode.Protocol.Merkle.Binding.{Collision, length-merkle_loop, calculate_merkle_root-binds}

abbrev digest : ℕ → ℕ
digest t = t

abbrev pair_up : ℕ → ℕ → ℕ
pair_up a b = a * 1000 + b

abbrev seal : ℕ → ℕ
seal a = a + 1

abbrev three_transactions : List ℕ
three_transactions = 1 ∷ 2 ∷ 3 ∷ []

length-merkle_loop_example : length (merkle_loop pair_up 3 three_transactions) ≡ 1
length-merkle_loop_example =
    length-merkle_loop pair_up seal 3 three_transactions (omega arith) (omega arith)

calculate_merkle_root-binds_example :
    (map digest three_transactions ≡ map digest three_transactions) ⊎ Collision pair_up seal
calculate_merkle_root-binds_example =
    calculate_merkle_root-binds digest pair_up seal 0 three_transactions three_transactions
      (omega arith) refl refl
