-- ===== src/Protocol/Merkle.antt =====
-- libraries/protocol/block.cpp: the Merkle root over the transactions of a block. A digest is a
-- number, and the hash functions are parameters.
pub mod Binding
mod Tests
use wenode.Base.{ℕ, zero, suc, List, [], ◌∷◌, length, map}

module _ (hash_pair : ℕ → ℕ → ℕ) where
  -- One round: neighbours are hashed in pairs, and the last of an odd number is kept.
  pub merkle_round : List ℕ → List ℕ
  merkle_round [] = []
  merkle_round (a ∷ []) = a ∷ []
  merkle_round (a ∷ b ∷ ids) = hash_pair a b ∷ merkle_round ids

  -- `while( current_number_of_hashes > 1 )`, for at most as many rounds as the fuel.
  pub merkle_loop : ℕ → List ℕ → List ℕ
  unfolding merkle_round
  merkle_loop fuel [] = []
  merkle_loop fuel (a ∷ []) = a ∷ []
  merkle_loop zero (a ∷ b ∷ ids) = a ∷ b ∷ ids
  merkle_loop (suc fuel) (a ∷ b ∷ ids) = merkle_loop fuel (merkle_round (a ∷ b ∷ ids))

module _ {Transaction : Type 0} (merkle_digest : Transaction → ℕ) (hash_pair : ℕ → ℕ → ℕ)
    (hash : ℕ → ℕ) (no_checksum : ℕ) where
  root_of : List ℕ → ℕ
  root_of [] = no_checksum
  root_of (a ∷ ids) = hash a

  unfoldable pub calculate_merkle_root : List Transaction → ℕ
  unfolding merkle_loop root_of
  calculate_merkle_root transactions =
      let ids = map merkle_digest transactions in root_of (merkle_loop hash_pair (length ids) ids)
