-- ===== src/Chain/Irreversible.antt =====
-- `update_last_irreversible_block` of libraries/chain/database.cpp, as far as it sets the number of
-- the last irreversible block. Left out is what it does with that number: the commit of the undo
-- sessions, the block log, and the window of the fork database.
pub mod Threshold
mod Tests
use wenode.Base.{
  ℕ, zero, suc, ◌-◌, ◌*◌, ◌/◌, ◌%◌, ◌^◌, Option, none, some, List, [], ◌∷◌, ltb, leb, if◌then◌else◌,
  get_elem?, length, Result, ok, or_throw, out_of_range, undefined, ◌>>=◌,
}
use wenode.Protocol.Names.{Name}
use wenode.Protocol.Operations.{percent_100}

abbrev pub max_witnesses : ℕ
max_witnesses = 50

abbrev pub start_miner_voting_block : ℕ
start_miner_voting_block = 86400

abbrev pub irreversible_threshold : ℕ
irreversible_threshold = 7500

-- `get_witness` of each scheduled name, down to its last confirmed block.
unfoldable pub confirmed_by : (Name → Option ℕ) → List Name → Result (List ℕ)
confirmed_by get_witness [] = ok []
confirmed_by get_witness (name ∷ names) = do
  n ← or_throw (get_witness name) out_of_range
  ns ← confirmed_by get_witness names
  ok (n ∷ ns)

-- `std::nth_element`, by way of a sort.
unfoldable pub insert : ℕ → List ℕ → List ℕ
insert n [] = n ∷ []
insert n (m ∷ ms) = let rest = insert n ms in if leb n m then n ∷ m ∷ ms else m ∷ rest

unfoldable pub sort : List ℕ → List ℕ
unfolding insert
sort [] = []
sort (n ∷ ns) = insert n (sort ns)

unfoldable pub nth_element : ℕ → List ℕ → Option ℕ
unfolding sort
nth_element offset ns = get_elem? (sort ns) offset

unfoldable pub update_last_irreversible_block : (Name → Option ℕ) → List Name → ℕ → ℕ → Result ℕ
unfolding nth_element
update_last_irreversible_block get_witness scheduled head_block_num last =
    if ltb head_block_num start_miner_voting_block
    then ok (if ltb max_witnesses head_block_num then head_block_num - max_witnesses else last)
    else (do
      confirmed ← confirmed_by get_witness scheduled
      let offset = (percent_100 - irreversible_threshold) * length confirmed / percent_100
      n ← or_throw (nth_element offset confirmed) undefined
      let new = n % 2 ^ 32
      ok (if ltb last new then new else last))
