-- ===== src/ForkDatabase/Tests.antt =====
-- The fork database's theorems at work on two blocks of a chain; a block's id is its number.
use wenode.Base.{ℕ, ◌≤◌, ◌≡◌, refl, false, none, some, List, [], ◌∷◌, ok, arith, ◌⊎◌}
use wenode.ForkDatabase.{
  SignedBlock, ForkItem, ForkDatabase, find_id, block_num, push_block, push_item, check_age,
  oldest_num, owned, link_item, insert_item, make_item, fetch_branch_from, walk_main_branch_to_num,
  set_max_size,
}
use wenode.ForkDatabase.Links.{IsValid}
use wenode.ForkDatabase.Push.{Below, IsSound, push_block-IsSound, push_block-head, push_block-links}
use wenode.ForkDatabase.Branch.{
  Branch, Branches, Outcome, fetch_branch_from-Branches, walk_main_branch_to_num-num,
}
use wenode.ForkDatabase.Trim.{recent, set_max_size-recent}

abbrev num_of : ℕ → ℕ
num_of i = i

abbrev first_block : SignedBlock
first_block = record { id = 1; previous = 0 }

abbrev second_block : SignedBlock
second_block = record { id = 2; previous = 1 }

abbrev empty_database : ForkDatabase
empty_database = record {
  max_size = 10;
  unlinked_index = [];
  index = [];
  head = none;
  next_addr = 0;
}

abbrev first_item : ForkItem
first_item = record { addr = 0; prev = none; num = 1; invalid = false; id = 1; previous = 0 }

abbrev second_item : ForkItem
second_item = record { addr = 1; prev = some 0; num = 2; invalid = false; id = 2; previous = 1 }

abbrev one_block : ForkDatabase
one_block = record {
  max_size = 10;
  unlinked_index = [];
  index = first_item ∷ [];
  head = some first_item;
  next_addr = 1;
}

abbrev two_blocks : ForkDatabase
two_blocks = record {
  max_size = 10;
  unlinked_index = [];
  index = first_item ∷ second_item ∷ [];
  head = some second_item;
  next_addr = 2;
}

pushed_first : push_block num_of first_block empty_database ≡ ok one_block
unfolding push_block push_item check_age oldest_num link_item insert_item make_item block_num
    find_id
pushed_first = refl

pushed_second : push_block num_of second_block one_block ≡ ok two_blocks
unfolding push_block push_item check_age oldest_num link_item insert_item make_item block_num
    find_id
pushed_second = refl

empty-IsSound : IsSound num_of empty_database
unfolding owned
empty-IsSound = record {
  tree = record {
    allocated = λ x h. absurd h;
    same = λ x y h. absurd h;
    prev_allocated = λ x a h. absurd h;
    linked = λ x p h. absurd h;
  };
  numbered = record { in_id = λ x h. absurd h; bounded = λ x h. absurd h };
}

one_block-IsSound : IsSound num_of one_block
unfolding block_num
one_block-IsSound =
    push_block-IsSound num_of first_block empty_database one_block refl pushed_first empty-IsSound

push_block-IsSound_example : IsSound num_of two_blocks
unfolding block_num
push_block-IsSound_example =
    push_block-IsSound num_of second_block one_block two_blocks refl pushed_second one_block-IsSound

two_blocks-IsValid : IsValid two_blocks
unfolding block_num
two_blocks-IsValid =
    (push_block-IsSound num_of second_block one_block two_blocks refl pushed_second
      one_block-IsSound).tree

push_block-head_example :
    (h : ForkItem) × (two_blocks.head ≡ some h)
    × (block_num num_of second_block ≤ h.num)
    × (((h.id ≡ 2) × (h.num ≡ block_num num_of second_block) × Below one_block.head h)
        ⊎ (one_block.head ≡ some h))
push_block-head_example = push_block-head num_of second_block one_block two_blocks pushed_second

-- A block that follows none of the known ones, and one that follows it.
abbrev stray_block : SignedBlock
stray_block = record { id = 6; previous = 5 }

abbrev next_stray : SignedBlock
next_stray = record { id = 7; previous = 6 }

push_block-links_example :
    (db : ForkDatabase) × (x : ForkItem) × (push_block num_of second_block one_block ≡ ok db)
    × (find_id 2 db.index ≡ some x)
    × (x.prev ≡ some 0)
    × (x.num ≡ block_num num_of second_block)
unfolding block_num find_id
push_block-links_example =
    push_block-links num_of second_block one_block first_item first_item refl (omega arith)
      (λ e. absurd (omega arith)) refl refl refl

fetch_branch_from_example : Outcome (Branches two_blocks 2 1) (fetch_branch_from 2 1 two_blocks)
fetch_branch_from_example = fetch_branch_from-Branches 2 1 two_blocks two_blocks-IsValid

walk_main_branch_to_num-num_example :
    (walk_main_branch_to_num 1 two_blocks ≡ ok none)
    ⊎ ((y : ForkItem) × (xs : List ForkItem) × (walk_main_branch_to_num 1 two_blocks ≡ ok (some y))
        × (y.num ≡ 1)
        × (1 ≤ 2)
        × Branch two_blocks second_item xs y)
walk_main_branch_to_num-num_example =
    walk_main_branch_to_num-num 1 two_blocks second_item two_blocks-IsValid refl

set_max_size-recent_example :
    ((set_max_size 0 two_blocks).head ≡ some second_item)
    × ((set_max_size 0 two_blocks).max_size ≡ 0)
    × ((set_max_size 0 two_blocks).index ≡ recent 2 (first_item ∷ second_item ∷ []))
    × ((set_max_size 0 two_blocks).unlinked_index ≡ recent 2 [])
unfolding find_id
set_max_size-recent_example =
    set_max_size-recent 0 two_blocks second_item (refl, (refl, tt)) tt refl
