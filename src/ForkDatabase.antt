-- ===== src/ForkDatabase.antt =====
-- libraries/chain/fork_database.cpp: the tree of blocks that may become the main chain.
-- A shared_ptr is the item together with its address, since an item is not changed once it is
-- inserted; a weak_ptr is an address, and `lock` finds it among the items that are still owned.
-- The null block id is 0.
pub mod Links
pub mod Push
pub mod Orphans
pub mod Branch
pub mod Trim
mod Tests
use wenode.Base.{
  ℕ, zero, suc, ◌+◌, ◌-◌, ◌%◌, ◌^◌, Bool, true, false, ◌&&◌, ◌||◌, not, Option, none, some, List,
  [], ◌∷◌, ◌++◌, ltb, leb, ◌==◌, if◌then◌else◌, is_some, length, Result, ok, err, fc_assert,
  unlinkable_block, undefined, assert, assert_or, or_throw, ◌>>=◌, ◌>>◌,
}
use mathlib.Core.Option

-- What the fork database reads of a block: the values of `id()` and of `previous`.
pub record SignedBlock : Type 0 where
  pub id : ℕ
  pub previous : ℕ

pub record ForkItem : Type 0 where
  pub addr : ℕ
  pub prev : Option ℕ
  pub num : ℕ
  pub invalid : Bool
  pub id : ℕ
  pub previous : ℕ

-- `next_addr` is the address that the next allocation returns.
pub record ForkDatabase : Type 0 where
  pub max_size : ℕ
  pub unlinked_index : List ForkItem
  pub index : List ForkItem
  pub head : Option ForkItem
  pub next_addr : ℕ

unfoldable pub find_id : ℕ → List ForkItem → Option ForkItem
find_id i [] = none
find_id i (x ∷ xs) = if x.id == i then some x else find_id i xs

find_addr : ℕ → List ForkItem → Option ForkItem
find_addr a [] = none
find_addr a (x ∷ xs) = if x.addr == a then some x else find_addr a xs

find_previous : ℕ → List ForkItem → Option ForkItem
find_previous i [] = none
find_previous i (x ∷ xs) = if x.previous == i then some x else find_previous i xs

pub find_num : ℕ → List ForkItem → List ForkItem
find_num n [] = []
find_num n (x ∷ xs) = let rest = find_num n xs in if x.num == n then x ∷ rest else rest

-- `_index.insert`: the container refuses a second item with the same id.
pub insert_item : ForkItem → List ForkItem → List ForkItem
unfolding find_id
insert_item x xs = if is_some (find_id x.id xs) then xs else xs ++ x ∷ []

pub erase_id : ℕ → List ForkItem → List ForkItem
erase_id i [] = []
erase_id i (x ∷ xs) = let rest = erase_id i xs in if x.id == i then rest else x ∷ rest

erase_addr : ℕ → List ForkItem → List ForkItem
erase_addr a [] = []
erase_addr a (x ∷ xs) = let rest = erase_addr a xs in if x.addr == a then rest else x ∷ rest

abbrev first_some : Option ForkItem → Option ForkItem → Option ForkItem
first_some (some x) _ = some x
first_some none y = y

abbrev pub head_list : Option ForkItem → List ForkItem
head_list none = []
head_list (some x) = x ∷ []

-- The items that a shared_ptr of the database owns.
pub owned : ForkDatabase → List ForkItem
owned db = db.index ++ db.unlinked_index ++ head_list db.head

lock_addr : ForkDatabase → Option ℕ → Option ForkItem
unfolding find_addr owned
lock_addr db none = none
lock_addr db (some a) = find_addr a (owned db)

-- `item->prev.lock()`
unfoldable pub lock : ForkDatabase → ForkItem → Option ForkItem
unfolding lock_addr
lock db x = lock_addr db x.prev

pub reset : ForkDatabase → ForkDatabase
reset db = record db { head = none; index = [] }

pub pop_block : ForkDatabase → Result ForkDatabase
unfolding lock
pop_block db = do
  head ← or_throw db.head fc_assert
  prev ← or_throw (lock db head) fc_assert
  ok (record db { head = some prev })

-- Both operands of the comparison are int64: `max( 0, head - max_size )` is the difference on ℕ.
oldest_num : ForkDatabase → ForkItem → ℕ
oldest_num db head = head.num - db.max_size

check_age : ForkDatabase → ForkItem → Result (Unit {0})
unfolding oldest_num
check_age db x = elim db.head [ none ↦ ok tt | some head ↦ assert (ltb (oldest_num db head) x.num) ]

link_item : ForkDatabase → ForkItem → Result ForkItem
unfolding find_id
link_item db x =
    if is_some db.head && not (x.previous == 0)
    then (do
      p ← or_throw (find_id x.previous db.index) unlinkable_block
      assert (not p.invalid)
      ok (record x { prev = some p.addr }))
    else ok x

abbrev higher : Option ForkItem → ForkItem → Option ForkItem
higher none x = some x
higher (some head) x = if ltb head.num x.num then some x else some head

-- `_push_block`
pub push_item : ForkDatabase → ForkItem → Result ForkDatabase
unfolding check_age link_item insert_item
push_item db x = do
  check_age db x
  x' ← link_item db x
  ok (record db { index = insert_item x' db.index; head = higher db.head x' })

push_next_loop : ℕ → ℕ → ForkDatabase → Result ForkDatabase
unfolding push_item find_previous erase_addr
push_next_loop zero i db = ok db
push_next_loop (suc n) i db = elim (find_previous i db.unlinked_index) [
  | none ↦ ok db
  | some x ↦ (do
    db' ← push_item (record db { unlinked_index = erase_addr x.addr db.unlinked_index }) x
    push_next_loop n i db')
]

-- `_push_next`: each round takes one item out of the unlinked index.
pub push_next : ForkItem → ForkDatabase → Result ForkDatabase
unfolding push_next_loop
push_next x db = push_next_loop (length db.unlinked_index) x.id db

-- The item with the lowest number, the first of those in the order of insertion.
pub lowest : List ForkItem → Option ForkItem
lowest [] = none
lowest (x ∷ xs) = elim (lowest xs) [
  | none ↦ some x
  | some y ↦ if ltb y.num x.num then some y else some x
]

pub trim : ℕ → ℕ → List ForkItem → List ForkItem
unfolding lowest erase_id
trim zero bound xs = xs
trim (suc n) bound xs = elim (lowest xs) [
  | none ↦ xs
  | some x ↦ (let rest = trim n bound (erase_id x.id xs) in if ltb x.num bound then rest else xs)
]

pub set_max_size : ℕ → ForkDatabase → ForkDatabase
set_max_size s db = elim db.head [
  | none ↦ record db { max_size = s }
  | some head ↦ record db {
    max_size = s;
    index = trim (length db.index) (head.num - s) db.index;
    unlinked_index = trim (length db.unlinked_index) (head.num - s) db.unlinked_index;
  }
]

pub is_known_block : ℕ → ForkDatabase → Bool
is_known_block i db = is_some (find_id i db.index) || is_some (find_id i db.unlinked_index)

pub fetch_block : ℕ → ForkDatabase → Option ForkItem
fetch_block i db = first_some (find_id i db.index) (find_id i db.unlinked_index)

pub fetch_block_by_number : ℕ → ForkDatabase → List ForkItem
unfolding find_num
fetch_block_by_number n db = find_num n db.index

-- `while( branch->num > num ) { out.push_back(branch); branch = branch->prev.lock(); FC_ASSERT(branch); }`
pub descend : ForkDatabase → ℕ → ℕ → ForkItem → Result (List ForkItem × ForkItem)
unfolding lock
descend db zero num x = err undefined
descend db (suc fuel) num x = elim (ltb num x.num) [
  | false ↦ ok ([], x)
  | true ↦ (do p ← or_throw (lock db x) fc_assert; r ← descend db fuel num p; ok (x ∷ r.0, r.1))
]

-- The loop that takes both branches back until they have the same previous block.
pub meet : ForkDatabase → ℕ → ForkItem → ForkItem → Result (List ForkItem × List ForkItem)
unfolding lock
meet db zero x y = err undefined
meet db (suc fuel) x y = elim (x.previous == y.previous) [
  | true ↦ ok (x ∷ [], y ∷ [])
  | false ↦ (do
    p ← or_throw (lock db x) fc_assert
    q ← or_throw (lock db y) fc_assert
    r ← meet db fuel p q
    ok (x ∷ r.0, y ∷ r.1))
]

pub fetch_branch_from : ℕ → ℕ → ForkDatabase → Result (List ForkItem × List ForkItem)
unfolding descend meet
fetch_branch_from first second db = do
  x ← or_throw (find_id first db.index) fc_assert
  y ← or_throw (find_id second db.index) fc_assert
  a ← descend db (suc x.num) y.num x
  b ← descend db (suc y.num) (a.1).num y
  m ← meet db (suc (a.1).num) a.1 b.1
  ok (a.0 ++ m.0, b.0 ++ m.1)

pub walk : ForkDatabase → ℕ → ℕ → ForkItem → Option ForkItem
unfolding lock
walk db zero num x = some x
walk db (suc fuel) num x = elim (ltb num x.num) [
  | false ↦ some x
  | true ↦ elim (lock db x) [ none ↦ none | some p ↦ walk db fuel num p ]
]

pub walk_main_branch_to_num : ℕ → ForkDatabase → Result (Option ForkItem)
unfolding walk
walk_main_branch_to_num num db = do
  next ← or_throw db.head undefined
  if ltb next.num num then ok none else ok (walk db next.num num next)

pub fetch_block_on_main_branch_by_number : ℕ → ForkDatabase → Result (Option ForkItem)
unfolding fetch_block_by_number walk_main_branch_to_num
fetch_block_on_main_branch_by_number num db = elim (fetch_block_by_number num db) [
  | [] ↦ ok none
  | x ∷ [] ↦ ok (some x)
  | x ∷ y ∷ rest ↦ walk_main_branch_to_num num db
]

pub set_head : Option ForkItem → ForkDatabase → ForkDatabase
set_head h db = record db { head = h }

pub remove : ℕ → ForkDatabase → ForkDatabase
remove i db = record db { index = erase_id i db.index }

-- `num_from_id` reads the block number out of a block id, by a byte swap of its first word.
module _ (num_from_id : ℕ → ℕ) where
  pub block_num : SignedBlock → ℕ
  block_num b = (num_from_id b.previous + 1) % 2 ^ 32

  -- `std::make_shared<fork_item>( b )`
  pub make_item : SignedBlock → ℕ → ForkItem
  unfolding block_num
  make_item b addr = record {
    addr = addr;
    prev = none;
    num = block_num b;
    invalid = false;
    id = b.id;
    previous = b.previous;
  }

  pub start_block : SignedBlock → ForkDatabase → ForkDatabase
  unfolding make_item insert_item
  start_block b db =
      let x = make_item b db.next_addr in
      record db { index = insert_item x db.index; head = some x; next_addr = suc db.next_addr }

  -- The result is the head after the push. A block that does not link is thrown back: the line
  -- that would put it into the unlinked index stands behind `throw;`.
  pub push_block : SignedBlock → ForkDatabase → Result ForkDatabase
  unfolding push_item make_item
  push_block b db =
      push_item (record db { next_addr = suc db.next_addr }) (make_item b db.next_addr)
