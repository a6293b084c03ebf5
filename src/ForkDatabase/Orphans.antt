-- ===== src/ForkDatabase/Orphans.antt =====
-- Blocks of a branch whose first parent is not known: none of them is accepted or remembered.
use wenode.Base.{ℕ, ◌≡◌, ◌≢◌, none, List, [], ◌∷◌, Result, ok, err}
use wenode.ForkDatabase.{SignedBlock, ForkItem, ForkDatabase, find_id, push_block}

-- Each block follows the one before it, and the first one a block that is not in the index; nor is
-- any of them but perhaps the last.
pub data Orphans (index : List ForkItem) : ℕ → List SignedBlock → Type 0 where
  no_more : (previous : ℕ) → Orphans index previous []
  orphan :
      (b : SignedBlock) (bs : List SignedBlock)
      → b.previous ≢ 0
      → find_id b.previous index ≡ none
      → Orphans index b.id bs
      → Orphans index b.previous (b ∷ bs)

-- The database after a push, an exception leaving it as it was.
unfoldable kept : ForkDatabase → Result ForkDatabase → ForkDatabase
kept db (err thrown) = db
kept db (ok db') = db'

module _ (num_from_id : ℕ → ℕ) where
  -- Each of the blocks is pushed in turn.
  unfoldable pub push_all : List SignedBlock → ForkDatabase → ForkDatabase
  unfolding kept
  push_all [] db = db
  push_all (b ∷ bs) db = push_all bs (kept db (push_block num_from_id b db))
