-- ===== src/Chainbase.antt =====
-- `generic_index` of libraries/chainbase/include/chainbase/chainbase.hpp: the object index with
-- its undo stack. An object is its id and a payload of type `V`; the multi_index container is the
-- map from ids to payloads, with its other uniqueness constraints as the parameter `clash`.
-- The deque `_stack` is a list whose head is its back (the newest state).
pub mod Log
pub mod Undo
pub mod Squash
pub mod History
pub mod Calls
mod Tests
use wenode.Base.{
  ℕ, suc, ◌-◌, Bool, true, false, ◌&&◌, ◌||◌, not, Option, none, some, List, [], ◌∷◌, ltb, leb,
  ◌==◌, if◌then◌else◌, is_some, is_empty, Dict, lookup, emplace_entry, erase_entry, member,
  insert_id, erase_id, length, Result, ok, err, logic_error, out_of_range, undefined, ◌>>=◌,
}

pub record UndoState {ℓ} (V : Type ℓ) : Type ℓ where
  pub old_values : Dict V
  pub removed_values : Dict V
  pub new_ids : List ℕ
  pub old_next_id : ℕ
  pub revision : ℕ

abbrev pub Objects {ℓ} : Type ℓ → Type ℓ
Objects V = ℕ → Option V

pub record GenericIndex {ℓ} (V : Type ℓ) : Type ℓ where
  pub stack : List (UndoState V)
  pub revision : ℕ
  pub next_id : ℕ
  pub indices : Objects V

module _ {ℓ} {V : Type ℓ} where
  abbrev pub put : ℕ → Option V → Objects V → Objects V
  put i o m j = if j == i then o else m j

  pub log_create : ℕ → UndoState V → UndoState V
  log_create i head = record head { new_ids = insert_id i head.new_ids }

  pub log_modify : ℕ → V → UndoState V → UndoState V
  log_modify i v head =
      if member i head.new_ids
      then head
      else if is_some (lookup i head.old_values)
      then head
      else record head { old_values = emplace_entry i v head.old_values }

  -- The end of `on_remove`, after the search in `old_values`.
  log_removed : ℕ → V → UndoState V → Option V → UndoState V
  log_removed i v head (some old) = record head {
    removed_values = emplace_entry i old head.removed_values;
    old_values = erase_entry i head.old_values;
  }
  log_removed i v head none =
      if is_some (lookup i head.removed_values)
      then head
      else record head { removed_values = emplace_entry i v head.removed_values }

  pub log_remove : ℕ → V → UndoState V → UndoState V
  unfolding log_removed
  log_remove i v head =
      if member i head.new_ids
      then record head { new_ids = erase_id i head.new_ids }
      else log_removed i v head (lookup i head.old_values)

  -- `if( !enabled() ) return; auto& head = _stack.back(); …`
  abbrev pub at_back : (UndoState V → UndoState V) → List (UndoState V) → List (UndoState V)
  at_back f [] = []
  at_back f (head ∷ rest) = f head ∷ rest

  pub on_create : ℕ → GenericIndex V → GenericIndex V
  on_create i x = record x { stack = at_back (log_create i) x.stack }

  pub on_modify : ℕ → V → GenericIndex V → GenericIndex V
  on_modify i v x = record x { stack = at_back (log_modify i v) x.stack }

  pub on_remove : ℕ → V → GenericIndex V → GenericIndex V
  on_remove i v x = record x { stack = at_back (log_remove i v) x.stack }

  pub start_undo_session : GenericIndex V → GenericIndex V
  start_undo_session x = record x {
    stack =
        record {
          old_values = [];
          removed_values = [];
          new_ids = [];
          old_next_id = x.next_id;
          revision = suc x.revision;
        }
        ∷ x.stack;
    revision = suc x.revision;
  }

  -- The three loops of `squash`, over the newer state's containers.
  pub merge_old_item : ℕ → V → UndoState V → UndoState V
  merge_old_item i v prev =
      if member i prev.new_ids
      then prev
      else if is_some (lookup i prev.old_values)
      then prev
      else record prev { old_values = emplace_entry i v prev.old_values }

  pub merge_old : Dict V → UndoState V → UndoState V
  merge_old [] prev = prev
  merge_old ((i, v) ∷ items) prev = merge_old items (merge_old_item i v prev)

  pub merge_new : List ℕ → UndoState V → UndoState V
  merge_new [] prev = prev
  merge_new (i ∷ ids) prev = merge_new ids (record prev { new_ids = insert_id i prev.new_ids })

  merge_removed_known : ℕ → V → UndoState V → Option V → UndoState V
  merge_removed_known i v prev (some old) = record prev {
    removed_values = emplace_entry i old prev.removed_values;
    old_values = erase_entry i prev.old_values;
  }
  merge_removed_known i v prev none = record prev {
    removed_values = emplace_entry i v prev.removed_values;
  }

  pub merge_removed_item : ℕ → V → UndoState V → UndoState V
  unfolding merge_removed_known
  merge_removed_item i v prev =
      if member i prev.new_ids
      then record prev { new_ids = erase_id i prev.new_ids }
      else merge_removed_known i v prev (lookup i prev.old_values)

  pub merge_removed : Dict V → UndoState V → UndoState V
  merge_removed [] prev = prev
  merge_removed ((i, v) ∷ items) prev = merge_removed items (merge_removed_item i v prev)

  pub merge : UndoState V → UndoState V → UndoState V
  merge prev state =
      merge_removed state.removed_values (merge_new state.new_ids (merge_old state.old_values prev))

  squash_stack : List (UndoState V) → GenericIndex V → GenericIndex V
  squash_stack [] x = x
  squash_stack (state ∷ []) x = record x { stack = [] }
  squash_stack (state ∷ prev ∷ rest) x = record x {
    stack = merge prev state ∷ rest;
    revision = x.revision - 1;
  }

  pub squash : GenericIndex V → GenericIndex V
  unfolding squash_stack
  squash x = squash_stack x.stack x

  -- `pop_front` while the oldest state's revision is at most the given one.
  pub commit_stack : ℕ → List (UndoState V) → List (UndoState V)
  commit_stack revision [] = []
  commit_stack revision (s ∷ older) =
      let kept = commit_stack revision older in
      if is_empty kept && leb s.revision revision then [] else s ∷ kept

  pub commit : ℕ → GenericIndex V → GenericIndex V
  unfolding commit_stack
  commit revision x = record x { stack = commit_stack revision x.stack }

  pub set_revision : ℕ → GenericIndex V → Result (GenericIndex V)
  set_revision revision x =
      if is_empty x.stack then ok (record x { revision = revision }) else err logic_error

-- The operations that write to the container. `clash m i v` tells whether an object with id `i`
-- and payload `v` breaks a uniqueness constraint of another key against the objects of `m`.
module _ {ℓ} {V : Type ℓ} (clash : Objects V → ℕ → V → Bool) where
  insert_object : ℕ → V → Objects V → Result (Objects V)
  insert_object i v m =
      if is_some (m i) || clash m i v then err logic_error else ok (put i (some v) m)

  -- `_indices.modify`, which looks for a clash with the other objects.
  write_object : ℕ → V → Objects V → Result (Objects V)
  write_object i v m =
      if not (is_some (m i))
      then err undefined
      else if clash (put i none m) i v
      then err logic_error
      else ok (put i (some v) m)

  erase_object : ℕ → Objects V → Result (Objects V)
  erase_object i m = if is_some (m i) then ok (put i none m) else err undefined

  pub emplace : (ℕ → V) → GenericIndex V → Result (GenericIndex V)
  unfolding insert_object
  emplace constructor x = do
    m ← insert_object x.next_id (constructor x.next_id) x.indices
    ok (on_create x.next_id (record x { indices = m; next_id = suc x.next_id }))

  modify_found : ℕ → (V → V) → GenericIndex V → Option V → Result (GenericIndex V)
  unfolding write_object
  modify_found i modifier x none = err out_of_range
  modify_found i modifier x (some v) = do
    m ← write_object i (modifier v) x.indices
    ok (record (on_modify i v x) { indices = m })

  pub modify : ℕ → (V → V) → GenericIndex V → Result (GenericIndex V)
  unfolding modify_found
  modify i modifier x = modify_found i modifier x (x.indices i)

  remove_found : ℕ → GenericIndex V → Option V → Result (GenericIndex V)
  unfolding erase_object
  remove_found i x none = err out_of_range
  remove_found i x (some v) = do
    m ← erase_object i x.indices
    ok (record (on_remove i v x) { indices = m })

  pub remove_object : ℕ → GenericIndex V → Result (GenericIndex V)
  unfolding remove_found
  remove_object i x = remove_found i x (x.indices i)

  -- The three loops of `undo`.
  pub restore_old : Dict V → Objects V → Result (Objects V)
  unfolding write_object
  restore_old [] m = ok m
  restore_old ((i, v) ∷ items) m = do m' ← write_object i v m; restore_old items m'

  pub erase_new : List ℕ → Objects V → Result (Objects V)
  unfolding erase_object
  erase_new [] m = ok m
  erase_new (i ∷ ids) m = do m' ← erase_object i m; erase_new ids m'

  pub restore_removed : Dict V → Objects V → Result (Objects V)
  unfolding insert_object
  restore_removed [] m = ok m
  restore_removed ((i, v) ∷ items) m = do m' ← insert_object i v m; restore_removed items m'

  undo_stack : List (UndoState V) → GenericIndex V → Result (GenericIndex V)
  unfolding restore_old erase_new restore_removed
  undo_stack [] x = ok x
  undo_stack (head ∷ rest) x = do
    m₁ ← restore_old head.old_values x.indices
    m₂ ← erase_new head.new_ids m₁
    m₃ ← restore_removed head.removed_values m₂
    ok (record x {
      stack = rest;
      revision = x.revision - 1;
      next_id = head.old_next_id;
      indices = m₃;
    })

  pub undo : GenericIndex V → Result (GenericIndex V)
  unfolding undo_stack
  undo x = undo_stack x.stack x

  undo_times : ℕ → GenericIndex V → Result (GenericIndex V)
  undo_times ℕ.zero x = ok x
  undo_times (suc n) x = do y ← undo x; undo_times n y

  -- `while( enabled() ) undo();`: each round takes one state off the stack.
  pub undo_all : GenericIndex V → Result (GenericIndex V)
  unfolding undo_times
  undo_all x = undo_times (length x.stack) x
