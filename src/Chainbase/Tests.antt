-- ===== src/Chainbase/Tests.antt =====
-- The index's theorems at work on a small run: one object, changed and removed in a session.
use wenode.Base.{ℕ, ◌+◌, ◌≡◌, refl, Bool, false, none, some, List, [], ◌∷◌, ◌++◌, ok, arith}
use wenode.Chainbase.{
  insert_object, modify_found, write_object, log_create, UndoState, Objects, GenericIndex, put,
  log_modify, log_remove, merge, undo, commit_stack, emplace, modify, start_undo_session, emplace,
  on_create, on_modify,
}
use wenode.Chainbase.Log.{Logs, untouched, log_modify-Logs, log_remove-Logs}
use wenode.Chainbase.Undo.{undo-rewinds}
use wenode.Chainbase.Squash.{merge-Logs}
use wenode.Chainbase.History.{Snapshot, Refines, bare, commit-Refines, commit_stack-newer}
use wenode.Chainbase.Calls.{
  Call, create, update, start_session, run, perform, Contract, Implements, snapshot, expected,
  expected_run, run-Implements, undo-restores,
}

abbrev never : Objects ℕ → ℕ → ℕ → Bool
never m i v = false

never-false : (m : Objects ℕ) (i v : ℕ) → never m i v ≡ false
never-false m i v = refl

abbrev nothing : Objects ℕ
nothing i = none

abbrev one_object : Objects ℕ
one_object = put 0 (some 7) nothing

abbrev empty_index : GenericIndex ℕ
empty_index = record { stack = []; revision = 0; next_id = 0; indices = nothing }

abbrev empty_contract : Contract ℕ
empty_contract = record { now = snapshot empty_index; past = [] }

empty-Implements : Implements empty_index empty_contract
empty-Implements = record { now = refl; past = bare (λ i l. refl) }

-- A session that has changed the object from 7 to 8.
abbrev changed : UndoState ℕ
changed = record {
  old_values = (0, 7) ∷ [];
  removed_values = [];
  new_ids = [];
  old_next_id = 1;
  revision = 1;
}

abbrev opened : GenericIndex ℕ
opened = record {
  stack = changed ∷ [];
  revision = 1;
  next_id = 1;
  indices = put 0 (some 8) one_object;
}

abbrev to_opened : List (Call ℕ)
to_opened = create (λ i. 7) ∷ start_session ∷ update 0 (λ v. v + 1) ∷ []

abbrev opened_contract : Contract ℕ
opened_contract = record {
  now = snapshot opened;
  past = record { objects = one_object; next_id = 1 } ∷ [];
}

to_opened-opened : run never to_opened empty_index ≡ ok opened
unfolding run perform emplace insert_object modify modify_found write_object on_create on_modify
    log_create log_modify start_undo_session
to_opened-opened = refl

run-Implements_example : Implements opened (expected_run to_opened empty_contract)
run-Implements_example =
    run-Implements never never-false to_opened empty_index opened empty_contract to_opened-opened
      empty-Implements

opened-Implements : Implements opened opened_contract
unfolding expected_run expected
opened-Implements =
    run-Implements never never-false to_opened empty_index opened empty_contract to_opened-opened
      empty-Implements

undo-restores_example :
    (y : GenericIndex ℕ) × (undo never opened ≡ ok y)
    × Implements y (record { now = record { objects = one_object; next_id = 1 }; past = [] })
undo-restores_example = undo-restores never never-false opened opened_contract opened-Implements

commit-Refines_example :
    (kept dropped : List (Snapshot ℕ)) × Refines
      (commit_stack 1 (changed ∷ []))
      (put 0 (some 8) one_object)
      1
      kept
    × (record { objects = one_object; next_id = 1 } ∷ [] ≡ kept ++ dropped)
commit-Refines_example = commit-Refines 1 opened-Implements.past

abbrev older_and_newer : List (UndoState ℕ)
older_and_newer = record changed { revision = 2 } ∷ changed ∷ []

commit_stack-newer_example : commit_stack 1 older_and_newer ≡ record changed { revision = 2 } ∷ []
commit_stack-newer_example = commit_stack-newer 1 older_and_newer (omega arith, tt)

-- An undo state that has recorded nothing.
abbrev fresh_state : UndoState ℕ
fresh_state = record {
  old_values = [];
  removed_values = [];
  new_ids = [];
  old_next_id = 1;
  revision = 1;
}

fresh-Logs : (m : Objects ℕ) → Logs fresh_state m m
fresh-Logs m i = untouched refl refl refl refl

changed-Logs : Logs changed one_object (put 0 (some 8) one_object)
unfolding log_modify
changed-Logs = log_modify-Logs 0 7 8 fresh_state one_object one_object refl (fresh-Logs one_object)

undo-rewinds_example :
    undo never opened ≡ ok (record { stack = []; revision = 0; next_id = 1; indices = one_object })
undo-rewinds_example =
    undo-rewinds never never-false changed [] one_object opened refl
      (record { old = (refl, tt); removed = tt; new = tt }) changed-Logs

-- A newer session that has removed the object.
abbrev erased : UndoState ℕ
erased = record fresh_state { removed_values = (0, 8) ∷ [] }

erased-Logs : Logs erased (put 0 (some 8) one_object) (put 0 none (put 0 (some 8) one_object))
unfolding log_remove
erased-Logs =
    log_remove-Logs 0 8 fresh_state (put 0 (some 8) one_object) (put 0 (some 8) one_object) refl
      (fresh-Logs (put 0 (some 8) one_object))

merge-Logs_example : Logs (merge changed erased) one_object (put 0 none (put 0 (some 8) one_object))
merge-Logs_example =
    merge-Logs changed erased one_object (put 0 (some 8) one_object)
      (put 0 none (put 0 (some 8) one_object)) (refl, tt) (λ i e. absurd (cc)) changed-Logs
      erased-Logs
