-- ===== src/Chainbase/Undo.antt =====
-- `undo` takes an index back to the objects at the start of the newest session.
use wenode.Base.{
  ℕ, ◌-◌, ◌≡◌, ◌≢◌, refl, ◌∙◌, ap, fun_ext, Bool, true, false, Option, none, some, List, [], ◌∷◌,
  if◌then◌else◌, Dict, lookup, member, emplace_entry, erase_entry, insert_id, erase_id,
  Option-cases, inl, inr, ok, lookup-erase_entry, member-erase_id, arith,
}
use wenode.Chainbase.{
  UndoState, Objects, GenericIndex, put, log_create, log_modify, log_remove, restore_old, erase_new,
  restore_removed, undo, undo_stack, write_object, erase_object, insert_object,
}
use wenode.Chainbase.Log.{Entry, created, updated, deleted, untouched, Logs}

module _ {ℓ} {V : Type ℓ} where
  -- No key stands twice.
  abbrev pub IsUnique : Dict V → Type ℓ
  IsUnique [] = Unit
  IsUnique ((i, v) ∷ d) = (lookup i d ≡ none) × IsUnique d

abbrev pub IsUniqueIds : List ℕ → Type 0
IsUniqueIds [] = Unit
IsUniqueIds (i ∷ s) = (member i s ≡ false) × IsUniqueIds s

pub record Distinct {ℓ} {V : Type ℓ} (h : UndoState V) : Type ℓ where
  pub old : IsUnique h.old_values
  pub removed : IsUnique h.removed_values
  pub new : IsUniqueIds h.new_ids

pub insert_id-IsUniqueIds : (i : ℕ) (s : List ℕ) → IsUniqueIds s → IsUniqueIds (insert_id i s)
insert_id-IsUniqueIds i s u = ground arith

pub erase_id-IsUniqueIds : (i : ℕ) (s : List ℕ) → IsUniqueIds s → IsUniqueIds (erase_id i s)
erase_id-IsUniqueIds i [] u = tt
erase_id-IsUniqueIds i (j ∷ s) u =
    ground (arith, erase_id-IsUniqueIds i s u.1, member-erase_id i j s)

module _ {ℓ} {V : Type ℓ} where
  pub emplace_entry-IsUnique :
      (i : ℕ) (v : V) (d : Dict V) → IsUnique d → IsUnique (emplace_entry i v d)
  emplace_entry-IsUnique i v d u = ground arith

  pub erase_entry-IsUnique : (i : ℕ) (d : Dict V) → IsUnique d → IsUnique (erase_entry i d)
  erase_entry-IsUnique i [] u = tt
  erase_entry-IsUnique i ((j, v) ∷ d) u =
      ground (arith, erase_entry-IsUnique i d u.1, lookup-erase_entry i j d)

  pub log_create-Distinct : (i : ℕ) (h : UndoState V) → Distinct h → Distinct (log_create i h)
  unfolding log_create
  log_create-Distinct i h d = record {
    old = d.old;
    removed = d.removed;
    new = insert_id-IsUniqueIds i _ d.new;
  }

  pub log_modify-Distinct :
      (i : ℕ) (v : V) (h : UndoState V) → Distinct h → Distinct (log_modify i v h)
  unfolding log_modify
  log_modify-Distinct i v h d = ground (arith, emplace_entry-IsUnique i v h.old_values d.old)

  pub log_remove-Distinct :
      (i : ℕ) (v : V) (h : UndoState V) → Distinct h → Distinct (log_remove i v h)
  unfolding log_remove
  log_remove-Distinct i v h d = elim (Option-cases (lookup i h.old_values)) [
    | inl e ↦ ground (
      arith,
      erase_id-IsUniqueIds i h.new_ids d.new,
      emplace_entry-IsUnique i v h.removed_values d.removed,
    )
    | inr (w, e) ↦ ground (
      arith,
      erase_id-IsUniqueIds i h.new_ids d.new,
      erase_entry-IsUnique i h.old_values d.old,
      emplace_entry-IsUnique i w h.removed_values d.removed,
    )
  ]

  -- The objects with the entries of a map written over them.
  abbrev overlay : Dict V → Objects V → Objects V
  overlay d m j = elim (lookup j d) [ none ↦ m j | some v ↦ some v ]

  abbrev without : List ℕ → Objects V → Objects V
  without s m j = if member j s then none else m j

  -- What the three loops of `undo` make of the objects.
  abbrev rewound : UndoState V → Objects V → Objects V
  rewound h m = overlay h.removed_values (without h.new_ids (overlay h.old_values m))

  Entry-restorable :
      {i : ℕ} {h : UndoState V} {before : Option V} (m : Objects V)
      → Entry i h before (m i)
      → (lookup i h.old_values ≢ none → m i ≢ none)
        × (member i h.new_ids ≡ true → overlay h.old_values m i ≢ none)
        × (lookup i h.removed_values ≢ none → without h.new_ids (overlay h.old_values m) i ≡ none)
        × (rewound h m i ≡ before)
  Entry-restorable m (created v a b c d e) =
      (ground arith, ground arith, ground arith, ground arith)
  Entry-restorable m (updated w v a b c d e) =
      (ground arith, ground arith, ground arith, ground arith)
  Entry-restorable m (deleted w a b c d e) =
      (ground arith, ground arith, ground arith, ground arith)
  Entry-restorable m (untouched a b c d) = (ground arith, ground arith, ground arith, ground arith)

  overlay-cons :
      (i : ℕ) (v : V) (d : Dict V) (m : Objects V) (j : ℕ)
      → lookup i d ≡ none
      → overlay d (put i (some v) m) j ≡ overlay ((i, v) ∷ d) m j
  overlay-cons i v d m j e = ground arith

  without-cons :
      (i : ℕ) (s : List ℕ) (m : Objects V) (j : ℕ)
      → without s (put i none m) j ≡ without (i ∷ s) m j
  without-cons i s m j = ground arith

  module _ (clash : Objects V → ℕ → V → Bool)
      (no_clash : (m : Objects V) (i : ℕ) (v : V) → clash m i v ≡ false) where
    write_object-eq :
        (i : ℕ) (v : V) (m : Objects V)
        → m i ≢ none
        → write_object clash i v m ≡ ok (put i (some v) m)
    unfolding write_object
    write_object-eq i v m h = ground (arith, no_clash (put i none m) i v)

    erase_object-eq :
        (i : ℕ) (m : Objects V) → m i ≢ none → erase_object clash i m ≡ ok (put i none m)
    unfolding erase_object
    erase_object-eq i m h = ground arith

    insert_object-eq :
        (i : ℕ) (v : V) (m : Objects V)
        → m i ≡ none
        → insert_object clash i v m ≡ ok (put i (some v) m)
    unfolding insert_object
    insert_object-eq i v m h = ground (arith, no_clash m i v)

    pub restore_old-overlay :
        (d : Dict V) (m : Objects V)
        → IsUnique d
        → ((i : ℕ) → lookup i d ≢ none → m i ≢ none)
        → restore_old clash d m ≡ ok (overlay d m)
    unfolding restore_old
    restore_old-overlay [] m u h = refl
    restore_old-overlay ((i, v) ∷ d) m u h = rw (write_object-eq i v m (h i (ground arith))) (
        restore_old-overlay d (put i (some v) m) u.1 (λ j e. ground (arith, h j))
        ∙ ap ok (fun_ext λ j. overlay-cons i v d m j u.0))

    pub erase_new-without :
        (s : List ℕ) (m : Objects V)
        → IsUniqueIds s
        → ((i : ℕ) → member i s ≡ true → m i ≢ none)
        → erase_new clash s m ≡ ok (without s m)
    unfolding erase_new
    erase_new-without [] m u h = refl
    erase_new-without (i ∷ s) m u h = rw (erase_object-eq i m (h i (ground arith))) (
        erase_new-without s (put i none m) u.1
          (λ j e. ground (arith, h j, ap (λ (k : ℕ). member k s) {x = j} {y = i}))
        ∙ ap ok (fun_ext λ j. without-cons i s m j))

    pub restore_removed-overlay :
        (d : Dict V) (m : Objects V)
        → IsUnique d
        → ((i : ℕ) → lookup i d ≢ none → m i ≡ none)
        → restore_removed clash d m ≡ ok (overlay d m)
    unfolding restore_removed
    restore_removed-overlay [] m u h = refl
    restore_removed-overlay ((i, v) ∷ d) m u h = rw (insert_object-eq i v m (h i (ground arith))) (
        restore_removed-overlay d (put i (some v) m) u.1 (λ j e. ground (arith, h j, u.0))
        ∙ ap ok (fun_ext λ j. overlay-cons i v d m j u.0))

    -- `undo` pops the newest state, and puts the objects and the next id back.
    pub undo-rewinds :
        (h : UndoState V) (rest : List (UndoState V)) (before : Objects V) (x : GenericIndex V)
        → x.stack ≡ h ∷ rest
        → Distinct h
        → Logs h before x.indices
        → undo clash x
          ≡ ok (record {
            stack = rest;
            revision = x.revision - 1;
            next_id = h.old_next_id;
            indices = before;
          })
    unfolding undo
    undo-rewinds h rest before x e d logs =
        rw (e, undo_stack)
          (rw
            (restore_old-overlay h.old_values x.indices d.old
              (λ i. (Entry-restorable x.indices (logs i)).0))
            (rw
              (erase_new-without h.new_ids (overlay h.old_values x.indices) d.new
                (λ i. (Entry-restorable x.indices (logs i)).1))
              (rw
                (restore_removed-overlay h.removed_values
                  (without h.new_ids (overlay h.old_values x.indices)) d.removed
                  (λ i. (Entry-restorable x.indices (logs i)).2))
                (ap
                  (λ (m : Objects V). ok (record {
                    stack = rest;
                    revision = x.revision - 1;
                    next_id = h.old_next_id;
                    indices = m;
                  }))
                  (fun_ext λ i. (Entry-restorable x.indices (logs i)).3)))))
