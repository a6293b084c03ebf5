-- ===== src/Chainbase/Log.antt =====
-- What an undo state records: for each id, how the objects at its start relate to those of now.
use wenode.Base.{
  ℕ, ◌≡◌, refl, true, false, Option, none, some, ◌==◌, inl, inr, lookup, member,
  lookup-emplace_entry_self, lookup-emplace_entry_ne, lookup-erase_entry, member-insert_id,
  member-erase_id, Option-cases, Bool-cases, ==_iff, arith,
}
use wenode.Chainbase.{UndoState, Objects, put, log_create, log_modify, log_remove}

-- The four rows of the table in `squash`: new, upd(was=w), del(was=w) and nop.
pub data Entry {ℓ} {V : Type ℓ} (i : ℕ) (head : UndoState V) (before now : Option V) : Type ℓ where
  created :
      (v : V)
      → member i head.new_ids ≡ true
      → lookup i head.old_values ≡ none
      → lookup i head.removed_values ≡ none
      → before ≡ none
      → now ≡ some v
      → Entry i head before now
  updated :
      (w v : V)
      → member i head.new_ids ≡ false
      → lookup i head.old_values ≡ some w
      → lookup i head.removed_values ≡ none
      → before ≡ some w
      → now ≡ some v
      → Entry i head before now
  deleted :
      (w : V)
      → member i head.new_ids ≡ false
      → lookup i head.old_values ≡ none
      → lookup i head.removed_values ≡ some w
      → before ≡ some w
      → now ≡ none
      → Entry i head before now
  untouched :
      member i head.new_ids ≡ false
      → lookup i head.old_values ≡ none
      → lookup i head.removed_values ≡ none
      → now ≡ before
      → Entry i head before now

abbrev pub Logs {ℓ} : {V : Type ℓ} → UndoState V → Objects V → Objects V → Type ℓ
Logs head before now = (i : ℕ) → Entry i head (before i) (now i)

module _ {ℓ} {V : Type ℓ} where
  -- Two states that agree on an id record the same about it.
  pub Entry-agree :
      {i : ℕ} {h k : UndoState V} {before now now' : Option V}
      → member i k.new_ids ≡ member i h.new_ids
      → lookup i k.old_values ≡ lookup i h.old_values
      → lookup i k.removed_values ≡ lookup i h.removed_values
      → now' ≡ now
      → Entry i h before now
      → Entry i k before now'
  Entry-agree n o r e (created v a b c d f) = created v (cc) (cc) (cc) d (cc)
  Entry-agree n o r e (updated w v a b c d f) = updated w v (cc) (cc) (cc) d (cc)
  Entry-agree n o r e (deleted w a b c d f) = deleted w (cc) (cc) (cc) d (cc)
  Entry-agree n o r e (untouched a b c d) = untouched (cc) (cc) (cc) (cc)

  log_create-Entry :
      (i : ℕ) (v : V) (h : UndoState V) {before now : Option V}
      → before ≡ none
      → now ≡ none
      → Entry i h before now
      → Entry i (log_create i h) before (some v)
  unfolding log_create
  log_create-Entry i v h b n (created u _ _ _ _ e) = absurd (cc)
  log_create-Entry i v h b n (updated w u _ _ _ e _) = absurd (cc)
  log_create-Entry i v h b n (deleted w _ _ _ e _) = absurd (cc)
  log_create-Entry i v h b n (untouched x y z _) =
      created v (ground (arith, member-insert_id i i h.new_ids)) y z b refl

  log_modify-Entry :
      (i : ℕ) (u v : V) (h : UndoState V) {before now : Option V}
      → now ≡ some u
      → Entry i h before now
      → Entry i (log_modify i u h) before (some v)
  unfolding log_modify
  log_modify-Entry i u v h n (created _ x y z b e) =
      created v (ground arith) (ground arith) (ground arith) b refl
  log_modify-Entry i u v h n (updated w _ x y z b e) =
      updated w v (ground arith) (ground arith) (ground arith) b refl
  log_modify-Entry i u v h n (deleted w _ _ _ _ e) = absurd (cc)
  log_modify-Entry i u v h n (untouched x y z e) =
      updated u v (ground arith) (ground (arith, lookup-emplace_entry_self i u h.old_values))
        (ground arith) (cc) refl

  log_remove-Entry :
      (i : ℕ) (u : V) (h : UndoState V) {before now : Option V}
      → now ≡ some u
      → Entry i h before now
      → Entry i (log_remove i u h) before none
  unfolding log_remove
  log_remove-Entry i u h n (created _ x y z b e) =
      untouched (ground (arith, member-erase_id i i h.new_ids)) (ground arith) (ground arith) (cc)
  log_remove-Entry i u h n (updated w _ x y z b e) =
      deleted w (ground arith) (ground (arith, lookup-erase_entry i i h.old_values))
        (ground (arith, lookup-emplace_entry_self i w h.removed_values)) b refl
  log_remove-Entry i u h n (deleted w _ _ _ _ e) = absurd (cc)
  log_remove-Entry i u h n (untouched x y z e) =
      deleted u (ground arith) (ground arith)
        (ground (arith, lookup-emplace_entry_self i u h.removed_values)) (cc) refl

  -- Whatever an operation does at one id, the others keep their entries.
  at-id :
      (i : ℕ) (o : Option V) (k : UndoState V) (before m : Objects V)
      → Entry i k (before i) o
      → ((j : ℕ) → (j == i) ≡ false → Entry j k (before j) (m j))
      → Logs k before (put i o m)
  at-id i o k before m here others j = elim (Bool-cases (j == i)) [
    | inl e ↦ let ji : j ≡ i = (==_iff j i).0 e in rw ji (rw ((==_iff i i).1 refl) here)
    | inr e ↦ rw e (others j e)
  ]

  pub log_create-Logs :
      (i : ℕ) (v : V) (h : UndoState V) (before m : Objects V)
      → before i ≡ none
      → m i ≡ none
      → Logs h before m
      → Logs (log_create i h) before (put i (some v) m)
  log_create-Logs i v h before m b e logs =
      at-id i (some v) (log_create i h) before m (log_create-Entry i v h b e (logs i)) λ j ne.
        Entry-agree {h = h} (unfold log_create in (ground (arith, member-insert_id i j h.new_ids)))
          (unfold log_create in refl) (unfold log_create in refl) refl (logs j)

  pub log_modify-Logs :
      (i : ℕ) (u v : V) (h : UndoState V) (before m : Objects V)
      → m i ≡ some u
      → Logs h before m
      → Logs (log_modify i u h) before (put i (some v) m)
  log_modify-Logs i u v h before m e logs =
      at-id i (some v) (log_modify i u h) before m (log_modify-Entry i u v h e (logs i)) λ j ne.
        Entry-agree {h = h} (unfold log_modify in ground arith)
          (unfold log_modify in (ground (arith, lookup-emplace_entry_ne i j u h.old_values)))
          (unfold log_modify in ground arith) refl (logs j)

  log_remove-other :
      (i j : ℕ) (u : V) (h : UndoState V)
      → (j == i) ≡ false
      → (member j (log_remove i u h).new_ids ≡ member j h.new_ids)
        × (lookup j (log_remove i u h).old_values ≡ lookup j h.old_values)
        × (lookup j (log_remove i u h).removed_values ≡ lookup j h.removed_values)
  unfolding log_remove
  log_remove-other i j u h ne = elim (Option-cases (lookup i h.old_values)) [
    | inl n ↦
        ground
          (arith, member-erase_id i j h.new_ids, lookup-emplace_entry_ne i j u h.removed_values)
    | inr (w, s) ↦ ground (
      arith,
      member-erase_id i j h.new_ids,
      lookup-erase_entry i j h.old_values,
      lookup-emplace_entry_ne i j w h.removed_values,
    )
  ]

  pub log_remove-Logs :
      (i : ℕ) (u : V) (h : UndoState V) (before m : Objects V)
      → m i ≡ some u
      → Logs h before m
      → Logs (log_remove i u h) before (put i none m)
  log_remove-Logs i u h before m e logs =
      at-id i none (log_remove i u h) before m (log_remove-Entry i u h e (logs i))
        λ j ne. let f = log_remove-other i j u h ne in Entry-agree f.0 f.1 f.2 refl (logs j)
