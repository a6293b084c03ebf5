-- ===== src/Chainbase/History.antt =====
-- The undo stack against its contract: a list of snapshots, of which `undo` restores the newest,
-- `squash` forgets the newest and `commit` forgets the oldest.
use wenode.Base.{
  ℕ, suc, ◌≤◌, ◌<◌, ◌≡◌, refl, ◌∙◌, ap, true, Option, none, some, List, [], ◌∷◌, ◌++◌,
  if◌then◌else◌, member, lookup, member-insert_id, member-erase_id, Option-cases, Bool-cases,
  is_empty, leb, ◌&&◌, inl, inr, arith,
}
use wenode.Chainbase.{
  UndoState, Objects, put, at_back, log_create, log_modify, log_remove, merge, commit_stack,
}
use wenode.Chainbase.Log.{Logs, log_create-Logs, log_modify-Logs, log_remove-Logs}
use wenode.Chainbase.Undo.{Distinct, log_create-Distinct, log_modify-Distinct, log_remove-Distinct}
use wenode.Chainbase.Squash.{merge-Logs, merge-Distinct, merge-new}

pub record Snapshot {ℓ} (V : Type ℓ) : Type ℓ where
  pub objects : Objects V
  pub next_id : ℕ

abbrev pub IsFresh {ℓ} : {V : Type ℓ} → Objects V → ℕ → Type ℓ
IsFresh m n = (i : ℕ) → n ≤ i → m i ≡ none

-- The undo state leads from the present objects back to the snapshot.
pub record Keeps {ℓ} {V : Type ℓ} (h : UndoState V) (s : Snapshot V) (m : Objects V) : Type ℓ where
  pub distinct : Distinct h
  pub logs : Logs h s.objects m
  pub next : h.old_next_id ≡ s.next_id
  pub ids : (i : ℕ) → member i h.new_ids ≡ true → s.next_id ≤ i

pub data Refines {ℓ} {V : Type ℓ}
    : List (UndoState V) → Objects V → ℕ → List (Snapshot V) → Type ℓ where
  bare : {m : Objects V} {n : ℕ} → IsFresh m n → Refines [] m n []
  session :
      {h : UndoState V} {rest : List (UndoState V)} {m : Objects V} {n : ℕ} {s : Snapshot V}
      {past : List (Snapshot V)}
      → Keeps h s m
      → IsFresh m n
      → s.next_id ≤ n
      → Refines rest s.objects s.next_id past
      → Refines (h ∷ rest) m n (s ∷ past)

module _ {ℓ} {V : Type ℓ} where
  pub Refines-IsFresh :
      {stack : List (UndoState V)} {m : Objects V} {n : ℕ} {past : List (Snapshot V)}
      → Refines stack m n past
      → IsFresh m n
  Refines-IsFresh (bare f) = f
  Refines-IsFresh (session k f l r) = f

  put-IsFresh :
      (i : ℕ) (o : Option V) (m : Objects V) {n : ℕ}
      → suc i ≤ n
      → IsFresh m n
      → IsFresh (put i o m) n
  put-IsFresh i o m l f j h = ground (arith, f j)

  log_create-Keeps :
      (v : V) (h : UndoState V) (s : Snapshot V) (m : Objects V) (n : ℕ)
      → IsFresh m n
      → IsFresh s.objects s.next_id
      → s.next_id ≤ n
      → Keeps h s m
      → Keeps (log_create n h) s (put n (some v) m)
  log_create-Keeps v h s m n f g l k = record {
    distinct = log_create-Distinct n h k.distinct;
    logs = log_create-Logs n v h s.objects m (g n l) (f n (omega arith)) k.logs;
    next = unfold log_create in k.next;
    ids = λ j e. unfold log_create in (ground (arith, k.ids j, member-insert_id n j h.new_ids, e));
  }

  log_modify-Keeps :
      (i : ℕ) (u v : V) (h : UndoState V) (s : Snapshot V) (m : Objects V)
      → m i ≡ some u
      → Keeps h s m
      → Keeps (log_modify i u h) s (put i (some v) m)
  log_modify-Keeps i u v h s m f k = record {
    distinct = log_modify-Distinct i u h k.distinct;
    logs = log_modify-Logs i u v h s.objects m f k.logs;
    next = unfold log_modify in (ground (arith, k.next));
    ids = λ j e. unfold log_modify in (ground (arith, k.ids j, e));
  }

  log_remove-frame :
      (i j : ℕ) (u : V) (h : UndoState V)
      → ((log_remove i u h).old_next_id ≡ h.old_next_id)
        × (member j (log_remove i u h).new_ids ≡ true → member j h.new_ids ≡ true)
  unfolding log_remove
  log_remove-frame i j u h = elim (Option-cases (lookup i h.old_values)) [
    | inl n ↦ ground (arith, member-erase_id i j h.new_ids)
    | inr (w, s) ↦ ground (arith, member-erase_id i j h.new_ids)
  ]

  log_remove-Keeps :
      (i : ℕ) (u : V) (h : UndoState V) (s : Snapshot V) (m : Objects V)
      → m i ≡ some u
      → Keeps h s m
      → Keeps (log_remove i u h) s (put i none m)
  log_remove-Keeps i u h s m f k = record {
    distinct = log_remove-Distinct i u h k.distinct;
    logs = log_remove-Logs i u h s.objects m f k.logs;
    next = (log_remove-frame i i u h).0 ∙ k.next;
    ids = λ j e. k.ids j ((log_remove-frame i j u h).1 e);
  }

  -- A new object, a changed one and a removed one leave the snapshots alone.
  pub create-Refines :
      (v : V) {stack : List (UndoState V)} {m : Objects V} {n : ℕ} {past : List (Snapshot V)}
      → Refines stack m n past
      → Refines (at_back (log_create n) stack) (put n (some v) m) (suc n) past
  create-Refines v {m} {n} (bare f) =
      bare (put-IsFresh n (some v) m (omega arith) λ i l. f i (omega arith))
  create-Refines v {m} {n} (session {h = h} {s = s} k f l r) =
      session (log_create-Keeps v h s m n f (Refines-IsFresh r) l k)
        (put-IsFresh n (some v) m (omega arith) λ i g. f i (omega arith)) (omega arith) r

  below-next : {m : Objects V} {n : ℕ} (i : ℕ) (u : V) → IsFresh m n → m i ≡ some u → suc i ≤ n
  below-next {m} {n} i u f e = ground (arith, f i)

  pub modify-Refines :
      (i : ℕ) (u v : V) {stack : List (UndoState V)} {m : Objects V} {n : ℕ}
      {past : List (Snapshot V)}
      → m i ≡ some u
      → Refines stack m n past
      → Refines (at_back (log_modify i u) stack) (put i (some v) m) n past
  modify-Refines i u v {m = m} e (bare f) = bare (put-IsFresh i (some v) m (below-next i u f e) f)
  modify-Refines i u v {m = m} e (session {h = h} {s = s} k f l r) =
      session (log_modify-Keeps i u v h s m e k) (put-IsFresh i (some v) m (below-next i u f e) f) l
        r

  pub remove-Refines :
      (i : ℕ) (u : V) {stack : List (UndoState V)} {m : Objects V} {n : ℕ}
      {past : List (Snapshot V)}
      → m i ≡ some u
      → Refines stack m n past
      → Refines (at_back (log_remove i u) stack) (put i none m) n past
  remove-Refines i u {m = m} e (bare f) = bare (put-IsFresh i none m (below-next i u f e) f)
  remove-Refines i u {m = m} e (session {h = h} {s = s} k f l r) =
      session (log_remove-Keeps i u h s m e k) (put-IsFresh i none m (below-next i u f e) f) l r

  -- Merging the two newest states forgets the snapshot between them.
  merge-Keeps :
      (a b : UndoState V) (s t : Snapshot V) (m : Objects V)
      → IsFresh s.objects s.next_id
      → s.next_id ≤ t.next_id
      → Keeps a s t.objects
      → Keeps b t m
      → Keeps (merge a b) s m
  merge-Keeps a b s t m f l ka kb = record {
    distinct = merge-Distinct a b ka.distinct;
    logs =
        merge-Logs a b s.objects t.objects m kb.distinct.removed
          (λ i e. f i (omega (arith, kb.ids i e))) ka.logs kb.logs;
    next = (merge-new 0 a b).1 ∙ ka.next;
    ids = λ j e. ground (arith, (merge-new j a b).0 e, ka.ids j, kb.ids j);
  }

  pub merge-Refines :
      {a b : UndoState V} {rest : List (UndoState V)} {m : Objects V} {n : ℕ} {s t : Snapshot V}
      {past : List (Snapshot V)}
      → Refines (b ∷ a ∷ rest) m n (t ∷ s ∷ past)
      → Refines (merge a b ∷ rest) m n (s ∷ past)
  merge-Refines {a} {b} {m = m} {s = s} {t = t} (session kb f l (session ka g l' r)) =
      session (merge-Keeps a b s t m (Refines-IsFresh r) l' ka kb) f (omega arith) r

  -- `commit` drops some of the oldest snapshots and no other.
  pub commit-Refines :
      (r : ℕ) {stack : List (UndoState V)} {m : Objects V} {n : ℕ} {past : List (Snapshot V)}
      → Refines stack m n past
      → (kept dropped : List (Snapshot V)) × Refines (commit_stack r stack) m n kept
        × (past ≡ kept ++ dropped)
  unfolding commit_stack
  commit-Refines r (bare f) = ([], [], bare f, refl)
  commit-Refines r (session {h = h} {rest = stack} {s = s} {past = past} k f l rest) =
      let (kept, dropped, ih, e) = commit-Refines r rest in
      elim (Bool-cases (is_empty (commit_stack r stack) && leb h.revision r)) [
        | inl b ↦ ([], s ∷ past, rw b (bare f), refl)
        | inr b ↦ (s ∷ kept, dropped, rw b (session k f l ih), ap (◌∷◌ s) e)
      ]

  -- Revisions fall along the stack, from the newest state to the oldest.
  abbrev pub Descending : List (UndoState V) → Type 0
  Descending [] = Unit
  Descending (s ∷ []) = Unit
  Descending (s ∷ t ∷ older) = (t.revision < s.revision) × Descending (t ∷ older)

  -- The newest states whose revisions are all above `r`.
  abbrev pub newer : ℕ → List (UndoState V) → List (UndoState V)
  newer r [] = []
  newer r (s ∷ older) = let rest = newer r older in if leb s.revision r then [] else s ∷ rest

  -- Where the revisions fall along the stack, `commit` keeps exactly the states above the
  -- committed revision, although it looks at the stack from its oldest end.
  pub commit_stack-newer :
      (r : ℕ) (stack : List (UndoState V)) → Descending stack → commit_stack r stack ≡ newer r stack
  unfolding commit_stack
  commit_stack-newer r [] d = refl
  commit_stack-newer r (s ∷ []) d = ground arith
  commit_stack-newer r (s ∷ t ∷ older) d = ground (arith, commit_stack-newer r (t ∷ older) d.1)
