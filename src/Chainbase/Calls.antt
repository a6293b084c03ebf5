-- ===== src/Chainbase/Calls.antt =====
-- Sequences of calls on an index, against the snapshots.
use wenode.Base.{
  ℕ, suc, ◌-◌, ◌≡◌, refl, sym, subst, ap₂, Bool, false, Option, none, some, List, [], ◌∷◌, length,
  Result, ok, ◌>>=◌, >>=-eq-ok, Option-cases, inl, inr, arith,
}
use mathlib.Core.Option
use wenode.Chainbase.{
  UndoState, Objects, GenericIndex, put, start_undo_session, squash, squash_stack, emplace, modify,
  remove_object, undo, undo_times, undo_all, on_create, on_modify, on_remove, undo_stack,
}
use wenode.Chainbase.Undo.{undo-rewinds}
use wenode.Chainbase.History.{
  Snapshot, Keeps, Refines, bare, session, create-Refines, modify-Refines, remove-Refines,
  merge-Refines, Refines-IsFresh,
}
use wenode.Chainbase.Log.{untouched}

-- The calls that the database makes on an index; `squash` and `undo` end the newest session.
pub data Call {ℓ} (V : Type ℓ) : Type ℓ where
  create : (ℕ → V) → Call V
  update : ℕ → (V → V) → Call V
  delete : ℕ → Call V
  start_session undo_session squash_session undo_sessions : Call V

module _ {ℓ} {V : Type ℓ} (clash : Objects V → ℕ → V → Bool) where
  unfoldable pub perform : Call V → GenericIndex V → Result (GenericIndex V)
  perform (create c) x = emplace clash c x
  perform (update i f) x = modify clash i f x
  perform (delete i) x = remove_object clash i x
  perform start_session x = ok (start_undo_session x)
  perform undo_session x = undo clash x
  perform squash_session x = ok (squash x)
  perform undo_sessions x = undo_all clash x

  unfoldable pub run : List (Call V) → GenericIndex V → Result (GenericIndex V)
  run [] x = ok x
  run (c ∷ cs) x = do y ← perform c x; run cs y

-- The contract: the present objects, and the snapshots at the starts of the open sessions.
pub record Contract {ℓ} (V : Type ℓ) : Type ℓ where
  pub now : Snapshot V
  pub past : List (Snapshot V)

module _ {ℓ} {V : Type ℓ} where
  abbrev oldest : Snapshot V → List (Snapshot V) → Snapshot V
  oldest s [] = s
  oldest s (t ∷ past) = oldest t past

  abbrev pub rewind : Snapshot V → List (Snapshot V) → Contract V
  rewind s [] = record { now = s; past = [] }
  rewind s (t ∷ past) = record { now = t; past = past }

  abbrev tail : List (Snapshot V) → List (Snapshot V)
  tail [] = []
  tail (_ ∷ past) = past

  abbrev write : ℕ → Option V → Contract V → Contract V
  write i o c = record {
    now = record { objects = put i o c.now.objects; next_id = c.now.next_id };
    past = c.past;
  }

  unfoldable pub expected : Call V → Contract V → Contract V
  expected (create f) c = record {
    now = record {
      objects = put c.now.next_id (some (f c.now.next_id)) c.now.objects;
      next_id = suc c.now.next_id;
    };
    past = c.past;
  }
  expected (update i f) c = write i (Option.map f (c.now.objects i)) c
  expected (delete i) c = write i none c
  expected start_session c = record { now = c.now; past = c.now ∷ c.past }
  expected undo_session c = rewind c.now c.past
  expected squash_session c = record { now = c.now; past = tail c.past }
  expected undo_sessions c = record { now = oldest c.now c.past; past = [] }

  unfoldable pub expected_run : List (Call V) → Contract V → Contract V
  expected_run [] c = c
  expected_run (call ∷ cs) c = expected_run cs (expected call c)

  abbrev pub snapshot : GenericIndex V → Snapshot V
  snapshot x = record { objects = x.indices; next_id = x.next_id }

  -- An index implements the contract's state.
  pub record Implements (x : GenericIndex V) (c : Contract V) : Type ℓ where
    pub now : snapshot x ≡ c.now
    pub past : Refines x.stack c.now.objects c.now.next_id c.past

  abbrev contract : GenericIndex V → List (Snapshot V) → Contract V
  contract x past = record { now = snapshot x; past = past }

  Implements-contract :
      (P : Contract V → Type ℓ) {x : GenericIndex V} {c : Contract V}
      → Implements x c
      → (Refines x.stack x.indices x.next_id c.past → P (contract x c.past))
      → P c
  Implements-contract P {x} {c} v h =
      subst (λ s. P (record { now = s; past = c.past })) v.now
        (h (
          subst (λ (s : Snapshot V). Refines x.stack s.objects s.next_id c.past) (sym v.now)
            v.past))

module _ {ℓ} {V : Type ℓ} (clash : Objects V → ℕ → V → Bool) where
  emplace-eq :
      (f : ℕ → V) (x : GenericIndex V) {y : GenericIndex V}
      → emplace clash f x ≡ ok y
      → on_create x.next_id (record x {
        indices = put x.next_id (some (f x.next_id)) x.indices;
        next_id = suc x.next_id;
      })
        ≡ y
  unfolding emplace
  emplace-eq f x e = ground arith

  modify-eq :
      (i : ℕ) (f : V → V) (x : GenericIndex V) {y : GenericIndex V}
      → modify clash i f x ≡ ok y
      → (u : V) × (x.indices i ≡ some u)
        × (record (on_modify i u x) { indices = put i (some (f u)) x.indices } ≡ y)
  unfolding modify
  modify-eq i f x e = elim (Option-cases (x.indices i)) [
    | inl n ↦ absurd (ground arith)
    | inr (u, s) ↦ (u, s, ground arith)
  ]

  remove-eq :
      (i : ℕ) (x : GenericIndex V) {y : GenericIndex V}
      → remove_object clash i x ≡ ok y
      → (u : V) × (x.indices i ≡ some u)
        × (record (on_remove i u x) { indices = put i none x.indices } ≡ y)
  unfolding remove_object
  remove-eq i x e = elim (Option-cases (x.indices i)) [
    | inl n ↦ absurd (ground arith)
    | inr (u, s) ↦ (u, s, ground arith)
  ]

  create-Implements :
      (f : ℕ → V) (x y : GenericIndex V) (past : List (Snapshot V))
      → emplace clash f x ≡ ok y
      → Refines x.stack x.indices x.next_id past
      → Implements y (expected (create f) (contract x past))
  unfolding expected on_create
  create-Implements f x y past e r =
      subst (λ z. Implements z (expected (create f) (contract x past))) (emplace-eq f x e)
        (record { now = refl; past = create-Refines (f x.next_id) r })

  update-Implements :
      (i : ℕ) (f : V → V) (x y : GenericIndex V) (past : List (Snapshot V))
      → modify clash i f x ≡ ok y
      → Refines x.stack x.indices x.next_id past
      → Implements y (expected (update i f) (contract x past))
  unfolding expected on_modify
  update-Implements i f x y past e r =
      let (u, s, q) = modify-eq i f x e in
      rw s (
        subst (λ z. Implements z (write i (some (f u)) (contract x past))) q
          (record { now = refl; past = modify-Refines i u (f u) s r }))

  delete-Implements :
      (i : ℕ) (x y : GenericIndex V) (past : List (Snapshot V))
      → remove_object clash i x ≡ ok y
      → Refines x.stack x.indices x.next_id past
      → Implements y (expected (delete i) (contract x past))
  unfolding expected on_remove
  delete-Implements i x y past e r =
      let (u, s, q) = remove-eq i x e in
      subst (λ z. Implements z (write i none (contract x past))) q
        (record { now = refl; past = remove-Refines i u s r })

module _ {ℓ} {V : Type ℓ} where
  start-Implements :
      (x : GenericIndex V) (past : List (Snapshot V))
      → Refines x.stack x.indices x.next_id past
      → Implements (start_undo_session x) (expected start_session (contract x past))
  unfolding expected start_undo_session
  start-Implements x past r = record {
    now = refl;
    past =
        session
          (record {
            distinct = record { old = tt; removed = tt; new = tt };
            logs = λ i. untouched refl refl refl refl;
            next = refl;
            ids = λ i e. cc;
          })
          (Refines-IsFresh r) (omega arith) r;
  }

  squash-Refines :
      {stack : List (UndoState V)} {m : Objects V} {n : ℕ} (x : GenericIndex V)
      (past : List (Snapshot V))
      → x.indices ≡ m
      → x.next_id ≡ n
      → x.stack ≡ stack
      → Refines stack m n past
      → Implements
          (squash_stack stack x)
          (record { now = record { objects = m; next_id = n }; past = tail past })
  unfolding squash_stack
  squash-Refines x _ a b c (bare f) = record {
    now = ap₂ (λ m n. record { objects = m; next_id = n }) a b;
    past = rw c (bare f);
  }
  squash-Refines x _ a b c (session k f l (bare g)) = record {
    now = ap₂ (λ m n. record { objects = m; next_id = n }) a b;
    past = bare f;
  }
  squash-Refines x _ a b c (session k f l (session k' f' l' r)) = record {
    now = ap₂ (λ m n. record { objects = m; next_id = n }) a b;
    past = merge-Refines (session k f l (session k' f' l' r));
  }

  squash-Implements :
      (x : GenericIndex V) (past : List (Snapshot V))
      → Refines x.stack x.indices x.next_id past
      → Implements (squash x) (expected squash_session (contract x past))
  unfolding squash expected
  squash-Implements x past r = squash-Refines x past refl refl refl r

module _ {ℓ} {V : Type ℓ} (clash : Objects V → ℕ → V → Bool)
    (no_clash : (m : Objects V) (i : ℕ) (v : V) → clash m i v ≡ false) where
  -- `undo` on an open session always goes through.
  undo-session :
      (h : UndoState V) (rest : List (UndoState V)) (m : Objects V) (s : Snapshot V)
      (x : GenericIndex V)
      → x.indices ≡ m
      → x.stack ≡ h ∷ rest
      → Keeps h s m
      → (y : GenericIndex V) × (undo clash x ≡ ok y)
        × (y.indices ≡ s.objects)
        × (y.next_id ≡ s.next_id)
        × (y.stack ≡ rest)
  undo-session h rest m s x a c k = (
    record {
      stack = rest;
      revision = x.revision - 1;
      next_id = h.old_next_id;
      indices = s.objects;
    },
    undo-rewinds clash no_clash h rest s.objects x c k.distinct (rw a k.logs),
    refl,
    k.next,
    refl,
  )

  implements :
      {stack : List (UndoState V)} {m : Objects V} {n : ℕ} (x : GenericIndex V)
      (past : List (Snapshot V))
      → x.indices ≡ m
      → x.next_id ≡ n
      → x.stack ≡ stack
      → Refines stack m n past
      → Implements x (record { now = record { objects = m; next_id = n }; past = past })
  implements x past a b c r = record {
    now = ap₂ (λ m n. record { objects = m; next_id = n }) a b;
    past = rw c r;
  }

  undo-Refines :
      {stack : List (UndoState V)} {m : Objects V} {n : ℕ} (x : GenericIndex V)
      (past : List (Snapshot V))
      → x.indices ≡ m
      → x.next_id ≡ n
      → x.stack ≡ stack
      → Refines stack m n past
      → (y : GenericIndex V) × (undo clash x ≡ ok y)
        × Implements y (rewind (record { objects = m; next_id = n }) past)
  undo-Refines x _ a b c (bare f) =
      (x, unfold undo undo_stack in rw (c, undo_stack), implements x [] a b c (bare f))
  undo-Refines x _ a b c (session {h = h} {rest = rest} {m = m} {s = s} {past = past} k f l r) =
      let (y, e, i, n, t) = undo-session h rest m s x a c k in (y, e, implements y past i n t r)

  undo_times-Refines :
      {stack : List (UndoState V)} {m : Objects V} {n : ℕ} (x : GenericIndex V)
      (past : List (Snapshot V))
      → x.indices ≡ m
      → x.next_id ≡ n
      → x.stack ≡ stack
      → Refines stack m n past
      → (y : GenericIndex V) × (undo_times clash (length stack) x ≡ ok y)
        × Implements y
            (record { now = oldest (record { objects = m; next_id = n }) past; past = [] })
  unfolding undo_times
  undo_times-Refines x _ a b c (bare f) = (x, refl, implements x [] a b c (bare f))
  undo_times-Refines x _ a b c
        (session {h = h} {rest = rest} {m = m} {s = s} {past = past} k f l r) =
      let (y, e, i, n, t) = undo-session h rest m s x a c k in
      let (z, e', v) = undo_times-Refines y past i n t r in (z, rw e e', v)

  -- Every call that goes through changes the contract's state as `expected` says.
  perform-Implements :
      (call : Call V) (x y : GenericIndex V) (past : List (Snapshot V))
      → perform clash call x ≡ ok y
      → Refines x.stack x.indices x.next_id past
      → Implements y (expected call (contract x past))
  unfolding perform undo_all expected
  perform-Implements (create f) x y past e r = create-Implements clash f x y past e r
  perform-Implements (update i f) x y past e r = update-Implements clash i f x y past e r
  perform-Implements (delete i) x y past e r = delete-Implements clash i x y past e r
  perform-Implements start_session x y past e r =
      subst (λ z. Implements z (expected start_session (contract x past))) (ground (arith, e))
        (start-Implements x past r)
  perform-Implements squash_session x y past e r =
      subst (λ z. Implements z (expected squash_session (contract x past))) (ground (arith, e))
        (squash-Implements x past r)
  perform-Implements undo_session x y past e r =
      let (z, q, v) = undo-Refines x past refl refl refl r in
      subst (λ z. Implements z (expected undo_session (contract x past))) (ground (arith, e, q)) v
  perform-Implements undo_sessions x y past e r =
      let (z, q, v) = undo_times-Refines x past refl refl refl r in
      subst (λ z. Implements z (expected undo_sessions (contract x past))) (ground (arith, e, q)) v

  -- For an index whose objects have no unique key but their ids: after any sequence of calls that
  -- goes through, creations, changes and removals in sessions that are nested, squashed and undone
  -- in any way, the index holds the objects and the next id that the contract expects, and each
  -- undo state on its stack leads back to the contract's snapshot.
  pub run-Implements :
      (calls : List (Call V)) (x y : GenericIndex V) (c : Contract V)
      → run clash calls x ≡ ok y
      → Implements x c
      → Implements y (expected_run calls c)
  unfolding run expected_run
  run-Implements [] x y c e v = subst (λ z. Implements z c) (ground (arith, e)) v
  run-Implements (call ∷ calls) x y c e v =
      let (z, q, e') = >>=-eq-ok (perform clash call x) (run clash calls) e in
      run-Implements calls z y (expected call c) e' (
        Implements-contract (λ d. Implements z (expected call d)) v
          (perform-Implements call x z c.past q))

  -- Under the same condition `undo` never throws: on an index that implements the contract it
  -- brings back the objects and the next id of the newest snapshot, and nothing changes where no
  -- session is open.
  pub undo-restores :
      (x : GenericIndex V) (c : Contract V)
      → Implements x c
      → (y : GenericIndex V) × (undo clash x ≡ ok y) × Implements y (rewind c.now c.past)
  undo-restores x c v =
      Implements-contract
        (λ d. (y : GenericIndex V) × (undo clash x ≡ ok y) × Implements y (rewind d.now d.past)) v
        (undo-Refines x c.past refl refl refl)
