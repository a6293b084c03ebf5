-- ===== src/Chainbase/Squash.antt =====
-- `squash` composes the two newest undo states: the table in its comment, case by case.
use wenode.Base.{
  ℕ, ◌≡◌, refl, sym, ◌∙◌, ap, true, false, ◌||◌, Option, none, some, List, [], ◌∷◌, ◌==◌,
  if◌then◌else◌, Dict, lookup, member, insert_id, lookup-emplace_entry_self,
  lookup-emplace_entry_ne, lookup-erase_entry, member-insert_id, member-erase_id, Option-cases,
  Bool-cases, inl, inr, arith,
}
use wenode.Chainbase.{
  UndoState, Objects, merge_old, merge_old_item, merge_new, merge_removed, merge_removed_item,
  merge,
}
use wenode.Chainbase.Log.{Entry, created, updated, deleted, untouched, Logs}
use wenode.Chainbase.Undo.{
  IsUnique, Distinct, insert_id-IsUniqueIds, erase_id-IsUniqueIds, emplace_entry-IsUnique,
  erase_entry-IsUnique,
}

module _ {ℓ} {V : Type ℓ} where
  -- Two states record the same about an id.
  abbrev Same : ℕ → UndoState V → UndoState V → Type ℓ
  Same j h k =
      (member j k.new_ids ≡ member j h.new_ids)
      × (lookup j k.old_values ≡ lookup j h.old_values)
      × (lookup j k.removed_values ≡ lookup j h.removed_values)

  abbrev older : Option V → Option V → Option V
  older none new = new
  older (some v) new = some v

  merge_old-old :
      (j : ℕ) (items : Dict V) (p : UndoState V)
      → lookup j (merge_old items p).old_values ≡ (
          if member j p.new_ids
          then lookup j p.old_values
          else older (lookup j p.old_values) (lookup j items))
  unfolding merge_old merge_old_item
  merge_old-old j [] p = ground arith
  merge_old-old j ((i, v) ∷ items) p = ground (
    arith,
    merge_old-old j items (merge_old_item i v p),
    lookup-emplace_entry_self i v p.old_values,
    lookup-emplace_entry_ne i j v p.old_values,
  )

  merge_old-frame :
      (items : Dict V) (p : UndoState V)
      → ((merge_old items p).new_ids ≡ p.new_ids)
        × ((merge_old items p).removed_values ≡ p.removed_values)
        × ((merge_old items p).old_next_id ≡ p.old_next_id)
  unfolding merge_old merge_old_item
  merge_old-frame [] p = (refl, refl, refl)
  merge_old-frame ((i, v) ∷ items) p = ground (arith, merge_old-frame items (merge_old_item i v p))

  merge_new-new :
      (j : ℕ) (ids : List ℕ) (p : UndoState V)
      → member j (merge_new ids p).new_ids ≡ (member j ids || member j p.new_ids)
  unfolding merge_new
  merge_new-new j [] p = refl
  merge_new-new j (i ∷ ids) p = ground (
    arith,
    merge_new-new j ids (record p { new_ids = insert_id i p.new_ids }),
    member-insert_id i j p.new_ids,
  )

  merge_new-frame :
      (ids : List ℕ) (p : UndoState V)
      → ((merge_new ids p).old_values ≡ p.old_values)
        × ((merge_new ids p).removed_values ≡ p.removed_values)
        × ((merge_new ids p).old_next_id ≡ p.old_next_id)
  unfolding merge_new
  merge_new-frame [] p = (refl, refl, refl)
  merge_new-frame (i ∷ ids) p = merge_new-frame ids (record p { new_ids = insert_id i p.new_ids })

  merge_removed_item-ne :
      (i j : ℕ) (v : V) (p : UndoState V) → (j == i) ≡ false → Same j p (merge_removed_item i v p)
  unfolding merge_removed_item
  merge_removed_item-ne i j v p e = elim (Option-cases (lookup i p.old_values)) [
    | inl n ↦
        ground
          (arith, member-erase_id i j p.new_ids, lookup-emplace_entry_ne i j v p.removed_values)
    | inr (w, s) ↦ ground (
      arith,
      member-erase_id i j p.new_ids,
      lookup-erase_entry i j p.old_values,
      lookup-emplace_entry_ne i j w p.removed_values,
    )
  ]

  merge_removed-none :
      (j : ℕ) (items : Dict V) (p : UndoState V)
      → lookup j items ≡ none
      → Same j p (merge_removed items p)
  unfolding merge_removed
  merge_removed-none j [] p e = (refl, refl, refl)
  merge_removed-none j ((i, v) ∷ items) p e =
      ground (
        arith,
        merge_removed_item-ne i j v p,
        merge_removed-none j items (merge_removed_item i v p),
      )

  -- What the third loop makes of a removed object: new + del, upd + del, nop + del.
  abbrev Dropped : ℕ → V → UndoState V → UndoState V → Type ℓ
  Dropped j v p q =
      (member j q.new_ids ≡ false)
      × (member j p.new_ids ≡ true
          → lookup j p.old_values ≡ none
          → (lookup j q.old_values ≡ none)
            × (lookup j q.removed_values ≡ lookup j p.removed_values))
      × ((w : V)
          → member j p.new_ids ≡ false
          → lookup j p.old_values ≡ some w
          → lookup j p.removed_values ≡ none
          → (lookup j q.old_values ≡ none) × (lookup j q.removed_values ≡ some w))
      × (member j p.new_ids ≡ false
          → lookup j p.old_values ≡ none
          → lookup j p.removed_values ≡ none
          → (lookup j q.old_values ≡ none) × (lookup j q.removed_values ≡ some v))

  merge_removed_item-Dropped :
      (j : ℕ) (v : V) (p : UndoState V) → Dropped j v p (merge_removed_item j v p)
  unfolding merge_removed_item
  merge_removed_item-Dropped j v p = elim (Option-cases (lookup j p.old_values)) [
    | inl n ↦ (
      ground (arith, member-erase_id j j p.new_ids),
      λ a b. ground arith,
      λ w a b c. absurd (cc),
      λ a b c. ground (arith, lookup-emplace_entry_self j v p.removed_values),
    )
    | inr (u, s) ↦ (
      ground (arith, member-erase_id j j p.new_ids),
      λ a b. absurd (cc),
      λ w a b c. ground (
        arith,
        lookup-erase_entry j j p.old_values,
        lookup-emplace_entry_self j u p.removed_values,
      ),
      λ a b c. absurd (cc),
    )
  ]

  Dropped-Same :
      (j : ℕ) (v : V) (p q r : UndoState V) → Dropped j v p q → Same j q r → Dropped j v p r
  Dropped-Same j v p q r d s = (
    s.0 ∙ d.0,
    λ a b. let e = d.1 a b in (s.1 ∙ e.0, s.2 ∙ e.1),
    λ w a b c. let e = d.2 w a b c in (s.1 ∙ e.0, s.2 ∙ e.1),
    λ a b c. let e = d.3 a b c in (s.1 ∙ e.0, s.2 ∙ e.1),
  )

  Same-Dropped :
      (j : ℕ) (v : V) (p q r : UndoState V) → Same j p q → Dropped j v q r → Dropped j v p r
  Same-Dropped j v p q r s d = (
    d.0,
    λ a b. let e = d.1 (s.0 ∙ a) (s.1 ∙ b) in (e.0, e.1 ∙ s.2),
    λ w a b c. d.2 w (s.0 ∙ a) (s.1 ∙ b) (s.2 ∙ c),
    λ a b c. d.3 (s.0 ∙ a) (s.1 ∙ b) (s.2 ∙ c),
  )

  merge_removed-some :
      (j : ℕ) (v : V) (items : Dict V) (p : UndoState V)
      → IsUnique items
      → lookup j items ≡ some v
      → Dropped j v p (merge_removed items p)
  unfolding merge_removed
  merge_removed-some j v [] p u e = absurd (cc)
  merge_removed-some j v ((i, w) ∷ items) p u e = elim (Bool-cases (j == i)) [
    | inl same ↦
        let ji : j ≡ i = ground arith in
        let vw : v ≡ w = ground arith in
        let q = merge_removed_item i w p in
        rw ji (
          rw vw (
            Dropped-Same i w p q (merge_removed items q) (merge_removed_item-Dropped i w p)
              (merge_removed-none i items q u.0)))
    | inr other ↦
        Same-Dropped j v p (merge_removed_item i w p)
          (merge_removed items (merge_removed_item i w p)) (merge_removed_item-ne i j w p other)
          (merge_removed-some j v items (merge_removed_item i w p) u.1 (ground arith))
  ]

  -- The state of an id in both states and in what the first two loops have made of them.
  record Parts (i : ℕ) (prev state mid out : UndoState V) : Type ℓ where
    mid_new : member i mid.new_ids ≡ (member i state.new_ids || member i prev.new_ids)
    mid_old : lookup i mid.old_values ≡ (
        if member i prev.new_ids
        then lookup i prev.old_values
        else older (lookup i prev.old_values) (lookup i state.old_values))
    mid_removed : lookup i mid.removed_values ≡ lookup i prev.removed_values
    kept : lookup i state.removed_values ≡ none → Same i mid out
    dropped : (v : V) → lookup i state.removed_values ≡ some v → Dropped i v mid out

  merge-Parts :
      (i : ℕ) (prev state : UndoState V)
      → IsUnique state.removed_values
      → Parts i prev state
          (merge_new state.new_ids (merge_old state.old_values prev))
          (merge prev state)
  unfolding merge
  merge-Parts i prev state u =
      let mid₀ = merge_old state.old_values prev in
      let mid = merge_new state.new_ids mid₀ in
      let f₀ = merge_old-frame state.old_values prev in
      let f = merge_new-frame state.new_ids mid₀ in
      record {
        mid_new =
            merge_new-new i state.new_ids mid₀
            ∙ ap (λ s. member i state.new_ids || member i s) f₀.0;
        mid_old = ap (lookup i) f.0 ∙ merge_old-old i state.old_values prev;
        mid_removed = ap (lookup i) (f.1 ∙ f₀.1);
        kept = merge_removed-none i state.removed_values mid;
        dropped = λ v. merge_removed-some i v state.removed_values mid u;
      }

  -- The table: composing what two states record about one id.
  Entry-merge :
      {i : ℕ} {a b mid m : UndoState V} {before between now : Option V}
      → Parts i a b mid m
      → (member i b.new_ids ≡ true → before ≡ none)
      → Entry i a before between
      → Entry i b between now
      → Entry i m before now
  Entry-merge p late (created _ x y z b e) (created _ _ _ _ e' _) = absurd (cc)
  Entry-merge p late (created _ x y z b e) (updated w v x' y' z' _ e') =
      let k = p.kept z' in
      created v (ground (arith, k, p.mid_new)) (ground (arith, k, p.mid_old))
        (ground (arith, k, p.mid_removed)) b e'
  Entry-merge p late (created _ x y z b e) (deleted w x' y' z' _ e') =
      let d = p.dropped w z' in
      let g = d.1 (ground (arith, p.mid_new)) (ground (arith, p.mid_old)) in
      untouched d.0 g.0 (g.1 ∙ p.mid_removed ∙ z) (cc)
  Entry-merge p late (created v x y z b e) (untouched x' y' z' e') =
      let k = p.kept z' in
      created v (ground (arith, k, p.mid_new)) (ground (arith, k, p.mid_old))
        (ground (arith, k, p.mid_removed)) b (cc)
  Entry-merge p late (updated w _ x y z b e) (created _ x' _ _ e' _) = absurd (cc)
  Entry-merge p late (updated w _ x y z b e) (updated _ v x' y' z' _ e') =
      let k = p.kept z' in
      updated w v (ground (arith, k, p.mid_new)) (ground (arith, k, p.mid_old))
        (ground (arith, k, p.mid_removed)) b e'
  Entry-merge p late (updated w _ x y z b e) (deleted u x' y' z' _ e') =
      let d = p.dropped u z' in
      let g = d.2 w (ground (arith, p.mid_new)) (ground (arith, p.mid_old)) (p.mid_removed ∙ z) in
      deleted w d.0 g.0 g.1 b e'
  Entry-merge p late (updated w v x y z b e) (untouched x' y' z' e') =
      let k = p.kept z' in
      updated w v (ground (arith, k, p.mid_new)) (ground (arith, k, p.mid_old))
        (ground (arith, k, p.mid_removed)) b (cc)
  Entry-merge p late (deleted w x y z b e) (created v x' y' z' e' _) = absurd (cc (late x'))
  Entry-merge p late (deleted w x y z b e) (updated _ _ _ _ _ e' _) = absurd (cc)
  Entry-merge p late (deleted w x y z b e) (deleted _ _ _ _ e' _) = absurd (cc)
  Entry-merge p late (deleted w x y z b e) (untouched x' y' z' e') =
      let k = p.kept z' in
      deleted w (ground (arith, k, p.mid_new)) (ground (arith, k, p.mid_old))
        (ground (arith, k, p.mid_removed)) b (cc)
  Entry-merge p late (untouched x y z e) (created v x' y' z' e' b') =
      let k = p.kept z' in
      created v (ground (arith, k, p.mid_new)) (ground (arith, k, p.mid_old))
        (ground (arith, k, p.mid_removed)) (cc) b'
  Entry-merge p late (untouched x y z e) (updated w v x' y' z' e' b') =
      let k = p.kept z' in
      updated w v (ground (arith, k, p.mid_new)) (ground (arith, k, p.mid_old))
        (ground (arith, k, p.mid_removed)) (cc) b'
  Entry-merge p late (untouched x y z e) (deleted w x' y' z' e' b') =
      let d = p.dropped w z' in
      let g = d.3 (ground (arith, p.mid_new)) (ground (arith, p.mid_old)) (p.mid_removed ∙ z) in
      deleted w d.0 g.0 g.1 (cc) b'
  Entry-merge p late (untouched x y z e) (untouched x' y' z' e') =
      let k = p.kept z' in
      untouched (ground (arith, k, p.mid_new)) (ground (arith, k, p.mid_old))
        (ground (arith, k, p.mid_removed)) (cc)

  -- `squash` composes what two states record. Where the older state leads from `between` back to
  -- `before` and the newer one from `now` back to `between`, the merged state leads from `now` back
  -- to `before`, provided that the newer state's removals have distinct ids and the ids that it
  -- created are not in use at `before`.
  pub merge-Logs :
      (a b : UndoState V) (before between now : Objects V)
      → IsUnique b.removed_values
      → ((i : ℕ) → member i b.new_ids ≡ true → before i ≡ none)
      → Logs a before between
      → Logs b between now
      → Logs (merge a b) before now
  merge-Logs a b before between now u late la lb i =
      Entry-merge (merge-Parts i a b u) (late i) (la i) (lb i)

  merge_old-Distinct :
      (items : Dict V) (p : UndoState V) → Distinct p → Distinct (merge_old items p)
  unfolding merge_old merge_old_item
  merge_old-Distinct [] p d = d
  merge_old-Distinct ((i, v) ∷ items) p d =
      merge_old-Distinct items (merge_old_item i v p)
        (ground (arith, emplace_entry-IsUnique i v p.old_values d.old))

  merge_new-Distinct : (ids : List ℕ) (p : UndoState V) → Distinct p → Distinct (merge_new ids p)
  unfolding merge_new
  merge_new-Distinct [] p d = d
  merge_new-Distinct (i ∷ ids) p d =
      merge_new-Distinct ids (record p { new_ids = insert_id i p.new_ids })
        (record { old = d.old; removed = d.removed; new = insert_id-IsUniqueIds i p.new_ids d.new })

  merge_removed_item-Distinct :
      (i : ℕ) (v : V) (p : UndoState V) → Distinct p → Distinct (merge_removed_item i v p)
  unfolding merge_removed_item
  merge_removed_item-Distinct i v p d = elim (Option-cases (lookup i p.old_values)) [
    | inl n ↦ ground (
      arith,
      erase_id-IsUniqueIds i p.new_ids d.new,
      emplace_entry-IsUnique i v p.removed_values d.removed,
    )
    | inr (w, s) ↦ ground (
      arith,
      erase_id-IsUniqueIds i p.new_ids d.new,
      erase_entry-IsUnique i p.old_values d.old,
      emplace_entry-IsUnique i w p.removed_values d.removed,
    )
  ]

  merge_removed-Distinct :
      (items : Dict V) (p : UndoState V) → Distinct p → Distinct (merge_removed items p)
  unfolding merge_removed
  merge_removed-Distinct [] p d = d
  merge_removed-Distinct ((i, v) ∷ items) p d =
      merge_removed-Distinct items (merge_removed_item i v p) (merge_removed_item-Distinct i v p d)

  pub merge-Distinct : (a b : UndoState V) → Distinct a → Distinct (merge a b)
  unfolding merge
  merge-Distinct a b d =
      merge_removed-Distinct b.removed_values _
        (merge_new-Distinct b.new_ids _ (merge_old-Distinct b.old_values a d))

  merge_removed-shrinks :
      (j : ℕ) (items : Dict V) (p : UndoState V)
      → (member j (merge_removed items p).new_ids ≡ true → member j p.new_ids ≡ true)
        × ((merge_removed items p).old_next_id ≡ p.old_next_id)
  unfolding merge_removed merge_removed_item
  merge_removed-shrinks j [] p = (λ h. h, refl)
  merge_removed-shrinks j ((i, v) ∷ items) p = elim (Option-cases (lookup i p.old_values)) [
    | inl n ↦ ground (
      arith,
      merge_removed-shrinks j items (merge_removed_item i v p),
      member-erase_id i j p.new_ids,
    )
    | inr (w, s) ↦ ground (
      arith,
      merge_removed-shrinks j items (merge_removed_item i v p),
      member-erase_id i j p.new_ids,
    )
  ]

  -- Composition creates no id that neither state created, and keeps the older next id.
  pub merge-new :
      (j : ℕ) (a b : UndoState V)
      → (member j (merge a b).new_ids ≡ true → (member j b.new_ids || member j a.new_ids) ≡ true)
        × ((merge a b).old_next_id ≡ a.old_next_id)
  unfolding merge
  merge-new j a b =
      let mid₀ = merge_old b.old_values a in
      let mid = merge_new b.new_ids mid₀ in
      let f₀ = merge_old-frame b.old_values a in
      let f = merge_new-frame b.new_ids mid₀ in
      let s = merge_removed-shrinks j b.removed_values mid in
      (
        λ h.
            sym (ap (λ t. member j b.new_ids || member j t) f₀.0)
            ∙ (sym (merge_new-new j b.new_ids mid₀) ∙ s.0 h),
        s.1 ∙ f.2 ∙ f₀.2,
      )
