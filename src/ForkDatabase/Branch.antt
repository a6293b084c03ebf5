-- ===== src/ForkDatabase/Branch.antt =====
-- The walks back along `prev`: `fetch_branch_from` and `walk_main_branch_to_num`.
use wenode.Base.{
  ℕ, zero, suc, ◌+◌, ◌≤◌, ◌<◌, ◌≡◌, refl, sym, subst, none, some, List, [], ◌∷◌, ◌++◌, ◌⊎◌, inl,
  inr, ◌==◌, ltb, Bool-cases, Option-cases, Result, ok, err, fc_assert, ==_iff, arith,
}
use wenode.ForkDatabase.{
  ForkItem, ForkDatabase, find_id, owned, lock, head_list, descend, meet, fetch_branch_from, walk,
  walk_main_branch_to_num,
}
use wenode.ForkDatabase.Links.{Has, Has-append_right, find_id-Has, IsValid, lock-Links}
use wenode.ForkDatabase.Push.{Has-owned_index}

-- `Branch db x xs a`: the list is x, its parent, and so on down to a.
pub data Branch (db : ForkDatabase) : ForkItem → List ForkItem → ForkItem → Type 0 where
  tip : {x : ForkItem} → Branch db x (x ∷ []) x
  above :
      {x p a : ForkItem} {xs : List ForkItem}
      → lock db x ≡ some p
      → Branch db p xs a
      → Branch db x (x ∷ xs) a

-- The same without the last item.
data Walk (db : ForkDatabase) : ForkItem → List ForkItem → ForkItem → Type 0 where
  here : {x : ForkItem} → Walk db x [] x
  step :
      {x p a : ForkItem} {xs : List ForkItem}
      → lock db x ≡ some p
      → Walk db p xs a
      → Walk db x (x ∷ xs) a

Walk-append :
    {db : ForkDatabase} {x y a : ForkItem} {xs ys : List ForkItem}
    → Walk db x xs y
    → Branch db y ys a
    → Branch db x (xs ++ ys) a
Walk-append here b = b
Walk-append (step l w) b = above l (Walk-append w b)

Has-head_owned : (db : ForkDatabase) (h : ForkItem) → db.head ≡ some h → Has h (owned db)
unfolding owned
Has-head_owned db h e =
    Has-append_right h (db.index ++ db.unlinked_index) (head_list db.head) (rw e (inl refl))

same_level :
    (x y a b : ℕ) → (y ≤ x → a ≡ y) → (x ≤ y → a ≡ x) → (a ≤ y → b ≡ a) → (y ≤ a → b ≡ y) → a ≡ b
same_level x y a b h k h' k' = ground arith

-- What the first two loops return: they end, they come down to the number asked for, and they
-- throw only where a parent is gone.
record Descended (db : ForkDatabase) (num : ℕ) (x : ForkItem) (r : List ForkItem × ForkItem)
    : Type 0 where
  path : Walk db x r.0 r.1
  owned_item : Has r.1 (owned db)
  low : r.1.num ≤ num
  reached : num ≤ x.num → r.1.num ≡ num
  stayed : x.num ≤ num → r.1.num ≡ x.num

-- A value with the property, or a failed assertion: nothing else, no missing fuel in particular.
abbrev pub Outcome : {A : Type 0} → (A → Type 0) → Result A → Type 0
Outcome {A} P r = ((a : A) × (r ≡ ok a) × P a) ⊎ (r ≡ err fc_assert)

module _ (db : ForkDatabase) (v : IsValid db) where
  descend-Descended :
      (fuel num : ℕ) (x : ForkItem)
      → x.num < fuel
      → Has x (owned db)
      → Outcome (Descended db num x) (descend db fuel num x)
  unfolding descend
  descend-Descended zero num x l h = elim l [ ]
  descend-Descended (suc fuel) num x l h = elim (Bool-cases (ltb num x.num)) [
    | inl above_num ↦ elim (Option-cases (lock db x)) [
      | inl gone ↦ inr (ground arith)
      | inr (p, found) ↦
          (let (hp, link) = lock-Links db x p v h found in
            let n = link.num in
            elim (descend-Descended fuel num p (omega arith) hp) [
              | inl (r, e, d) ↦ inl (
                (x ∷ r.0, r.1),
                ground arith,
                record {
                  path = step found d.path;
                  owned_item = d.owned_item;
                  low = d.low;
                  reached = λ m. d.reached (ground arith);
                  stayed = λ m. absurd (ground arith);
                },
              )
              | inr e ↦ inr (ground arith)
            ])
    ]
    | inr at_num ↦ inl (
      ([], x),
      ground arith,
      record {
        path = here;
        owned_item = h;
        low = ground arith;
        reached = λ m. ground arith;
        stayed = λ m. refl;
      },
    )
  ]

  -- What the third loop returns from two items of the same number.
  record Met (x y : ForkItem) (r : List ForkItem × List ForkItem) : Type 0 where
    left : ForkItem
    right : ForkItem
    left_branch : Branch db x r.0 left
    right_branch : Branch db y r.1 right
    fork : left.previous ≡ right.previous
    level : left.num ≡ right.num

  meet-Met :
      (fuel : ℕ) (x y : ForkItem)
      → x.num < fuel
      → x.num ≡ y.num
      → Has x (owned db)
      → Has y (owned db)
      → Outcome (Met x y) (meet db fuel x y)
  unfolding meet
  meet-Met zero x y l e h k = elim l [ ]
  meet-Met (suc fuel) x y l e h k = elim (Bool-cases (x.previous == y.previous)) [
    | inl same ↦ inl (
      (x ∷ [], y ∷ []),
      ground arith,
      record {
        left = x;
        right = y;
        left_branch = tip;
        right_branch = tip;
        fork = (==_iff x.previous y.previous).0 same;
        level = e;
      },
    )
    | inr differ ↦ elim (Option-cases (lock db x)) [
      | inl gone ↦ inr (ground arith)
      | inr (p, found) ↦ elim (Option-cases (lock db y)) [
        | inl gone ↦ inr (ground arith)
        | inr (q, found') ↦
            (let (hp, link) = lock-Links db x p v h found in
              let (hq, link') = lock-Links db y q v k found' in
              let n = link.num in
              let n' = link'.num in
              elim (meet-Met fuel p q (omega arith) (omega arith) hp hq) [
                | inl (r, eq, m) ↦ inl (
                  (x ∷ r.0, y ∷ r.1),
                  ground arith,
                  record {
                    left = m.left;
                    right = m.right;
                    left_branch = above found m.left_branch;
                    right_branch = above found' m.right_branch;
                    fork = m.fork;
                    level = m.level;
                  },
                )
                | inr eq ↦ inr (ground arith)
              ])
      ]
    ]
  ]

-- Two branches back to where they part.
pub record Branches (db : ForkDatabase) (first second : ℕ) (r : List ForkItem × List ForkItem)
    : Type 0 where
  pub from : ForkItem
  pub to : ForkItem
  pub from_known : find_id first db.index ≡ some from
  pub to_known : find_id second db.index ≡ some to
  pub left : ForkItem
  pub right : ForkItem
  pub left_branch : Branch db from r.0 left
  pub right_branch : Branch db to r.1 right
  pub fork : left.previous ≡ right.previous
  pub level : left.num ≡ right.num

-- In a valid tree `fetch_branch_from` always comes to an end. It fails by an assertion, or returns
-- for two blocks of the index the branches from each back along `prev`, every item with its
-- parent after it, to two items of one height that have the same previous block.
pub fetch_branch_from-Branches :
    (first second : ℕ) (db : ForkDatabase)
    → IsValid db
    → Outcome (Branches db first second) (fetch_branch_from first second db)
unfolding fetch_branch_from
fetch_branch_from-Branches first second db v = elim (Option-cases (find_id first db.index)) [
  | inl unknown ↦ inr (rw unknown)
  | inr (x, fx) ↦ elim (Option-cases (find_id second db.index)) [
    | inl unknown ↦ inr (rw fx (rw unknown))
    | inr (y, fy) ↦
        (let hx = Has-owned_index db x (find_id-Has first db.index fx).0 in
          let hy = Has-owned_index db y (find_id-Has second db.index fy).0 in
          elim (descend-Descended db v (suc x.num) y.num x (omega arith) hx) [
            | inr e ↦ inr (rw fx (rw fy (rw e)))
            | inl (a, ea, da) ↦
                elim (descend-Descended db v (suc y.num) (a.1).num y (omega arith) hy) [
                  | inr e ↦ inr (rw fx (rw fy (rw ea (rw e))))
                  | inl (b, eb, d) ↦
                      (let level =
                          same_level x.num y.num (a.1).num (b.1).num da.reached da.stayed d.reached
                            d.stayed in
                        elim (meet-Met db v (suc (a.1).num) a.1 b.1 (omega arith) level
                          da.owned_item d.owned_item) [
                            | inr e ↦ inr (rw fx (rw fy (rw ea (rw eb (rw e)))))
                            | inl (m, em, dm) ↦ inl (
                              (a.0 ++ m.0, b.0 ++ m.1),
                              rw fx (rw fy (rw ea (rw eb (rw em)))),
                              record {
                                from = x;
                                to = y;
                                from_known = fx;
                                to_known = fy;
                                left = dm.left;
                                right = dm.right;
                                left_branch = Walk-append da.path dm.left_branch;
                                right_branch = Walk-append d.path dm.right_branch;
                                fork = dm.fork;
                                level = dm.level;
                              },
                            )
                          ])
                ]
          ])
  ]
]

-- The walk on the main branch: it stops at the number asked for, or where a parent is gone.
walk-num :
    (db : ForkDatabase) (fuel num : ℕ) (x : ForkItem) {y : ForkItem}
    → IsValid db
    → Has x (owned db)
    → num ≤ x.num
    → x.num ≤ fuel + num
    → walk db fuel num x ≡ some y
    → (xs : List ForkItem) × Walk db x xs y × (y.num ≡ num)
unfolding walk
walk-num db zero num x v h l f e = ([], subst (Walk db x []) (ground arith) here, ground arith)
walk-num db (suc fuel) num x {y} v h l f e = elim (Bool-cases (ltb num x.num)) [
  | inr at_num ↦
      (let same : x ≡ y = ground arith in
        ([], subst (Walk db x []) same here, rw (sym same) (ground arith)))
  | inl above_num ↦ elim (Option-cases (lock db x)) [
    | inl gone ↦ absurd (ground arith)
    | inr (p, found) ↦
        (let (hp, link) = lock-Links db x p v h found in
          let n = link.num in
          let (xs, w, m) =
            walk-num db fuel num p v hp (ground arith) (omega arith) (ground arith) in
          (x ∷ xs, step found w, m))
  ]
]

-- In a valid tree with a head, `walk_main_branch_to_num` never fails. It returns no item, or the
-- item with the number asked for, which is not above the head, and is the head or an ancestor of
-- it that `prev` leads to.
pub walk_main_branch_to_num-num :
    (num : ℕ) (db : ForkDatabase) (h : ForkItem)
    → IsValid db
    → db.head ≡ some h
    → (walk_main_branch_to_num num db ≡ ok none)
      ⊎ ((y : ForkItem) × (xs : List ForkItem) × (walk_main_branch_to_num num db ≡ ok (some y))
          × (y.num ≡ num)
          × (num ≤ h.num)
          × Branch db h xs y)
unfolding walk_main_branch_to_num
walk_main_branch_to_num-num num db h v e = elim (Bool-cases (ltb h.num num)) [
  | inl beyond ↦ inl (ground arith)
  | inr within ↦ elim (Option-cases (walk db h.num num h)) [
    | inl gone ↦ inl (ground (arith, gone))
    | inr (y, c) ↦
        (let (xs, w, m) =
            walk-num db h.num num h v (Has-head_owned db h e) (ground arith) (omega arith) c in
          inr (y, xs ++ y ∷ [], ground (arith, c), m, ground arith, Walk-append w tip))
  ]
]
