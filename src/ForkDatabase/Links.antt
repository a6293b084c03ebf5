-- ===== src/ForkDatabase/Links.antt =====
-- The invariant of the tree: an item's `prev` leads to the block that it names, one number below.
use wenode.Base.{
  ℕ, suc, ◌<◌, ◌≡◌, sym, ap, subst, ◌∙◌, none, some, List, [], ◌∷◌, ◌++◌, ◌⊎◌, inl, inr, ◌==◌,
  is_some, Bool-cases, Option-cases, arith,
}
use wenode.ForkDatabase.{
  ForkItem, ForkDatabase, find_id, find_addr, insert_item, erase_id, owned, lock, lock_addr,
}

abbrev pub Has : ForkItem → List ForkItem → Type 0
Has x [] = ⊥
Has x (y ∷ ys) = (x ≡ y) ⊎ Has x ys

pub Has-append_left : (x : ForkItem) (xs ys : List ForkItem) → Has x xs → Has x (xs ++ ys)
Has-append_left x (y ∷ xs) ys (inl e) = inl e
Has-append_left x (y ∷ xs) ys (inr h) = inr (Has-append_left x xs ys h)
Has-append_left x [] ys h = absurd h

pub Has-append_right : (x : ForkItem) (xs ys : List ForkItem) → Has x ys → Has x (xs ++ ys)
Has-append_right x [] ys h = h
Has-append_right x (y ∷ xs) ys h = inr (Has-append_right x xs ys h)

pub Has-append : (x : ForkItem) (xs ys : List ForkItem) → Has x (xs ++ ys) → Has x xs ⊎ Has x ys
Has-append x [] ys h = inr h
Has-append x (y ∷ xs) ys (inl e) = inl (inl e)
Has-append x (y ∷ xs) ys (inr h) = elim (Has-append x xs ys h) [
  | inl a ↦ inl (inr a)
  | inr b ↦ inr b
]

pub find_id-Has :
    (i : ℕ) (xs : List ForkItem) {x : ForkItem} → find_id i xs ≡ some x → Has x xs × (x.id ≡ i)
unfolding find_id
find_id-Has i [] e = absurd (cc)
find_id-Has i (y ∷ ys) e = elim (Bool-cases (y.id == i)) [
  | inl s ↦ (inl (ground arith), ground arith)
  | inr n ↦ (let r = find_id-Has i ys (rw n at e) in (inr r.0, r.1))
]

find_addr-Has :
    (a : ℕ) (xs : List ForkItem) {x : ForkItem} → find_addr a xs ≡ some x → Has x xs × (x.addr ≡ a)
unfolding find_addr
find_addr-Has a [] e = absurd (cc)
find_addr-Has a (y ∷ ys) e = elim (Bool-cases (y.addr == a)) [
  | inl s ↦ (inl (ground arith), ground arith)
  | inr n ↦ (let r = find_addr-Has a ys (rw n at e) in (inr r.0, r.1))
]

pub Has-insert_item :
    (x y : ForkItem) (xs : List ForkItem) → Has y (insert_item x xs) → Has y xs ⊎ (y ≡ x)
unfolding insert_item
Has-insert_item x y xs h = elim (Bool-cases (is_some (find_id x.id xs))) [
  | inl s ↦ inl (rw s at h)
  | inr n ↦ elim (Has-append y xs (x ∷ []) (rw n at h)) [
    | inl a ↦ inl a
    | inr (inl b) ↦ inr b
    | inr (inr c) ↦ absurd c
  ]
]

pub Has-erase_id : (i : ℕ) (y : ForkItem) (xs : List ForkItem) → Has y (erase_id i xs) → Has y xs
unfolding erase_id
Has-erase_id i y [] h = h
Has-erase_id i y (x ∷ xs) h = elim (Bool-cases (x.id == i)) [
  | inl s ↦ inr (Has-erase_id i y xs (rw s at h))
  | inr n ↦ elim (let h' : Has y (x ∷ erase_id i xs) = rw n at h in h') [
    | inl e ↦ inl e
    | inr r ↦ inr (Has-erase_id i y xs r)
  ]
]

-- What `prev` promises.
pub record Links (x p : ForkItem) : Type 0 where
  pub previous : p.id ≡ x.previous
  pub num : x.num ≡ suc p.num

-- A tree of items: addresses are those of allocated objects, and each is one object's.
pub record IsTree (xs : List ForkItem) (next_addr : ℕ) : Type 0 where
  pub allocated : (x : ForkItem) → Has x xs → x.addr < next_addr
  pub same : (x y : ForkItem) → Has x xs → Has y xs → x.addr ≡ y.addr → x ≡ y
  pub prev_allocated : (x : ForkItem) (a : ℕ) → Has x xs → x.prev ≡ some a → a < next_addr
  pub linked : (x p : ForkItem) → Has x xs → Has p xs → x.prev ≡ some p.addr → Links x p

abbrev pub IsValid : ForkDatabase → Type 0
IsValid db = IsTree (owned db) db.next_addr

-- Dropping items keeps a tree.
pub IsTree-sub :
    {xs ys : List ForkItem} {n : ℕ}
    → ((x : ForkItem) → Has x ys → Has x xs)
    → IsTree xs n
    → IsTree ys n
IsTree-sub sub t = record {
  allocated = λ x h. t.allocated x (sub x h);
  same = λ x y h k. t.same x y (sub x h) (sub y k);
  prev_allocated = λ x a h. t.prev_allocated x a (sub x h);
  linked = λ x p h k. t.linked x p (sub x h) (sub p k);
}

some_addr : (a b : ℕ) → some a ≡ some b → a ≡ b
some_addr a b e = cc

-- A fresh item whose `prev`, if it is set, links it to an item of the tree.
pub IsTree-grow :
    {xs ys : List ForkItem} {n : ℕ} (z : ForkItem)
    → ((x : ForkItem) → Has x ys → Has x xs ⊎ (x ≡ z))
    → z.addr ≡ n
    → ((z.prev ≡ none) ⊎ ((p : ForkItem) × Has p xs × (z.prev ≡ some p.addr) × Links z p))
    → IsTree xs n
    → IsTree ys (suc n)
IsTree-grow {xs} {n = n} z sub fresh link t = record {
  allocated =
      λ x h. elim (sub x h) [ inl a ↦ omega (arith, t.allocated x a) | inr e ↦ rw e (omega arith) ];
  same = λ x y h k e. elim (sub x h) [
    | inl a ↦ elim (sub y k) [
      | inl b ↦ t.same x y a b e
      | inr f ↦ absurd (omega (arith, t.allocated x a, ap (λ (w : ForkItem). w.addr) f))
    ]
    | inr g ↦ elim (sub y k) [
      | inl b ↦ absurd (omega (arith, t.allocated y b, ap (λ (w : ForkItem). w.addr) g))
      | inr f ↦ g ∙ sym f
    ]
  ];
  prev_allocated = λ x a h e. elim (sub x h) [
    | inl b ↦ omega (arith, t.prev_allocated x a b e)
    | inr g ↦ elim link [
      | inl none_yet ↦ absurd (cc (ap (λ (w : ForkItem). w.prev) g))
      | inr (q, hq, eq, lk) ↦ omega (
        arith,
        t.allocated q hq,
        some_addr q.addr a (sym eq ∙ (ap (λ (w : ForkItem). w.prev) (sym g) ∙ e)),
      )
    ]
  ];
  linked = λ x p h k e. elim (sub x h) [
    | inl a ↦ elim (sub p k) [
      | inl b ↦ t.linked x p a b e
      | inr f ↦
          absurd (omega (arith, t.prev_allocated x p.addr a e, ap (λ (w : ForkItem). w.addr) f))
    ]
    | inr g ↦
        (let e' : z.prev ≡ some p.addr = ap (λ (w : ForkItem). w.prev) (sym g) ∙ e in
          elim link [
            | inl none_yet ↦ absurd (cc)
            | inr (q, hq, eq, lk) ↦
                (let qp : q.addr ≡ p.addr = some_addr q.addr p.addr (sym eq ∙ e') in
                  elim (sub p k) [
                    | inl b ↦ rw g (subst (Links z) (t.same q p hq b qp) lk)
                    | inr f ↦
                        absurd (omega (arith, t.allocated q hq, ap (λ (w : ForkItem). w.addr) f))
                  ])
          ])
  ];
}

-- `lock` finds an item of the tree, the one that the link promises.
pub lock-Links :
    (db : ForkDatabase) (x p : ForkItem)
    → IsValid db
    → Has x (owned db)
    → lock db x ≡ some p
    → Has p (owned db) × Links x p
unfolding lock
lock-Links db x p v h e = elim (Option-cases x.prev) [
  | inl n ↦ absurd (let e' : none ≡ some p = rw (n, lock_addr) at e in cc)
  | inr (a, s) ↦
      (let r =
          find_addr-Has a (owned db) (let e' : lock_addr db (some a) ≡ some p = rw s at e in e') in
        (r.0, v.linked x p h r.0 (s ∙ ap some (sym r.1))))
]
