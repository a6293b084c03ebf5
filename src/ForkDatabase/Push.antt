-- ===== src/ForkDatabase/Push.antt =====
-- `push_block`: which head it leaves, and that the tree stays one.
use wenode.Base.{
  ℕ, suc, ◌-◌, ◌^◌, ◌<◌, ◌≤◌, ◌≡◌, ◌≢◌, refl, sym, ap, subst, ◌∙◌, true, false, Option, none, some,
  List, [], ◌∷◌, ◌++◌, ◌⊎◌, inl, inr, ◌==◌, ltb, is_some, not, ◌&&◌, Bool-cases, Option-cases, ok,
  >>=-eq-ok, arith,
}
use wenode.ForkDatabase.{
  SignedBlock, ForkItem, ForkDatabase, find_id, insert_item, owned, head_list, check_age, link_item,
  higher, push_item, make_item, block_num, push_block,
}
use wenode.ForkDatabase.Links.{
  Has, Has-append_left, Has-append_right, Has-append, find_id-Has, Has-insert_item, Links, IsValid,
  IsTree-grow,
}

-- What a successful `_push_block` did.
push_item-eq :
    (db : ForkDatabase) (x : ForkItem) {db' : ForkDatabase}
    → push_item db x ≡ ok db'
    → (x' : ForkItem) × (check_age db x ≡ ok tt)
      × (link_item db x ≡ ok x')
      × (record db { index = insert_item x' db.index; head = higher db.head x' } ≡ db')
unfolding push_item
push_item-eq db x e =
    let (u, a, e') = >>=-eq-ok (check_age db x) _ e in
    let (x', b, e'') = >>=-eq-ok (link_item db x) _ e' in (x', a, b, ground arith)

-- The item that is inserted is the new one, with its `prev` set where there is a head.
link_item-eq :
    (db : ForkDatabase) (x : ForkItem) {x' : ForkItem}
    → link_item db x ≡ ok x'
    → (x' ≡ x)
      ⊎ ((p : ForkItem) × (find_id x.previous db.index ≡ some p)
          × (is_some db.head ≡ true)
          × (x' ≡ record x { prev = some p.addr }))
unfolding link_item
link_item-eq db x e = elim (Option-cases (find_id x.previous db.index)) [
  | inl n ↦ inl (ground arith)
  | inr (p, s) ↦ elim (Bool-cases (is_some db.head && not (x.previous == 0))) [
    | inl t ↦ inr (p, s, ground arith, ground arith)
    | inr f ↦ inl (ground arith)
  ]
]

-- Linking changes nothing of an item but its `prev`.
link_item-frame :
    (db : ForkDatabase) (x : ForkItem) {x' : ForkItem}
    → link_item db x ≡ ok x'
    → (x'.id ≡ x.id) × (x'.num ≡ x.num) × (x'.addr ≡ x.addr) × (x'.previous ≡ x.previous)
unfolding link_item
link_item-frame db x e = ground arith

check_age-pos :
    (db : ForkDatabase) (x : ForkItem) → check_age db x ≡ ok tt → is_some db.head ≡ true → 0 < x.num
unfolding check_age
check_age-pos db x a h = ground arith

pub Has-owned_index : (db : ForkDatabase) (x : ForkItem) → Has x db.index → Has x (owned db)
unfolding owned
Has-owned_index db x h =
    Has-append_left x (db.index ++ db.unlinked_index) (head_list db.head)
      (Has-append_left x db.index db.unlinked_index h)

Has-head :
    (h : Option ForkItem) (x y : ForkItem)
    → Has x (head_list (higher h y))
    → Has x (head_list h) ⊎ (x ≡ y)
Has-head none x y (inl e) = inr e
Has-head none x y (inr e) = absurd e
Has-head (some h) x y e = elim (Bool-cases (ltb h.num y.num)) [
  | inl t ↦ elim (let e' : Has x (y ∷ []) = rw t at e in e') [ inl s ↦ inr s | inr a ↦ absurd a ]
  | inr f ↦ inl (rw f at e)
]

Has-owned_push :
    (db : ForkDatabase) (x y : ForkItem)
    → Has y (owned (record db { index = insert_item x db.index; head = higher db.head x }))
    → Has y (owned db) ⊎ (y ≡ x)
unfolding owned
Has-owned_push db x y h =
    elim (Has-append y (insert_item x db.index ++ db.unlinked_index) (head_list (higher db.head x))
      h) [
        | inl a ↦ elim (Has-append y (insert_item x db.index) db.unlinked_index a) [
          | inl b ↦ elim (Has-insert_item x y db.index b) [
            | inl c ↦ inl (Has-append_left y _ _ (Has-append_left y db.index db.unlinked_index c))
            | inr e ↦ inr e
          ]
          | inr b ↦ inl (Has-append_left y _ _ (Has-append_right y db.index db.unlinked_index b))
        ]
        | inr a ↦ elim (Has-head db.head y x a) [
          | inl b ↦ inl (Has-append_right y (db.index ++ db.unlinked_index) _ b)
          | inr e ↦ inr e
        ]
      ]

-- The head before, if there is one, is strictly below.
abbrev pub Below : Option ForkItem → ForkItem → Type 0
Below none h = Unit
Below (some g) h = g.num < h.num

higher-cases :
    (old : Option ForkItem) (x : ForkItem)
    → (h : ForkItem) × (higher old x ≡ some h)
      × (x.num ≤ h.num)
      × (((h ≡ x) × Below old h) ⊎ (old ≡ some h))
higher-cases none x = (x, refl, omega arith, inl (refl, tt))
higher-cases (some o) x = elim (Bool-cases (ltb o.num x.num)) [
  | inl t ↦ (x, rw t, omega arith, inl (refl, ground arith))
  | inr f ↦ (o, rw f, ground arith, inr refl)
]

find_id-append :
    (i : ℕ) (x : ForkItem) (xs : List ForkItem)
    → find_id i xs ≡ none
    → x.id ≡ i
    → find_id i (xs ++ x ∷ []) ≡ some x
unfolding find_id
find_id-append i x [] n e = ground arith
find_id-append i x (y ∷ ys) n e = ground (arith, find_id-append i x ys)

module _ (num_from_id : ℕ → ℕ) where
  -- An item's number is the one that stands in its id, and fits 32 bits.
  pub record IsNumbered (xs : List ForkItem) : Type 0 where
    pub in_id : (x : ForkItem) → Has x xs → num_from_id x.id ≡ x.num
    pub bounded : (x : ForkItem) → Has x xs → x.num < 2 ^ 32

  pub record IsSound (db : ForkDatabase) : Type 0 where
    pub tree : IsValid db
    pub numbered : IsNumbered (owned db)

  link-Links :
      (b : SignedBlock) (db : ForkDatabase) (x p : ForkItem)
      → IsNumbered (owned db)
      → find_id b.previous db.index ≡ some p
      → x.num ≡ block_num num_from_id b
      → x.previous ≡ b.previous
      → 0 < block_num num_from_id b
      → Links x p
  unfolding block_num
  link-Links b db x p v found num prev pos =
      let f = find_id-Has b.previous db.index found in
      let h = Has-owned_index db p f.0 in
      record {
        previous = f.1 ∙ sym prev;
        num = omega (arith, num, v.bounded p h, v.in_id p h, ap num_from_id f.1);
      }

  -- The tree's invariant survives every push that succeeds, of any block whose id holds its
  -- number: addresses stay those of distinct objects, every `prev` leads to the block whose id is
  -- the item's `previous` and whose number is one less, and numbers agree with ids.
  pub push_block-IsSound :
      (b : SignedBlock) (db db' : ForkDatabase)
      → num_from_id b.id ≡ block_num num_from_id b
      → push_block num_from_id b db ≡ ok db'
      → IsSound db
      → IsSound db'
  unfolding push_block make_item block_num owned
  push_block-IsSound b db db' id_num e v =
      let x = make_item num_from_id b db.next_addr in
      let db₁ = record db { next_addr = suc db.next_addr } in
      let (x', age, lk, q) = push_item-eq db₁ x e in
      let fields = link_item-frame db₁ x lk in
      subst IsSound q (record {
        tree =
            IsTree-grow x' (Has-owned_push db₁ x') fields.2
              (elim (link_item-eq db₁ x lk) [
                | inl same ↦ inl (ap (λ (w : ForkItem). w.prev) same)
                | inr (p, found, headed, eq) ↦ inr (
                  p,
                  Has-owned_index db p (find_id-Has b.previous db.index found).0,
                  ap (λ (w : ForkItem). w.prev) eq,
                  link-Links b db x' p v.numbered found (fields.1 ∙ refl) fields.3
                      (omega (arith, check_age-pos db₁ x age headed)),
                )
              ])
              v.tree;
        numbered = record {
          in_id = λ y h. elim (Has-owned_push db₁ x' y h) [
            | inl old ↦ v.numbered.in_id y old
            | inr new ↦ rw new (ap num_from_id fields.0 ∙ id_num ∙ sym fields.1)
          ];
          bounded = λ y h. elim (Has-owned_push db₁ x' y h) [
            | inl old ↦ v.numbered.bounded y old
            | inr new ↦ rw new (omega (arith, fields.1))
          ];
        };
      })

  -- The head after a push that succeeds is the new block, and then it is strictly above the old
  -- head, or it is the old head, and then the new block is not above it.
  pub push_block-head :
      (b : SignedBlock) (db db' : ForkDatabase)
      → push_block num_from_id b db ≡ ok db'
      → (h : ForkItem) × (db'.head ≡ some h)
        × (block_num num_from_id b ≤ h.num)
        × (((h.id ≡ b.id) × (h.num ≡ block_num num_from_id b) × Below db.head h)
            ⊎ (db.head ≡ some h))
  unfolding push_block make_item
  push_block-head b db db' e =
      let x = make_item num_from_id b db.next_addr in
      let db₁ = record db { next_addr = suc db.next_addr } in
      let (x', age, lk, q) = push_item-eq db₁ x e in
      let fields = link_item-frame db₁ x lk in
      let c = higher-cases db.head x' in
      (
        c.0,
        ap (λ (d : ForkDatabase). d.head) (sym q) ∙ c.1,
        omega (arith, c.2, fields.1),
        elim c.3 [
          | inl new ↦ inl (
            ap (λ (w : ForkItem). w.id) new.0 ∙ fields.0,
            ap (λ (w : ForkItem). w.num) new.0 ∙ fields.1,
            new.1,
          )
          | inr old ↦ inr old
        ],
      )

  -- A new block in the window whose previous block is in the index and valid is accepted: the
  -- block is then found under its id, linked to that previous block.
  pub push_block-links :
      (b : SignedBlock) (db : ForkDatabase) (h p : ForkItem)
      → db.head ≡ some h
      → h.num - db.max_size < block_num num_from_id b
      → b.previous ≢ 0
      → find_id b.previous db.index ≡ some p
      → p.invalid ≡ false
      → find_id b.id db.index ≡ none
      → (db' : ForkDatabase) × (x : ForkItem) × (push_block num_from_id b db ≡ ok db')
        × (find_id b.id db'.index ≡ some x)
        × (x.prev ≡ some p.addr)
        × (x.num ≡ block_num num_from_id b)
  unfolding push_block push_item check_age link_item make_item insert_item
  push_block-links b db h p e l n f i new =
      let x : ForkItem = record {
        addr = db.next_addr;
        prev = some p.addr;
        num = block_num num_from_id b;
        invalid = false;
        id = b.id;
        previous = b.previous;
      } in
      (
        record db {
          index = db.index ++ x ∷ [];
          head = higher db.head x;
          next_addr = suc db.next_addr;
        },
        x,
        ground arith,
        find_id-append b.id x db.index new refl,
        refl,
        refl,
      )
