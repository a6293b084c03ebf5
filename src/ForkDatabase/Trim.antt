-- ===== src/ForkDatabase/Trim.antt =====
-- `set_max_size`: the loops that erase from the low end keep the items in the window and no other.
use wenode.Base.{
  ℕ, zero, suc, ◌-◌, ◌≤◌, ◌<◌, ◌≡◌, ◌≢◌, refl, sym, ap, subst, ◌∙◌, false, none, some, List, [],
  ◌∷◌, inl, inr, ltb, if◌then◌else◌, length, Bool-cases, Option-cases, arith,
}
use wenode.ForkDatabase.{ForkItem, ForkDatabase, find_id, lowest, erase_id, trim, set_max_size}
use wenode.ForkDatabase.Links.{Has}

-- The items that are not below a number.
pub recent : ℕ → List ForkItem → List ForkItem
recent bound [] = []
recent bound (x ∷ xs) = let rest = recent bound xs in if ltb x.num bound then rest else x ∷ rest

-- No id stands twice: what the container's unique key sees to.
abbrev pub IsUniqueItems : List ForkItem → Type 0
IsUniqueItems [] = Unit
IsUniqueItems (x ∷ xs) = (find_id x.id xs ≡ none) × IsUniqueItems xs

leb_of_ltb : (a b : ℕ) → ltb a b ≡ false → b ≤ a
leb_of_ltb a b h = ground arith

lowest-none : (xs : List ForkItem) (x : ForkItem) → lowest xs ≡ none → ¬ Has x xs
unfolding lowest
lowest-none [] x e h = h
lowest-none (z ∷ zs) x e h = absurd (ground arith)

lowest-le : (xs : List ForkItem) (y x : ForkItem) → lowest xs ≡ some y → Has x xs → y.num ≤ x.num
unfolding lowest
lowest-le [] y x e h = absurd h
lowest-le (z ∷ zs) y x e (inl same) = rw same (ground arith)
lowest-le (z ∷ zs) y x e (inr h) = elim (Option-cases (lowest zs)) [
  | inl n ↦ absurd (lowest-none zs x n h)
  | inr (w, s) ↦ ground (arith, lowest-le zs w x s h)
]

lowest-Has : (xs : List ForkItem) (y : ForkItem) → lowest xs ≡ some y → Has y xs
unfolding lowest
lowest-Has [] y e = absurd (cc)
lowest-Has (z ∷ zs) y e = elim (Option-cases (lowest zs)) [
  | inl n ↦ inl (ground arith)
  | inr (w, s) ↦ elim (Bool-cases (ltb w.num z.num)) [
    | inl t ↦
        (let same : y ≡ w = ground arith in
          inr (subst (λ k. Has k zs) (sym same) (lowest-Has zs w s)))
    | inr f ↦ inl (ground arith)
  ]
]

recent-all :
    (bound : ℕ) (xs : List ForkItem)
    → ((x : ForkItem) → Has x xs → bound ≤ x.num)
    → recent bound xs ≡ xs
unfolding recent
recent-all bound [] h = refl
recent-all bound (x ∷ xs) h =
    ground (arith, h x (inl refl), recent-all bound xs (λ y k. h y (inr k)))

find_id-erase_none : (i : ℕ) (xs : List ForkItem) → find_id i xs ≡ none → erase_id i xs ≡ xs
unfolding find_id erase_id
find_id-erase_none i [] e = refl
find_id-erase_none i (x ∷ xs) e = ground (arith, find_id-erase_none i xs)

find_id-ne_none : (y : ForkItem) (xs : List ForkItem) → Has y xs → find_id y.id xs ≢ none
unfolding find_id
find_id-ne_none y [] h = absurd h
find_id-ne_none y (x ∷ xs) (inl same) = rw same (ground arith)
find_id-ne_none y (x ∷ xs) (inr h) = ground (arith, find_id-ne_none y xs h)

recent-erase_id :
    (bound : ℕ) (y : ForkItem) (xs : List ForkItem)
    → IsUniqueItems xs
    → Has y xs
    → y.num < bound
    → recent bound (erase_id y.id xs) ≡ recent bound xs
unfolding recent erase_id
recent-erase_id bound y (x ∷ xs) u (inl same) l =
    let gone : find_id y.id xs ≡ none = rw same u.0 in
    ground (arith, find_id-erase_none y.id xs gone, ap (λ (w : ForkItem). w.num) same)
recent-erase_id bound y (x ∷ xs) u (inr h) l =
    let other : x.id ≢ y.id =
      λ e. find_id-ne_none y xs h (ap (λ (i : ℕ). find_id i xs) (sym e) ∙ u.0) in
    ground (arith, recent-erase_id bound y xs u.1 h l)
recent-erase_id bound y [] u h l = absurd h

length-erase_id-le : (i : ℕ) (xs : List ForkItem) → length (erase_id i xs) ≤ length xs
unfolding erase_id
length-erase_id-le i [] = omega arith
length-erase_id-le i (x ∷ xs) = ground (arith, length-erase_id-le i xs)

length-erase_id :
    (y : ForkItem) (xs : List ForkItem) → Has y xs → length (erase_id y.id xs) < length xs
unfolding erase_id
length-erase_id y [] h = absurd h
length-erase_id y (x ∷ xs) (inl same) =
    ground (arith, length-erase_id-le y.id xs, ap (λ (w : ForkItem). w.id) same)
length-erase_id y (x ∷ xs) (inr h) = ground (arith, length-erase_id y xs h)

find_id-erase_id :
    (i j : ℕ) (xs : List ForkItem) → find_id j xs ≡ none → find_id j (erase_id i xs) ≡ none
unfolding find_id erase_id
find_id-erase_id i j [] e = refl
find_id-erase_id i j (x ∷ xs) e = ground (arith, find_id-erase_id i j xs)

erase_id-IsUniqueItems :
    (i : ℕ) (xs : List ForkItem) → IsUniqueItems xs → IsUniqueItems (erase_id i xs)
unfolding erase_id
erase_id-IsUniqueItems i [] u = tt
erase_id-IsUniqueItems i (x ∷ xs) u =
    ground (arith, erase_id-IsUniqueItems i xs u.1, find_id-erase_id i x.id xs u.0)

trim-recent :
    (fuel bound : ℕ) (xs : List ForkItem)
    → IsUniqueItems xs
    → length xs ≤ fuel
    → trim fuel bound xs ≡ recent bound xs
unfolding trim recent
trim-recent zero bound [] u l = refl
trim-recent zero bound (x ∷ xs) u l = absurd (omega arith)
trim-recent (suc fuel) bound xs u l = elim (Option-cases (lowest xs)) [
  | inl n ↦ rw (n, trim) (sym (recent-all bound xs (λ x h. absurd (lowest-none xs x n h))))
  | inr (y, s) ↦
      (let h = lowest-Has xs y s in
        elim (Bool-cases (ltb y.num bound)) [
          | inl low ↦ ground (
            arith,
            trim-recent fuel bound (erase_id y.id xs) (erase_id-IsUniqueItems y.id xs u)
                (omega (arith, length-erase_id y xs h)),
            recent-erase_id bound y xs u h (ground arith),
          )
          | inr high ↦ ground (
            arith,
            recent-all bound xs
                (λ x k. omega (arith, lowest-le xs y x s k, leb_of_ltb y.num bound high)),
          )
        ])
]

-- Where ids are unique in both indices and there is a head, `set_max_size` keeps the head, and
-- exactly the items that are not below the new window under it, in their order.
pub set_max_size-recent :
    (s : ℕ) (db : ForkDatabase) (h : ForkItem)
    → IsUniqueItems db.index
    → IsUniqueItems db.unlinked_index
    → db.head ≡ some h
    → ((set_max_size s db).head ≡ some h)
      × ((set_max_size s db).max_size ≡ s)
      × ((set_max_size s db).index ≡ recent (h.num - s) db.index)
      × ((set_max_size s db).unlinked_index ≡ recent (h.num - s) db.unlinked_index)
unfolding set_max_size
set_max_size-recent s db h u w e =
    let known = trim-recent (length db.index) (h.num - s) db.index u (omega arith) in
    let unlinked =
      trim-recent (length db.unlinked_index) (h.num - s) db.unlinked_index w (omega arith) in
    (ground arith, ground arith, ground (arith, known), ground (arith, unlinked))
