-- ===== src/Chain/Table.antt =====
-- Indices of objects as lists, looked up by a test that is true of at most one object, and sums
-- over them.
use wenode.Base.{
  suc, length, ◌≡◌, refl, ap, Bool, Option, true, all, arith, none, some, List, [], ◌∷◌,
  if◌then◌else◌, Bool-cases, inl, inr, arith,
}
use wenode.Base.Int.{ℤ, pos, ◌+ℤ◌, int_laws, +ℤ_assoc, +ℤ_comm}

module _ {A : Type 0} (is_it : A → Bool) where
  unfoldable pub find_by : List A → Option A
  find_by [] = none
  find_by (x ∷ xs) = if is_it x then some x else find_by xs

  unfoldable pub replace_by : A → List A → List A
  replace_by y [] = []
  replace_by y (x ∷ xs) = let rest = replace_by y xs in if is_it x then y ∷ xs else x ∷ rest

  unfoldable pub erase_by : List A → List A
  erase_by [] = []
  erase_by (x ∷ xs) = let rest = erase_by xs in if is_it x then xs else x ∷ rest

module _ {A : Type 0} (precedes : A → A → Bool) where
  -- Insertion into an ordered index.
  unfoldable pub insert_by : A → List A → List A
  insert_by y [] = y ∷ []
  insert_by y (x ∷ xs) = let rest = insert_by y xs in if precedes y x then y ∷ x ∷ xs else x ∷ rest

  -- `modify` of an object in an ordered index: it stands where its new value belongs.
  unfoldable pub move_by : (A → Bool) → A → List A → List A
  move_by is_it y xs = insert_by y (erase_by is_it xs)

unfoldable pub total : {A : Type 0} → (A → ℤ) → List A → ℤ
total v [] = pos 0
total v (x ∷ xs) = v x +ℤ total v xs

module _ {A : Type 0} (is_it : A → Bool) (x : A) (xs : List A) where
  pub find_by-head : is_it x ≡ true → find_by is_it (x ∷ xs) ≡ some x
  unfolding find_by
  find_by-head h = rw h refl

  pub erase_by-head : is_it x ≡ true → erase_by is_it (x ∷ xs) ≡ xs
  unfolding erase_by
  erase_by-head h = rw h refl

add_under : (z a b c d : ℤ) → a +ℤ b ≡ c +ℤ d → z +ℤ a +ℤ b ≡ z +ℤ c +ℤ d
add_under z a b c d h = rw (+ℤ_assoc z a b, +ℤ_assoc z c d, h) refl

swap : (x y t : ℤ) → y +ℤ t +ℤ x ≡ x +ℤ t +ℤ y
swap x y t = omega int_laws

add_under_one : (z a b c : ℤ) → a +ℤ b ≡ c → z +ℤ a +ℤ b ≡ z +ℤ c
add_under_one z a b c h = rw (+ℤ_assoc z a b, h) refl

module _ {A : Type 0} (is_it : A → Bool) (v : A → ℤ) where
  pub total-replace_by :
      (x y : A) (xs : List A)
      → find_by is_it xs ≡ some x
      → total v (replace_by is_it y xs) +ℤ v x ≡ total v xs +ℤ v y
  unfolding find_by replace_by total
  total-replace_by x y [] e = cc
  total-replace_by x y (z ∷ xs) e = elim (Bool-cases (is_it z)) [
    | inl yes_it_is ↦
        (let same : z ≡ x = ground (arith, e, yes_it_is) in
          rw yes_it_is (rw same (swap (v x) (v y) (total v xs))))
    | inr other ↦
        (let later : find_by is_it xs ≡ some x = ground (arith, e, other) in
          rw other (
            add_under (v z) (total v (replace_by is_it y xs)) (v x) (total v xs) (v y)
              (total-replace_by x y xs later)))
  ]

  pub total-erase_by :
      (x : A) (xs : List A)
      → find_by is_it xs ≡ some x
      → total v (erase_by is_it xs) +ℤ v x ≡ total v xs
  unfolding find_by erase_by total
  total-erase_by x [] e = cc
  total-erase_by x (z ∷ xs) e = elim (Bool-cases (is_it z)) [
    | inl yes_it_is ↦
        (let same : z ≡ x = ground (arith, e, yes_it_is) in
          rw yes_it_is (rw same (+ℤ_comm (total v xs) (v x))))
    | inr other ↦
        (let later : find_by is_it xs ≡ some x = ground (arith, e, other) in
          rw other (
            add_under_one (v z) (total v (erase_by is_it xs)) (v x) (total v xs)
              (total-erase_by x xs later)))
  ]

turn : (z y t : ℤ) → z +ℤ (y +ℤ t) ≡ y +ℤ (z +ℤ t)
turn z y t = omega int_laws

pub total-insert_by :
    {A : Type 0} (precedes : A → A → Bool) (v : A → ℤ) (y : A) (xs : List A)
    → total v (insert_by precedes y xs) ≡ v y +ℤ total v xs
unfolding insert_by total
total-insert_by precedes v y [] = refl
total-insert_by precedes v y (x ∷ xs) = elim (Bool-cases (precedes y x)) [
  | inl first ↦ rw first refl
  | inr later ↦ rw (later, total-insert_by precedes v y xs) (turn (v x) (v y) (total v xs))
]

cycle : (y t x : ℤ) → y +ℤ t +ℤ x ≡ t +ℤ x +ℤ y
cycle y t x = omega int_laws

pub total-move_by :
    {A : Type 0} (precedes : A → A → Bool) (is_it : A → Bool) (v : A → ℤ) (x y : A) (xs : List A)
    → find_by is_it xs ≡ some x
    → total v (move_by precedes is_it y xs) +ℤ v x ≡ total v xs +ℤ v y
unfolding move_by
total-move_by precedes is_it v x y xs found =
    let rest = total-erase_by is_it v x xs found in
    rw (total-insert_by precedes v y (erase_by is_it xs), ← rest)
      (cycle (v y) (total v (erase_by is_it xs)) (v x))

pub find_by-replace_by :
    {A : Type 0} (is_it : A → Bool) (x y : A) (xs : List A)
    → find_by is_it xs ≡ some x
    → is_it y ≡ true
    → find_by is_it (replace_by is_it y xs) ≡ some y
unfolding find_by replace_by
find_by-replace_by is_it x y [] found h = cc
find_by-replace_by is_it x y (z ∷ xs) found h = elim (Bool-cases (is_it z)) [
  | inl yes_it_is ↦ rw yes_it_is (rw h refl)
  | inr other ↦
      rw other (rw other (find_by-replace_by is_it x y xs (ground (arith, found, other)) h))
]

module _ {A : Type 0} (p : A → Bool) where
  pub all-find_by :
      (is_it : A → Bool) (x : A) (xs : List A)
      → all p xs ≡ true
      → find_by is_it xs ≡ some x
      → p x ≡ true
  unfolding find_by
  all-find_by is_it x [] h found = cc
  all-find_by is_it x (z ∷ xs) h found = elim (Bool-cases (is_it z)) [
    | inl yes_it_is ↦
        (let same : z ≡ x = ground (arith, found, yes_it_is) in rw⁻¹ same (ground (arith, h)))
    | inr other ↦ all-find_by is_it x xs (ground (arith, h)) (ground (arith, found, other))
  ]

  pub all-erase_by :
      (is_it : A → Bool) (xs : List A) → all p xs ≡ true → all p (erase_by is_it xs) ≡ true
  unfolding erase_by
  all-erase_by is_it [] h = refl
  all-erase_by is_it (z ∷ xs) h = ground (arith, h, all-erase_by is_it xs)

  pub all-insert_by :
      (precedes : A → A → Bool) (y : A) (xs : List A)
      → p y ≡ true
      → all p xs ≡ true
      → all p (insert_by precedes y xs) ≡ true
  unfolding insert_by
  all-insert_by precedes y [] py h = rw py refl
  all-insert_by precedes y (z ∷ xs) py h = ground (arith, h, py, all-insert_by precedes y xs)

pub length-erase_by :
    {A : Type 0} (is_it : A → Bool) (x : A) (xs : List A)
    → find_by is_it xs ≡ some x
    → suc (length (erase_by is_it xs)) ≡ length xs
unfolding find_by erase_by
length-erase_by is_it x [] found = cc
length-erase_by is_it x (z ∷ xs) found = elim (Bool-cases (is_it z)) [
  | inl yes_it_is ↦ rw yes_it_is refl
  | inr other ↦ rw other (ap suc (length-erase_by is_it x xs (ground (arith, found, other))))
]
