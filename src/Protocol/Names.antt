-- ===== src/Protocol/Names.antt =====
-- Account names as byte strings, and the map with ordered keys that authorities are made of.
use wenode.Base.{
  ℕ, ◌≡◌, refl, Bool, true, false, ◌&&◌, ◌||◌, List, [], ◌∷◌, ltb, ◌==◌, if◌then◌else◌, Dict, arith,
}

abbrev pub Name : Type 0
Name = List ℕ

unfoldable pub name_eq : Name → Name → Bool
name_eq [] [] = true
name_eq [] (d ∷ t) = false
name_eq (c ∷ s) [] = false
name_eq (c ∷ s) (d ∷ t) = c == d && name_eq s t

pub name_eq→≡ : (s t : Name) → name_eq s t ≡ true → s ≡ t
unfolding name_eq
name_eq→≡ [] [] h = refl
name_eq→≡ [] (d ∷ t) h = cc
name_eq→≡ (c ∷ s) [] h = cc
name_eq→≡ (c ∷ s) (d ∷ t) h = ground (arith, name_eq→≡ s t)

pub name_eq_refl : (s : Name) → name_eq s s ≡ true
unfolding name_eq
name_eq_refl [] = refl
name_eq_refl (c ∷ s) = ground (arith, name_eq_refl s)

-- Membership in a `flat_set` of names.
unfoldable pub has_name : Name → List Name → Bool
unfolding name_eq
has_name a [] = false
has_name a (b ∷ s) = name_eq a b || has_name a s

-- `map[k] = v` in a `flat_map`, whose entries are in the order of their keys.
unfoldable pub assign {ℓ} : {V : Type ℓ} → ℕ → V → Dict V → Dict V
assign k v [] = (k, v) ∷ []
assign k v ((j, w) ∷ d) =
    let rest = assign k v d in
    if k == j then (k, v) ∷ d else if ltb k j then (k, v) ∷ (j, w) ∷ d else (j, w) ∷ rest
