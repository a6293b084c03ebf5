-- ===== src/Base/Lists.antt =====
-- Lists under native lengths, finite sets of numbers and maps keyed by numbers.
use Prim.Native.Nat.{ℕ, zero, suc, ◌+◌}
use mathlib.Core.Path.{◌≡◌}
use mathlib.Core.Bool.{Bool, true, false, ◌||◌, ◌&&◌}
use mathlib.Core.List.{List, [], ◌∷◌, ◌++◌}
use mathlib.Core.Option.{Option, none, some}
use native.Mathlib.Omega.{arith}
use wenode.Base.Tests.{◌==◌, if◌then◌else◌, is_some}

module _ {ℓ} {A : Type ℓ} where
  abbrev pub length : List A → ℕ
  length [] = 0
  length (x ∷ xs) = suc (length xs)

  abbrev pub get_elem? : List A → ℕ → Option A
  get_elem? [] i = none
  get_elem? (x ∷ xs) zero = some x
  get_elem? (x ∷ xs) (suc i) = get_elem? xs i

  abbrev pub all : (A → Bool) → List A → Bool
  all p [] = true
  all p (x ∷ xs) = p x && all p xs

  abbrev pub is_empty : List A → Bool
  is_empty [] = true
  is_empty (_ ∷ _) = false

module _ {ℓ} {A : Type ℓ} where
  pub length-append : (xs ys : List A) → length (xs ++ ys) ≡ length xs + length ys
  length-append [] ys = omega arith
  length-append (x ∷ xs) ys = omega (arith, length-append xs ys)

-- A set of numbers: membership is what counts.
abbrev pub member : ℕ → List ℕ → Bool
member i [] = false
member i (j ∷ s) = i == j || member i s

abbrev pub insert_id : ℕ → List ℕ → List ℕ
insert_id i s = if member i s then s else i ∷ s

abbrev pub erase_id : ℕ → List ℕ → List ℕ
erase_id i [] = []
erase_id i (j ∷ s) = let rest = erase_id i s in if i == j then rest else j ∷ rest

pub member-insert_id : (i j : ℕ) (s : List ℕ) → member j (insert_id i s) ≡ (j == i || member j s)
member-insert_id i j s = ground arith

pub member-erase_id :
    (i j : ℕ) (s : List ℕ) → member j (erase_id i s) ≡ (if j == i then false else member j s)
member-erase_id i j [] = ground arith
member-erase_id i j (k ∷ s) = ground (arith, member-erase_id i j s)

-- A map keyed by numbers. `emplace` keeps an entry that is there already, as in C++.
abbrev pub Dict {ℓ} : Type ℓ → Type ℓ
Dict V = List (ℕ × V)

module _ {ℓ} {V : Type ℓ} where
  abbrev pub lookup : ℕ → Dict V → Option V
  lookup k [] = none
  lookup k ((j, v) ∷ d) = if k == j then some v else lookup k d

  abbrev pub emplace_entry : ℕ → V → Dict V → Dict V
  emplace_entry k v d = if is_some (lookup k d) then d else (k, v) ∷ d

  abbrev pub erase_entry : ℕ → Dict V → Dict V
  erase_entry k [] = []
  erase_entry k ((j, v) ∷ d) = let rest = erase_entry k d in if k == j then rest else (j, v) ∷ rest

  pub lookup-emplace_entry_self :
      (k : ℕ) (v : V) (d : Dict V)
      → lookup k (emplace_entry k v d) ≡ (elim (lookup k d) [ none ↦ some v | some w ↦ some w ])
  lookup-emplace_entry_self k v d = ground arith

  pub lookup-emplace_entry_ne :
      (k j : ℕ) (v : V) (d : Dict V)
      → (j == k) ≡ false
      → lookup j (emplace_entry k v d) ≡ lookup j d
  lookup-emplace_entry_ne k j v d h = ground arith

  pub lookup-erase_entry :
      (k j : ℕ) (d : Dict V) → lookup j (erase_entry k d) ≡ (if j == k then none else lookup j d)
  lookup-erase_entry k j [] = ground arith
  lookup-erase_entry k j ((i, v) ∷ d) = ground (arith, lookup-erase_entry k j d)
