-- ===== src/Protocol/Merkle/Binding.antt =====
-- The root determines the digests, up to a collision of the hash functions.
use wenode.Base.{
  ℕ, zero, suc, ◌≤◌, ◌<◌, ◌≡◌, ◌≢◌, refl, sym, ap, ◌⊎◌, inl, inr, List, [], ◌∷◌, length, map, ◌==◌,
  Bool-cases, arith,
}
use wenode.Protocol.Merkle.{merkle_round, merkle_loop, root_of, calculate_merkle_root}

-- Two different inputs of a hash function with the same output.
pub data Collision (hash_pair : ℕ → ℕ → ℕ) (hash : ℕ → ℕ) : Type 0 where
  of_pairs :
      (a b c d : ℕ) → (a ≢ c) ⊎ (b ≢ d) → hash_pair a b ≡ hash_pair c d → Collision hash_pair hash
  of_roots : (a b : ℕ) → a ≢ b → hash a ≡ hash b → Collision hash_pair hash

module _ (hash_pair : ℕ → ℕ → ℕ) (hash : ℕ → ℕ) where
  length-merkle_round :
      (ids : List ℕ)
      → (length (merkle_round hash_pair ids) ≤ length ids)
        × (2 ≤ length ids → length (merkle_round hash_pair ids) < length ids)
        × (1 ≤ length ids → 1 ≤ length (merkle_round hash_pair ids))
  unfolding merkle_round
  length-merkle_round [] = (omega arith, λ h. omega arith, λ h. omega arith)
  length-merkle_round (a ∷ []) = (omega arith, λ h. omega arith, λ h. omega arith)
  length-merkle_round (a ∷ b ∷ ids) =
      let (le, _, _) = length-merkle_round ids in
      (omega (arith, le), λ h. omega (arith, le), λ h. omega arith)

  -- The loop ends: on at least one hash, and on at most one more than the rounds it may take, it
  -- leaves exactly one.
  pub length-merkle_loop :
      (fuel : ℕ) (ids : List ℕ)
      → 1 ≤ length ids
      → length ids ≤ suc fuel
      → length (merkle_loop hash_pair fuel ids) ≡ 1
  unfolding merkle_loop
  length-merkle_loop fuel [] some l = absurd (omega arith)
  length-merkle_loop fuel (a ∷ []) some l = refl
  length-merkle_loop zero (a ∷ b ∷ ids) some l = absurd (omega arith)
  length-merkle_loop (suc fuel) (a ∷ b ∷ ids) some l =
      let (_, less, still) = length-merkle_round (a ∷ b ∷ ids) in
      length-merkle_loop fuel (merkle_round hash_pair (a ∷ b ∷ ids)) (still (omega arith))
        (omega (arith, less (omega arith)))

  same_length :
      (xs ys : List ℕ)
      → length xs ≡ length ys
      → length (merkle_round hash_pair xs) ≡ length (merkle_round hash_pair ys)
  unfolding merkle_round
  same_length [] [] e = refl
  same_length [] (y ∷ ys) e = absurd (omega arith)
  same_length (x ∷ xs) [] e = absurd (omega arith)
  same_length (x ∷ []) (y ∷ []) e = refl
  same_length (x ∷ []) (y ∷ z ∷ ys) e = absurd (omega arith)
  same_length (x ∷ w ∷ xs) (y ∷ []) e = absurd (omega arith)
  same_length (x ∷ w ∷ xs) (y ∷ z ∷ ys) e = omega (arith, same_length xs ys (omega arith))

  merkle_round-binds :
      (xs ys : List ℕ)
      → length xs ≡ length ys
      → merkle_round hash_pair xs ≡ merkle_round hash_pair ys
      → (xs ≡ ys) ⊎ Collision hash_pair hash
  unfolding merkle_round
  merkle_round-binds [] [] l e = inl refl
  merkle_round-binds [] (y ∷ ys) l e = absurd (omega arith)
  merkle_round-binds (x ∷ xs) [] l e = absurd (omega arith)
  merkle_round-binds (x ∷ []) (y ∷ []) l e = inl e
  merkle_round-binds (x ∷ []) (y ∷ z ∷ ys) l e = absurd (omega arith)
  merkle_round-binds (x ∷ w ∷ xs) (y ∷ []) l e = absurd (omega arith)
  merkle_round-binds (x ∷ w ∷ xs) (y ∷ z ∷ ys) l e =
      elim (merkle_round-binds xs ys (omega arith) (cc)) [
        | inr c ↦ inr c
        | inl rest ↦ elim (Bool-cases (x == y)) [
          | inr other ↦ inr (of_pairs x w y z (inl (λ q. ground arith)) (cc))
          | inl same ↦ elim (Bool-cases (w == z)) [
            | inr other ↦ inr (of_pairs x w y z (inr (λ q. ground arith)) (cc))
            | inl same' ↦ inl (ground (arith, rest))
          ]
        ]
      ]

  merkle_loop-binds :
      (fuel : ℕ) (xs ys : List ℕ)
      → length xs ≡ length ys
      → merkle_loop hash_pair fuel xs ≡ merkle_loop hash_pair fuel ys
      → (xs ≡ ys) ⊎ Collision hash_pair hash
  unfolding merkle_loop
  merkle_loop-binds fuel [] [] l e = inl refl
  merkle_loop-binds fuel [] (y ∷ ys) l e = absurd (omega arith)
  merkle_loop-binds fuel (x ∷ xs) [] l e = absurd (omega arith)
  merkle_loop-binds fuel (x ∷ []) (y ∷ []) l e = inl e
  merkle_loop-binds fuel (x ∷ []) (y ∷ z ∷ ys) l e = absurd (omega arith)
  merkle_loop-binds fuel (x ∷ w ∷ xs) (y ∷ []) l e = absurd (omega arith)
  merkle_loop-binds zero (x ∷ w ∷ xs) (y ∷ z ∷ ys) l e = inl e
  merkle_loop-binds (suc fuel) (x ∷ w ∷ xs) (y ∷ z ∷ ys) l e =
      elim (merkle_loop-binds fuel (merkle_round hash_pair (x ∷ w ∷ xs))
        (merkle_round hash_pair (y ∷ z ∷ ys)) (same_length (x ∷ w ∷ xs) (y ∷ z ∷ ys) l) e) [
          | inr c ↦ inr c
          | inl same ↦ merkle_round-binds (x ∷ w ∷ xs) (y ∷ z ∷ ys) l same
        ]

length-map : {A : Type 0} (f : A → ℕ) (xs : List A) → length (map f xs) ≡ length xs
length-map f [] = refl
length-map f (x ∷ xs) = ap suc (length-map f xs)

module _ {Transaction : Type 0} (merkle_digest : Transaction → ℕ) (hash_pair : ℕ → ℕ → ℕ)
    (hash : ℕ → ℕ) (no_checksum : ℕ) where
  root_of-binds :
      (xs ys : List ℕ)
      → length xs ≡ 1
      → length ys ≡ 1
      → root_of merkle_digest hash_pair hash no_checksum xs
        ≡ root_of merkle_digest hash_pair hash no_checksum ys
      → (xs ≡ ys) ⊎ Collision hash_pair hash
  unfolding root_of
  root_of-binds [] ys lx ly e = absurd (omega arith)
  root_of-binds (x ∷ xs) [] lx ly e = absurd (omega arith)
  root_of-binds (x ∷ w ∷ xs) ys lx ly e = absurd (omega arith)
  root_of-binds (x ∷ []) (y ∷ z ∷ ys) lx ly e = absurd (omega arith)
  root_of-binds (x ∷ []) (y ∷ []) lx ly e = elim (Bool-cases (x == y)) [
    | inl same ↦ inl (ground arith)
    | inr other ↦ inr (of_roots x y (λ q. ground arith) e)
  ]

  -- Two blocks with the same number of transactions, at least one, and with the same Merkle root
  -- have the same digests in the same order, unless a collision of one of the two hash functions
  -- is found.
  pub calculate_merkle_root-binds :
      (ts us : List Transaction)
      → 1 ≤ length ts
      → length ts ≡ length us
      → calculate_merkle_root merkle_digest hash_pair hash no_checksum ts
        ≡ calculate_merkle_root merkle_digest hash_pair hash no_checksum us
      → (map merkle_digest ts ≡ map merkle_digest us) ⊎ Collision hash_pair hash
  unfolding calculate_merkle_root
  calculate_merkle_root-binds ts us some l e =
      let xs = map merkle_digest ts in
      let ys = map merkle_digest us in
      let lx = length-map merkle_digest ts in
      let ly = length-map merkle_digest us in
      let same : length xs ≡ length ys = omega (arith, lx, ly) in
      let one_x =
        length-merkle_loop hash_pair hash (length xs) xs (omega (arith, lx)) (omega arith) in
      let one_y =
        length-merkle_loop hash_pair hash (length ys) ys (omega (arith, ly)) (omega arith) in
      elim (root_of-binds (merkle_loop hash_pair (length xs) xs)
        (merkle_loop hash_pair (length ys) ys) one_x one_y e) [
          | inr c ↦ inr c
          | inl loops ↦
              merkle_loop-binds hash_pair hash (length xs) xs ys same (rw (sym same) at loops)
        ]
