-- ===== src/Protocol/Operations/Content/Beneficiaries.antt =====
-- Which lists of beneficiaries are accepted.
use wenode.Base.{
  ℕ, ◌+◌, ◌≤◌, ◌<◌, ◌≡◌, refl, Bool, true, false, ◌&&◌, List, [], ◌∷◌, length, all, leb, ltb,
  assert, ok, err, fc_assert, ◌⊎◌, inl, inr, Bool-cases, arith,
}
use wenode.Protocol.Authority.{is_valid_account_name, name_lt}
use wenode.Protocol.Operations.{validate_account_name}
use wenode.Protocol.Operations.Content.{
  BeneficiaryRoute, check_route, check_routes, validate_beneficiaries,
}

-- The shares added up, with no bound on the sum.
abbrev pub total : List BeneficiaryRoute → ℕ
total [] = 0
total (b ∷ rest) = b.weight + total rest

abbrev valid_name : BeneficiaryRoute → Bool
valid_name b = is_valid_account_name b.account

-- Every account comes before the next one.
abbrev pub ascending : BeneficiaryRoute → List BeneficiaryRoute → Bool
ascending p [] = true
ascending p (b ∷ rest) = name_lt p.account b.account && ascending b rest

check_route-ok :
    (sum : ℕ) (b : BeneficiaryRoute)
    → sum ≤ 10000
    → valid_name b ≡ true
    → sum + b.weight ≤ 10000
    → check_route sum b ≡ ok (sum + b.weight)
unfolding check_route validate_account_name
check_route-ok sum b small v s = ground arith

check_route-err :
    (sum : ℕ) (b : BeneficiaryRoute)
    → sum ≤ 10000
    → (valid_name b ≡ false) ⊎ (10000 < sum + b.weight)
    → check_route sum b ≡ err fc_assert
unfolding check_route validate_account_name
check_route-err sum b small v = ground arith

total_over :
    (sum : ℕ) (p b : BeneficiaryRoute) (rest : List BeneficiaryRoute)
    → 10000 < sum + b.weight
    → (all valid_name (b ∷ rest) && leb (sum + total (b ∷ rest)) 10000 && ascending p (b ∷ rest))
      ≡ false
total_over sum p b rest over = ground arith

check_routes-eq :
    (sum : ℕ) (p : BeneficiaryRoute) (rest : List BeneficiaryRoute)
    → sum ≤ 10000
    → check_routes sum p rest
      ≡ assert (all valid_name rest && leb (sum + total rest) 10000 && ascending p rest)
unfolding check_routes
check_routes-eq sum p [] small = ground arith
check_routes-eq sum p (b ∷ rest) small = elim (Bool-cases (valid_name b)) [
  | inr bad ↦ rw (check_route-err sum b small (inl bad)) (rw bad refl)
  | inl good ↦ elim (Bool-cases (leb (sum + b.weight) 10000)) [
    | inr over ↦
        rw (check_route-err sum b small (inr (ground arith)))
          (rw (total_over sum p b rest (ground arith)) refl)
    | inl under ↦
        rw (check_route-ok sum b small good (ground arith))
          (ground (arith, good, check_routes-eq (sum + b.weight) b rest (ground arith)))
  ]
]

-- The reference: between 1 and 127 entries, of valid account names in strictly ascending order,
-- whose weights add up, in unbounded numbers, to at most 100%.
abbrev pub accepted : List BeneficiaryRoute → Bool
accepted [] = false
accepted (b ∷ rest) =
    ltb (length (b ∷ rest)) 128
    && all valid_name (b ∷ rest)
    && leb (total (b ∷ rest)) 10000
    && ascending b rest

-- `comment_payout_beneficiaries::validate` does not throw exactly on the lists that the reference
-- accepts, and throws an assertion on all others: adding up in 32 bits, one entry at a time,
-- never lets a sum above 100% through, whatever the weights.
pub validate_beneficiaries-accepted :
    (bs : List BeneficiaryRoute) → validate_beneficiaries bs ≡ assert (accepted bs)
unfolding validate_beneficiaries
validate_beneficiaries-accepted [] = refl
validate_beneficiaries-accepted (b ∷ rest) = elim (Bool-cases (valid_name b)) [
  | inr bad ↦ rw (check_route-err 0 b (omega arith) (inl bad)) (ground (arith, bad))
  | inl good ↦ elim (Bool-cases (leb b.weight 10000)) [
    | inr over ↦ rw (check_route-err 0 b (omega arith) (inr (ground arith))) (ground arith)
    | inl under ↦
        rw (check_route-ok 0 b (omega arith) good (ground arith))
          (ground (arith, good, check_routes-eq b.weight b rest (ground arith)))
  ]
]
