-- ===== src/Chain/Irreversible/Threshold.antt =====
-- A block becomes irreversible when three quarters of the scheduled witnesses have confirmed it.
use wenode.Base.{
  ℕ, zero, suc, ◌+◌, ◌-◌, ◌*◌, ◌/◌, ◌%◌, ◌^◌, ◌≤◌, ◌≡◌, ◌⊎◌, inl, inr, refl, Bool, true, ◌&&◌,
  Option, some, List, [], ◌∷◌, ltb, leb, if◌then◌else◌, get_elem?, length, all, Bool-cases, ok,
  or_throw, or_throw-eq-ok, undefined, arith,
}
use wenode.Base.Returns.{Returns, gives, after, after_if}
use wenode.Protocol.Names.{Name}
use wenode.Protocol.Operations.{percent_100}
use wenode.Chain.Irreversible.{
  confirmed_by, insert, sort, nth_element, update_last_irreversible_block, start_miner_voting_block,
  irreversible_threshold,
}

-- How many of the numbers are at least `n`.
unfoldable pub at_least : ℕ → List ℕ → ℕ
at_least n [] = 0
at_least n (m ∷ ms) = let rest = at_least n ms in if leb n m then suc rest else rest

is_sorted : List ℕ → Bool
is_sorted [] = true
is_sorted (n ∷ ns) = all (leb n) ns && is_sorted ns

at_least-insert : (n k : ℕ) (ms : List ℕ) → at_least n (insert k ms) ≡ at_least n (k ∷ ms)
unfolding at_least insert
at_least-insert n k [] = refl
at_least-insert n k (m ∷ ms) = ground (arith, at_least-insert n k ms)

at_least-sort : (n : ℕ) (ms : List ℕ) → at_least n (sort ms) ≡ at_least n ms
unfolding at_least sort
at_least-sort n [] = refl
at_least-sort n (m ∷ ms) = rw (at_least-insert n m (sort ms)) (ground (arith, at_least-sort n ms))

length-insert : (k : ℕ) (ms : List ℕ) → length (insert k ms) ≡ suc (length ms)
unfolding insert
length-insert k [] = refl
length-insert k (m ∷ ms) = ground (arith, length-insert k ms)

length-sort : (ms : List ℕ) → length (sort ms) ≡ length ms
unfolding sort
length-sort [] = refl
length-sort (m ∷ ms) = rw (length-insert m (sort ms), length-sort ms) refl

all-insert :
    (n k : ℕ) (ms : List ℕ)
    → leb n k ≡ true
    → all (leb n) ms ≡ true
    → all (leb n) (insert k ms) ≡ true
unfolding insert
all-insert n k [] h a = ground (arith, h)
all-insert n k (m ∷ ms) h a = ground (arith, h, a, all-insert n k ms)

all-weaken : (n m : ℕ) (ms : List ℕ) → n ≤ m → all (leb m) ms ≡ true → all (leb n) ms ≡ true
all-weaken n m [] h a = refl
all-weaken n m (k ∷ ms) h a = ground (arith, h, a, all-weaken n m ms)

is_sorted-insert : (k : ℕ) (ms : List ℕ) → is_sorted ms ≡ true → is_sorted (insert k ms) ≡ true
unfolding is_sorted insert
is_sorted-insert k [] h = refl
is_sorted-insert k (m ∷ ms) h = elim (Bool-cases (leb k m)) [
  | inl below ↦ rw below (ground (arith, below, h, all-weaken k m ms))
  | inr above ↦ rw above (ground (arith, above, h, is_sorted-insert k ms, all-insert m k ms))
]

is_sorted-sort : (ms : List ℕ) → is_sorted (sort ms) ≡ true
unfolding is_sorted sort
is_sorted-sort [] = refl
is_sorted-sort (m ∷ ms) = is_sorted-insert m (sort ms) (is_sorted-sort ms)

at_least-all : (n : ℕ) (ms : List ℕ) → all (leb n) ms ≡ true → at_least n ms ≡ length ms
unfolding at_least
at_least-all n [] a = refl
at_least-all n (m ∷ ms) a = ground (arith, a, at_least-all n ms)

at_least-get_elem? :
    (k n : ℕ) (ms : List ℕ)
    → is_sorted ms ≡ true
    → get_elem? ms k ≡ some n
    → length ms ≤ at_least n ms + k
unfolding is_sorted at_least
at_least-get_elem? k n [] h e = omega arith
at_least-get_elem? zero n (m ∷ ms) h e =
    let same : m ≡ n = ground (arith, e) in
    let rest = at_least-all n ms (all-weaken n m ms (omega (arith, same)) (ground (arith, h))) in
    let below : leb n m ≡ true = ground (arith, same) in rw below (omega (arith, rest))
at_least-get_elem? (suc k) n (m ∷ ms) h e =
    let rest = at_least-get_elem? k n ms (ground (arith, h)) e in ground (arith, rest)

at_least-antitone : (m n : ℕ) (ks : List ℕ) → m ≤ n → at_least n ks ≤ at_least m ks
unfolding at_least
at_least-antitone m n [] h = omega arith
at_least-antitone m n (k ∷ ks) h = ground (arith, h, at_least-antitone m n ks h)

at_most_itself : (n : ℕ) → n % 2 ^ 32 ≤ n
at_most_itself n = omega arith

-- What the update makes of the number `last`, once witnesses are voted for.
Advanced : (Name → Option ℕ) → List Name → ℕ → ℕ → Type 0
Advanced get_witness scheduled last new =
    (last ≤ new)
    × ((new ≡ last)
        ⊎ ((confirmed : List ℕ) × (confirmed_by get_witness scheduled ≡ ok confirmed)
            × (3 * length confirmed ≤ 4 * at_least new confirmed)))

update-Advanced :
    (get_witness : Name → Option ℕ) (scheduled : List Name) (head last : ℕ)
    → start_miner_voting_block ≤ head
    → Returns
        (Advanced get_witness scheduled last)
        (update_last_irreversible_block get_witness scheduled head last)
unfolding update_last_irreversible_block Advanced nth_element
update-Advanced get_witness scheduled head last voted =
    after_if (ltb head start_miner_voting_block) _ _ (λ early. ground (arith, early, voted))
      (λ started. after (confirmed_by get_witness scheduled) _ (λ confirmed looked_up.
        let offset = (percent_100 - irreversible_threshold) * length confirmed / percent_100 in
        after (or_throw (nth_element offset confirmed) undefined) _ (λ n there.
          let new = n % 2 ^ 32 in
          let found = or_throw-eq-ok (nth_element offset confirmed) undefined there in
          let above =
            at_least-get_elem? offset n (sort confirmed) (is_sorted-sort confirmed) found in
          let enough : length confirmed ≤ at_least n confirmed + offset =
            rw (at_least-sort n confirmed, length-sort confirmed) at above in
          let more = at_least-antitone new n confirmed (at_most_itself n) in
          gives _ (elim (Bool-cases (ltb last new)) [
            | inl higher ↦
                rw higher
                  (ground (arith, higher), inr (confirmed, looked_up, omega (arith, enough, more)))
            | inr not_higher ↦ rw not_higher (omega arith, inl refl)
          ]))))

-- Once witnesses are voted for, the number of the last irreversible block never goes down, and a
-- block becomes irreversible only when three quarters of the scheduled witnesses have confirmed it
-- or a later one.
pub update_last_irreversible_block-at_least :
    (get_witness : Name → Option ℕ) (scheduled : List Name) (head last : ℕ) {new : ℕ}
    → start_miner_voting_block ≤ head
    → update_last_irreversible_block get_witness scheduled head last ≡ ok new
    → (last ≤ new)
      × ((new ≡ last)
          ⊎ ((confirmed : List ℕ) × (confirmed_by get_witness scheduled ≡ ok confirmed)
              × (3 * length confirmed ≤ 4 * at_least new confirmed)))
unfolding Advanced
update_last_irreversible_block-at_least get_witness scheduled head last voted done =
    (update-Advanced get_witness scheduled head last voted).returned done
