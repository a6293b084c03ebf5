-- ===== src/Protocol/Authority/Grammar.antt =====
-- The grammar in the comment on `is_valid_account_name` (authority.hpp), and weights against sums.
use wenode.Base.{
  ℕ, zero, suc, ◌+◌, ◌%◌, ◌^◌, ◌≤◌, ◌<◌, ◌≡◌, refl, sym, ap, true, none, some, List, [], ◌∷◌, ◌++◌,
  ◌⊎◌, inl, inr, ◌↔◌, length, length-append, Bool-cases, Option-cases, arith,
}
use wenode.Protocol.Names.{Name}
use wenode.Protocol.Authority.{
  Authority, is_letter_or_digit, tail_ok, label_ok, split_label, labels_ok, is_valid_account_name,
  add_weights, is_impossible,
}

abbrev pub IsLetter : ℕ → Type 0
IsLetter c = (b'a' ≤ c) × (c ≤ b'z')

abbrev pub IsLetterOrDigit : ℕ → Type 0
IsLetterOrDigit c = IsLetter c ⊎ ((b'0' ≤ c) × (c ≤ b'9'))

-- `[ <let-dig-hyp>+ ] <let-dig>`
pub data IsTail : Name → Type 0 where
  last : {c : ℕ} → IsLetterOrDigit c → IsTail (c ∷ [])
  inner : {c : ℕ} {s : Name} → IsLetterOrDigit c ⊎ (c ≡ b'-') → IsTail s → IsTail (c ∷ s)

-- A label is three characters or more, and begins with a letter.
pub data IsLabel : Name → Type 0 where
  label : {c : ℕ} {s : Name} → IsLetter c → IsTail s → 2 ≤ length s → IsLabel (c ∷ s)

-- `<label> ("." <label>)*`
pub data IsDomain : Name → Type 0 where
  one : {s : Name} → IsLabel s → IsDomain s
  dotted : {s : Name} (l r : Name) → s ≡ l ++ b'.' ∷ r → IsLabel l → IsDomain r → IsDomain s

tail_ok-IsTail : (c : ℕ) (s : Name) → tail_ok c s ≡ true → IsTail (c ∷ s)
unfolding tail_ok is_letter_or_digit
tail_ok-IsTail c [] h = last (ground arith)
tail_ok-IsTail c (d ∷ s) h = inner (ground arith) (tail_ok-IsTail d s (ground arith))

IsTail-tail_ok : {s : Name} (c : ℕ) (t : Name) → s ≡ c ∷ t → IsTail s → tail_ok c t ≡ true
unfolding tail_ok is_letter_or_digit
IsTail-tail_ok c t e (last h) = ground arith
IsTail-tail_ok c [] e (inner h t) = absurd (no_tail t (ground arith))
  where
    no_tail : {s : Name} → IsTail s → s ≡ [] → ⊥
    no_tail (last _) e = cc
    no_tail (inner _ _) e = cc
IsTail-tail_ok c (d ∷ t) e (inner h r) = ground (arith, IsTail-tail_ok d t (ground arith) r)

label_ok-IsLabel : (s : Name) → label_ok s ≡ true → IsLabel s
unfolding label_ok
label_ok-IsLabel [] h = absurd (cc)
label_ok-IsLabel (c ∷ []) h = absurd (cc)
label_ok-IsLabel (c ∷ d ∷ s) h =
    label (ground arith) (tail_ok-IsTail d s (ground arith)) (ground arith)

IsLabel-label_ok : {s : Name} → IsLabel s → label_ok s ≡ true
unfolding label_ok
IsLabel-label_ok (label {s = []} a t l) = absurd (omega arith)
IsLabel-label_ok (label {s = d ∷ s} a t l) = ground (arith, IsTail-tail_ok d s refl t)

-- `split_label` takes a text apart at its first dot.
split_label-none : (s : Name) → (split_label s).1 ≡ none → (split_label s).0 ≡ s
unfolding split_label
split_label-none [] e = refl
split_label-none (c ∷ s) e = ground (arith, split_label-none s)

split_label-some : (s r : Name) → (split_label s).1 ≡ some r → s ≡ (split_label s).0 ++ b'.' ∷ r
unfolding split_label
split_label-some [] r e = absurd (cc)
split_label-some (c ∷ s) r e = ground (arith, split_label-some s r)

IsTail-split :
    {s : Name} (r : Name)
    → IsTail s
    → (split_label s ≡ (s, none)) × (split_label (s ++ b'.' ∷ r) ≡ (s, some r))
unfolding split_label
IsTail-split r (last h) = ground arith
IsTail-split r (inner h t) = ground (arith, IsTail-split r t)

IsLabel-split :
    {s : Name} (r : Name)
    → IsLabel s
    → (split_label s ≡ (s, none)) × (split_label (s ++ b'.' ∷ r) ≡ (s, some r))
unfolding split_label
IsLabel-split r (label h t l) = ground (arith, IsTail-split r t)

labels_ok-IsDomain : (fuel : ℕ) (s : Name) → labels_ok fuel s ≡ true → IsDomain s
unfolding labels_ok
labels_ok-IsDomain zero s h = absurd (cc)
labels_ok-IsDomain (suc fuel) s h = elim (Bool-cases (label_ok (split_label s).0)) [
  | inr bad ↦ absurd (ground arith)
  | inl good ↦ elim (Option-cases (split_label s).1) [
    | inl n ↦ one (rw (sym (split_label-none s n)) (label_ok-IsLabel (split_label s).0 good))
    | inr (r, e) ↦
        dotted (split_label s).0 r (split_label-some s r e)
          (label_ok-IsLabel (split_label s).0 good) (labels_ok-IsDomain fuel r (ground arith))
  ]
]

IsDomain-labels_ok : (fuel : ℕ) (s : Name) → length s < fuel → IsDomain s → labels_ok fuel s ≡ true
unfolding labels_ok
IsDomain-labels_ok zero s l d = elim l [ ]
IsDomain-labels_ok (suc fuel) s l (one h) = ground (arith, IsLabel-split [] h, IsLabel-label_ok h)
IsDomain-labels_ok (suc fuel) s l (dotted a r e h d) =
    let split = IsLabel-split r h in
    let shorter : length r < fuel = omega (arith, ap length e, length-append a (b'.' ∷ r)) in
    rw e (ground (arith, split, IsLabel-label_ok h, IsDomain-labels_ok fuel r shorter d))

-- The validator accepts exactly the names of the documented grammar whose length lies between
-- the two limits.
pub is_valid_account_name-IsDomain :
    (s : Name) → (is_valid_account_name s ≡ true) ↔ ((3 ≤ length s) × (length s ≤ 16) × IsDomain s)
unfolding is_valid_account_name
is_valid_account_name-IsDomain s = (
  λ h. (ground arith, ground arith, labels_ok-IsDomain (suc (length s)) s (ground arith)),
  λ h. ground (arith, IsDomain-labels_ok (suc (length s)) s (omega arith) h.2),
)

-- Without wrap-around, an authority's total weight.
abbrev pub weights {ℓ} : {A : Type ℓ} → List (A × ℕ) → ℕ
weights [] = 0
weights ((_, w) ∷ d) = w + weights d

add_weights-eq :
    {A : Type 0} (d : List (A × ℕ)) (sum : ℕ)
    → sum + weights d < 2 ^ 64
    → add_weights d sum ≡ sum + weights d
unfolding add_weights
add_weights-eq [] sum l = omega arith
add_weights-eq ((k, w) ∷ d) sum l =
    omega (arith, add_weights-eq d ((sum + w) % 2 ^ 64) (omega arith))

-- As long as the sum of all weights fits 64 bits, an authority is impossible exactly when all of
-- its weights together do not reach its threshold.
pub is_impossible-lt :
    (a : Authority)
    → weights a.account_auths + weights a.key_auths < 2 ^ 64
    → (is_impossible a ≡ true)
      ↔ (weights a.account_auths + weights a.key_auths < a.weight_threshold)
unfolding is_impossible
is_impossible-lt a l =
    let accounts = add_weights-eq a.account_auths 0 (omega arith) in
    let keys = add_weights-eq a.key_auths (add_weights a.account_auths 0) (omega arith) in
    (λ h. ground (arith, accounts, keys), λ h. ground (arith, accounts, keys))
