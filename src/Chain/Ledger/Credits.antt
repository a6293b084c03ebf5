-- ===== src/Chain/Ledger/Credits.antt =====
-- What one account gains where `adjust_balance` pays to it, and that no other account changes.
use wenode.Base.{
  ℕ, ◌≡◌, refl, sym, ◌∙◌, ap, Bool, true, false, some, List, [], ◌∷◌, Bool-cases, inl, inr, ok,
  or_throw, out_of_range, arith,
}
use wenode.Base.Returns.{Returns, follows}
use wenode.Base.Int.{ℤ, parts, ◌+ℤ◌, ◌-ℤ◌, int_laws}
use wenode.Protocol.Names.{Name, name_eq, name_eq→≡}
use wenode.Protocol.Asset.{Asset, SafeInt, UInt128}
use wenode.Chain.Table.{find_by, replace_by, find_by-replace_by}
use wenode.Chain.Ledger.{Account, Escrow, Ledger, get_account, is_named, adjust_balance}
use wenode.Chain.Ledger.Held.{amount_in, account_holds, supply, Put, put, get_account-find_by}
use wenode.Chain.Ledger.Adjust.{adjust_balance-Put}

find_by-holds :
    {A : Type 0} (is_it : A → Bool) (x : A) (xs : List A)
    → find_by is_it xs ≡ some x
    → is_it x ≡ true
unfolding find_by
find_by-holds is_it x [] found = cc
find_by-holds is_it x (z ∷ xs) found = elim (Bool-cases (is_it z)) [
  | inl yes_it_is ↦ (let same : z ≡ x = ground (arith, found, yes_it_is) in rw⁻¹ same yes_it_is)
  | inr other ↦ find_by-holds is_it x xs (ground (arith, found, other))
]

-- A test that neither the old value nor the new one meets does not see the replacement.
find_by-other :
    {A : Type 0} (is_it p : A → Bool) (x y : A) (xs : List A)
    → find_by is_it xs ≡ some x
    → p x ≡ false
    → p y ≡ false
    → find_by p (replace_by is_it y xs) ≡ find_by p xs
unfolding find_by replace_by
find_by-other is_it p x y [] found old new = refl
find_by-other is_it p x y (z ∷ xs) found old new = elim (Bool-cases (is_it z)) [
  | inl yes_it_is ↦
      (let same : z ≡ x = ground (arith, found, yes_it_is) in
        let not_it : p z ≡ false = ap p same ∙ old in rw (yes_it_is, not_it) (rw new refl))
  | inr other ↦
      (let rest = find_by-other is_it p x y xs (ground (arith, found, other)) old new in
        rw (other, rest) refl)
]

-- What the account of `name` holds in excess of the supply grows by `d`; the others are the same.
pub record Credited (s : ℕ) (name : Name) (d : ℤ) (l l' : Ledger) : Type 0 where
  pub gains :
      (a : Account)
      → get_account name l ≡ ok a
      → (a' : Account) × (get_account name l' ≡ ok a')
        × (account_holds s a' -ℤ supply s l'.properties
            ≡ account_holds s a -ℤ supply s l.properties +ℤ d)
  pub others :
      (other : Name) → name_eq other name ≡ false → get_account other l' ≡ get_account other l

Put-Credited :
    (s : ℕ) (name : Name) (d : ℤ) (l l' : Ledger) → Put s name d l l' → Credited s name d l l'
unfolding get_account
Put-Credited s name d l _ (put a a' p found same change time) =
    let there = get_account-find_by name l found in
    let named = find_by-holds (is_named name) a l.accounts there in
    let named' : is_named name a' ≡ true = ap (name_eq name) same ∙ named in
    record {
      gains = λ b found_b.
          let one : a ≡ b = ground (arith, found, found_b) in
          (
            a',
            ap (λ r. or_throw r out_of_range)
                (find_by-replace_by (is_named name) a a' l.accounts there named'),
            rw⁻¹ one change,
          );
      others = λ other differs.
          let old : is_named other a ≡ false =
            ap (name_eq other) (sym (name_eq→≡ name a.name named)) ∙ differs in
          ap (λ r. or_throw r out_of_range)
            (find_by-other (is_named name) (is_named other) a a' l.accounts there old
              (ap (name_eq other) same ∙ old));
    }

pub Credited-trans :
    (s : ℕ) (name : Name) (d e : ℤ) (l l' l'' : Ledger)
    → Credited s name d l l'
    → Credited s name e l' l''
    → Credited s name (d +ℤ e) l l''
Credited-trans s name d e l l' l'' h k = record {
  gains = λ a found.
      let (a', found', one) = h.gains a found in
      let (a'', found'', two) = k.gains a' found' in
      (a'', found'', omega (int_laws, parts one, parts two));
  others = λ other differs. k.others other differs ∙ h.others other differs;
}

-- The escrows may change on the way.
pub Credited-escrows :
    (s : ℕ) (name : Name) (d : ℤ) (l l' : Ledger) (es : List Escrow)
    → Credited s name d l l'
    → Credited s name d l (record l' { escrows = es })
unfolding get_account
Credited-escrows s name d l l' es h = record { gains = h.gains; others = h.others }

pub adjust_balance-Credited :
    (wide : UInt128) (safe : SafeInt) (s : ℕ) (name : Name) (delta : Asset) (l : Ledger)
    → Returns (Credited s name (amount_in s delta) l) (adjust_balance wide safe name delta l)
adjust_balance-Credited wide safe s name delta l =
    follows (adjust_balance-Put wide safe s name delta l)
      (λ l'. Put-Credited s name (amount_in s delta) l l')
