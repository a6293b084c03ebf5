-- ===== src/Chain/Ledger/Held.antt =====
-- What the ledger holds of a currency, as `validate_invariants` adds it up, against its supply.
use wenode.Base.{
  ℕ, ◌≡◌, refl, sym, ◌∙◌, ap, some, ◌==◌, if◌then◌else◌, Bool-cases, inl, inr, ok, out_of_range,
  assert, >>=-eq-ok, assert-eq-ok, or_throw-eq-ok, arith,
}
use wenode.Base.Int.{ℤ, pos, parts, +ℤ_zero, ◌+ℤ◌, ◌-ℤ◌, int_laws, +ℤ_assoc}
use wenode.Protocol.Names.{Name}
use wenode.Protocol.Asset.{Asset, SafeInt, add_asset, sub_asset, negate_asset}
use wenode.Chain.Ledger.{
  Account, Escrow, SavingsWithdraw, LimitOrder, ConvertRequest, Properties, Ledger, head_block_time,
  get_account, put_account, is_named, amount_for_sale,
}
use wenode.Chain.Table.{find_by, replace_by, total, total-replace_by}

unfoldable pub amount_in : ℕ → Asset → ℤ
amount_in s a = if a.symbol == s then a.amount else pos 0

unfoldable pub account_holds : ℕ → Account → ℤ
account_holds s a =
    amount_in s a.balance
    +ℤ amount_in s a.tme_savings_balance
    +ℤ amount_in s a.tsd.balance
    +ℤ amount_in s a.tsd_savings.balance
    +ℤ amount_in s a.tme_reward_balance
    +ℤ amount_in s a.tsd_reward_balance

unfoldable pub escrow_holds : ℕ → Escrow → ℤ
escrow_holds s e =
    amount_in s e.tme_balance +ℤ amount_in s e.tsd_balance +ℤ amount_in s e.pending_fee

unfoldable pub withdraw_holds : ℕ → SavingsWithdraw → ℤ
withdraw_holds s w = amount_in s w.amount

unfoldable pub order_holds : ℕ → LimitOrder → ℤ
unfolding amount_for_sale
order_holds s o = amount_in s (amount_for_sale o)

unfoldable pub convert_holds : ℕ → ConvertRequest → ℤ
convert_holds s c = amount_in s c.amount

-- The supply of a currency, less what is in the fund for SCORE.
unfoldable pub supply : ℕ → Properties → ℤ
supply s p =
    amount_in s p.current_supply
    +ℤ amount_in s p.current_tsd_supply
    -ℤ amount_in s p.total_tme_fund_for_score

-- What is locked up outside the accounts.
unfoldable pub locked : ℕ → Ledger → ℤ
locked s l =
    total (escrow_holds s) l.escrows
    +ℤ total (withdraw_holds s) l.savings_withdraws
    +ℤ total (order_holds s) l.limit_orders
    +ℤ total (convert_holds s) l.convert_requests

-- What is held in excess of the supply.
unfoldable pub excess : ℕ → Ledger → ℤ
excess s l = total (account_holds s) l.accounts +ℤ locked s l -ℤ supply s l.properties

amount_in_at :
    (s x : ℕ) (a b : ℤ)
    → amount_in s (record { amount = a +ℤ b; symbol = x })
      ≡ amount_in s (record { amount = a; symbol = x })
        +ℤ amount_in s (record { amount = b; symbol = x })
unfolding amount_in
amount_in_at s x a b = elim (Bool-cases (x == s)) [
  | inl same ↦ rw same refl
  | inr other ↦ rw other (omega int_laws)
]

-- The account's part of a sum changes, and with it the supply.
settle :
    (t t' h h' r s s' d : ℤ)
    → t' +ℤ h ≡ t +ℤ h'
    → h' -ℤ s' ≡ h -ℤ s +ℤ d
    → t' +ℤ r -ℤ s' ≡ t +ℤ r -ℤ s +ℤ d
settle t t' h h' r s s' d e f = omega (int_laws, parts e, parts f)

pub get_account-find_by :
    (name : Name) (l : Ledger) {a : Account}
    → get_account name l ≡ ok a
    → find_by (is_named name) l.accounts ≡ some a
unfolding get_account
get_account-find_by name l found =
    or_throw-eq-ok (find_by (is_named name) l.accounts) out_of_range found

-- `l'` has `d` more in excess of the supply than `l`, in the accounts; the other objects are the same.
pub record Moved (s : ℕ) (d : ℤ) (l l' : Ledger) : Type 0 where
  pub moved : excess s l' ≡ excess s l +ℤ d
  pub same_escrows : l'.escrows ≡ l.escrows
  pub same_withdraws : l'.savings_withdraws ≡ l.savings_withdraws
  pub same_orders : l'.limit_orders ≡ l.limit_orders
  pub same_converts : l'.convert_requests ≡ l.convert_requests
  pub same_time : head_block_time l' ≡ head_block_time l

chain : (a b c d e : ℤ) → b ≡ a +ℤ d → c ≡ b +ℤ e → c ≡ a +ℤ (d +ℤ e)
chain a b c d e h k = rw (k, h) (+ℤ_assoc a d e)

pub Moved-refl : (s : ℕ) (l : Ledger) → Moved s (pos 0) l l
Moved-refl s l = record {
  moved = sym (+ℤ_zero (excess s l));
  same_escrows = refl;
  same_withdraws = refl;
  same_orders = refl;
  same_converts = refl;
  same_time = refl;
}

pub Moved-trans :
    (s : ℕ) (d e : ℤ) (l l' l'' : Ledger)
    → Moved s d l l'
    → Moved s e l' l''
    → Moved s (d +ℤ e) l l''
Moved-trans s d e l l' l'' h k = record {
  moved = chain (excess s l) (excess s l') (excess s l'') d e h.moved k.moved;
  same_escrows = k.same_escrows ∙ h.same_escrows;
  same_withdraws = k.same_withdraws ∙ h.same_withdraws;
  same_orders = k.same_orders ∙ h.same_orders;
  same_converts = k.same_converts ∙ h.same_converts;
  same_time = k.same_time ∙ h.same_time;
}

pub put_account-Moved :
    (s : ℕ) (name : Name) (l : Ledger) (a a' : Account) (p : Properties) (d : ℤ)
    → get_account name l ≡ ok a
    → account_holds s a' -ℤ supply s p ≡ account_holds s a -ℤ supply s l.properties +ℤ d
    → p.time ≡ head_block_time l
    → Moved s d l (put_account name a' (record l { properties = p }))
unfolding excess locked
put_account-Moved s name l a a' p d found change time = record {
  moved =
      settle (total (account_holds s) l.accounts)
        (total (account_holds s) (replace_by (is_named name) a' l.accounts)) (account_holds s a)
        (account_holds s a') (locked s l) (supply s l.properties) (supply s p) d
        (total-replace_by (is_named name) (account_holds s) a a' l.accounts
          (get_account-find_by name l found))
        change;
  same_escrows = refl;
  same_withdraws = refl;
  same_orders = refl;
  same_converts = refl;
  same_time = time;
}

-- One account and the properties are replaced, and what the account holds in excess of the supply
-- grows by `d`.
pub data Put (s : ℕ) (name : Name) (d : ℤ) (l : Ledger) : Ledger → Type 0 where
  put :
      (a a' : Account) (p : Properties)
      → get_account name l ≡ ok a
      → a'.name ≡ a.name
      → account_holds s a' -ℤ supply s p ≡ account_holds s a -ℤ supply s l.properties +ℤ d
      → p.time ≡ head_block_time l
      → Put s name d l (put_account name a' (record l { properties = p }))

pub Put-Moved : (s : ℕ) (name : Name) (d : ℤ) (l l' : Ledger) → Put s name d l l' → Moved s d l l'
Put-Moved s name d l _ (put a a' p found same change time) =
    put_account-Moved s name l a a' p d found change time

-- Nothing is made or lost, and the escrows are the same.
pub record Kept (s : ℕ) (l l' : Ledger) : Type 0 where
  pub kept : excess s l' ≡ excess s l
  pub same_escrows : l'.escrows ≡ l.escrows

pub Kept-refl : (s : ℕ) (l : Ledger) → Kept s l l
Kept-refl s l = record { kept = refl; same_escrows = refl }

pub Kept-trans : (s : ℕ) {l l' l'' : Ledger} → Kept s l l' → Kept s l' l'' → Kept s l l''
Kept-trans s h k = record { kept = k.kept ∙ h.kept; same_escrows = k.same_escrows ∙ h.same_escrows }

restore : (a b : ℤ) → a -ℤ b +ℤ b ≡ a
restore a b = omega int_laws

-- One part of what is locked up changes.
pub relock :
    (t e e' w o c p x y : ℤ)
    → e' +ℤ x ≡ e +ℤ y
    → t +ℤ (e' +ℤ w +ℤ o +ℤ c) -ℤ p +ℤ x ≡ t +ℤ (e +ℤ w +ℤ o +ℤ c) -ℤ p +ℤ y
relock t e e' w o c p x y h = omega (int_laws, parts h)

pub zero-amount_in : (s x : ℕ) → amount_in s (record { amount = pos 0; symbol = x }) ≡ pos 0
unfolding amount_in
zero-amount_in s x = elim (Bool-cases (x == s)) [
  | inl same ↦ rw same refl
  | inr other ↦ rw other refl
]

module _ (safe : SafeInt) where
  pub add_asset-ok :
      (a b : Asset) {c : Asset}
      → add_asset safe a b ≡ ok c
      → (b.symbol ≡ a.symbol) × (c ≡ record { amount = a.amount +ℤ b.amount; symbol = a.symbol })
  unfolding add_asset
  add_asset-ok a b {c} done =
      let (u, same, rest) = >>=-eq-ok (assert (a.symbol == b.symbol)) _ done in
      let (n, added, last) = >>=-eq-ok (safe.add a.amount b.amount) _ rest in
      let sum : n ≡ a.amount +ℤ b.amount = safe.add-ok a.amount b.amount added in
      let symbols = assert-eq-ok (a.symbol == b.symbol) same in (ground arith, cc)

  pub add_asset-amount_in :
      (s : ℕ) (a b : Asset) {c : Asset}
      → add_asset safe a b ≡ ok c
      → amount_in s c ≡ amount_in s a +ℤ amount_in s b
  add_asset-amount_in s a b {c} done =
      let (symbols, value) = add_asset-ok a b done in
      rw value (
        amount_in_at s a.symbol a.amount b.amount
        ∙ ap (λ x. amount_in s a +ℤ amount_in s (record { amount = b.amount; symbol = x }))
            (sym symbols))

  pub negate_asset-ok :
      (a : Asset) {c : Asset}
      → negate_asset safe a ≡ ok c
      → c ≡ record { amount = pos 0 -ℤ a.amount; symbol = a.symbol }
  unfolding negate_asset
  negate_asset-ok a done =
      let (n, negated, last) = >>=-eq-ok (safe.neg a.amount) _ done in
      let value : n ≡ pos 0 -ℤ a.amount = safe.neg-ok a.amount negated in cc

  pub sub_asset-amount_in :
      (s : ℕ) (a b : Asset) {c : Asset}
      → sub_asset safe a b ≡ ok c
      → amount_in s c +ℤ amount_in s b ≡ amount_in s a
  unfolding sub_asset
  sub_asset-amount_in s a b {c} done =
      let (u, same, rest) = >>=-eq-ok (assert (a.symbol == b.symbol)) _ done in
      let (n, taken, last) = >>=-eq-ok (safe.sub a.amount b.amount) _ rest in
      let difference : n ≡ a.amount -ℤ b.amount = safe.sub-ok a.amount b.amount taken in
      let symbols : b.symbol ≡ a.symbol =
        ground (arith, assert-eq-ok (a.symbol == b.symbol) same) in
      let value : c ≡ record { amount = a.amount -ℤ b.amount; symbol = a.symbol } = cc in
      rw value (
        ap
          (λ x.
            amount_in s (record { amount = a.amount -ℤ b.amount; symbol = a.symbol })
            +ℤ amount_in s (record { amount = b.amount; symbol = x }))
          symbols
        ∙ sym (amount_in_at s a.symbol (a.amount -ℤ b.amount) b.amount)
        ∙ ap (λ x. amount_in s (record { amount = x; symbol = a.symbol }))
            (restore a.amount b.amount))

  pub negate_asset-amount_in :
      (s : ℕ) (a : Asset) {c : Asset}
      → negate_asset safe a ≡ ok c
      → amount_in s c +ℤ amount_in s a ≡ pos 0
  unfolding amount_in
  negate_asset-amount_in s a done = rw (negate_asset-ok a done) (elim (Bool-cases (a.symbol == s)) [
    | inl same ↦ rw same (omega int_laws)
    | inr other ↦ rw other (omega int_laws)
  ])

  -- The same of the amounts alone.
  pub sub_amount_in :
      (s x : ℕ) (n : ℤ) (b : Asset) {m : ℤ}
      → safe.sub n b.amount ≡ ok m
      → x ≡ b.symbol
      → amount_in s (record { amount = m; symbol = x }) +ℤ amount_in s b
        ≡ amount_in s (record { amount = n; symbol = x })
  unfolding amount_in
  sub_amount_in s x n b {m} taken same =
      let difference : m ≡ n -ℤ b.amount = safe.sub-ok n b.amount taken in
      rw (difference, same)
        (elim (Bool-cases (b.symbol == s)) [
          | inl here ↦ rw here (omega int_laws)
          | inr there ↦ rw there (omega int_laws)
        ])
