-- ===== src/Base/Except.antt =====
-- Exceptions as values: every throw of the modelled code is an `err`.
use mathlib.Core.Path.{◌≡◌, refl}
use mathlib.Core.Bool.{Bool, true, false}
use mathlib.Core.Option.{Option, none, some}

-- The exceptions that the modelled code tells apart. `fc_assert` is a failed FC_ASSERT,
-- `undefined` a use of an end iterator or a null pointer that the source does not test for.
pub data Exception : Type 0 where
  fc_assert logic_error out_of_range undefined : Exception
  unlinkable_block : Exception
  tx_missing_posting_auth tx_missing_active_auth tx_missing_owner_auth : Exception
  tx_missing_other_auth tx_irrelevant_sig tx_duplicate_sig : Exception

pub data Result {ℓ} (A : Type ℓ) : Type ℓ where
  err : Exception → Result A
  ok : A → Result A

-- What follows a statement runs unless the statement throws.
infixl 5 ◌>>=◌
abbrev pub ◌>>=◌ {ℓ κ} : {A : Type ℓ} {B : Type κ} → Result A → (A → Result B) → Result B
err thrown >>= rest = err thrown
ok value >>= rest = rest value

-- The same for a statement with no value.
infixl 5 ◌>>◌
abbrev pub ◌>>◌ {κ} : {B : Type κ} → Result (Unit {0}) → Result B → Result B
statement >> rest = statement >>= λ _. rest

-- FC_ASSERT( test )
abbrev pub assert : Bool → Result (Unit {0})
assert true = ok tt
assert false = err fc_assert

-- ASSERT( test, exception )
abbrev pub assert_or : Bool → Exception → Result (Unit {0})
assert_or true e = ok tt
assert_or false e = err e

abbrev pub or_throw {ℓ} : {A : Type ℓ} → Option A → Exception → Result A
or_throw none e = err e
or_throw (some a) e = ok a

-- A chain that does not throw: its first step has a value, on which the rest does not throw.
module _ {ℓ κ} {A : Type ℓ} {B : Type κ} where
  pub >>=-eq-ok :
      (first : Result A) (rest : A → Result B) {final : B}
      → (first >>= rest) ≡ ok final
      → (value : A) × (first ≡ ok value) × (rest value ≡ ok final)
  >>=-eq-ok (err thrown) rest done = cc
  >>=-eq-ok (ok value) rest done = (value, refl, done)

pub assert-eq-ok : (b : Bool) {u : Unit {0}} → assert b ≡ ok u → b ≡ true
assert-eq-ok true h = refl
assert-eq-ok false h = cc

pub or_throw-eq-ok {ℓ} :
    {A : Type ℓ} (o : Option A) (e : Exception) {a : A} → or_throw o e ≡ ok a → o ≡ some a
or_throw-eq-ok none e h = cc
or_throw-eq-ok (some b) e h = cc
