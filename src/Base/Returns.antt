-- ===== src/Base/Returns.antt =====
-- What holds of the value of a chain of statements where it does not throw, worked out statement
-- by statement.
use wenode.Base.Tests.{if◌then◌else◌}
use wenode.Base.Except.{Exception, Result, ok, err, ◌>>=◌, ◌>>◌, assert}
use mathlib.Core.Bool.{Bool, true, false}
use mathlib.Core.Option.{Option, none, some}
use mathlib.Core.Path.{◌≡◌, refl, ap, subst}

pub record Returns {ℓ} {B : Type ℓ} (holds : B → Type 0) (r : Result B) : Type ℓ where
  pub returned : {b : B} → r ≡ ok b → holds b

value_of {ℓ} : {B : Type ℓ} → B → Result B → B
value_of b (err thrown) = b
value_of b (ok c) = c

module _ {ℓ} {B : Type ℓ} {holds : B → Type 0} where
  pub threw : (e : Exception) → Returns holds (err e)
  threw e = record { returned = λ h. cc }

  pub gives : (b : B) → holds b → Returns holds (ok b)
  unfolding value_of
  gives b h = record { returned = λ e. subst holds (ap (value_of b) e) h }

  pub after {κ} :
      {A : Type κ} (first : Result A) (rest : A → Result B)
      → ((a : A) → first ≡ ok a → Returns holds (rest a))
      → Returns holds (first >>= rest)
  after (err thrown) rest h = threw thrown
  after (ok a) rest h = h a refl

  pub after_assert :
      (b : Bool) (rest : Result B)
      → (b ≡ true → Returns holds rest)
      → Returns holds (assert b >> rest)
  after_assert true rest h = h refl
  after_assert false rest h = threw _

  pub after_if :
      (b : Bool) (x y : Result B)
      → (b ≡ true → Returns holds x)
      → (b ≡ false → Returns holds y)
      → Returns holds (if b then x else y)
  after_if true x y h k = h refl
  after_if false x y h k = k refl

pub after_option {ℓ κ} :
    {A : Type κ} {B : Type ℓ} {holds : B → Type 0} (o : Option A) (x : Result B) (f : A → Result B)
    → (o ≡ none → Returns holds x)
    → ((a : A) → o ≡ some a → Returns holds (f a))
    → Returns holds (elim o [ none ↦ x | some a ↦ f a ])
after_option none x f h k = h refl
after_option (some a) x f h k = k a refl

pub follows {ℓ} :
    {B : Type ℓ} {holds holds' : B → Type 0} {r : Result B}
    → Returns holds r
    → ((b : B) → holds b → holds' b)
    → Returns holds' r
follows h step = record { returned = λ {b} e. step b (h.returned e) }
