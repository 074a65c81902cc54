-- ===== src/Base/Result.antt =====
-- A call that returns a value or raises an exception.
use mathlib.Core.Path.{◌≡◌, refl}
use mathlib.Core.Bool.{Bool, true, false}

pub data Result {ℓ κ} (E : Type ℓ) (A : Type κ) : Type (ℓ ⊔ κ) where
  ok : A → Result E A
  err : E → Result E A

module _ {ℓ κ μ} {E : Type ℓ} {A : Type κ} {B : Type μ} where
  infixl 5 ◌>>=◌
  abbrev pub ◌>>=◌ : Result E A → (A → Result E B) → Result E B
  err raised >>= next = err raised
  ok value >>= next = next value

  -- A chain of calls returns where its first call does and the rest returns on that value.
  pub >>=-returns :
      {answer : B} (call : Result E A) (next : A → Result E B)
      → (call >>= next) ≡ ok answer
      → (value : A) × (call ≡ ok value) × (next value ≡ ok answer)
  >>=-returns (err raised) next returned = cc
  >>=-returns (ok value) next returned = (value, refl, returned)

-- `if test: raise problem`
abbrev pub raise_if {ℓ} : {E : Type ℓ} → Bool → E → Result E (Unit {0})
raise_if false problem = ok tt
raise_if true problem = err problem

module _ {ℓ κ} {E : Type ℓ} {B : Type κ} where
  infixl 5 ◌>>◌
  abbrev pub ◌>>◌ : Result E (Unit {0}) → Result E B → Result E B
  first >> second = first >>= λ _. second

  -- A call that returns has passed its first test.
  pub raise_if-returns :
      {answer : B} (test : Bool) (problem : E) (rest : Result E B)
      → (raise_if test problem >> rest) ≡ ok answer
      → (test ≡ false) × (rest ≡ ok answer)
  raise_if-returns false problem rest returned = (refl, returned)
  raise_if-returns true problem rest returned = cc

-- What a call hands on when the exception is turned into another.
abbrev pub map_err {ℓ κ μ} :
    {E : Type ℓ} {F : Type κ} {A : Type μ} → (E → F) → Result E A → Result F A
map_err f (ok a) = ok a
map_err f (err e) = err (f e)
