-- ===== src/Base/Pigeon.antt =====
-- Distinct names that all stand in a list are no more than the list has.
use Prim.Native.Nat.{suc, ◌≤◌}
use Prim.Native.String.{String}
use mathlib.Core.Path.{◌≡◌, sym}
use mathlib.Core.Logic.{◌≢◌}
use mathlib.Core.Bool.{true, false}
use mathlib.Core.List.{List, [], ◌∷◌}
use native.Mathlib.Omega.{arith}
use text.Mathlib.Text.{◌==◌}
use text.Mathlib.TextEquality.{eq_iff}
use papaia_manager.Base.Tests.{if◌then◌else◌}
use papaia_manager.Base.Lists.{length, All, All-both, Distinct}
use papaia_manager.Base.Names.{has_name}

-- A list without the first place of a name.
without : String → List String → List String
without x [] = []
without x (y ∷ ys) = if y == x then ys else y ∷ without x ys

length-without :
    (x : String) (ys : List String) → has_name x ys ≡ true → suc (length (without x ys)) ≡ length ys
unfolding without
length-without x [] h = cc
length-without x (y ∷ ys) h = ground (arith, length-without x ys)

has_name-without :
    (x v : String) (ys : List String)
    → x ≢ v
    → has_name v ys ≡ true
    → has_name v (without x ys) ≡ true
unfolding without
has_name-without x v [] ne h = h
has_name-without x v (y ∷ ys) ne h =
    ground (arith, eq_iff y x, eq_iff y v, has_name-without x v ys ne)

pub length-le_of_Distinct :
    (xs names : List String)
    → Distinct xs
    → All (λ v. has_name v names ≡ true) xs
    → length xs ≤ length names
length-le_of_Distinct [] names d h = omega arith
length-le_of_Distinct (x ∷ xs) names d h = omega (
  arith,
  length-without x names h.0,
  length-le_of_Distinct xs (without x names) d.1
      (All-both xs (λ v ne there. has_name-without x v names ne there) d.0 h.1),
)

-- A name that is not found differs from each one of the list.
pub All-ne_of_has_name :
    (n : String) (xs : List String) → has_name n xs ≡ false → All (λ x. n ≢ x) xs
All-ne_of_has_name n [] h = tt
All-ne_of_has_name n (x ∷ xs) h =
    ((λ e. ground (arith, eq_iff x n, sym e)), All-ne_of_has_name n xs (ground arith))
