-- ===== src/Base/Names.antt =====
-- Sets of texts as Python's `set` has them, written as lists without regard to order.
use Prim.Native.Nat.{Ordering}
use Prim.Native.String.{String, compare}
use mathlib.Core.Path.{◌≡◌, refl, ap, ◌∙◌, subst}
use mathlib.Core.Logic.{inl, inr}
use mathlib.Core.Bool.{Bool, true, false, not, ◌&&◌, ◌||◌}
use mathlib.Core.List.{List, [], ◌∷◌}
use native.Mathlib.Omega.{arith}
use text.Mathlib.Text.{◌==◌}
use text.Mathlib.TextEquality.{eq_iff}
use papaia_manager.Base.Tests.{if◌then◌else◌, Bool-cases}
use papaia_manager.Base.Lists.{any, keep, sort, any-sort}

-- `name in names`
abbrev pub has_name : String → List String → Bool
has_name name names = any (λ n. n == name) names

-- `set(names)`
abbrev pub name_set : List String → List String
name_set [] = []
name_set (x ∷ xs) = let rest = name_set xs in if has_name x rest then rest else x ∷ rest

-- The order of Python's texts: by code points.
abbrev pub text_le : String → String → Bool
text_le a b = elim (compare a b) [ Ordering.gt ↦ false | _ ↦ true ]

-- `sorted(set(names))`
abbrev pub sorted_set : List String → List String
sorted_set names = sort text_le (name_set names)

-- `a - b`, sorted
abbrev pub sorted_minus : List String → List String → List String
sorted_minus a b = sort text_le (keep (λ n. not (has_name n b)) (name_set a))

has_name-name_set : (n : String) (xs : List String) → has_name n (name_set xs) ≡ has_name n xs
has_name-name_set n [] = refl
has_name-name_set n (x ∷ xs) = elim (Bool-cases (has_name x (name_set xs))) [
  | inl e ↦ rw e (elim (Bool-cases (x == n)) [
    | inl same ↦ rw same (subst (λ k. has_name k (name_set xs) ≡ true) ((eq_iff x n).0 same) e)
    | inr other ↦ rw other (has_name-name_set n xs)
  ])
  | inr e ↦ rw e (ap (λ b. x == n || b) (has_name-name_set n xs))
]

pub has_name-sorted_set :
    (n : String) (xs : List String) → has_name n (sorted_set xs) ≡ has_name n xs
has_name-sorted_set n xs = any-sort text_le (λ m. m == n) (name_set xs) ∙ has_name-name_set n xs

pub has_name-keep :
    (n : String) (p : String → Bool) (xs : List String)
    → has_name n (keep p xs) ≡ (has_name n xs && p n)
has_name-keep n p [] = refl
has_name-keep n p (x ∷ xs) = elim (Bool-cases (x == n)) [
  | inl same ↦
      let eq : x ≡ n = (eq_iff x n).0 same in
      subst (λ k. has_name k (keep p (x ∷ xs)) ≡ (has_name k (x ∷ xs) && p k)) eq
        (ground (arith, eq_iff x x, has_name-keep x p xs))
  | inr other ↦ ground (arith, has_name-keep n p xs)
]

pub has_name-sorted_minus :
    (n : String) (a b : List String)
    → has_name n (sorted_minus a b) ≡ (has_name n a && not (has_name n b))
has_name-sorted_minus n a b =
    any-sort text_le (λ m. m == n) (keep (λ k. not (has_name k b)) (name_set a))
    ∙ (has_name-keep n (λ k. not (has_name k b)) (name_set a)
        ∙ ap (λ c. c && not (has_name n b)) (has_name-name_set n a))
