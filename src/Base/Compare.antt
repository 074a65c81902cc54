-- ===== src/Base/Compare.antt =====
-- Three-way comparisons, and the lexicographic ones that Python makes of tuples and lists.
use Prim.Native.Nat.{compare, Ordering}
use mathlib.Core.Path.{◌≡◌, refl}
use mathlib.Core.List.{List, [], ◌∷◌}
use native.Mathlib.Omega.{arith}

abbrev pub flip : Ordering → Ordering
flip Ordering.lt = Ordering.gt
flip Ordering.eq = Ordering.eq
flip Ordering.gt = Ordering.lt

-- The first comparison decides unless it finds no difference.
abbrev pub then_by : Ordering → Ordering → Ordering
then_by Ordering.eq o = o
then_by o _ = o

pub record IsOrder {ℓ} {A : Type ℓ} (cmp : A → A → Ordering) : Type ℓ where
  pub same : (a : A) → cmp a a ≡ Ordering.eq
  pub equal : (a b : A) → cmp a b ≡ Ordering.eq → a ≡ b
  pub swap : (a b : A) → cmp b a ≡ flip (cmp a b)
  pub chain : (a b c : A) → cmp a b ≡ Ordering.lt → cmp b c ≡ Ordering.lt → cmp a c ≡ Ordering.lt

pub compare-IsOrder : IsOrder compare
compare-IsOrder = record {
  same = λ a. ground arith;
  equal = λ a b h. ground arith;
  swap = λ a b. ground arith;
  chain = λ a b c h k. ground arith;
}

module _ {ℓ} {A : Type ℓ} (cmp : A → A → Ordering) where
  -- A list is above each of its proper prefixes.
  unfoldable pub compare_list : List A → List A → Ordering
  compare_list [] [] = Ordering.eq
  compare_list [] (y ∷ ys) = Ordering.lt
  compare_list (x ∷ xs) [] = Ordering.gt
  compare_list (x ∷ xs) (y ∷ ys) = then_by (cmp x y) (compare_list xs ys)

module _ {ℓ} {A : Type ℓ} {cmp : A → A → Ordering} (o : IsOrder cmp) where
  list-same : (xs : List A) → compare_list cmp xs xs ≡ Ordering.eq
  unfolding compare_list
  list-same [] = refl
  list-same (x ∷ xs) = ground (arith, o.same x, list-same xs)

  list-equal : (xs ys : List A) → compare_list cmp xs ys ≡ Ordering.eq → xs ≡ ys
  unfolding compare_list
  list-equal [] [] h = refl
  list-equal [] (y ∷ ys) h = cc
  list-equal (x ∷ xs) [] h = cc
  list-equal (x ∷ xs) (y ∷ ys) h = ground (arith, o.equal x y, list-equal xs ys)

  list-swap : (xs ys : List A) → compare_list cmp ys xs ≡ flip (compare_list cmp xs ys)
  unfolding compare_list
  list-swap [] [] = refl
  list-swap [] (y ∷ ys) = refl
  list-swap (x ∷ xs) [] = refl
  list-swap (x ∷ xs) (y ∷ ys) = ground (arith, o.swap x y, list-swap xs ys)

  list-chain :
      (xs ys zs : List A)
      → compare_list cmp xs ys ≡ Ordering.lt
      → compare_list cmp ys zs ≡ Ordering.lt
      → compare_list cmp xs zs ≡ Ordering.lt
  unfolding compare_list
  list-chain [] [] zs h k = k
  list-chain [] (y ∷ ys) [] h k = cc
  list-chain [] (y ∷ ys) (z ∷ zs) h k = refl
  list-chain (x ∷ xs) [] zs h k = cc
  list-chain (x ∷ xs) (y ∷ ys) [] h k = cc
  list-chain (x ∷ xs) (y ∷ ys) (z ∷ zs) h k =
      ground (arith, o.chain x y z, o.equal x y, o.equal y z, o.same y, list-chain xs ys zs)

  pub compare_list-IsOrder : IsOrder (compare_list cmp)
  compare_list-IsOrder = record {
    same = list-same;
    equal = list-equal;
    swap = list-swap;
    chain = list-chain;
  }
