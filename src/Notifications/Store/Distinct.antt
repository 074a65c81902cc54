-- ===== src/Notifications/Store/Distinct.antt =====
-- A list of names as long as the set of its names has no name twice.
use papaia_manager.Base.{
  ◌≤◌, String, ◌≡◌, ◌≢◌, refl, subst, Bool, true, false, List, [], ◌∷◌, ◌==◌, eq_iff, arith, inl,
  inr, any, length, All, Distinct, Bool-cases,
}
use papaia_manager.Notifications.Validate.{distinct_names, has_duplicates}

-- Names without a duplicate.
distinct_names-le : (xs : List String) → length (distinct_names xs) ≤ length xs
distinct_names-le [] = omega arith
distinct_names-le (x ∷ xs) = ground (arith, distinct_names-le xs)

any-same :
    (p : String → Bool) (x : String) (ys : List String)
    → any (λ y. x == y) ys ≡ true
    → p x ≡ true
    → any p ys ≡ true
any-same p x [] h k = cc
any-same p x (y ∷ ys) h k = elim (Bool-cases (x == y)) [
  | inl e ↦ let same = (eq_iff x y).0 e in rw (subst (λ z. p z ≡ true) same k) refl
  | inr e ↦ ground (arith, any-same p x ys)
]

any-distinct_names :
    (p : String → Bool) (xs : List String) → any p xs ≡ true → any p (distinct_names xs) ≡ true
any-distinct_names p [] h = h
any-distinct_names p (x ∷ xs) h =
    ground (arith, any-distinct_names p xs, any-same p x (distinct_names xs))

All-ne : (x : String) (ys : List String) → any (λ y. x == y) ys ≡ false → All (λ y. x ≢ y) ys
All-ne x [] h = tt
All-ne x (y ∷ ys) h = ((λ e. ground (arith, eq_iff x y)), All-ne x ys (ground arith))

any-eq-false :
    (x : String) (xs : List String)
    → any (λ y. x == y) (distinct_names xs) ≡ false
    → any (λ y. x == y) xs ≡ false
any-eq-false x xs h = ground (arith, any-distinct_names (λ y. x == y) xs)

as_many-Distinct : (xs : List String) → length (distinct_names xs) ≡ length xs → Distinct xs
as_many-Distinct [] h = tt
as_many-Distinct (x ∷ xs) h = elim (Bool-cases (any (λ y. x == y) (distinct_names xs))) [
  | inl e ↦ absurd (ground (arith, distinct_names-le xs))
  | inr e ↦ (All-ne x xs (any-eq-false x xs e), as_many-Distinct xs (ground arith))
]

pub has_duplicates-Distinct : (xs : List String) → has_duplicates xs ≡ false → Distinct xs
has_duplicates-Distinct xs h = as_many-Distinct xs (ground arith)
