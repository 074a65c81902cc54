-- ===== src/Base/Dict.antt =====
-- Python's `dict` with text keys: the pairs in the order of their first insertion.
use Prim.Native.String.{String}
use mathlib.Core.Path.{◌≡◌, refl}
use mathlib.Core.Logic.{◌≢◌, inl, inr}
use mathlib.Core.Bool.{Bool, true}
use mathlib.Core.Option.{Option, none, some}
use mathlib.Core.List.{List, [], ◌∷◌}
use native.Mathlib.Omega.{arith}
use text.Mathlib.Text.{◌==◌}
use text.Mathlib.TextEquality.{eq_iff}
use papaia_manager.Base.Tests.{if◌then◌else◌, Bool-cases}
use papaia_manager.Base.Lists.{any, All, Distinct}

abbrev pub Dict {ℓ} : Type ℓ → Type ℓ
Dict V = List (String × V)

module _ {ℓ} {V : Type ℓ} where
  -- `d.get(k)`
  unfoldable pub get : String → Dict V → Option V
  get k [] = none
  get k ((j, v) ∷ d) = if j == k then some v else get k d

  -- `d[k] = v`: a key that is there keeps its place.
  unfoldable pub put : String → V → Dict V → Dict V
  put k v [] = (k, v) ∷ []
  put k v ((j, w) ∷ d) = if j == k then (k, v) ∷ d else (j, w) ∷ put k v d

  -- `d.pop(k, None)` and `del d[k]`
  unfoldable pub remove : String → Dict V → Dict V
  remove k [] = []
  remove k ((j, v) ∷ d) = let rest = remove k d in if j == k then rest else (j, v) ∷ rest

  abbrev pub keys : Dict V → List String
  keys [] = []
  keys ((j, v) ∷ d) = j ∷ keys d

  abbrev pub values : Dict V → List V
  values [] = []
  values ((j, v) ∷ d) = v ∷ values d

  pub get-put :
      (k j : String) (v : V) (d : Dict V) → get j (put k v d) ≡ (if k == j then some v else get j d)
  unfolding get put
  get-put k j v [] = refl
  get-put k j v ((i, w) ∷ d) = ground (arith, eq_iff k j, eq_iff i k, eq_iff i j, get-put k j v d)

  pub get-remove :
      (k j : String) (d : Dict V) → get j (remove k d) ≡ (if k == j then none else get j d)
  unfolding get remove
  get-remove k j [] = ground arith
  get-remove k j ((i, v) ∷ d) = ground (arith, get-remove k j d, eq_iff i k, eq_iff i j, eq_iff k j)

  -- A Python dict holds each key once.
  abbrev pub IsDict : Dict V → Type 0
  IsDict d = Distinct (keys d)

  keys-put_fresh :
      (j k : String) (v : V) (d : Dict V)
      → j ≢ k
      → All (λ i. j ≢ i) (keys d)
      → All (λ i. j ≢ i) (keys (put k v d))
  unfolding put
  keys-put_fresh j k v [] ne h = (ne, tt)
  keys-put_fresh j k v ((i, w) ∷ d) ne h = elim (Bool-cases (i == k)) [
    | inl e ↦ rw e (ne, h.1)
    | inr e ↦ rw e (h.0, keys-put_fresh j k v d ne h.1)
  ]

  pub put-IsDict : (k : String) (v : V) (d : Dict V) → IsDict d → IsDict (put k v d)
  unfolding put
  put-IsDict k v [] h = (tt, tt)
  put-IsDict k v ((i, w) ∷ d) h = elim (Bool-cases (i == k)) [
    | inl e ↦ rw e (rw (← (eq_iff i k).0 e) h)
    | inr e ↦
        rw e (keys-put_fresh i k v d (λ p. ground (arith, eq_iff i k)) h.0, put-IsDict k v d h.1)
  ]

  pub get-fresh : (k : String) (d : Dict V) → All (λ i. k ≢ i) (keys d) → get k d ≡ none
  unfolding get
  get-fresh k [] h = refl
  get-fresh k ((i, v) ∷ d) h = ground (arith, eq_iff i k, get-fresh k d)

  -- A value that some key has passes a test exactly if some value of the dict does.
  pub any-values :
      (p : V → Bool) (d : Dict V)
      → IsDict d
      → any p (values d) ≡ true
      → (k : String) × (v : V) × (get k d ≡ some v) × (p v ≡ true)
  unfolding get
  any-values p [] u h = cc
  any-values p ((i, v) ∷ d) u h = elim (Bool-cases (p v)) [
    | inl e ↦ (i, v, ground (arith, eq_iff i i), e)
    | inr e ↦
        let (k, w, found, passes) = any-values p d u.1 (rw e at h) in
        (k, w, ground (arith, eq_iff i k, get-fresh i d u.0), passes)
  ]

  pub any-get :
      (p : V → Bool) (k : String) (v : V) (d : Dict V)
      → get k d ≡ some v
      → p v ≡ true
      → any p (values d) ≡ true
  unfolding get
  any-get p k v [] h t = cc
  any-get p k v ((i, w) ∷ d) h t = ground (arith, any-get p k v d)
