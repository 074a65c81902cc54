-- ===== src/Tiles/Ids/Unique.antt =====
-- `_assign_widget_ids` of src/app/core/tiles.py gives each widget an id of its own.
use papaia_manager.Base.{
  ℕ, zero, suc, ◌*◌, String, ◌≡◌, ◌≢◌, refl, sym, ap, ◌∙◌, subst, true, false, Option, none, some,
  List, [], ◌∷◌, ◌==◌, eq_iff, if◌then◌else◌, length, arith, map, All, All-map, Distinct, inl, inr,
  ◌⊎◌, Bool-cases, Option-cases,
}
use mathlib.Core.Option.{some-injective}
use papaia_manager.Base.Dict
use papaia_manager.Base.Dict.{Dict}
use papaia_manager.Base.Names.{has_name}
use papaia_manager.Tiles.{WidgetTile}
use papaia_manager.Tiles.Ids.{
  with_id, keep_first, count_of, followed_by, pick, assign, assign_widget_ids,
}
use papaia_manager.Tiles.Ids.Found.{IsSpread, assign_widget_ids-some}

-- The ids that the widgets already have.
given_ids : List WidgetTile → List String
given_ids [] = []
given_ids (w ∷ ws) = let rest = given_ids ws in if w.id == "" then rest else w.id ∷ rest

abbrev pub ids : List WidgetTile → List String
ids ws = map (λ (w : WidgetTile). w.id) ws

abbrev IsFree : List String → String → Type 0
IsFree taken i = has_name i taken ≡ false

abbrev IsTaken : List String → String → Type 0
IsTaken taken i = has_name i taken ≡ true

IsFree-ne : (x i : String) (taken : List String) → IsFree (x ∷ taken) i → x ≢ i
IsFree-ne x i taken h same = ground (arith, eq_iff x i)

IsFree-less : (x i : String) (taken : List String) → IsFree (x ∷ taken) i → IsFree taken i
IsFree-less x i taken h = ground arith

IsTaken-head : (x : String) (taken : List String) → IsTaken (x ∷ taken) x
IsTaken-head x taken = ground (arith, eq_iff x x)

ne_of_taken : (x i : String) (taken : List String) → IsFree taken x → IsTaken taken i → x ≢ i
ne_of_taken x i taken free there same =
    let both : true ≡ false = sym there ∙ ap (λ n. has_name n taken) (sym same) ∙ free in cc both

All-has_name {ℓ} :
    (P : String → Type ℓ) (xs : List String) (i : String) → All P xs → has_name i xs ≡ true → P i
All-has_name P [] i h there = cc
All-has_name P (x ∷ xs) i h there = elim (Bool-cases (x == i)) [
  | inl e ↦ subst P ((eq_iff x i).0 e) h.0
  | inr e ↦ All-has_name P xs i h.1 (rw e at there)
]

-- What the first loop leaves.
abbrev Kept : List String → List WidgetTile × List String → Type 0
Kept taken (ws, all) =
    Distinct (given_ids ws)
    × All (IsFree taken) (given_ids ws)
    × All (IsTaken all) (given_ids ws)
    × ((n : String) → IsTaken taken n → IsTaken all n)

keep_first-Kept : (taken : List String) (ws : List WidgetTile) → Kept taken (keep_first taken ws)
unfolding keep_first given_ids
keep_first-Kept taken [] = (tt, tt, tt, λ n h. h)
keep_first-Kept taken (w ∷ ws) = elim (Bool-cases (has_name w.id taken)) [
  | inl e ↦ rw e (keep_first-Kept taken ws)
  | inr e ↦ elim (Bool-cases (w.id == "")) [
    | inl none_given ↦ rw (e, none_given, none_given) (keep_first-Kept taken ws)
    | inr given ↦
        let (distinct, free, in_all, more) = keep_first-Kept (w.id ∷ taken) ws in
        rw (e, given)
          (rw given (
            (
              All-map (given_ids (keep_first (w.id ∷ taken) ws).0) (λ i h. IsFree-ne w.id i taken h)
                  free,
              distinct,
            ),
            (
              e,
              All-map (given_ids (keep_first (w.id ∷ taken) ws).0)
                  (λ i h. IsFree-less w.id i taken h) free,
            ),
            (more w.id (IsTaken-head w.id taken), in_all),
            λ n h. more n (ground arith),
          ))
  ]
]

pub followed-returns :
    (w : WidgetTile) (found : Option (List WidgetTile)) (rs : List WidgetTile)
    → followed_by w found ≡ some rs
    → (rest : List WidgetTile) × (found ≡ some rest) × (w ∷ rest ≡ rs)
followed-returns w none rs h = cc
followed-returns w (some rest) rs h = (rest, refl, some-injective _ _ h)

module _ (digest : String → ℕ → String)
    (is_given : (name : String) (n : ℕ) → (digest name n == "") ≡ false) where
  pick-IsFree :
      (fuel : ℕ) (taken : List String) (name : String) (number : ℕ) (found : String × ℕ)
      → pick digest fuel taken name number ≡ some found
      → IsFree taken found.0 × ((found.0 == "") ≡ false)
  unfolding pick
  pick-IsFree zero taken name number found h = cc
  pick-IsFree (suc fuel) taken name number found h =
      elim (Bool-cases (has_name (digest name number) taken)) [
        | inl e ↦ pick-IsFree fuel taken name (suc number) found (rw e at h)
        | inr e ↦
            subst (λ (x : String × ℕ). IsFree taken x.0 × ((x.0 == "") ≡ false))
              (some-injective _ _ (rw e at h)) (e, is_given name number)
      ]

  -- The ids that the second loop leaves, each different from the rest: one that was given, or one
  -- that was free.
  abbrev Settled : List String → List WidgetTile → List WidgetTile → Type 0
  Settled taken ws rs =
      Distinct (ids rs)
      × All (λ i. IsTaken (given_ids ws) i ⊎ IsFree taken i) (ids rs)
      × All (λ i. (i == "") ≡ false) (ids rs)

  Settled-new :
      (taken : List String) (w : WidgetTile) (id : String) (ws rs : List WidgetTile)
      → (w.id == "") ≡ true
      → IsFree taken id
      → (id == "") ≡ false
      → All (IsTaken taken) (given_ids ws)
      → Settled (id ∷ taken) ws rs
      → Settled taken (w ∷ ws) (with_id w id ∷ rs)
  unfolding given_ids
  Settled-new taken w id ws rs none_given free named all_taken (distinct, origin, given) =
      let same : given_ids ws ≡ given_ids (w ∷ ws) = rw none_given refl in
      subst
        (λ (gs : List String).
          Distinct (id ∷ ids rs)
          × All (λ i. IsTaken gs i ⊎ IsFree taken i) (id ∷ ids rs)
          × All (λ i. (i == "") ≡ false) (id ∷ ids rs))
        same
        (
          (All-map (ids rs) (λ i o. ne_of_origin i o) origin, distinct),
          (inr free, All-map (ids rs) (λ i o. still i o) origin),
          (named, given),
        )
    where
      ne_of_origin : (i : String) → IsTaken (given_ids ws) i ⊎ IsFree (id ∷ taken) i → id ≢ i
      ne_of_origin i (inl old) =
          let there = All-has_name (IsTaken taken) (given_ids ws) i all_taken old in
          ne_of_taken id i taken free there
      ne_of_origin i (inr new) = IsFree-ne id i taken new

      still :
          (i : String)
          → IsTaken (given_ids ws) i ⊎ IsFree (id ∷ taken) i
          → IsTaken (given_ids ws) i ⊎ IsFree taken i
      still i (inl old) = inl old
      still i (inr new) = inr (IsFree-less id i taken new)

  Settled-kept :
      (taken : List String) (w : WidgetTile) (ws rs : List WidgetTile)
      → (w.id == "") ≡ false
      → IsTaken taken w.id
      → All (λ i. w.id ≢ i) (given_ids ws)
      → Settled taken ws rs
      → Settled taken (w ∷ ws) (w ∷ rs)
  unfolding given_ids
  Settled-kept taken w ws rs named there fresh (distinct, origin, given) =
      let same : w.id ∷ given_ids ws ≡ given_ids (w ∷ ws) = rw named refl in
      subst
        (λ (gs : List String).
          Distinct (w.id ∷ ids rs)
          × All (λ i. IsTaken gs i ⊎ IsFree taken i) (w.id ∷ ids rs)
          × All (λ i. (i == "") ≡ false) (w.id ∷ ids rs))
        same
        (
          (All-map (ids rs) (λ i o. ne_of_origin i o) origin, distinct),
          (inl (IsTaken-head w.id (given_ids ws)), All-map (ids rs) (λ i o. still i o) origin),
          (named, given),
        )
    where
      ne_of_origin : (i : String) → IsTaken (given_ids ws) i ⊎ IsFree taken i → w.id ≢ i
      ne_of_origin i (inl old) = All-has_name (λ j. w.id ≢ j) (given_ids ws) i fresh old
      ne_of_origin i (inr new) = λ same. ne_of_taken i w.id taken new there (sym same)

      still :
          (i : String)
          → IsTaken (given_ids ws) i ⊎ IsFree taken i
          → IsTaken (w.id ∷ given_ids ws) i ⊎ IsFree taken i
      still i (inl old) = inl (ground arith)
      still i (inr new) = inr new

  assign-Settled :
      (counters : Dict ℕ) (taken : List String) (ws rs : List WidgetTile)
      → Distinct (given_ids ws)
      → All (IsTaken taken) (given_ids ws)
      → assign digest counters taken ws ≡ some rs
      → Settled taken ws rs
  unfolding assign given_ids
  assign-Settled counters taken [] rs distinct all_taken h =
      subst (Settled taken []) (some-injective _ _ h) (tt, tt, tt)
  assign-Settled counters taken (w ∷ ws) rs distinct all_taken h = elim (Bool-cases (w.id == "")) [
    | inr e ↦
        let (rest, found, same) =
          followed-returns w (assign digest counters taken ws) rs (rw e at h) in
        let (fresh, later) : Distinct (w.id ∷ given_ids ws) = rw e at distinct in
        let (there, all_later) : All (IsTaken taken) (w.id ∷ given_ids ws) = rw e at all_taken in
        subst (Settled taken (w ∷ ws)) same (
          Settled-kept taken w ws rest e there fresh
            (assign-Settled counters taken ws rest later all_later found))
    | inl e ↦
        let number = count_of counters w.widget in
        let later : Distinct (given_ids ws) = rw e at distinct in
        let all_later : All (IsTaken taken) (given_ids ws) = rw e at all_taken in
        elim (Option-cases (pick digest (suc (length taken)) taken w.widget number)) [
          | inl absent ↦ let nothing : none ≡ some rs = rw (e, absent) at h in cc nothing
          | inr ((id, after), there) ↦
              let (free, named) =
                pick-IsFree (suc (length taken)) taken w.widget number (id, after) there in
              let counted = Dict.put w.widget after counters in
              let (rest, found, same) =
                followed-returns (with_id w id) (assign digest counted (id ∷ taken) ws) rs
                  (rw (e, there) at h) in
              subst (Settled taken (w ∷ ws)) same (
                Settled-new taken w id ws rest e free named all_later (
                  assign-Settled counted (id ∷ taken) ws rest later
                    (All-map (given_ids ws) (λ i t. ground arith) all_later) found))
        ]
  ]

  -- A digest is never empty. When, of the numbers up to four for each widget and one, no two give the
  -- same digest for one type, the loops end, and every widget has an id that is not empty and that
  -- no other widget has.
  pub assign_widget_ids-Distinct :
      (ws : List WidgetTile)
      → IsSpread digest (suc (4 * length ws))
      → (rs : List WidgetTile) × (assign_widget_ids digest ws ≡ some rs)
        × Distinct (ids rs)
        × All (λ i. (i == "") ≡ false) (ids rs)
  unfolding assign_widget_ids
  assign_widget_ids-Distinct ws spread =
      let (rs, found) =
        assign_widget_ids-some digest (suc (4 * length ws)) spread ws (omega arith) in
      let (distinct, free, in_all, more) = keep_first-Kept [] ws in
      let (unique, origin, given) =
        assign-Settled [] (keep_first [] ws).1 (keep_first [] ws).0 rs distinct in_all found in
      (rs, found, unique, given)
