-- ===== src/Tiles/Ids/Found.antt =====
-- `_assign_widget_ids` of src/app/core/tiles.py ends: a free digest is found.
use papaia_manager.Base.{
  ℕ, zero, suc, ◌+◌, ◌*◌, ◌≤◌, ◌<◌, String, ◌≡◌, ◌≢◌, refl, ap, true, false, Option, some, List, [],
  ◌∷◌, ◌==◌, eq_iff, length, arith, All, All-map, Distinct, inl, inr, Bool-cases,
}
use papaia_manager.Base.Dict
use papaia_manager.Base.Dict.{Dict}
use papaia_manager.Base.Names.{has_name}
use papaia_manager.Base.Pigeon.{length-le_of_Distinct}
use papaia_manager.Tiles.{WidgetTile}
use papaia_manager.Tiles.Ids.{
  with_id, keep_first, count_of, followed_by, pick, assign, assign_widget_ids,
}

module _ (digest : String → ℕ → String) (bound : ℕ) where
  -- Below the bound, no two numbers give the same digest for one type.
  abbrev pub IsSpread : Type 0
  IsSpread =
      (name : String) (i j : ℕ) → i < bound → j < bound → digest name i ≡ digest name j → i ≡ j

  digests : String → ℕ → List String
  digests name zero = []
  digests name (suc n) = digest name n ∷ digests name n

  length-digests : (name : String) (n : ℕ) → length (digests name n) ≡ n
  unfolding digests
  length-digests name zero = refl
  length-digests name (suc n) = ap suc (length-digests name n)

  digests-fresh :
      IsSpread
      → (name : String) (n m : ℕ) → m ≤ n
      → n < bound
      → All (λ d. digest name n ≢ d) (digests name m)
  unfolding digests
  digests-fresh spread name n zero le lt = tt
  digests-fresh spread name n (suc m) le lt = (
    (λ same. let equal = spread name n m lt (omega arith) same in omega arith),
    digests-fresh spread name n m (omega arith) lt,
  )

  digests-Distinct : IsSpread → (name : String) (n : ℕ) → n ≤ bound → Distinct (digests name n)
  unfolding digests
  digests-Distinct spread name zero le = tt
  digests-Distinct spread name (suc n) le = (
    digests-fresh spread name n n (omega arith) (omega arith),
    digests-Distinct spread name n (omega arith),
  )

  -- The digests of all numbers that a type has used are taken.
  abbrev Used : List String → String → ℕ → Type 0
  Used taken name number = All (λ d. has_name d taken ≡ true) (digests name number)

  Used-le :
      IsSpread
      → (taken : List String) (name : String) (number : ℕ) → number ≤ bound
      → Used taken name number
      → number ≤ length taken
  Used-le spread taken name number le used = omega (
    arith,
    length-le_of_Distinct (digests name number) taken (digests-Distinct spread name number le) used,
    length-digests name number,
  )

  Used-more :
      (taken : List String) (d name : String) (n : ℕ) → Used taken name n → Used (d ∷ taken) name n
  Used-more taken d name n used = All-map (digests name n) (λ x h. ground arith) used

  -- What a successful search gives.
  abbrev Picked : List String → String → Option (String × ℕ) → Type 0
  Picked taken name found =
      (id : String) × (number : ℕ) × (found ≡ some (id, number))
      × (has_name id taken ≡ false)
      × Used (id ∷ taken) name number
      × (number ≤ suc (length taken))

  pick-Picked :
      IsSpread
      → (fuel : ℕ) (taken : List String) (name : String) (number : ℕ) → Used taken name number
      → number + fuel ≤ bound
      → length taken < number + fuel
      → Picked taken name (pick digest fuel taken name number)
  unfolding pick digests
  pick-Picked spread zero taken name number used le enough =
      let few = Used-le spread taken name number (omega arith) used in absurd (omega arith)
  pick-Picked spread (suc fuel) taken name number used le enough =
      elim (Bool-cases (has_name (digest name number) taken)) [
        | inl e ↦
            rw e (
              pick-Picked spread fuel taken name (suc number) (e, used) (omega arith) (omega arith))
        | inr e ↦
            let both : Used (digest name number ∷ taken) name (suc number) = (
              ground (arith, eq_iff (digest name number) (digest name number)),
              Used-more taken (digest name number) name number used,
            ) in
            rw e (
              digest name number,
              suc number,
              refl,
              e,
              both,
              Used-le spread (digest name number ∷ taken) name (suc number) (omega arith) both,
            )
      ]

  abbrev Counted : Dict ℕ → List String → Type 0
  Counted counters taken =
      (name : String)
      → Used taken name (count_of counters name) × (count_of counters name ≤ length taken)

  Counted-put :
      (counters : Dict ℕ) (taken : List String) (name id : String) (number : ℕ)
      → Counted counters taken
      → Used (id ∷ taken) name number
      → number ≤ suc (length taken)
      → Counted (Dict.put name number counters) (id ∷ taken)
  Counted-put counters taken name id number counted used few other =
      let (before, le) = counted other in
      elim (Bool-cases (name == other)) [
        | inl e ↦
            rw (count_of, Dict.get-put name other number counters, e, ← (eq_iff name other).0 e)
              (used, few)
        | inr e ↦
            let more : count_of counters other ≤ suc (length taken) = omega arith in
            rw (count_of, Dict.get-put name other number counters, e)
              (Used-more taken id other (count_of counters other) before, more)
      ]

  followed-some :
      (w : WidgetTile) (found : Option (List WidgetTile)) (rs : List WidgetTile)
      → found ≡ some rs
      → followed_by w found ≡ some (w ∷ rs)
  followed-some w found rs h = ap (followed_by w) h

  assign-some :
      IsSpread
      → (counters : Dict ℕ) (taken : List String) (ws : List WidgetTile) → Counted counters taken
      → suc (2 * (length taken + length ws)) ≤ bound
      → (rs : List WidgetTile) × (assign digest counters taken ws ≡ some rs)
  unfolding assign
  assign-some spread counters taken [] counted le = ([], refl)
  assign-some spread counters taken (w ∷ ws) counted le = elim (Bool-cases (w.id == "")) [
    | inr e ↦
        let (rs, rest) = assign-some spread counters taken ws counted (omega arith) in
        (w ∷ rs, rw e (followed-some w _ rs rest))
    | inl e ↦
        let (used, few) = counted w.widget in
        let (id, number, found, free, now, le_now) =
          pick-Picked spread (suc (length taken)) taken w.widget (count_of counters w.widget) used
            (omega arith) (omega arith) in
        let (rs, rest) =
          assign-some spread (Dict.put w.widget number counters) (id ∷ taken) ws
            (Counted-put counters taken w.widget id number counted now le_now) (omega arith) in
        (with_id w id ∷ rs, rw (e, found) (followed-some (with_id w id) _ rs rest))
  ]

  pub length-keep_first :
      (taken : List String) (ws : List WidgetTile)
      → (length (keep_first taken ws).0 ≡ length ws)
        × (length (keep_first taken ws).1 ≤ length taken + length ws)
  unfolding keep_first
  length-keep_first taken [] = (refl, omega arith)
  length-keep_first taken (w ∷ ws) =
      let (same, few) = length-keep_first taken ws in
      let (same_more, few_more) = length-keep_first (w.id ∷ taken) ws in
      elim (Bool-cases (has_name w.id taken)) [
        | inl e ↦ rw e (ap suc same, omega arith)
        | inr e ↦ elim (Bool-cases (w.id == "")) [
          | inl none_given ↦ rw (e, none_given) (ap suc same, omega arith)
          | inr given ↦ rw (e, given) (ap suc same_more, omega arith)
        ]
      ]

  -- When no two numbers up to four for each widget, and one, give the same digest for one type, the
  -- loop for a free digest ends for every widget, and every widget has an id given to it.
  pub assign_widget_ids-some :
      IsSpread
      → (ws : List WidgetTile) → suc (4 * length ws) ≤ bound
      → (rs : List WidgetTile) × (assign_widget_ids digest ws ≡ some rs)
  unfolding assign_widget_ids Dict.get digests
  assign_widget_ids-some spread ws le =
      let (same, few) = length-keep_first [] ws in
      assign-some spread [] (keep_first [] ws).1 (keep_first [] ws).0 (λ name. (tt, omega arith))
        (omega arith)
