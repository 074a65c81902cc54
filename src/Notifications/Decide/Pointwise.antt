-- ===== src/Notifications/Decide/Pointwise.antt =====
-- What one finding does to each key on its own: the loops against a description without loops.
use text.Mathlib.Text.{starts_with}
use papaia_manager.Base.{
  ℕ, String, ◌≡◌, ◌≢◌, refl, ap, sym, ◌∙◌, Bool, true, false, not, ◌&&◌, ◌||◌, Option, none, some,
  List, [], ◌∷◌, ◌==◌, arith, eq_iff, if◌then◌else◌, All, any, keep, inl, inr, Bool-cases, ◌⊎◌,
  subst,
}
use papaia_manager.Base.Dict
use papaia_manager.Base.Dict.{Dict, IsDict, put-IsDict, get-put, get-remove, get-fresh}
use papaia_manager.Notifications.Model.{Event, EventSettings}
use papaia_manager.Notifications.Decide.{
  Seen, Condition, Finding, state_key, current_of, fires, noted, report, over, replace, clear,
  is_stale, decide_finding, has,
}

pub current_of-IsDict :
    (event : Event) (cs : List Condition) (current : Dict Condition)
    → IsDict current
    → IsDict (current_of event cs current)
unfolding current_of
current_of-IsDict event [] current u = u
current_of-IsDict event (c ∷ cs) current u =
    current_of-IsDict event cs (Dict.put (state_key event c.key) c current)
      (put-IsDict (state_key event c.key) c current u)

-- Membership survives a filter exactly if the test is passed.
any-keep :
    (p : String → Bool) (k : String) (ks : List String)
    → any (λ j. j == k) (keep p ks) ≡ (p k && any (λ j. j == k) ks)
any-keep p k [] = ground arith
any-keep p k (j ∷ ks) = ground (arith, any-keep p k ks, eq_iff j k)

any-keys :
    {V : Type 0} (k : String) (d : Dict V)
    → any (λ j. j == k) (Dict.keys d) ≡ false
    → Dict.get k d ≡ none
unfolding Dict.get
any-keys k [] h = refl
any-keys k ((j, v) ∷ d) h = ground (arith, any-keys k d)

module _ (event : Event) (now : ℕ) (settings : EventSettings) where
  -- What is remembered about a key after the first loop.
  abbrev pub noted_at : Option Condition → Option Seen → Option Seen
  noted_at none seen = seen
  noted_at (some c) seen = some (noted event now settings c seen)

  get-report :
      (k : String) (items : Dict Condition) (seen : Dict Seen)
      → IsDict items
      → Dict.get k (report event now settings items seen).1
        ≡ noted_at (Dict.get k items) (Dict.get k seen)
  unfolding report Dict.get
  get-report k [] seen u = refl
  get-report k ((i, c) ∷ items) seen u =
      rw
        (
          get-report k items (Dict.put i (noted event now settings c (Dict.get i seen)) seen) u.1,
          get-put,
        )
        (split (Bool-cases (i == k)))
    where
      split :
          ((i == k) ≡ true) ⊎ ((i == k) ≡ false)
          → noted_at (Dict.get k items) (
              if i == k
              then some (noted event now settings c (Dict.get i seen))
              else Dict.get k seen)
            ≡ noted_at (if i == k then some c else Dict.get k items) (Dict.get k seen)
      split (inl e) =
          let gone : Dict.get k items ≡ none =
            subst (λ x. Dict.get x items ≡ none) ((eq_iff i k).0 e) (get-fresh i items u.0) in
          rw (e, (eq_iff i k).0 e, gone)
      split (inr e) = rw e

  -- The conditions that fire, each judged by what was remembered at first.
  abbrev pub firing : Dict Condition → Dict Seen → List Condition
  firing [] seen = []
  firing ((k, c) ∷ items) seen =
      let rest = firing items seen in
      if fires event now settings c (Dict.get k seen) then c ∷ rest else rest

  firing-put :
      (i : String) (entry : Seen) (items : Dict Condition) (seen : Dict Seen)
      → All (λ k. i ≢ k) (Dict.keys items)
      → firing items (Dict.put i entry seen) ≡ firing items seen
  firing-put i entry [] seen h = refl
  firing-put i entry ((k, c) ∷ items) seen h =
      rw (get-put, firing-put i entry items seen h.1) (ground (arith, eq_iff i k))

  report-new :
      (items : Dict Condition) (seen : Dict Seen)
      → IsDict items
      → (report event now settings items seen).0 ≡ firing items seen
  unfolding report
  report-new [] seen u = refl
  report-new ((k, c) ∷ items) seen u =
      let x = noted event now settings c (Dict.get k seen) in
      rw (report-new items (Dict.put k x seen) u.1, firing-put k x items seen u.0)

  get-replace :
      (k j : String) (o : Option Seen) (seen : Dict Seen)
      → Dict.get k (replace event now settings j o seen) ≡ (if j == k then o else Dict.get k seen)
  get-replace k j none seen = get-remove j k seen
  get-replace k j (some entry) seen = get-put j k entry seen

  over-over :
      (o : Option Seen)
      → over event now settings (over event now settings o) ≡ over event now settings o
  over-over o = ground arith

  over_merge :
      (b b' : Bool) (x y : Option Seen)
      → (b ≡ true → x ≡ y)
      → (if b'
          then over event now settings (if b then over event now settings x else y)
          else if b
          then over event now settings x
          else y)
        ≡ (if b || b' then over event now settings y else y)
  over_merge true true x y h = rw (h refl) (over-over y)
  over_merge true false x y h = ap (over event now settings) (h refl)
  over_merge false true x y h = refl
  over_merge false false x y h = refl

  get-clear :
      (k : String) (stale : List String) (seen : Dict Seen)
      → Dict.get k (clear event now settings stale seen) ≡ (
          if any (λ j. j == k) stale
          then over event now settings (Dict.get k seen)
          else Dict.get k seen)
  unfolding clear
  get-clear k [] seen = refl
  get-clear k (j ∷ stale) seen =
      rw
        (
          get-clear k stale
              (replace event now settings j (over event now settings (Dict.get j seen)) seen),
          get-replace,
        )
        (over_merge (j == k) (any (λ i. i == k) stale) (Dict.get j seen) (Dict.get k seen)
          (λ e. ap (λ i. Dict.get i seen) ((eq_iff j k).0 e)))

  stale_case :
      (inside there : Bool) (m : Option Condition) (before : Option Seen)
      → (there ≡ false → noted_at m before ≡ none)
      → (if (inside && not (has m)) && there
          then over event now settings (noted_at m before)
          else noted_at m before)
        ≡ (if inside && not (has m) then over event now settings before else noted_at m before)
  stale_case false there m before h = refl
  stale_case true there (some c) before h = refl
  stale_case true true none before h = refl
  stale_case true false none before h = rw (h refl)

-- A finding treats each key on its own: it is remembered as active with its marker if the finding
-- has a condition of that key, as over (or forgotten) if it lies in the finding's scope and has
-- none, and as before otherwise. The conditions reported are those that fire by what was
-- remembered before, in order.
pub decide_finding_lem :
    (now : ℕ) (settings : EventSettings) (finding : Finding) (seen : Dict Seen) (k : String)
    → let event : Event = finding.event in
      let current : Dict Condition = current_of event finding.conditions [] in
      let before : Option Seen = Dict.get k seen in
      (Dict.get k (decide_finding now settings finding seen).1 ≡ (
        if is_stale (state_key event finding.scope) current k
        then over event now settings before
        else noted_at event now settings (Dict.get k current) before))
      × ((decide_finding now settings finding seen).0 ≡ firing event now settings current seen)
unfolding decide_finding
decide_finding_lem now settings finding seen k =
    let event = finding.event in
    let current = current_of event finding.conditions [] in
    let distinct = current_of-IsDict event finding.conditions [] tt in
    let after = (report event now settings current seen).1 in
    let prefix = state_key event finding.scope in
    let kept = get-report event now settings k current seen distinct in
    (
      rw
          (
            get-clear event now settings k (keep (is_stale prefix current) (Dict.keys after)) after,
            any-keep (is_stale prefix current) k (Dict.keys after),
            kept,
          )
          (stale_case event now settings (starts_with k prefix)
            (any (λ j. j == k) (Dict.keys after)) (Dict.get k current) (Dict.get k seen)
            (λ e. sym kept ∙ any-keys k after e)),
      report-new event now settings current seen distinct,
    )
