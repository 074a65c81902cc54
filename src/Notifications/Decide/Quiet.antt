-- ===== src/Notifications/Decide/Quiet.antt =====
-- Nothing is reported twice: a repeated look is quiet, and a flapping service is reported at most
-- once in each debounce window.
use papaia_manager.Base.{
  ℕ, ◌+◌, ◌*◌, ◌≤◌, String, ◌≡◌, refl, ap, ◌∙◌, Bool, true, false, Option, none, some, List, [],
  ◌∷◌, arith, eq_iff, if◌then◌else◌, inl, inr, ◌⊎◌, Bool-cases,
}
use papaia_manager.Base.Dict
use papaia_manager.Base.Dict.{Dict, IsDict, get-fresh}
use papaia_manager.Notifications.Model.{Event, service_unhealthy, EventSettings}
use papaia_manager.Notifications.Decide.{
  Seen, Condition, Finding, at, state_key, current_of, fires, noted, over, forgotten, last_of,
  is_stale, decide_finding, minute, forget_after,
}
use papaia_manager.Notifications.Decide.Pointwise.{
  noted_at, firing, decide_finding_lem, current_of-IsDict,
}

module _ (event : Event) (now : ℕ) (settings : EventSettings) where
  firing-none :
      (items : Dict Condition) (seen : Dict Seen)
      → IsDict items
      → ((k : String) (c : Condition)
          → Dict.get k items ≡ some c
          → fires event now settings c (Dict.get k seen) ≡ false)
      → firing event now settings items seen ≡ []
  unfolding Dict.get
  firing-none [] seen u h = refl
  firing-none ((k, c) ∷ items) seen u h = rw (h k c (ground (arith, eq_iff k k))) (
      firing-none items seen u.1
        λ j d found. h j d (ground (arith, eq_iff k j, get-fresh k items u.0)))

  -- A condition that was just noted does not fire, whatever the time and the settings.
  noted-fires :
      (then_now : ℕ) (before_settings : EventSettings) (c : Condition) (before : Option Seen)
      → fires event now settings c (some (noted event then_now before_settings c before)) ≡ false
  noted-fires then_now before_settings c before = ground (arith, eq_iff c.marker c.marker)

-- A condition that holds is remembered as noted.
remembered :
    (now : ℕ) (settings : EventSettings) (finding : Finding) (seen : Dict Seen) (k : String)
    (c : Condition)
    → Dict.get k (current_of finding.event finding.conditions []) ≡ some c
    → Dict.get k (decide_finding now settings finding seen).1
      ≡ some (noted finding.event now settings c (Dict.get k seen))
remembered now settings finding seen k c found =
    (decide_finding_lem now settings finding seen k).0 ∙ ground arith

-- A finding that was decided on is quiet when it is looked at again, at any later or earlier time
-- and under any settings: nothing is reported.
pub decide_again_quiet :
    (now later : ℕ) (settings changed : EventSettings) (finding : Finding) (seen : Dict Seen)
    → (decide_finding later changed finding (decide_finding now settings finding seen).1).0 ≡ []
decide_again_quiet now later settings changed finding seen =
    let event = finding.event in
    let current = current_of event finding.conditions [] in
    let after = (decide_finding now settings finding seen).1 in
    (decide_finding_lem later changed finding after "").1
    ∙ firing-none event later changed current after
        (current_of-IsDict event finding.conditions [] tt)
        λ k c found.
          ap (fires event later changed c) (remembered now settings finding seen k c found)
          ∙ noted-fires event later changed now settings c (Dict.get k seen)

-- One pass of the background task over the services.
pub record Pass : Type 0 where
  pub now : ℕ
  pub conditions : List Condition
  pub scope : String

abbrev pub found : Pass → Finding
found p = record { event = service_unhealthy; conditions = p.conditions; scope = p.scope }

abbrev pub fires_at : EventSettings → Pass → Option Condition → Option Seen → Bool
fires_at settings p none seen = false
fires_at settings p (some c) seen = fires service_unhealthy p.now settings c seen

-- Whether the pass reports the key.
abbrev pub reports : EventSettings → String → Pass → Dict Seen → Bool
reports settings k p seen =
    fires_at settings p (Dict.get k (current_of service_unhealthy p.conditions []))
      (Dict.get k seen)

abbrev pub after : EventSettings → Pass → Dict Seen → Dict Seen
after settings p seen = (decide_finding p.now settings (found p) seen).1

abbrev pub after_all : EventSettings → List Pass → Dict Seen → Dict Seen
after_all settings [] seen = seen
after_all settings (p ∷ ps) seen = after_all settings ps (after settings p seen)

-- The clock does not run backwards, from `t` on up to the pass `last`.
abbrev pub Ascends : ℕ → List Pass → Pass → Type 0
Ascends t [] last = t ≤ last.now
Ascends t (p ∷ ps) last = (t ≤ p.now) × Ascends p.now ps last

-- The report of time `t₀` is remembered.
abbrev Kept : ℕ → Option Seen → Type 0
Kept t₀ none = ⊥
Kept t₀ (some e) = (t : ℕ) × (e.last_sent ≡ at t) × (t₀ ≤ t)

module _ (settings : EventSettings) where
  abbrev window : ℕ
  window = settings.debounce_minutes * minute

  abbrev Guard : ℕ → ℕ → Option Seen → Type 0
  Guard t₀ now o = Kept t₀ o ⊎ (t₀ + window ≤ now)

  Guard-noted :
      (t₀ now : ℕ) (p : Pass) (m : Option Condition) (o : Option Seen)
      → now ≤ p.now
      → t₀ ≤ now
      → Guard t₀ now o
      → Guard t₀ p.now (noted_at service_unhealthy p.now settings m o)
  Guard-noted t₀ now p m o le le₀ (inr far) = inr (omega arith)
  Guard-noted t₀ now p none o le le₀ (inl kept) = inl kept
  Guard-noted t₀ now p (some c) none le le₀ (inl kept) = absurd kept
  Guard-noted t₀ now p (some c) (some e) le le₀ (inl (t, sent, past)) =
      elim (Bool-cases (fires service_unhealthy p.now settings c (some e))) [
        | inl fresh ↦ inl (p.now, ap (λ b. if b then at p.now else e.last_sent) fresh, omega arith)
        | inr quiet ↦ inl (t, ap (λ b. if b then at p.now else e.last_sent) quiet ∙ sent, past)
      ]

  Guard-over :
      (t₀ now : ℕ) (p : Pass) (o : Option Seen)
      → window ≤ forget_after
      → now ≤ p.now
      → Guard t₀ now o
      → Guard t₀ p.now (over service_unhealthy p.now settings o)
  Guard-over t₀ now p o small le (inr far) = inr (omega arith)
  Guard-over t₀ now p none small le (inl kept) = absurd kept
  Guard-over t₀ now p (some e) small le (inl (t, sent, past)) =
      elim (Bool-cases (forgotten e p.now)) [
        | inl gone ↦ rw gone (inr (ground arith))
        | inr stays ↦ rw stays (inl (t, sent, past))
      ]

  fires-window :
      (t₀ now : ℕ) (p : Pass) (m : Option Condition) (o : Option Seen)
      → now ≤ p.now
      → Guard t₀ now o
      → fires_at settings p m o ≡ true
      → t₀ + window ≤ p.now
  fires-window t₀ now p m o le (inr far) f = omega arith
  fires-window t₀ now p none o le (inl kept) f = cc
  fires-window t₀ now p (some c) none le (inl kept) f = absurd kept
  fires-window t₀ now p (some c) (some e) le (inl (t, sent, past)) f = ground arith

  Guard-after :
      (k : String) (t₀ now : ℕ) (p : Pass) (seen : Dict Seen)
      → window ≤ forget_after
      → now ≤ p.now
      → t₀ ≤ now
      → Guard t₀ now (Dict.get k seen)
      → Guard t₀ p.now (Dict.get k (after settings p seen))
  Guard-after k t₀ now p seen small le le₀ g =
      let current = current_of service_unhealthy p.conditions [] in
      rw ((decide_finding_lem p.now settings (found p) seen k).0)
        (elim (Bool-cases (is_stale (state_key service_unhealthy p.scope) current k)) [
          | inl stale ↦ rw stale (Guard-over t₀ now p (Dict.get k seen) small le g)
          | inr kept ↦
              rw kept (Guard-noted t₀ now p (Dict.get k current) (Dict.get k seen) le le₀ g)
        ])

  reports-window :
      (k : String) (t₀ now : ℕ) (ps : List Pass) (last : Pass) (seen : Dict Seen)
      → window ≤ forget_after
      → Ascends now ps last
      → t₀ ≤ now
      → Guard t₀ now (Dict.get k seen)
      → reports settings k last (after_all settings ps seen) ≡ true
      → t₀ + window ≤ last.now
  reports-window k t₀ now [] last seen small up le₀ g r =
      fires-window t₀ now last (Dict.get k (current_of service_unhealthy last.conditions []))
        (Dict.get k seen) up g r
  reports-window k t₀ now (p ∷ ps) last seen small up le₀ g r =
      reports-window k t₀ p.now ps last (after settings p seen) small up.1 (omega arith)
        (Guard-after k t₀ now p seen small up.0 le₀ g) r

  reported-Guard :
      (k : String) (p : Pass) (m : Option Condition) (seen : Dict Seen)
      → Dict.get k (current_of service_unhealthy p.conditions []) ≡ m
      → fires_at settings p m (Dict.get k seen) ≡ true
      → Guard p.now p.now (Dict.get k (after settings p seen))
  reported-Guard k p none seen e f = cc
  reported-Guard k p (some c) seen e f = rw (remembered p.now settings (found p) seen k c e) (
      inl (
        p.now,
        ap (λ b. if b then at p.now else last_of service_unhealthy p.now settings (Dict.get k seen))
            f,
        omega arith,
      ))

  -- Two reports of one service (or node) are at least the debounce
  -- window apart, whatever the passes between them found, if the clock does not run backwards and
  -- the window is no longer than the time after which an entry is forgotten (the settings allow a
  -- day at most, and that time is 30 days).
  pub reports_debounced :
      (k : String) (first : Pass) (ps : List Pass) (last : Pass) (seen : Dict Seen)
      → settings.debounce_minutes * minute ≤ forget_after
      → Ascends first.now ps last
      → reports settings k first seen ≡ true
      → reports settings k last (after_all settings (first ∷ ps) seen) ≡ true
      → first.now + settings.debounce_minutes * minute ≤ last.now
  reports_debounced k first ps last seen small up r₀ r =
      reports-window k first.now first.now ps last (after settings first seen) small up
        (omega arith)
        (reported-Guard k first (Dict.get k (current_of service_unhealthy first.conditions [])) seen
          refl r₀)
        r
