-- ===== src/Schedule/Missed.antt =====
-- When a run counts as missed in src/app/core/schedule.py.
use mathlib.Core.List.{Memᴰ}
use papaia_manager.Base.{
  ℕ, ◌+◌, ◌-◌, if◌then◌else◌, ◌≤◌, ◌<◌, String, Bool, true, false, ◌&&◌, not, Option, none, some,
  List, [], ◌∷◌, ◌==◌, leb, any, All, arith, ◌≡◌, refl, sym, ap, ◌∙◌, subst, inl, inr, Bool-cases,
}
use papaia_manager.Backups.{
  RestorePoint, is_scoped, span, minus, elapsed, longer, good_time, newest_time, newest_successful,
  restore_point_time, time_of,
}
use papaia_manager.Backups.Newest.{NoLater, NoneGood, Newest, newest_successful_lem}
use papaia_manager.Schedule.{Cadence, BackupSchedule, overdue_limit, is_overdue, catchup_due}
use papaia_manager.Schedule.Retention.{longer-elapsed}

-- The time is not further back than the limit.
abbrev pub is_within : ℕ → ℕ → Option ℕ → Bool
is_within limit now none = false
is_within limit now (some taken) = leb now (taken + limit)

elapsed-longer :
    (taken now limit : ℕ) → longer (elapsed taken now) limit ≡ true → taken + limit < now
elapsed-longer taken now limit e = elim (Bool-cases (leb taken now)) [
  | inl b ↦
      let beyond =
        subst (λ c. longer (if c then span (now - taken) else minus (taken - now)) limit ≡ true) b
          e in
      ground (arith, b, beyond)
  | inr b ↦
      let never =
        subst (λ c. longer (if c then span (now - taken) else minus (taken - now)) limit ≡ true) b
          e in
      absurd (cc never)
]

module _ (read_time : String → Option ℕ) where
  -- A backup of the whole stack that went well and is not further back than the limit.
  abbrev pub is_recent : ℕ → ℕ → RestorePoint → Bool
  is_recent limit now p =
      (p.result == "ok" && not (is_scoped p))
      && is_within limit now (restore_point_time read_time p)

  is_recent-good_time :
      (limit now : ℕ) (p : RestorePoint)
      → is_recent limit now p ≡ is_within limit now (good_time read_time p)
  is_recent-good_time limit now p = elim (Bool-cases (p.result == "ok" && not (is_scoped p))) [
    | inl e ↦ rw e refl
    | inr e ↦ rw e refl
  ]

  is_within-NoLater :
      (limit now t : ℕ) (p : RestorePoint) (u : Option ℕ)
      → good_time read_time p ≡ u
      → NoLater read_time t p
      → t + limit < now
      → is_within limit now u ≡ false
  is_within-NoLater limit now t p none e h late = refl
  is_within-NoLater limit now t p (some u) e h late = let le = h u e in ground (arith, le, late)

  none_recent :
      (limit now t : ℕ) (points : List RestorePoint)
      → All (NoLater read_time t) points
      → t + limit < now
      → any (is_recent limit now) points ≡ false
  none_recent limit now t [] h late = refl
  none_recent limit now t (p ∷ points) h late =
      let first =
        is_recent-good_time limit now p
        ∙ is_within-NoLater limit now t p (good_time read_time p) refl h.0 late in
      rw first (none_recent limit now t points h.1 late)

  none_good :
      (limit now : ℕ) (points : List RestorePoint)
      → NoneGood read_time points
      → any (is_recent limit now) points ≡ false
  none_good limit now [] h = refl
  none_good limit now (p ∷ points) h =
      let first = is_recent-good_time limit now p ∙ ap (is_within limit now) h.0 in
      rw first (none_good limit now points h.1)

  one_recent :
      (limit now t : ℕ) (p : RestorePoint) (points : List RestorePoint)
      → Memᴰ p points
      → good_time read_time p ≡ some t
      → now ≤ t + limit
      → any (is_recent limit now) points ≡ true
  one_recent limit now t p [] m e le = elim m [ ]
  one_recent limit now t p (q ∷ points) (Memᴰ.head same) e le =
      let here : is_within limit now (some t) ≡ true = ground (arith, le) in
      let first : is_recent limit now p ≡ true =
        is_recent-good_time limit now p ∙ ap (is_within limit now) e ∙ here in
      let there : is_recent limit now q ≡ true = rw (sym same) first in rw there refl
  one_recent limit now t p (q ∷ points) (Memᴰ.tail m) e le =
      ground (arith, one_recent limit now t p points m e le)

  good_time-time :
      (p : RestorePoint) (t : ℕ)
      → good_time read_time p ≡ some t
      → restore_point_time read_time p ≡ some t
  good_time-time p t e = elim (Bool-cases (p.result == "ok" && not (is_scoped p))) [
    | inl b ↦ subst (λ c. (if c then restore_point_time read_time p else none) ≡ some t) b e
    | inr b ↦
        let never =
          subst (λ c. (if c then restore_point_time read_time p else none) ≡ some t) b e in
        absurd (cc never)
  ]

  module _ (cadence_of : String → String → Cadence) where
    due_of :
        (s : BackupSchedule) (points : List RestorePoint) (now : ℕ) (newest : Option RestorePoint)
        → Newest read_time points newest
        → is_overdue read_time cadence_of s now (time_of read_time newest)
          ≡ not (any (is_recent (overdue_limit read_time cadence_of s) now) points)
    due_of s points now none h =
        rw (none_good (overdue_limit read_time cadence_of s) now points h) refl
    due_of s points now (some p) (member, (t, time, latest)) =
        let limit = overdue_limit read_time cadence_of s in
        let at_t = ap (is_overdue read_time cadence_of s now) (good_time-time p t time) in
        elim (Bool-cases (longer (elapsed t now) limit)) [
          | inl late ↦
              let none_is =
                none_recent limit now t points latest (elapsed-longer t now limit late) in
              at_t ∙ late ∙ sym (ap not none_is)
          | inr within ↦
              let one_is =
                one_recent limit now t p points member time (longer-elapsed t now limit within) in
              at_t ∙ within ∙ sym (ap not one_is)
        ]

    -- For every schedule, catalogue and moment: a run counts as missed exactly when no backup of the
    -- whole stack that went well is recent: all of them, if there are any with a readable time, are
    -- further back than the overdue limit.
    pub catchup_due_lem :
        (s : BackupSchedule) (points : List RestorePoint) (now : ℕ)
        → catchup_due read_time cadence_of s points now
          ≡ not (any (is_recent (overdue_limit read_time cadence_of s) now) points)
    unfolding catchup_due newest_time
    catchup_due_lem s points now =
        due_of s points now (newest_successful read_time points)
          (newest_successful_lem read_time points)
