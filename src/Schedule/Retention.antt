-- ===== src/Schedule/Retention.antt =====
-- What src/app/core/schedule.py makes of the catalogue: a retention never takes the last good
-- restore point, and a retention held back, a missed run and an overdue schedule are one judgement.
use mathlib.Core.List.{Memᴰ}
use papaia_manager.Base.{
  ℕ, ◌+◌, ◌*◌, ◌-◌, ◌/◌, ◌%◌, ◌≤◌, ◌<◌, String, Bool, true, false, ◌&&◌, not, Option, none, some,
  List, [], ◌∷◌, if◌then◌else◌, ltb, leb, nat_eq, arith, ◌≡◌, refl, sym, ap, ◌∙◌, subst, inl, inr,
  Bool-cases, length,
}
use papaia_manager.Backups.{
  RestorePoint, span, minus, elapsed, longer, newest_time, newest_successful, restore_point_time,
  day, time_of, before_cutoff, older_than, count_older_than,
}
use papaia_manager.Backups.Newest.{Newest, newest_successful_lem}
use papaia_manager.Schedule.{
  Cadence, BackupSchedule, min_retention_days, half_more, check_cadence, overdue_limit, is_overdue,
  catchup_due, plan_for, overdue_of, age_of, plan_retention, evaluate, check_retention,
  min_interval, Skipped, too_old, held_back,
}

-- The retention floor covers the overdue limit.
half_more-le :
    (count days : ℕ) → (2 * count + (day - 1)) / day ≤ days → half_more count ≤ days * day
half_more-le count days h = elim (Bool-cases (nat_eq (count % 2) 0)) [
  | inl e ↦ rw e (omega arith)
  | inr e ↦ rw e (ground arith)
]

check_retention-floor :
    (floor days : ℕ) (retention : Option ℕ)
    → check_retention floor retention ≡ none
    → retention ≡ some days
    → floor ≤ days
check_retention-floor floor days none ok e = absurd (cc e)
check_retention-floor floor days (some d) ok e = elim (Bool-cases (ltb d floor)) [
  | inl b ↦ absurd (ground (arith, ok, b))
  | inr b ↦ let same : d ≡ days = cc e in subst (λ x. floor ≤ x) same (ground (arith, b))
]

min_retention_days-le :
    (c : Cadence) (days : ℕ)
    → min_retention_days c ≤ days
    → (2 * c.longest + (day - 1)) / day ≤ days
min_retention_days-le c days h = ground arith

held_back-some :
    (b : Bool) (retention : ℕ) (why : Skipped) (days : ℕ)
    → (held_back b retention why).days ≡ some days
    → (b ≡ false) × (retention ≡ days)
held_back-some true retention why days e = absurd (cc e)
held_back-some false retention why days e = (refl, cc e)

held_back-days :
    (b : Bool) (retention : ℕ) (why : Skipped)
    → (held_back b retention why).days ≡ (if b then none else some retention)
held_back-days true retention why = refl
held_back-days false retention why = refl

pub longer-elapsed :
    (taken now limit : ℕ) → longer (elapsed taken now) limit ≡ false → now ≤ taken + limit
longer-elapsed taken now limit e = elim (Bool-cases (leb taken now)) [
  | inl b ↦
      let within : ltb limit (now - taken) ≡ false =
        subst (λ c. longer (if c then span (now - taken) else minus (taken - now)) limit ≡ false) b
          e in
      ground (arith, within)
  | inr b ↦ ground (arith, b)
]

abbrev pub is_empty : List RestorePoint → Bool
is_empty [] = true
is_empty (p ∷ ps) = false

module _ (read_time : String → Option ℕ) (cadence_of : String → String → Cadence) where
  check_cadence-limit :
      (s : BackupSchedule) (days : ℕ)
      → check_cadence read_time cadence_of s ≡ none
      → s.retention_days ≡ some days
      → overdue_limit read_time cadence_of s ≤ days * day
  unfolding check_cadence
  check_cadence-limit s days ok e =
      let c = cadence_of s.cron s.timezone in
      elim (Bool-cases (ltb c.shortest min_interval)) [
        | inl b ↦ absurd (ground (arith, ok, b))
        | inr b ↦ half_more-le c.longest days (
            min_retention_days-le c days (
              check_retention-floor (min_retention_days c) days s.retention_days
                (ground (arith, ok, b)) e))
      ]

  time_of-some :
      (o : Option RestorePoint) (taken : ℕ)
      → time_of read_time o ≡ some taken
      → (p : RestorePoint) × (o ≡ some p) × (restore_point_time read_time p ≡ some taken)
  time_of-some none taken e = absurd (cc e)
  time_of-some (some p) taken e = (p, refl, e)

  newest_time-some :
      (points : List RestorePoint) (taken : ℕ)
      → newest_time read_time points ≡ some taken
      → (p : RestorePoint) × (newest_successful read_time points ≡ some p)
        × (restore_point_time read_time p ≡ some taken)
  unfolding newest_time
  newest_time-some points taken e = time_of-some (newest_successful read_time points) taken e

  -- A retention is handed on only with a newest time inside the limit.
  plan_for-some :
      (s : BackupSchedule) (now days : ℕ) (retention taken : Option ℕ)
      → (plan_for read_time cadence_of s now retention taken).days ≡ some days
      → (retention ≡ some days)
        × ((t : ℕ) × (taken ≡ some t) × (now ≤ t + overdue_limit read_time cadence_of s))
  plan_for-some s now days none taken e = absurd (cc e)
  plan_for-some s now days (some r) none e = absurd (cc e)
  plan_for-some s now days (some r) (some t) e =
      let limit = overdue_limit read_time cadence_of s in
      let (handed_on, same) =
        held_back-some (longer (elapsed t now) limit) r (too_old (elapsed t now) limit) days e in
      (ap some same, (t, refl, longer-elapsed t now limit handed_on))

  older_than-recent :
      (p : RestorePoint) (now days taken : ℕ)
      → restore_point_time read_time p ≡ some taken
      → now ≤ taken + days * day
      → older_than read_time days now p ≡ false
  older_than-recent p now days taken e le = ap (before_cutoff days now) e ∙ ground (arith, le)

  count_older_than-le :
      (points : List RestorePoint) (days now : ℕ)
      → count_older_than read_time points days now ≤ length points
  unfolding count_older_than
  count_older_than-le [] days now = omega arith
  count_older_than-le (p ∷ points) days now = ground (arith, count_older_than-le points days now)

  count_older_than-lt :
      (points : List RestorePoint) (days now : ℕ) (p : RestorePoint)
      → Memᴰ p points
      → older_than read_time days now p ≡ false
      → count_older_than read_time points days now < length points
  unfolding count_older_than
  count_older_than-lt (q ∷ points) days now p (Memᴰ.head e) recent =
      let first : older_than read_time days now q ≡ false = rw (sym e) recent in
      ground (arith, first, count_older_than-le points days now)
  count_older_than-lt [] days now p m recent = elim m [ ]
  count_older_than-lt (q ∷ points) days now p (Memᴰ.tail m) recent =
      ground (arith, count_older_than-lt points days now p m recent)

  -- For every schedule that `_check_cadence` accepts, every catalogue and moment: where the plan
  -- hands a retention of `days` to the core, the newest successful restore point exists and is not
  -- older than `days`, so that the core's pruning keeps it, and what the core will delete is fewer
  -- than all restore points.
  pub plan_retention-keeps :
      (s : BackupSchedule) (points : List RestorePoint) (now days : ℕ)
      → check_cadence read_time cadence_of s ≡ none
      → (plan_retention read_time cadence_of s points now).days ≡ some days
      → ((p : RestorePoint) × (newest_successful read_time points ≡ some p)
          × (older_than read_time days now p ≡ false))
        × (count_older_than read_time points days now < length points)
  unfolding plan_retention
  plan_retention-keeps s points now days ok planned =
      let (retention, (t, time, recent)) =
        plan_for-some s now days s.retention_days (newest_time read_time points) planned in
      let limit = check_cadence-limit s days ok retention in
      let (p, found, at_t) = newest_time-some points t time in
      let kept = older_than-recent p now days t at_t (omega (arith, recent, limit)) in
      let member =
        (subst (Newest read_time points) found (newest_successful_lem read_time points)).0 in
      ((p, found, kept), count_older_than-lt points days now p member kept)

  plan_for-days :
      (s : BackupSchedule) (now : ℕ) (retention taken : Option ℕ)
      → (plan_for read_time cadence_of s now retention taken).days
        ≡ (if is_overdue read_time cadence_of s now taken then none else retention)
  plan_for-days s now none none = refl
  plan_for-days s now none (some t) = (ground arith)
  plan_for-days s now (some r) none = refl
  plan_for-days s now (some r) (some t) =
      held_back-days (longer (elapsed t now) (overdue_limit read_time cadence_of s)) r
        (too_old (elapsed t now) (overdue_limit read_time cadence_of s))

  -- For every schedule, catalogue and moment: the plan hands on the configured retention, except
  -- where a run was missed in the sense of `catchup_due`: then it hands on none.
  pub plan_retention-days :
      (s : BackupSchedule) (points : List RestorePoint) (now : ℕ)
      → (plan_retention read_time cadence_of s points now).days
        ≡ (if catchup_due read_time cadence_of s points now then none else s.retention_days)
  unfolding plan_retention catchup_due
  plan_retention-days s points now =
      plan_for-days s now s.retention_days (newest_time read_time points)

  overdue_of-nonempty :
      (enabled : Bool) (s : BackupSchedule) (p : RestorePoint) (points : List RestorePoint)
      (now : ℕ) (taken : Option ℕ)
      → overdue_of
          (if enabled then some (overdue_limit read_time cadence_of s) else none)
          (p ∷ points)
          (age_of now taken)
        ≡ (enabled && is_overdue read_time cadence_of s now taken)
  overdue_of-nonempty false s p points now taken = refl
  overdue_of-nonempty true s p points now none = refl
  overdue_of-nonempty true s p points now (some t) = refl

  overdue_of-empty :
      (enabled : Bool) (limit now : ℕ)
      → overdue_of (if enabled then some limit else none) [] (age_of now none) ≡ (enabled && false)
  overdue_of-empty false limit now = refl
  overdue_of-empty true limit now = refl

  -- For every schedule, catalogue and moment: the status strip calls the schedule overdue exactly
  -- when it is enabled, the catalogue is not empty, and a run was missed in the sense of
  -- `catchup_due`.
  pub evaluate-overdue :
      (s : BackupSchedule) (points : List RestorePoint) (now : ℕ) (next_run : Option ℕ)
      → (evaluate read_time cadence_of (some s) points now next_run).overdue
        ≡ (s.enabled && (not (is_empty points) && catchup_due read_time cadence_of s points now))
  unfolding evaluate catchup_due newest_time newest_successful
  evaluate-overdue s [] now next_run =
      overdue_of-empty s.enabled (overdue_limit read_time cadence_of s) now
  evaluate-overdue s (p ∷ points) now next_run =
      overdue_of-nonempty s.enabled s p points now (newest_time read_time (p ∷ points))
