-- ===== src/Schedule.antt =====
-- src/app/core/schedule.py: what a backup schedule promises, and what it makes of the catalogue of
-- restore points. Spans are counts of microseconds, and times count from `datetime.min`. `cadence_of` measures the gaps between
-- the runs of a cron expression in a time zone; the cron library and the zones stand behind it.
pub mod Retention
pub mod Missed
pub mod Humanize
pub mod Tests
use papaia_manager.Base.{
  ℕ, zero, suc, ◌+◌, ◌*◌, ◌-◌, ◌/◌, ◌%◌, String, Bool, true, false, ◌&&◌, not, Option, none, some,
  List, [], ◌∷◌, if◌then◌else◌, ltb, leb, nat_eq,
}
use papaia_manager.Backups
use papaia_manager.Backups.{
  RestorePoint, Span, span, minus, elapsed, longer, newest_time, restore_point_time, day,
}

pub data RunOnStartup : Type 0 where
  never if_missed : RunOnStartup

pub record Cadence : Type 0 where
  pub shortest : ℕ
  pub longest : ℕ

pub record BackupSchedule : Type 0 where
  pub enabled : Bool
  pub cron : String
  pub timezone : String
  pub retention_days : Option ℕ
  pub misfire_grace_seconds : ℕ
  pub run_on_startup : RunOnStartup

-- `MIN_INTERVAL`: one hour
abbrev pub min_interval : ℕ
min_interval = 3_600_000_000

-- `max(1, math.ceil(2 * cadence.longest / timedelta(days=1)))`
abbrev pub min_retention_days : Cadence → ℕ
min_retention_days cadence =
    let days = (2 * cadence.longest + (day - 1)) / day in if leb 1 days then days else 1

-- `span * OVERDUE_FACTOR`: one and a half times, where a half rounds to the even count.
abbrev pub half_more : ℕ → ℕ
half_more count =
    let rounded_down = count * 3 / 2 in
    if nat_eq (count % 2) 0 then rounded_down else rounded_down + rounded_down % 2

-- Why `_check_cadence` refuses a schedule: the gap it names, or the floor.
pub data Refusal : Type 0 where
  too_often retention_too_short : ℕ → Refusal

-- Why a retention is held back: no good restore point, or its age and the limit.
pub data Skipped : Type 0 where
  no_restore_point : Skipped
  too_old : Span → ℕ → Skipped

pub record RetentionPlan : Type 0 where
  pub days : Option ℕ
  pub skipped : Option Skipped

pub record ScheduleStatus : Type 0 where
  pub last_ok_at : Option ℕ
  pub age : Option Span
  pub latest_result : String
  pub overdue_after : Option ℕ
  pub overdue : Bool
  pub next_run : Option ℕ

abbrev check_retention : ℕ → Option ℕ → Option Refusal
check_retention floor none = none
check_retention floor (some days) =
    if ltb days floor then some (retention_too_short floor) else none

-- The plan for a retention that is held back for `why`, or handed on.
abbrev pub held_back : Bool → ℕ → Skipped → RetentionPlan
held_back true retention why = record { days = none; skipped = some why }
held_back false retention why = record { days = some retention; skipped = none }

abbrev overdue_of : Option ℕ → List RestorePoint → Option Span → Bool
overdue_of none points age = false
overdue_of (some limit) points (some age) = longer age limit
overdue_of (some limit) [] none = false
overdue_of (some limit) (p ∷ ps) none = true

abbrev age_of : ℕ → Option ℕ → Option Span
age_of now none = none
age_of now (some taken) = some (elapsed taken now)

module _ (read_time : String → Option ℕ) (cadence_of : String → String → Cadence) where
  -- `_check_cadence`: none when the schedule is accepted.
  unfoldable pub check_cadence : BackupSchedule → Option Refusal
  check_cadence s =
      let cadence = cadence_of s.cron s.timezone in
      if ltb cadence.shortest min_interval
      then some (too_often cadence.shortest)
      else check_retention (min_retention_days cadence) s.retention_days

  abbrev pub overdue_limit : BackupSchedule → ℕ
  overdue_limit s = half_more (cadence_of s.cron s.timezone).longest

  abbrev pub is_overdue : BackupSchedule → ℕ → Option ℕ → Bool
  is_overdue s now none = true
  is_overdue s now (some taken) = longer (elapsed taken now) (overdue_limit s)

  unfoldable pub catchup_due : BackupSchedule → List RestorePoint → ℕ → Bool
  catchup_due s points now = is_overdue s now (newest_time read_time points)

  abbrev plan_for : BackupSchedule → ℕ → Option ℕ → Option ℕ → RetentionPlan
  plan_for s now none taken = record { days = none; skipped = none }
  plan_for s now (some retention) none = record { days = none; skipped = some no_restore_point }
  plan_for s now (some retention) (some taken) =
      let limit = overdue_limit s in
      let age = elapsed taken now in held_back (longer age limit) retention (too_old age limit)

  unfoldable pub plan_retention : BackupSchedule → List RestorePoint → ℕ → RetentionPlan
  plan_retention s points now = plan_for s now s.retention_days (newest_time read_time points)

  -- The key of `max` for the latest result: `datetime.min` stands for a time that cannot be read.
  abbrev latest_key : RestorePoint → ℕ
  latest_key p = elim (restore_point_time read_time p) [ none ↦ 0 | some taken ↦ taken ]

  abbrev latest_from : RestorePoint → List RestorePoint → RestorePoint
  latest_from best [] = best
  latest_from best (p ∷ ps) =
      latest_from (if ltb (latest_key best) (latest_key p) then p else best) ps

  abbrev latest_result_of : List RestorePoint → String
  latest_result_of [] = ""
  latest_result_of (p ∷ ps) = (latest_from p ps).result

  abbrev limit_of : Option BackupSchedule → Option ℕ
  limit_of none = none
  limit_of (some s) = if s.enabled then some (overdue_limit s) else none

  unfoldable pub evaluate :
      Option BackupSchedule → List RestorePoint → ℕ → Option ℕ → ScheduleStatus
  evaluate schedule points now next_run =
      let last_ok_at = newest_time read_time points in
      let age = age_of now last_ok_at in
      let limit = limit_of schedule in
      record {
        last_ok_at = last_ok_at;
        age = age;
        latest_result = latest_result_of points;
        overdue_after = limit;
        overdue = overdue_of limit points age;
        next_run = next_run;
      }

-- The units that `humanize` names, with their counts.
pub data Units : Type 0 where
  days hours minutes : ℕ → Units
  days_hours hours_minutes : ℕ → ℕ → Units
  under_a_minute : Units

-- `max(0, int(span.total_seconds()))`
abbrev pub whole_seconds : Span → ℕ
whole_seconds (span micros) = micros / 1_000_000
whole_seconds (minus _) = 0

abbrev pub units_of : ℕ → ℕ → ℕ → Units
units_of (suc d) zero m = days (suc d)
units_of (suc d) (suc h) m = if leb 7 (suc d) then days (suc d) else days_hours (suc d) (suc h)
units_of zero (suc h) zero = hours (suc h)
units_of zero (suc h) (suc m) = hours_minutes (suc h) (suc m)
units_of zero zero (suc m) = minutes (suc m)
units_of zero zero zero = under_a_minute

unfoldable pub humanize : Span → Units
humanize s =
    let seconds = whole_seconds s in
    let rest = seconds % 86_400 in units_of (seconds / 86_400) (rest / 3_600) (rest % 3_600 / 60)
