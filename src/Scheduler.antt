-- ===== src/Scheduler.antt =====
-- src/app/core/scheduler.py: when a scheduled backup starts, waits, or is given up.
pub mod Store
pub mod Firing
pub mod GivingUp
pub mod Catchup
mod Tests
use papaia_manager.Base.{
  ℕ, ◌+◌, String, Bool, true, false, ◌&&◌, not, Option, none, some, List, [], ◌∷◌, ◌++◌,
  if◌then◌else◌, leb, ltb,
}
use papaia_manager.Backups.{RestorePoint}
use papaia_manager.Schedule.{
  BackupSchedule, Cadence, RunOnStartup, never, if_missed, plan_retention, catchup_due,
}
use papaia_manager.Jobs.{JobQueue, Job, Event, run, active_job}
use papaia_manager.BackupRun.{
  Lookup, blocking_runner, BlockingRunner, BackupCallback, Trigger, schedule, enqueue_backup,
}
use papaia_manager.Scheduler.Store.{JobStore, Planned, on_cron, once}

abbrev pub job_id : String
job_id = "backup-schedule"

abbrev pub retry_job_id : String
retry_job_id = "backup-schedule-retry"

abbrev pub catchup_job_id : String
catchup_job_id = "backup-schedule-catchup"

abbrev pub scheduler_user : String
scheduler_user = "scheduler"

-- 120 seconds
abbrev pub catchup_delay : ℕ
catchup_delay = 120_000_000

-- 10 minutes
abbrev pub retry_delay : ℕ
retry_delay = 600_000_000

abbrev pub max_attempts : ℕ
max_attempts = 6

-- Why a run cannot start; the job that is in the way is the queue's active one.
pub data Obstacle : Type 0 where
  not_reachable : Obstacle
  runner_active : BlockingRunner → Obstacle
  job_active : Job → Obstacle

-- The audit entry of a run that could not start.
pub record SkipEntry : Type 0 where
  pub target : String
  pub reason : Obstacle
  pub attempt : ℕ
  pub gave_up : Bool

pub data Fired : Type 0 where
  started retry gave_up disabled : Fired

-- The scheduler: APScheduler's job store, the queue that it shares with the rest of the manager,
-- and what it has written to the audit file.
pub record BackupScheduler (S C : Type 0) : Type 0 where
  pub stopping : Bool
  pub store : S
  pub queue : JobQueue C
  pub audit : List SkipEntry

-- What a firing meets: the schedule file, the backup directory and whether it is reachable, the
-- runners, the catalogue, the clock, the id of a new job, and what happens to the queue while the
-- runners are looked up and while the catalogue is read.
pub record World (C : Type 0) : Type 0 where
  pub schedule : Option BackupSchedule
  pub backup_dir : Option String
  pub reachable : Bool
  pub restore_runner : Lookup
  pub upgrade_runner : Lookup
  pub points : List RestorePoint
  pub now : ℕ
  pub new_id : String
  pub before_check : List (Event C)
  pub before_start : List (Event C)

-- The schedule that is there and enabled.
abbrev pub enabled_schedule : Option BackupSchedule → Option BackupSchedule
enabled_schedule none = none
enabled_schedule (some s) = if s.enabled then some s else none

-- `backup_dir is None or not is_reachable(backup_dir)` as the directory that is left.
abbrev pub reachable_dir : {C : Type 0} → World C → Option String
reachable_dir w = elim w.backup_dir [
  | none ↦ none
  | some dir ↦ if w.reachable then some dir else none
]

abbrev target_of : Option String → String
target_of none = ""
target_of (some dir) = dir

module _ {S : Type 0} (store : JobStore S) where
  abbrev remove_found : Option Planned → String → S → S
  remove_found none id s = s
  remove_found (some _) id s = store.remove_job id s

  -- `_remove`
  unfoldable pub remove_planned : String → S → S
  remove_planned id s = remove_found (store.get_job id s) id s

  abbrev apply_enabled : Option BackupSchedule → S → S
  apply_enabled none s = remove_planned job_id s
  apply_enabled (some current) s =
      store.add_job job_id (on_cron current.cron current.timezone current.misfire_grace_seconds) s

module _ {S C : Type 0} (store : JobStore S) where
  unfoldable pub apply : Option BackupSchedule → BackupScheduler S C → BackupScheduler S C
  apply current b =
      let swept = remove_planned store catchup_job_id (remove_planned store retry_job_id b.store) in
      record b { store = apply_enabled store (enabled_schedule current) swept }

  -- `_skip`
  unfoldable pub skip : ℕ → Obstacle → World C → BackupScheduler S C → Fired × BackupScheduler S C
  skip attempt reason w b =
      let giving_up = leb max_attempts attempt in
      let entry : SkipEntry = record {
        target = target_of w.backup_dir;
        reason = reason;
        attempt = attempt;
        gave_up = giving_up;
      } in
      let noted : BackupScheduler S C = record b { audit = b.audit ++ entry ∷ [] } in
      if giving_up then (gave_up, noted) else (
        retry,
        record noted {
          store = store.add_job retry_job_id (once (w.now + retry_delay) (attempt + 1)) noted.store;
        },
      )

  -- `read_time` and `cadence_of` as in Schedule, `show` and `callback_of` as in BackupRun.
  module _ (read_time : String → Option ℕ) (cadence_of : String → String → Cadence)
      (show : ℕ → String) (callback_of : BackupCallback → C) where
    -- `fire` from the reading of the catalogue on.
    unfoldable pub start_backup :
        BackupSchedule → String → World C → BackupScheduler S C → Fired × BackupScheduler S C
    start_backup current backup_dir w b =
        let plan = plan_retention read_time cadence_of current w.points w.now in
        (
          started,
          record b {
            queue =
                (enqueue_backup show callback_of w.new_id w.now backup_dir scheduler_user plan.days
                  schedule plan.skipped none (run w.before_start b.queue)).0;
          },
        )

    abbrev start_if_idle :
        Option Job
        → ℕ
        → BackupSchedule
        → String
        → World C
        → BackupScheduler S C
        → Fired × BackupScheduler S C
    start_if_idle none attempt current backup_dir w b = start_backup current backup_dir w b
    start_if_idle (some job) attempt current backup_dir w b = skip attempt (job_active job) w b

    abbrev start_if_free :
        Option BlockingRunner
        → ℕ
        → BackupSchedule
        → String
        → World C
        → BackupScheduler S C
        → Fired × BackupScheduler S C
    start_if_free none attempt current backup_dir w b =
        start_if_idle (active_job b.queue) attempt current backup_dir w b
    start_if_free (some runner) attempt current backup_dir w b =
        skip attempt (runner_active runner) w b

    abbrev start_in :
        Option String
        → ℕ
        → BackupSchedule
        → World C
        → BackupScheduler S C
        → Fired × BackupScheduler S C
    start_in none attempt current w b = skip attempt not_reachable w b
    start_in (some backup_dir) attempt current w b =
        start_if_free (blocking_runner w.restore_runner w.upgrade_runner) attempt current backup_dir
          w (record b { queue = run w.before_check b.queue })

    abbrev fire_for :
        Option BackupSchedule → ℕ → World C → BackupScheduler S C → Fired × BackupScheduler S C
    fire_for none attempt w b = (disabled, b)
    fire_for (some current) attempt w b = start_in (reachable_dir w) attempt current w b

    unfoldable pub fire : ℕ → World C → BackupScheduler S C → Fired × BackupScheduler S C
    fire attempt w b = fire_for (enabled_schedule w.schedule) attempt w b

    -- `current.run_on_startup == "if_missed"`
    abbrev pub makes_up : RunOnStartup → Bool
    makes_up if_missed = true
    makes_up never = false

    abbrev pub catchup_wanted : Option BackupSchedule → World C → Bool
    catchup_wanted none w = false
    catchup_wanted (some current) w =
        makes_up current.run_on_startup && catchup_due read_time cadence_of current w.points w.now

    -- `_schedule_catchup`
    unfoldable pub schedule_catchup : World C → BackupScheduler S C → BackupScheduler S C
    schedule_catchup w b =
        if catchup_wanted (enabled_schedule w.schedule) w
        then record b {
          store = store.add_job catchup_job_id (once (w.now + catchup_delay) 1) b.store;
        }
        else b

    -- `start`: `apply` has loaded the schedule, which is loaded again to make up a missed run.
    unfoldable pub start :
        Option BackupSchedule → World C → BackupScheduler S C → BackupScheduler S C
    start loaded w b = schedule_catchup w (apply loaded b)

    abbrev fires_planned :
        Option Planned → World C → BackupScheduler S C → Fired × BackupScheduler S C
    fires_planned (some (once moment attempt)) w b = fire attempt w b
    fires_planned _ w b = (disabled, b)

    -- The retry that is planned fires, and leaves the store as a job that runs once does.
    unfoldable pub fire_retry : World C → BackupScheduler S C → Fired × BackupScheduler S C
    fire_retry w b =
        fires_planned (store.get_job retry_job_id b.store) w
          (record b { store = store.remove_job retry_job_id b.store })

  unfoldable pub shutdown : BackupScheduler S C → BackupScheduler S C
  shutdown b = record b { stopping = true }
