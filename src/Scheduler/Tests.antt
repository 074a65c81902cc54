-- ===== src/Scheduler/Tests.antt =====
-- The scheduler on a job store that is a dictionary.
use papaia_manager.Base.{
  ℕ, ◌*◌, ◌+◌, String, ◌≡◌, refl, true, false, ◌&&◌, none, some, List, [], ◌∷◌, if◌then◌else◌,
  length,
}
use papaia_manager.Base.Dict
use papaia_manager.Base.Dict.{Dict}
use papaia_manager.Backups.{day}
use papaia_manager.Backups.Tests.{sample_time, sample_points}
use papaia_manager.Schedule.Tests.{daily, nightly}
use papaia_manager.Jobs
use papaia_manager.Jobs.{active_job, run}
use papaia_manager.BackupRun.{BackupCallback, found, blocking_runner}
use papaia_manager.Scheduler.Store.{Planned, once, on_cron, dict_store}
use papaia_manager.Scheduler.{
  job_id, retry_job_id, catchup_job_id, catchup_delay, Fired, retry, gave_up, BackupScheduler,
  World, enabled_schedule, reachable_dir, fire, fire_retry, skip, apply, start,
}
use papaia_manager.Scheduler.Firing.{
  is_some, is_started, idle, no_runner, fire-started, apply-planned,
}
use papaia_manager.Scheduler.GivingUp.{fire_in, retries, fire-gives_up}
use papaia_manager.Scheduler.Catchup.{is_missed, start-planned}

abbrev idle_scheduler : BackupScheduler (Dict Planned) BackupCallback
idle_scheduler = record { stopping = false; store = []; queue = Jobs.init; audit = [] }

abbrev show : ℕ → String
show n = "2"

abbrev callback : BackupCallback → BackupCallback
callback c = c

abbrev upgrading : World BackupCallback
upgrading = record {
  schedule = some nightly;
  backup_dir = some "/backup";
  reachable = true;
  restore_runner = found none;
  upgrade_runner = found (some (record { is_running = true; target = "1.4.0" }));
  points = sample_points;
  now = 4 * day;
  new_id = "b1";
  before_check = [];
  before_start = [];
}

abbrev quiet : World BackupCallback
quiet = record upgrading { upgrade_runner = found none }

abbrev five : List (World BackupCallback)
five = upgrading ∷ upgrading ∷ upgrading ∷ upgrading ∷ upgrading ∷ []

abbrev first : Fired × BackupScheduler (Dict Planned) BackupCallback
first = fire_in dict_store sample_time daily show callback 1 upgrading idle_scheduler

abbrev last : List Fired × BackupScheduler (Dict Planned) BackupCallback
last = retries dict_store sample_time daily show callback five first.1

fire-gives_up_example :
    (first.0 ≡ retry)
    × (last.0 ≡ retry ∷ retry ∷ retry ∷ retry ∷ gave_up ∷ [])
    × (Dict.get retry_job_id last.1.store ≡ none)
    × (length last.1.audit ≡ 6)
unfolding fire fire_retry skip blocking_runner Dict.get Dict.put Dict.remove
fire-gives_up_example =
    fire-gives_up dict_store sample_time daily show callback upgrading five idle_scheduler refl refl
      (refl, (refl, (refl, (refl, (refl, tt)))))

fire-started_example :
    is_started (fire dict_store sample_time daily show callback 1 quiet idle_scheduler).0 ≡ (
      is_some (enabled_schedule quiet.schedule)
      && (is_some (reachable_dir quiet) && (no_runner quiet && idle quiet idle_scheduler)))
fire-started_example =
    fire-started dict_store sample_time daily show callback 1 quiet idle_scheduler

apply-planned_example :
    (Dict.get retry_job_id (apply dict_store (some nightly) first.1).store ≡ none)
    × (Dict.get catchup_job_id (apply dict_store (some nightly) first.1).store ≡ none)
    × (Dict.get job_id (apply dict_store (some nightly) first.1).store
        ≡ some (on_cron "0 3 * * *" "UTC" 3_600))
apply-planned_example = apply-planned dict_store (some nightly) first.1

abbrev started_again : BackupScheduler (Dict Planned) BackupCallback
started_again = start dict_store sample_time daily show callback (some nightly) quiet idle_scheduler

start-planned_example :
    (Dict.get retry_job_id started_again.store ≡ none)
    × (Dict.get job_id started_again.store ≡ some (on_cron "0 3 * * *" "UTC" 3_600))
    × (Dict.get catchup_job_id started_again.store ≡ (
        if is_missed dict_store sample_time daily show callback
          (some nightly)
          sample_points
          (4 * day)
        then some (once (4 * day + catchup_delay) 1)
        else none))
start-planned_example =
    start-planned dict_store sample_time daily show callback (some nightly) quiet idle_scheduler
