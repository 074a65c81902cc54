-- ===== src/Scheduler/Catchup.antt =====
-- The start of src/app/core/scheduler.py: what is planned once the schedule is loaded.
use papaia_manager.Base.{
  ℕ, ◌+◌, String, ◌≡◌, ◌∙◌, refl, ap, Bool, true, false, not, ◌&&◌, List, any, Option, none, some,
  if◌then◌else◌, inl, inr, Bool-cases,
}
use papaia_manager.Backups.{RestorePoint}
use papaia_manager.Schedule.{
  BackupSchedule, Cadence, RunOnStartup, never, if_missed, overdue_limit, catchup_due,
}
use papaia_manager.Schedule.Missed.{is_recent, catchup_due_lem}
use papaia_manager.BackupRun.{BackupCallback}
use papaia_manager.Scheduler.Store.{JobStore, once}
use papaia_manager.Scheduler.{
  job_id, retry_job_id, catchup_job_id, catchup_delay, BackupScheduler, World, enabled_schedule,
  makes_up, catchup_wanted, apply, schedule_catchup, start,
}
use papaia_manager.Scheduler.Firing.{planned_for, apply-planned}

module _ {S C : Type 0} (store : JobStore S) (read_time : String → Option ℕ)
    (cadence_of : String → String → Cadence) (show : ℕ → String)
    (callback_of : BackupCallback → C) where
  -- `run_on_startup` asks for a missed run to be made up.
  abbrev pub asks : RunOnStartup → Bool
  asks r = elim r [ if_missed ↦ true | never ↦ false ]

  -- No backup of the whole stack that went well is recent.
  abbrev pub none_recent : BackupSchedule → List RestorePoint → ℕ → Bool
  none_recent s points now =
      not (any (is_recent read_time (overdue_limit read_time cadence_of s) now) points)

  -- A schedule is there and enabled, asks for it, and has missed a run.
  abbrev pub is_missed : Option BackupSchedule → List RestorePoint → ℕ → Bool
  is_missed none points now = false
  is_missed (some s) points now = s.enabled && (asks s.run_on_startup && none_recent s points now)

  makes_up-asks :
      (r : RunOnStartup) → makes_up store read_time cadence_of show callback_of r ≡ asks r
  makes_up-asks if_missed = refl
  makes_up-asks never = refl

  if_enabled :
      (enabled : Bool) (s : BackupSchedule) (w : World C)
      → catchup_wanted store read_time cadence_of show callback_of
          (if enabled then some s else none)
          w
        ≡ (enabled
            && (makes_up store read_time cadence_of show callback_of s.run_on_startup
                && catchup_due read_time cadence_of s w.points w.now))
  if_enabled true s w = refl
  if_enabled false s w = refl

  catchup_wanted-is_missed :
      (current : Option BackupSchedule) (w : World C)
      → catchup_wanted store read_time cadence_of show callback_of (enabled_schedule current) w
        ≡ is_missed current w.points w.now
  catchup_wanted-is_missed none w = refl
  catchup_wanted-is_missed (some s) w =
      if_enabled s.enabled s w
      ∙ ap (λ m. s.enabled && (m && catchup_due read_time cadence_of s w.points w.now))
          (makes_up-asks s.run_on_startup)
      ∙ ap (λ due. s.enabled && (asks s.run_on_startup && due))
          (catchup_due_lem read_time cadence_of s w.points w.now)

  -- For every loaded schedule, state and world: after the start no retry is planned, and the
  -- scheduled job is that of the loaded schedule if it is enabled, or none. One catch-up, two minutes
  -- on and for the first attempt, is planned exactly when the schedule that is loaded for it is
  -- there, enabled and set to make up a missed run, and every backup of the whole stack that went
  -- well and has a readable time is further back than the schedule's overdue limit.
  pub start-planned :
      (loaded : Option BackupSchedule) (w : World C) (b : BackupScheduler S C)
      → let after = (start store read_time cadence_of show callback_of loaded w b).store in
        (store.get_job retry_job_id after ≡ none)
        × (store.get_job job_id after ≡ planned_for (enabled_schedule loaded))
        × (store.get_job catchup_job_id after ≡ (
            if is_missed w.schedule w.points w.now
            then some (once (w.now + catchup_delay) 1)
            else none))
  unfolding start schedule_catchup
  start-planned loaded w b =
      let (no_retry, no_catchup, scheduled) = apply-planned store loaded b in
      let s = (apply store loaded b).store in
      let p = once (w.now + catchup_delay) 1 in
      let same = catchup_wanted-is_missed w.schedule w in
      elim (Bool-cases (is_missed w.schedule w.points w.now)) [
        | inl e ↦
            rw (same ∙ e, e)
              (
                store.get-add catchup_job_id retry_job_id p s ∙ no_retry,
                store.get-add catchup_job_id job_id p s ∙ scheduled,
                store.get-add catchup_job_id catchup_job_id p s,
              )
        | inr e ↦ rw (same ∙ e, e) (no_retry, scheduled, no_catchup)
      ]
