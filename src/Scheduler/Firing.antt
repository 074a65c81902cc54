-- ===== src/Scheduler/Firing.antt =====
-- What a firing of src/app/core/scheduler.py does: it starts a backup exactly when nothing is in the
-- way, and a run that something is always in the way of is given up after the sixth attempt.
use papaia_manager.Base.{
  ℕ, String, ◌≡◌, refl, sym, ap, ◌∙◌, eq_iff, Bool, true, false, ◌&&◌, ◌||◌, not, Option, none,
  some, ◌==◌, if◌then◌else◌, leb, inl, inr, Bool-cases,
}
use papaia_manager.Schedule.{BackupSchedule, Cadence}
use papaia_manager.Jobs.{Job, run, active_job}
use papaia_manager.BackupRun.{
  Lookup, runner_error, found, blocking_runner, BlockingRunner, BackupCallback,
}
use papaia_manager.Scheduler.Store.{JobStore, Planned, on_cron}
use papaia_manager.Scheduler.{
  job_id, retry_job_id, catchup_job_id, max_attempts, Obstacle, not_reachable, runner_active,
  job_active, Fired, started, BackupScheduler, World, enabled_schedule, reachable_dir, skip, fire,
  fire_for, start_if_idle, start_if_free, start_in, start_backup, remove_planned, remove_found,
  apply, apply_enabled,
}

abbrev pub is_started : Fired → Bool
is_started started = true
is_started _ = false

abbrev pub is_some {ℓ} : {A : Type ℓ} → Option A → Bool
is_some none = false
is_some (some _) = true

-- The lookup of a runner has raised.
abbrev pub raised : Lookup → Bool
raised runner_error = true
raised (found _) = false

-- The lookup has found a runner that is running.
abbrev pub is_busy : Lookup → Bool
is_busy (found (some runner)) = runner.is_running
is_busy _ = false

pub blocking_runner_lem :
    (restore upgrade : Lookup)
    → not (is_some (blocking_runner restore upgrade))
      ≡ ((raised restore || raised upgrade) || not (is_busy restore || is_busy upgrade))
unfolding blocking_runner
blocking_runner_lem runner_error _ = refl
blocking_runner_lem (found _) runner_error = refl
blocking_runner_lem (found none) (found none) = refl
blocking_runner_lem (found none) (found (some u)) = elim (Bool-cases u.is_running) [
  | inl e ↦ rw e refl
  | inr e ↦ rw e refl
]
blocking_runner_lem (found (some r)) (found none) = elim (Bool-cases r.is_running) [
  | inl e ↦ rw e refl
  | inr e ↦ rw e refl
]
blocking_runner_lem (found (some r)) (found (some u)) = elim (Bool-cases r.is_running) [
  | inl e ↦ rw e refl
  | inr e ↦ elim (Bool-cases u.is_running) [ inl f ↦ rw (e, f) refl | inr f ↦ rw (e, f) refl ]
]

-- The job that a schedule asks for.
abbrev pub planned_for : Option BackupSchedule → Option Planned
planned_for none = none
planned_for (some s) = some (on_cron s.cron s.timezone s.misfire_grace_seconds)

module _ {C : Type 0} where
  -- The queue is idle when the runners have been looked up.
  abbrev pub idle : {S : Type 0} → World C → BackupScheduler S C → Bool
  idle w b = not (is_some (active_job (run w.before_check b.queue)))

  -- A lookup has raised, or no runner is running.
  abbrev pub no_runner : World C → Bool
  no_runner w =
      (raised w.restore_runner || raised w.upgrade_runner)
      || not (is_busy w.restore_runner || is_busy w.upgrade_runner)

module _ {S : Type 0} (store : JobStore S) where
  remove_found-get :
      (found : Option Planned) (i j : String) (s : S)
      → store.get_job i s ≡ found
      → store.get_job j (remove_found store found i s)
        ≡ (if i == j then none else store.get_job j s)
  remove_found-get none i j s e = elim (Bool-cases (i == j)) [
    | inl same ↦ rw same (ap (λ k. store.get_job k s) (sym ((eq_iff i j).0 same)) ∙ e)
    | inr other ↦ rw other refl
  ]
  remove_found-get (some p) i j s e = store.get-remove i j s

  -- The planned job after a removal.
  remove_planned-get :
      (i j : String) (s : S)
      → store.get_job j (remove_planned store i s) ≡ (if i == j then none else store.get_job j s)
  unfolding remove_planned
  remove_planned-get i j s = remove_found-get (store.get_job i s) i j s refl

  apply_enabled-planned :
      (current : Option BackupSchedule) (s : S)
      → store.get_job retry_job_id s ≡ none
      → store.get_job catchup_job_id s ≡ none
      → (store.get_job retry_job_id (apply_enabled store current s) ≡ none)
        × (store.get_job catchup_job_id (apply_enabled store current s) ≡ none)
        × (store.get_job job_id (apply_enabled store current s) ≡ planned_for current)
  apply_enabled-planned none s r c = (
    remove_planned-get job_id retry_job_id s ∙ r,
    remove_planned-get job_id catchup_job_id s ∙ c,
    remove_planned-get job_id job_id s,
  )
  apply_enabled-planned (some x) s r c =
      let p = on_cron x.cron x.timezone x.misfire_grace_seconds in
      (
        store.get-add job_id retry_job_id p s ∙ r,
        store.get-add job_id catchup_job_id p s ∙ c,
        store.get-add job_id job_id p s,
      )

module _ {S C : Type 0} (store : JobStore S) where
  skip-not_started :
      (attempt : ℕ) (reason : Obstacle) (w : World C) (b : BackupScheduler S C)
      → is_started (skip store attempt reason w b).0 ≡ false
  unfolding skip
  skip-not_started attempt reason w b = elim (Bool-cases (leb max_attempts attempt)) [
    | inl e ↦ rw e refl
    | inr e ↦ rw e refl
  ]

  -- For every store, schedule and state: after `apply` neither a retry nor a catch-up is planned,
  -- and the scheduled job is the one of the schedule that is there and enabled, or none.
  pub apply-planned :
      (current : Option BackupSchedule) (b : BackupScheduler S C)
      → let after = (apply store current b).store in
        (store.get_job retry_job_id after ≡ none)
        × (store.get_job catchup_job_id after ≡ none)
        × (store.get_job job_id after ≡ planned_for (enabled_schedule current))
  unfolding apply
  apply-planned current b =
      let retry_swept = remove_planned store retry_job_id b.store in
      let swept = remove_planned store catchup_job_id retry_swept in
      apply_enabled-planned store (enabled_schedule current) swept
        (remove_planned-get store catchup_job_id retry_job_id retry_swept
          ∙ remove_planned-get store retry_job_id retry_job_id b.store)
        (remove_planned-get store catchup_job_id catchup_job_id retry_swept)

  module _ (read_time : String → Option ℕ) (cadence_of : String → String → Cadence)
      (show : ℕ → String) (callback_of : BackupCallback → C) where
    start_if_idle-started :
        (job : Option Job) (attempt : ℕ) (s : BackupSchedule) (dir : String) (w : World C)
        (b : BackupScheduler S C)
        → is_started
            (start_if_idle store read_time cadence_of show callback_of job attempt s dir w b).0
          ≡ not (is_some job)
    unfolding start_backup
    start_if_idle-started none attempt s dir w b = refl
    start_if_idle-started (some job) attempt s dir w b =
        skip-not_started attempt (job_active job) w b

    start_if_free-started :
        (runner : Option BlockingRunner) (attempt : ℕ) (s : BackupSchedule) (dir : String)
        (w : World C) (b : BackupScheduler S C)
        → is_started
            (start_if_free store read_time cadence_of show callback_of runner attempt s dir w b).0
          ≡ (not (is_some runner) && not (is_some (active_job b.queue)))
    start_if_free-started none attempt s dir w b =
        start_if_idle-started (active_job b.queue) attempt s dir w b
    start_if_free-started (some runner) attempt s dir w b =
        skip-not_started attempt (runner_active runner) w b

    start_in-started :
        (dir : Option String) (attempt : ℕ) (s : BackupSchedule) (w : World C)
        (b : BackupScheduler S C)
        → is_started (start_in store read_time cadence_of show callback_of dir attempt s w b).0
          ≡ (is_some dir && (no_runner w && idle w b))
    start_in-started none attempt s w b = skip-not_started attempt not_reachable w b
    start_in-started (some dir) attempt s w b =
        start_if_free-started (blocking_runner w.restore_runner w.upgrade_runner) attempt s dir w
          (record b { queue = run w.before_check b.queue })
        ∙ ap (λ free. free && idle w b) (blocking_runner_lem w.restore_runner w.upgrade_runner)

    fire_for-started :
        (s : Option BackupSchedule) (attempt : ℕ) (w : World C) (b : BackupScheduler S C)
        → is_started (fire_for store read_time cadence_of show callback_of s attempt w b).0
          ≡ (is_some s && (is_some (reachable_dir w) && (no_runner w && idle w b)))
    fire_for-started none attempt w b = refl
    fire_for-started (some s) attempt w b = start_in-started (reachable_dir w) attempt s w b

    -- For every attempt, world and state: a firing answers `started` exactly when a schedule is there
    -- and enabled, the backup directory is configured and reachable, either a lookup of the
    -- runners has raised or neither a restore nor an upgrade runner is running, and the queue has no unfinished job when the runners have been
    -- looked up.
    pub fire-started :
        (attempt : ℕ) (w : World C) (b : BackupScheduler S C)
        → is_started (fire store read_time cadence_of show callback_of attempt w b).0 ≡ (
            is_some (enabled_schedule w.schedule)
            && (is_some (reachable_dir w) && (no_runner w && idle w b)))
    unfolding fire
    fire-started attempt w b = fire_for-started (enabled_schedule w.schedule) attempt w b
