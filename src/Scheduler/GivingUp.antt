-- ===== src/Scheduler/GivingUp.antt =====
-- A scheduled run that cannot start is tried again and, in src/app/core/scheduler.py, given up after
-- the sixth attempt.
use papaia_manager.Base.{
  ℕ, zero, suc, ◌+◌, ◌≤◌, ◌<◌, arith, String, ◌≡◌, refl, ap, ◌∙◌, subst, Bool, true, false, ◌&&◌,
  not, Option, none, some, List, [], ◌∷◌, leb, length, length-append,
}
use papaia_manager.Schedule.{BackupSchedule, Cadence}
use papaia_manager.Jobs.{Job, run, active_job}
use papaia_manager.BackupRun.{blocking_runner, BlockingRunner, BackupCallback}
use papaia_manager.Scheduler.Store.{JobStore, once}
use papaia_manager.Scheduler.{
  retry_job_id, retry_delay, max_attempts, Obstacle, not_reachable, runner_active, job_active,
  Fired, retry, gave_up, BackupScheduler, World, enabled_schedule, reachable_dir, skip, fire,
  fire_for, fire_retry, fires_planned, start_if_idle, start_if_free, start_in,
}
use papaia_manager.Scheduler.Firing.{is_some, idle, no_runner, blocking_runner_lem}

module _ {S C : Type 0} (store : JobStore S) (read_time : String → Option ℕ)
    (cadence_of : String → String → Cadence) (show : ℕ → String)
    (callback_of : BackupCallback → C) where
  abbrev Scheduler : Type 0
  Scheduler = BackupScheduler S C

  abbrev pub fire_in : ℕ → World C → Scheduler → Fired × Scheduler
  fire_in = fire store read_time cadence_of show callback_of

  abbrev pub retry_in : World C → Scheduler → Fired × Scheduler
  retry_in = fire_retry store read_time cadence_of show callback_of

  -- A schedule is active, and something keeps its run from starting.
  abbrev pub is_blocked : World C → Scheduler → Bool
  is_blocked w b =
      is_some (enabled_schedule w.schedule)
      && not (is_some (reachable_dir w) && (no_runner w && idle w b))

  -- What a firing that skips its run leaves.
  record Skips (attempt : ℕ) (w : World C) (b : Scheduler) (result : Fired × Scheduler)
      : Type 0 where
    reason : Obstacle
    before : Scheduler
    skips : result ≡ skip store attempt reason w before
    same_store : before.store ≡ b.store
    same_audit : before.audit ≡ b.audit

  skipped :
      (attempt : ℕ) (w : World C) (b : Scheduler) (reason : Obstacle)
      → Skips attempt w b (skip store attempt reason w b)
  skipped attempt w b reason = record {
    reason = reason;
    before = b;
    skips = refl;
    same_store = refl;
    same_audit = refl;
  }

  start_if_idle-Skips :
      (job : Option Job) (attempt : ℕ) (s : BackupSchedule) (dir : String) (w : World C)
      (b : Scheduler)
      → not (is_some job) ≡ false
      → Skips attempt w b
          (start_if_idle store read_time cadence_of show callback_of job attempt s dir w b)
  start_if_idle-Skips none attempt s dir w b h = absurd (cc h)
  start_if_idle-Skips (some job) attempt s dir w b h = skipped attempt w b (job_active job)

  start_if_free-Skips :
      (runner : Option BlockingRunner) (attempt : ℕ) (s : BackupSchedule) (dir : String)
      (w : World C) (b : Scheduler)
      → (not (is_some runner) && not (is_some (active_job b.queue))) ≡ false
      → Skips attempt w b
          (start_if_free store read_time cadence_of show callback_of runner attempt s dir w b)
  start_if_free-Skips none attempt s dir w b h =
      start_if_idle-Skips (active_job b.queue) attempt s dir w b h
  start_if_free-Skips (some runner) attempt s dir w b h = skipped attempt w b (runner_active runner)

  start_in-Skips :
      (dir : Option String) (attempt : ℕ) (s : BackupSchedule) (w : World C) (b : Scheduler)
      → (is_some dir && (no_runner w && idle w b)) ≡ false
      → Skips attempt w b (start_in store read_time cadence_of show callback_of dir attempt s w b)
  start_in-Skips none attempt s w b h = skipped attempt w b not_reachable
  start_in-Skips (some dir) attempt s w b h =
      let b' : Scheduler = record b { queue = run w.before_check b.queue } in
      let k =
        start_if_free-Skips (blocking_runner w.restore_runner w.upgrade_runner) attempt s dir w b' (
          ap (λ free. free && idle w b) (blocking_runner_lem w.restore_runner w.upgrade_runner)
          ∙ h) in
      record {
        reason = k.reason;
        before = k.before;
        skips = k.skips;
        same_store = k.same_store;
        same_audit = k.same_audit;
      }

  fire_for-Skips :
      (s : Option BackupSchedule) (attempt : ℕ) (w : World C) (b : Scheduler)
      → (is_some s && not (is_some (reachable_dir w) && (no_runner w && idle w b))) ≡ true
      → Skips attempt w b (fire_for store read_time cadence_of show callback_of s attempt w b)
  fire_for-Skips none attempt w b h = absurd (cc h)
  fire_for-Skips (some s) attempt w b h =
      start_in-Skips (reachable_dir w) attempt s w b (ground (arith, h))

  fire-Skips :
      (attempt : ℕ) (w : World C) (b : Scheduler)
      → is_blocked w b ≡ true
      → Skips attempt w b (fire_in attempt w b)
  unfolding fire
  fire-Skips attempt w b h = fire_for-Skips (enabled_schedule w.schedule) attempt w b h

  -- The retry that is planned is for `attempt`.
  abbrev Waits : ℕ → Scheduler → Type 0
  Waits attempt b = (moment : ℕ) × (store.get_job retry_job_id b.store ≡ some (once moment attempt))

  -- Before the sixth attempt a skipped run is planned again, and is noted.
  abbrev Retried : ℕ → Scheduler → Fired × Scheduler → Type 0
  Retried attempt b result =
      (result.0 ≡ retry)
      × Waits (attempt + 1) result.1
      × (length result.1.audit ≡ length b.audit + 1)

  -- At the sixth it is noted, and no more.
  abbrev GivenUp : Scheduler → Fired × Scheduler → Type 0
  GivenUp b result =
      (result.0 ≡ gave_up)
      × (result.1.store ≡ b.store)
      × (length result.1.audit ≡ length b.audit + 1)

  skip-Retried :
      (attempt : ℕ) (reason : Obstacle) (w : World C) (b : Scheduler)
      → attempt < 6
      → Retried attempt b (skip store attempt reason w b)
  unfolding skip
  skip-Retried attempt reason w b lt =
      let goes_on : leb max_attempts attempt ≡ false = ground (arith, lt) in
      rw goes_on (
        refl,
        (
          w.now + retry_delay,
          store.get-add retry_job_id retry_job_id (once (w.now + retry_delay) (attempt + 1))
              b.store,
        ),
        length-append b.audit _,
      )

  skip-GivenUp :
      (attempt : ℕ) (reason : Obstacle) (w : World C) (b : Scheduler)
      → 6 ≤ attempt
      → GivenUp b (skip store attempt reason w b)
  unfolding skip
  skip-GivenUp attempt reason w b le =
      let stops : leb max_attempts attempt ≡ true = ground (arith, le) in
      rw stops (refl, refl, length-append b.audit _)

  fire-Retried :
      (attempt : ℕ) (w : World C) (b : Scheduler)
      → is_blocked w b ≡ true
      → attempt < 6
      → Retried attempt b (fire_in attempt w b)
  fire-Retried attempt w b blocked lt =
      let k = fire-Skips attempt w b blocked in
      let (o, waits, noted) = skip-Retried attempt k.reason w k.before lt in
      rw (k.skips) (o, waits, noted ∙ ap (λ a. length a + 1) k.same_audit)

  fire-GivenUp :
      (attempt : ℕ) (w : World C) (b : Scheduler)
      → is_blocked w b ≡ true
      → 6 ≤ attempt
      → GivenUp b (fire_in attempt w b)
  fire-GivenUp attempt w b blocked le =
      let k = fire-Skips attempt w b blocked in
      let (o, same, noted) = skip-GivenUp attempt k.reason w k.before le in
      rw (k.skips) (o, same ∙ k.same_store, noted ∙ ap (λ a. length a + 1) k.same_audit)

  -- The retries that fire one after the other.
  abbrev pub retries : List (World C) → Scheduler → List Fired × Scheduler
  retries [] b = ([], b)
  retries (w ∷ ws) b =
      let (outcome, b') = retry_in w b in
      let (outcomes, last) = retries ws b' in (outcome ∷ outcomes, last)

  -- The store without the retry that has just fired.
  abbrev pub taken : Scheduler → Scheduler
  taken b = record b { store = store.remove_job retry_job_id b.store }

  -- Each retry meets something in its way.
  abbrev pub AllBlocked : List (World C) → Scheduler → Type 0
  AllBlocked [] b = Unit
  AllBlocked (w ∷ ws) b = (is_blocked w (taken b) ≡ true) × AllBlocked ws (retry_in w b).1

  retry-fire :
      (w : World C) (b : Scheduler) (attempt : ℕ)
      → Waits attempt b
      → retry_in w b ≡ fire_in attempt w (taken b)
  unfolding fire_retry
  retry-fire w b attempt (moment, e) =
      ap (λ planned. fires_planned store read_time cadence_of show callback_of planned w (taken b))
        e

  -- So many tries that are put off, and the one that is not.
  abbrev pub put_off : ℕ → List Fired
  put_off zero = gave_up ∷ []
  put_off (suc n) = retry ∷ put_off n

  -- Retries that come to an end: the outcomes, no retry planned, an entry for each of them.
  abbrev Ends : ℕ → Scheduler → List Fired × Scheduler → Type 0
  Ends n b result =
      (result.0 ≡ put_off n)
      × (store.get_job retry_job_id result.1.store ≡ none)
      × (length result.1.audit ≡ length b.audit + suc n)

  retries-Ends :
      (n attempt : ℕ) (ws : List (World C)) (b : Scheduler)
      → attempt + n ≡ 6
      → length ws ≡ suc n
      → Waits attempt b
      → AllBlocked ws b
      → Ends n b (retries ws b)
  retries-Ends n attempt [] b six many waits blocked = absurd (omega (arith, many))
  retries-Ends zero attempt (w ∷ []) b six many waits blocked =
      let (o, same, noted) = fire-GivenUp attempt w (taken b) blocked.0 (omega (arith, six)) in
      rw (retry-fire w b attempt waits) (
        ap (λ x. x ∷ []) o,
        ap (store.get_job retry_job_id) same ∙ store.get-remove retry_job_id retry_job_id b.store,
        noted,
      )
  retries-Ends zero attempt (w ∷ v ∷ ws) b six many waits blocked = absurd (omega (arith, many))
  retries-Ends (suc n) attempt (w ∷ ws) b six many waits blocked =
      let fired = retry-fire w b attempt waits in
      let (o, again, noted) = fire-Retried attempt w (taken b) blocked.0 (omega (arith, six)) in
      let (os, none_planned, entries) =
        retries-Ends n (attempt + 1) ws (fire_in attempt w (taken b)).1 (omega (arith, six))
          (omega (arith, many)) again (subst (λ r. AllBlocked ws r.1) fired blocked.1) in
      rw fired (cc (o, os), none_planned, omega (arith, entries, noted))

  -- For every state whose scheduled firing is blocked, and whose next five planned retries are each
  -- blocked as well, whatever blocks them: the firing and the first four retries answer `retry`, the
  -- fifth retry answers `gave_up`, no retry is planned after it, and six entries are audited.
  pub fire-gives_up :
      (w : World C) (ws : List (World C)) (b : Scheduler)
      → is_blocked w b ≡ true
      → length ws ≡ 5
      → AllBlocked ws (fire_in 1 w b).1
      → ((fire_in 1 w b).0 ≡ retry)
        × ((retries ws (fire_in 1 w b).1).0 ≡ retry ∷ retry ∷ retry ∷ retry ∷ gave_up ∷ [])
        × (store.get_job retry_job_id (retries ws (fire_in 1 w b).1).1.store ≡ none)
        × (length (retries ws (fire_in 1 w b).1).1.audit ≡ length b.audit + 6)
  fire-gives_up w ws b first five rest =
      let (o, waits, noted) = fire-Retried 1 w b first (omega arith) in
      let (os, none_planned, entries) =
        retries-Ends 4 2 ws (fire_in 1 w b).1 refl five waits rest in
      (o, os, none_planned, omega (arith, entries, noted))
