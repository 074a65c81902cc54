-- ===== src/Jobs/Records.antt =====
-- The record of each job: its times and its exit code agree with its status.
use papaia_manager.Base.{
  ℕ, String, ◌≡◌, refl, ap, subst, sym, ◌∙◌, Bool, true, false, not, ◌&&◌, Option, none, some, List,
  [], ◌∷◌, arith, eq_iff, nat_eq, All,
}
use papaia_manager.Base.Dict
use papaia_manager.Base.Dict.{get-put}
use papaia_manager.Jobs.{
  Job, queued, running, succeeded, failed, Worker, absent, waiting, busy, JobQueue, init, Outcome,
  returned, raised, cancelled, Event, enqueued, got, ended, logs, started, stopped, enqueue, get_at,
  worker_get, worker_end, next_job, take_job, settle, end_at, log, log_running, start, stop,
  start_at, stop_at, step, run, get_job,
}
use papaia_manager.Jobs.Invariant.{
  IsValid, AllFresh, Pending, Current, is_queued, is_running, is_some, step-IsValid, init-IsValid,
}

abbrev exit_is : ℕ → Option ℕ → Bool
exit_is n none = false
exit_is n (some m) = nat_eq n m

-- The times and the exit code that go with each status.
abbrev pub consistent : Job → Bool
consistent job = elim job.status [
  | queued ↦
      not (is_some job.started_at) && not (is_some job.finished_at) && not (is_some job.exit_code)
  | running ↦ is_some job.started_at && not (is_some job.exit_code)
  | succeeded ↦ is_some job.started_at && is_some job.finished_at && exit_is 0 job.exit_code
  | failed ↦ is_some job.started_at && is_some job.finished_at && exit_is 1 job.exit_code
]

abbrev pub AllConsistent : {C : Type 0} → JobQueue C → Type 0
AllConsistent q =
    (id : String) (job : Job)
    → Dict.get id q.jobs ≡ some job
    → (consistent job ≡ true) × (job.id ≡ id)

module _ {C : Type 0} where
  take_job-AllConsistent :
      (now : ℕ) (id : String) (mj : Option Job) (mc : Option C) (q : JobQueue C)
      → Dict.get id q.jobs ≡ mj
      → is_queued mj ≡ true
      → AllConsistent q
      → AllConsistent (take_job now id mj mc q)
  unfolding take_job
  take_job-AllConsistent now id none mc q found h a = cc
  take_job-AllConsistent now id (some job) none q found h a = a
  take_job-AllConsistent now id (some job) (some callback) q found h a =
      λ j k. simp get-put (ground (arith, eq_iff id j, a j k, a id job found))

  settle-AllConsistent :
      (now : ℕ) (outcome : Outcome) (id : String) (mj : Option Job) (q : JobQueue C)
      → Dict.get id q.jobs ≡ mj
      → is_running mj ≡ true
      → AllConsistent q
      → AllConsistent (settle now outcome id mj q)
  unfolding settle
  settle-AllConsistent now outcome id none q found h a = a
  settle-AllConsistent now returned id (some job) q found h a =
      λ j k. simp get-put (ground (arith, eq_iff id j, a j k, a id job found))
  settle-AllConsistent now (raised name message) id (some job) q found h a =
      λ j k. simp get-put (ground (arith, eq_iff id j, a j k, a id job found))
  settle-AllConsistent now cancelled id (some job) q found h a =
      λ j k. simp get-put (ground (arith, eq_iff id j, a j k, a id job found))

  next_job-AllConsistent :
      (now : ℕ) (ids : List String) (q : JobQueue C)
      → q.queue ≡ ids
      → IsValid q
      → AllConsistent q
      → AllConsistent (next_job now ids q)
  unfolding next_job
  next_job-AllConsistent now [] q e v a = a
  next_job-AllConsistent now (id ∷ rest) q e v a =
      let p : All (Pending q.jobs q.callbacks) (id ∷ rest) =
        subst (All (Pending q.jobs q.callbacks)) e v.pending in
      take_job-AllConsistent now id (Dict.get id q.jobs) (Dict.get id q.callbacks)
        (record q { queue = rest; callbacks = Dict.remove id q.callbacks }) refl p.0.0 a

  end_at-AllConsistent :
      (w : Worker) (now : ℕ) (outcome : Outcome) (q : JobQueue C)
      → q.worker ≡ w
      → IsValid q
      → AllConsistent q
      → AllConsistent (end_at w now outcome q)
  unfolding end_at
  end_at-AllConsistent (busy id) now outcome q e v a =
      settle-AllConsistent now outcome id (Dict.get id q.jobs) q refl
        (subst (Current q.jobs) e v.current) a
  end_at-AllConsistent absent now outcome q e v a = a
  end_at-AllConsistent waiting now outcome q e v a = a

  get_at-AllConsistent :
      (w : Worker) (now : ℕ) (q : JobQueue C)
      → IsValid q
      → AllConsistent q
      → AllConsistent (get_at w now q)
  unfolding get_at
  get_at-AllConsistent waiting now q v a = next_job-AllConsistent now q.queue q refl v a
  get_at-AllConsistent absent now q v a = a
  get_at-AllConsistent (busy _) now q v a = a

  other-AllConsistent : (q q' : JobQueue C) → q'.jobs ≡ q.jobs → AllConsistent q → AllConsistent q'
  other-AllConsistent q q' same a id job found = a id job (ap (Dict.get id) (sym same) ∙ found)

  pub start_at-jobs : (w : Worker) (q : JobQueue C) → (start_at w q).jobs ≡ q.jobs
  unfolding start_at
  start_at-jobs absent q = refl
  start_at-jobs waiting q = refl
  start_at-jobs (busy _) q = refl

  pub log_running-jobs :
      (w : Worker) (line : String) (q : JobQueue C) → (log_running w line q).jobs ≡ q.jobs
  unfolding log
  log_running-jobs absent line q = refl
  log_running-jobs waiting line q = refl
  log_running-jobs (busy _) line q = refl

  stop_at-AllConsistent :
      (w : Worker) (now : ℕ) (q : JobQueue C)
      → q.worker ≡ w
      → IsValid q
      → AllConsistent q
      → AllConsistent (stop_at w now q)
  unfolding stop_at
  stop_at-AllConsistent absent now q e v a = a
  stop_at-AllConsistent waiting now q e v a = a
  stop_at-AllConsistent (busy id) now q e v a = end_at-AllConsistent (busy id) now cancelled q e v a

  step-AllConsistent :
      (e : Event C) (q : JobQueue C) → IsValid q → AllConsistent q → AllConsistent (step e q)
  unfolding step enqueue worker_get worker_end start stop
  step-AllConsistent (enqueued r callback) q v a =
      λ j k. simp get-put (ground (arith, eq_iff r.id j, a j k))
  step-AllConsistent (got now) q v a = get_at-AllConsistent q.worker now q v a
  step-AllConsistent (ended now outcome) q v a =
      end_at-AllConsistent q.worker now outcome q refl v a
  step-AllConsistent (logs line) q v a =
      other-AllConsistent q (log_running q.worker line q) (log_running-jobs q.worker line q) a
  step-AllConsistent started q v a =
      other-AllConsistent q (start_at q.worker q) (start_at-jobs q.worker q) a
  step-AllConsistent (stopped now) q v a = stop_at-AllConsistent q.worker now q refl v a

  run-AllConsistent :
      (es : List (Event C)) (q : JobQueue C)
      → AllFresh es q
      → IsValid q
      → AllConsistent q
      → AllConsistent (run es q)
  unfolding run
  run-AllConsistent [] q fresh v a = a
  run-AllConsistent (e ∷ es) q fresh v a =
      run-AllConsistent es (step e q) fresh.1 (step-IsValid e q fresh.0 v)
        (step-AllConsistent e q v a)

  -- After any events with new ids, each job of the queue is stored under its own id, and its times
  -- and exit code agree with its status: a queued job has none of them, a running one has its
  -- start and no exit code, a succeeded one has both times and the exit code 0, a failed one both
  -- times and 1.
  pub run-consistent :
      (es : List (Event C)) (id : String) (job : Job)
      → AllFresh es init
      → get_job id (run es init) ≡ some job
      → (consistent job ≡ true) × (job.id ≡ id)
  unfolding get_job
  run-consistent es id job fresh found =
      run-AllConsistent es init fresh init-IsValid (unfold Dict.get in λ j k h. cc) id job found
