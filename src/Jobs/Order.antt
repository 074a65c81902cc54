-- ===== src/Jobs/Order.antt =====
-- First in, first out: the order in which the worker begins jobs.
use mathlib.Core.List.{append-nil, append_assoc}
use papaia_manager.Base.{
  ℕ, String, ◌≡◌, refl, sym, ◌∙◌, true, Option, none, some, List, [], ◌∷◌, ◌++◌, All,
}
use papaia_manager.Base.Dict
use papaia_manager.Jobs.{
  Job, Worker, absent, waiting, busy, JobQueue, Outcome, returned, raised, cancelled, Event,
  enqueued, got, ended, logs, started, stopped, enqueue, get_at, worker_get, worker_end, next_job,
  take_job, settle, end_at, log, log_running, start, stop, start_at, stop_at, step, run,
}
use papaia_manager.Jobs.Invariant.{IsValid, AllFresh, Pending, is_queued, is_some, step-IsValid}

-- The job that a step began: the worker was waiting and is busy now.
abbrev pub began : Worker → Worker → List String
began waiting (busy id) = id ∷ []
began _ _ = []

abbrev pub arrived : {C : Type 0} → Event C → List String
arrived (enqueued r callback) = r.id ∷ []
arrived _ = []

abbrev pub arrivals : {C : Type 0} → List (Event C) → List String
arrivals [] = []
arrivals (e ∷ es) = arrived e ++ arrivals es

-- The ids in the order in which the worker began their jobs.
abbrev pub starts : {C : Type 0} → List (Event C) → JobQueue C → List String
starts [] q = []
starts (e ∷ es) q = began q.worker (step e q).worker ++ starts es (step e q)

began-same : (w : Worker) → began w w ≡ []
began-same absent = refl
began-same waiting = refl
began-same (busy id) = refl

module _ {C : Type 0} where
  take_job-began :
      (now : ℕ) (id : String) (mj : Option Job) (mc : Option C) (q : JobQueue C)
      → is_queued mj ≡ true
      → is_some mc ≡ true
      → began waiting (take_job now id mj mc q).worker ++ (take_job now id mj mc q).queue
        ≡ id ∷ q.queue
  unfolding take_job
  take_job-began now id none mc q hj hc = cc
  take_job-began now id (some job) none q hj hc = cc
  take_job-began now id (some job) (some callback) q hj hc = refl

  next_job-began :
      (now : ℕ) (ids : List String) (q : JobQueue C)
      → q.queue ≡ ids
      → q.worker ≡ waiting
      → All (Pending q.jobs q.callbacks) ids
      → began waiting (next_job now ids q).worker ++ (next_job now ids q).queue ≡ ids
  unfolding next_job
  next_job-began now [] q e w p = rw (w, e)
  next_job-began now (id ∷ rest) q e w p =
      take_job-began now id (Dict.get id q.jobs) (Dict.get id q.callbacks) _ p.0.0 p.0.1

  get_at-began :
      (w : Worker) (now : ℕ) (q : JobQueue C)
      → q.worker ≡ w
      → IsValid q
      → began w (get_at w now q).worker ++ (get_at w now q).queue ≡ q.queue ++ []
  unfolding get_at
  get_at-began waiting now q e v =
      next_job-began now q.queue q refl e v.pending ∙ sym (append-nil q.queue)
  get_at-began absent now q e v = sym (append-nil q.queue)
  get_at-began (busy _) now q e v = sym (append-nil q.queue)

  -- Ending a job begins none and leaves the waiting ids.
  settle-began :
      (now : ℕ) (outcome : Outcome) (id : String) (mj : Option Job) (w : Worker) (q : JobQueue C)
      → began (busy id) (settle now outcome id mj q).worker ++ (settle now outcome id mj q).queue
        ≡ q.queue
  unfolding settle
  settle-began now outcome id none w q = refl
  settle-began now returned id (some job) w q = refl
  settle-began now (raised name message) id (some job) w q = refl
  settle-began now cancelled id (some job) w q = refl

  end_at-began :
      (w : Worker) (now : ℕ) (outcome : Outcome) (q : JobQueue C)
      → q.worker ≡ w
      → began w (end_at w now outcome q).worker ++ (end_at w now outcome q).queue ≡ q.queue
  unfolding end_at
  end_at-began (busy id) now outcome q e =
      settle-began now outcome id (Dict.get id q.jobs) (busy id) q
  end_at-began absent now outcome q e = refl
  end_at-began waiting now outcome q e = rw e

  start_at-began :
      (w : Worker) (q : JobQueue C)
      → q.worker ≡ w
      → began w (start_at w q).worker ++ (start_at w q).queue ≡ q.queue
  unfolding start_at
  start_at-began absent q e = refl
  start_at-began waiting q e = rw e
  start_at-began (busy _) q e = refl

  stop_at-began :
      (w : Worker) (now : ℕ) (q : JobQueue C)
      → q.worker ≡ w
      → began w (stop_at w now q).worker ++ (stop_at w now q).queue ≡ q.queue
  unfolding stop_at
  stop_at-began absent now q e = refl
  stop_at-began waiting now q e = refl
  stop_at-began (busy id) now q e = end_at-began (busy id) now cancelled q e

  log_running-began :
      (w : Worker) (line : String) (q : JobQueue C)
      → q.worker ≡ w
      → began w (log_running w line q).worker ++ (log_running w line q).queue ≡ q.queue
  unfolding log
  log_running-began absent line q e = refl
  log_running-began waiting line q e = rw e
  log_running-began (busy id) line q e = refl

  step-began :
      (e : Event C) (q : JobQueue C)
      → IsValid q
      → began q.worker (step e q).worker ++ (step e q).queue ≡ q.queue ++ arrived e
  unfolding step enqueue worker_get worker_end start stop
  step-began (enqueued r callback) q v = rw began-same
  step-began (got now) q v = get_at-began q.worker now q refl v
  step-began (ended now outcome) q v = rw append-nil (end_at-began q.worker now outcome q refl)
  step-began (logs line) q v = rw append-nil (log_running-began q.worker line q refl)
  step-began started q v = rw append-nil (start_at-began q.worker q refl)
  step-began (stopped now) q v = rw append-nil (stop_at-began q.worker now q refl)

-- First in, first out: over any events with new ids, the jobs that the worker began, in the order
-- in which it began them, followed by the ids that wait at the end, are the ids that waited at the
-- beginning followed by the ids that arrived, in the order of their arrival. No job is begun twice,
-- dropped, or overtaken, also when the worker is stopped and started again.
pub run_fifo :
    {C : Type 0} (es : List (Event C)) (q : JobQueue C)
    → AllFresh es q
    → IsValid q
    → starts es q ++ (run es q).queue ≡ q.queue ++ arrivals es
unfolding run
run_fifo [] q fresh v = sym (append-nil q.queue)
run_fifo (e ∷ es) q fresh v =
    let q' = step e q in
    let new = began q.worker q'.worker in
    cc (
      append_assoc new (starts es q') (run es q').queue,
      run_fifo es q' fresh.1 (step-IsValid e q fresh.0 v),
      append_assoc new q'.queue (arrivals es),
      step-began e q v,
      append_assoc q.queue (arrived e) (arrivals es),
    )
