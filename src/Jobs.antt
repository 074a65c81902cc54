-- ===== src/Jobs.antt =====
-- src/app/core/jobs.py: the single-flight job queue.
-- A coroutine runs from one `await` to the next without interruption, so the queue's behaviour is
-- a sequence of the events below; the proofs are in the children.
mod Invariant
pub mod Order
pub mod Active
pub mod Drain
pub mod Records
pub mod Final
mod Tests
use Prim.Native.String.{◌++◌ as text_append}
use papaia_manager.Base.{
  ℕ, String, Bool, true, false, Option, none, some, List, [], ◌∷◌, ◌++◌, leb, take, drop,
  find_first, sort, map,
}
use papaia_manager.Base.Dict
use papaia_manager.Base.Dict.{Dict}

pub data JobStatus : Type 0 where
  queued running succeeded failed : JobStatus

-- Times are counts of microseconds. The values of `params` are JSON that the queue never reads.
pub record Job : Type 0 where
  pub id : String
  pub action : String
  pub target : String
  pub user : String
  pub created_at : ℕ
  pub status : JobStatus
  pub started_at : Option ℕ
  pub finished_at : Option ℕ
  pub exit_code : Option ℕ
  pub params : Dict String

-- A line of jobs/index.jsonl.
pub record IndexLine : Type 0 where
  pub id : String
  pub action : String
  pub target : String
  pub user : String
  pub status : JobStatus
  pub created_at : ℕ

-- The arguments of `write_audit_entry`, as the worker gives them.
pub record AuditEntry : Type 0 where
  pub user : String
  pub action : String
  pub target : String
  pub job_id : String
  pub result : String
  pub error : String

-- How a callback ends: it returns, it raises an `Exception`, or the worker's task is cancelled
-- while it waits (`CancelledError` is no `Exception`).
pub data Outcome : Type 0 where
  returned : Outcome
  raised : (name message : String) → Outcome
  cancelled : Outcome

-- The worker task: not there or done, waiting for an id, or inside the callback of a job.
pub data Worker : Type 0 where
  absent waiting : Worker
  busy : String → Worker

-- `index`, `logs` and `audit` are the files that the queue appends to; `calls` is what the
-- finished-listeners were called with.
pub record JobQueue (C : Type 0) : Type 0 where
  pub jobs : Dict Job
  pub callbacks : Dict C
  pub queue : List String
  pub worker : Worker
  pub listeners : List String
  pub index : List IndexLine
  pub logs : Dict (List String)
  pub audit : List AuditEntry
  pub calls : List (String × Job)

abbrev pub init : {C : Type 0} → JobQueue C
init = record {
  jobs = [];
  callbacks = [];
  queue = [];
  worker = absent;
  listeners = [];
  index = [];
  logs = [];
  audit = [];
  calls = [];
}

-- What a caller passes to `enqueue`, with the id and the time that the queue takes for the job.
pub record Request : Type 0 where
  pub id : String
  pub now : ℕ
  pub action : String
  pub target : String
  pub user : String
  pub params : Option (Dict String)

abbrev pub new_job : Request → Job
new_job r = record {
  id = r.id;
  action = r.action;
  target = r.target;
  user = r.user;
  created_at = r.now;
  status = queued;
  started_at = none;
  finished_at = none;
  exit_code = none;
  params = elim r.params [ none ↦ [] | some p ↦ p ];
}

abbrev index_line : Job → IndexLine
index_line job = record {
  id = job.id;
  action = job.action;
  target = job.target;
  user = job.user;
  status = job.status;
  created_at = job.created_at;
}

-- `job.status = RUNNING`, `job.started_at = now`
abbrev begin_job : ℕ → Job → Job
begin_job now job = record job { status = running; started_at = some now }

-- What the `try` and its `finally` make of the job.
abbrev end_job : ℕ → Outcome → Job → Job
end_job now returned job = record job {
  status = succeeded;
  exit_code = some 0;
  finished_at = some now;
}
end_job now (raised name message) job = record job {
  status = failed;
  exit_code = some 1;
  finished_at = some now;
}
end_job now cancelled job = record job { finished_at = some now }

-- `status in (QUEUED, RUNNING)`
abbrev pub unfinished : Job → Bool
unfinished job = elim job.status [ queued ↦ true | running ↦ true | _ ↦ false ]

module _ {C : Type 0} where
  append_index : Job → JobQueue C → JobQueue C
  append_index job q = record q { index = q.index ++ index_line job ∷ [] }

  pub add_finished_listener : String → JobQueue C → JobQueue C
  add_finished_listener listener q = record q { listeners = q.listeners ++ listener ∷ [] }

  -- An exception of a listener is logged and goes no further, so each of them is called.
  notify_finished : Job → JobQueue C → JobQueue C
  notify_finished job q = record q { calls = q.calls ++ map (λ l. (l, job)) q.listeners }

  pub enqueue : Request → C → JobQueue C → JobQueue C × Job
  unfolding append_index
  enqueue r callback q =
      let job = new_job r in
      let stored = record q {
        jobs = Dict.put job.id job q.jobs;
        callbacks = Dict.put job.id callback q.callbacks;
      } in
      let indexed = append_index job stored in
      (record indexed { queue = indexed.queue ++ job.id ∷ [] }, job)

  pub get_job : String → JobQueue C → Option Job
  get_job job_id q = Dict.get job_id q.jobs

  -- Newest first; jobs of one moment stay in the order in which they came.
  pub list_jobs : ℕ → JobQueue C → List Job
  list_jobs limit q = take limit (sort (λ a b. leb b.created_at a.created_at) (Dict.values q.jobs))

  abbrev pub oldest_first : JobQueue C → List Job
  oldest_first q = sort (λ a b. leb a.created_at b.created_at) (Dict.values q.jobs)

  pub active_job : JobQueue C → Option Job
  active_job q = find_first unfinished (oldest_first q)

  log_lines : String → JobQueue C → List String
  log_lines job_id q = elim (Dict.get job_id q.logs) [ none ↦ [] | some lines ↦ lines ]

  -- The lines from `offset` on; a job with no log has none.
  pub read_log : String → ℕ → JobQueue C → List String
  unfolding log_lines
  read_log job_id offset q = drop offset (log_lines job_id q)

  -- `JobContext.log`
  log : String → String → JobQueue C → JobQueue C
  unfolding log_lines
  log job_id line q = record q { logs = Dict.put job_id (log_lines job_id q ++ line ∷ []) q.logs }

  -- The worker has taken `job_id`: it begins the job, or goes on if job or callback is missing.
  pub take_job : ℕ → String → Option Job → Option C → JobQueue C → JobQueue C
  unfolding append_index
  take_job now job_id (some job) (some callback) q =
      append_index (begin_job now job)
        (record q { jobs = Dict.put job_id (begin_job now job) q.jobs; worker = busy job_id })
  take_job now job_id _ _ q = q

  next_job : ℕ → List String → JobQueue C → JobQueue C
  unfolding take_job
  next_job now [] q = q
  next_job now (job_id ∷ rest) q =
      take_job now job_id (Dict.get job_id q.jobs) (Dict.get job_id q.callbacks)
        (record q { queue = rest; callbacks = Dict.remove job_id q.callbacks })

  -- The worker's loop from `queue.get()` up to the callback.
  get_at : Worker → ℕ → JobQueue C → JobQueue C
  unfolding next_job
  get_at waiting now q = next_job now q.queue q
  get_at _ now q = q

  worker_get : ℕ → JobQueue C → JobQueue C
  unfolding get_at
  worker_get now q = get_at q.worker now q

  -- The `except` block: the error line in the log and the audit entry.
  report_error : Outcome → String → Job → JobQueue C → JobQueue C
  unfolding log
  report_error (raised name message) job_id job q =
      let q' = log job_id (text_append (text_append "--- ERROR: " message) " ---") q in
      record q' {
        audit =
            q'.audit
            ++ (record {
              user = job.user;
              action = job.action;
              target = job.target;
              job_id = job.id;
              result = "error";
              error = name;
            })
              ∷ [];
      }
  report_error _ job_id job q = q

  -- After the lock is released: the listeners, and the next round; a cancelled worker is done.
  after_job : Outcome → Job → JobQueue C → JobQueue C
  unfolding notify_finished
  after_job cancelled job q = record q { worker = absent }
  after_job _ job q = notify_finished job (record q { worker = waiting })

  pub settle : ℕ → Outcome → String → Option Job → JobQueue C → JobQueue C
  unfolding report_error append_index after_job
  settle now outcome job_id none q = q
  settle now outcome job_id (some job) q =
      let job' = end_job now outcome job in
      let reported =
        report_error outcome job_id job' (record q { jobs = Dict.put job_id job' q.jobs }) in
      after_job outcome job' (append_index job' reported)

  -- The callback of the running job ends.
  end_at : Worker → ℕ → Outcome → JobQueue C → JobQueue C
  unfolding settle
  end_at (busy job_id) now outcome q = settle now outcome job_id (Dict.get job_id q.jobs) q
  end_at _ now outcome q = q

  pub worker_end : ℕ → Outcome → JobQueue C → JobQueue C
  unfolding end_at
  worker_end now outcome q = end_at q.worker now outcome q

  pub start_at : Worker → JobQueue C → JobQueue C
  start_at absent q = record q { worker = waiting }
  start_at _ q = q

  pub start : JobQueue C → JobQueue C
  unfolding start_at
  start q = start_at q.worker q

  -- Cancels the worker; a callback that runs lets the cancellation through.
  stop_at : Worker → ℕ → JobQueue C → JobQueue C
  unfolding end_at
  stop_at absent now q = q
  stop_at waiting now q = record q { worker = absent }
  stop_at (busy job_id) now q = end_at (busy job_id) now cancelled q

  pub stop : ℕ → JobQueue C → JobQueue C
  unfolding stop_at
  stop now q = stop_at q.worker now q

-- What can happen to a queue. `logs` is a line that the running callback writes.
pub data Event (C : Type 0) : Type 0 where
  enqueued : Request → C → Event C
  got : ℕ → Event C
  ended : ℕ → Outcome → Event C
  logs : String → Event C
  started : Event C
  stopped : ℕ → Event C

module _ {C : Type 0} where
  abbrev log_running : Worker → String → JobQueue C → JobQueue C
  log_running (busy job_id) line q = log job_id line q
  log_running _ line q = q

  unfoldable pub step : Event C → JobQueue C → JobQueue C
  unfolding enqueue worker_get worker_end log start stop
  step (enqueued r callback) q = (enqueue r callback q).0
  step (got now) q = worker_get now q
  step (ended now outcome) q = worker_end now outcome q
  step (logs line) q = log_running q.worker line q
  step started q = start q
  step (stopped now) q = stop now q

  unfoldable pub run : List (Event C) → JobQueue C → JobQueue C
  run [] q = q
  run (e ∷ es) q = run es (step e q)
