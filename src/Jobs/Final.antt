-- ===== src/Jobs/Final.antt =====
-- A job that has ended: it never changes again, and what the end of a callback reports.
use mathlib.Core.List.{append-nil}
use papaia_manager.Base.{
  ℕ, String, ◌≡◌, ◌≢◌, refl, ap, subst, sym, ◌∙◌, true, false, Option, none, some, List, [], ◌∷◌,
  ◌++◌, arith, eq_iff, All, map,
}
use papaia_manager.Base.Dict
use papaia_manager.Base.Dict.{get-put}
use papaia_manager.Jobs.{
  AuditEntry, Job, Worker, absent, waiting, busy, JobQueue, Outcome, returned, raised, cancelled,
  Event, enqueued, got, ended, logs, started, stopped, enqueue, get_at, worker_get, worker_end,
  next_job, take_job, settle, end_at, start, stop, stop_at, step, run, get_job, end_job, unfinished,
}
use papaia_manager.Jobs.Invariant.{
  IsValid, IsFresh, AllFresh, Pending, Current, is_queued, is_running, step-IsValid,
}
use papaia_manager.Jobs.Records.{start_at-jobs, log_running-jobs}

-- The entries that the `except` block writes.
abbrev pub reported : Outcome → Job → List AuditEntry
reported (raised name message) job =
    record {
      user = job.user;
      action = job.action;
      target = job.target;
      job_id = job.id;
      result = "error";
      error = name;
    }
    ∷ []
reported _ job = []

end_job-ended :
    (now : ℕ) (outcome : Outcome) (job : Job)
    → outcome ≢ cancelled
    → unfinished (end_job now outcome job) ≡ false
end_job-ended now cancelled job nc = absurd (nc refl)
end_job-ended now returned job nc = refl
end_job-ended now (raised name message) job nc = refl

module _ {C : Type 0} where
  take_job-final :
      (now : ℕ) (id : String) (mj : Option Job) (mc : Option C) (q : JobQueue C) (j : String)
      (job : Job)
      → Dict.get id q.jobs ≡ mj
      → is_queued mj ≡ true
      → Dict.get j q.jobs ≡ some job
      → unfinished job ≡ false
      → Dict.get j (take_job now id mj mc q).jobs ≡ some job
  unfolding take_job
  take_job-final now id none mc q j job found h e f = cc
  take_job-final now id (some _) none q j job found h e f = e
  take_job-final now id (some _) (some callback) q j job found h e f =
      rw get-put (ground (arith, eq_iff id j))

  settle-final :
      (now : ℕ) (outcome : Outcome) (id : String) (mj : Option Job) (q : JobQueue C) (j : String)
      (job : Job)
      → Dict.get id q.jobs ≡ mj
      → is_running mj ≡ true
      → Dict.get j q.jobs ≡ some job
      → unfinished job ≡ false
      → Dict.get j (settle now outcome id mj q).jobs ≡ some job
  unfolding settle
  settle-final now outcome id none q j job found h e f = e
  settle-final now returned id (some _) q j job found h e f =
      rw get-put (ground (arith, eq_iff id j))
  settle-final now (raised _ _) id (some _) q j job found h e f =
      rw get-put (ground (arith, eq_iff id j))
  settle-final now cancelled id (some _) q j job found h e f =
      rw get-put (ground (arith, eq_iff id j))

  next_job-final :
      (now : ℕ) (ids : List String) (q : JobQueue C) (j : String) (job : Job)
      → All (Pending q.jobs q.callbacks) ids
      → Dict.get j q.jobs ≡ some job
      → unfinished job ≡ false
      → Dict.get j (next_job now ids q).jobs ≡ some job
  unfolding next_job
  next_job-final now [] q j job p e f = e
  next_job-final now (id ∷ rest) q j job p e f =
      take_job-final now id (Dict.get id q.jobs) (Dict.get id q.callbacks)
        (record q { queue = rest; callbacks = Dict.remove id q.callbacks }) j job refl p.0.0 e f

  get_at-final :
      (w : Worker) (now : ℕ) (q : JobQueue C) (j : String) (job : Job)
      → IsValid q
      → Dict.get j q.jobs ≡ some job
      → unfinished job ≡ false
      → Dict.get j (get_at w now q).jobs ≡ some job
  unfolding get_at
  get_at-final waiting now q j job v e f = next_job-final now q.queue q j job v.pending e f
  get_at-final absent now q j job v e f = e
  get_at-final (busy _) now q j job v e f = e

  end_at-final :
      (w : Worker) (now : ℕ) (outcome : Outcome) (q : JobQueue C) (j : String) (job : Job)
      → q.worker ≡ w
      → IsValid q
      → Dict.get j q.jobs ≡ some job
      → unfinished job ≡ false
      → Dict.get j (end_at w now outcome q).jobs ≡ some job
  unfolding end_at
  end_at-final (busy id) now outcome q j job runs v e f =
      settle-final now outcome id (Dict.get id q.jobs) q j job refl
        (subst (Current q.jobs) runs v.current) e f
  end_at-final absent now outcome q j job runs v e f = e
  end_at-final waiting now outcome q j job runs v e f = e

  stop_at-final :
      (w : Worker) (now : ℕ) (q : JobQueue C) (j : String) (job : Job)
      → q.worker ≡ w
      → IsValid q
      → Dict.get j q.jobs ≡ some job
      → unfinished job ≡ false
      → Dict.get j (stop_at w now q).jobs ≡ some job
  unfolding stop_at
  stop_at-final absent now q j job runs v e f = e
  stop_at-final waiting now q j job runs v e f = e
  stop_at-final (busy id) now q j job runs v e f =
      end_at-final (busy id) now cancelled q j job runs v e f

  step-final :
      (e : Event C) (q : JobQueue C) (j : String) (job : Job)
      → IsFresh e q
      → IsValid q
      → Dict.get j q.jobs ≡ some job
      → unfinished job ≡ false
      → Dict.get j (step e q).jobs ≡ some job
  unfolding step enqueue worker_get worker_end start stop
  step-final (enqueued r callback) q j job fresh v e f =
      rw get-put (ground (arith, eq_iff r.id j, ap (λ k. Dict.get k q.jobs)))
  step-final (got now) q j job fresh v e f = get_at-final q.worker now q j job v e f
  step-final (ended now outcome) q j job fresh v e f =
      end_at-final q.worker now outcome q j job refl v e f
  step-final (logs line) q j job fresh v e f =
      ap (Dict.get j) (log_running-jobs q.worker line q) ∙ e
  step-final started q j job fresh v e f = ap (Dict.get j) (start_at-jobs q.worker q) ∙ e
  step-final (stopped now) q j job fresh v e f = stop_at-final q.worker now q j job refl v e f

  -- A job that has succeeded or failed stays as it is, whatever happens to the queue later.
  pub run_final :
      (es : List (Event C)) (q : JobQueue C) (j : String) (job : Job)
      → AllFresh es q
      → IsValid q
      → get_job j q ≡ some job
      → unfinished job ≡ false
      → get_job j (run es q) ≡ some job
  unfolding run get_job
  run_final [] q j job fresh v e f = e
  run_final (x ∷ es) q j job fresh v e f =
      run_final es (step x q) j job fresh.1 (step-IsValid x q fresh.0 v)
        (step-final x q j job fresh.0 v e f) f

  -- What the end of a callback leaves behind, from `q` to `q'`.
  abbrev Reports : Outcome → String → Job → JobQueue C → JobQueue C → Type 0
  Reports outcome id job q q' =
      (ended_job : Job) × (get_job id q' ≡ some ended_job)
      × (unfinished ended_job ≡ false)
      × (q'.calls ≡ q.calls ++ map (λ l. (l, ended_job)) q.listeners)
      × (q'.audit ≡ q.audit ++ reported outcome job)

  settle-Reports :
      (now : ℕ) (outcome : Outcome) (id : String) (job : Job) (q : JobQueue C)
      → outcome ≢ cancelled
      → Reports outcome id job q (settle now outcome id (some job) q)
  unfolding settle get_job
  settle-Reports now cancelled id job q nc = absurd (nc refl)
  settle-Reports now returned id job q nc = (
    end_job now returned job,
    simp get-put (ground (arith, eq_iff id id)),
    refl,
    refl,
    sym (append-nil q.audit),
  )
  settle-Reports now (raised name message) id job q nc = (
    end_job now (raised name message) job,
    simp get-put (ground (arith, eq_iff id id)),
    refl,
    refl,
    refl,
  )

  -- When the callback of the running job returns or raises, every listener is called once with
  -- the job as `get_job` shows it from then on, which has ended; an audit entry with the result
  -- `error`, the job's id and the exception's name is written if it raised, and none if it
  -- returned.
  pub worker_end_lem :
      (now : ℕ) (outcome : Outcome) (id : String) (job : Job) (q : JobQueue C)
      → q.worker ≡ busy id
      → get_job id q ≡ some job
      → outcome ≢ cancelled
      → let q' : JobQueue C = worker_end now outcome q in
        (ended_job : Job) × (get_job id q' ≡ some ended_job)
        × (unfinished ended_job ≡ false)
        × (q'.calls ≡ q.calls ++ map (λ l. (l, ended_job)) q.listeners)
        × (q'.audit ≡ q.audit ++ reported outcome job)
  unfolding worker_end end_at get_job
  worker_end_lem now outcome id job q runs found nc =
      subst (Reports outcome id job q)
        (sym (ap (λ w. end_at w now outcome q) runs ∙ ap (λ mj. settle now outcome id mj q) found))
        (settle-Reports now outcome id job q nc)
