-- ===== src/Jobs/Invariant.antt =====
-- What holds of the queue after any events: every id that waits names a queued job with its
-- callback, no id waits twice, and the job that the worker runs has the status `running`.
use papaia_manager.Base.{
  ℕ, String, ◌≡◌, ◌≢◌, refl, ap, subst, Bool, true, false, Option, none, some, List, [], ◌∷◌, arith,
  eq_iff, All, All-map, All-both, All-append, Distinct, Distinct-snoc,
}
use papaia_manager.Base.Dict
use papaia_manager.Base.Dict.{Dict, get-put, get-remove}
use papaia_manager.Jobs.{
  Job, queued, running, Worker, absent, waiting, busy, JobQueue, init, Outcome, returned, raised,
  cancelled, Event, enqueued, got, ended, logs, started, stopped, new_job, Request, enqueue, get_at,
  next_job, take_job, settle, end_at, log, log_running, start_at, stop_at, step, run, begin_job,
  end_job,
}

abbrev pub is_queued : Option Job → Bool
is_queued none = false
is_queued (some job) = elim job.status [ queued ↦ true | _ ↦ false ]

abbrev pub is_running : Option Job → Bool
is_running none = false
is_running (some job) = elim job.status [ running ↦ true | _ ↦ false ]

abbrev pub is_some {ℓ} : {A : Type ℓ} → Option A → Bool
is_some none = false
is_some (some _) = true

abbrev pub Pending : {C : Type 0} → Dict Job → Dict C → String → Type 0
Pending jobs callbacks id =
    (is_queued (Dict.get id jobs) ≡ true) × (is_some (Dict.get id callbacks) ≡ true)

abbrev pub Current : Dict Job → Worker → Type 0
Current jobs (busy id) = is_running (Dict.get id jobs) ≡ true
Current jobs _ = Unit

pub record IsValid {C : Type 0} (q : JobQueue C) : Type 0 where
  pub pending : All (Pending q.jobs q.callbacks) q.queue
  pub distinct : Distinct q.queue
  pub current : Current q.jobs q.worker

-- `uuid4` gives an id that no job has.
abbrev pub IsFresh : {C : Type 0} → Event C → JobQueue C → Type 0
IsFresh (enqueued r callback) q = Dict.get r.id q.jobs ≡ none
IsFresh _ q = Unit

-- A job of another status replaced under `id` leaves the others as they are.
Pending-put_ne :
    {C : Type 0} (jobs : Dict Job) (callbacks : Dict C) (id : String) (job : Job) (j : String)
    → id ≢ j
    → Pending jobs callbacks j
    → Pending (Dict.put id job jobs) callbacks j
Pending-put_ne jobs callbacks id job j ne p = rw get-put (ground (arith, eq_iff id j))

Pending-ne :
    {C : Type 0} (jobs : Dict Job) (callbacks : Dict C) (id j : String)
    → Dict.get id jobs ≡ none
    → Pending jobs callbacks j
    → j ≢ id
Pending-ne jobs callbacks id j fresh p e = ground (arith, ap (λ k. Dict.get k jobs) e)

Pending-enqueue :
    {C : Type 0} (jobs : Dict Job) (callbacks : Dict C) (r : Request) (c : C) (j : String)
    → Pending jobs callbacks j
    → Pending (Dict.put r.id (new_job r) jobs) (Dict.put r.id c callbacks) j
Pending-enqueue jobs callbacks r c j p = simp get-put (ground (arith, eq_iff r.id j))

Pending-new :
    {C : Type 0} (jobs : Dict Job) (callbacks : Dict C) (r : Request) (c : C)
    → Pending (Dict.put r.id (new_job r) jobs) (Dict.put r.id c callbacks) r.id
Pending-new jobs callbacks r c = simp get-put (ground (arith, eq_iff r.id r.id))

Current-enqueue :
    (jobs : Dict Job) (r : Request) (w : Worker)
    → Dict.get r.id jobs ≡ none
    → Current jobs w
    → Current (Dict.put r.id (new_job r) jobs) w
Current-enqueue jobs r absent fresh h = tt
Current-enqueue jobs r waiting fresh h = tt
Current-enqueue jobs r (busy id) fresh h = simp get-put (ground (arith, eq_iff r.id id))

Pending-take :
    {C : Type 0} (jobs : Dict Job) (callbacks : Dict C) (id : String) (job : Job) (j : String)
    → id ≢ j
    → Pending jobs callbacks j
    → Pending (Dict.put id job jobs) (Dict.remove id callbacks) j
Pending-take jobs callbacks id job j ne p = simp (get-put, get-remove) (ground (arith, eq_iff id j))

-- A job that runs has a status of its own, so no waiting id is the running one.
Pending-settle :
    {C : Type 0} (jobs : Dict Job) (callbacks : Dict C) (id : String) (job : Job) (j : String)
    → is_running (Dict.get id jobs) ≡ true
    → Pending jobs callbacks j
    → Pending (Dict.put id job jobs) callbacks j
Pending-settle jobs callbacks id job j r p =
    Pending-put_ne jobs callbacks id job j (λ e. ground (arith, ap (λ k. Dict.get k jobs) e)) p

module _ {C : Type 0} where
  pub enqueue-IsValid :
      (r : Request) (callback : C) (q : JobQueue C)
      → Dict.get r.id q.jobs ≡ none
      → IsValid q
      → IsValid (enqueue r callback q).0
  unfolding enqueue
  enqueue-IsValid r callback q fresh v = record {
    pending =
        All-append (Pending (Dict.put r.id (new_job r) q.jobs) (Dict.put r.id callback q.callbacks))
          q.queue (r.id ∷ [])
          (All-map q.queue (λ j. Pending-enqueue q.jobs q.callbacks r callback j) v.pending)
          (Pending-new q.jobs q.callbacks r callback, tt);
    distinct =
        Distinct-snoc q.queue r.id v.distinct
          (All-map q.queue (λ j p. Pending-ne q.jobs q.callbacks r.id j fresh p) v.pending);
    current = Current-enqueue q.jobs r q.worker fresh v.current;
  }

  take_job-IsValid :
      (now : ℕ) (id : String) (rest : List String) (mj : Option Job) (mc : Option C)
      (q : JobQueue C)
      → is_queued mj ≡ true
      → is_some mc ≡ true
      → All (Pending q.jobs q.callbacks) rest
      → All (λ j. id ≢ j) rest
      → Distinct rest
      → IsValid (
          take_job now id mj mc (record q { queue = rest; callbacks = Dict.remove id q.callbacks }))
  unfolding take_job
  take_job-IsValid now id rest none mc q hj hc p ne d = cc
  take_job-IsValid now id rest (some job) none q hj hc p ne d = cc
  take_job-IsValid now id rest (some job) (some callback) q hj hc p ne d = record {
    pending = All-both rest (λ j. Pending-take q.jobs q.callbacks id (begin_job now job) j) ne p;
    distinct = d;
    current = simp get-put (ground (arith, eq_iff id id));
  }

  next_job-IsValid :
      (now : ℕ) (ids : List String) (q : JobQueue C)
      → q.queue ≡ ids
      → IsValid q
      → IsValid (next_job now ids q)
  unfolding next_job
  next_job-IsValid now [] q e v = v
  next_job-IsValid now (id ∷ rest) q e v =
      let p : All (Pending q.jobs q.callbacks) (id ∷ rest) = rw e at v.pending in
      let d : Distinct (id ∷ rest) = rw e at v.distinct in
      take_job-IsValid now id rest (Dict.get id q.jobs) (Dict.get id q.callbacks) q p.0.0 p.0.1 p.1
        d.0 d.1

  get_at-IsValid : (w : Worker) (now : ℕ) (q : JobQueue C) → IsValid q → IsValid (get_at w now q)
  unfolding get_at
  get_at-IsValid waiting now q v = next_job-IsValid now q.queue q refl v
  get_at-IsValid absent now q v = v
  get_at-IsValid (busy _) now q v = v

  -- Ending a job touches what the invariant reads only under the job's own id.
  settle-IsValid :
      (now : ℕ) (outcome : Outcome) (id : String) (mj : Option Job) (q : JobQueue C)
      → is_running (Dict.get id q.jobs) ≡ true
      → IsValid q
      → IsValid (settle now outcome id mj q)
  unfolding settle
  settle-IsValid now outcome id none q r v = v
  settle-IsValid now returned id (some job) q r v = record {
    pending =
        All-map q.queue (λ j. Pending-settle q.jobs q.callbacks id (end_job now returned job) j r)
          v.pending;
    distinct = v.distinct;
    current = tt;
  }
  settle-IsValid now (raised name message) id (some job) q r v = record {
    pending =
        All-map q.queue
          (λ j. Pending-settle q.jobs q.callbacks id (end_job now (raised name message) job) j r)
          v.pending;
    distinct = v.distinct;
    current = tt;
  }
  settle-IsValid now cancelled id (some job) q r v = record {
    pending =
        All-map q.queue (λ j. Pending-settle q.jobs q.callbacks id (end_job now cancelled job) j r)
          v.pending;
    distinct = v.distinct;
    current = tt;
  }

  end_at-IsValid :
      (w : Worker) (now : ℕ) (outcome : Outcome) (q : JobQueue C)
      → q.worker ≡ w
      → IsValid q
      → IsValid (end_at w now outcome q)
  unfolding end_at
  end_at-IsValid (busy id) now outcome q e v =
      settle-IsValid now outcome id (Dict.get id q.jobs) q (subst (Current q.jobs) e v.current) v
  end_at-IsValid absent now outcome q e v = v
  end_at-IsValid waiting now outcome q e v = v

  start_at-IsValid : (w : Worker) (q : JobQueue C) → IsValid q → IsValid (start_at w q)
  unfolding start_at
  start_at-IsValid absent q v = record { pending = v.pending; distinct = v.distinct; current = tt }
  start_at-IsValid waiting q v = v
  start_at-IsValid (busy _) q v = v

  stop_at-IsValid :
      (w : Worker) (now : ℕ) (q : JobQueue C) → q.worker ≡ w → IsValid q → IsValid (stop_at w now q)
  unfolding stop_at
  stop_at-IsValid absent now q e v = v
  stop_at-IsValid waiting now q e v = record {
    pending = v.pending;
    distinct = v.distinct;
    current = tt;
  }
  stop_at-IsValid (busy id) now q e v = end_at-IsValid (busy id) now cancelled q e v

  log_running-IsValid :
      (w : Worker) (line : String) (q : JobQueue C) → IsValid q → IsValid (log_running w line q)
  unfolding log
  log_running-IsValid (busy id) line q v = record {
    pending = v.pending;
    distinct = v.distinct;
    current = v.current;
  }
  log_running-IsValid absent line q v = v
  log_running-IsValid waiting line q v = v

  pub step-IsValid : (e : Event C) (q : JobQueue C) → IsFresh e q → IsValid q → IsValid (step e q)
  unfolding step
  step-IsValid (enqueued r callback) q fresh v = enqueue-IsValid r callback q fresh v
  step-IsValid (got now) q fresh v = get_at-IsValid q.worker now q v
  step-IsValid (ended now outcome) q fresh v = end_at-IsValid q.worker now outcome q refl v
  step-IsValid (logs line) q fresh v = log_running-IsValid q.worker line q v
  step-IsValid started q fresh v = start_at-IsValid q.worker q v
  step-IsValid (stopped now) q fresh v = stop_at-IsValid q.worker now q refl v

  -- Every id that arrives is new when it arrives.
  abbrev pub AllFresh : List (Event C) → JobQueue C → Type 0
  AllFresh [] q = Unit
  AllFresh (e ∷ es) q = IsFresh e q × AllFresh es (step e q)

  -- Whatever happens to a valid queue, with ids that are new, it stays valid: every waiting id
  -- names a job of status `queued` with its callback, no id waits twice, and the job of a busy
  -- worker has the status `running`.
  pub run-IsValid :
      (es : List (Event C)) (q : JobQueue C) → AllFresh es q → IsValid q → IsValid (run es q)
  unfolding run
  run-IsValid [] q fresh v = v
  run-IsValid (e ∷ es) q fresh v = run-IsValid es (step e q) fresh.1 (step-IsValid e q fresh.0 v)

  pub init-IsValid : IsValid (init {C = C})
  init-IsValid = record { pending = tt; distinct = tt; current = tt }
