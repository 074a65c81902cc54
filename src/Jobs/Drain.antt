-- ===== src/Jobs/Drain.antt =====
-- The worker gets through its queue: liveness of the loop, and what stays accounted for.
use papaia_manager.Base.{
  ℕ, String, ◌≡◌, ◌≢◌, refl, subst, sym, ◌∙◌, true, Option, none, some, List, [], ◌∷◌, arith, All,
  length, eq_iff,
}
use papaia_manager.Base.Dict
use papaia_manager.Base.Dict.{get-put}
use papaia_manager.Jobs.{
  Job, Worker, absent, waiting, busy, JobQueue, init, Outcome, returned, raised, cancelled, Event,
  enqueued, got, ended, logs, started, stopped, get_at, worker_get, worker_end, next_job, take_job,
  settle, end_at, log, log_running, start, start_at, step, run, active_job,
}
use papaia_manager.Jobs.Invariant.{IsValid, AllFresh, Pending, is_queued, is_some, step-IsValid}
use papaia_manager.Jobs.Active.{
  IsAccounted, idle-active_job, take-IsAccounted, settle-IsAccounted, enqueue-IsAccounted,
}

-- The worker is not cancelled: neither the manager stops it nor does the callback end by that.
abbrev pub IsCalm : {C : Type 0} → Event C → Type 0
IsCalm (ended now outcome) = outcome ≢ cancelled
IsCalm (stopped now) = Unit → ⊥
IsCalm _ = Unit

module _ {C : Type 0} where
  next_job-IsAccounted :
      (now : ℕ) (ids : List String) (q : JobQueue C)
      → q.queue ≡ ids
      → q.worker ≡ waiting
      → IsValid q
      → IsAccounted q
      → IsAccounted (next_job now ids q)
  unfolding next_job
  next_job-IsAccounted now [] q e w v a = a
  next_job-IsAccounted now (id ∷ rest) q e w v a =
      let p : All (Pending q.jobs q.callbacks) (id ∷ rest) =
        subst (All (Pending q.jobs q.callbacks)) e v.pending in
      take-IsAccounted now id rest (Dict.get id q.jobs) (Dict.get id q.callbacks) q e w p.0.0 p.0.1
        a

  get_at-IsAccounted :
      (w : Worker) (now : ℕ) (q : JobQueue C)
      → q.worker ≡ w
      → IsValid q
      → IsAccounted q
      → IsAccounted (get_at w now q)
  unfolding get_at
  get_at-IsAccounted waiting now q e v a = next_job-IsAccounted now q.queue q refl e v a
  get_at-IsAccounted absent now q e v a = a
  get_at-IsAccounted (busy _) now q e v a = a

  end_at-IsAccounted :
      (w : Worker) (now : ℕ) (outcome : Outcome) (q : JobQueue C)
      → q.worker ≡ w
      → outcome ≢ cancelled
      → IsAccounted q
      → IsAccounted (end_at w now outcome q)
  unfolding end_at
  end_at-IsAccounted (busy id) now outcome q e nc a =
      settle-IsAccounted now outcome id (Dict.get id q.jobs) q refl e nc a
  end_at-IsAccounted absent now outcome q e nc a = a
  end_at-IsAccounted waiting now outcome q e nc a = a

  start_at-IsAccounted :
      (w : Worker) (q : JobQueue C) → q.worker ≡ w → IsAccounted q → IsAccounted (start_at w q)
  unfolding start_at
  start_at-IsAccounted absent q e a = record {
    dict = a.dict;
    at = λ id job found left. ground (arith, a.at id job found left);
  }
  start_at-IsAccounted waiting q e a = a
  start_at-IsAccounted (busy _) q e a = a

  log_running-IsAccounted :
      (w : Worker) (line : String) (q : JobQueue C)
      → IsAccounted q
      → IsAccounted (log_running w line q)
  unfolding log
  log_running-IsAccounted (busy id) line q a = record { dict = a.dict; at = a.at }
  log_running-IsAccounted absent line q a = a
  log_running-IsAccounted waiting line q a = a

  step-IsAccounted :
      (e : Event C) (q : JobQueue C) → IsCalm e → IsValid q → IsAccounted q → IsAccounted (step e q)
  unfolding step worker_get worker_end start
  step-IsAccounted (enqueued r callback) q calm v a = enqueue-IsAccounted r callback q a
  step-IsAccounted (got now) q calm v a = get_at-IsAccounted q.worker now q refl v a
  step-IsAccounted (ended now outcome) q calm v a =
      end_at-IsAccounted q.worker now outcome q refl calm a
  step-IsAccounted (logs line) q calm v a = log_running-IsAccounted q.worker line q a
  step-IsAccounted started q calm v a = start_at-IsAccounted q.worker q refl a
  step-IsAccounted (stopped now) q calm v a = absurd (calm tt)

  abbrev pub AllCalm : List (Event C) → Type 0
  AllCalm [] = Unit
  AllCalm (e ∷ es) = IsCalm e × AllCalm es

  pub run-IsAccounted :
      (es : List (Event C)) (q : JobQueue C)
      → AllFresh es q
      → AllCalm es
      → IsValid q
      → IsAccounted q
      → IsAccounted (run es q)
  unfolding run
  run-IsAccounted [] q fresh calm v a = a
  run-IsAccounted (e ∷ es) q fresh calm v a =
      run-IsAccounted es (step e q) fresh.1 calm.1 (step-IsValid e q fresh.0 v)
        (step-IsAccounted e q calm.0 v a)

  pub init-IsAccounted : IsAccounted (init {C = C})
  unfolding Dict.get
  init-IsAccounted = record { dict = tt; at = λ id job found left. cc }

-- One turn of the worker's loop: when it takes an id, and when and how the callback ends.
pub record Turn : Type 0 where
  pub begin : ℕ
  pub end : ℕ
  pub outcome : Outcome

abbrev pub turns : {C : Type 0} → List Turn → List (Event C)
turns [] = []
turns (t ∷ ts) = got t.begin ∷ ended t.end t.outcome ∷ turns ts

abbrev pub NoneCancelled : List Turn → Type 0
NoneCancelled [] = Unit
NoneCancelled (t ∷ ts) = (t.outcome ≢ cancelled) × NoneCancelled ts

turns-AllCalm : (C : Type 0) (ts : List Turn) → NoneCancelled ts → AllCalm {C = C} (turns ts)
turns-AllCalm C [] nc = tt
turns-AllCalm C (t ∷ ts) nc = (tt, (nc.0, turns-AllCalm C ts nc.1))

module _ {C : Type 0} where
  turns-AllFresh : (ts : List Turn) (q : JobQueue C) → AllFresh (turns ts) q
  turns-AllFresh [] q = tt
  turns-AllFresh (t ∷ ts) q = (tt, (tt, turns-AllFresh ts _))

  settle-waiting :
      (now : ℕ) (outcome : Outcome) (id : String) (mj : Option Job) (q : JobQueue C)
      → is_some mj ≡ true
      → outcome ≢ cancelled
      → ((settle now outcome id mj q).worker ≡ waiting)
        × ((settle now outcome id mj q).queue ≡ q.queue)
  unfolding settle
  settle-waiting now outcome id none q h nc = cc
  settle-waiting now cancelled id (some job) q h nc = absurd (nc refl)
  settle-waiting now returned id (some job) q h nc = (refl, refl)
  settle-waiting now (raised name message) id (some job) q h nc = (refl, refl)

  end_at-waiting :
      (w : Worker) (now : ℕ) (outcome : Outcome) (id : String) (q : JobQueue C)
      → w ≡ busy id
      → is_some (Dict.get id q.jobs) ≡ true
      → outcome ≢ cancelled
      → ((end_at w now outcome q).worker ≡ waiting) × ((end_at w now outcome q).queue ≡ q.queue)
  unfolding end_at
  end_at-waiting w now outcome id q e h nc =
      rw e (settle-waiting now outcome id (Dict.get id q.jobs) q h nc)

  take_job-busy :
      (now : ℕ) (id : String) (mj : Option Job) (mc : Option C) (q : JobQueue C)
      → is_queued mj ≡ true
      → is_some mc ≡ true
      → ((take_job now id mj mc q).worker ≡ busy id)
        × ((take_job now id mj mc q).queue ≡ q.queue)
        × (is_some (Dict.get id (take_job now id mj mc q).jobs) ≡ true)
  unfolding take_job
  take_job-busy now id none mc q hj hc = cc
  take_job-busy now id (some job) none q hj hc = cc
  take_job-busy now id (some job) (some callback) q hj hc =
      (refl, refl, simp get-put (ground (arith, eq_iff id id)))

  abbrev Runs : String → List String → JobQueue C → Type 0
  Runs id rest q = (q.worker ≡ busy id) × (q.queue ≡ rest) × (is_some (Dict.get id q.jobs) ≡ true)

  next_job-Runs :
      (now : ℕ) (id : String) (rest : List String) (q : JobQueue C)
      → All (Pending q.jobs q.callbacks) (id ∷ rest)
      → Runs id rest (next_job now (id ∷ rest) q)
  unfolding next_job
  next_job-Runs now id rest q p =
      take_job-busy now id (Dict.get id q.jobs) (Dict.get id q.callbacks)
        (record q { queue = rest; callbacks = Dict.remove id q.callbacks }) p.0.0 p.0.1

  get_at-Runs :
      (w : Worker) (now : ℕ) (id : String) (rest : List String) (q : JobQueue C)
      → w ≡ waiting
      → q.queue ≡ id ∷ rest
      → IsValid q
      → Runs id rest (get_at w now q)
  unfolding get_at
  get_at-Runs w now id rest q idle e v =
      subst (λ u. Runs id rest (get_at u now q)) (sym idle)
        (subst (λ ids. All (Pending q.jobs q.callbacks) ids → Runs id rest (next_job now ids q))
          (sym e) (next_job-Runs now id rest q) v.pending)

  -- One turn of the loop takes the first waiting id and leaves the worker waiting again.
  turn-waiting :
      (t : Turn) (id : String) (rest : List String) (q : JobQueue C)
      → q.worker ≡ waiting
      → q.queue ≡ id ∷ rest
      → t.outcome ≢ cancelled
      → IsValid q
      → let q' : JobQueue C = step (ended t.end t.outcome) (step (got t.begin) q) in
        (q'.worker ≡ waiting) × (q'.queue ≡ rest)
  unfolding step worker_get worker_end
  turn-waiting t id rest q idle e nc v =
      let taken = get_at q.worker t.begin q in
      let (runs, left, there) = get_at-Runs q.worker t.begin id rest q idle e v in
      let (again, same) = end_at-waiting taken.worker t.end t.outcome id taken runs there nc in
      (again, same ∙ left)

  turns-waiting :
      (ts : List Turn) (ids : List String) (q : JobQueue C)
      → q.worker ≡ waiting
      → q.queue ≡ ids
      → length ts ≡ length ids
      → NoneCancelled ts
      → IsValid q
      → ((run (turns ts) q).worker ≡ waiting) × ((run (turns ts) q).queue ≡ [])
  unfolding run
  turns-waiting [] [] q idle e n nc v = (idle, e)
  turns-waiting [] (id ∷ rest) q idle e n nc v = absurd (omega arith)
  turns-waiting (t ∷ ts) [] q idle e n nc v = absurd (omega arith)
  turns-waiting (t ∷ ts) (id ∷ rest) q idle e n nc v =
      let (again, left) = turn-waiting t id rest q idle e nc.0 v in
      turns-waiting ts rest _ again left (omega arith) nc.1
        (step-IsValid (ended t.end t.outcome) _ tt (step-IsValid (got t.begin) q tt v))

  -- From a valid queue in which every unfinished job waits or runs, with the worker waiting, as
  -- many turns of its loop as ids wait end with an empty queue, a waiting worker and no active
  -- job, however the callbacks return or raise, if none of them is cancelled.
  pub turns-drain :
      (ts : List Turn) (q : JobQueue C)
      → IsValid q
      → IsAccounted q
      → q.worker ≡ waiting
      → length ts ≡ length q.queue
      → NoneCancelled ts
      → ((run (turns ts) q).worker ≡ waiting)
        × ((run (turns ts) q).queue ≡ [])
        × (active_job (run (turns ts) q) ≡ none)
  turns-drain ts q v a idle n nc =
      let (again, left) = turns-waiting ts q.queue q idle refl n nc v in
      let accounted =
        run-IsAccounted (turns ts) q (turns-AllFresh ts q) (turns-AllCalm C ts nc) v a in
      (again, left, idle-active_job (run (turns ts) q) accounted left (λ id e. cc))
