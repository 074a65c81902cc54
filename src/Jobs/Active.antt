-- ===== src/Jobs/Active.antt =====
-- What `active_job` answers, and that the worker gets through its queue.
use papaia_manager.Base.{
  ℕ, String, ◌≡◌, ◌≢◌, ◌⊎◌, inl, inr, refl, ap, subst, ◌∙◌, true, false, Option, none, some, List,
  [], ◌∷◌, arith, eq_iff, ◌==◌, any, any-sort, any-append, find_first-eq-none, find_first-ne-none,
  All, Bool-cases, ◌↔◌, leb,
}
use papaia_manager.Base.Dict
use papaia_manager.Base.Dict.{Dict, IsDict, put-IsDict, any-values, any-get, get-put}
use papaia_manager.Jobs.{
  Job, waiting, busy, JobQueue, Outcome, returned, raised, cancelled, new_job, Request, enqueue,
  take_job, settle, begin_job, end_job, oldest_first, unfinished, active_job,
}
use papaia_manager.Jobs.Invariant.{IsValid, Pending, Current, is_queued, is_running, is_some}

abbrev Waits : {C : Type 0} → JobQueue C → String → Type 0
Waits q id = (any (λ j. j == id) q.queue ≡ true) ⊎ (q.worker ≡ busy id)

-- Every unfinished job waits or runs.
pub record IsAccounted {C : Type 0} (q : JobQueue C) : Type 0 where
  pub dict : IsDict q.jobs
  pub at :
      (id : String) (job : Job)
      → Dict.get id q.jobs ≡ some job
      → unfinished job ≡ true
      → (any (λ j. j == id) q.queue ≡ true) ⊎ (q.worker ≡ busy id)

module _ {C : Type 0} where
  any-oldest_first :
      (q : JobQueue C) → any unfinished (oldest_first q) ≡ any unfinished (Dict.values q.jobs)
  any-oldest_first q =
      any-sort (λ a b. leb a.created_at b.created_at) unfinished (Dict.values q.jobs)

  active_job-eq-none :
      (q : JobQueue C) → any unfinished (Dict.values q.jobs) ≡ false → active_job q ≡ none
  unfolding active_job
  active_job-eq-none q h = find_first-eq-none unfinished (oldest_first q) (any-oldest_first q ∙ h)

  active_job-eq-some :
      (q : JobQueue C)
      → any unfinished (Dict.values q.jobs) ≡ true
      → (job : Job) × (active_job q ≡ some job) × (unfinished job ≡ true)
  unfolding active_job
  active_job-eq-some q h = find_first-ne-none unfinished (oldest_first q) (any-oldest_first q ∙ h)

  -- With nothing waiting and nothing running, no job is unfinished.
  pub idle-active_job :
      (q : JobQueue C)
      → IsAccounted q
      → q.queue ≡ []
      → ((id : String) → q.worker ≢ busy id)
      → active_job q ≡ none
  idle-active_job q a empty idle = elim (Bool-cases (any unfinished (Dict.values q.jobs))) [
    | inl some_left ↦
        let (id, job, found, left) = any-values unfinished q.jobs a.dict some_left in
        absurd (elim (a.at id job found left) [
          | inl waits ↦ ground (arith, ap (any (λ j. j == id)) empty)
          | inr runs ↦ idle id runs
        ])
    | inr none_left ↦ active_job-eq-none q none_left
  ]

  queued-active_job :
      (q : JobQueue C) (id : String) (mj : Option Job)
      → Dict.get id q.jobs ≡ mj
      → is_queued mj ≡ true
      → active_job q ≢ none
  queued-active_job q id none found h e = ground arith
  queued-active_job q id (some job) found h e =
      let (active, answer, left) =
        active_job-eq-some q (any-get unfinished id job q.jobs found (ground arith)) in
      cc

  running-active_job :
      (q : JobQueue C) (id : String) (mj : Option Job)
      → Dict.get id q.jobs ≡ mj
      → is_running mj ≡ true
      → active_job q ≢ none
  running-active_job q id none found h e = ground arith
  running-active_job q id (some job) found h e =
      let (active, answer, left) =
        active_job-eq-some q (any-get unfinished id job q.jobs found (ground arith)) in
      cc

  busy-active_job :
      (q : JobQueue C) (id : String) → IsValid q → q.worker ≡ busy id → active_job q ≢ none
  busy-active_job q id v e =
      running-active_job q id (Dict.get id q.jobs) refl (subst (Current q.jobs) e v.current)

  waiting-active_job :
      (q : JobQueue C) (ids : List String)
      → IsValid q
      → q.queue ≡ ids
      → active_job q ≡ none
      → ids ≡ []
  waiting-active_job q [] v e h = refl
  waiting-active_job q (id ∷ rest) v e h =
      let p : All (Pending q.jobs q.callbacks) (id ∷ rest) = rw e at v.pending in
      absurd (queued-active_job q id (Dict.get id q.jobs) refl p.0.0 h)

  -- `active_job` answers nothing exactly when no id waits and the worker runs no job, for a valid
  -- queue in which every unfinished job waits or runs.
  pub active_job_iff :
      (q : JobQueue C)
      → IsValid q
      → IsAccounted q
      → (active_job q ≡ none) ↔ ((q.queue ≡ []) × ((id : String) → q.worker ≢ busy id))
  active_job_iff q v a = (
    λ h. (waiting-active_job q q.queue v refl h, λ id e. busy-active_job q id v e h),
    λ h. idle-active_job q a h.0 h.1,
  )

  pub enqueue-IsAccounted :
      (r : Request) (callback : C) (q : JobQueue C)
      → IsAccounted q
      → IsAccounted (enqueue r callback q).0
  unfolding enqueue
  enqueue-IsAccounted r callback q a = record {
    dict = put-IsDict r.id (new_job r) q.jobs a.dict;
    at = λ id job. simp (get-put, any-append) (ground (arith, eq_iff r.id id, a.at id job));
  }

  take_job-IsAccounted :
      (now : ℕ) (id : String) (rest : List String) (job : Job) (callback : C) (q : JobQueue C)
      → q.queue ≡ id ∷ rest
      → q.worker ≡ waiting
      → IsAccounted q
      → IsAccounted (
          take_job now id
            (some job)
            (some callback)
            (record q { queue = rest; callbacks = Dict.remove id q.callbacks }))
  unfolding take_job
  take_job-IsAccounted now id rest job callback q e w a = record {
    dict = put-IsDict id (begin_job now job) q.jobs a.dict;
    at = λ j found. simp get-put (ground (arith, eq_iff id j, a.at j found));
  }

  pub take-IsAccounted :
      (now : ℕ) (id : String) (rest : List String) (mj : Option Job) (mc : Option C)
      (q : JobQueue C)
      → q.queue ≡ id ∷ rest
      → q.worker ≡ waiting
      → is_queued mj ≡ true
      → is_some mc ≡ true
      → IsAccounted q
      → IsAccounted (
          take_job now id mj mc (record q { queue = rest; callbacks = Dict.remove id q.callbacks }))
  take-IsAccounted now id rest none mc q e w hj hc a = cc
  take-IsAccounted now id rest (some job) none q e w hj hc a = cc
  take-IsAccounted now id rest (some job) (some callback) q e w hj hc a =
      take_job-IsAccounted now id rest job callback q e w a

  pub settle-IsAccounted :
      (now : ℕ) (outcome : Outcome) (id : String) (mj : Option Job) (q : JobQueue C)
      → Dict.get id q.jobs ≡ mj
      → q.worker ≡ busy id
      → outcome ≢ cancelled
      → IsAccounted q
      → IsAccounted (settle now outcome id mj q)
  unfolding settle
  settle-IsAccounted now outcome id none q found w nc a = a
  settle-IsAccounted now cancelled id (some job) q found w nc a = absurd (nc refl)
  settle-IsAccounted now returned id (some job) q found w nc a = record {
    dict = put-IsDict id (end_job now returned job) q.jobs a.dict;
    at = λ j old. simp get-put (ground (arith, eq_iff id j, a.at j old));
  }
  settle-IsAccounted now (raised name message) id (some job) q found w nc a = record {
    dict = put-IsDict id (end_job now (raised name message) job) q.jobs a.dict;
    at = λ j old. simp get-put (ground (arith, eq_iff id j, a.at j old));
  }
