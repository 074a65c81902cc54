-- ===== src/Jobs/Tests.antt =====
-- A queue at work: two jobs, of which the first returns and the second raises.
use papaia_manager.Base.{
  ℕ, String, ◌≡◌, ◌≢◌, refl, true, none, some, List, [], ◌∷◌, ◌++◌, map, ◌↔◌, false,
}
use papaia_manager.Base.Dict
use papaia_manager.Jobs.{
  Job, JobQueue, init, Request, Event, enqueued, got, ended, logs, started, stopped, returned,
  raised, busy, waiting, new_job, begin_job, step, run, get_job, list_jobs, active_job, read_log,
  worker_end, add_finished_listener, end_job, unfinished,
}
use papaia_manager.Jobs.Invariant.{IsValid, AllFresh, run-IsValid, init-IsValid}
use papaia_manager.Jobs.Order.{starts, arrivals, run_fifo}
use papaia_manager.Jobs.Active.{IsAccounted, active_job_iff}
use papaia_manager.Jobs.Drain.{Turn, turns, run-IsAccounted, init-IsAccounted, turns-drain}
use papaia_manager.Jobs.Records.{consistent, run-consistent}
use papaia_manager.Jobs.Final.{run_final, worker_end_lem, reported}

program : Unit {0}
unfolding run step Dict.get get_job active_job list_jobs read_log worker_end add_finished_listener
    Dict.put Dict.remove
program = tt

abbrev request : String → ℕ → Request
request id now = record {
  id = id;
  now = now;
  action = "backup";
  target = "/backups";
  user = "ada";
  params = none;
}

abbrev arriving : List (Event ℕ)
arriving = enqueued (request "a" 1) 7 ∷ enqueued (request "b" 2) 8 ∷ started ∷ []

abbrev working : List (Event ℕ)
working =
    got 3
    ∷ logs "archiving"
    ∷ ended 5 returned
    ∷ got 6
    ∷ ended 9 (raised "OSError" "disk full")
    ∷ []

abbrev two_jobs : JobQueue ℕ
two_jobs = run arriving init

arriving-AllFresh : AllFresh arriving init
unfolding program
arriving-AllFresh = (refl, (refl, (tt, tt)))

all-AllFresh : AllFresh (arriving ++ working) init
unfolding program
all-AllFresh = (refl, (refl, (tt, (tt, (tt, (tt, (tt, (tt, tt))))))))

log_of_second : read_log "b" 0 (run (arriving ++ working) init) ≡ "--- ERROR: disk full ---" ∷ []
unfolding program
log_of_second = refl

all_finished : active_job (run (arriving ++ working) init) ≡ none
unfolding program
all_finished = refl

newest_first : map (λ j. j.id) (list_jobs 1 two_jobs) ≡ "b" ∷ []
unfolding program
newest_first = refl

two_jobs-IsValid : IsValid two_jobs
two_jobs-IsValid = run-IsValid arriving init arriving-AllFresh init-IsValid

two_jobs-IsAccounted : IsAccounted two_jobs
two_jobs-IsAccounted =
    run-IsAccounted arriving init arriving-AllFresh (tt, (tt, (tt, tt))) init-IsValid
      init-IsAccounted

run-IsValid_example : IsValid (run (arriving ++ working) init)
run-IsValid_example = run-IsValid (arriving ++ working) init all-AllFresh init-IsValid

run_fifo_example :
    starts (arriving ++ working) init ++ (run (arriving ++ working) init).queue
    ≡ [] ++ arrivals (arriving ++ working)
run_fifo_example = run_fifo (arriving ++ working) init all-AllFresh init-IsValid

active_job_iff_example :
    (active_job two_jobs ≡ none)
    ↔ ((two_jobs.queue ≡ []) × ((id : String) → two_jobs.worker ≢ busy id))
active_job_iff_example = active_job_iff two_jobs two_jobs-IsValid two_jobs-IsAccounted

abbrev two_turns : List Turn
two_turns =
    record { begin = 3; end = 5; outcome = returned }
    ∷ record { begin = 6; end = 9; outcome = raised "OSError" "disk full" }
    ∷ []

turns-drain_example :
    ((run (turns two_turns) two_jobs).worker ≡ waiting)
    × ((run (turns two_turns) two_jobs).queue ≡ [])
    × (active_job (run (turns two_turns) two_jobs) ≡ none)
unfolding program
turns-drain_example =
    turns-drain two_turns two_jobs two_jobs-IsValid two_jobs-IsAccounted refl refl
      ((λ e. cc), ((λ e. cc), tt))

abbrev first_done : Job
first_done = end_job 5 returned (begin_job 3 (new_job (request "a" 1)))

run-consistent_example : (consistent first_done ≡ true) × (first_done.id ≡ "a")
unfolding program
run-consistent_example = run-consistent (arriving ++ working) "a" first_done all-AllFresh refl

abbrev half : List (Event ℕ)
half = arriving ++ got 3 ∷ ended 5 returned ∷ []

half-AllFresh : AllFresh half init
unfolding program
half-AllFresh = (refl, (refl, (tt, (tt, (tt, tt)))))

run_final_example : get_job "a" (run (got 6 ∷ stopped 8 ∷ []) (run half init)) ≡ some first_done
unfolding program
run_final_example =
    run_final (got 6 ∷ stopped 8 ∷ []) (run half init) "a" first_done (tt, (tt, tt))
      (run-IsValid half init half-AllFresh init-IsValid) refl refl

abbrev one_running : JobQueue ℕ
one_running = run (got 3 ∷ []) (add_finished_listener "notifications" two_jobs)

worker_end_lem_example :
    (job : Job) × (get_job "a" (worker_end 5 (raised "OSError" "x") one_running) ≡ some job)
    × (unfinished job ≡ false)
    × ((worker_end 5 (raised "OSError" "x") one_running).calls
        ≡ one_running.calls ++ map (λ l. (l, job)) one_running.listeners)
    × ((worker_end 5 (raised "OSError" "x") one_running).audit
        ≡ one_running.audit
          ++ reported (raised "OSError" "x") (begin_job 3 (new_job (request "a" 1))))
unfolding program
worker_end_lem_example =
    worker_end_lem 5 (raised "OSError" "x") "a" (begin_job 3 (new_job (request "a" 1))) one_running
      refl refl (λ e. cc)
