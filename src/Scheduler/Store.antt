-- ===== src/Scheduler/Store.antt =====
-- What src/app/core/scheduler.py relies on of APScheduler's memory job store: a table from ids to
-- planned jobs in which `add_job` with `replace_existing` replaces and `remove_job` removes.
use papaia_manager.Base.{ℕ, String, ◌≡◌, Option, none, some, ◌==◌, if◌then◌else◌}
use papaia_manager.Base.Dict
use papaia_manager.Base.Dict.{Dict, get-put, get-remove}

-- A planned call: on the runs of a cron expression in a zone, with a grace time in seconds; or once
-- at a moment, for an attempt.
pub data Planned : Type 0 where
  on_cron : String → String → ℕ → Planned
  once : ℕ → ℕ → Planned

pub record JobStore (S : Type 0) : Type 0 where
  pub get_job : String → S → Option Planned
  pub add_job : String → Planned → S → S
  pub remove_job : String → S → S
  pub get-add :
      (i j : String) (p : Planned) (s : S)
      → get_job j (add_job i p s) ≡ (if i == j then some p else get_job j s)
  pub get-remove :
      (i j : String) (s : S) → get_job j (remove_job i s) ≡ (if i == j then none else get_job j s)

-- A dictionary is such a store.
abbrev pub dict_store : JobStore (Dict Planned)
dict_store = record {
  get_job = Dict.get;
  add_job = Dict.put;
  remove_job = Dict.remove;
  get-add = λ i j p s. Dict.get-put i j p s;
  get-remove = λ i j s. Dict.get-remove i j s;
}
