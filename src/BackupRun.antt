-- ===== src/BackupRun.antt =====
-- src/app/core/backup_run.py: how a backup is started, by the button or the schedule.
use Prim.Native.String.{◌++◌ as text_append}
use papaia_manager.Base.{
  ℕ, String, Bool, Option, none, some, List, [], ◌∷◌, ◌++◌, ◌==◌, if◌then◌else◌,
}
use papaia_manager.Base.Dict.{Dict}
use papaia_manager.Schedule.{Skipped}
use papaia_manager.Jobs.{JobQueue, Job, Request, enqueue}

pub record RunnerStatus : Type 0 where
  pub is_running : Bool
  pub target : String

-- What `find_runner` does: it raises, or finds a runner or none.
pub data Lookup : Type 0 where
  runner_error : Lookup
  found : Option RunnerStatus → Lookup

pub record BlockingRunner : Type 0 where
  pub label : String
  pub target : String

abbrev if_running : String → Option RunnerStatus → Option BlockingRunner → Option BlockingRunner
if_running label none rest = rest
if_running label (some runner) rest =
    if runner.is_running then some (record { label = label; target = runner.target }) else rest

-- The restore runner is looked up first; Docker that is not reachable blocks nothing.
unfoldable pub blocking_runner : Lookup → Lookup → Option BlockingRunner
blocking_runner (found restore) (found upgrade) =
    if_running "restore" restore (if_running "upgrade" upgrade none)
blocking_runner _ _ = none

-- `manual` and the other triggers.
pub data Trigger : Type 0 where
  manual schedule : Trigger

-- What the callback of a backup closes over.
pub record BackupCallback : Type 0 where
  pub flags : List String
  pub trigger : Trigger
  pub note : Option Skipped
  pub user : String
  pub target : String
  pub params : Dict String

-- `show` writes a number in decimals.
module _ (show : ℕ → String) where
  abbrev retention_flag : Option ℕ → List String
  retention_flag none = []
  retention_flag (some days) = text_append "--retention-period-days=" (show days) ∷ []

  unfoldable pub backup_flags : String → Option ℕ → List String
  backup_flags backup_dir retention_days =
      text_append "--backup-dir=" backup_dir ∷ retention_flag retention_days

  abbrev node_flag : Option String → List String
  node_flag none = []
  node_flag (some node) = if node == "" then [] else text_append "--only=node:" node ∷ []

  abbrev retention_param : Option ℕ → String
  retention_param none = "None"
  retention_param (some days) = show days

  abbrev trigger_param : Trigger → Dict String
  trigger_param manual = []
  trigger_param schedule = ("trigger", "schedule") ∷ []

  abbrev node_param : Option String → Dict String
  node_param none = []
  node_param (some node) = if node == "" then [] else ("node", node) ∷ []

  unfoldable pub enqueue_backup :
      {C : Type 0} (callback_of : BackupCallback → C) (id : String) (now : ℕ)
      (backup_dir user : String) (retention_days : Option ℕ) (trigger : Trigger)
      (note : Option Skipped) (node : Option String)
      → JobQueue C
      → JobQueue C × Job
  unfolding backup_flags
  enqueue_backup callback_of id now backup_dir user retention_days trigger note node q =
      let retention : String × String = ("retention_days", retention_param retention_days) in
      let callback : BackupCallback = record {
        flags = backup_flags backup_dir retention_days ++ node_flag node;
        trigger = trigger;
        note = note;
        user = user;
        target = backup_dir;
        params = (retention ∷ trigger_param trigger) ++ node_param node;
      } in
      let request : Request = record {
        id = id;
        now = now;
        action = "backup";
        target = backup_dir;
        user = user;
        params = some (retention ∷ node_param node);
      } in
      enqueue request (callback_of callback) q
