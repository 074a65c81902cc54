-- ===== src/Lib.antt =====
-- papaia-manager: the control plane of the papAIa stack, as far as its own decisions go.
--
-- The manager drives `papaia-ctl` and Docker and keeps small files under its configuration
-- directory. What it decides itself stands in app/core; this library models those decisions and
-- takes what other programs do (Keycloak, Docker, the file system, the clock) as arguments.
--
-- Jobs (src/app/core/jobs.py): the single-flight queue. Jobs holds the record of a job, the queue's
-- state and its operations, each from one `await` to the next; Invariant, Order, Active, Drain,
-- Records and Final prove what holds over any sequence of events. Ids (`uuid4`) and times are given
-- by the events; that an id is new is a hypothesis.
-- Semver (src/app/core/semver.py): the parser and the precedence of add-on versions, with Python's
-- Unicode tables as parameters. Order proves that precedence is an order.
-- Notifications (src/app/core/notifications): Model has the events and recipients of model.py,
-- Validate the checks of model.py, Files the file and its replacement by way of a temporary one,
-- and Store the revision-checked changes of store.py (YAML, the digest, urlsplit and which steps of
-- a write raise are parameters); Decide is `decide` of detect.py with its two loops; Pointwise
-- describes it without loops and Quiet proves that nothing is reported twice too soon.
-- Backups, Schedule, BackupRun and Scheduler (src/app/core/backups.py, schedule.py, backup_run.py
-- and scheduler.py): which restore point is the newest good one, what the schedule makes of it (the
-- retention handed to the core, the catch-up, the status; Retention and Missed prove), and when a
-- run starts. The scheduler uses the queue of Jobs, whose events may come between the steps of a
-- firing; APScheduler is the interface Scheduler.Store.JobStore, with the dictionary as one
-- instance. How a cron expression is sampled for the gaps between its runs is a parameter, and so
-- is the reading of a time.
-- Resolve (src/app/core/resolve.py): the grouping of what the catalogs ship by name and version,
-- and which entries are updates, by the precedence of Semver; the scan of a clone is a parameter.
-- Keycloak has what the services see of it (src/app/core/keycloak_users.py) as a record of
-- operations over a state, with the rules on role names that two services share. Roles
-- (src/app/core/roles_service.py): Model and View what is shown, Graph the walk over the
-- composites, Change the operations, each first reading and checking and then writing; Search,
-- Below, Acyclic, Protected and Kept prove, Listed and Others for Kept. Users
-- (src/app/core/users_service.py): Model the form, Account the account, its password and its
-- sessions, RoleSet its roles, View the list; Own, Given and Created prove, Partial and Steps for
-- Created. The walk of Roles runs on fuel, 500 rounds, which its own bound never exceeds.
-- RestoreScope (src/app/core/restore_scope.py, with `selection_flag` of src/app/core/ctl.py and the
-- checks of `start_scoped_restore` in src/app/routers/api_maintenance.py): Model the manifest and
-- the groups, Nodes the artifacts by node, Groups how the groups come about, Choice what a choice
-- of selectors means, Steps the progress read from the log; Guard, Selection and Steps.Latest
-- prove.
-- UserPrefs (src/app/core/user_prefs.py): the file of the accounts' languages, the cache in front
-- of it and the objects that both share, by address; Coherent and Stored prove what holds while
-- writes succeed, Refused what a failed one leaves.
-- Tiles (src/app/core/tiles.py): Resolve the placeholders and what a link must be, Show what a
-- caller sees, Check the check of a draft, Ids the ids of widgets; Safe, Survive, Ids.Found,
-- Ids.Unique and Ids.Addressed prove. The search for a free id runs on fuel, one more than the ids
-- that are taken.
-- Base holds what they share: tests on numbers, lists, Python's dict as a list of pairs in the
-- order of first insertion, and three-way comparisons.
--
-- Times are counts of microseconds. All other loops are structural. Text that is only shown
-- (messages, translations, log lines of the server) is left out, and so are the other routers,
-- templates and the code that only calls other programs.
pub mod Base
pub mod Jobs
pub mod Keycloak
pub mod Roles
pub mod Users
pub mod RestoreScope
pub mod UserPrefs
pub mod Tiles
pub mod Semver
pub mod Notifications
pub mod BackupRun
pub mod Backups
pub mod Schedule
pub mod Scheduler
pub mod Resolve
