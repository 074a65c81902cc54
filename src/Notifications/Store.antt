-- ===== src/Notifications/Store.antt =====
-- src/app/core/notifications/store.py: the file of the recipients and settings, changed only by who
-- has seen its revision. `io` is what the file system does while it is written. `sha` is the digest of the bytes; `dump` writes a configuration as YAML and
-- `parse` reads a document's fields, `none` where `safe_load` or the type of a field refuses.
pub mod Distinct
pub mod Checked
pub mod Again
pub mod Revision
pub mod Recipients
mod Tests
use Prim.Native.String.{◌++◌ as text_append}
use papaia_manager.Base.{
  ℕ, String, Bool, true, false, not, Option, none, some, List, [], ◌∷◌, ◌++◌, ◌==◌, if◌then◌else◌,
}
use papaia_manager.Base.Dict
use papaia_manager.Base.Text.{TextOps}
use papaia_manager.Base.Result.{Result, ok, err, ◌>>=◌, map_err}
use papaia_manager.Notifications.Model.{
  Event, Kind, Recipient, EventSettings, NotificationsConfig, find, validate_events,
}
use papaia_manager.Notifications.Validate.{
  UrlParts, Problem, validate_name, validate_target, check_recipient, model_validate,
}
use papaia_manager.Notifications.Decide.{NotifyState}
use papaia_manager.Notifications.Files.{
  ConfigFile, absent, unreadable, present, FileSystem, Files, write_private,
}

-- Why a change is not made: the value is refused, the file is unusable, it is another one than the
-- page showed, writing it raises OSError, or the recipient is not there.
pub data StoreError : Type 0 where
  refused : Problem → StoreError
  config_unreadable stale_revision cannot_be_written : StoreError
  no_recipient : String → StoreError

pub record ConfigLoad : Type 0 where
  pub config : NotificationsConfig
  pub revision : String
  pub has_error : Bool

abbrev pub default_config : NotificationsConfig
default_config = record {
  version = 1;
  settings = record { check_interval_minutes = 5; debounce_minutes = 30; cert_lead_days = 14 };
  recipients = [];
}

abbrev pub header : String
header =
    text_append "# Written by the papAIa manager (Mail > Notifications).\n"
      "# Webhook URLs authorise whoever posts to them: keep this file private (mode 0600).\n"

-- `recipients.remove(recipient)` for the first recipient of an id.
unfoldable pub remove_recipient : String → List Recipient → List Recipient
remove_recipient id [] = []
remove_recipient id (r ∷ rs) = if r.id == id then rs else r ∷ remove_recipient id rs

-- The first recipient of an id, changed.
unfoldable pub change_recipient : String → Recipient → List Recipient → List Recipient
change_recipient id r' [] = []
change_recipient id r' (r ∷ rs) = if r.id == id then r' ∷ rs else r ∷ change_recipient id r' rs

-- What `update_recipient` is given; a field left out stays as it is.
pub record RecipientChange : Type 0 where
  pub name : Option String
  pub target : Option String
  pub enabled : Option Bool
  pub events : Option (List Event)

abbrev pub kept {ℓ} : {A : Type ℓ} → A → Option A → A
kept old none = old
kept old (some new) = new

-- `revision` of src/app/core/vectordb/catalog_io.py
abbrev pub revision_of : (String → String) → String → String
revision_of sha bytes = if bytes == "" then "" else sha bytes

-- `_dump`
abbrev pub file_bytes : (NotificationsConfig → String) → NotificationsConfig → String
file_bytes dump config = text_append header (dump config)

module _ (t : TextOps) (urlsplit : String → Option UrlParts) (is_address : String → Bool)
    (sha : String → String) (dump : NotificationsConfig → String)
    (parse : String → Option NotificationsConfig) where
  abbrev pub checked_load : String → Result Problem NotificationsConfig → ConfigLoad
  checked_load revision (ok checked) = record {
    config = checked;
    revision = revision;
    has_error = false;
  }
  checked_load revision (err _) = record {
    config = default_config;
    revision = revision;
    has_error = true;
  }

  abbrev pub loaded : String → Option NotificationsConfig → ConfigLoad
  loaded revision none = record { config = default_config; revision = revision; has_error = true }
  loaded revision (some config) =
      checked_load revision (model_validate t urlsplit is_address config)

  unfoldable pub load_config : ConfigFile → ConfigLoad
  load_config absent = record { config = default_config; revision = ""; has_error = false }
  load_config unreadable = record { config = default_config; revision = ""; has_error = true }
  load_config (present bytes) = loaded (revision_of sha bytes) (parse bytes)

  abbrev pub written :
      NotificationsConfig → String → Bool × Files → Result StoreError ConfigLoad × ConfigFile
  written checked bytes (true, files) = (
    ok (record { config = checked; revision = revision_of sha bytes; has_error = false }),
    files.path,
  )
  written checked bytes (false, files) = (err cannot_be_written, files.path)

  -- The end of `mutate`: what the check refuses is not written.
  abbrev pub store_checked :
      FileSystem
      → Result StoreError NotificationsConfig
      → ConfigFile
      → Result StoreError ConfigLoad × ConfigFile
  store_checked io (err e) file = (err e, file)
  store_checked io (ok checked) file =
      let bytes = file_bytes dump checked in written checked bytes (write_private io bytes file)

  -- The change, on a copy, and the check of its result.
  abbrev pub checked_change :
      (NotificationsConfig → Result StoreError NotificationsConfig)
      → NotificationsConfig
      → Result StoreError NotificationsConfig
  checked_change change config =
      change config >>= λ draft. map_err refused (model_validate t urlsplit is_address draft)

  abbrev pub mutate_loaded :
      FileSystem
      → ConfigLoad
      → String
      → (NotificationsConfig → Result StoreError NotificationsConfig)
      → ConfigFile
      → Result StoreError ConfigLoad × ConfigFile
  mutate_loaded io current revision change file =
      if current.has_error
      then (err config_unreadable, file)
      else if current.revision == revision
      then store_checked io (checked_change change current.config) file
      else (err stale_revision, file)

  unfoldable pub mutate :
      FileSystem
      → String
      → (NotificationsConfig → Result StoreError NotificationsConfig)
      → ConfigFile
      → Result StoreError ConfigLoad × ConfigFile
  unfolding load_config
  mutate io revision change file = mutate_loaded io (load_config file) revision change file

  -- The new recipient, whose own check comes before the configuration's.
  abbrev pub added : Recipient → NotificationsConfig → Result StoreError NotificationsConfig
  added r config = do
    name ← map_err refused (validate_name t urlsplit is_address r.name)
    target ← map_err refused (validate_target t urlsplit is_address r.kind r.target)
    let new = record r { name = name; target = target; events = validate_events r.events }
    checked ← map_err refused (check_recipient t urlsplit is_address new)
    ok (record config { recipients = config.recipients ++ checked ∷ [] })

  -- `id` is the beginning of a `uuid4`.
  unfoldable pub add_recipient :
      FileSystem → String → Recipient → ConfigFile → Result StoreError ConfigLoad × ConfigFile
  add_recipient io revision r file = mutate io revision (added r) file

  abbrev pub new_name : Recipient → Option String → Result StoreError String
  new_name r none = ok r.name
  new_name r (some name) = map_err refused (validate_name t urlsplit is_address name)

  -- `if target:`, which an empty text does not pass.
  abbrev pub new_target : Recipient → Option String → Result StoreError String
  new_target r none = ok r.target
  new_target r (some target) =
      if target == ""
      then ok r.target
      else map_err refused (validate_target t urlsplit is_address r.kind target)

  abbrev pub new_events : Recipient → Option (List Event) → List Event
  new_events r none = r.events
  new_events r (some events) = validate_events events

  abbrev pub changed :
      String
      → RecipientChange
      → NotificationsConfig
      → Option Recipient
      → Result StoreError NotificationsConfig
  changed recipient_id c config none = err (no_recipient recipient_id)
  changed recipient_id c config (some r) = do
    name ← new_name r c.name
    target ← new_target r c.target
    let new = record r {
      name = name;
      target = target;
      enabled = kept r.enabled c.enabled;
      events = new_events r c.events;
    }
    ok (record config { recipients = change_recipient recipient_id new config.recipients })

  unfoldable pub update_recipient :
      FileSystem
      → String
      → String
      → RecipientChange
      → ConfigFile
      → Result StoreError ConfigLoad × ConfigFile
  update_recipient io revision recipient_id c file =
      mutate io revision (λ config. changed recipient_id c config (find recipient_id config)) file

  abbrev pub removed :
      String → NotificationsConfig → Option Recipient → Result StoreError NotificationsConfig
  removed recipient_id config none = err (no_recipient recipient_id)
  removed recipient_id config (some _) =
      ok (record config { recipients = remove_recipient recipient_id config.recipients })

  -- `forget_recipient`
  abbrev pub forget_recipient : String → NotifyState → NotifyState
  forget_recipient recipient_id state = record state {
    tests = Dict.remove recipient_id state.tests;
  }

  abbrev forget_if_done :
      String
      → Result StoreError ConfigLoad × ConfigFile
      → NotifyState
      → Result StoreError ConfigLoad × ConfigFile × NotifyState
  forget_if_done recipient_id (err e, file) state = (err e, file, state)
  forget_if_done recipient_id (ok load, file) state =
      (ok load, file, forget_recipient recipient_id state)

  unfoldable pub delete_recipient :
      FileSystem
      → String
      → String
      → ConfigFile
      → NotifyState
      → Result StoreError ConfigLoad × ConfigFile × NotifyState
  delete_recipient io revision recipient_id file state =
      forget_if_done recipient_id
        (mutate io revision (λ config. removed recipient_id config (find recipient_id config)) file)
        state

  unfoldable pub save_settings :
      FileSystem → String → EventSettings → ConfigFile → Result StoreError ConfigLoad × ConfigFile
  save_settings io revision settings file =
      mutate io revision (λ config. ok (record config { settings = settings })) file
