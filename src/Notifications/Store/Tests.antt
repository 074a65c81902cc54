-- ===== src/Notifications/Store/Tests.antt =====
-- A configuration file with one recipient, and the theorems of Store on it.
use papaia_manager.Base.{
  String, ◌≡◌, refl, ap, Bool, true, false, Option, none, some, [], ◌∷◌, ◌==◌, eq_iff,
  if◌then◌else◌, arith, nat_eq, any,
}
use papaia_manager.Base.Text.{TextOps, codes}
use papaia_manager.Base.Result.{Result, ok, err}
use papaia_manager.Notifications.Model.{
  Recipient, NotificationsConfig, email, job_failed, cert_expiring, find, validate_events,
}
use papaia_manager.Notifications.Validate.{UrlParts, model_validate}
use papaia_manager.Notifications.Decide.{NotifyState}
use papaia_manager.Notifications.Store.{
  ConfigLoad, StoreError, cannot_be_written, stale_revision, default_config, file_bytes, mutate,
  load_config, added, delete_recipient, remove_recipient,
}
use papaia_manager.Notifications.Files.{
  ConfigFile, absent, present, FileSystem, write_data, write_private, fill_and_replace,
}
use papaia_manager.Notifications.Store.Checked.{IsValidConfig}
use papaia_manager.Notifications.Store.Revision.{mutate-error, mutate-load, mutate-stale, load_of}
use papaia_manager.Notifications.Store.Recipients.{load_config-IsValidConfig}

abbrev plain : TextOps
plain = record {
  strip = λ s. s;
  squeeze = λ s. s;
  lower = λ s. s;
  casefold = λ s. s;
  is_space = λ c. nat_eq c b' ';
}

abbrev urlsplit : String → Option UrlParts
urlsplit url = none

abbrev is_address : String → Bool
is_address a = any (λ c. nat_eq c b'@') (codes a)

abbrev ops : Recipient
ops = record {
  id = "a1b2c3d4";
  name = "Ops";
  kind = email;
  target = "ops@example.org";
  enabled = true;
  events = cert_expiring ∷ job_failed ∷ [];
}

abbrev ordered_ops : Recipient
ordered_ops = record ops { events = job_failed ∷ cert_expiring ∷ [] }

abbrev one : NotificationsConfig
one = record default_config { recipients = ordered_ops ∷ [] }

-- Two documents: with the recipient, and without.
abbrev dump : NotificationsConfig → String
dump c = elim c.recipients [ [] ↦ "none" | _ ↦ "one" ]

abbrev sha : String → String
sha bytes = if bytes == file_bytes dump one then "d1" else "d0"

abbrev parse : String → Option NotificationsConfig
parse bytes = if bytes == file_bytes dump one then some one else some default_config

abbrev change : NotificationsConfig → Result StoreError NotificationsConfig
change = added plain urlsplit is_address sha dump parse ops

abbrev nameless : NotificationsConfig → Result StoreError NotificationsConfig
nameless = added plain urlsplit is_address sha dump parse (record ops { name = "" })

-- Every step is done.
abbrev sound : FileSystem
sound = record { raises = λ step. false; left_over = none; part = "" }

-- The data does not fit.
abbrev full_disk : FileSystem
full_disk = record {
  raises = λ step. elim step [ write_data ↦ true | _ ↦ false ];
  left_over = some "old";
  part = "# Wri";
}

abbrev stored : Result StoreError ConfigLoad × ConfigFile
stored = mutate plain urlsplit is_address sha dump parse sound "" change absent

stores :
    stored
    ≡ (ok (load_of plain urlsplit is_address sha dump parse one), present (file_bytes dump one))
unfolding mutate load_config model_validate validate_events write_private fill_and_replace
stores = refl

cannot :
    (mutate plain urlsplit is_address sha dump parse full_disk "" change absent).0
    ≡ err cannot_be_written
unfolding mutate load_config model_validate validate_events write_private fill_and_replace
cannot = refl

mutate-error_example :
    (mutate plain urlsplit is_address sha dump parse full_disk "" change absent).1 ≡ absent
mutate-error_example =
    mutate-error plain urlsplit is_address sha dump parse full_disk "" change absent
      cannot_be_written cannot

abbrev load : ConfigLoad
load = load_of plain urlsplit is_address sha dump parse one

first_stores : stored.0 ≡ ok load
first_stores = ap (λ s. s.0) stores

mutate-load_example :
    (load_config plain urlsplit is_address sha dump parse stored.1 ≡ load)
    × IsValidConfig plain urlsplit is_address one
mutate-load_example =
    mutate-load plain urlsplit is_address sha dump parse (λ s. refl) (λ s. refl) sound "" change
      absent load first_stores refl

mutate-stale_example :
    mutate plain urlsplit is_address sha dump parse full_disk "" nameless stored.1
    ≡ (err stale_revision, stored.1)
mutate-stale_example =
    mutate-stale plain urlsplit is_address sha dump parse (λ s. refl) (λ s. refl) sound full_disk ""
      change nameless absent load first_stores refl (λ e. ground (arith, eq_iff "d1" ""))

load_config-IsValidConfig_example :
    IsValidConfig plain urlsplit is_address
      (load_config plain urlsplit is_address sha dump parse (present (file_bytes dump one))).config
load_config-IsValidConfig_example =
    load_config-IsValidConfig plain urlsplit is_address sha dump parse
      (present (file_bytes dump one))

abbrev remembered : NotifyState
remembered = record {
  seen = [];
  tests = ("a1b2c3d4", record { tested_at = "t"; ok = true; reason = "" }) ∷ [];
  up = [];
}

abbrev empty_load : ConfigLoad
empty_load = load_of plain urlsplit is_address sha dump parse default_config

deletes :
    (delete_recipient plain urlsplit is_address sha dump parse sound "d1" "a1b2c3d4"
      (present (file_bytes dump one))
      remembered).0
    ≡ ok empty_load
unfolding delete_recipient mutate load_config model_validate validate_events find remove_recipient
    write_private fill_and_replace
deletes = refl
