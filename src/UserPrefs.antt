-- ===== src/UserPrefs.antt =====
-- src/app/core/user_prefs.py: each account's language in one file, with the parsed file kept while
-- the file's time and size stay the same. The parsed file is an object that the cache and a caller
-- share, so the objects have addresses. How YAML is read and written is a parameter.
pub mod Coherent
pub mod Stored
pub mod Refused
mod Tests
use papaia_manager.Base.{
  ℕ, suc, ◌+◌, String, Bool, true, false, not, ◌&&◌, ◌||◌, Option, none, some, [], ◌==◌,
  if◌then◌else◌, nat_eq, leb, every,
}
use papaia_manager.Base.Dict
use papaia_manager.Base.Dict.{Dict}
use papaia_manager.Base.Result.{Result, ok, err}
use papaia_manager.Base.Text.{codes, size}

pub data PreferencesError : Type 0 where
  no_usable_id cannot_be_read not_valid cannot_be_written : PreferencesError

pub record AccountPreferences : Type 0 where
  pub locale : Option String

pub record Preferences : Type 0 where
  pub users : Dict AccountPreferences

-- What `stat` and `read_bytes` say of the path: no such file, no access to it, or a file with its
-- time, its size and its bytes, where these can be read.
pub data File (Bytes : Type 0) : Type 0 where
  absent denied : File Bytes
  holds : (mtime bytes : ℕ) → Option Bytes → File Bytes

-- An entry of `_CACHE`: the object is named by its address.
pub record Cached : Type 0 where
  pub mtime : ℕ
  pub bytes : ℕ
  pub parsed : ℕ

pub record State (Bytes : Type 0) : Type 0 where
  pub file : File Bytes
  pub cache : Option Cached
  pub objects : ℕ → Preferences
  pub next : ℕ

-- How a write ends: the new file with its time, or an OSError with the old file in place.
pub data Written : Type 0 where
  replaced : (mtime : ℕ) → Written
  os_error : Written

abbrev max_subject : ℕ
max_subject = 512

abbrev is_control : ℕ → Bool
is_control c = leb c 31 || nat_eq c 127

unfoldable pub valid_subject : String → Bool
valid_subject subject =
    not (subject == "")
    && leb (size subject) max_subject
    && every (λ c. not (is_control c)) (codes subject)

abbrev pub no_preferences : Preferences
no_preferences = record { users = [] }

abbrev pub automatic : AccountPreferences
automatic = record { locale = none }

-- `entry.locale == locale`
abbrev pub locale_eq : Option String → Option String → Bool
locale_eq none none = true
locale_eq (some a) (some b) = a == b
locale_eq _ _ = false

abbrev pub entry_of : Option AccountPreferences → AccountPreferences
entry_of none = automatic
entry_of (some entry) = entry

-- `users.get(subject)`, and its locale
abbrev pub locale_of : String → Preferences → Option String
locale_of subject prefs = (entry_of (Dict.get subject prefs.users)).locale

-- The entry with its new locale, or none where nothing but defaults is left.
unfoldable pub with_locale : String → Option String → Preferences → Preferences
with_locale subject none prefs = record { users = Dict.remove subject prefs.users }
with_locale subject (some locale) prefs = record {
  users = Dict.put subject (record { locale = some locale }) prefs.users;
}

-- The object of the cache, where it is that of this time and size.
abbrev pub hit : ℕ → ℕ → Option Cached → Option ℕ
hit mtime bytes none = none
hit mtime bytes (some cached) =
    if nat_eq cached.mtime mtime && nat_eq cached.bytes bytes then some cached.parsed else none

module _ {Bytes : Type 0} where
  -- A new object.
  abbrev pub alloc : Preferences → State Bytes → State Bytes
  alloc prefs s = record s {
    objects = λ a. if nat_eq a s.next then prefs else s.objects a;
    next = suc s.next;
  }

  -- An object that is changed in place, for everyone who holds it.
  abbrev pub change_object : ℕ → Preferences → State Bytes → State Bytes
  change_object address prefs s = record s {
    objects = λ a. if nat_eq a address then prefs else s.objects a;
  }

  module _ (parse : Bytes → Option Preferences) (dump : Preferences → Bytes)
      (bytes_of : Bytes → ℕ) where
    abbrev pub parsed_of : Option Bytes → Option Preferences
    parsed_of none = none
    parsed_of (some bytes) = parse bytes

    abbrev pub load :
        ℕ → ℕ → Option Preferences → State Bytes → Result PreferencesError ℕ × State Bytes
    load mtime bytes none s = (err not_valid, s)
    load mtime bytes (some prefs) s = (
      ok s.next,
      record (alloc prefs s) {
        cache = some (record { mtime = mtime; bytes = bytes; parsed = s.next });
      },
    )

    unfoldable pub read_file : File Bytes → State Bytes → Result PreferencesError ℕ × State Bytes
    read_file absent s = (ok s.next, alloc no_preferences s)
    read_file denied s = (err cannot_be_read, s)
    read_file (holds mtime bytes content) s = elim (hit mtime bytes s.cache) [
      | some address ↦ (ok address, s)
      | none ↦ load mtime bytes (parsed_of content) s
    ]

    -- `_read`: the address of the parsed file.
    unfoldable pub read : State Bytes → Result PreferencesError ℕ × State Bytes
    read s = read_file s.file s

    -- The part of `stored_locale` that has read the file.
    abbrev pub locale_read :
        String → Result PreferencesError ℕ × State Bytes → Option String × State Bytes
    locale_read subject (ok address, s) = (locale_of subject (s.objects address), s)
    locale_read subject (err problem, s) = (none, s)

    unfoldable pub stored_locale : String → State Bytes → Option String × State Bytes
    stored_locale subject s =
        if valid_subject subject then locale_read subject (read s) else (none, s)

    -- `_save`
    unfoldable pub save :
        Written → Preferences → State Bytes → Result PreferencesError (Unit {0}) × State Bytes
    save (replaced mtime) prefs s = (
      ok tt,
      record s { file = holds mtime (bytes_of (dump prefs)) (some (dump prefs)); cache = none },
    )
    save os_error prefs s = (err cannot_be_written, s)

    -- The part of `set_locale` that has read the file.
    unfoldable pub set_read :
        Written
        → String
        → Option String
        → ℕ
        → State Bytes
        → Result PreferencesError (Unit {0}) × State Bytes
    set_read written subject locale address s =
        let prefs = s.objects address in
        if locale_eq (locale_of subject prefs) locale
        then (ok tt, s)
        else let changed = with_locale subject locale prefs in
          save written changed (change_object address changed s)

    abbrev pub set_after :
        Written
        → String
        → Option String
        → Result PreferencesError ℕ × State Bytes
        → Result PreferencesError (Unit {0}) × State Bytes
    set_after written subject locale (ok address, s) = set_read written subject locale address s
    set_after written subject locale (err problem, s) = (err problem, s)

    unfoldable pub set_locale :
        Written
        → String
        → Option String
        → State Bytes
        → Result PreferencesError (Unit {0}) × State Bytes
    set_locale written subject locale s =
        if valid_subject subject
        then set_after written subject locale (read s)
        else (err no_usable_id, s)
