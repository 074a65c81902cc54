-- ===== src/UserPrefs/Tests.antt =====
-- Runs of the code of UserPrefs, with the parsed file itself as the bytes.
use papaia_manager.Base.{
  ℕ, String, ◌≡◌, ◌≢◌, refl, Option, none, some, [], ◌∷◌, ◌==◌, if◌then◌else◌,
}
use papaia_manager.Base.Dict
use papaia_manager.UserPrefs.{
  Preferences, holds, State, replaced, os_error, read, read_file, save, set_read, set_locale,
  with_locale, stored_locale, valid_subject, cannot_be_written,
}
use papaia_manager.UserPrefs.Coherent.{Coherent, contents}
use papaia_manager.UserPrefs.Stored.{KeepsChoices, stored_locale-chosen, set_locale-stored_locale}
use papaia_manager.UserPrefs.Refused.{set_locale-refused}

abbrev german : Preferences
german = record { users = ("anna", record { locale = some "de" }) ∷ [] }

abbrev as_is : Preferences → Preferences
as_is p = p

abbrev kept : Preferences → Option Preferences
kept p = some p

abbrev one : Preferences → ℕ
one p = 1

abbrev at_start : State Preferences
at_start = record {
  file = holds 7 1 (some german);
  cache = none;
  objects = λ a. record { users = [] };
  next = 0;
}

at_start-Coherent : Coherent kept as_is one at_start
unfolding Coherent
at_start-Coherent = λ cached c same there. cc same

kept-KeepsChoices : KeepsChoices kept as_is one
kept-KeepsChoices = λ p. (p, refl, λ k. refl)

abbrev after_english : State Preferences
after_english = (set_locale kept as_is one (replaced 9) "bert" (some "en") at_start).1

set_locale-stored_locale_example :
    Coherent kept as_is one after_english
    × ((k : String)
        → (stored_locale kept as_is one k after_english).0
          ≡ (if "bert" == k then some "en" else (stored_locale kept as_is one k at_start).0))
unfolding set_locale read read_file set_read save with_locale valid_subject Dict.get Dict.put
set_locale-stored_locale_example =
    set_locale-stored_locale kept as_is one kept-KeepsChoices (replaced 9) "bert" (some "en")
      at_start after_english at_start-Coherent refl

stored_locale-chosen_example :
    ((stored_locale kept as_is one "anna" at_start).0 ≡ some "de")
    × ((stored_locale kept as_is one "anna" at_start).1.file ≡ holds 7 1 (some german))
    × Coherent kept as_is one (stored_locale kept as_is one "anna" at_start).1
unfolding valid_subject contents Dict.get
stored_locale-chosen_example = stored_locale-chosen kept as_is one "anna" at_start at_start-Coherent

abbrev after_refusal : State Preferences
after_refusal = (set_locale kept as_is one os_error "anna" (some "fr") at_start).1

set_locale-refused_example :
    (after_refusal.file ≡ holds 7 1 (some german))
    × (cannot_be_written ≢ cannot_be_written → after_refusal ≡ at_start)
    × (cannot_be_written ≡ cannot_be_written
        → (mtime bytes : ℕ) (content : Option Preferences)
        → holds 7 1 (some german) ≡ holds mtime bytes content
        → (stored_locale kept as_is one "anna" after_refusal).0 ≡ some "fr")
unfolding set_locale read read_file set_read save with_locale valid_subject Dict.get Dict.put
set_locale-refused_example =
    set_locale-refused kept as_is one os_error "anna" (some "fr") at_start after_refusal
      cannot_be_written refl
