-- ===== src/UserPrefs/Stored.antt =====
-- What `stored_locale` answers, and what a successful `set_locale` makes of it:
-- src/app/core/user_prefs.py.
use papaia_manager.Base.{
  ℕ, String, ◌≡◌, refl, ap, ◌∙◌, subst, true, Option, none, some, ◌==◌, eq_iff, if◌then◌else◌, inl,
  inr, Bool-cases,
}
use papaia_manager.Base.Dict
use papaia_manager.Base.Result.{ok, err}
use papaia_manager.UserPrefs.{
  Preferences, File, State, Written, replaced, os_error, read, save, set_read, set_locale,
  with_locale, locale_eq, locale_of, stored_locale, valid_subject, change_object, cannot_be_written,
  no_usable_id,
}
use papaia_manager.UserPrefs.Coherent.{contents, Coherent, read_file_lem}

locale_eq-eq : (a b : Option String) → locale_eq a b ≡ true → a ≡ b
locale_eq-eq none none h = refl
locale_eq-eq none (some b) h = cc
locale_eq-eq (some a) none h = cc
locale_eq-eq (some a) (some b) h = ap some ((eq_iff a b).0 h)

pub locale_of-with_locale :
    (subject k : String) (locale : Option String) (p : Preferences)
    → locale_of k (with_locale subject locale p) ≡ (if subject == k then locale else locale_of k p)
unfolding with_locale
locale_of-with_locale subject k none p =
    rw (locale_of, Dict.get-remove subject k p.users)
      (elim (Bool-cases (subject == k)) [ inl e ↦ rw e refl | inr e ↦ rw e refl ])
locale_of-with_locale subject k (some l) p =
    rw (locale_of, Dict.get-put subject k (record { locale = some l }) p.users)
      (elim (Bool-cases (subject == k)) [ inl e ↦ rw e refl | inr e ↦ rw e refl ])

module _ {Bytes : Type 0} (parse : Bytes → Option Preferences) (dump : Preferences → Bytes)
    (bytes_of : Bytes → ℕ) where
  -- The choice that a readable file holds.
  abbrev locale_in : String → Option Preferences → Option String
  locale_in k none = none
  locale_in k (some p) = locale_of k p

  -- An account's choice as the file alone says it.
  abbrev pub chosen : String → File Bytes → Option String
  chosen k file = if valid_subject k then locale_in k (contents parse dump bytes_of file) else none

  -- As long as the cache says what the file says, `stored_locale` answers what the file says, for
  -- every account, changes no file and leaves the cache in that state.
  pub stored_locale-chosen :
      (k : String) (s : State Bytes)
      → Coherent parse dump bytes_of s
      → ((stored_locale parse dump bytes_of k s).0 ≡ chosen k s.file)
        × ((stored_locale parse dump bytes_of k s).1.file ≡ s.file)
        × Coherent parse dump bytes_of (stored_locale parse dump bytes_of k s).1
  unfolding stored_locale read
  stored_locale-chosen k s h = elim (Bool-cases (valid_subject k)) [
    | inr e ↦ rw e (refl, refl, h)
    | inl e ↦ elim (read_file_lem parse dump bytes_of s.file s refl h) [
      | inl (bad, problem, answer) ↦ rw (e, answer, bad) (refl, refl, h)
      | inr (address, after, answer, good, kept, coherent) ↦
          rw (e, answer, good) (refl, kept, coherent)
    ]
  ]

  -- What YAML keeps: what is written can be read again, with the same choice for every account.
  abbrev pub KeepsChoices : Type 0
  KeepsChoices =
      (p : Preferences)
      → (q : Preferences) × (parse (dump p) ≡ some q)
        × ((k : String) → locale_of k q ≡ locale_of k p)

  save-stored :
      (written : Written) (p : Preferences) (s after : State Bytes)
      → save parse dump bytes_of written p s ≡ (ok tt, after)
      → Coherent parse dump bytes_of after
        × (contents parse dump bytes_of after.file ≡ parse (dump p))
  unfolding save contents Coherent
  save-stored os_error p s after returned =
      let raised : err cannot_be_written ≡ ok tt = ap (λ r. r.0) returned in cc raised
  save-stored (replaced mtime) p s after returned =
      subst
        (λ x.
          Coherent parse dump bytes_of x × (contents parse dump bytes_of x.file ≡ parse (dump p)))
        (ap (λ r. r.1) returned) ((λ cached c same there. cc same), refl)

  -- The choice of an account that is written and read again.
  chosen-changed :
      KeepsChoices
      → (subject k : String) (locale : Option String) (p : Preferences) (file new : File Bytes)
      → valid_subject subject ≡ true
      → contents parse dump bytes_of file ≡ some p
      → contents parse dump bytes_of new ≡ parse (dump (with_locale subject locale p))
      → chosen k new ≡ (if subject == k then locale else chosen k file)
  chosen-changed keeps subject k locale p file new valid good stored =
      let (q, parsed, same) = keeps (with_locale subject locale p) in
      let now = same k ∙ locale_of-with_locale subject k locale p in
      rw (good, stored, parsed, now)
        (elim (Bool-cases (subject == k)) [
          | inl e ↦ rw (e, ← (eq_iff subject k).0 e, valid) refl
          | inr e ↦ rw e refl
        ])

  chosen-unchanged :
      (subject k : String) (locale : Option String) (p : Preferences) (file : File Bytes)
      → valid_subject subject ≡ true
      → contents parse dump bytes_of file ≡ some p
      → locale_of subject p ≡ locale
      → chosen k file ≡ (if subject == k then locale else chosen k file)
  chosen-unchanged subject k locale p file valid good already =
      rw good (elim (Bool-cases (subject == k)) [
        | inl e ↦ rw (e, ← (eq_iff subject k).0 e, valid) already
        | inr e ↦ rw e refl
      ])

  -- A choice is stored: the cache and the file agree, and the file has the new choice of this
  -- account and the old one of every other.
  abbrev pub IsStored : String → Option String → File Bytes → State Bytes → Type 0
  IsStored subject locale before after =
      Coherent parse dump bytes_of after
      × ((k : String) → chosen k after.file ≡ (if subject == k then locale else chosen k before))

  set_read-IsStored :
      KeepsChoices
      → (written : Written) (subject : String) (locale : Option String) (address : ℕ)
        (s after : State Bytes)
      → valid_subject subject ≡ true
      → contents parse dump bytes_of s.file ≡ some (s.objects address)
      → Coherent parse dump bytes_of s
      → set_read parse dump bytes_of written subject locale address s ≡ (ok tt, after)
      → IsStored subject locale s.file after
  unfolding set_read
  set_read-IsStored keeps written subject locale address s after valid good h returned =
      let p = s.objects address in
      elim (Bool-cases (locale_eq (locale_of subject p) locale)) [
        | inl same ↦
            let already = locale_eq-eq (locale_of subject p) locale same in
            subst (IsStored subject locale s.file) (ap (λ r. r.1) (rw same at returned))
              (h, λ k. chosen-unchanged subject k locale p s.file valid good already)
        | inr other ↦
            let changed = with_locale subject locale p in
            let (coherent, stored) =
              save-stored written changed (change_object address changed s) after
                (rw other at returned) in
            (
              coherent,
              λ k. chosen-changed keeps subject k locale p s.file after.file valid good stored,
            )
      ]

  set_locale-IsStored :
      KeepsChoices
      → (written : Written) (subject : String) (locale : Option String) (s after : State Bytes)
      → Coherent parse dump bytes_of s
      → set_locale parse dump bytes_of written subject locale s ≡ (ok tt, after)
      → IsStored subject locale s.file after
  unfolding set_locale read
  set_locale-IsStored keeps written subject locale s after h returned =
      elim (Bool-cases (valid_subject subject)) [
        | inr e ↦
            let raised : err no_usable_id ≡ ok tt = ap (λ r. r.0) (rw e at returned) in cc raised
        | inl e ↦ elim (read_file_lem parse dump bytes_of s.file s refl h) [
          | inl (bad, problem, answer) ↦
              let raised : err problem ≡ ok tt = ap (λ r. r.0) (rw (e, answer) at returned) in
              cc raised
          | inr (address, loaded, answer, good, kept, coherent) ↦
              subst (λ f. IsStored subject locale f after) kept
                (set_read-IsStored keeps written subject locale address loaded after e
                  (ap (contents parse dump bytes_of) kept ∙ good) coherent
                  (rw (e, answer) at returned))
        ]
      ]

  -- When YAML gives back what it is given, the cache agrees with the file and a choice is stored,
  -- then the account's language is that choice, every other account's is what it was, and the cache
  -- agrees with the file again.
  pub set_locale-stored_locale :
      KeepsChoices
      → (written : Written) (subject : String) (locale : Option String) (s after : State Bytes)
      → Coherent parse dump bytes_of s
      → set_locale parse dump bytes_of written subject locale s ≡ (ok tt, after)
      → Coherent parse dump bytes_of after
        × ((k : String)
            → (stored_locale parse dump bytes_of k after).0
              ≡ (if subject == k then locale else (stored_locale parse dump bytes_of k s).0))
  set_locale-stored_locale keeps written subject locale s after h returned =
      let (coherent, stored) =
        set_locale-IsStored keeps written subject locale s after h returned in
      (
        coherent,
        λ k.
            (stored_locale-chosen k after coherent).0
            ∙ rw ((stored_locale-chosen k s h).0) (stored k),
      )
