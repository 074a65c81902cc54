-- ===== src/UserPrefs/Refused.antt =====
-- What is left when `set_locale` of src/app/core/user_prefs.py raises its exception.
use papaia_manager.Base.{
  ℕ, String, ◌≡◌, ◌≢◌, refl, sym, ap, ◌∙◌, subst, true, Option, none, some, eq_iff, nat_eq, arith,
  inl, inr, Bool-cases, Option-cases,
}
use papaia_manager.Base.Result.{Result, ok, err}
use papaia_manager.UserPrefs.{
  PreferencesError, Preferences, File, absent, denied, holds, State, Written, replaced, os_error,
  read, read_file, save, set_read, set_after, set_locale, with_locale, locale_eq, locale_of, hit,
  parsed_of, load, stored_locale, valid_subject, change_object, cannot_be_written,
}
use papaia_manager.UserPrefs.Stored.{locale_of-with_locale}

module _ {Bytes : Type 0} (parse : Bytes → Option Preferences) (dump : Preferences → Bytes)
    (bytes_of : Bytes → ℕ) where
  -- What a look at the path leaves: an error and the state as it was, or an object that the next
  -- look at a file of this time and size answers with.
  abbrev KeptBy : File Bytes → State Bytes → Result PreferencesError ℕ × State Bytes → Type 0
  KeptBy file s (err problem, after) = (after ≡ s) × (problem ≢ cannot_be_written)
  KeptBy file s (ok address, after) =
      (after.file ≡ s.file)
      × ((mtime bytes : ℕ) (content : Option Bytes)
          → file ≡ holds mtime bytes content
          → hit mtime bytes after.cache ≡ some address)

  load-KeptBy :
      (mtime bytes : ℕ) (content : Option Bytes) (found : Option Preferences) (s : State Bytes)
      → KeptBy (holds mtime bytes content) s (load parse dump bytes_of mtime bytes found s)
  load-KeptBy mtime bytes content none s = (refl, λ e. cc e)
  load-KeptBy mtime bytes content (some prefs) s = (
    refl,
    λ m b c same. let h : mtime ≡ m = cc same in let k : bytes ≡ b = cc same in ground arith,
  )

  read_file-KeptBy :
      (file : File Bytes) (s : State Bytes) → KeptBy file s (read_file parse dump bytes_of file s)
  unfolding read_file
  read_file-KeptBy absent s = (refl, λ m b c same. cc same)
  read_file-KeptBy denied s = (refl, λ e. cc e)
  read_file-KeptBy (holds mtime bytes content) s = elim (Option-cases (hit mtime bytes s.cache)) [
    | inl missed ↦
        rw (read_file, missed)
          (load-KeptBy mtime bytes content (parsed_of parse dump bytes_of content) s)
    | inr (found, there) ↦
        rw (read_file, there)
          (
            refl,
            λ m b c same.
                let h : mtime ≡ m = cc same in let k : bytes ≡ b = cc same in rw (← h, ← k) there,
          )
  ]

  stored-changed :
      (subject : String) (locale : Option String) (mtime bytes address : ℕ) (content : Option Bytes)
      (p : Preferences) (s : State Bytes)
      → valid_subject subject ≡ true
      → s.file ≡ holds mtime bytes content
      → hit mtime bytes s.cache ≡ some address
      → (stored_locale parse dump bytes_of subject
          (change_object address (with_locale subject locale p) s)).0
        ≡ locale
  unfolding stored_locale read read_file
  stored-changed subject locale mtime bytes address content p s valid file kept =
      let found : nat_eq address address ≡ true = ground arith in
      rw (valid, file, read_file, kept, found)
        (locale_of-with_locale subject subject locale p ∙ rw ((eq_iff subject subject).1 refl) refl)

  -- What is left when `set_locale` raises: the file as it was, and the rest too, unless it was the
  -- write that failed. Then the object of the cache stays changed.
  abbrev Leaves : String → Option String → State Bytes → PreferencesError → State Bytes → Type 0
  Leaves subject locale s problem after =
      (after.file ≡ s.file)
      × (problem ≢ cannot_be_written → after ≡ s)
      × (problem ≡ cannot_be_written
          → (mtime bytes : ℕ) (content : Option Bytes) → s.file ≡ holds mtime bytes content
          → (stored_locale parse dump bytes_of subject after).0 ≡ locale)

  same_state :
      (subject : String) (locale : Option String) (s : State Bytes) (problem : PreferencesError)
      → problem ≢ cannot_be_written
      → Leaves subject locale s problem s
  same_state subject locale s problem other = (refl, λ h. refl, λ h m b c there. absurd (other h))

  save-err :
      (written : Written) (p : Preferences) (s after : State Bytes) (problem : PreferencesError)
      → save parse dump bytes_of written p s ≡ (err problem, after)
      → (problem ≡ cannot_be_written) × (after ≡ s)
  unfolding save
  save-err os_error p s after problem returned =
      let raised : err cannot_be_written ≡ err problem = ap (λ r. r.0) returned in
      (sym (cc raised), sym (ap (λ r. r.1) returned))
  save-err (replaced mtime) p s after problem returned =
      let raised : ok tt ≡ err problem = ap (λ r. r.0) returned in cc raised

  set_read-err :
      (written : Written) (subject : String) (locale : Option String) (address : ℕ)
      (s after : State Bytes) (problem : PreferencesError)
      → set_read parse dump bytes_of written subject locale address s ≡ (err problem, after)
      → (problem ≡ cannot_be_written)
        × (after ≡ change_object address (with_locale subject locale (s.objects address)) s)
  unfolding set_read
  set_read-err written subject locale address s after problem returned =
      elim (Bool-cases (locale_eq (locale_of subject (s.objects address)) locale)) [
        | inl same ↦
            let raised : ok tt ≡ err problem = ap (λ r. r.0) (rw same at returned) in cc raised
        | inr other ↦
            save-err written (with_locale subject locale (s.objects address)) _ after problem
              (rw other at returned)
      ]

  err-injective :
      {a b : PreferencesError} {s after : State Bytes}
      → ◌≡◌ {A = Result PreferencesError (Unit {0}) × State Bytes} (err a, s) (err b, after)
      → (a ≡ b) × (s ≡ after)
  err-injective h =
      let raised : ◌≡◌ {A = Result PreferencesError (Unit {0})} (err _) (err _) = ap (λ r. r.0) h in
      (cc raised, ap (λ r. r.1) h)

  read-refused :
      (written : Written) (subject : String) (locale : Option String) (s after : State Bytes)
      (problem : PreferencesError)
      → valid_subject subject ≡ true
      → (read_s : Result PreferencesError ℕ × State Bytes) → KeptBy s.file s read_s
      → set_after parse dump bytes_of written subject locale read_s ≡ (err problem, after)
      → Leaves subject locale s problem after
  read-refused written subject locale s after problem valid (err other, x) (same, kind) returned =
      let raised : other ≡ problem = cc (ap (λ r. r.0) returned) in
      subst (Leaves subject locale s problem) (sym same ∙ ap (λ r. r.1) returned)
        (same_state subject locale s problem (λ h. kind (raised ∙ h)))
  read-refused written subject locale s after problem valid (ok address, x) (same, kept) returned =
      let (failed, left) = set_read-err written subject locale address x after problem returned in
      (
        ap (λ r. r.file) left ∙ same,
        λ other. absurd (other failed),
        λ h m b c there. rw left (
            stored-changed subject locale m b address c (x.objects address) x valid (same ∙ there)
              (kept m b c there)),
      )

  -- When `set_locale` raises an exception, the file is as it was. When the exception is not that of
  -- the write, the whole state is as it was. When it is that of the write and there was a file, the
  -- account's language is from then on the one that was not stored.
  pub set_locale-refused :
      (written : Written) (subject : String) (locale : Option String) (s after : State Bytes)
      (problem : PreferencesError)
      → set_locale parse dump bytes_of written subject locale s ≡ (err problem, after)
      → (after.file ≡ s.file)
        × (problem ≢ cannot_be_written → after ≡ s)
        × (problem ≡ cannot_be_written
            → (mtime bytes : ℕ) (content : Option Bytes) → s.file ≡ holds mtime bytes content
            → (stored_locale parse dump bytes_of subject after).0 ≡ locale)
  unfolding set_locale read
  set_locale-refused written subject locale s after problem returned =
      elim (Bool-cases (valid_subject subject)) [
        | inr e ↦
            let (same, left) = err-injective (rw e at returned) in
            subst (Leaves subject locale s problem) left
              (same_state subject locale s problem (λ h. cc (same ∙ h)))
        | inl e ↦
            read-refused written subject locale s after problem e
              (read_file parse dump bytes_of s.file s) (read_file-KeptBy s.file s)
              (rw e at returned)
      ]
