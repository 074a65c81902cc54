-- ===== src/UserPrefs/Coherent.antt =====
-- The cache of src/app/core/user_prefs.py says what the file says, as long as no write fails.
use papaia_manager.Base.{
  ℕ, ◌≡◌, refl, sym, ap, ◌∙◌, subst, Option, none, some, arith, inl, inr, ◌⊎◌, Option-cases,
}
use mathlib.Core.Option.{some-injective}
use papaia_manager.Base.Result.{ok, err}
use papaia_manager.UserPrefs.{
  PreferencesError, not_valid, cannot_be_read, Preferences, File, absent, denied, holds, Cached,
  State, hit, parsed_of, read_file, alloc, no_preferences,
}

hit-found :
    (mtime bytes address : ℕ) (cache : Option Cached)
    → hit mtime bytes cache ≡ some address
    → (cached : Cached) × (cache ≡ some cached)
      × (cached.mtime ≡ mtime)
      × (cached.bytes ≡ bytes)
      × (cached.parsed ≡ address)
hit-found mtime bytes address none found = cc
hit-found mtime bytes address (some cached) found =
    (cached, refl, ground arith, ground arith, ground arith)

module _ {Bytes : Type 0} (parse : Bytes → Option Preferences) (dump : Preferences → Bytes)
    (bytes_of : Bytes → ℕ) where
  -- What the file itself says: nothing where it cannot be read.
  unfoldable pub contents : File Bytes → Option Preferences
  contents absent = some no_preferences
  contents denied = none
  contents (holds mtime bytes content) = parsed_of parse dump bytes_of content

  -- An object that a look at the cache would answer with is what the file says.
  unfoldable pub Coherent : State Bytes → Type 0
  Coherent s =
      (cached : Cached) (content : Option Bytes)
      → s.cache ≡ some cached
      → s.file ≡ holds cached.mtime cached.bytes content
      → contents s.file ≡ some (s.objects cached.parsed)

  -- A read answers what the file says, or that it cannot be used.
  abbrev pub Reads : File Bytes → State Bytes → Type 0
  Reads file s =
      ((contents file ≡ none)
        × (problem : PreferencesError) × (read_file parse dump bytes_of file s ≡ (err problem, s)))
      ⊎ ((address : ℕ) × (after : State Bytes) × (read_file parse dump bytes_of file s
            ≡ (ok address, after))
          × (contents file ≡ some (after.objects address))
          × (after.file ≡ s.file)
          × Coherent after)

  -- The state once the file has been parsed.
  abbrev after_load : ℕ → ℕ → Preferences → State Bytes → State Bytes
  after_load mtime bytes prefs s = record (alloc prefs s) {
    cache = some (record { mtime = mtime; bytes = bytes; parsed = s.next });
  }

  pub read_file_lem :
      (file : File Bytes) (s : State Bytes) → s.file ≡ file → Coherent s → Reads file s
  unfolding read_file contents Coherent
  read_file_lem absent s same h = inr (
    s.next,
    alloc no_preferences s,
    refl,
    ground arith,
    refl,
    λ cached c kept there. cc (sym same ∙ there),
  )
  read_file_lem denied s same h = inl (refl, cannot_be_read, refl)
  read_file_lem (holds mtime bytes content) s same h =
      elim (Option-cases (hit mtime bytes s.cache)) [
        | inl missed ↦ elim (Option-cases (parsed_of parse dump bytes_of content)) [
          | inl bad ↦ inl (bad, not_valid, rw (read_file, missed, bad) refl)
          | inr (prefs, good) ↦ inr (
            s.next,
            after_load mtime bytes prefs s,
            rw (read_file, missed, good) refl,
            good ∙ ground arith,
            refl,
            λ cached c kept there.
                subst
                  (λ (k : Cached).
                    contents s.file ≡ some ((after_load mtime bytes prefs s).objects k.parsed))
                  (some-injective _ _ kept) (ap contents same ∙ good ∙ ground arith),
          )
        ]
        | inr (address, found) ↦
            let (cached, kept, time, length, at) = hit-found mtime bytes address s.cache found in
            let there : s.file ≡ holds cached.mtime cached.bytes content =
              same ∙ rw (time, length) refl in
            inr (
              address,
              s,
              rw (read_file, found) refl,
              sym (ap contents same)
                  ∙ subst (λ a. contents s.file ≡ some (s.objects a)) at
                      (h cached content kept there),
              refl,
              h,
            )
      ]
