-- ===== src/Notifications/Store/Revision.antt =====
-- A change of src/app/core/notifications/store.py is stored whole or not at all, and only by who has
-- seen the file as it is.
use papaia_manager.Base.{
  String, ◌≡◌, ◌≢◌, refl, sym, ap, ◌∙◌, subst, Bool, true, false, Option, some, ◌==◌, eq_iff,
  if◌then◌else◌, arith,
}
use papaia_manager.Base.Text.{TextOps}
use papaia_manager.Base.Result.{Result, ok, err, >>=-returns, map_err}
use papaia_manager.Notifications.Model.{NotificationsConfig}
use papaia_manager.Notifications.Validate.{UrlParts, Problem, model_validate}
use papaia_manager.Notifications.Store.{
  StoreError, refused, config_unreadable, stale_revision, ConfigLoad, revision_of, checked_load,
  loaded, load_config, file_bytes, written, store_checked, checked_change, mutate_loaded, mutate,
}
use papaia_manager.Notifications.Files.{
  ConfigFile, present, FileSystem, Files, write_private, left_at_path, write_private-path,
}
use papaia_manager.Notifications.Store.Checked.{IsValidConfig, model_validate-IsValidConfig}
use papaia_manager.Notifications.Store.Again.{model_validate-again}

both_false :
    {A : Type 0} (b c : Bool) (x y z : A)
    → b ≡ false
    → c ≡ false
    → (if b then x else (if c then y else z)) ≡ z
both_false b c x y z e f = rw (e, f) refl

module _ (t : TextOps) (urlsplit : String → Option UrlParts) (is_address : String → Bool)
    (sha : String → String) (dump : NotificationsConfig → String)
    (parse : String → Option NotificationsConfig) where
  abbrev Change : Type 0
  Change = NotificationsConfig → Result StoreError NotificationsConfig

  abbrev Stored : Type 0
  Stored = Result StoreError ConfigLoad × ConfigFile

  abbrev pub mutate_in : FileSystem → String → Change → ConfigFile → Stored
  mutate_in = mutate t urlsplit is_address sha dump parse

  abbrev pub load_in : ConfigFile → ConfigLoad
  load_in = load_config t urlsplit is_address sha dump parse

  abbrev pub load_of : NotificationsConfig → ConfigLoad
  load_of c = record {
    config = c;
    revision = revision_of sha (file_bytes dump c);
    has_error = false;
  }

  -- The outcome of a change: an error leaves the file, a success has written a checked
  -- configuration and returned its load.
  abbrev pub Outcome : Change → ConfigFile → Stored → Type 0
  Outcome change file (err e, file') = file' ≡ file
  Outcome change file (ok load, file') =
      (c : NotificationsConfig) × (draft : NotificationsConfig) × (change (load_in file).config
        ≡ ok draft)
      × (model_validate t urlsplit is_address draft ≡ ok c)
      × (load ≡ load_of c)
      × (file' ≡ present (file_bytes dump c))

  map_err-eq-ok :
      (m : Result Problem NotificationsConfig) (c : NotificationsConfig)
      → map_err refused m ≡ ok c
      → m ≡ ok c
  map_err-eq-ok (ok x) c h = let same : x ≡ c = cc h in ap ok same
  map_err-eq-ok (err e) c h = cc

  written-Outcome :
      (change : Change) (file : ConfigFile) (c draft : NotificationsConfig)
      → change (load_in file).config ≡ ok draft
      → model_validate t urlsplit is_address draft ≡ ok c
      → (answer : Bool × Files) → answer.1.path ≡ left_at_path answer.0 (file_bytes dump c) file
      → Outcome change file
          (written t urlsplit is_address sha dump parse c (file_bytes dump c) answer)
  written-Outcome change file c draft drafted checked (true, files) h =
      (c, draft, drafted, checked, refl, h)
  written-Outcome change file c draft drafted checked (false, files) h = h

  store_checked-Outcome :
      (io : FileSystem) (change : Change) (file : ConfigFile)
      (r : Result StoreError NotificationsConfig)
      → checked_change t urlsplit is_address sha dump parse change (load_in file).config ≡ r
      → Outcome change file (store_checked t urlsplit is_address sha dump parse io r file)
  store_checked-Outcome io change file (err e) h = refl
  store_checked-Outcome io change file (ok c) h =
      let (draft, drafted, checked) = >>=-returns (change (load_in file).config) _ h in
      let bytes = file_bytes dump c in
      written-Outcome change file c draft drafted
        (map_err-eq-ok (model_validate t urlsplit is_address draft) c checked)
        (write_private io bytes file) (write_private-path io bytes file)

  pub mutate-Outcome :
      (io : FileSystem) (revision : String) (change : Change) (file : ConfigFile)
      → Outcome change file (mutate_in io revision change file)
  unfolding mutate
  mutate-Outcome io revision change file =
      let current = load_in file in
      go
        (store_checked t urlsplit is_address sha dump parse io
          (checked_change t urlsplit is_address sha dump parse change current.config) file)
        current.has_error (current.revision == revision)
        (store_checked-Outcome io change file
          (checked_change t urlsplit is_address sha dump parse change current.config) refl)
    where
      go :
          (stored : Stored) (b c : Bool)
          → Outcome change file stored
          → Outcome change file (
              if b
              then (err config_unreadable, file)
              else (if c then stored else (err stale_revision, file)))
      go stored true c o = refl
      go stored false true o = o
      go stored false false o = refl

  -- For every change, file, revision and file system: where `mutate` fails, because of the file, the
  -- revision or the change, or because a step of writing the file raises, the file is as it was.
  pub mutate-error :
      (io : FileSystem) (revision : String) (change : Change) (file : ConfigFile) (e : StoreError)
      → (mutate_in io revision change file).0 ≡ err e
      → (mutate_in io revision change file).1 ≡ file
  mutate-error io revision change file e h =
      error_of (mutate_in io revision change file) (mutate-Outcome io revision change file) h
    where
      error_of : (s : Stored) → Outcome change file s → s.0 ≡ err e → s.1 ≡ file
      error_of (err e', f) o k = o
      error_of (ok load, f) o k = cc

  module _ (squeeze_idem : (s : String) → t.squeeze (t.squeeze s) ≡ t.squeeze s)
      (strip_idem : (s : String) → t.strip (t.strip s) ≡ t.strip s) where
    -- The document of a configuration parses to its fields.
    abbrev pub ReadsBack : NotificationsConfig → Type 0
    ReadsBack c = parse (file_bytes dump c) ≡ some c

    -- What a change has written is read back.
    reload :
        (c draft : NotificationsConfig)
        → ReadsBack c
        → model_validate t urlsplit is_address draft ≡ ok c
        → load_in (present (file_bytes dump c)) ≡ load_of c
    unfolding load_config
    reload c draft back h =
        let rev = revision_of sha (file_bytes dump c) in
        ap (loaded t urlsplit is_address sha dump parse rev) back
        ∙ ap (checked_load t urlsplit is_address sha dump parse rev)
            (model_validate-again t urlsplit is_address squeeze_idem strip_idem draft c h)

    -- With a `strip` and a joined `split` that change nothing a second time, and a document that
    -- parses to what was dumped: where a change succeeds, loading the file that it leaves gives the
    -- very configuration and revision that it returned, and this configuration is valid.
    pub mutate-load :
        (io : FileSystem) (revision : String) (change : Change) (file : ConfigFile)
        (load : ConfigLoad)
        → (mutate_in io revision change file).0 ≡ ok load
        → ReadsBack load.config
        → (load_in (mutate_in io revision change file).1 ≡ load)
          × IsValidConfig t urlsplit is_address load.config
    mutate-load io revision change file load h back =
        loads (mutate_in io revision change file) (mutate-Outcome io revision change file) h
      where
        loads :
            (s : Stored)
            → Outcome change file s
            → s.0 ≡ ok load
            → (load_in s.1 ≡ load) × IsValidConfig t urlsplit is_address load.config
        loads (err e, f) o k = cc
        loads (ok load', f) (c, draft, _, checked, same, written) k =
            let given : load_of c ≡ load = sym same ∙ cc k in
            (
              ap load_in written
                  ∙ (reload c draft (subst (λ l. ReadsBack l.config) (sym given) back) checked
                      ∙ given),
              subst (λ l. IsValidConfig t urlsplit is_address l.config) given
                  (model_validate-IsValidConfig t urlsplit is_address draft c checked),
            )

    mutate-usable :
        (io : FileSystem) (revision : String) (change : Change) (file : ConfigFile)
        (load : ConfigLoad)
        → (mutate_in io revision change file).0 ≡ ok load
        → load.has_error ≡ false
    mutate-usable io revision change file load h =
        usable (mutate_in io revision change file) (mutate-Outcome io revision change file) h
      where
        usable : (s : Stored) → Outcome change file s → s.0 ≡ ok load → load.has_error ≡ false
        usable (err e, f) o k = cc
        usable (ok load', f) (c, draft, _, checked, same, written) k =
            let given : load ≡ load_of c = sym (cc k) ∙ same in ap (λ l. l.has_error) given

    -- Under the same conditions: of two changes that were made on sight of the same revision only
    -- one is stored. Where the first succeeds and its file has another digest, the second is
    -- refused as stale and leaves the file as the first has written it.
    pub mutate-stale :
        (io other_io : FileSystem) (revision : String) (change other : Change) (file : ConfigFile)
        (load : ConfigLoad)
        → (mutate_in io revision change file).0 ≡ ok load
        → ReadsBack load.config
        → load.revision ≢ revision
        → mutate_in other_io revision other (mutate_in io revision change file).1
          ≡ (err stale_revision, (mutate_in io revision change file).1)
    unfolding mutate
    mutate-stale io other_io revision change other file load h reads ne =
        let file' = (mutate_in io revision change file).1 in
        let back = (mutate-load io revision change file load h reads).0 in
        ap (λ l. mutate_loaded t urlsplit is_address sha dump parse other_io l revision other file')
          back
        ∙ both_false load.has_error (load.revision == revision) _ _ _
            (mutate-usable io revision change file load h)
            (ground (arith, eq_iff load.revision revision))
