-- ===== src/Notifications/Store/Recipients.antt =====
-- What deleting a recipient leaves, in src/app/core/notifications/store.py.
use papaia_manager.Base.{
  String, ◌≡◌, ◌≢◌, refl, sym, ap, ◌∙◌, subst, Bool, not, Option, none, some, List, [], ◌∷◌, map,
  ◌==◌, eq_iff, arith, inl, inr, Bool-cases, All, Distinct, find_first,
}
use papaia_manager.Base.Dict
use papaia_manager.Base.Text.{TextOps, codes}
use papaia_manager.Base.Result.{Result, ok, err, >>=-returns, raise_if-returns}
use papaia_manager.Notifications.Model.{Recipient, NotificationsConfig, find, validate_events}
use papaia_manager.Notifications.Validate.{
  UrlParts, Problem, is_id, model_validate, check_recipient, check_recipients, check_settings,
  validate_name, validate_target, bad_id,
}
use papaia_manager.Notifications.Decide.{NotifyState}
use papaia_manager.Notifications.Store.{
  StoreError, ConfigLoad, default_config, revision_of, loaded, checked_load, load_config,
  remove_recipient, removed, delete_recipient, forget_if_done,
}
use papaia_manager.Notifications.Files.{ConfigFile, absent, unreadable, present, FileSystem}
use papaia_manager.Notifications.Store.Checked.{
  IsValidConfig, whole_eq, model_validate-IsValidConfig,
}
use papaia_manager.Notifications.Store.Revision.{mutate_in, load_in, Outcome, mutate-Outcome}

abbrev ids : List Recipient → List String
ids rs = map (λ r. r.id) rs

-- With distinct ids the removed one is gone.
remove_recipient-gone :
    (id : String) (rs : List Recipient)
    → Distinct (ids rs)
    → All (λ i. id ≢ i) (ids (remove_recipient id rs))
unfolding remove_recipient
remove_recipient-gone id [] d = tt
remove_recipient-gone id (r ∷ rs) d = elim (Bool-cases (r.id == id)) [
  | inl e ↦ rw e (subst (λ i. All (λ j. i ≢ j) (ids rs)) ((eq_iff r.id id).0 e) d.0)
  | inr e ↦ rw e ((λ same. ground (arith, eq_iff r.id id)), remove_recipient-gone id rs d.1)
]

find-gone :
    (id : String) (rs : List Recipient)
    → All (λ i. id ≢ i) (ids rs)
    → find_first (λ r. r.id == id) rs ≡ none
find-gone id [] h = refl
find-gone id (r ∷ rs) h = ground (arith, eq_iff r.id id, find-gone id rs h.1)

module _ (t : TextOps) (urlsplit : String → Option UrlParts) (is_address : String → Bool) where
  check_recipient-id :
      (r r' : Recipient) → check_recipient t urlsplit is_address r ≡ ok r' → r.id ≡ r'.id
  unfolding check_recipient
  check_recipient-id r r' h =
      let (id_fits, h') = raise_if-returns (not (is_id (codes r.id))) bad_id _ h in
      let (name, named, h'') = >>=-returns (validate_name t urlsplit is_address r.name) _ h' in
      let (target, aimed, last) =
        >>=-returns (validate_target t urlsplit is_address r.kind r.target) _ h'' in
      let same : record r { name = name; target = target; events = validate_events r.events } ≡ r' =
        cc last in
      ap (λ x. x.id) same

  check_recipients-ids :
      (rs rs' : List Recipient)
      → check_recipients t urlsplit is_address rs ≡ ok rs'
      → ids rs ≡ ids rs'
  unfolding check_recipients
  check_recipients-ids [] rs' h = let same : [] ≡ rs' = cc h in ap ids same
  check_recipients-ids (r ∷ rs) rs' h =
      let (first, f, h') = >>=-returns (check_recipient t urlsplit is_address r) _ h in
      let (rest, g, last) = >>=-returns (check_recipients t urlsplit is_address rs) _ h' in
      let same : first ∷ rest ≡ rs' = cc last in
      cc (check_recipient-id r first f, check_recipients-ids rs rest g, ap ids same)

  model_validate-ids :
      (c c' : NotificationsConfig)
      → model_validate t urlsplit is_address c ≡ ok c'
      → ids c.recipients ≡ ids c'.recipients
  unfolding model_validate
  model_validate-ids c c' h =
      let (settings, _, h') = >>=-returns (check_settings c.settings) _ h in
      let (recipients, checked, last) =
        >>=-returns (check_recipients t urlsplit is_address c.recipients) _ h' in
      let filled = record c { settings = settings; recipients = recipients } in
      check_recipients-ids c.recipients recipients checked
      ∙ ap (λ x. ids x.recipients) (whole_eq t urlsplit is_address filled c' last)

  default-IsValidConfig : IsValidConfig t urlsplit is_address default_config
  default-IsValidConfig = record {
    in_range = record { interval = omega arith; debounce = omega arith; lead = omega arith };
    recipients_checked = tt;
    few = omega arith;
    ids_distinct = tt;
    names_distinct = tt;
  }

  module _ (sha : String → String) (dump : NotificationsConfig → String)
      (parse : String → Option NotificationsConfig) where
    checked_load-IsValidConfig :
        (revision : String) (c : NotificationsConfig) (m : Result Problem NotificationsConfig)
        → model_validate t urlsplit is_address c ≡ m
        → IsValidConfig t urlsplit is_address
            (checked_load t urlsplit is_address sha dump parse revision m).config
    checked_load-IsValidConfig revision c (ok c') e =
        model_validate-IsValidConfig t urlsplit is_address c c' e
    checked_load-IsValidConfig revision c (err x) e = default-IsValidConfig

    loaded-IsValidConfig :
        (revision : String) (o : Option NotificationsConfig)
        → IsValidConfig t urlsplit is_address
            (loaded t urlsplit is_address sha dump parse revision o).config
    loaded-IsValidConfig revision none = default-IsValidConfig
    loaded-IsValidConfig revision (some c) =
        checked_load-IsValidConfig revision c (model_validate t urlsplit is_address c) refl

    -- Whatever the file holds, also nothing, what cannot be read or what somebody wrote by hand: the
    -- configuration that is loaded is valid. Its settings are in their ranges, each recipient has a
    -- name of at most 60 characters, an id of the allowed form and each event once, there are at most
    -- 50 recipients, and no two of them share an id or, but for case, a name.
    pub load_config-IsValidConfig :
        (file : ConfigFile)
        → IsValidConfig t urlsplit is_address
            (load_config t urlsplit is_address sha dump parse file).config
    unfolding load_config
    load_config-IsValidConfig absent = default-IsValidConfig
    load_config-IsValidConfig unreadable = default-IsValidConfig
    load_config-IsValidConfig (present bytes) =
        loaded-IsValidConfig (revision_of sha bytes) (parse bytes)

    removed-draft :
        (id : String) (c draft : NotificationsConfig) (o : Option Recipient)
        → removed t urlsplit is_address sha dump parse id c o ≡ ok draft
        → draft.recipients ≡ remove_recipient id c.recipients
    removed-draft id c draft none h = cc
    removed-draft id c draft (some r) h =
        let same : record c { recipients = remove_recipient id c.recipients } ≡ draft = cc h in
        sym (ap (λ x. x.recipients) same)

    abbrev remove_change : String → NotificationsConfig → Result StoreError NotificationsConfig
    remove_change id config =
        removed t urlsplit is_address sha dump parse id config (find id config)

    deleted :
        (id : String) (file : ConfigFile) (s : Result StoreError ConfigLoad × ConfigFile)
        (load : ConfigLoad)
        → Outcome t urlsplit is_address sha dump parse (remove_change id) file s
        → s.0 ≡ ok load
        → All (λ i. id ≢ i) (ids load.config.recipients)
    deleted id file (err e, f) load o k = cc
    deleted id file (ok load', f) load (c, draft, drafted, checked, same, written) k =
        let old = (load_in t urlsplit is_address sha dump parse file).config in
        let given : load' ≡ load = cc k in
        let gone =
          remove_recipient-gone id old.recipients (load_config-IsValidConfig file).ids_distinct in
        let left : ids (remove_recipient id old.recipients) ≡ ids load.config.recipients =
          ap ids (sym (removed-draft id old draft (find id old) drafted))
          ∙ (model_validate-ids draft c checked
              ∙ (ap (λ l. ids l.config.recipients) (sym same)
                  ∙ ap (λ l. ids l.config.recipients) given)) in
        subst (All (λ i. id ≢ i)) left gone

    forgotten :
        (id : String) (state : NotifyState) (load : ConfigLoad)
        (s : Result StoreError ConfigLoad × ConfigFile)
        → (s.0 ≡ ok load → All (λ i. id ≢ i) (ids load.config.recipients))
        → (forget_if_done t urlsplit is_address sha dump parse id s state).0 ≡ ok load
        → (find id load.config ≡ none)
          × (Dict.get id (forget_if_done t urlsplit is_address sha dump parse id s state).2.tests
              ≡ none)
    unfolding find
    forgotten id state load (err e, f) gone h = cc
    forgotten id state load (ok load', f) gone h = (
      find-gone id load.config.recipients (gone h),
      Dict.get-remove id id state.tests ∙ rw ((eq_iff id id).1 refl) refl,
    )

    -- For every file, state, revision and id: where deleting a recipient succeeds, the configuration
    -- that is returned has no recipient of the id, and the state remembers no test of it.
    pub delete_recipient-gone :
        (io : FileSystem) (revision id : String) (file : ConfigFile) (state : NotifyState)
        (load : ConfigLoad)
        → (delete_recipient t urlsplit is_address sha dump parse io revision id file state).0
          ≡ ok load
        → (find id load.config ≡ none)
          × (Dict.get id
                (delete_recipient t urlsplit is_address sha dump parse io revision id file
                  state).2.tests
              ≡ none)
    unfolding delete_recipient find
    delete_recipient-gone io revision id file state load h =
        forgotten id state load
          (mutate_in t urlsplit is_address sha dump parse io revision (remove_change id) file)
          (deleted id file
            (mutate_in t urlsplit is_address sha dump parse io revision (remove_change id) file)
            load
            (mutate-Outcome t urlsplit is_address sha dump parse io revision (remove_change id)
              file))
          h
