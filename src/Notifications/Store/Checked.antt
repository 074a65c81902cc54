-- ===== src/Notifications/Store/Checked.antt =====
-- What the check of src/app/core/notifications/model.py leaves is a valid configuration.
use papaia_manager.Base.{
  ◌≤◌, String, ◌≡◌, ◌≢◌, sym, subst, Bool, true, false, not, ◌||◌, Option, none, some, List, [],
  ◌∷◌, map, ◌==◌, eq_iff, if◌then◌else◌, arith, any, ltb, nat_eq, length, All, Distinct,
}
use papaia_manager.Base.Text.{TextOps, codes, size}
use papaia_manager.Base.Result.{ok, ◌>>◌, raise_if, >>=-returns, raise_if-returns}
use papaia_manager.Notifications.Model.{
  Event, job_failed, backup_overdue, service_unhealthy, update_available, cert_expiring, member,
  Recipient, EventSettings, NotificationsConfig, validate_events,
}
use papaia_manager.Notifications.Validate.{
  UrlParts, bad_id, url_scheme, url_no_host, url_login, too_many_recipients, same_id, same_name,
  max_url_length, is_falsy, is_some, is_id, has_duplicates, max_recipients, check_settings,
  check_name, check_parts, check_url, check_address, no_url, url_too_long_or_spaces, validate_name,
  validate_target, check_recipient, check_recipients, check_whole, model_validate,
}
use papaia_manager.Notifications.Store.Distinct.{has_duplicates-Distinct}

-- The picks of the five events, in the order of the catalogue.
chosen : Bool → Bool → Bool → Bool → Bool → List Event
chosen a b c d e =
    let rest5 : List Event = if e then cert_expiring ∷ [] else [] in
    let rest4 = if d then update_available ∷ rest5 else rest5 in
    let rest3 = if c then service_unhealthy ∷ rest4 else rest4 in
    let rest2 = if b then backup_overdue ∷ rest3 else rest3 in
    if a then job_failed ∷ rest2 else rest2

validate_events-chosen : (a b c d e : Bool) → validate_events (chosen a b c d e) ≡ chosen a b c d e
unfolding validate_events chosen
validate_events-chosen a b c d e = ground arith

-- Choosing twice is choosing once.
pub validate_events_idem :
    (es : List Event) → validate_events (validate_events es) ≡ validate_events es
unfolding validate_events chosen
validate_events_idem es =
    validate_events-chosen (member job_failed es) (member backup_overdue es)
      (member service_unhealthy es) (member update_available es) (member cert_expiring es)

-- The settings lie in their ranges.
pub record InRange (s : EventSettings) : Type 0 where
  pub interval : (1 ≤ s.check_interval_minutes) × (s.check_interval_minutes ≤ 60)
  pub debounce : (1 ≤ s.debounce_minutes) × (s.debounce_minutes ≤ 1_440)
  pub lead : (1 ≤ s.cert_lead_days) × (s.cert_lead_days ≤ 90)

check_settings-InRange : (s s' : EventSettings) → check_settings s ≡ ok s' → InRange s'
unfolding check_settings
check_settings-InRange s s' h = ground arith

module _ (t : TextOps) (urlsplit : String → Option UrlParts) (is_address : String → Bool) where
  -- A recipient that its check lets through.
  pub record IsChecked (r : Recipient) : Type 0 where
    pub id_fits : is_id (codes r.id) ≡ true
    pub named : r.name ≢ ""
    pub short : size r.name ≤ 60
    pub events_once : validate_events r.events ≡ r.events

  pub record IsValidConfig (c : NotificationsConfig) : Type 0 where
    pub in_range : InRange c.settings
    pub recipients_checked : All IsChecked c.recipients
    pub few : length c.recipients ≤ 50
    pub ids_distinct : Distinct (map (λ r. r.id) c.recipients)
    pub names_distinct : Distinct (map (λ r. t.casefold r.name) c.recipients)

  validate_name-named :
      (value name : String)
      → validate_name t urlsplit is_address value ≡ ok name
      → (name ≢ "") × (size name ≤ 60)
  unfolding validate_name
  validate_name-named value name h = ground (arith, eq_iff (t.squeeze value) "")

  check_recipient-IsChecked :
      (r r' : Recipient) → check_recipient t urlsplit is_address r ≡ ok r' → IsChecked r'
  unfolding check_recipient
  check_recipient-IsChecked r r' h =
      let (u, id_fits, h') = >>=-returns (raise_if (not (is_id (codes r.id))) bad_id) _ h in
      let (name, named, h'') = >>=-returns (validate_name t urlsplit is_address r.name) _ h' in
      let (target, _, last) =
        >>=-returns (validate_target t urlsplit is_address r.kind r.target) _ h'' in
      let (filled, short) = validate_name-named r.name name named in
      let same : record r { name = name; target = target; events = validate_events r.events } ≡ r' =
        cc last in
      subst IsChecked same (record {
        id_fits = ground (arith, id_fits);
        named = filled;
        short = short;
        events_once = validate_events_idem r.events;
      })

  -- What the checks of a text return is the text, trimmed.
  pub name_eq : (name m : String) → check_name t urlsplit is_address name ≡ ok m → m ≡ name
  name_eq name m h = ground (arith, eq_iff name "")

  parts_eq :
      (url m : String) (parts : Option UrlParts)
      → check_parts t urlsplit is_address url parts ≡ ok m
      → m ≡ url
  parts_eq url m none h = cc
  parts_eq url m (some parts) h =
      let (_, h') =
        raise_if-returns (not (parts.scheme == "http" || parts.scheme == "https")) url_scheme _ h in
      let (_, h'') = raise_if-returns (is_falsy parts.hostname) url_no_host _ h' in
      let (_, last) =
        raise_if-returns
          (is_some parts.username
            || is_some parts.password
            || any (λ c. nat_eq c b'@') (codes parts.netloc))
          url_login (ok url) h'' in
      sym (cc last)

  pub url_eq : (url m : String) → check_url t urlsplit is_address url ≡ ok m → m ≡ url
  url_eq url m h =
      let parts = check_parts t urlsplit is_address url (urlsplit url) in
      let bad = ltb max_url_length (size url) || any (λ c. t.is_space c || ltb c 32) (codes url) in
      let (_, h') =
        raise_if-returns (url == "") no_url (raise_if bad url_too_long_or_spaces >> parts) h in
      parts_eq url m (urlsplit url) (raise_if-returns bad url_too_long_or_spaces parts h').1

  pub address_eq : (a m : String) → check_address t urlsplit is_address a ≡ ok m → m ≡ a
  address_eq a m h = ground arith

  -- The whole configuration passes unchanged, and is then small and free of duplicates.
  record Whole (c c' : NotificationsConfig) : Type 0 where
    same : c ≡ c'
    few : ltb max_recipients (length c.recipients) ≡ false
    ids : has_duplicates (map (λ r. r.id) c.recipients) ≡ false
    names : has_duplicates (map (λ r. t.casefold r.name) c.recipients) ≡ false

  check_whole-Whole :
      (c c' : NotificationsConfig) → check_whole t urlsplit is_address c ≡ ok c' → Whole c c'
  unfolding check_whole
  check_whole-Whole c c' h =
      let (few, h') =
        raise_if-returns (ltb max_recipients (length c.recipients)) too_many_recipients _ h in
      let (ids, h'') =
        raise_if-returns (has_duplicates (map (λ r. r.id) c.recipients)) same_id _ h' in
      let (names, last) =
        raise_if-returns (has_duplicates (map (λ r. t.casefold r.name) c.recipients)) same_name
          (ok c) h'' in
      record { same = cc last; few = few; ids = ids; names = names }

  pub whole_eq : (c c' : NotificationsConfig) → check_whole t urlsplit is_address c ≡ ok c' → c ≡ c'
  whole_eq c c' h = (check_whole-Whole c c' h).same

  check_recipients-All :
      (rs rs' : List Recipient)
      → check_recipients t urlsplit is_address rs ≡ ok rs'
      → All IsChecked rs'
  unfolding check_recipients
  check_recipients-All [] rs' h = let same : [] ≡ rs' = cc h in subst (All IsChecked) same tt
  check_recipients-All (r ∷ rs) rs' h =
      let (first, f, h') = >>=-returns (check_recipient t urlsplit is_address r) _ h in
      let (rest, g, last) = >>=-returns (check_recipients t urlsplit is_address rs) _ h' in
      let same : first ∷ rest ≡ rs' = cc last in
      subst (All IsChecked) same
        (check_recipient-IsChecked r first f, check_recipients-All rs rest g)

  -- What the check lets through is valid.
  pub model_validate-IsValidConfig :
      (c c' : NotificationsConfig)
      → model_validate t urlsplit is_address c ≡ ok c'
      → IsValidConfig c'
  unfolding model_validate
  model_validate-IsValidConfig c c' h =
      let (settings, ranged, h') = >>=-returns (check_settings c.settings) _ h in
      let (recipients, checked, last) =
        >>=-returns (check_recipients t urlsplit is_address c.recipients) _ h' in
      let filled = record c { settings = settings; recipients = recipients } in
      let whole = check_whole-Whole filled c' last in
      subst IsValidConfig whole.same (record {
        in_range = check_settings-InRange c.settings settings ranged;
        recipients_checked = check_recipients-All c.recipients recipients checked;
        few = ground (arith, whole.few);
        ids_distinct = has_duplicates-Distinct (map (λ r. r.id) recipients) whole.ids;
        names_distinct =
            has_duplicates-Distinct (map (λ r. t.casefold r.name) recipients) whole.names;
      })
