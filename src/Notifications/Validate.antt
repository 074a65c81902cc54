-- ===== src/Notifications/Validate.antt =====
-- src/app/core/notifications/model.py: what a recipient, the settings and the whole configuration
-- have to be, with `validate_recipient` of src/app/core/mail/probe.py. `urlsplit` of Python's library
-- and the answer of the regular expression for an address are parameters.
use papaia_manager.Base.{
  ℕ, String, Bool, true, false, not, ◌&&◌, ◌||◌, Option, none, some, List, [], ◌∷◌, map, ◌==◌,
  if◌then◌else◌, any, leb, ltb, nat_eq, length,
}
use papaia_manager.Base.Text.{TextOps, codes, size, is_low_or_digit, up_to}
use papaia_manager.Base.Result.{Result, ok, err, ◌>>=◌, ◌>>◌, raise_if}
use papaia_manager.Notifications.Model.{
  Kind, email, webhook, Recipient, EventSettings, NotificationsConfig, validate_events,
}

-- What a `NotificationsError` says.
pub data Problem : Type 0 where
  no_name name_too_long no_url url_too_long_or_spaces url_not_valid url_scheme url_no_host
        url_login :
      Problem
  bad_email bad_id bad_settings too_many_recipients same_id same_name : Problem

-- What `urlsplit` returns; it raises also where the port is not a number.
pub record UrlParts : Type 0 where
  pub scheme : String
  pub netloc : String
  pub hostname : Option String
  pub username : Option String
  pub password : Option String

abbrev pub max_recipients : ℕ
max_recipients = 50

abbrev pub max_name_length : ℕ
max_name_length = 60

abbrev pub max_url_length : ℕ
max_url_length = 2_048

-- `[a-z0-9-]`
abbrev is_id_char : ℕ → Bool
is_id_char c = is_low_or_digit c || nat_eq c b'-'

-- `_ID_RE`
unfoldable pub is_id : List ℕ → Bool
is_id [] = false
is_id (c ∷ cs) = is_low_or_digit c && up_to is_id_char 31 cs

abbrev pub is_some {ℓ} : {A : Type ℓ} → Option A → Bool
is_some none = false
is_some (some _) = true

-- `not value`, of a text or None
abbrev pub is_falsy : Option String → Bool
is_falsy none = true
is_falsy (some s) = s == ""

-- The names that occur, each once.
abbrev pub distinct_names : List String → List String
distinct_names [] = []
distinct_names (x ∷ xs) =
    let rest = distinct_names xs in if any (λ y. x == y) rest then rest else x ∷ rest

-- `len(set(xs)) != len(xs)`
abbrev pub has_duplicates : List String → Bool
has_duplicates xs = not (nat_eq (length (distinct_names xs)) (length xs))

-- The `ge` and `le` of the fields.
unfoldable pub check_settings : EventSettings → Result Problem EventSettings
check_settings s =
    if leb 1 s.check_interval_minutes
      && leb s.check_interval_minutes 60
      && leb 1 s.debounce_minutes
      && leb s.debounce_minutes 1_440
      && leb 1 s.cert_lead_days
      && leb s.cert_lead_days 90
    then ok s
    else err bad_settings

module _ (t : TextOps) (urlsplit : String → Option UrlParts) (is_address : String → Bool) where
  abbrev pub check_name : String → Result Problem String
  check_name name = do
    raise_if (name == "") no_name
    raise_if (ltb max_name_length (size name)) name_too_long
    ok name

  unfoldable pub validate_name : String → Result Problem String
  validate_name value = check_name (t.squeeze value)

  abbrev pub check_parts : String → Option UrlParts → Result Problem String
  check_parts url none = err url_not_valid
  check_parts url (some parts) = do
    raise_if (not (parts.scheme == "http" || parts.scheme == "https")) url_scheme
    raise_if (is_falsy parts.hostname) url_no_host
    raise_if
        (is_some parts.username
          || is_some parts.password
          || any (λ c. nat_eq c b'@') (codes parts.netloc))
        url_login
    ok url

  abbrev pub check_url : String → Result Problem String
  check_url url = do
    raise_if (url == "") no_url
    raise_if (ltb max_url_length (size url) || any (λ c. t.is_space c || ltb c 32) (codes url))
        url_too_long_or_spaces
    check_parts url (urlsplit url)

  unfoldable pub validate_webhook_url : String → Result Problem String
  validate_webhook_url value = check_url (t.strip value)

  abbrev pub check_address : String → Result Problem String
  check_address address = do
    raise_if (ltb 254 (size address) || not (is_address address)) bad_email
    ok address

  -- `validate_recipient`, whose `ValueError` is turned into `bad_email`.
  unfoldable pub validate_recipient : String → Result Problem String
  validate_recipient value = check_address (t.strip value)

  unfoldable pub validate_target : Kind → String → Result Problem String
  unfolding validate_recipient validate_webhook_url
  validate_target email value = validate_recipient value
  validate_target webhook value = validate_webhook_url value

  -- `Recipient._check`
  unfoldable pub check_recipient : Recipient → Result Problem Recipient
  unfolding validate_name validate_target is_id
  check_recipient r = do
    raise_if (not (is_id (codes r.id))) bad_id
    name ← validate_name r.name
    target ← validate_target r.kind r.target
    ok (record r { name = name; target = target; events = validate_events r.events })

  -- The list field: each recipient, up to the first that is refused.
  unfoldable pub check_recipients : List Recipient → Result Problem (List Recipient)
  unfolding check_recipient
  check_recipients [] = ok []
  check_recipients (r ∷ rs) = do
    first ← check_recipient r
    rest ← check_recipients rs
    ok (first ∷ rest)

  -- `NotificationsConfig._check`
  unfoldable pub check_whole : NotificationsConfig → Result Problem NotificationsConfig
  check_whole config = do
    raise_if (ltb max_recipients (length config.recipients)) too_many_recipients
    raise_if (has_duplicates (map (λ r. r.id) config.recipients)) same_id
    raise_if (has_duplicates (map (λ r. t.casefold r.name) config.recipients)) same_name
    ok config

  -- `NotificationsConfig.model_validate`: the fields in their order, then the whole.
  unfoldable pub model_validate : NotificationsConfig → Result Problem NotificationsConfig
  unfolding check_settings check_recipients check_whole
  model_validate config = do
    settings ← check_settings config.settings
    recipients ← check_recipients config.recipients
    check_whole (record config { settings = settings; recipients = recipients })
