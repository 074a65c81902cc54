-- ===== src/Notifications/Store/Again.antt =====
-- Checking a configuration again, as src/app/core/notifications/store.py does on reading what it has
-- written, leaves it as it is.
use papaia_manager.Base.{
  String, ◌≡◌, refl, sym, ap, ◌∙◌, subst, Bool, not, Option, List, [], ◌∷◌, arith,
}
use papaia_manager.Base.Text.{TextOps, codes}
use papaia_manager.Base.Result.{ok, >>=-returns, raise_if-returns}
use papaia_manager.Notifications.Model.{
  Kind, email, webhook, Recipient, EventSettings, NotificationsConfig, validate_events,
}
use papaia_manager.Notifications.Validate.{
  UrlParts, bad_id, is_id, check_settings, check_name, check_url, check_address, validate_name,
  validate_target, check_recipient, check_recipients, check_whole, model_validate,
}
use papaia_manager.Notifications.Store.Checked.{
  name_eq, url_eq, address_eq, whole_eq, validate_events_idem,
}

module _ (t : TextOps) (urlsplit : String → Option UrlParts) (is_address : String → Bool) where
  module _ (squeeze_idem : (s : String) → t.squeeze (t.squeeze s) ≡ t.squeeze s)
      (strip_idem : (s : String) → t.strip (t.strip s) ≡ t.strip s) where
    -- A text that is checked again stays as it is.
    validate_name-again :
        (value name : String)
        → validate_name t urlsplit is_address value ≡ ok name
        → validate_name t urlsplit is_address name ≡ ok name
    unfolding validate_name
    validate_name-again value name h =
        let same = name_eq t urlsplit is_address (t.squeeze value) name h in
        ap (check_name t urlsplit is_address) (ap t.squeeze same ∙ squeeze_idem value) ∙ h

    validate_target-again :
        (kind : Kind) (value target : String)
        → validate_target t urlsplit is_address kind value ≡ ok target
        → validate_target t urlsplit is_address kind target ≡ ok target
    unfolding validate_target
    validate_target-again email value target h =
        let same = address_eq t urlsplit is_address (t.strip value) target h in
        ap (check_address t urlsplit is_address) (ap t.strip same ∙ strip_idem value) ∙ h
    validate_target-again webhook value target h =
        let same = url_eq t urlsplit is_address (t.strip value) target h in
        ap (check_url t urlsplit is_address) (ap t.strip same ∙ strip_idem value) ∙ h

    check_recipient-again :
        (r r' : Recipient)
        → check_recipient t urlsplit is_address r ≡ ok r'
        → check_recipient t urlsplit is_address r' ≡ ok r'
    unfolding check_recipient
    check_recipient-again r r' h =
        let (id_fits, h') = raise_if-returns (not (is_id (codes r.id))) bad_id _ h in
        let (name, named, h'') = >>=-returns (validate_name t urlsplit is_address r.name) _ h' in
        let (target, aimed, last) =
          >>=-returns (validate_target t urlsplit is_address r.kind r.target) _ h'' in
        let same : record r { name = name; target = target; events = validate_events r.events }
            ≡ r' =
          cc last in
        subst (λ x. check_recipient t urlsplit is_address x ≡ ok x) same
          (rw
            (
              id_fits,
              validate_name-again r.name name named,
              validate_target-again r.kind r.target target aimed,
              validate_events_idem r.events,
            )
            refl)

    check_recipients-again :
        (rs rs' : List Recipient)
        → check_recipients t urlsplit is_address rs ≡ ok rs'
        → check_recipients t urlsplit is_address rs' ≡ ok rs'
    unfolding check_recipients
    check_recipients-again [] rs' h =
        let same : [] ≡ rs' = cc h in
        subst (λ x. check_recipients t urlsplit is_address x ≡ ok x) same refl
    check_recipients-again (r ∷ rs) rs' h =
        let (first, f, h') = >>=-returns (check_recipient t urlsplit is_address r) _ h in
        let (rest, g, last) = >>=-returns (check_recipients t urlsplit is_address rs) _ h' in
        let same : first ∷ rest ≡ rs' = cc last in
        subst (λ x. check_recipients t urlsplit is_address x ≡ ok x) same
          (rw (check_recipient-again r first f, check_recipients-again rs rest g) refl)

    check_settings-again :
        (s s' : EventSettings) → check_settings s ≡ ok s' → check_settings s' ≡ ok s'
    unfolding check_settings
    check_settings-again s s' h = ground arith

    -- Checking the whole configuration again changes nothing.
    pub model_validate-again :
        (c c' : NotificationsConfig)
        → model_validate t urlsplit is_address c ≡ ok c'
        → model_validate t urlsplit is_address c' ≡ ok c'
    unfolding model_validate
    model_validate-again c c' h =
        let (settings, ranged, h') = >>=-returns (check_settings c.settings) _ h in
        let (recipients, checked, whole) =
          >>=-returns (check_recipients t urlsplit is_address c.recipients) _ h' in
        let filled = record c { settings = settings; recipients = recipients } in
        let same = whole_eq t urlsplit is_address filled c' whole in
        subst (λ x. model_validate t urlsplit is_address x ≡ ok x) same
          (rw
            (
              check_settings-again c.settings settings ranged,
              check_recipients-again c.recipients recipients checked,
            )
            (subst (λ x. check_whole t urlsplit is_address filled ≡ ok x) (sym same) whole))
