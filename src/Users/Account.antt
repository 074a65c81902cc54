-- ===== src/Users/Account.antt =====
-- src/app/core/users_service.py: creating an account, enabling it, its password and its sessions.
-- `password` is what `generate_temporary_password` draws.
use papaia_manager.Base.{
  ℕ, String, Bool, true, false, not, ◌&&◌, Option, none, some, List, [], ◌∷◌, map, ◌==◌,
  if◌then◌else◌, leb, length, any, sort,
}
use Prim.Native.Nat.{zero, suc}
use papaia_manager.Base.Dict.{Dict}
use papaia_manager.Base.Text.{TextOps}
use papaia_manager.Base.Result.{Result, ok, err, ◌>>=◌, ◌>>◌, raise_if}
use papaia_manager.Base.Names.{sorted_set, text_le}
use papaia_manager.Keycloak.{
  KeycloakError, not_found, RoleRep, UserRep, NewUser, SessionRep, KeycloakUsers, Failure, invalid,
  keycloak, partially_created, no_mail_server, no_email, own_account, own_sessions, ask, send,
  after, decided, require_known_roles, known_roles, picked,
}
use papaia_manager.Users.Model.{
  Credential, temporary, by_email, no_credential, CreatedUser, SessionRow, NewAccount,
  validate_new_user, wants_email,
}

-- A text that is left out where it is empty.
abbrev pub given : String → Option String
given text = if text == "" then none else some text

-- `_when`, for a number of milliseconds
abbrev pub when : Option ℕ → Option ℕ
when none = none
when (some zero) = none
when (some (suc n)) = some (suc n)

-- The account that is made, and the roles that it gets.
pub record CreatePlan : Type 0 where
  pub account : NewAccount
  pub chosen : List String
  pub known : Dict RoleRep

module _ (t : TextOps) {S : Type 0} (client : KeycloakUsers S) (actor : String) where
  -- `_has_smtp`
  abbrev answered_yes : Result KeycloakError Bool → Bool
  answered_yes (ok b) = b
  answered_yes (err _) = false

  abbrev pub has_smtp : S → Bool
  has_smtp s = answered_yes (client.realm_has_smtp s)

  -- The form, trimmed, and the username in lower case.
  abbrev pub trimmed : NewAccount → NewAccount
  trimmed a = record a {
    username = t.lower (t.strip a.username);
    email = t.strip a.email;
    first_name = t.strip a.first_name;
    last_name = t.strip a.last_name;
  }

  abbrev pub representation : NewAccount → NewUser
  representation a = record {
    username = a.username;
    enabled = true;
    email = given a.email;
    first_name = given a.first_name;
    last_name = given a.last_name;
  }

  unfoldable pub create_plan : NewAccount → S → Result Failure CreatePlan
  create_plan a s = do
    validate_new_user t a
    raise_if (wants_email a.credential && not (has_smtp s)) (invalid no_mail_server)
    let chosen = sorted_set a.roles
    known ← known_roles t client s
    require_known_roles chosen known
    ok (record { account = a; chosen = chosen; known = known })

  -- `except KeycloakError`: the account is there, the step is not done.
  abbrev pub unfinished_step :
      {A : Type 0} → String → String → Result Failure A × S → Result Failure A × S
  unfinished_step username step (err (keycloak e), s) = (err (partially_created username step e), s)
  unfinished_step username step answer = answer

  abbrev pub give_roles :
      String → String → Dict RoleRep → List String → S → Result Failure (Unit {0}) × S
  give_roles username user_id known [] s = (ok tt, s)
  give_roles username user_id known chosen s =
      unfinished_step username "giving it its roles"
        (decided (picked known chosen) (λ reps. send (client.add_roles user_id reps)) s)

  abbrev pub created : String → CreatePlan → CreatedUser
  created user_id plan = record {
    id = user_id;
    username = plan.account.username;
    temporary_password = none;
    email_sent = false;
    email_error = none;
    roles = plan.chosen;
  }

  -- A mail that fails is reported, not undone.
  abbrev pub mailed :
      CreatedUser → Result KeycloakError (Unit {0}) × S → Result Failure CreatedUser × S
  mailed user (ok _, s) = (ok (record user { email_sent = true }), s)
  mailed user (err e, s) = (ok (record user { email_error = some e.detail }), s)

  abbrev pub first_password :
      Credential → String → String → CreatePlan → S → Result Failure CreatedUser × S
  first_password temporary password user_id plan s =
      after
        (unfinished_step plan.account.username "setting its password"
          (send (client.set_password user_id password) s))
        (λ _ s'. (ok (record (created user_id plan) { temporary_password = some password }), s'))
  first_password by_email password user_id plan s =
      mailed (created user_id plan) (client.send_password_email user_id s)
  first_password no_credential password user_id plan s = (ok (created user_id plan), s)

  abbrev pub write_account : String → CreatePlan → S → Result Failure CreatedUser × S
  write_account password plan s =
      after (send (client.create_user (representation plan.account)) s) (λ user_id s1.
        after (give_roles plan.account.username user_id plan.known plan.chosen s1)
          (λ _ s2. first_password plan.account.credential password user_id plan s2))

  unfoldable pub create : String → NewAccount → S → Result Failure CreatedUser × S
  create password a s = decided (create_plan (trimmed a) s) (write_account password) s

  abbrev logged_out : Result KeycloakError (Unit {0}) × S → Bool × S
  logged_out (ok _, s) = (true, s)
  logged_out (err _, s) = (false, s)

  abbrev pub end_after : Bool → String → S → Bool × S
  end_after true user_id s = (false, s)
  end_after false user_id s = logged_out (client.logout_user user_id s)

  unfoldable pub set_enabled : String → Bool → S → Result Failure (String × Bool) × S
  set_enabled user_id enabled s =
      decided
        (raise_if (not enabled && user_id == actor) (invalid own_account)
          >> ask (client.get_user user_id) s)
        (λ user s1.
          after (send (client.update_user user_id (record user { enabled = enabled })) s1) (λ _ s2.
            let (ended, s3) = end_after enabled user_id s2 in
            (ok (t.strip user.username, ended), s3)))
        s

  unfoldable pub temporary_password : String → String → S → Result Failure (String × String) × S
  temporary_password password user_id s =
      decided (ask (client.get_user user_id) s)
        (λ user s1.
          after (send (client.set_password user_id password) s1)
            (λ _ s2. (ok (t.strip user.username, password), s2)))
        s

  abbrev password_email_plan : String → S → Result Failure UserRep
  password_email_plan user_id s = do
    user ← ask (client.get_user user_id) s
    raise_if (t.strip user.email == "") (invalid no_email)
    raise_if (not (has_smtp s)) (invalid no_mail_server)
    ok user

  unfoldable pub password_email : String → S → Result Failure String × S
  password_email user_id s =
      decided (password_email_plan user_id s)
        (λ user s1.
          after (send (client.send_password_email user_id) s1)
            (λ _ s2. (ok (t.strip user.username), s2)))
        s

  abbrev session_row : SessionRep → SessionRow
  session_row rep = record {
    id = t.strip rep.id;
    ip_address = t.strip rep.ip_address;
    started = when rep.start;
    last_access = when rep.last_access;
    clients = sort text_le (nonempty rep.clients);
  }
    where
      nonempty : List String → List String
      nonempty [] = []
      nonempty (c ∷ cs) = let rest = nonempty cs in if c == "" then rest else c ∷ rest

  abbrev later : Option ℕ → Option ℕ → Bool
  later a none = true
  later none (some _) = false
  later (some m) (some n) = leb n m

  unfoldable pub sessions : String → S → Result Failure (String × List SessionRow)
  sessions user_id s = do
    user ← ask (client.get_user user_id) s
    reps ← ask (client.user_sessions user_id) s
    ok (
      t.strip user.username,
      sort (λ a b. later a.last_access b.last_access) (map session_row reps),
    )

  abbrev pub gone : KeycloakError
  gone = record { error = not_found; detail = "That session no longer exists." }

  abbrev end_session_plan : String → String → S → Result Failure String
  end_session_plan user_id session_id s = do
    (username, rows) ← sessions user_id s
    raise_if (not (any (λ (r : SessionRow). r.id == session_id) rows)) (keycloak gone)
    ok username

  unfoldable pub end_session : String → String → S → Result Failure String × S
  end_session user_id session_id s =
      decided (end_session_plan user_id session_id s)
        (λ username s1.
          after (send (client.delete_session session_id) s1) (λ _ s2. (ok username, s2)))
        s

  unfoldable pub end_all_sessions : String → S → Result Failure (String × ℕ) × S
  end_all_sessions user_id s =
      decided (raise_if (user_id == actor) (invalid own_sessions) >> sessions user_id s)
        (λ (username, rows) s1.
          after (send (client.logout_user user_id) s1) (λ _ s2. (ok (username, length rows), s2)))
        s
