-- ===== src/Users/View.antt =====
-- src/app/core/users_service.py: one page of the accounts, or why there is none.
use papaia_manager.Base.{
  ℕ, zero, suc, String, Bool, false, Option, List, [], ◌∷◌, ◌==◌, if◌then◌else◌, any, keep, ltb,
  sort,
}
use papaia_manager.Base.Text.{TextOps}
use papaia_manager.Base.Result.{Result, ok, err}
use papaia_manager.Base.Names.{text_le}
use papaia_manager.Keycloak.{
  KeycloakError, unauthorized, forbidden, RoleRep, UserRep, KeycloakUsers, Failure, keycloak,
  is_offered,
}
use papaia_manager.Users.RoleSet.{Actor, names_of}
use papaia_manager.Users.Account.{has_smtp, when}

pub record UserRow : Type 0 where
  pub id : String
  pub username : String
  pub email : String
  pub first_name : String
  pub last_name : String
  pub enabled : Bool
  pub email_verified : Bool
  pub created : Option ℕ
  pub password_change_pending : Bool
  pub roles : List String
  pub is_self : Bool

pub data ViewState : Type 0 where
  available no_right : ViewState
  not_available : String → ViewState

pub record UsersView : Type 0 where
  pub state : ViewState
  pub users : List UserRow
  pub total : ℕ
  pub first : ℕ
  pub limit : ℕ
  pub search : String
  pub smtp : Bool
  pub identity_role : String
  pub default_role : String

abbrev max_page_size : ℕ
max_page_size = 100

-- `min(max(limit, 1), MAX_PAGE_SIZE)`; a negative `first` or `limit` counts as 0.
unfoldable pub page_limit : ℕ → ℕ
page_limit zero = 1
page_limit (suc n) = if ltb max_page_size (suc n) then max_page_size else suc n

module _ (t : TextOps) {S : Type 0} (client : KeycloakUsers S) (actor : Actor) where
  abbrev roles_answer : Result KeycloakError (List RoleRep) → List String
  roles_answer (ok reps) = sort text_le (names_of t client actor (keep (is_offered t) reps))
  roles_answer (err _) = []

  -- `_row`
  abbrev user_row : UserRep → List String → UserRow
  user_row rep roles = record {
    id = rep.id;
    username = t.strip rep.username;
    email = t.strip rep.email;
    first_name = t.strip rep.first_name;
    last_name = t.strip rep.last_name;
    enabled = rep.enabled;
    email_verified = rep.email_verified;
    created = when rep.created;
    password_change_pending = any (λ a. a == "UPDATE_PASSWORD") rep.required_actions;
    roles = roles;
    is_self = rep.id == actor.sub;
  }

  abbrev user_rows : List UserRep → S → List UserRow
  user_rows [] s = []
  user_rows (rep ∷ reps) s =
      user_row rep (roles_answer (client.direct_roles rep.id s)) ∷ user_rows reps s

  abbrev blank_view : String → ℕ → ℕ → ViewState → UsersView
  blank_view search first limit state = record {
    state = state;
    users = [];
    total = 0;
    first = first;
    limit = limit;
    search = search;
    smtp = false;
    identity_role = actor.identity_role;
    default_role = actor.default_role;
  }

  -- What a refusal makes of the page; only that the session is over is an error.
  abbrev refused_view : UsersView → KeycloakError → Result Failure UsersView
  refused_view view e = elim e.error [
    | unauthorized ↦ err (keycloak e)
    | forbidden ↦ ok (record view { state = no_right })
    | _ ↦ ok (record view { state = not_available e.detail })
  ]

  abbrev page :
      UsersView
      → S
      → Result KeycloakError (List UserRep)
      → Result KeycloakError ℕ
      → Result Failure UsersView
  page view s (err e) total = refused_view view e
  page view s (ok raw) (err e) = refused_view view e
  page view s (ok raw) (ok total) =
      ok (record view {
        users = user_rows raw s;
        total = total;
        smtp = has_smtp t client actor.sub s;
      })

  unfoldable pub snapshot : String → ℕ → ℕ → S → Result Failure UsersView
  snapshot search first limit s =
      let text = t.strip search in
      let size = page_limit limit in
      page (blank_view text first size available) s (client.list_users text first size s)
        (client.count_users text s)
