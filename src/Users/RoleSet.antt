-- ===== src/Users/RoleSet.antt =====
-- src/app/core/users_service.py: the roles of an account.
use papaia_manager.Base.{String, false, not, ◌&&◌, List, [], map, ◌==◌, keep, sort}
use papaia_manager.Base.Dict
use papaia_manager.Base.Dict.{Dict}
use papaia_manager.Base.Text.{TextOps}
use papaia_manager.Base.Result.{Result, ok, ◌>>=◌, ◌>>◌, raise_if}
use papaia_manager.Base.Names.{has_name, sorted_minus, text_le}
use papaia_manager.Keycloak.{
  RoleRep, UserRep, KeycloakUsers, KeycloakError, Failure, invalid, own_identity_role, ask, send,
  after, decided, is_offered, require_known_roles, known_roles, picked,
}
use papaia_manager.Users.Model.{RoleOption, RoleChange}

-- Who is signed in, the role that stands for it and the role of the dashboard.
pub record Actor : Type 0 where
  pub sub : String
  pub identity_role : String
  pub default_role : String

-- What a change of the roles has found to write.
pub record RolesPlan : Type 0 where
  pub user : UserRep
  pub known : Dict RoleRep
  pub to_add : List String
  pub to_remove : List String

module _ (t : TextOps) {S : Type 0} (client : KeycloakUsers S) (actor : Actor) where
  abbrev pub names_of : List RoleRep → List String
  names_of reps = map (λ (r : RoleRep). t.strip r.name) reps

  abbrev new_option : String × RoleRep → RoleOption
  new_option (name, role) = record {
    name = name;
    description = t.strip role.description;
    direct = false;
    inherited = false;
    locked = false;
    default = name == actor.default_role;
  }

  unfoldable pub assignable_roles : S → Result Failure (List RoleOption)
  assignable_roles s = do
    known ← known_roles t client s
    ok (map new_option (sort (λ a b. text_le a.0 b.0) known))

  abbrev pub option_of : String → List String → List String → RoleRep → RoleOption
  option_of user_id held effective role =
      let name = t.strip role.name in
      record {
        name = name;
        description = t.strip role.description;
        direct = has_name name held;
        inherited = has_name name effective && not (has_name name held);
        locked = user_id == actor.sub && name == actor.identity_role;
        default = name == actor.default_role;
      }

  unfoldable pub role_options : String → S → Result Failure (String × List RoleOption)
  role_options user_id s = do
    user ← ask (client.get_user user_id) s
    realm_roles ← ask client.list_roles s
    direct ← ask (client.direct_roles user_id) s
    effective ← ask (client.effective_roles user_id) s
    ok (
      t.strip user.username,
      sort (λ a b. text_le a.name b.name)
          (map (option_of user_id (names_of direct) (names_of effective))
            (keep (is_offered t) realm_roles)),
    )

  -- The roles that the account has of its own and that can be handed out.
  abbrev pub current_of : Dict RoleRep → List RoleRep → List String
  current_of known direct = keep (λ n. has_name n (Dict.keys known)) (names_of direct)

  unfoldable pub roles_plan : String → List String → S → Result Failure RolesPlan
  roles_plan user_id wanted s = do
    user ← ask (client.get_user user_id) s
    known ← known_roles t client s
    direct ← ask (client.direct_roles user_id) s
    require_known_roles wanted known
    let current = current_of known direct
    let to_remove = sorted_minus current wanted
    raise_if (user_id == actor.sub && has_name actor.identity_role to_remove)
        (invalid own_identity_role)
    ok (record {
      user = user;
      known = known;
      to_add = sorted_minus wanted current;
      to_remove = to_remove;
    })

  -- `if names:` and the write of what they name
  abbrev pub write_roles :
      (List RoleRep → S → Result KeycloakError (Unit {0}) × S)
      → Dict RoleRep
      → List String
      → S
      → Result Failure (Unit {0}) × S
  write_roles write known [] s = (ok tt, s)
  write_roles write known names s = decided (picked known names) (λ reps. send (write reps)) s

  abbrev pub write_change : String → RolesPlan → S → Result Failure RoleChange × S
  write_change user_id plan s =
      after (write_roles (client.add_roles user_id) plan.known plan.to_add s) (λ _ s1.
        after (write_roles (client.remove_roles user_id) plan.known plan.to_remove s1) (λ _ s2. (
          ok (record {
            username = t.strip plan.user.username;
            added = plan.to_add;
            removed = plan.to_remove;
          }),
          s2,
        )))

  unfoldable pub set_roles : String → List String → S → Result Failure RoleChange × S
  set_roles user_id wanted s = decided (roles_plan user_id wanted s) (write_change user_id) s
