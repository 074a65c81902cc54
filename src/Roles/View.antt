-- ===== src/Roles/View.antt =====
-- src/app/core/roles_service.py: the list of the roles and the page of one role.
use papaia_manager.Base.{
  suc, String, not, ◌&&◌, List, [], ◌∷◌, map, ◌==◌, if◌then◌else◌, ltb, length, take, keep, sort,
}
use papaia_manager.Base.Text.{TextOps}
use papaia_manager.Base.Result.{Result, ok, err, ◌>>=◌, ◌>>◌}
use papaia_manager.Base.Names.{text_le}
use papaia_manager.Keycloak.{
  KeycloakError, unauthorized, forbidden, RoleRep, KeycloakUsers, Failure, keycloak, ask,
  is_technical_role,
}
use papaia_manager.Roles.Model.{
  users_shown, RoleRow, RolesView, shown, no_right, not_available, RoleDetail, RolesConfig,
  require_shown, realm_names, client_names, is_built_in,
}

module _ (t : TextOps) {S : Type 0} (client : KeycloakUsers S) (config : RolesConfig) where
  -- `_row`
  abbrev pub row : RoleRep → List RoleRep → RoleRow
  row rep ms =
      let name = t.strip rep.name in
      record {
        name = name;
        description = t.strip rep.description;
        members = sort text_le (keep (λ n. not (is_technical_role n)) (realm_names t ms));
        client_members = sort text_le (client_names t ms);
        built_in = is_built_in config name;
        default = name == config.default_role;
      }

  -- `_members`: what cannot be read is no member, unless the session is over.
  abbrev members_answer : Result KeycloakError (List RoleRep) → Result Failure (List RoleRep)
  members_answer (ok ms) = ok ms
  members_answer (err e) = elim e.error [ unauthorized ↦ err (keycloak e) | _ ↦ ok [] ]

  abbrev pub members_of : RoleRep → S → Result Failure (List RoleRep)
  members_of rep s =
      if rep.composite then members_answer (client.role_composites (t.strip rep.name) s) else ok []

  abbrev rows : List RoleRep → S → Result Failure (List RoleRow)
  rows [] s = ok []
  rows (rep ∷ reps) s = do ms ← members_of rep s; rest ← rows reps s; ok (row rep ms ∷ rest)

  abbrev shown_reps : List RoleRep → List RoleRep
  shown_reps reps =
      keep (λ rep. not (t.strip rep.name == "") && not (is_technical_role (t.strip rep.name))) reps

  abbrev view_of : Result KeycloakError (List RoleRep) → S → Result Failure RolesView
  view_of (ok reps) s = do
    found ← rows (shown_reps reps) s
    ok (shown (sort (λ a b. text_le a.name b.name) found))
  view_of (err e) s = elim e.error [
    | unauthorized ↦ err (keycloak e)
    | forbidden ↦ ok no_right
    | _ ↦ ok (not_available e.detail)
  ]

  unfoldable pub snapshot : S → Result Failure RolesView
  snapshot s = view_of (client.list_roles s) s

  abbrev filled : List String → List String
  filled names = keep (λ n. not (n == "")) (map t.strip names)

  unfoldable pub detail : String → S → Result Failure RoleDetail
  detail name s = do
    require_shown name
    rep ← ask (client.get_role name) s
    users ← ask (client.role_users name (suc users_shown)) s
    ms ← members_of rep s
    ok (record {
      role = row rep ms;
      users = take users_shown (filled users);
      users_more = ltb users_shown (length users);
    })
