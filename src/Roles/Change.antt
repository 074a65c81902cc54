-- ===== src/Roles/Change.antt =====
-- src/app/core/roles_service.py: how a role is created, changed and deleted. Each operation first reads
-- and checks (its plan) and then writes.
use papaia_manager.Base.{
  ℕ, suc, String, Bool, true, false, not, List, [], ◌∷◌, ◌==◌, if◌then◌else◌, ltb, length,
}
use papaia_manager.Base.Dict
use papaia_manager.Base.Dict.{Dict}
use papaia_manager.Base.Text.{TextOps}
use papaia_manager.Base.Result.{Result, ok, err, ◌>>=◌, ◌>>◌, raise_if}
use papaia_manager.Base.Names.{has_name, sorted_set, sorted_minus}
use papaia_manager.Keycloak.{
  KeycloakError, RoleRep, KeycloakUsers, Failure, invalid, keycloak, role_partially_created,
  contains_itself, makes_loop, ask, send, after, decided, require_known_roles, known_roles, picked,
}
use papaia_manager.Roles.Model.{
  users_shown, RoleRow, RoleChange, RolesConfig, validate_role, UpdatePlan, realm_names,
  require_editable, not_there, already_there,
}
use papaia_manager.Roles.Graph.{reaches}

module _ (t : TextOps) {S : Type 0} (client : KeycloakUsers S) (config : RolesConfig) where
  unfoldable pub create_plan : String → String → List String → S → Result Failure (Dict RoleRep)
  create_plan name description members s = do
    validate_role name description true
    known ← known_roles t client s
    raise_if (has_name name (Dict.keys known)) (keycloak (already_there name))
    require_known_roles (sorted_set members) known
    ok known

  abbrev pub fill_answer : String → Result Failure (Unit {0}) × S → Result Failure (Unit {0}) × S
  fill_answer name (err (keycloak e), s) = (err (role_partially_created name e), s)
  fill_answer name answer = answer

  -- Giving the new role its members.
  abbrev pub fill_role : String → List String → Dict RoleRep → S → Result Failure (Unit {0}) × S
  fill_role name [] known s = (ok tt, s)
  fill_role name chosen known s =
      fill_answer name (
        decided (picked known chosen) (λ reps s'. send (client.add_role_composites name reps) s') s)

  abbrev pub write_role :
      String → String → List String → Dict RoleRep → S → Result Failure RoleRow × S
  write_role name description chosen known s =
      after (send (client.create_role name description) s) (λ _ s'.
        after (fill_role name chosen known s') (λ _ s''. (
          ok (record {
            name = name;
            description = description;
            members = chosen;
            client_members = [];
            built_in = false;
            default = name == config.default_role;
          }),
          s'',
        )))

  unfoldable pub create : String → String → List String → S → Result Failure RoleRow × S
  create name description members s =
      decided (create_plan (t.strip name) (t.strip description) members s)
        (write_role (t.strip name) (t.strip description) (sorted_set members)) s

  -- The loop over the roles to add.
  unfoldable pub check_loops : String → List String → S → Result Failure (Unit {0})
  check_loops name [] s = ok tt
  check_loops name (m ∷ ms) s = do
    loops ← reaches t client m name s
    raise_if loops (invalid (if m == name then contains_itself else makes_loop))
    check_loops name ms s

  unfoldable pub update_plan : String → String → List String → S → Result Failure UpdatePlan
  update_plan name description members s = do
    require_editable config name
    validate_role name (t.strip description) false
    known ← known_roles t client s
    raise_if (not (has_name name (Dict.keys known))) (keycloak (not_there name))
    require_known_roles (sorted_set members) known
    rep ← ask (client.get_role name) s
    composites ← ask (client.role_composites name) s
    let current = realm_names t composites
    let to_add = sorted_minus members current
    check_loops name to_add s
    ok (record {
      rep = rep;
      new_description = t.strip description;
      known = known;
      to_add = to_add;
      to_remove = sorted_minus current members;
    })

  abbrev pub write_description : String → UpdatePlan → S → Result Failure (Unit {0}) × S
  write_description name plan s =
      if plan.new_description == t.strip plan.rep.description
      then (ok tt, s)
      else send (client.update_role name (record plan.rep { description = plan.new_description })) s

  -- `if names:` and the write of what they name
  abbrev pub write_members :
      (List RoleRep → S → Result KeycloakError (Unit {0}) × S)
      → Dict RoleRep
      → List String
      → S
      → Result Failure (Unit {0}) × S
  write_members write known [] s = (ok tt, s)
  write_members write known names s = decided (picked known names) (λ reps. send (write reps)) s

  abbrev pub write_update : String → UpdatePlan → S → Result Failure RoleChange × S
  write_update name plan s = after (write_description name plan s) (λ _ s1.
      after (write_members (client.add_role_composites name) plan.known plan.to_add s1) (λ _ s2.
        after (write_members (client.remove_role_composites name) plan.known plan.to_remove s2)
          (λ _ s3. (
            ok (record {
              name = name;
              description_changed = not (plan.new_description == t.strip plan.rep.description);
              added = plan.to_add;
              removed = plan.to_remove;
            }),
            s3,
          ))))

  unfoldable pub update : String → String → List String → S → Result Failure RoleChange × S
  update name description members s =
      decided (update_plan name description members s) (write_update name) s

  unfoldable pub delete_plan : String → S → Result Failure (List String)
  delete_plan name s = do
    require_editable config name
    known ← known_roles t client s
    raise_if (not (has_name name (Dict.keys known))) (keycloak (not_there name))
    ask (client.role_users name (suc users_shown)) s

  abbrev min_count : ℕ → ℕ
  min_count n = if ltb users_shown n then users_shown else n

  unfoldable pub delete : String → S → Result Failure (ℕ × Bool) × S
  delete name s =
      decided (delete_plan name s)
        (λ users s'.
          after (send (client.delete_role name) s')
            (λ _ s''. (ok (min_count (length users), ltb users_shown (length users)), s'')))
        s
