-- ===== src/Roles/Protected.antt =====
-- Which roles src/app/core/roles_service.py leaves alone, and what an update has checked before it
-- writes.
use papaia_manager.Base.{
  String, ◌≡◌, ◌≢◌, refl, sym, ◌∙◌, subst, true, false, not, ◌||◌, List, [], ◌∷◌, arith, inl, inr,
  Bool-cases, none,
}
use papaia_manager.Base.Dict
use papaia_manager.Base.Dict.{Dict}
use papaia_manager.Base.Text.{TextOps}
use papaia_manager.Base.Result.{Result, ok, err, >>=-returns, raise_if-returns}
use papaia_manager.Base.Names.{
  has_name, sorted_set, sorted_minus, has_name-sorted_set, has_name-sorted_minus,
}
use papaia_manager.Keycloak.{
  KeycloakError, RoleRep, KeycloakUsers, invalid, keycloak, Reason, technical_role, built_in_role,
  is_technical_role, require_known_roles, known_of, known_roles, ask, send, picked, after-ok,
  decided-ok, ask-ok,
}
use papaia_manager.Keycloak.Known.{
  IsKnown-empty, known_of-IsKnown, require_known_roles-known, get-eq-none, picked-known,
}
use papaia_manager.Roles.Model.{
  RolesConfig, RoleChange, UpdatePlan, realm_names, is_built_in, require_editable, validate_role,
  not_there,
}
use papaia_manager.Roles.Change.{
  update, update_plan, check_loops, write_update, write_members, write_description,
}

module _ (t : TextOps) {S : Type 0} (client : KeycloakUsers S) (config : RolesConfig) where
  pub protected_raises :
      (name : String)
      → (is_technical_role name || is_built_in config name) ≡ true
      → (r : Reason) × (require_editable config name ≡ err (invalid r))
  unfolding require_editable
  protected_raises name h = elim (Bool-cases (is_technical_role name)) [
    | inl e ↦ (technical_role, rw e refl)
    | inr e ↦ (built_in_role, rw (e, (rw e at h)) refl)
  ]

  -- What an update that has been planned has found out.
  pub record Planned (name : String) (members : List String) (s : S) (plan : UpdatePlan)
      : Type 0 where
    pub reps : List RoleRep
    pub listed : client.list_roles s ≡ ok reps
    pub known_is : plan.known ≡ known_of t reps []
    pub members_known :
        (n : String) → has_name n members ≡ true → has_name n (Dict.keys plan.known) ≡ true
    pub composites : List RoleRep
    pub read : client.role_composites name s ≡ ok composites
    pub adds : plan.to_add ≡ sorted_minus members (realm_names t composites)
    pub removes : plan.to_remove ≡ sorted_minus (realm_names t composites) members
    pub no_loops : check_loops t client config name plan.to_add s ≡ ok tt

  pub update_plan-Planned :
      (name description : String) (members : List String) (s : S) (plan : UpdatePlan)
      → update_plan t client config name description members s ≡ ok plan
      → Planned name members s plan
  unfolding update_plan
  update_plan-Planned name description members s plan h =
      let (u1, _, h1) = >>=-returns (require_editable config name) _ h in
      let (u2, _, h2) = >>=-returns (validate_role name (t.strip description) false) _ h1 in
      let (known, listing, h3) = >>=-returns (known_roles t client s) _ h2 in
      let (_, h4) =
        raise_if-returns (not (has_name name (Dict.keys known))) (keycloak (not_there name)) _ h3 in
      let (u3, required, h5) = >>=-returns (require_known_roles (sorted_set members) known) _ h4 in
      let (rep, _, h6) = >>=-returns (ask (client.get_role name) s) _ h5 in
      let (composites, asked, h7) = >>=-returns (ask (client.role_composites name) s) _ h6 in
      let (u4, loops, last) =
        >>=-returns
          (check_loops t client config name (sorted_minus members (realm_names t composites)) s) _
          h7 in
      let (reps, listed, known_eq) = >>=-returns (ask client.list_roles s) _ listing in
      let same : record {
        rep = rep;
        new_description = t.strip description;
        known = known;
        to_add = sorted_minus members (realm_names t composites);
        to_remove = sorted_minus (realm_names t composites) members;
      }
          ≡ plan =
        cc last in
      subst (Planned name members s) same (record {
        reps = reps;
        listed = ask-ok client.list_roles s reps listed;
        known_is = sym (cc known_eq);
        members_known = λ n e.
            require_known_roles-known (sorted_set members) known n required
              (has_name-sorted_set n members ∙ e);
        composites = composites;
        read = ask-ok (client.role_composites name) s composites asked;
        adds = refl;
        removes = refl;
        no_loops = loops;
      })

  -- Where all writes of an update have been made, what they name was known.
  pub write_members-known :
      (write : List RoleRep → S → Result KeycloakError (Unit {0}) × S) (known : Dict RoleRep)
      (names : List String) (s : S) (u : Unit {0})
      → (write_members t client config write known names s).0 ≡ ok u
      → (n : String) → has_name n names ≡ true
      → Dict.get n known ≢ none
  write_members-known write known [] s u h n e = cc
  write_members-known write known (m ∷ names) s u h n e =
      let (reps, chosen, _) =
        decided-ok (picked known (m ∷ names)) (λ reps. send (write reps)) s h in
      picked-known known (m ∷ names) reps n chosen e

  pub write_update-known :
      (name : String) (plan : UpdatePlan) (s : S) (change : RoleChange)
      → (write_update t client config name plan s).0 ≡ ok change
      → (n : String) → has_name n plan.to_remove ≡ true
      → Dict.get n plan.known ≢ none
  write_update-known name plan s change h n e =
      let (u1, _, h1) = after-ok (write_description t client config name plan s) _ h in
      let s1 = (write_description t client config name plan s).1 in
      let adding =
        write_members t client config (client.add_role_composites name) plan.known plan.to_add s1 in
      let (u2, _, h2) = after-ok adding _ h1 in
      let (u3, removed, _) =
        after-ok
          (write_members t client config (client.remove_role_composites name) plan.known
            plan.to_remove adding.1)
          _ h2 in
      write_members-known (client.remove_role_composites name) plan.known plan.to_remove adding.1 u3
        removed n e

  known_not_technical :
      (name : String) (members : List String) (s : S) (plan : UpdatePlan)
      → Planned name members s plan
      → (n : String) → is_technical_role n ≡ true
      → Dict.get n plan.known ≡ none
  known_not_technical name members s plan p n e =
      subst (λ (d : Dict RoleRep). Dict.get n d ≡ none) (sym p.known_is)
        ((known_of-IsKnown t p.reps [] (IsKnown-empty t)).not_technical n e)

  -- What the role contains and cannot be chosen is to be removed.
  left_out :
      (name : String) (members : List String) (s : S) (plan : UpdatePlan)
      → Planned name members s plan
      → (composites : List RoleRep) → client.role_composites name s ≡ ok composites
      → (n : String) → has_name n (realm_names t composites) ≡ true
      → Dict.get n plan.known ≡ none
      → has_name n plan.to_remove ≡ true
  left_out name members s plan p composites read n contained unknown =
      let both : ok p.composites ≡ ok composites = sym p.read ∙ read in
      let same : p.composites ≡ composites = cc both in
      rw (p.removes, same)
        (ground (
          arith,
          has_name-sorted_minus n (realm_names t composites) members,
          contained,
          p.members_known n,
          get-eq-none n plan.known unknown,
        ))

  -- For every state and every choice of members: an update of a role that contains one of Keycloak's
  -- own realm roles never returns a change.
  pub update-technical :
      (name description : String) (members : List String) (s : S) (composites : List RoleRep)
      → client.role_composites name s ≡ ok composites
      → (n : String) → has_name n (realm_names t composites) ≡ true
      → is_technical_role n ≡ true
      → (change : RoleChange) → (update t client config name description members s).0 ≢ ok change
  unfolding update
  update-technical name description members s composites read n contained own change h =
      let (plan, planned, written) =
        decided-ok (update_plan t client config name description members s)
          (write_update t client config name) s h in
      let p = update_plan-Planned name description members s plan planned in
      let unknown = known_not_technical name members s plan p n own in
      write_update-known name plan s change written n
        (left_out name members s plan p composites read n contained unknown) unknown
