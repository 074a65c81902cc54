-- ===== src/Roles/Kept.antt =====
-- What any operations on the roles of src/app/core/roles_service.py leave of a role that is not to be
-- changed.
use papaia_manager.Base.{
  String, ◌≡◌, ◌≢◌, refl, sym, ap, ◌∙◌, subst, Bool, true, false, ◌||◌, Option, some, List, [], ◌∷◌,
  ◌==◌, eq_iff, arith, inl, inr, Bool-cases,
}
use papaia_manager.Base.Dict
use papaia_manager.Base.Dict.{Dict}
use papaia_manager.Base.Text.{TextOps, codes, begins}
use papaia_manager.Base.Result.{ok, >>=-returns, raise_if-returns}
use papaia_manager.Base.Names.{has_name, sorted_set}
use papaia_manager.Keycloak.{
  RoleRep, KeycloakUsers, keycloak, is_technical_role, known_of, known_roles, ask, ask-ok,
}
use papaia_manager.Roles.Model.{
  RolesConfig, built_in_roles, is_built_in, validate_role, already_there,
}
use papaia_manager.Roles.Change.{
  create, create_plan, write_role, update, update_plan, delete, delete_plan,
}
use papaia_manager.Roles.Protected.{protected_raises}
use papaia_manager.Roles.Listed.{known_of-listed, validated, unnamed}
use papaia_manager.Roles.Others.{
  RequestLaws, decided-if, write_role-other, update-other, delete-other,
}

-- Keycloak's own roles, those of the realm template, and those that the manager is configured with.
abbrev pub is_protected : RolesConfig → String → Bool
is_protected config p =
    (p == "offline_access" || p == "uma_authorization" || begins (codes "default-roles-") (codes p))
    || (has_name p built_in_roles || has_name p config.protected)

-- An operation that the page asks for.
pub data RoleOperation : Type 0 where
  creating updating : String → String → List String → RoleOperation
  deleting : String → RoleOperation

module _ (t : TextOps) {S V : Type 0} (client : KeycloakUsers S) (config : RolesConfig)
    (look : String → S → Option V) where
  abbrev pub perform : RoleOperation → S → S
  perform (creating name description members) s =
      (create t client config name description members s).1
  perform (updating name description members) s =
      (update t client config name description members s).1
  perform (deleting name) s = (delete t client config name s).1

  abbrev pub perform_all : List RoleOperation → S → S
  perform_all [] s = s
  perform_all (o ∷ os) s = perform_all os (perform o s)

  module _ (laws : RequestLaws t client config look) (p : String) where
    module _ (guarded : is_protected config p ≡ true) where
      editing : (is_technical_role p || is_built_in config p) ≡ true
      unfolding is_technical_role
      editing = guarded

      update-same :
          (description : String) (members : List String) (s : S)
          → (update t client config p description members s).1 ≡ s
      unfolding update update_plan
      update-same description members s =
          let (r, refused) = protected_raises t client config p editing in rw refused refl

      delete-same : (s : S) → (delete t client config p s).1 ≡ s
      unfolding delete delete_plan
      delete-same s =
          let (r, refused) = protected_raises t client config p editing in rw refused refl

      -- A role that is there cannot be created.
      create_plan-there :
          (description : String) (members : List String) (s : S) (v : V) (known : Dict RoleRep)
          → look p s ≡ some v
          → create_plan t client config p description members s ≢ ok known
      unfolding create_plan
      create_plan-there description members s v known there h =
          let (u, valid, h1) = >>=-returns (validate_role p description true) _ h in
          let (found, listing, h2) = >>=-returns (known_roles t client s) _ h1 in
          let (fresh, _) =
            raise_if-returns (has_name p (Dict.keys found)) (keycloak (already_there p)) _ h2 in
          let (reps, listed, found_eq) = >>=-returns (ask client.list_roles s) _ listing in
          let (not_own, named) = validated p description u valid in
          let same : known_of t reps [] ≡ found = cc found_eq in
          let is_known =
            known_of-listed t p reps [] not_own (unnamed p named)
              (inr (laws.listed p s v reps there (ask-ok client.list_roles s reps listed))) in
          let both : true ≡ false =
            sym is_known ∙ ap (λ (d : Dict RoleRep). has_name p (Dict.keys d)) same ∙ fresh in
          cc both

      perform-kept :
          (o : RoleOperation) (s : S) (v : V) → look p s ≡ some v → look p (perform o s) ≡ some v
      unfolding create
      perform-kept (updating name description members) s v there = elim (Bool-cases (name == p)) [
        | inl e ↦
            subst (λ n. look p (update t client config n description members s).1 ≡ some v)
              (sym ((eq_iff name p).0 e)) (ap (look p) (update-same description members s) ∙ there)
        | inr e ↦
            update-other t client config look laws p name description members s
              (λ same. ground (arith, eq_iff name p))
            ∙ there
      ]
      perform-kept (deleting name) s v there = elim (Bool-cases (name == p)) [
        | inl e ↦
            subst (λ n. look p (delete t client config n s).1 ≡ some v) (sym ((eq_iff name p).0 e))
              (ap (look p) (delete-same s) ∙ there)
        | inr e ↦
            delete-other t client config look laws p name s (λ same. ground (arith, eq_iff name p))
            ∙ there
      ]
      perform-kept (creating name description members) s v there =
          decided-if t client config look p
            (create_plan t client config (t.strip name) (t.strip description) members s)
            (write_role t client config (t.strip name) (t.strip description) (sorted_set members)) s
            (λ known planned.
              write_role-other t client config look laws p (t.strip name) (t.strip description)
                (sorted_set members) known s
                (λ same. create_plan-there (t.strip description) members s v known there (
                  subst
                    (λ n. create_plan t client config n (t.strip description) members s ≡ ok known)
                    same planned)))
          ∙ there

      -- For a Keycloak that lists its roles and whose requests for one role leave what is followed of
      -- the others, for every sequence of operations that the page asks for, and for one of
      -- Keycloak's own roles, one of the realm template or one that the manager is configured with,
      -- where it is there: after the operations it is there, and what is followed of it is what it
      -- was.
      pub protected-kept :
          (os : List RoleOperation) (s : S) (v : V)
          → look p s ≡ some v
          → look p (perform_all os s) ≡ some v
      protected-kept [] s v there = there
      protected-kept (o ∷ os) s v there =
          protected-kept os (perform o s) v (perform-kept o s v there)
