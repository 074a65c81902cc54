-- ===== src/Roles/Others.antt =====
-- The operations of src/app/core/roles_service.py on one role leave the other roles.
use papaia_manager.Base.{
  String, ◌≡◌, ◌≢◌, refl, ap, ◌∙◌, true, Option, some, List, [], ◌∷◌, map, ◌==◌, inl, inr,
  Bool-cases,
}
use papaia_manager.Base.Dict.{Dict}
use papaia_manager.Base.Text.{TextOps}
use papaia_manager.Base.Result.{Result, ok, err}
use papaia_manager.Base.Names.{has_name}
use papaia_manager.Keycloak.{
  KeycloakError, RoleRep, KeycloakUsers, Failure, invalid, keycloak, role_partially_created,
  partially_created, missing, unfinished, send, after, decided, picked,
}
use papaia_manager.Roles.Model.{RolesConfig, UpdatePlan}
use papaia_manager.Roles.Change.{
  fill_answer, fill_role, write_role, update, update_plan, write_update, write_members,
  write_description, delete, delete_plan,
}

module _ (t : TextOps) {S V : Type 0} (client : KeycloakUsers S) (config : RolesConfig)
    (look : String → S → Option V) where
  -- `look` is what is followed of a role, its description say, none where the role is not there.
  -- Every role that is there is listed, and a request for one role leaves what is followed of the
  -- others, whatever it answers.
  pub record RequestLaws : Type 0 where
    pub listed :
        (p : String) (s : S) (v : V) (reps : List RoleRep)
        → look p s ≡ some v
        → client.list_roles s ≡ ok reps
        → has_name p (map (λ (r : RoleRep). t.strip r.name) reps) ≡ true
    pub create_law :
        (name description p : String) (s : S)
        → name ≢ p
        → look p (client.create_role name description s).1 ≡ look p s
    pub update_law :
        (name p : String) (rep : RoleRep) (s : S)
        → name ≢ p
        → look p (client.update_role name rep s).1 ≡ look p s
    pub delete_law :
        (name p : String) (s : S) → name ≢ p → look p (client.delete_role name s).1 ≡ look p s
    pub add_law :
        (name p : String) (reps : List RoleRep) (s : S)
        → name ≢ p
        → look p (client.add_role_composites name reps s).1 ≡ look p s
    pub remove_law :
        (name p : String) (reps : List RoleRep) (s : S)
        → name ≢ p
        → look p (client.remove_role_composites name reps s).1 ≡ look p s

  decided-kept :
      {A B : Type 0} (p : String) (plan : Result Failure A) (next : A → S → Result Failure B × S)
      (s : S)
      → ((a : A) → look p (next a s).1 ≡ look p s)
      → look p (decided plan next s).1 ≡ look p s
  decided-kept p (ok a) next s h = h a
  decided-kept p (err e) next s h = refl

  pub decided-if :
      {A B : Type 0} (p : String) (plan : Result Failure A) (next : A → S → Result Failure B × S)
      (s : S)
      → ((a : A) → plan ≡ ok a → look p (next a s).1 ≡ look p s)
      → look p (decided plan next s).1 ≡ look p s
  decided-if p (ok a) next s h = h a refl
  decided-if p (err e) next s h = refl

  after-kept :
      {A B : Type 0} (p : String) (call : Result Failure A × S)
      (next : A → S → Result Failure B × S) (s : S)
      → look p call.1 ≡ look p s
      → ((a : A) (s' : S) → look p (next a s').1 ≡ look p s')
      → look p (after call next).1 ≡ look p s
  after-kept p (ok a, s') next s first h = h a s' ∙ first
  after-kept p (err e, s') next s first h = first

  fill_answer-state :
      (name : String) (answer : Result Failure (Unit {0}) × S)
      → (fill_answer t client config name answer).1 ≡ answer.1
  fill_answer-state name (ok u, s) = refl
  fill_answer-state name (err (invalid r), s) = refl
  fill_answer-state name (err (keycloak e), s) = refl
  fill_answer-state name (err (role_partially_created n e), s) = refl
  fill_answer-state name (err (partially_created n step e), s) = refl
  fill_answer-state name (err (missing n), s) = refl
  fill_answer-state name (err unfinished, s) = refl

  module _ (laws : RequestLaws) (p : String) where
    members-kept :
        (write : List RoleRep → S → Result KeycloakError (Unit {0}) × S) (known : Dict RoleRep)
        (names : List String) (s : S)
        → ((reps : List RoleRep) → look p (write reps s).1 ≡ look p s)
        → look p (write_members t client config write known names s).1 ≡ look p s
    members-kept write known [] s h = refl
    members-kept write known (m ∷ names) s h =
        decided-kept p (picked known (m ∷ names)) (λ reps. send (write reps)) s h

    fill_role-kept :
        (name : String) (chosen : List String) (known : Dict RoleRep) (s : S)
        → name ≢ p
        → look p (fill_role t client config name chosen known s).1 ≡ look p s
    fill_role-kept name [] known s ne = refl
    fill_role-kept name (m ∷ names) known s ne =
        ap (look p) (
          fill_answer-state name (
            decided (picked known (m ∷ names))
              (λ reps s'. send (client.add_role_composites name reps) s') s))
        ∙ decided-kept p (picked known (m ∷ names))
            (λ reps s'. send (client.add_role_composites name reps) s') s
            (λ reps. laws.add_law name p reps s ne)

    description-kept :
        (name : String) (plan : UpdatePlan) (s : S)
        → name ≢ p
        → look p (write_description t client config name plan s).1 ≡ look p s
    description-kept name plan s ne =
        elim (Bool-cases (plan.new_description == t.strip plan.rep.description)) [
          | inl e ↦ rw e refl
          | inr e ↦
              rw e (
                laws.update_law name p (record plan.rep { description = plan.new_description }) s
                  ne)
        ]

    pub update-other :
        (name description : String) (members : List String) (s : S)
        → name ≢ p
        → look p (update t client config name description members s).1 ≡ look p s
    unfolding update
    update-other name description members s ne =
        decided-kept p (update_plan t client config name description members s)
          (write_update t client config name) s
          (λ plan.
            after-kept p (write_description t client config name plan s) _ s
              (description-kept name plan s ne)
              (λ _ s1.
                after-kept p
                  (write_members t client config (client.add_role_composites name) plan.known
                    plan.to_add s1)
                  _ s1
                  (members-kept (client.add_role_composites name) plan.known plan.to_add s1
                    (λ reps. laws.add_law name p reps s1 ne))
                  (λ _ s2.
                    after-kept p
                      (write_members t client config (client.remove_role_composites name) plan.known
                        plan.to_remove s2)
                      _ s2
                      (members-kept (client.remove_role_composites name) plan.known plan.to_remove
                        s2 (λ reps. laws.remove_law name p reps s2 ne))
                      (λ _ _. refl))))

    pub delete-other :
        (name : String) (s : S) → name ≢ p → look p (delete t client config name s).1 ≡ look p s
    unfolding delete
    delete-other name s ne = decided-kept p (delete_plan t client config name s) _ s (λ users.
        after-kept p (send (client.delete_role name) s) _ s (laws.delete_law name p s ne)
          (λ _ _. refl))

    pub write_role-other :
        (name description : String) (chosen : List String) (known : Dict RoleRep) (s : S)
        → name ≢ p
        → look p (write_role t client config name description chosen known s).1 ≡ look p s
    write_role-other name description chosen known s ne =
        after-kept p (send (client.create_role name description) s) _ s
          (laws.create_law name description p s ne)
          (λ _ s'.
            after-kept p (fill_role t client config name chosen known s') _ s'
              (fill_role-kept name chosen known s' ne) (λ _ _. refl))
