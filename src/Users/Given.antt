-- ===== src/Users/Given.antt =====
-- `set_roles` of src/app/core/users_service.py gives the account the set of roles that was asked for.
use papaia_manager.Base.{
  String, ◌≡◌, refl, sym, ap, ◌∙◌, subst, Bool, true, false, not, ◌&&◌, ◌||◌, List, [], ◌∷◌,
  if◌then◌else◌, arith,
}
use papaia_manager.Base.Dict
use papaia_manager.Base.Dict.{Dict}
use papaia_manager.Base.Text.{TextOps}
use papaia_manager.Base.Result.{Result, ok}
use papaia_manager.Base.Names.{has_name, has_name-sorted_minus, has_name-keep}
use papaia_manager.Keycloak.{
  RoleRep, KeycloakUsers, Failure, Write, send, known_of, picked, decided-ok, decided-eq, send-ok,
}
use papaia_manager.Keycloak.Known.{IsKnown, IsKnown-empty, known_of-IsKnown, names-picked}
use papaia_manager.Users.Model.{RoleChange}
use papaia_manager.Users.RoleSet.{
  Actor, RolesPlan, names_of, current_of, roles_plan, write_roles, write_change, set_roles,
}
use papaia_manager.Users.Own.{Planned, roles_plan-Planned, write_change-Written}

module _ (t : TextOps) {S : Type 0} (client : KeycloakUsers S) (actor : Actor) where
  -- The account answers with roles whose names are those of a set.
  pub record Holds (user_id : String) (s : S) (set : String → Bool) : Type 0 where
    pub direct : List RoleRep
    pub answer : client.direct_roles user_id s ≡ ok direct
    pub names : (n : String) → has_name n (names_of t client actor direct) ≡ set n

  -- What Keycloak's documentation says of the two writes: the roles are added to those of the
  -- account, or taken from them.
  pub record RoleLaws : Type 0 where
    pub add_law :
        (user_id : String) (reps : List RoleRep) (s s' : S) (set : String → Bool)
        → client.add_roles user_id reps s ≡ (ok tt, s')
        → Holds user_id s set
        → Holds user_id s' (λ n. set n || has_name n (names_of t client actor reps))
    pub remove_law :
        (user_id : String) (reps : List RoleRep) (s s' : S) (set : String → Bool)
        → client.remove_roles user_id reps s ≡ (ok tt, s')
        → Holds user_id s set
        → Holds user_id s' (λ n. set n && not (has_name n (names_of t client actor reps)))

  Holds-same :
      (user_id : String) (s : S) (set set' : String → Bool)
      → ((n : String) → set n ≡ set' n)
      → Holds user_id s set
      → Holds user_id s set'
  Holds-same user_id s set set' e h = record {
    direct = h.direct;
    answer = h.answer;
    names = λ n. h.names n ∙ e n;
  }

  -- The roles that a write of some names has handed to Keycloak.
  sent_roles :
      (write : List RoleRep → Write S (Unit {0})) (known : Dict RoleRep) (m : String)
      (names : List String) (s s' : S)
      → write_roles t client actor write known (m ∷ names) s ≡ (ok tt, s')
      → (reps : List RoleRep) × (picked known (m ∷ names) ≡ ok reps) × (write reps s ≡ (ok tt, s'))
  sent_roles write known m names s s' h =
      let chosen = picked known (m ∷ names) in
      let (reps, found, sent) =
        decided-ok chosen (λ reps. send (write reps)) s
          (ap (λ (o : Result Failure (Unit {0}) × S). o.0) h) in
      let step = decided-eq chosen (λ reps. send (write reps)) s reps found in
      let state : (send (write reps) s).1 ≡ s' =
        ap (λ (o : Result Failure (Unit {0}) × S). o.1) (sym step ∙ h) in
      (reps, found, subst (λ x. write reps s ≡ (ok tt, x)) state (send-ok (write reps) s tt sent))

  module _ (laws : RoleLaws) (user_id : String) (known : Dict RoleRep) (k : IsKnown t known) where
    adds_step :
        (names : List String) (s s' : S) (set : String → Bool)
        → write_roles t client actor (client.add_roles user_id) known names s ≡ (ok tt, s')
        → Holds user_id s set
        → Holds user_id s' (λ n. set n || has_name n names)
    adds_step [] s s' set h held =
        subst (λ x. Holds user_id x (λ n. set n || false))
          (ap (λ (o : Result Failure (Unit {0}) × S). o.1) h)
          (Holds-same user_id s set (λ n. set n || false) (λ n. ground arith) held)
    adds_step (m ∷ names) s s' set h held =
        let (reps, found, sent) = sent_roles (client.add_roles user_id) known m names s s' h in
        Holds-same user_id s' _ _
          (λ n. ap (λ b. set n || b) (names-picked t known k (m ∷ names) reps n found))
          (laws.add_law user_id reps s s' set sent held)

    removes_step :
        (names : List String) (s s' : S) (set : String → Bool)
        → write_roles t client actor (client.remove_roles user_id) known names s ≡ (ok tt, s')
        → Holds user_id s set
        → Holds user_id s' (λ n. set n && not (has_name n names))
    removes_step [] s s' set h held =
        subst (λ x. Holds user_id x (λ n. set n && true))
          (ap (λ (o : Result Failure (Unit {0}) × S). o.1) h)
          (Holds-same user_id s set (λ n. set n && true) (λ n. ground arith) held)
    removes_step (m ∷ names) s s' set h held =
        let (reps, found, sent) = sent_roles (client.remove_roles user_id) known m names s s' h in
        Holds-same user_id s' _ _
          (λ n. ap (λ b. set n && not b) (names-picked t known k (m ∷ names) reps n found))
          (laws.remove_law user_id reps s s' set sent held)

  -- The set that was asked for: of the roles that can be handed out the wanted ones, of the others
  -- those that the account had.
  abbrev pub wanted_set : Dict RoleRep → List String → List RoleRep → String → Bool
  wanted_set known wanted direct n =
      if has_name n (Dict.keys known)
      then has_name n wanted
      else has_name n (names_of t client actor direct)

  is_wanted :
      (user_id : String) (wanted : List String) (s : S) (plan : RolesPlan)
      (p : Planned t client actor user_id wanted s plan) (n : String)
      → ((has_name n (names_of t client actor p.direct) || has_name n plan.to_add)
          && not (has_name n plan.to_remove))
        ≡ wanted_set plan.known wanted p.direct n
  is_wanted user_id wanted s plan p n =
      let current = current_of t client actor plan.known p.direct in
      let held =
        has_name-keep n (λ m. has_name m (Dict.keys plan.known))
          (names_of t client actor p.direct) in
      rw
        (
          p.adds,
          p.removes,
          has_name-sorted_minus n wanted current,
          has_name-sorted_minus n current wanted,
          held,
        )
        (ground (arith, p.wanted_known n))

  -- For a Keycloak whose two writes add to the account's roles and take from them: where set_roles
  -- succeeds, the account has, of the roles that can be handed out, exactly the wanted ones, and of
  -- all others, Keycloak's own among them, exactly those that it had.
  pub set_roles_lem :
      (laws : RoleLaws) (user_id : String) (wanted : List String) (s : S) (change : RoleChange)
      (reps direct : List RoleRep)
      → client.list_roles s ≡ ok reps
      → client.direct_roles user_id s ≡ ok direct
      → (set_roles t client actor user_id wanted s).0 ≡ ok change
      → Holds user_id
          (set_roles t client actor user_id wanted s).1
          (wanted_set (known_of t reps []) wanted direct)
  unfolding set_roles
  set_roles_lem laws user_id wanted s change reps direct listed held h =
      let plan_of = roles_plan t client actor user_id wanted s in
      let (plan, planned, written) = decided-ok plan_of (write_change t client actor user_id) s h in
      let p = roles_plan-Planned t client actor user_id wanted s plan planned in
      let w = write_change-Written t client actor user_id plan s change written in
      let k = subst (IsKnown t) (sym p.known_is) (known_of-IsKnown t p.reps [] (IsKnown-empty t)) in
      let before : Holds user_id s (λ n. has_name n (names_of t client actor p.direct)) = record {
        direct = p.direct;
        answer = p.held;
        names = λ n. refl;
      } in
      let later =
        removes_step laws user_id plan.known k plan.to_remove w.s1 w.s2 _ w.removed
          (adds_step laws user_id plan.known k plan.to_add s w.s1 _ w.added before) in
      let reps_ok : ok p.reps ≡ ok reps = sym p.listed ∙ listed in
      let reps_same : p.reps ≡ reps = cc reps_ok in
      let direct_ok : ok p.direct ≡ ok direct = sym p.held ∙ held in
      let direct_same : p.direct ≡ direct = cc direct_ok in
      let known_same = p.known_is ∙ ap (λ (r : List RoleRep). known_of t r []) reps_same in
      let step = decided-eq plan_of (write_change t client actor user_id) s plan planned in
      let state = ap (λ (o : Result Failure RoleChange × S). o.1) step ∙ w.left in
      subst (λ x. Holds user_id x (wanted_set (known_of t reps []) wanted direct)) (sym state)
        (Holds-same user_id w.s2 _ _
          (λ n.
            is_wanted user_id wanted s plan p n
            ∙ (ap (λ (d : Dict RoleRep). wanted_set d wanted p.direct n) known_same
                ∙ ap (λ (d : List RoleRep). wanted_set (known_of t reps []) wanted d n)
                    direct_same))
          later)
