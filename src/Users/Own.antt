-- ===== src/Users/Own.antt =====
-- What src/app/core/users_service.py keeps the signed-in account from doing to itself.
use papaia_manager.Base.{String, ◌≡◌, refl, sym, ap, ◌∙◌, subst, true, false, ◌&&◌, List, [], ◌==◌}
use papaia_manager.Base.Dict
use papaia_manager.Base.Dict.{Dict}
use papaia_manager.Base.Text.{TextOps}
use papaia_manager.Base.Result.{Result, ok, err, >>=-returns, raise_if-returns}
use papaia_manager.Base.Names.{has_name, sorted_minus}
use papaia_manager.Keycloak.{
  RoleRep, KeycloakUsers, Failure, invalid, own_identity_role, ask, require_known_roles,
  known_roles, known_of, after-ok, after-eq, ask-ok,
}
use papaia_manager.Keycloak.Known.{require_known_roles-known}
use papaia_manager.Users.Model.{RoleChange}
use papaia_manager.Users.RoleSet.{
  Actor, RolesPlan, current_of, roles_plan, write_roles, write_change,
}

-- The roles that a change has removed; none where it has failed.
abbrev pub removed_by : Result Failure RoleChange → List String
removed_by (ok change) = change.removed
removed_by (err _) = []

module _ (t : TextOps) {S : Type 0} (client : KeycloakUsers S) (actor : Actor) where
  -- What a change of an account's roles has found out before it writes.
  pub record Planned (user_id : String) (wanted : List String) (s : S) (plan : RolesPlan)
      : Type 0 where
    pub reps : List RoleRep
    pub listed : client.list_roles s ≡ ok reps
    pub known_is : plan.known ≡ known_of t reps []
    pub direct : List RoleRep
    pub held : client.direct_roles user_id s ≡ ok direct
    pub wanted_known :
        (n : String) → has_name n wanted ≡ true → has_name n (Dict.keys plan.known) ≡ true
    pub adds : plan.to_add ≡ sorted_minus wanted (current_of t client actor plan.known direct)
    pub removes : plan.to_remove ≡ sorted_minus (current_of t client actor plan.known direct) wanted
    pub keeps_own : (user_id == actor.sub && has_name actor.identity_role plan.to_remove) ≡ false

  pub roles_plan-Planned :
      (user_id : String) (wanted : List String) (s : S) (plan : RolesPlan)
      → roles_plan t client actor user_id wanted s ≡ ok plan
      → Planned user_id wanted s plan
  unfolding roles_plan
  roles_plan-Planned user_id wanted s plan h =
      let (user, _, h1) = >>=-returns (ask (client.get_user user_id) s) _ h in
      let (known, listing, h2) = >>=-returns (known_roles t client s) _ h1 in
      let (direct, held, h3) = >>=-returns (ask (client.direct_roles user_id) s) _ h2 in
      let (u, required, h4) = >>=-returns (require_known_roles wanted known) _ h3 in
      let current = current_of t client actor known direct in
      let to_remove = sorted_minus current wanted in
      let (own, last) =
        raise_if-returns (user_id == actor.sub && has_name actor.identity_role to_remove)
          (invalid own_identity_role) _ h4 in
      let (reps, listed, known_eq) = >>=-returns (ask client.list_roles s) _ listing in
      let same : record {
        user = user;
        known = known;
        to_add = sorted_minus wanted current;
        to_remove = to_remove;
      }
          ≡ plan =
        cc last in
      subst (Planned user_id wanted s) same (record {
        reps = reps;
        listed = ask-ok client.list_roles s reps listed;
        known_is = sym (cc known_eq);
        direct = direct;
        held = ask-ok (client.direct_roles user_id) s direct held;
        wanted_known = λ n e. require_known_roles-known wanted known n required e;
        adds = refl;
        removes = refl;
        keeps_own = own;
      })

  -- The state and the answer of the two writes.
  pub record Written (user_id : String) (plan : RolesPlan) (s : S) (change : RoleChange)
      : Type 0 where
    pub s1 : S
    pub s2 : S
    pub added :
        write_roles t client actor (client.add_roles user_id) plan.known plan.to_add s ≡ (ok tt, s1)
    pub removed :
        write_roles t client actor (client.remove_roles user_id) plan.known plan.to_remove s1
        ≡ (ok tt, s2)
    pub left : (write_change t client actor user_id plan s).1 ≡ s2
    pub answer : change.removed ≡ plan.to_remove

  pair_eq : (r : Result Failure (Unit {0}) × S) (u : Unit {0}) → r.0 ≡ ok u → r ≡ (ok tt, r.1)
  pair_eq (ok tt, s) u h = refl
  pair_eq (err e, s) u h = cc

  pub write_change-Written :
      (user_id : String) (plan : RolesPlan) (s : S) (change : RoleChange)
      → (write_change t client actor user_id plan s).0 ≡ ok change
      → Written user_id plan s change
  write_change-Written user_id plan s change h =
      let adding = write_roles t client actor (client.add_roles user_id) plan.known plan.to_add s in
      let removing =
        write_roles t client actor (client.remove_roles user_id) plan.known plan.to_remove
          adding.1 in
      let (x, a, h1) = after-ok adding _ h in
      let (y, r, h2) = after-ok removing _ h1 in
      let same : record {
        username = t.strip plan.user.username;
        added = plan.to_add;
        removed = plan.to_remove;
      }
          ≡ change =
        cc h2 in
      let step = after-eq adding _ x a ∙ after-eq removing _ y r in
      record {
        s1 = adding.1;
        s2 = removing.1;
        added = pair_eq adding x a;
        removed = pair_eq removing y r;
        left = ap (λ (o : Result Failure RoleChange × S). o.1) step;
        answer = sym (ap (λ (c : RoleChange). c.removed) same);
      }
