-- ===== src/Roles/Acyclic.antt =====
-- A change of a role by src/app/core/roles_service.py makes no role hold itself.
use papaia_manager.Base.{
  String, ◌≡◌, ◌⊎◌, sym, ap, ◌∙◌, subst, Bool, true, false, List, [], ◌∷◌, map, ◌==◌, eq_iff,
  if◌then◌else◌, arith, inl, inr, Bool-cases,
}
use papaia_manager.Base.Dict
use papaia_manager.Base.Text.{TextOps}
use papaia_manager.Base.Result.{Result, ok, >>=-returns, raise_if-returns}
use papaia_manager.Base.Names.{has_name, has_name-sorted_minus}
use papaia_manager.Keycloak.{
  KeycloakError, RoleRep, KeycloakUsers, Failure, invalid, contains_itself, makes_loop, send,
  after-ok, after-eq, decided-ok, decided-eq, send-ok, picked,
}
use papaia_manager.Keycloak.Known.{IsKnown, IsKnown-empty, known_of-IsKnown, names-picked}
use papaia_manager.Roles.Model.{RolesConfig, RoleChange, UpdatePlan, realm_names}
use papaia_manager.Roles.Graph.{reaches}
use papaia_manager.Roles.Change.{
  update, update_plan, check_loops, write_update, write_members, write_description,
}
use papaia_manager.Roles.Below.{Contains, Below, here, further, SmallRealm, reaches_lem}
use papaia_manager.Roles.Protected.{Planned, update_plan-Planned}

module _ (t : TextOps) {S : Type 0} (client : KeycloakUsers S) (config : RolesConfig) where
  abbrev ContainsIn : S → String → String → Type 0
  ContainsIn = Contains t client

  abbrev BelowIn : S → String → String → Type 0
  BelowIn = Below t client

  -- No role lies below itself.
  pub record Acyclic (s : S) : Type 0 where
    pub no_loop : (u v : String) → ContainsIn s u v → ¬ BelowIn s v u

  -- What Keycloak's documentation says of the writes: a changed description changes no composite,
  -- and a role that got or lost members has no others than these besides what it had.
  pub record CompositeLaws : Type 0 where
    pub update_role_law :
        (name : String) (rep : RoleRep) (s s' : S) (u v : String)
        → client.update_role name rep s ≡ (ok tt, s')
        → ContainsIn s' u v
        → ContainsIn s u v
    pub add_law :
        (name : String) (reps : List RoleRep) (s s' : S) (u v : String)
        → client.add_role_composites name reps s ≡ (ok tt, s')
        → ContainsIn s' u v
        → ContainsIn s u v
          ⊎ ((u ≡ name) × (has_name v (map (λ (r : RoleRep). t.strip r.name) reps) ≡ true))
    pub remove_law :
        (name : String) (reps : List RoleRep) (s s' : S) (u v : String)
        → client.remove_role_composites name reps s ≡ (ok tt, s')
        → ContainsIn s' u v
        → ContainsIn s u v

  -- Each role to add has been walked from.
  check_loops-clear :
      (names : List String) (s : S)
      → SmallRealm t client s names
      → (name : String) (adds : List String)
      → ((m : String) → has_name m adds ≡ true → has_name m names ≡ true)
      → check_loops t client config name adds s ≡ ok tt
      → (m : String) → has_name m adds ≡ true
      → ¬ BelowIn s m name
  unfolding check_loops
  check_loops-clear names s small name [] known h m e = cc
  check_loops-clear names s small name (a ∷ adds) known h m e =
      let (loops, walked, h') = >>=-returns (reaches t client a name s) _ h in
      let (clear, rest) =
        raise_if-returns loops (invalid (if a == name then contains_itself else makes_loop))
          (check_loops t client config name adds s) h' in
      elim (Bool-cases (a == m)) [
        | inl same ↦ λ below.
            let eq = (eq_iff a m).0 same in
            cc (
              (reaches_lem t client s names small a name (known a (ground (arith, eq_iff a a)))
                    loops walked).1
                  (subst (λ x. BelowIn s x name) (sym eq) below),
              clear,
            )
        | inr other ↦
            check_loops-clear names s small name adds (λ x k. known x (ground arith)) rest m
              (ground arith)
      ]

  Below-trans : (s : S) {u v w : String} → BelowIn s u v → BelowIn s v w → BelowIn s u w
  Below-trans s p here = p
  Below-trans s p (further q c) = further (Below-trans s p q) c

  module _ (s s' : S) (name : String) (Added : String → Type 0)
      (new : (u v : String) → ContainsIn s' u v → ContainsIn s u v ⊎ ((u ≡ name) × Added v))
      (clear : (m : String) → Added m → ¬ BelowIn s m name) where
    -- A way in the new graph is one of the old graph, or leads through the role that was changed.
    new_way :
        {u v : String}
        → BelowIn s' u v
        → BelowIn s u v ⊎ (BelowIn s u name × (m : String) × Added m × BelowIn s m v)
    new_way here = inl here
    new_way {u} (further {v} {w} p c) = elim (new_way p) [
      | inl q ↦ elim (new v w c) [
        | inl d ↦ inl (further q d)
        | inr (e, a) ↦ inr (subst (BelowIn s u) e q, w, a, here)
      ]
      | inr (q, m, a, r) ↦ elim (new v w c) [
        | inl d ↦ inr (q, m, a, further r d)
        | inr (e, a') ↦ absurd (clear m a (subst (BelowIn s m) e r))
      ]
    ]

    no_new_loop : Acyclic s → (u v : String) → ContainsIn s' u v → ¬ BelowIn s' v u
    no_new_loop old u v c p = elim (new_way p) [
      | inl q ↦ elim (new u v c) [
        | inl d ↦ old.no_loop u v d q
        | inr (e, a) ↦ clear v a (subst (BelowIn s v) e q)
      ]
      | inr (q, m, a, r) ↦ elim (new u v c) [
        | inl d ↦ clear m a (Below-trans s (further r d) q)
        | inr (e, a') ↦ clear m a (subst (BelowIn s m) e r)
      ]
    ]

    kept-Acyclic : Acyclic s → Acyclic s'
    kept-Acyclic old = record { no_loop = no_new_loop old }

  -- What is written only if it differs.
  abbrev unless :
      Bool → (S → Result KeycloakError (Unit {0}) × S) → S → Result Failure (Unit {0}) × S
  unless same write s = if same then (ok tt, s) else send write s

  if_written :
      (same : Bool) (write : S → Result KeycloakError (Unit {0}) × S) (s : S) (x : Unit {0})
      (u v : String)
      → (write s ≡ (ok tt, (send write s).1) → ContainsIn (send write s).1 u v → ContainsIn s u v)
      → (unless same write s).0 ≡ ok x
      → ContainsIn (unless same write s).1 u v
      → ContainsIn s u v
  if_written true write s x u v law h c = c
  if_written false write s x u v law h c = law (send-ok write s x h) c

  module _ (laws : CompositeLaws) where
    description_step :
        (name : String) (plan : UpdatePlan) (s : S) (x : Unit {0})
        → (write_description t client config name plan s).0 ≡ ok x
        → (u v : String) → ContainsIn (write_description t client config name plan s).1 u v
        → ContainsIn s u v
    description_step name plan s x h u v c =
        let write =
          client.update_role name (record plan.rep { description = plan.new_description }) in
        if_written (plan.new_description == t.strip plan.rep.description) write s x u v
          (λ sent c'.
            laws.update_role_law name (record plan.rep { description = plan.new_description }) s
              (send write s).1 u v sent c')
          h c

    adds_step :
        (name : String) (plan : UpdatePlan)
        → IsKnown t plan.known
        → (names : List String) (s : S) (x : Unit {0})
        → (write_members t client config (client.add_role_composites name) plan.known names s).0
          ≡ ok x
        → (u v : String)
        → ContainsIn
            (write_members t client config (client.add_role_composites name) plan.known names s).1
            u
            v
        → ContainsIn s u v ⊎ ((u ≡ name) × (has_name v names ≡ true))
    adds_step name plan k [] s x h u v c = inl c
    adds_step name plan k (m ∷ names) s x h u v c =
        let add = client.add_role_composites name in
        let (reps, chosen, sent) =
          decided-ok (picked plan.known (m ∷ names)) (λ reps. send (add reps)) s h in
        let step =
          decided-eq (picked plan.known (m ∷ names)) (λ reps. send (add reps)) s reps chosen in
        let c' = subst (λ (r : Result Failure (Unit {0}) × S). ContainsIn r.1 u v) step c in
        elim (laws.add_law name reps s (send (add reps) s).1 u v (send-ok (add reps) s x sent) c') [
          | inl d ↦ inl d
          | inr (e, a) ↦ inr (e, sym (names-picked t plan.known k (m ∷ names) reps v chosen) ∙ a)
        ]

    removes_step :
        (name : String) (plan : UpdatePlan) (names : List String) (s : S) (x : Unit {0})
        → (write_members t client config (client.remove_role_composites name) plan.known names s).0
          ≡ ok x
        → (u v : String)
        → ContainsIn
            (write_members t client config
              (client.remove_role_composites name)
              plan.known
              names
              s).1
            u
            v
        → ContainsIn s u v
    removes_step name plan [] s x h u v c = c
    removes_step name plan (m ∷ names) s x h u v c =
        let remove = client.remove_role_composites name in
        let (reps, chosen, sent) =
          decided-ok (picked plan.known (m ∷ names)) (λ reps. send (remove reps)) s h in
        let step =
          decided-eq (picked plan.known (m ∷ names)) (λ reps. send (remove reps)) s reps chosen in
        laws.remove_law name reps s (send (remove reps) s).1 u v (send-ok (remove reps) s x sent)
          (subst (λ (r : Result Failure (Unit {0}) × S). ContainsIn r.1 u v) step c)

    -- What the three writes of an update leave.
    update-contains :
        (name : String) (plan : UpdatePlan)
        → IsKnown t plan.known
        → (s : S) (change : RoleChange) → (write_update t client config name plan s).0 ≡ ok change
        → (u v : String) → ContainsIn (write_update t client config name plan s).1 u v
        → ContainsIn s u v ⊎ ((u ≡ name) × (has_name v plan.to_add ≡ true))
    update-contains name plan k s change h u v c =
        let described = write_description t client config name plan s in
        let added =
          write_members t client config (client.add_role_composites name) plan.known plan.to_add
            described.1 in
        let removed =
          write_members t client config (client.remove_role_composites name) plan.known
            plan.to_remove added.1 in
        let (x, d, h1) = after-ok described _ h in
        let (y, a, h2) = after-ok added _ h1 in
        let (z, r, _) = after-ok removed _ h2 in
        let step = after-eq described _ x d ∙ (after-eq added _ y a ∙ after-eq removed _ z r) in
        let c' = subst (λ (o : Result Failure RoleChange × S). ContainsIn o.1 u v) step c in
        elim (adds_step name plan k plan.to_add described.1 y a u v
          (removes_step name plan plan.to_remove added.1 z r u v c')) [
            | inl d' ↦ inl (description_step name plan s x d u v d')
            | inr e ↦ inr e
          ]

    adds_known :
        (names : List String) (s : S)
        → SmallRealm t client s names
        → (name : String) (members : List String) (plan : UpdatePlan)
        → Planned t client config name members s plan
        → (m : String) → has_name m plan.to_add ≡ true
        → has_name m names ≡ true
    adds_known names s small name members plan p m h = small.listed p.reps p.listed m (
        subst (λ (d : Dict.Dict RoleRep). has_name m (Dict.keys d) ≡ true) p.known_is
          (p.members_known m (
            ground (
              arith,
              has_name-sorted_minus m members (realm_names t p.composites),
              ap (has_name m) p.adds,
              h,
            ))))

    -- In a realm with fewer than 500 roles where no role lies below itself, and for a Keycloak whose
    -- writes change the composites that they name and no others: where an update succeeds, no role
    -- lies below itself after it either.
    pub update-Acyclic :
        (names : List String) (name description : String) (members : List String) (s : S)
        (change : RoleChange)
        → SmallRealm t client s names
        → Acyclic s
        → (update t client config name description members s).0 ≡ ok change
        → Acyclic (update t client config name description members s).1
    unfolding update
    update-Acyclic names name description members s change small old h =
        let plan_of = update_plan t client config name description members s in
        let (plan, planned, written) = decided-ok plan_of (write_update t client config name) s h in
        let p = update_plan-Planned t client config name description members s plan planned in
        let k =
          subst (IsKnown t) (sym p.known_is) (known_of-IsKnown t p.reps [] (IsKnown-empty t)) in
        let step = decided-eq plan_of (write_update t client config name) s plan planned in
        subst (λ (o : Result Failure RoleChange × S). Acyclic o.1) (sym step)
          (kept-Acyclic s (write_update t client config name plan s).1 name
            (λ v. has_name v plan.to_add ≡ true) (update-contains name plan k s change written)
            (check_loops-clear names s small name plan.to_add
              (adds_known names s small name members plan p) p.no_loops)
            old)
