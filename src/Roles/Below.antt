-- ===== src/Roles/Below.antt =====
-- The answer of `_reaches` (src/app/core/roles_service.py) is whether the one role lies below the
-- other, as long as the realm has fewer roles than the walk looks at.
use papaia_manager.Base.{
  ℕ, zero, suc, ◌<◌, String, ◌≡◌, ◌⊎◌, ◌↔◌, sym, ap, ◌∙◌, subst, Bool, true, List, [], ◌∷◌, ◌==◌,
  eq_iff, ltb, length, arith, inl, inr, All, Distinct, Bool-cases,
}
use papaia_manager.Base.Dict
use papaia_manager.Base.Text.{TextOps}
use papaia_manager.Base.Result.{Result, ok, err, >>=-returns, map_err}
use papaia_manager.Base.Names.{has_name}
use papaia_manager.Base.Pigeon.{length-le_of_Distinct}
use papaia_manager.Keycloak.{KeycloakError, RoleRep, KeycloakUsers, keycloak, ask, known_of}
use papaia_manager.Roles.Model.{max_walk, realm_names}
use papaia_manager.Roles.Graph.{note_members, walk, reaches}
use papaia_manager.Roles.Search.{seen-noted, queue-noted, fresh-noted, queued-noted, Distinct-noted}

module _ (t : TextOps) {S : Type 0} (client : KeycloakUsers S) (s : S) where
  -- The one role contains the other as a realm role.
  pub record Contains (u v : String) : Type 0 where
    pub members : List RoleRep
    pub composites : client.role_composites u s ≡ ok members
    pub is_member : has_name v (realm_names t members) ≡ true

  -- A role and all that lies below it.
  pub data Below (u : String) : String → Type 0 where
    here : Below u u
    further : {v w : String} → Below u v → Contains v w → Below u w

  -- A list of fewer than 500 names has every role that is on offer and, with a role, what it contains.
  pub record SmallRealm (names : List String) : Type 0 where
    pub few : length names < 500
    pub listed :
        (reps : List RoleRep)
        → client.list_roles s ≡ ok reps
        → (n : String) → has_name n (Dict.keys (known_of t reps [])) ≡ true
        → has_name n names ≡ true
    pub closed : (u v : String) → has_name u names ≡ true → Contains u v → has_name v names ≡ true

  module _ (names : List String) (small : SmallRealm names) (start : String) where
    record Inv (seen queue : List String) : Type 0 where
      sound : (v : String) → has_name v seen ≡ true → Below start v
      queued : (v : String) → has_name v queue ≡ true → has_name v seen ≡ true
      closed :
          (u v : String)
          → has_name u seen ≡ true
          → Contains u v
          → (has_name u queue ≡ true) ⊎ (has_name v seen ≡ true)
      distinct : Distinct seen
      within : (v : String) → has_name v seen ≡ true → has_name v names ≡ true
      begun : has_name start seen ≡ true

    All-within :
        (xs : List String)
        → ((v : String) → has_name v xs ≡ true → has_name v names ≡ true)
        → All (λ v. has_name v names ≡ true) xs
    All-within [] h = tt
    All-within (x ∷ xs) h =
        (h x (ground (arith, eq_iff x x)), All-within xs (λ v e. h v (ground arith)))

    seen-few : (seen queue : List String) → Inv seen queue → ltb (length seen) max_walk ≡ true
    seen-few seen queue inv = ground (
      arith,
      small.few,
      length-le_of_Distinct seen names inv.distinct (All-within seen inv.within),
    )

    only_start : (v : String) → has_name v (start ∷ []) ≡ true → start ≡ v
    only_start v h = ground (arith, eq_iff start v)

    Inv-start : has_name start names ≡ true → Inv (start ∷ []) (start ∷ [])
    Inv-start known = record {
      sound = λ v h. subst (Below start) (only_start v h) here;
      queued = λ v h. h;
      closed = λ u v h c. inl h;
      distinct = (tt, tt);
      within = λ v h. subst (λ w. has_name w names ≡ true) (only_start v h) known;
      begun = ground (arith, eq_iff start start);
    }

    module _ (seen queue : List String) (current : String) (ms : List RoleRep) where
      abbrev noted : List String × List String
      noted = note_members t client seen queue (realm_names t ms)

      abbrev ns : List String
      ns = realm_names t ms

      new_or_seen :
          (v : String)
          → has_name v noted.0 ≡ true
          → (has_name v seen ≡ true) ⊎ (has_name v ns ≡ true)
      new_or_seen v h = ground (arith, seen-noted t client v seen queue ns)

      in_seen : Inv seen (current ∷ queue) → has_name current seen ≡ true
      in_seen inv = inv.queued current (ground (arith, eq_iff current current))

      module _ (answered : client.role_composites current s ≡ ok ms) where
        contained : (v : String) → has_name v ns ≡ true → Contains current v
        contained v h = record { members = ms; composites = answered; is_member = h }

        noted_sound :
            (v : String) → Inv seen (current ∷ queue) → has_name v noted.0 ≡ true → Below start v
        noted_sound v inv h = elim (new_or_seen v h) [
          | inl old ↦ inv.sound v old
          | inr there ↦ further (inv.sound current (in_seen inv)) (contained v there)
        ]

        member_of : (u v : String) → current ≡ u → Contains u v → has_name v ns ≡ true
        member_of u v e c =
            let same : ok c.members ≡ ok ms =
              sym c.composites ∙ (ap (λ w. client.role_composites w s) (sym e) ∙ answered) in
            let eq : c.members ≡ ms = cc same in
            subst (λ m. has_name v (realm_names t m) ≡ true) eq c.is_member

        noted-closed :
            (u v : String)
            → Inv seen (current ∷ queue)
            → has_name u noted.0 ≡ true
            → Contains u v
            → (has_name u noted.1 ≡ true) ⊎ (has_name v noted.0 ≡ true)
        noted-closed u v inv h c = elim (fresh-noted t client u seen queue ns h) [
          | inr queued ↦ inl queued
          | inl old ↦ elim (inv.closed u v old c) [
            | inr there ↦ inr (ground (arith, seen-noted t client v seen queue ns, there))
            | inl waits ↦ elim (Bool-cases (current == u)) [
              | inl same ↦ inr (
                  ground (
                    arith,
                    seen-noted t client v seen queue ns,
                    member_of u v ((eq_iff current u).0 same) c,
                  ))
              | inr other ↦ inl (queue-noted t client u seen queue ns (ground arith))
            ]
          ]
        ]

      Inv-noted :
          client.role_composites current s ≡ ok ms
          → Inv seen (current ∷ queue)
          → Inv noted.0 noted.1
      Inv-noted answered inv = record {
        sound = λ v h. noted_sound answered v inv h;
        queued = λ v h. ground (
          arith,
          queued-noted t client v seen queue ns h,
          inv.queued v,
          seen-noted t client v seen queue ns,
        );
        closed = λ u v h c. noted-closed answered u v inv h c;
        distinct = Distinct-noted t client seen queue (realm_names t ms) inv.distinct;
        within = λ v h. elim (new_or_seen v h) [
          | inl old ↦ inv.within v old
          | inr there ↦
              small.closed current v (inv.within current (in_seen inv)) (contained answered v there)
        ];
        begun = ground (arith, seen-noted t client start seen queue (realm_names t ms), inv.begun);
      }

    asked-ok :
        (answer : Result KeycloakError (List RoleRep)) (ms : List RoleRep)
        → map_err keycloak answer ≡ ok ms
        → answer ≡ ok ms
    asked-ok (ok xs) ms h = let same : xs ≡ ms = cc h in ap ok same
    asked-ok (err e) ms h = cc

    -- What a finished queue has left out does not lie below the start.
    all_seen :
        (seen : List String) → Inv seen [] → (v : String) → Below start v → has_name v seen ≡ true
    all_seen seen inv _ here = inv.begun
    all_seen seen inv _ (further {v} {w} b c) = elim (inv.closed v w (all_seen seen inv v b) c) [
      | inl e ↦ cc
      | inr e ↦ e
    ]

    walk_lem :
        (rounds : ℕ) (target : String) (seen queue : List String) (b : Bool)
        → Inv seen queue
        → walk t client rounds target seen queue s ≡ ok b
        → (b ≡ true) ↔ Below start target
    unfolding walk
    walk_lem rounds target seen [] b inv h =
        (λ e. inv.sound target (cc), λ below. cc (all_seen seen inv target below, h))
    walk_lem zero target seen (current ∷ queue) b inv h =
        cc (rw (seen-few seen (current ∷ queue) inv) at h)
    walk_lem (suc rounds) target seen (current ∷ queue) b inv h =
        elim (Bool-cases (current == target)) [
          | inl same ↦ (
            λ _.
                subst (Below start) ((eq_iff current target).0 same)
                  (inv.sound current (inv.queued current (ground (arith, eq_iff current current)))),
            λ _. cc (rw (seen-few seen (current ∷ queue) inv, same) at h),
          )
          | inr other ↦
              let (ms, asked, rest) =
                >>=-returns (ask (client.role_composites current) s) _
                  (rw (seen-few seen (current ∷ queue) inv, other) at h) in
              let (seen', queue') = noted seen queue current ms in
              walk_lem rounds target seen' queue' b
                (Inv-noted seen queue current ms
                  (asked-ok (client.role_composites current s) ms asked) inv)
                rest
        ]

  -- In a realm whose roles are fewer than 500: where the walk of `_reaches` answers, its answer is
  -- whether the target is the start or lies below it.
  pub reaches_lem :
      (names : List String)
      → SmallRealm names
      → (start target : String) → has_name start names ≡ true
      → (b : Bool) → reaches t client start target s ≡ ok b
      → (b ≡ true) ↔ Below start target
  unfolding reaches
  reaches_lem names small start target known b h =
      walk_lem names small start max_walk target (start ∷ []) (start ∷ []) b
        (Inv-start names small start known) h
