-- ===== src/Roles/Tests.antt =====
-- A realm of a few roles, and the theorems on it.
use papaia_manager.Base.{
  String, ◌≡◌, ◌≢◌, ◌⊎◌, ◌↔◌, refl, sym, ap, ◌∙◌, subst, Bool, true, false, not, Option, none, some,
  List, [], ◌∷◌, ◌++◌, map, ◌==◌, eq_iff, if◌then◌else◌, arith, inl, inr, keep, Bool-cases,
}
use papaia_manager.Base.Dict
use papaia_manager.Base.Dict.{Dict}
use papaia_manager.Base.Text.{TextOps}
use papaia_manager.Base.Result.{Result, ok, err}
use papaia_manager.Base.Names.{has_name}
use papaia_manager.Keycloak.{
  KeycloakError, not_found, RoleRep, KeycloakUsers, unfinished, is_technical_role, known_of,
  require_known_roles, picked,
}
use papaia_manager.Roles.Model.{
  RolesConfig, RoleChange, realm_names, require_editable, validate_role,
}
use papaia_manager.Roles.Graph.{reaches, walk}
use papaia_manager.Roles.Change.{update, update_plan, check_loops}
use papaia_manager.Roles.Below.{Contains, Below, here, further, SmallRealm, reaches_lem}
use papaia_manager.Roles.Search.{reaches_ends}
use papaia_manager.Roles.Protected.{update-technical}
use papaia_manager.Roles.Others.{RequestLaws}
use papaia_manager.Roles.Kept.{
  is_protected, RoleOperation, creating, updating, deleting, perform_all, protected-kept,
}
use papaia_manager.Roles.Acyclic.{Acyclic, CompositeLaws, update-Acyclic}

abbrev plain : TextOps
plain = record {
  strip = λ s. s;
  squeeze = λ s. s;
  lower = λ s. s;
  casefold = λ s. s;
  is_space = λ c. false;
}

-- The realm roles with what each contains.
abbrev Realm : Type 0
Realm = Dict (List RoleRep)

abbrev rep_of : String → RoleRep
rep_of name = record { name = name; description = ""; composite = true; client_role = false }

abbrev or_nothing : Option (List RoleRep) → List RoleRep
or_nothing none = []
or_nothing (some reps) = reps

unfoldable below_of : String → Realm → List RoleRep
below_of u realm = or_nothing (Dict.get u realm)

abbrev no_answer : {A : Type 0} → Result KeycloakError A
no_answer = err (record { error = not_found; detail = "" })

abbrev client : KeycloakUsers Realm
client = record {
  list_roles = λ realm. ok (map rep_of (Dict.keys realm));
  get_role = λ name realm. ok (rep_of name);
  role_composites = λ name realm. ok (below_of name realm);
  role_users = λ name limit realm. ok [];
  create_role = λ name description realm. (ok tt, Dict.put name [] realm);
  update_role = λ name rep realm. (ok tt, realm);
  delete_role = λ name realm. (ok tt, Dict.remove name realm);
  add_role_composites =
      λ name reps realm. (ok tt, Dict.put name (below_of name realm ++ reps) realm);
  remove_role_composites = λ name reps realm. (
    ok tt,
    Dict.put name
        (keep (λ (r : RoleRep). not (has_name r.name (map (λ (x : RoleRep). x.name) reps)))
          (below_of name realm))
        realm,
  );
  list_users = λ search first limit realm. ok [];
  count_users = λ search realm. ok 0;
  get_user = λ id realm. no_answer;
  direct_roles = λ id realm. no_answer;
  effective_roles = λ id realm. no_answer;
  user_sessions = λ id realm. no_answer;
  realm_has_smtp = λ realm. ok false;
  create_user = λ new realm. (no_answer, realm);
  update_user = λ id rep realm. (no_answer, realm);
  set_password = λ id password realm. (no_answer, realm);
  send_password_email = λ id realm. (no_answer, realm);
  logout_user = λ id realm. (no_answer, realm);
  delete_session = λ id realm. (no_answer, realm);
  add_roles = λ id reps realm. (no_answer, realm);
  remove_roles = λ id reps realm. (no_answer, realm);
}

abbrev config : RolesConfig
config = record { protected = "ops" ∷ []; default_role = "ops" }

below_of-put :
    (name u : String) (reps : List RoleRep) (realm : Realm)
    → below_of u (Dict.put name reps realm) ≡ (if name == u then reps else below_of u realm)
unfolding below_of
below_of-put name u reps realm =
    ap or_nothing (Dict.get-put name u reps realm) ∙ chosen (name == u) (Dict.get u realm)
  where
    chosen :
        (b : Bool) (o : Option (List RoleRep))
        → or_nothing (if b then some reps else o) ≡ (if b then reps else or_nothing o)
    chosen true o = refl
    chosen false o = refl

-- What is a member is among the composites.
contains :
    (realm : Realm) (u v : String)
    → has_name v (realm_names plain (below_of u realm)) ≡ true
    → Contains plain client realm u v
contains realm u v h = record { members = below_of u realm; composites = refl; is_member = h }

member :
    (realm : Realm) (u v : String)
    → Contains plain client realm u v
    → has_name v (realm_names plain (below_of u realm)) ≡ true
member realm u v c =
    let both : ok (below_of u realm) ≡ ok c.members = c.composites in
    let same : below_of u realm ≡ c.members = cc both in
    subst (λ (m : List RoleRep). has_name v (realm_names plain m) ≡ true) (sym same) c.is_member

added_names :
    (v : String) (old reps : List RoleRep)
    → has_name v (realm_names plain (old ++ reps)) ≡ true
    → has_name v (realm_names plain old) ≡ false
    → has_name v (map (λ (r : RoleRep). r.name) reps) ≡ true
added_names v [] [] h k = cc
added_names v [] (r ∷ reps) h k = ground (arith, added_names v [] reps)
added_names v (r ∷ old) reps h k = ground (arith, added_names v old reps)

kept_names :
    (v : String) (p : RoleRep → Bool) (old : List RoleRep)
    → has_name v (realm_names plain (keep p old)) ≡ true
    → has_name v (realm_names plain old) ≡ true
kept_names v p [] h = h
kept_names v p (r ∷ old) h = ground (arith, kept_names v p old)

after_put :
    (name u v : String) (new : List RoleRep) (s s' : Realm)
    → Dict.put name new s ≡ s'
    → Contains plain client s' u v
    → has_name v (realm_names plain (if name == u then new else below_of u s)) ≡ true
after_put name u v new s s' e c =
    subst (λ (m : List RoleRep). has_name v (realm_names plain m) ≡ true)
      (ap (below_of u) (sym e) ∙ below_of-put name u new s) (member s' u v c)

added_or_old :
    (name u v : String) (reps : List RoleRep) (s : Realm)
    → has_name v (realm_names plain (if name == u then below_of name s ++ reps else below_of u s))
      ≡ true
    → Contains plain client s u v
      ⊎ ((u ≡ name) × (has_name v (map (λ (r : RoleRep). r.name) reps) ≡ true))
added_or_old name u v reps s h = elim (Bool-cases (name == u)) [
  | inr other ↦ inl (contains s u v (rw other at h))
  | inl same ↦
      let eq = (eq_iff name u).0 same in
      elim (Bool-cases (has_name v (realm_names plain (below_of name s)))) [
        | inl old ↦ inl (subst (λ x. Contains plain client s x v) eq (contains s name v old))
        | inr new ↦ inr (sym eq, added_names v (below_of name s) reps (rw same at h) new)
      ]
]

kept_is_old :
    (name u v : String) (p : RoleRep → Bool) (s : Realm)
    → has_name v (realm_names plain (if name == u then keep p (below_of name s) else below_of u s))
      ≡ true
    → Contains plain client s u v
kept_is_old name u v p s h = elim (Bool-cases (name == u)) [
  | inr other ↦ contains s u v (rw other at h)
  | inl same ↦
      subst (λ x. Contains plain client s x v) ((eq_iff name u).0 same)
        (contains s name v (kept_names v p (below_of name s) (rw same at h)))
]

laws : CompositeLaws plain client config
laws = record {
  update_role_law =
      λ name rep s s' u v e c. subst (λ x. Contains plain client x u v) (sym (ap (λ x. x.1) e)) c;
  add_law = λ name reps s s' u v e c.
      added_or_old name u v reps s
        (after_put name u v (below_of name s ++ reps) s s' (ap (λ x. x.1) e) c);
  remove_law = λ name reps s s' u v e c.
      kept_is_old name u v
        (λ (r : RoleRep). not (has_name r.name (map (λ (x : RoleRep). x.name) reps))) s
        (after_put name u v
          (keep (λ (r : RoleRep). not (has_name r.name (map (λ (x : RoleRep). x.name) reps)))
            (below_of name s))
          s s' (ap (λ x. x.1) e) c);
}

-- `team` contains `reader`; `intern` contains one of Keycloak's own roles.
abbrev realm : Realm
realm = ("team", rep_of "reader" ∷ []) ∷ ("reader", []) ∷ ("writer", []) ∷ []

abbrev names : List String
names = "team" ∷ "reader" ∷ "writer" ∷ []

one_member : (u v : String) → Contains plain client realm u v → ("team" ≡ u) × ("reader" ≡ v)
unfolding below_of Dict.get
one_member u v c =
    let h = member realm u v c in ground (arith, h, eq_iff "team" u, eq_iff "reader" v)

offered_names :
    (n : String)
    → has_name n (Dict.keys (known_of plain (map rep_of names) [])) ≡ true
    → has_name n names ≡ true
unfolding Dict.put is_technical_role
offered_names n h = h

small : SmallRealm plain client realm names
small = record {
  few = omega arith;
  listed = λ reps e n h.
      let same : map rep_of names ≡ reps = cc e in
      offered_names n (
        subst (λ (rs : List RoleRep). has_name n (Dict.keys (known_of plain rs [])) ≡ true)
          (sym same) h);
  closed = λ u v h c.
      let (_, is_reader) = one_member u v c in subst (λ x. has_name x names ≡ true) is_reader refl;
}

last_is_reader : (u v : String) → Below plain client realm v u → (v ≡ u) ⊎ ("reader" ≡ u)
last_is_reader u v here = inl refl
last_is_reader u v (further {v = x} {w} q d) = inr (one_member x u d).1

no_loop_at : (u v : String) → Contains plain client realm u v → ¬ Below plain client realm v u
no_loop_at u v c p =
    let (is_team, is_reader) = one_member u v c in
    elim (last_is_reader u v p) [
      | inl e ↦ absurd (ground (arith, eq_iff "reader" "team", is_reader ∙ (e ∙ sym is_team)))
      | inr e ↦ absurd (ground (arith, eq_iff "reader" "team", e ∙ sym is_team))
    ]

realm-Acyclic : Acyclic plain client config realm
realm-Acyclic = record { no_loop = no_loop_at }

abbrev changed : RoleChange
changed = record { name = "writer"; description_changed = true; added = "team" ∷ []; removed = [] }

changes : (update plain client config "writer" "Writes." ("team" ∷ []) realm).0 ≡ ok changed
unfolding update update_plan require_editable is_technical_role validate_role Dict.put Dict.get
    require_known_roles below_of check_loops reaches walk picked
changes = refl

update-Acyclic_example :
    Acyclic plain client config
      (update plain client config "writer" "Writes." ("team" ∷ []) realm).1
update-Acyclic_example =
    update-Acyclic plain client config laws names "writer" "Writes." ("team" ∷ []) realm changed
      small realm-Acyclic changes

walks : reaches plain client "team" "reader" realm ≡ ok true
unfolding reaches walk below_of Dict.get
walks = refl

reaches_lem_example : (true ≡ true) ↔ Below plain client realm "team" "reader"
reaches_lem_example = reaches_lem plain client realm names small "team" "reader" refl true walks

reaches_ends_example : reaches plain client "team" "writer" realm ≢ err unfinished
reaches_ends_example = reaches_ends plain client "team" "writer" realm

own_role : is_technical_role "offline_access" ≡ true
unfolding is_technical_role
own_role = refl

listed_name :
    (p : String) (s : Realm) (v : List RoleRep)
    → Dict.get p s ≡ some v
    → has_name p (map (λ (r : RoleRep). r.name) (map rep_of (Dict.keys s))) ≡ true
unfolding Dict.get
listed_name p [] v h = cc
listed_name p ((k, x) ∷ s) v h = elim (Bool-cases (k == p)) [
  | inl e ↦ rw e refl
  | inr e ↦ rw e (listed_name p s v (rw e at h))
]

put_other :
    (name p : String) (new : List RoleRep) (s : Realm)
    → name ≢ p
    → Dict.get p (Dict.put name new s) ≡ Dict.get p s
put_other name p new s ne =
    let other : (name == p) ≡ false = ground (arith, eq_iff name p, ne) in
    Dict.get-put name p new s ∙ rw other refl

requests : RequestLaws plain client config Dict.get
requests = record {
  listed = λ p s v reps there e.
      let same : map rep_of (Dict.keys s) ≡ reps = cc e in
      subst (λ (rs : List RoleRep). has_name p (map (λ (r : RoleRep). r.name) rs) ≡ true) same
        (listed_name p s v there);
  create_law = λ name description p s ne. put_other name p [] s ne;
  update_law = λ name p rep s ne. refl;
  delete_law = λ name p s ne.
      let other : (name == p) ≡ false = ground (arith, eq_iff name p, ne) in
      Dict.get-remove name p s ∙ rw other refl;
  add_law = λ name p reps s ne. put_other name p (below_of name s ++ reps) s ne;
  remove_law = λ name p reps s ne.
      put_other name p
        (keep (λ (r : RoleRep). not (has_name r.name (map (λ (x : RoleRep). x.name) reps)))
          (below_of name s))
        s ne;
}

-- `ops` is a role that the manager is configured with.
abbrev with_ops : Realm
with_ops = ("ops", rep_of "reader" ∷ []) ∷ realm

abbrev requested : List RoleOperation
requested =
    deleting "ops"
    ∷ updating "ops" "" []
    ∷ creating "ops" "" []
    ∷ updating "team" "" ("ops" ∷ [])
    ∷ deleting "writer"
    ∷ creating "audit" "Reads." ("ops" ∷ [])
    ∷ []

ops_protected : is_protected config "ops" ≡ true
ops_protected = refl

ops_there : Dict.get "ops" with_ops ≡ some (rep_of "reader" ∷ [])
unfolding Dict.get
ops_there = refl

protected-kept_example :
    Dict.get "ops" (perform_all plain client config Dict.get requested with_ops)
    ≡ some (rep_of "reader" ∷ [])
protected-kept_example =
    protected-kept plain client config Dict.get requests "ops" ops_protected requested with_ops
      (rep_of "reader" ∷ []) ops_there

-- A role that contains one of Keycloak's own.
abbrev away : Realm
away = ("mobile", rep_of "offline_access" ∷ []) ∷ []

away_contains : client.role_composites "mobile" away ≡ ok (rep_of "offline_access" ∷ [])
unfolding below_of Dict.get
away_contains = refl

update-technical_example :
    (update plain client config "mobile" "" [] away).0
    ≢ ok (record {
      name = "mobile";
      description_changed = false;
      added = [];
      removed = "offline_access" ∷ [];
    })
update-technical_example =
    update-technical plain client config "mobile" "" [] away (rep_of "offline_access" ∷ [])
      away_contains "offline_access" refl own_role
      (record {
        name = "mobile";
        description_changed = false;
        added = [];
        removed = "offline_access" ∷ [];
      })
