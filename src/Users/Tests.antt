-- ===== src/Users/Tests.antt =====
-- A realm with one account, and the theorems on it.
use papaia_manager.Base.{
  String, none, ◌≡◌, inl, inr, refl, sym, ap, ◌∙◌, subst, Bool, true, false, not, ◌&&◌, ◌||◌, List,
  [], ◌∷◌, ◌++◌, map, ◌==◌, eq_iff, arith, keep, nat_eq, Bool-cases,
}
use papaia_manager.Base.Dict
use papaia_manager.Base.Text.{TextOps}
use papaia_manager.Base.Result.{ok, err}
use papaia_manager.Base.Names.{has_name}
use papaia_manager.Keycloak.{
  KeycloakError, UserRep, rejected, RoleRep, KeycloakUsers, known_of, is_technical_role,
  require_known_roles, picked,
}
use papaia_manager.Users.Model.{RoleChange, NewAccount, temporary}
use papaia_manager.Users.RoleSet.{Actor, set_roles, roles_plan}
use papaia_manager.Users.Given.{Holds, RoleLaws, wanted_set, set_roles_lem}

abbrev plain : TextOps
plain = record {
  strip = λ s. s;
  squeeze = λ s. s;
  lower = λ s. s;
  casefold = λ s. s;
  is_space = λ c. nat_eq c b' ';
}

abbrev rep_of : String → RoleRep
rep_of name = record { name = name; description = ""; composite = false; client_role = false }

abbrev offered : List RoleRep
offered = rep_of "admin" ∷ rep_of "reader" ∷ rep_of "writer" ∷ rep_of "offline_access" ∷ []

abbrev ann : UserRep
ann = record {
  id = "u1";
  username = "ann";
  email = "";
  first_name = "Ann";
  last_name = "";
  enabled = true;
  email_verified = false;
  created = none;
  required_actions = [];
  rest = "";
}

abbrev too_short : KeycloakError
too_short = record { error = rejected; detail = "too short" }

abbrev names : List RoleRep → List String
names reps = map (λ (r : RoleRep). r.name) reps

abbrev others : List RoleRep → List RoleRep → List RoleRep
others reps direct = keep (λ (r : RoleRep). not (has_name r.name (names reps))) direct

-- The state is the roles of the account.
abbrev client : KeycloakUsers (List RoleRep)
client = record {
  list_roles = λ direct. ok offered;
  get_role = λ name direct. ok (rep_of name);
  role_composites = λ name direct. ok [];
  role_users = λ name limit direct. ok [];
  create_role = λ name description direct. (ok tt, direct);
  update_role = λ name rep direct. (ok tt, direct);
  delete_role = λ name direct. (ok tt, direct);
  add_role_composites = λ name reps direct. (ok tt, direct);
  remove_role_composites = λ name reps direct. (ok tt, direct);
  list_users = λ search first limit direct. ok (ann ∷ []);
  count_users = λ search direct. ok 1;
  get_user = λ id direct. ok ann;
  direct_roles = λ id direct. ok direct;
  effective_roles = λ id direct. ok direct;
  user_sessions = λ id direct. ok [];
  realm_has_smtp = λ direct. ok false;
  create_user = λ new direct. (ok "u2", direct);
  update_user = λ id rep direct. (ok tt, direct);
  set_password = λ id password direct. (err too_short, direct);
  send_password_email = λ id direct. (ok tt, direct);
  logout_user = λ id direct. (ok tt, direct);
  delete_session = λ id direct. (ok tt, direct);
  add_roles = λ id reps direct. (ok tt, direct ++ reps);
  remove_roles = λ id reps direct. (ok tt, others reps direct);
}

abbrev actor : Actor
actor = record { sub = "u1"; identity_role = "admin"; default_role = "reader" }

names-append :
    (n : String) (a b : List RoleRep)
    → has_name n (names (a ++ b)) ≡ (has_name n (names a) || has_name n (names b))
names-append n [] b = refl
names-append n (r ∷ a) b = ground (arith, names-append n a b)

names-others :
    (n : String) (reps a : List RoleRep)
    → has_name n (names (others reps a)) ≡ (has_name n (names a) && not (has_name n (names reps)))
names-others n reps [] = refl
names-others n reps (r ∷ a) = elim (Bool-cases (r.name == n)) [
  | inl same ↦
      subst
        (λ k.
          has_name k (names (others reps (r ∷ a)))
          ≡ (has_name k (names (r ∷ a)) && not (has_name k (names reps))))
        ((eq_iff r.name n).0 same)
        (ground (arith, eq_iff r.name r.name, names-others r.name reps a))
  | inr other ↦ ground (arith, names-others n reps a)
]

held_names :
    (id : String) (s : List RoleRep) (set : String → Bool) (n : String)
    → Holds plain client actor id s set
    → has_name n (names s) ≡ set n
held_names id s set n held =
    let answer : ok s ≡ ok held.direct = held.answer in
    let same : s ≡ held.direct = cc answer in
    ap (λ (d : List RoleRep). has_name n (names d)) same ∙ held.names n

laws : RoleLaws plain client actor
laws = record {
  add_law = λ id reps s s' set e held. record {
    direct = s ++ reps;
    answer = ap ok (sym (ap (λ x. x.1) e));
    names = λ n.
        names-append n s reps ∙ ap (λ b. b || has_name n (names reps)) (held_names id s set n held);
  };
  remove_law = λ id reps s s' set e held. record {
    direct = others reps s;
    answer = ap ok (sym (ap (λ x. x.1) e));
    names = λ n.
        names-others n reps s
        ∙ ap (λ b. b && not (has_name n (names reps))) (held_names id s set n held);
  };
}

abbrev before : List RoleRep
before = rep_of "admin" ∷ rep_of "offline_access" ∷ []

abbrev change : RoleChange
change = record { username = "ann"; added = "reader" ∷ []; removed = [] }

abbrev wanted : List String
wanted = "admin" ∷ "reader" ∷ []

changes : (set_roles plain client actor "u1" wanted before).0 ≡ ok change
unfolding set_roles roles_plan require_known_roles is_technical_role picked Dict.get Dict.put
changes = refl

abbrev plain_admin : List RoleRep
plain_admin = rep_of "admin" ∷ rep_of "writer" ∷ []

set_roles_lem_example :
    Holds plain client actor "u1"
      (set_roles plain client actor "u1" wanted before).1
      (wanted_set plain client actor (known_of plain offered []) wanted before)
set_roles_lem_example =
    set_roles_lem plain client actor laws "u1" wanted before change offered before refl refl changes

abbrev form : NewAccount
form = record {
  username = "bob";
  email = "";
  first_name = "";
  last_name = "";
  credential = temporary;
  roles = [];
}
