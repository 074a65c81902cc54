-- ===== src/Keycloak.antt =====
-- What the services of app/core see of Keycloak: the representations and the methods of
-- `KeycloakUsers` (src/app/core/keycloak_users.py) as a record of operations over the realm's state.
-- A read answers from the state; a write may have changed it even where it fails. The parallel reads
-- of `gather` are asked in the order in which they are written.
pub mod Known
use papaia_manager.Base.{
  ◌⊎◌, inl, inr, ◌≡◌, refl, ap, ℕ, String, Bool, not, ◌&&◌, ◌||◌, Option, none, some, List, [], ◌∷◌,
  ◌==◌, if◌then◌else◌,
}
use papaia_manager.Base.Dict
use papaia_manager.Base.Dict.{Dict}
use papaia_manager.Base.Text.{TextOps, codes, begins}
use papaia_manager.Base.Result.{Result, ok, err, ◌>>=◌, map_err}
use papaia_manager.Base.Names.{sorted_minus}

pub data ErrorKind : Type 0 where
  unavailable unauthorized forbidden not_found conflict rejected other : ErrorKind

pub record KeycloakError : Type 0 where
  pub error : ErrorKind
  pub detail : String

pub record RoleRep : Type 0 where
  pub name : String
  pub description : String
  pub composite : Bool
  pub client_role : Bool

-- A user as Keycloak has it; `rest` is what the services hand back as they got it.
pub record UserRep : Type 0 where
  pub id : String
  pub username : String
  pub email : String
  pub first_name : String
  pub last_name : String
  pub enabled : Bool
  pub email_verified : Bool
  pub created : Option ℕ
  pub required_actions : List String
  pub rest : String

-- What an account is created with; an empty text is left out.
pub record NewUser : Type 0 where
  pub username : String
  pub enabled : Bool
  pub email : Option String
  pub first_name : Option String
  pub last_name : Option String

pub record SessionRep : Type 0 where
  pub id : String
  pub ip_address : String
  pub start : Option ℕ
  pub last_access : Option ℕ
  pub clients : List String

abbrev pub Read : Type 0 → Type 0 → Type 0
Read S A = S → Result KeycloakError A

abbrev pub Write : Type 0 → Type 0 → Type 0
Write S A = S → Result KeycloakError A × S

pub record KeycloakUsers (S : Type 0) : Type 0 where
  pub list_roles : Read S (List RoleRep)
  pub get_role : String → Read S RoleRep
  pub role_composites : String → Read S (List RoleRep)
  pub role_users : String → ℕ → Read S (List String)
  pub create_role : String → String → Write S (Unit {0})
  pub update_role : String → RoleRep → Write S (Unit {0})
  pub delete_role : String → Write S (Unit {0})
  pub add_role_composites : String → List RoleRep → Write S (Unit {0})
  pub remove_role_composites : String → List RoleRep → Write S (Unit {0})
  pub list_users : String → ℕ → ℕ → Read S (List UserRep)
  pub count_users : String → Read S ℕ
  pub get_user : String → Read S UserRep
  pub direct_roles : String → Read S (List RoleRep)
  pub effective_roles : String → Read S (List RoleRep)
  pub user_sessions : String → Read S (List SessionRep)
  pub realm_has_smtp : Read S Bool
  pub create_user : NewUser → Write S String
  pub update_user : String → UserRep → Write S (Unit {0})
  pub set_password : String → String → Write S (Unit {0})
  pub send_password_email : String → Write S (Unit {0})
  pub logout_user : String → Write S (Unit {0})
  pub delete_session : String → Write S (Unit {0})
  pub add_roles : String → List RoleRep → Write S (Unit {0})
  pub remove_roles : String → List RoleRep → Write S (Unit {0})

-- Which rule an `InvalidInput` names.
pub data Reason : Type 0 where
  bad_role_name technical_role long_description built_in_role contains_itself makes_loop : Reason
  bad_username bad_email long_name email_needed no_mail_server no_email own_account
        own_identity_role own_sessions :
      Reason
  unknown_roles : List String → Reason

-- How a service's call fails. `missing` is the KeyError of a lookup; `unfinished` is a walk that has
-- run out of steps.
pub data Failure : Type 0 where
  invalid : Reason → Failure
  keycloak : KeycloakError → Failure
  role_partially_created : String → KeycloakError → Failure
  partially_created : String → String → KeycloakError → Failure
  missing : String → Failure
  unfinished : Failure

abbrev pub ask : {S A : Type 0} → Read S A → S → Result Failure A
ask read s = map_err keycloak (read s)

abbrev pub send : {S A : Type 0} → Write S A → S → Result Failure A × S
send write s = let (answer, s') = write s in (map_err keycloak answer, s')

-- What comes after a call that may have changed the state.
abbrev pub after :
    {S A B : Type 0} → Result Failure A × S → (A → S → Result Failure B × S) → Result Failure B × S
after (err e, s) next = (err e, s)
after (ok a, s) next = next a s

-- What is written once everything has been read and checked.
abbrev pub decided :
    {S A B : Type 0} → Result Failure A → (A → S → Result Failure B × S) → S → Result Failure B × S
decided (err e) next s = (err e, s)
decided (ok a) next s = next a s

-- `is_technical_role`: Keycloak's own roles.
unfoldable pub is_technical_role : String → Bool
is_technical_role name =
    name == "offline_access"
    || name == "uma_authorization"
    || begins (codes "default-roles-") (codes name)

abbrev pub unknown_answer : List String → Result Failure (Unit {0})
unknown_answer [] = ok tt
unknown_answer unknown = err (invalid (unknown_roles unknown))

-- `require_known_roles`
unfoldable pub require_known_roles : List String → Dict RoleRep → Result Failure (Unit {0})
require_known_roles wanted known = unknown_answer (sorted_minus wanted (Dict.keys known))

-- A role that can be handed out.
abbrev pub is_offered : TextOps → RoleRep → Bool
is_offered t rep = let name = t.strip rep.name in not (name == "") && not (is_technical_role name)

-- `_known` and `_known_roles`: the roles that can be handed out, by name; of two with the same name the later one.
abbrev pub known_of : TextOps → List RoleRep → Dict RoleRep → Dict RoleRep
known_of t [] known = known
known_of t (rep ∷ reps) known =
    known_of t reps (if is_offered t rep then Dict.put (t.strip rep.name) rep known else known)

abbrev pub known_roles :
    {S : Type 0} → TextOps → KeycloakUsers S → S → Result Failure (Dict RoleRep)
known_roles t client s = do reps ← ask client.list_roles s; ok (known_of t reps [])

abbrev pub item : String → Option RoleRep → Result Failure RoleRep
item name none = err (missing name)
item name (some rep) = ok rep

-- `[known[name] for name in names]`
unfoldable pub picked : Dict RoleRep → List String → Result Failure (List RoleRep)
picked known [] = ok []
picked known (name ∷ names) = do
  rep ← item name (Dict.get name known)
  reps ← picked known names
  ok (rep ∷ reps)

-- Where the whole has succeeded, the first call has, and so has what came after it.
pub after-ok :
    {S A B : Type 0} (call : Result Failure A × S) (next : A → S → Result Failure B × S) {b : B}
    → (after call next).0 ≡ ok b
    → (a : A) × (call.0 ≡ ok a) × ((next a call.1).0 ≡ ok b)
after-ok (ok a, s) next h = (a, refl, h)
after-ok (err e, s) next h = cc

pub decided-ok :
    {S A B : Type 0} (plan : Result Failure A) (next : A → S → Result Failure B × S) (s : S) {b : B}
    → (decided plan next s).0 ≡ ok b
    → (a : A) × (plan ≡ ok a) × ((next a s).0 ≡ ok b)
decided-ok (ok a) next s h = (a, refl, h)
decided-ok (err e) next s h = cc

-- A first call that has succeeded is followed by the next one, from the state that it has left.
pub after-eq :
    {S A B : Type 0} (call : Result Failure A × S) (next : A → S → Result Failure B × S) (a : A)
    → call.0 ≡ ok a
    → after call next ≡ next a call.1
after-eq (ok x, s) next a h = let same : x ≡ a = cc h in ap (λ y. next y s) same
after-eq (err e, s) next a h = cc

pub decided-eq :
    {S A B : Type 0} (plan : Result Failure A) (next : A → S → Result Failure B × S) (s : S) (a : A)
    → plan ≡ ok a
    → decided plan next s ≡ next a s
decided-eq plan next s a h = ap (λ p. decided p next s) h

-- A request that has succeeded was answered without an error.
pub send-ok :
    {S : Type 0} (write : Write S (Unit {0})) (s : S) (u : Unit {0})
    → (send write s).0 ≡ ok u
    → write s ≡ (ok tt, (send write s).1)
send-ok write s u h = answered (write s) h
  where
    answered :
        {S : Type 0} (a : Result KeycloakError (Unit {0}) × S)
        → map_err keycloak a.0 ≡ ok u
        → a ≡ (ok tt, a.1)
    answered (ok tt, s') h = refl
    answered (err e, s') h = cc

pub ask-ok : {S A : Type 0} (read : Read S A) (s : S) (a : A) → ask read s ≡ ok a → read s ≡ ok a
ask-ok read s a h = asked (read s) a h
  where
    asked :
        {A : Type 0} (answer : Result KeycloakError A) (a : A)
        → map_err keycloak answer ≡ ok a
        → answer ≡ ok a
    asked (ok x) a h = let same : x ≡ a = cc h in ap ok same
    asked (err e) a h = cc

-- A failure of the whole is that of the first call, whose state is left, or that of what came after it.
pub after-err :
    {S A B : Type 0} (call : Result Failure A × S) (next : A → S → Result Failure B × S)
    (e : Failure)
    → (after call next).0 ≡ err e
    → ((call.0 ≡ err e) × ((after call next).1 ≡ call.1))
      ⊎ ((a : A) × (call.0 ≡ ok a) × ((next a call.1).0 ≡ err e))
after-err (ok a, s) next e h = inr (a, refl, h)
after-err (err f, s) next e h = let same : f ≡ e = cc h in inl (ap err same, refl)
