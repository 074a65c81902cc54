-- ===== src/Roles/Model.antt =====
-- src/app/core/roles_service.py: a role as the page shows it, and what a role has to be.
use papaia_manager.Base.{
  ℕ, String, Bool, true, false, not, ◌&&◌, ◌||◌, List, [], ◌∷◌, ◌==◌, if◌then◌else◌, ltb, nat_eq,
}
use Prim.Native.String.{◌++◌ as text_append}
use papaia_manager.Base.Dict.{Dict}
use papaia_manager.Base.Text.{TextOps, codes, size, is_alphanumeric, up_to}
use papaia_manager.Base.Result.{Result, ok, ◌>>◌, raise_if}
use papaia_manager.Base.Names.{has_name}
use papaia_manager.Keycloak.{
  KeycloakError, not_found, conflict, RoleRep, Failure, invalid, bad_role_name, technical_role,
  long_description, built_in_role, is_technical_role,
}

-- The roles of the realm template.
abbrev pub built_in_roles : List String
built_in_roles =
    "papaia-admin" ∷ "librechat-admin" ∷ "librechat-user" ∷ "litellm-admin" ∷ "manager-admin"
    ∷ "npm-admin" ∷ "user" ∷ "viewer" ∷ "finance" ∷ "localai-access" ∷ "qdrant-admin"
    ∷ "qdrant-ingest-operator" ∷ []

abbrev pub max_description : ℕ
max_description = 255

abbrev pub users_shown : ℕ
users_shown = 100

abbrev pub max_walk : ℕ
max_walk = 500

pub record RoleRow : Type 0 where
  pub name : String
  pub description : String
  pub members : List String
  pub client_members : List String
  pub built_in : Bool
  pub default : Bool

pub data RolesView : Type 0 where
  shown : List RoleRow → RolesView
  no_right : RolesView
  not_available : String → RolesView

pub record RoleDetail : Type 0 where
  pub role : RoleRow
  pub users : List String
  pub users_more : Bool

pub record RoleChange : Type 0 where
  pub name : String
  pub description_changed : Bool
  pub added : List String
  pub removed : List String

-- The configuration of the manager: the roles it needs itself and the one of its dashboard.
pub record RolesConfig : Type 0 where
  pub protected : List String
  pub default_role : String

-- `_NAME`
abbrev is_role_char : ℕ → Bool
is_role_char c =
    is_alphanumeric c || nat_eq c b'.' || nat_eq c b'_' || nat_eq c b':' || nat_eq c b'-'

unfoldable pub is_role_name : List ℕ → Bool
is_role_name [] = false
is_role_name (c ∷ cs) = is_alphanumeric c && up_to is_role_char 126 cs

abbrev pub check_new_name : Bool → String → Result Failure (Unit {0})
check_new_name false name = ok tt
check_new_name true name = do
  raise_if (not (is_role_name (codes name))) (invalid bad_role_name)
  raise_if (is_technical_role name) (invalid technical_role)

unfoldable pub validate_role : String → String → Bool → Result Failure (Unit {0})
validate_role name description creating =
    check_new_name creating name
    >> raise_if (ltb max_description (size description)) (invalid long_description)

-- `_require_shown`
abbrev pub require_shown : String → Result Failure (Unit {0})
require_shown name = raise_if (is_technical_role name) (invalid technical_role)

-- What an update and a creation have found to write.
pub record UpdatePlan : Type 0 where
  pub rep : RoleRep
  pub new_description : String
  pub known : Dict RoleRep
  pub to_add : List String
  pub to_remove : List String

abbrev pub not_there : String → KeycloakError
not_there name = record {
  error = not_found;
  detail = text_append "Role " (text_append name " was not found.");
}

abbrev pub already_there : String → KeycloakError
already_there name = record {
  error = conflict;
  detail = text_append "A role named " (text_append name " already exists.");
}

module _ (t : TextOps) where
  -- The names of the realm roles among some members.
  abbrev pub realm_names : List RoleRep → List String
  realm_names [] = []
  realm_names (m ∷ ms) =
      let name = t.strip m.name in
      let rest = realm_names ms in
      if not m.client_role && not (name == "") then name ∷ rest else rest

  abbrev pub client_names : List RoleRep → List String
  client_names [] = []
  client_names (m ∷ ms) =
      let name = t.strip m.name in
      let rest = client_names ms in if m.client_role && not (name == "") then name ∷ rest else rest

module _ (config : RolesConfig) where
  -- `_built_in`
  abbrev pub is_built_in : String → Bool
  is_built_in name = has_name name built_in_roles || has_name name config.protected

  -- `_require_editable`
  unfoldable pub require_editable : String → Result Failure (Unit {0})
  require_editable name = require_shown name >> raise_if (is_built_in name) (invalid built_in_role)
