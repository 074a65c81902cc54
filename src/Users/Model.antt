-- ===== src/Users/Model.antt =====
-- src/app/core/users_service.py: an account as the page shows it, and what a new account has to be.
use papaia_manager.Base.{
  ℕ, String, Bool, true, false, not, ◌&&◌, ◌||◌, Option, List, [], ◌∷◌, ◌==◌, ltb, nat_eq, every,
}
use papaia_manager.Base.Text.{TextOps, codes, size, is_alphanumeric, up_to}
use papaia_manager.Base.Result.{Result, ◌>>◌, raise_if}
use papaia_manager.Keycloak.{Failure, invalid, bad_username, bad_email, long_name, email_needed}

-- The first password of an account: given out once, set by the person by mail, or none.
pub data Credential : Type 0 where
  temporary by_email no_credential : Credential

pub record CreatedUser : Type 0 where
  pub id : String
  pub username : String
  pub temporary_password : Option String
  pub email_sent : Bool
  pub email_error : Option String
  pub roles : List String

pub record RoleOption : Type 0 where
  pub name : String
  pub description : String
  pub direct : Bool
  pub inherited : Bool
  pub locked : Bool
  pub default : Bool

pub record RoleChange : Type 0 where
  pub username : String
  pub added : List String
  pub removed : List String

pub record SessionRow : Type 0 where
  pub id : String
  pub ip_address : String
  pub started : Option ℕ
  pub last_access : Option ℕ
  pub clients : List String

-- The form of a new account.
pub record NewAccount : Type 0 where
  pub username : String
  pub email : String
  pub first_name : String
  pub last_name : String
  pub credential : Credential
  pub roles : List String

abbrev pub max_text : ℕ
max_text = 255

abbrev is_username_char : ℕ → Bool
is_username_char c =
    is_alphanumeric c
    || nat_eq c b'.'
    || nat_eq c b'_'
    || nat_eq c b'@'
    || nat_eq c b'+'
    || nat_eq c b'-'

-- `_USERNAME`
unfoldable pub is_username : List ℕ → Bool
is_username [] = false
is_username (c ∷ []) = false
is_username (c ∷ d ∷ cs) = is_alphanumeric c && is_username_char d && up_to is_username_char 253 cs

abbrev pub wants_email : Credential → Bool
wants_email by_email = true
wants_email _ = false

module _ (t : TextOps) where
  -- `[^@\s]`
  abbrev is_plain : ℕ → Bool
  is_plain c = not (nat_eq c b'@') && not (t.is_space c)

  -- One character of the class or more, up to the end; `begun` says that there was one.
  abbrev last_label : Bool → List ℕ → Bool
  last_label begun [] = begun
  last_label begun (c ∷ cs) =
      let rest = last_label true cs in
      (is_plain c && rest) || (begun && nat_eq c 10 && every (λ _. false) cs)

  abbrev domain : Bool → List ℕ → Bool
  domain begun [] = false
  domain begun (c ∷ cs) =
      let rest = domain true cs in
      (is_plain c && rest) || (begun && nat_eq c b'.' && last_label false cs)

  abbrev local_part : Bool → List ℕ → Bool
  local_part begun [] = false
  local_part begun (c ∷ cs) =
      let rest = local_part true cs in
      (is_plain c && rest) || (begun && nat_eq c b'@' && domain false cs)

  -- `_EMAIL`
  unfoldable pub is_email : List ℕ → Bool
  is_email cs = local_part false cs

  unfoldable pub validate_new_user : NewAccount → Result Failure (Unit {0})
  validate_new_user a = do
    raise_if (not (is_username (codes a.username))) (invalid bad_username)
    raise_if
        (not (a.email == "") && (ltb max_text (size a.email) || not (is_email (codes a.email))))
        (invalid bad_email)
    raise_if (ltb max_text (size a.first_name) || ltb max_text (size a.last_name))
        (invalid long_name)
    raise_if (wants_email a.credential && a.email == "") (invalid email_needed)
