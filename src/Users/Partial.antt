-- ===== src/Users/Partial.antt =====
-- Which failures of src/app/core/users_service.py say that an account was made: none that comes from
-- the checks of a form.
use papaia_manager.Base.{
  String, ◌≡◌, refl, Bool, true, false, not, ◌&&◌, ◌||◌, List, [], ◌∷◌, ◌==◌, ltb,
}
use papaia_manager.Base.Dict
use papaia_manager.Base.Dict.{Dict}
use papaia_manager.Base.Text.{TextOps, codes, size}
use papaia_manager.Base.Result.{Result, ok, err, ◌>>=◌, ◌>>◌, raise_if, map_err}
use papaia_manager.Base.Names.{sorted_set, sorted_minus}
use papaia_manager.Keycloak.{
  KeycloakError, RoleRep, KeycloakUsers, Failure, Reason, invalid, keycloak, partially_created,
  bad_username, bad_email, long_name, email_needed, no_mail_server, ask, unknown_answer,
  require_known_roles, known_roles,
}
use papaia_manager.Users.Model.{
  NewAccount, is_username, is_email, max_text, validate_new_user, wants_email,
}
use papaia_manager.Users.Account.{has_smtp, create_plan}

-- The failure says that the account was made.
abbrev pub is_partial : Failure → Bool
is_partial (partially_created _ _ _) = true
is_partial _ = false

-- A call raises that the account was made.
abbrev pub raises_partial : {A : Type 0} → Result Failure A → Bool
raises_partial (ok _) = false
raises_partial (err e) = is_partial e

>>=-raises_partial :
    {A B : Type 0} (call : Result Failure A) (next : A → Result Failure B)
    → raises_partial call ≡ false
    → ((a : A) → raises_partial (next a) ≡ false)
    → raises_partial (call >>= next) ≡ false
>>=-raises_partial (ok a) next c n = n a
>>=-raises_partial (err e) next c n = c

raise_if-raises_partial :
    {B : Type 0} (test : Bool) (r : Reason) (rest : Result Failure B)
    → raises_partial rest ≡ false
    → raises_partial (raise_if test (invalid r) >> rest) ≡ false
raise_if-raises_partial false r rest h = h
raise_if-raises_partial true r rest h = refl

ask-raises_partial :
    {A : Type 0} (answer : Result KeycloakError A)
    → raises_partial (map_err keycloak answer) ≡ false
ask-raises_partial (ok a) = refl
ask-raises_partial (err e) = refl

require_known_roles-raises_partial :
    (wanted : List String) (known : Dict RoleRep)
    → raises_partial (require_known_roles wanted known) ≡ false
unfolding require_known_roles
require_known_roles-raises_partial wanted known = answer (sorted_minus wanted (Dict.keys known))
  where
    answer : (unknown : List String) → raises_partial (unknown_answer unknown) ≡ false
    answer [] = refl
    answer (n ∷ ns) = refl

module _ (t : TextOps) {S : Type 0} (client : KeycloakUsers S) (actor : String) where
  validate_new_user-raises_partial :
      (a : NewAccount) → raises_partial (validate_new_user t a) ≡ false
  unfolding validate_new_user
  validate_new_user-raises_partial a =
      raise_if-raises_partial (not (is_username (codes a.username))) bad_username _ (
        raise_if-raises_partial
          (not (a.email == "") && (ltb max_text (size a.email) || not (is_email t (codes a.email))))
          bad_email _
          (raise_if-raises_partial
            (ltb max_text (size a.first_name) || ltb max_text (size a.last_name)) long_name _
            (last (wants_email a.credential && a.email == ""))))
    where
      last : (b : Bool) → raises_partial (raise_if b (invalid email_needed)) ≡ false
      last true = refl
      last false = refl

  pub create_plan-raises_partial :
      (a : NewAccount) (s : S) → raises_partial (create_plan t client actor a s) ≡ false
  unfolding create_plan
  create_plan-raises_partial a s =
      >>=-raises_partial (validate_new_user t a) _ (validate_new_user-raises_partial a) (λ _.
        raise_if-raises_partial (wants_email a.credential && not (has_smtp t client actor s))
          no_mail_server _
          (>>=-raises_partial (known_roles t client s) _
            (>>=-raises_partial (ask client.list_roles s) _
              (ask-raises_partial (client.list_roles s)) (λ _. refl))
            (λ known.
              >>=-raises_partial (require_known_roles (sorted_set a.roles) known) _
                (require_known_roles-raises_partial (sorted_set a.roles) known) (λ _. refl))))
