-- ===== src/Users/Created.antt =====
-- How creating an account in src/app/core/users_service.py fails.
use papaia_manager.Base.{String, ◌≡◌, ◌⊎◌, true}
use papaia_manager.Base.Dict
use papaia_manager.Base.Dict.{Dict}
use papaia_manager.Base.Text.{TextOps}
use papaia_manager.Base.Result.{Result}
use papaia_manager.Base.Names.{has_name}
use papaia_manager.Keycloak.{KeycloakUsers, Failure, after}
use papaia_manager.Users.Model.{CreatedUser, NewAccount}
use papaia_manager.Users.Account.{CreatePlan, give_roles, first_password}
use papaia_manager.Users.Steps.{IsRefused, LacksRoles, LacksPassword}

module _ (t : TextOps) {S : Type 0} (client : KeycloakUsers S) (actor : String) where
  -- A plan is for the form that was given, and what it gives is known.
  record IsChecked (a : NewAccount) (plan : CreatePlan) : Type 0 where
    same_form : plan.account ≡ a
    chosen_known :
        (n : String) → has_name n plan.chosen ≡ true → has_name n (Dict.keys plan.known) ≡ true

  -- How far creating the account of a form has come where it failed.
  abbrev Stopped : String → NewAccount → S → Failure → S → Type 0
  Stopped password a s e s' =
      IsRefused t client actor a s e s'
      ⊎ (LacksRoles t client actor a s e s' ⊎ LacksPassword t client actor password a s e s')

  module _ (password : String) (plan : CreatePlan) (checked : IsChecked plan.account plan) where
    -- After the account has been made.
    finish : String → S → Result Failure CreatedUser × S
    finish id s =
        after (give_roles t client actor plan.account.username id plan.known plan.chosen s)
          (λ _ s2. first_password t client actor plan.account.credential password id plan s2)
