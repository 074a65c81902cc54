-- ===== src/Users/Steps.antt =====
-- The steps of creating an account in src/app/core/users_service.py, and how each one ends it.
use papaia_manager.Base.{
  String, ◌≡◌, ◌⊎◌, inl, inr, refl, sym, ap, ◌∙◌, true, false, some, List, [], ◌∷◌,
}
use papaia_manager.Base.Dict
use papaia_manager.Base.Dict.{Dict}
use papaia_manager.Base.Text.{TextOps}
use papaia_manager.Base.Result.{Result, ok, err, map_err}
use papaia_manager.Base.Names.{has_name}
use papaia_manager.Keycloak.{
  KeycloakError, RoleRep, KeycloakUsers, Failure, keycloak, partially_created, send, after, picked,
  decided-eq,
}
use papaia_manager.Keycloak.Known.{picked_all}
use papaia_manager.Users.Model.{
  Credential, temporary, by_email, no_credential, CreatedUser, NewAccount,
}
use papaia_manager.Users.Account.{
  CreatePlan, representation, unfinished_step, give_roles, created, mailed, first_password,
}
use papaia_manager.Users.Partial.{is_partial}

module _ (t : TextOps) {S : Type 0} (client : KeycloakUsers S) (actor : String) where
  -- Nothing has been sent, and the failure does not say that the account was made.
  pub record IsUnsent (s : S) (e : Failure) (s' : S) : Type 0 where
    pub same : s' ≡ s
    pub not_made : is_partial e ≡ false

  -- The request for the account has failed, which is the failure.
  pub record IsRefused (a : NewAccount) (s : S) (e : Failure) (s' : S) : Type 0 where
    pub cause : KeycloakError
    pub refused : client.create_user (representation t client actor a) s ≡ (err cause, s')
    pub says : e ≡ keycloak cause

  -- The account was made, and the request that gives it its roles has failed.
  pub record LacksRoles (a : NewAccount) (s : S) (e : Failure) (s' : S) : Type 0 where
    pub id : String
    pub made_at : S
    pub reps : List RoleRep
    pub cause : KeycloakError
    pub made : client.create_user (representation t client actor a) s ≡ (ok id, made_at)
    pub refused : client.add_roles id reps made_at ≡ (err cause, s')
    pub says : e ≡ partially_created a.username "giving it its roles" cause

  -- The roles are given, by one request or, where there are none, by no request.
  abbrev pub AreGiven : String → S → S → Type 0
  AreGiven id s s' = (s' ≡ s) ⊎ ((reps : List RoleRep) × (client.add_roles id reps s ≡ (ok tt, s')))

  -- The account was made and has its roles, and the request that sets its password has failed.
  pub record LacksPassword (password : String) (a : NewAccount) (s : S) (e : Failure) (s' : S)
      : Type 0 where
    pub id : String
    pub made_at : S
    pub given_at : S
    pub cause : KeycloakError
    pub made : client.create_user (representation t client actor a) s ≡ (ok id, made_at)
    pub roles_given : AreGiven id made_at given_at
    pub wants : a.credential ≡ temporary
    pub refused : client.set_password id password given_at ≡ (err cause, s')
    pub says : e ≡ partially_created a.username "setting its password" cause

  -- What a step has been answered where it ends creating the account.
  abbrev pub Ended :
      {A : Type 0} → String → String → Result KeycloakError A × S → Failure → S → Type 0
  Ended username step answer e s' =
      (k : KeycloakError) × (answer ≡ (err k, s')) × (e ≡ partially_created username step k)

  step-Ended :
      {A : Type 0} (username step : String) (answer : Result KeycloakError A × S) (e : Failure)
      → (unfinished_step t client actor username step (map_err keycloak answer.0, answer.1)).0
        ≡ err e
      → Ended username step answer e
          (unfinished_step t client actor username step (map_err keycloak answer.0, answer.1)).1
  step-Ended username step (ok a, s) e h = cc
  step-Ended username step (err k, s) e h = (k, refl, sym (cc h))

  step-given :
      (username step : String) (answer : Result KeycloakError (Unit {0}) × S) (u : Unit {0})
      → (unfinished_step t client actor username step (map_err keycloak answer.0, answer.1)).0
        ≡ ok u
      → answer ≡ (
        ok tt,
        (unfinished_step t client actor username step (map_err keycloak answer.0, answer.1)).1,
      )
  step-given username step (ok tt, s) u h = refl
  step-given username step (err k, s) u h = cc

  -- Giving roles is one request where there are some and they are known.
  roles_step :
      (username user_id : String) (known : Dict RoleRep) (m : String) (names : List String) (s : S)
      → ((n : String) → has_name n (m ∷ names) ≡ true → has_name n (Dict.keys known) ≡ true)
      → (reps : List RoleRep) × (give_roles t client actor username user_id known (m ∷ names) s
          ≡ unfinished_step t client actor username "giving it its roles"
              (send (client.add_roles user_id reps) s))
  roles_step username user_id known m names s k =
      let (reps, found) = picked_all known (m ∷ names) k in
      let step =
        decided-eq (picked known (m ∷ names)) (λ reps. send (client.add_roles user_id reps)) s reps
          found in
      (reps, ap (unfinished_step t client actor username "giving it its roles") step)

  pub give_roles-Ended :
      (username user_id : String) (known : Dict RoleRep) (chosen : List String) (s : S)
      (e : Failure)
      → ((n : String) → has_name n chosen ≡ true → has_name n (Dict.keys known) ≡ true)
      → (give_roles t client actor username user_id known chosen s).0 ≡ err e
      → (reps : List RoleRep) × Ended username "giving it its roles"
          (client.add_roles user_id reps s)
          e
          (give_roles t client actor username user_id known chosen s).1
  give_roles-Ended username user_id known [] s e k h = cc
  give_roles-Ended username user_id known (m ∷ names) s e k h =
      let (reps, step) = roles_step username user_id known m names s k in
      let (cause, refused, says) =
        step-Ended username "giving it its roles" (client.add_roles user_id reps s) e
          (sym (ap (λ o. o.0) step) ∙ h) in
      (reps, (cause, refused ∙ ap (λ o. (err cause, o.1)) (sym step), says))

  pub give_roles-given :
      (username user_id : String) (known : Dict RoleRep) (chosen : List String) (s : S)
      (u : Unit {0})
      → ((n : String) → has_name n chosen ≡ true → has_name n (Dict.keys known) ≡ true)
      → (give_roles t client actor username user_id known chosen s).0 ≡ ok u
      → AreGiven user_id s (give_roles t client actor username user_id known chosen s).1
  give_roles-given username user_id known [] s u k h = inl refl
  give_roles-given username user_id known (m ∷ names) s u k h =
      let (reps, step) = roles_step username user_id known m names s k in
      let answered =
        step-given username "giving it its roles" (client.add_roles user_id reps s) u
          (sym (ap (λ o. o.0) step) ∙ h) in
      inr (reps, answered ∙ ap (λ o. (ok tt, o.1)) (sym step))

  mailed-ok :
      (user : CreatedUser) (answer : Result KeycloakError (Unit {0}) × S) (e : Failure)
      → (mailed t client actor user answer).0 ≡ err e
      → ⊥
  mailed-ok user (ok x, s) e h = cc
  mailed-ok user (err k, s) e h = cc

  password_step :
      (username user_id password : String) (plan : CreatePlan)
      (answer : Result KeycloakError (Unit {0}) × S) (e : Failure)
      → let whole =
          after
            (unfinished_step t client actor username "setting its password"
              (map_err keycloak answer.0, answer.1))
            (λ _ s'. (
              ok (record (created t client actor user_id plan) {
                temporary_password = some password;
              }),
              s',
            )) in
        whole.0 ≡ err e → Ended username "setting its password" answer e whole.1
  password_step username user_id password plan (ok x, s) e h = cc
  password_step username user_id password plan (err k, s) e h = (k, refl, sym (cc h))

  pub first_password-Ended :
      (credential : Credential) (password user_id : String) (plan : CreatePlan) (s : S)
      (e : Failure)
      → (first_password t client actor credential password user_id plan s).0 ≡ err e
      → (credential ≡ temporary)
        × Ended plan.account.username "setting its password"
            (client.set_password user_id password s)
            e
            (first_password t client actor credential password user_id plan s).1
  first_password-Ended temporary password user_id plan s e h = (
    refl,
    password_step plan.account.username user_id password plan
        (client.set_password user_id password s) e h,
  )
  first_password-Ended by_email password user_id plan s e h =
      absurd
        (mailed-ok (created t client actor user_id plan) (client.send_password_email user_id s) e h)
  first_password-Ended no_credential password user_id plan s e h = cc
