-- ===== src/Roles/Listed.antt =====
-- Which roles of the realm src/app/core/roles_service.py knows, and what a new name has to be.
use papaia_manager.Base.{
  String, ◌≡◌, ◌⊎◌, if◌then◌else◌, refl, sym, ◌∙◌, subst, Bool, true, false, not, ◌&&◌, some, List,
  [], ◌∷◌, map, ◌==◌, eq_iff, arith, inl, inr, Bool-cases,
}
use papaia_manager.Base.Dict
use papaia_manager.Base.Dict.{Dict}
use papaia_manager.Base.Text.{TextOps, codes}
use papaia_manager.Base.Result.{ok, raise_if, >>=-returns, raise_if-returns}
use papaia_manager.Base.Names.{has_name}
use papaia_manager.Keycloak.{
  RoleRep, invalid, bad_role_name, technical_role, is_technical_role, is_offered, known_of,
}
use papaia_manager.Roles.Model.{is_role_name, check_new_name, validate_role}

get-some :
    (n : String) (known : Dict RoleRep) (rep : RoleRep)
    → Dict.get n known ≡ some rep
    → has_name n (Dict.keys known) ≡ true
unfolding Dict.get
get-some n [] rep h = cc
get-some n ((k, r) ∷ known) rep h = elim (Bool-cases (k == n)) [
  | inl e ↦ rw e refl
  | inr e ↦ rw e (get-some n known rep (rw e at h))
]

module _ (t : TextOps) where
  -- A role that can be handed out and is listed is known.
  pub known_of-listed :
      (p : String) (reps : List RoleRep) (known : Dict RoleRep)
      → is_technical_role p ≡ false
      → (p == "") ≡ false
      → ((rep : RoleRep) × (Dict.get p known ≡ some rep))
        ⊎ (has_name p (map (λ (r : RoleRep). t.strip r.name) reps) ≡ true)
      → has_name p (Dict.keys (known_of t reps known)) ≡ true
  known_of-listed p [] known nt ne (inl (rep, found)) = get-some p known rep found
  known_of-listed p [] known nt ne (inr never) = cc
  known_of-listed p (rep ∷ reps) known nt ne (inl (old, found)) =
      elim (Bool-cases (is_offered t rep)) [
        | inr e ↦ rw e (known_of-listed p reps known nt ne (inl (old, found)))
        | inl e ↦ rw e (
            known_of-listed p reps (Dict.put (t.strip rep.name) rep known) nt ne
              (inl (still (t.strip rep.name == p) (Dict.get-put (t.strip rep.name) p rep known))))
      ]
    where
      still :
          (b : Bool)
          → Dict.get p (Dict.put (t.strip rep.name) rep known)
            ≡ (if b then some rep else Dict.get p known)
          → (r : RoleRep) × (Dict.get p (Dict.put (t.strip rep.name) rep known) ≡ some r)
      still true h = (rep, h)
      still false h = (old, h ∙ found)
  known_of-listed p (rep ∷ reps) known nt ne (inr listed) =
      elim (Bool-cases (t.strip rep.name == p)) [
        | inr other ↦ elim (Bool-cases (is_offered t rep)) [
          | inl e ↦ rw e (
              known_of-listed p reps (Dict.put (t.strip rep.name) rep known) nt ne
                (inr (rw other at listed)))
          | inr e ↦ rw e (known_of-listed p reps known nt ne (inr (rw other at listed)))
        ]
        | inl same ↦
            let offered : is_offered t rep ≡ true =
              subst (λ n. (not (n == "") && not (is_technical_role n)) ≡ true)
                (sym ((eq_iff (t.strip rep.name) p).0 same)) (ground (arith, nt, ne)) in
            rw offered (
              known_of-listed p reps (Dict.put (t.strip rep.name) rep known) nt ne
                (inl (rep, Dict.get-put (t.strip rep.name) p rep known ∙ rw same refl)))
      ]

pub validated :
    (p description : String) (u : Unit {0})
    → validate_role p description true ≡ ok u
    → (is_technical_role p ≡ false) × (not (is_role_name (codes p)) ≡ false)
unfolding validate_role
validated p description u h =
    let (x, checked, _) = >>=-returns (check_new_name true p) _ h in
    let (named, last) =
      raise_if-returns (not (is_role_name (codes p))) (invalid bad_role_name) _ checked in
    (passed (is_technical_role p) last, named)
  where
    passed : {v : Unit {0}} (b : Bool) → raise_if b (invalid technical_role) ≡ ok v → b ≡ false
    passed true h = cc
    passed false h = refl

pub unnamed : (p : String) → not (is_role_name (codes p)) ≡ false → (p == "") ≡ false
unfolding is_role_name
unnamed p h = elim (Bool-cases (p == "")) [
  | inl e ↦
      let never : not (is_role_name (codes "")) ≡ false =
        subst (λ n. not (is_role_name (codes n)) ≡ false) ((eq_iff p "").0 e) h in
      absurd (cc never)
  | inr e ↦ e
]
