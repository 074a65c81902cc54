-- ===== src/Keycloak/Known.antt =====
-- The roles that can be handed out (`_known`, `_known_roles`): by their own names, and none of
-- Keycloak's own.
use papaia_manager.Base.{
  String, ◌≡◌, ◌≢◌, refl, sym, ap, ◌∙◌, subst, true, false, Option, none, some, List, [], ◌∷◌, map,
  ◌==◌, eq_iff, if◌then◌else◌, arith, inl, inr, Bool-cases,
}
use papaia_manager.Base.Dict
use papaia_manager.Base.Dict.{Dict}
use papaia_manager.Base.Text.{TextOps}
use papaia_manager.Base.Result.{ok, >>=-returns}
use papaia_manager.Base.Names.{has_name, sorted_minus, has_name-sorted_minus}
use papaia_manager.Keycloak.{
  RoleRep, is_technical_role, require_known_roles, is_offered, known_of, picked, unknown_answer,
  item,
}

-- Every role of the dict is there under its own name, which is not one of Keycloak's own.
pub record IsKnown (t : TextOps) (known : Dict RoleRep) : Type 0 where
  pub own_name : (n : String) (rep : RoleRep) → Dict.get n known ≡ some rep → t.strip rep.name ≡ n
  pub not_technical : (n : String) → is_technical_role n ≡ true → Dict.get n known ≡ none

module _ (t : TextOps) where
  IsKnown-put :
      (rep : RoleRep) (known : Dict RoleRep)
      → is_offered t rep ≡ true
      → IsKnown t known
      → IsKnown t (Dict.put (t.strip rep.name) rep known)
  IsKnown-put rep known offered h = record {
    own_name = λ n r e. elim (Bool-cases (t.strip rep.name == n)) [
      | inl same ↦
          let both : (if t.strip rep.name == n then some rep else Dict.get n known) ≡ some r =
            sym (Dict.get-put (t.strip rep.name) n rep known) ∙ e in
          let eq : rep ≡ r = cc (rw same at both) in
          ap (λ (x : RoleRep). t.strip x.name) (sym eq) ∙ (eq_iff (t.strip rep.name) n).0 same
      | inr other ↦
          h.own_name n r (rw other at (sym (Dict.get-put (t.strip rep.name) n rep known) ∙ e))
    ];
    not_technical = λ n e. elim (Bool-cases (t.strip rep.name == n)) [
      | inl same ↦ absurd (
          ground (
            arith,
            offered,
            subst (λ m. is_technical_role m ≡ true) (sym ((eq_iff (t.strip rep.name) n).0 same)) e,
          ))
      | inr other ↦ Dict.get-put (t.strip rep.name) n rep known ∙ rw other (h.not_technical n e)
    ];
  }

  pub known_of-IsKnown :
      (reps : List RoleRep) (known : Dict RoleRep)
      → IsKnown t known
      → IsKnown t (known_of t reps known)
  known_of-IsKnown [] known h = h
  known_of-IsKnown (rep ∷ reps) known h = elim (Bool-cases (is_offered t rep)) [
    | inl e ↦
        rw e (
          known_of-IsKnown reps (Dict.put (t.strip rep.name) rep known) (IsKnown-put rep known e h))
    | inr e ↦ rw e (known_of-IsKnown reps known h)
  ]

pub IsKnown-empty : (t : TextOps) → IsKnown t []
unfolding Dict.get
IsKnown-empty t = record { own_name = λ n rep e. cc; not_technical = λ n e. refl }

none_unknown : (unknown : List String) → unknown_answer unknown ≡ ok tt → unknown ≡ []
none_unknown [] h = refl
none_unknown (n ∷ ns) h = cc

item-some :
    (m : String) (found : Option RoleRep) (rep : RoleRep) → item m found ≡ ok rep → found ≡ some rep
item-some m none rep h = cc
item-some m (some r) rep h = let same : r ≡ rep = cc h in ap some same

-- What passes `require_known_roles` is known.
pub require_known_roles-known :
    (wanted : List String) (known : Dict RoleRep) (n : String)
    → require_known_roles wanted known ≡ ok tt
    → has_name n wanted ≡ true
    → has_name n (Dict.keys known) ≡ true
unfolding require_known_roles
require_known_roles-known wanted known n h e = ground (
  arith,
  has_name-sorted_minus n wanted (Dict.keys known),
  ap (has_name n) (none_unknown (sorted_minus wanted (Dict.keys known)) h),
)

pub get-eq-none :
    (n : String) (known : Dict RoleRep)
    → Dict.get n known ≡ none
    → has_name n (Dict.keys known) ≡ false
unfolding Dict.get
get-eq-none n [] h = refl
get-eq-none n ((k, rep) ∷ known) h = ground (arith, get-eq-none n known)

get_known :
    (n : String) (known : Dict RoleRep)
    → has_name n (Dict.keys known) ≡ true
    → (rep : RoleRep) × (Dict.get n known ≡ some rep)
unfolding Dict.get
get_known n [] h = cc
get_known n ((k, rep) ∷ known) h = elim (Bool-cases (k == n)) [
  | inl e ↦ (rep, rw e refl)
  | inr e ↦ let (r, found) = get_known n known (ground arith) in (r, rw e found)
]

-- What is picked is known.
pub picked-known :
    (known : Dict RoleRep) (names : List String) (reps : List RoleRep) (n : String)
    → picked known names ≡ ok reps
    → has_name n names ≡ true
    → Dict.get n known ≢ none
unfolding picked
picked-known known [] reps n h e = cc
picked-known known (m ∷ names) reps n h e =
    let (rep, found, h') = >>=-returns (item m (Dict.get m known)) _ h in
    let (rest, others, _) = >>=-returns (picked known names) _ h' in
    elim (Bool-cases (m == n)) [
      | inl same ↦ λ gone. cc (item-some m (Dict.get m known) rep found, (eq_iff m n).0 same, gone)
      | inr other ↦ picked-known known names rest n others (ground arith)
    ]

-- The names of what is picked are the names that it was picked by.
pub names-picked :
    (t : TextOps) (known : Dict RoleRep)
    → IsKnown t known
    → (names : List String) (reps : List RoleRep) (n : String) → picked known names ≡ ok reps
    → has_name n (map (λ (r : RoleRep). t.strip r.name) reps) ≡ has_name n names
unfolding picked
names-picked t known k [] reps n h = let same : [] ≡ reps = cc h in rw (← same) refl
names-picked t known k (m ∷ names) reps n h =
    let (rep, found, h') = >>=-returns (item m (Dict.get m known)) _ h in
    let (rest, others, last) = >>=-returns (picked known names) _ h' in
    let same : rep ∷ rest ≡ reps = cc last in
    let own = k.own_name m rep (item-some m (Dict.get m known) rep found) in
    subst
      (λ (l : List RoleRep).
        has_name n (map (λ (r : RoleRep). t.strip r.name) l) ≡ has_name n (m ∷ names))
      same (rw own (ground (arith, names-picked t known k names rest n others)))

-- What is known can be picked.
pub picked_all :
    (known : Dict RoleRep) (names : List String)
    → ((n : String) → has_name n names ≡ true → has_name n (Dict.keys known) ≡ true)
    → (reps : List RoleRep) × (picked known names ≡ ok reps)
unfolding picked
picked_all known [] h = ([], refl)
picked_all known (m ∷ names) h =
    let (rep, found) = get_known m known (h m (ground (arith, eq_iff m m))) in
    let (reps, rest) = picked_all known names (λ n e. h n (ground arith)) in
    (rep ∷ reps, rw (found, rest) refl)
