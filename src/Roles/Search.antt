-- ===== src/Roles/Search.antt =====
-- What `_reaches` of src/app/core/roles_service.py finds out about the graph of the composites.
use papaia_manager.Base.{
  ℕ, zero, suc, ◌+◌, ◌≤◌, String, ◌≡◌, ◌≢◌, ◌⊎◌, ap, Bool, true, false, ◌||◌, List, [], ◌∷◌, ◌==◌,
  eq_iff, if◌then◌else◌, ltb, length, arith, inl, inr, Distinct, Bool-cases,
}
use papaia_manager.Base.Text.{TextOps}
use papaia_manager.Base.Result.{Result, ok, err, ◌>>=◌, map_err}
use papaia_manager.Base.Names.{has_name}
use papaia_manager.Base.Pigeon.{All-ne_of_has_name}
use papaia_manager.Keycloak.{KeycloakError, RoleRep, KeycloakUsers, Failure, keycloak, unfinished}
use papaia_manager.Roles.Model.{max_walk, realm_names}
use papaia_manager.Roles.Graph.{note_members, walk, reaches}

module _ (t : TextOps) {S : Type 0} (client : KeycloakUsers S) where
  abbrev noted : List String → List String → List String → List String × List String
  noted = note_members t client

  round_of : List String → List String → List String → String → Bool → List String × List String
  round_of seen queue ns n old =
      noted (if old then seen else n ∷ seen) (if old then queue else n ∷ queue) ns

  noted-old :
      (n : String) (seen queue ns : List String)
      → has_name n seen ≡ true
      → noted seen queue (n ∷ ns) ≡ noted seen queue ns
  unfolding round_of
  noted-old n seen queue ns e = ap (round_of seen queue ns n) e

  noted-new :
      (n : String) (seen queue ns : List String)
      → has_name n seen ≡ false
      → noted seen queue (n ∷ ns) ≡ noted (n ∷ seen) (n ∷ queue) ns
  unfolding round_of
  noted-new n seen queue ns e = ap (round_of seen queue ns n) e

  pub seen-noted :
      (v : String) (seen queue ns : List String)
      → has_name v (noted seen queue ns).0 ≡ (has_name v seen || has_name v ns)
  seen-noted v seen queue [] = ground arith
  seen-noted v seen queue (n ∷ ns) = elim (Bool-cases (has_name n seen)) [
    | inl e ↦
        rw (noted-old n seen queue ns e) (ground (arith, seen-noted v seen queue ns, eq_iff n v, e))
    | inr e ↦
        rw (noted-new n seen queue ns e) (ground (arith, seen-noted v (n ∷ seen) (n ∷ queue) ns))
  ]

  pub queue-noted :
      (v : String) (seen queue ns : List String)
      → has_name v queue ≡ true
      → has_name v (noted seen queue ns).1 ≡ true
  queue-noted v seen queue [] h = h
  queue-noted v seen queue (n ∷ ns) h = elim (Bool-cases (has_name n seen)) [
    | inl e ↦ rw (noted-old n seen queue ns e) (queue-noted v seen queue ns h)
    | inr e ↦
        rw (noted-new n seen queue ns e) (queue-noted v (n ∷ seen) (n ∷ queue) ns (ground arith))
  ]

  pub fresh-noted :
      (v : String) (seen queue ns : List String)
      → has_name v (noted seen queue ns).0 ≡ true
      → (has_name v seen ≡ true) ⊎ (has_name v (noted seen queue ns).1 ≡ true)
  fresh-noted v seen queue [] h = inl h
  fresh-noted v seen queue (n ∷ ns) h = elim (Bool-cases (has_name n seen)) [
    | inl e ↦
        rw (noted-old n seen queue ns e)
          (fresh-noted v seen queue ns (rw (noted-old n seen queue ns e) at h))
    | inr e ↦ rw (noted-new n seen queue ns e) (
        ground (
          arith,
          fresh-noted v (n ∷ seen) (n ∷ queue) ns (rw (noted-new n seen queue ns e) at h),
          queue-noted v (n ∷ seen) (n ∷ queue) ns,
        ))
  ]

  pub queued-noted :
      (v : String) (seen queue ns : List String)
      → has_name v (noted seen queue ns).1 ≡ true
      → (has_name v queue ≡ true) ⊎ (has_name v (noted seen queue ns).0 ≡ true)
  queued-noted v seen queue [] h = inl h
  queued-noted v seen queue (n ∷ ns) h = elim (Bool-cases (has_name n seen)) [
    | inl e ↦
        rw (noted-old n seen queue ns e)
          (queued-noted v seen queue ns (rw (noted-old n seen queue ns e) at h))
    | inr e ↦ rw (noted-new n seen queue ns e) (
        ground (
          arith,
          queued-noted v (n ∷ seen) (n ∷ queue) ns (rw (noted-new n seen queue ns e) at h),
          seen-noted v (n ∷ seen) (n ∷ queue) ns,
        ))
  ]

  length-noted :
      (seen queue ns : List String)
      → length (noted seen queue ns).0 + length queue ≡ length (noted seen queue ns).1 + length seen
  length-noted seen queue [] = omega arith
  length-noted seen queue (n ∷ ns) = elim (Bool-cases (has_name n seen)) [
    | inl e ↦ rw (noted-old n seen queue ns e) (length-noted seen queue ns)
    | inr e ↦
        rw (noted-new n seen queue ns e) (omega (arith, length-noted (n ∷ seen) (n ∷ queue) ns))
  ]

  pub Distinct-noted :
      (seen queue ns : List String) → Distinct seen → Distinct (noted seen queue ns).0
  Distinct-noted seen queue [] d = d
  Distinct-noted seen queue (n ∷ ns) d = elim (Bool-cases (has_name n seen)) [
    | inl e ↦ rw (noted-old n seen queue ns e) (Distinct-noted seen queue ns d)
    | inr e ↦
        rw (noted-new n seen queue ns e)
          (Distinct-noted (n ∷ seen) (n ∷ queue) ns (All-ne_of_has_name n seen e, d))
  ]

  asked-ends :
      (answer : Result KeycloakError (List RoleRep)) (next : List RoleRep → Result Failure Bool)
      → ((ms : List RoleRep) → next ms ≢ err unfinished)
      → (map_err keycloak answer >>= next) ≢ err unfinished
  asked-ends (ok ms) next h = h ms
  asked-ends (err e) next h = λ q. cc

  -- No more rounds are needed than the bound on the roles that are seen: each round takes one of them.
  walk-ends :
      (rounds : ℕ) (target : String) (seen queue : List String) (s : S)
      → max_walk + length queue ≤ rounds + length seen
      → walk t client rounds target seen queue s ≢ err unfinished
  unfolding walk
  walk-ends rounds target seen [] s h e = cc
  walk-ends zero target seen (current ∷ queue) s h e = ground arith
  walk-ends (suc rounds) target seen (current ∷ queue) s h e =
      elim (Bool-cases (ltb (length seen) max_walk)) [
        | inl few ↦ elim (Bool-cases (current == target)) [
          | inl same ↦ cc (rw (few, same) at e)
          | inr further ↦
              asked-ends (client.role_composites current s) _
                (λ ms.
                  let ns = realm_names t ms in
                  walk-ends rounds target (noted seen queue ns).0 (noted seen queue ns).1 s
                    (omega (arith, h, length-noted seen queue ns)))
                (rw (few, further) at e)
        ]
        | inr many ↦ cc (rw many at e)
      ]

  -- For every client, state and pair of roles: the walk of `_reaches` comes to its end, in no more
  -- than 500 rounds, whatever members Keycloak names.
  pub reaches_ends :
      (start target : String) (s : S) → reaches t client start target s ≢ err unfinished
  unfolding reaches
  reaches_ends start target s = walk-ends max_walk target (start ∷ []) (start ∷ []) s (omega arith)
