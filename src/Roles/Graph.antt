-- ===== src/Roles/Graph.antt =====
-- src/app/core/roles_service.py: whether a role lies below another one in the graph of the composites.
use papaia_manager.Base.{
  ℕ, zero, suc, String, Bool, true, List, [], ◌∷◌, ◌==◌, if◌then◌else◌, ltb, length,
}
use papaia_manager.Base.Text.{TextOps}
use papaia_manager.Base.Result.{Result, ok, err, ◌>>=◌}
use papaia_manager.Base.Names.{has_name}
use papaia_manager.Keycloak.{KeycloakUsers, Failure, unfinished, ask}
use papaia_manager.Roles.Model.{max_walk, realm_names}

module _ (t : TextOps) {S : Type 0} (client : KeycloakUsers S) where
  -- One round of `_reaches`: each member that is new is noted and queued. `pop` takes the last, so the
  -- queue stands here with its end first.
  abbrev pub note_members : List String → List String → List String → List String × List String
  note_members seen queue [] = (seen, queue)
  note_members seen queue (n ∷ ns) =
      note_members (if has_name n seen then seen else n ∷ seen)
        (if has_name n seen then queue else n ∷ queue) ns

  -- The loop of `_reaches`, so many rounds at most.
  unfoldable pub walk : ℕ → String → List String → List String → S → Result Failure Bool
  walk rounds target seen [] s = ok (has_name target seen)
  walk zero target seen (current ∷ queue) s =
      if ltb (length seen) max_walk then err unfinished else ok (has_name target seen)
  walk (suc rounds) target seen (current ∷ queue) s =
      if ltb (length seen) max_walk
      then if current == target then ok true else (do
        ms ← ask (client.role_composites current) s
        let (seen', queue') = note_members seen queue (realm_names t ms)
        walk rounds target seen' queue' s)
      else ok (has_name target seen)

  unfoldable pub reaches : String → String → S → Result Failure Bool
  reaches start target s = walk max_walk target (start ∷ []) (start ∷ []) s
