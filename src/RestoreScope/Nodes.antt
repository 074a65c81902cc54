-- ===== src/RestoreScope/Nodes.antt =====
-- src/app/core/restore_scope.py: the loop over the artifacts in `_node_groups`.
use papaia_manager.Base.{
  ℕ, suc, String, Bool, true, false, not, ◌&&◌, Option, none, some, List, [], ◌∷◌, ◌++◌, ◌==◌,
  if◌then◌else◌, any,
}
use papaia_manager.Base.Dict
use papaia_manager.Base.Dict.{Dict}
use papaia_manager.Base.Names.{has_name}
use papaia_manager.RestoreScope.Model.{
  Artifact, Hazard, realm_secrets, sessions_end, ids_inconsistent, keys_stop, accounts_return,
  settings_mounted, whole_bundle, panel_unreachable, ScopeGroup, artifact_selector,
}

abbrev hazard_eq : Hazard → Hazard → Bool
hazard_eq realm_secrets realm_secrets = true
hazard_eq sessions_end sessions_end = true
hazard_eq ids_inconsistent ids_inconsistent = true
hazard_eq keys_stop keys_stop = true
hazard_eq accounts_return accounts_return = true
hazard_eq settings_mounted settings_mounted = true
hazard_eq whole_bundle whole_bundle = true
hazard_eq panel_unreachable panel_unreachable = true
hazard_eq _ _ = false

-- `dict.fromkeys(hazards)`: each once, in the order of first mention.
abbrev pub distinct_hazards : List Hazard → List Hazard → List Hazard
distinct_hazards seen [] = []
distinct_hazards seen (h ∷ hs) =
    let rest = distinct_hazards (h ∷ seen) hs in if any (hazard_eq h) seen then rest else h ∷ rest

abbrev pub or_else {ℓ} : {A : Type ℓ} → A → Option A → A
or_else default none = default
or_else default (some a) = a

-- The nodes that are found, each with its archives and the selectors of its groups.
pub record NodeGroups : Type 0 where
  pub found : Dict ℕ
  pub members : Dict (List String)

-- `node` of an artifact that is the controller's or of a single host counts for none.
abbrev pub is_remote : String → Artifact → Bool
is_remote controller a = not (a.node == "") && not (a.node == controller)

abbrev pub add_member : Dict ScopeGroup → String → List String → List String
add_member groups selector known =
    if has_name selector (Dict.keys groups) && not (has_name selector known)
    then known ++ selector ∷ []
    else known

unfoldable pub add_node : Dict ScopeGroup → NodeGroups → Artifact → NodeGroups
add_node groups nodes a = record {
  found = Dict.put a.node (suc (or_else 0 (Dict.get a.node nodes.found))) nodes.found;
  members =
      Dict.put a.node
        (add_member groups (artifact_selector a) (or_else [] (Dict.get a.node nodes.members)))
        nodes.members;
}

unfoldable pub node_scan :
    Dict ScopeGroup → String → NodeGroups → List (Option Artifact) → NodeGroups
node_scan groups controller nodes [] = nodes
node_scan groups controller nodes (none ∷ rest) = node_scan groups controller nodes rest
node_scan groups controller nodes (some a ∷ rest) =
    node_scan groups controller (if is_remote controller a then add_node groups nodes a else nodes)
      rest

-- The groups that some selectors name.
abbrev pub groups_named : Dict ScopeGroup → List String → List ScopeGroup
groups_named groups [] = []
groups_named groups (n ∷ ns) =
    let rest = groups_named groups ns in
    elim (Dict.get n groups) [ none ↦ rest | some g ↦ g ∷ rest ]

abbrev pub profiles_of : List ScopeGroup → List String
profiles_of [] = []
profiles_of (g ∷ gs) = g.profiles ++ profiles_of gs

abbrev pub hazards_of : List ScopeGroup → List Hazard
hazards_of [] = []
hazards_of (g ∷ gs) = g.hazards ++ hazards_of gs

abbrev pub no_nodes : NodeGroups
no_nodes = record { found = []; members = [] }
