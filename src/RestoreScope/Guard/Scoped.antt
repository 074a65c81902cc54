-- ===== src/RestoreScope/Guard/Scoped.antt =====
-- What `start_scoped_restore` lets through of Keycloak's data: src/app/core/restore_scope.py under
-- src/app/routers/api_maintenance.py.
use papaia_manager.Base.{
  ℕ, String, ◌≡◌, refl, ◌∙◌, Bool, true, false, not, ◌&&◌, ◌||◌, some, List, [], ◌∷◌, ◌++◌, any,
  arith, inl, inr, Bool-cases, any-sort, any-append,
}
use Prim.Native.String.{◌++◌ as text_append}
use papaia_manager.Base.Dict
use papaia_manager.Base.Dict.{Dict}
use papaia_manager.Base.Text.{TextOps}
use papaia_manager.Base.Names.{has_name, text_le}
use papaia_manager.Base.Result.{ok, raise_if-returns}
use papaia_manager.RestoreScope.Model.{Artifact, SnapshotManifest, ScopeGroup, config_selector}
use papaia_manager.RestoreScope.Groups.{
  build_groups, add_all, node_groups, node_group, group_before,
}
use papaia_manager.RestoreScope.Nodes.{node_scan, no_nodes, NodeGroups, or_else, is_remote}
use papaia_manager.RestoreScope.Choice.{
  needs_full_restore, no_grouping, is_chosen, requires_full_restore, scoped_flag,
  has_selectable_groups,
}
use papaia_manager.RestoreScope.Guard.{
  Listed, IsKeycloak, IsKeycloak-selector, names_artifact, IsChosen, keycloak, Guarded,
}
use papaia_manager.RestoreScope.Guard.Groups.{add_all-chooses}
use papaia_manager.RestoreScope.Guard.Nodes.{
  has_name-keys, any-entry, any-map, any-named, node_scan-adds, IsMember,
}

-- What the choice names of an artifact on a node: the node, unless it is the controller.
abbrev pub names_node : String → List String → Artifact → Bool
names_node controller only a = is_remote controller a && has_name (text_append "node:" a.node) only

no_group : Guarded []
unfolding Guarded Dict.get
no_group g found = cc

module _ (t : TextOps) (capitalize gettext : String → String)
    (fill : String → String → String) where
  -- The test of `requires_full_restore` on one group.
  abbrev asks : List String → ScopeGroup → Bool
  asks only g = g.requires_config && is_chosen only g

  asks-build_groups :
      (m : SnapshotManifest) (controller : String) (only : List String)
      → any (asks only) (build_groups t capitalize gettext fill (some m) controller) ≡ (
          any
            (asks only)
            (Dict.values (add_all t capitalize gettext fill m.core_project [] m.artifacts))
          || any (asks only) (
              node_groups t capitalize gettext fill m.artifacts controller
                (add_all t capitalize gettext fill m.core_project [] m.artifacts)))
  unfolding build_groups
  asks-build_groups m controller only =
      let groups = add_all t capitalize gettext fill m.core_project [] m.artifacts in
      let of_nodes = node_groups t capitalize gettext fill m.artifacts controller groups in
      any-sort (group_before t capitalize gettext fill) (asks only) (Dict.values groups ++ of_nodes)
      ∙ any-append (asks only) (Dict.values groups) of_nodes

  chosen-asks :
      (only : List String) (groups : Dict ScopeGroup)
      → IsChosen only groups
      → any (asks only) (Dict.values groups) ≡ true
  chosen-asks only groups (g, found, guarded, chosen) =
      Dict.any-get (asks only) keycloak g groups found (rw (guarded.0, chosen) refl)

  node_group-asks :
      (only : List String) (groups : Dict ScopeGroup) (nodes : NodeGroups) (node : String)
      (count : ℕ) (g : ScopeGroup)
      → Dict.get keycloak groups ≡ some g
      → g.requires_config ≡ true
      → has_name keycloak (or_else [] (Dict.get node nodes.members)) ≡ true
      → has_name (text_append "node:" node) only ≡ true
      → asks only (node_group t capitalize gettext fill groups nodes (node, count)) ≡ true
  unfolding node_group
  node_group-asks only groups nodes node count g found needs member chosen =
      rw
        (
          any-named keycloak g groups (or_else [] (Dict.get node nodes.members)) found needs member,
          chosen,
        )
        refl

  node-asks :
      (m : SnapshotManifest) (controller : String) (only other : List String) (a : Artifact)
      (groups : Dict ScopeGroup)
      → IsChosen other groups
      → Listed a m.artifacts
      → IsKeycloak a
      → names_node controller only a ≡ true
      → any (asks only) (node_groups t capitalize gettext fill m.artifacts controller groups) ≡ true
  unfolding node_groups
  node-asks m controller only other a groups (g, found, guarded, chosen) listed k named =
      let remote : is_remote controller a ≡ true = ground arith in
      let selected : has_name (text_append "node:" a.node) only ≡ true = ground arith in
      let nodes = node_scan groups controller no_nodes m.artifacts in
      let ((c, there), member) : IsMember groups keycloak a.node nodes =
        node_scan-adds groups keycloak controller no_nodes a m.artifacts listed remote
          (IsKeycloak-selector a k) (has_name-keys keycloak g groups found) in
      any-map (asks only) (node_group t capitalize gettext fill groups nodes) _
      ∙ any-sort (λ x y. text_le x.0 y.0) _ nodes.found
      ∙ any-entry _ a.node c nodes.found there
          (node_group-asks only groups nodes a.node c g found guarded.0 member selected)

  names-asks :
      (m : SnapshotManifest) (controller : String) (only : List String) (a : Artifact)
      → Listed a m.artifacts
      → IsKeycloak a
      → (names_artifact m.core_project only a || names_node controller only a) ≡ true
      → any (asks only) (build_groups t capitalize gettext fill (some m) controller) ≡ true
  names-asks m controller only a listed k named =
      let groups = add_all t capitalize gettext fill m.core_project [] m.artifacts in
      let after = λ (names : List String) (h : names_artifact m.core_project names a ≡ true).
        add_all-chooses t capitalize gettext fill names m.core_project a [] m.artifacts listed k h
          no_group in
      asks-build_groups m controller only
      ∙ elim (Bool-cases (names_artifact m.core_project only a)) [
        | inl e ↦ rw (chosen-asks only groups (after only e)) refl
        | inr e ↦
            let there = after (keycloak ∷ []) refl in
            rw (node-asks m controller only (keycloak ∷ []) a groups there listed k (rw e at named))
              (ground arith)
      ]

  -- Once the checks of a scoped restore have let a choice through, and the manifest lists an artifact
  -- of Keycloak, the choice names neither the configuration nor Keycloak's group, nor the artifact's
  -- volume, where that is offered, nor the node that it comes from.
  pub scoped_flag-keycloak :
      (m : SnapshotManifest) (controller : String) (only : List String) (flag : String)
      (a : Artifact)
      → scoped_flag (build_groups t capitalize gettext fill (some m) controller) only ≡ ok flag
      → Listed a m.artifacts
      → IsKeycloak a
      → (has_name config_selector only ≡ false)
        × (names_artifact m.core_project only a ≡ false)
        × (names_node controller only a ≡ false)
  unfolding scoped_flag requires_full_restore
  scoped_flag-keycloak m controller only flag a returned listed k =
      let groups = build_groups t capitalize gettext fill (some m) controller in
      let (_, later) =
        raise_if-returns (not (has_selectable_groups groups)) no_grouping _ returned in
      let (none_asks, _) =
        raise_if-returns (has_name config_selector only || any (asks only) groups)
          needs_full_restore _ later in
      let named = names-asks m controller only a listed k in
      (ground arith, ground arith, ground arith)
