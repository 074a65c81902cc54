-- ===== src/RestoreScope/Groups.antt =====
-- src/app/core/restore_scope.py: the groups of one restore point. `text` has what Python does with
-- texts, `capitalize` among it; `gettext` is the translation, and `fill` puts a name into its text.
use papaia_manager.Base.{
  ℕ, suc, String, Bool, true, false, not, ◌&&◌, ◌||◌, Option, none, some, List, [], ◌∷◌, ◌++◌, map,
  ◌==◌, if◌then◌else◌, any, sort, nat_eq, ltb,
}
use Prim.Native.String.{◌++◌ as text_append, [] as end, ◌∷◌ as char}
use Prim.Native.Char.{code}
use papaia_manager.Base.Dict
use papaia_manager.Base.Dict.{Dict}
use papaia_manager.Base.Text.{TextOps}
use papaia_manager.Base.Names.{has_name, sorted_set, text_le}
use papaia_manager.RestoreScope.Nodes.{
  NodeGroups, node_scan, groups_named, profiles_of, hazards_of, distinct_hazards, or_else, no_nodes,
}
use papaia_manager.RestoreScope.Model.{
  Artifact, SnapshotManifest, whole_bundle, panel_unreachable, GroupKind, of_config, of_module,
  of_addon, of_node, Presentation, ScopeItem, ScopeGroup, config_selector, module_presentation,
  volume_presentation, is_hidden, volume_key, is_addon, artifact_selector,
}

-- Both `replace` calls of `_title`.
abbrev with_spaces : String → String
with_spaces end = ""
with_spaces (char c s) =
    if nat_eq (code c) b'-' || nat_eq (code c) b'_'
    then text_append " " (with_spaces s)
    else char c (with_spaces s)

-- A profile that is said and not yet there.
abbrev add_profiles : List String → List String → List String
add_profiles known [] = known
add_profiles known (p ∷ ps) =
    add_profiles (if p == "" || has_name p known then known else known ++ p ∷ []) ps

-- Which of the four kinds of group stands first.
abbrev rank : GroupKind → ℕ
rank of_config = 0
rank of_module = 1
rank of_addon = 2
rank of_node = 3

abbrev false_first : Bool → Bool → Bool
false_first true false = false
false_first _ _ = true

abbrev pub key_of : String → Artifact → String
key_of core_project a = volume_key a.target (if a.project == "" then core_project else a.project)

module _ (t : TextOps) (capitalize gettext : String → String)
    (fill : String → String → String) where
  -- `_title`
  unfoldable pub title : String → String
  title name =
      let shown = capitalize (t.strip (with_spaces name)) in if shown == "" then name else shown

  unfoldable pub config_group : ScopeGroup
  config_group = record {
    selector = config_selector;
    kind = of_config;
    name = config_selector;
    label = gettext "Stack configuration";
    summary =
        gettext "Environment files, rendered service configs, proxy database and certificates";
    profiles = [];
    hazards = whole_bundle ∷ panel_unreachable ∷ [];
    advanced = false;
    requires_config = true;
    items = [];
    archives = 0;
  }

  abbrev known_group : Artifact → GroupKind → Option Presentation → ScopeGroup
  known_group a kind none = record {
    selector = artifact_selector a;
    kind = kind;
    name = a.module_name;
    label = title a.module_name;
    summary = gettext "Application data and documents";
    profiles = [];
    hazards = [];
    advanced = false;
    requires_config = false;
    items = [];
    archives = 0;
  }
  known_group a kind (some known) = record {
    selector = artifact_selector a;
    kind = kind;
    name = a.module_name;
    label = gettext known.label;
    summary = gettext known.summary;
    profiles = [];
    hazards = known.hazards;
    advanced = known.advanced;
    requires_config = known.requires_config;
    items = [];
    archives = 0;
  }

  -- The group that the first artifact of a module or an add-on opens.
  unfoldable pub new_group : Artifact → ScopeGroup
  new_group a =
      if is_addon a
      then known_group a of_addon none
      else known_group a of_module (module_presentation a.module_name)

  abbrev volume_item : String → String → Option Presentation → ScopeItem
  volume_item target key none = record {
    selector = text_append "volume:" target;
    label = title key;
    kind = "volume";
    target = target;
    advanced = false;
  }
  volume_item target key (some known) = record {
    selector = text_append "volume:" target;
    label = gettext known.label;
    kind = "volume";
    target = target;
    advanced = known.advanced;
  }

  -- The items that one artifact adds: a volume that is not hidden.
  unfoldable pub new_items : String → Artifact → List ScopeItem
  new_items core_project a =
      if a.kind == "volume" && not (is_hidden (key_of core_project a))
      then volume_item a.target (key_of core_project a)
          (volume_presentation (key_of core_project a))
        ∷ []
      else []

  unfoldable pub joined : String → Artifact → ScopeGroup → ScopeGroup
  joined core_project a g = record g {
    profiles = add_profiles g.profiles a.profiles;
    archives = suc g.archives;
    items = g.items ++ new_items core_project a;
  }

  -- One round of the loop over the artifacts.
  unfoldable pub add_artifact : String → Dict ScopeGroup → Artifact → Dict ScopeGroup
  add_artifact core_project groups a =
      if a.kind == "configdir"
      then (let g = or_else config_group (Dict.get config_selector groups) in
          Dict.put config_selector (record g { archives = suc g.archives }) groups)
      else if a.module_name == ""
      then groups
      else let selector = artifact_selector a in
        Dict.put selector (joined core_project a (or_else (new_group a) (Dict.get selector groups)))
          groups

  unfoldable pub add_all : String → Dict ScopeGroup → List (Option Artifact) → Dict ScopeGroup
  add_all core_project groups [] = groups
  add_all core_project groups (none ∷ rest) = add_all core_project groups rest
  add_all core_project groups (some a ∷ rest) =
      add_all core_project (add_artifact core_project groups a) rest

  unfoldable pub node_group : Dict ScopeGroup → NodeGroups → String × ℕ → ScopeGroup
  node_group groups nodes (name, count) =
      let gs = groups_named groups (or_else [] (Dict.get name nodes.members)) in
      record {
        selector = text_append "node:" name;
        kind = of_node;
        name = name;
        label = fill (gettext "Node %(name)s") name;
        summary = gettext "All data of this node. No other node is touched.";
        profiles = sorted_set (profiles_of gs);
        hazards = distinct_hazards [] (hazards_of gs);
        advanced = false;
        requires_config = any (λ (g : ScopeGroup). g.requires_config) gs;
        items = [];
        archives = count;
      }

  -- `_node_groups`
  unfoldable pub node_groups : List (Option Artifact) → String → Dict ScopeGroup → List ScopeGroup
  node_groups artifacts controller groups =
      let nodes = node_scan groups controller no_nodes artifacts in
      map (node_group groups nodes) (sort (λ a b. text_le a.0 b.0) nodes.found)

  -- The order of the tuples (rank, advanced, label.lower()).
  abbrev pub group_before : ScopeGroup → ScopeGroup → Bool
  group_before a b =
      ltb (rank a.kind) (rank b.kind)
      || (nat_eq (rank a.kind) (rank b.kind)
          && (false_first a.advanced b.advanced
              && (not (false_first b.advanced a.advanced)
                  || text_le (t.lower a.label) (t.lower b.label))))

  -- `none` is no manifest, or an empty one.
  unfoldable pub build_groups : Option SnapshotManifest → String → List ScopeGroup
  build_groups none controller = []
  build_groups (some m) controller =
      let groups = add_all m.core_project [] m.artifacts in
      sort group_before (Dict.values groups ++ node_groups m.artifacts controller groups)
