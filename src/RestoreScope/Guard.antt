-- ===== src/RestoreScope/Guard.antt =====
-- Keycloak's data is restored only with the configuration: the guard of src/app/core/restore_scope.py.
pub mod Groups
pub mod Nodes
pub mod Scoped
use papaia_manager.Base.{
  ℕ, suc, String, ◌≡◌, ◌≢◌, refl, sym, ap, ◌∙◌, subst, Bool, true, false, not, ◌&&◌, ◌||◌, Option,
  none, some, List, [], ◌∷◌, ◌++◌, map, ◌==◌, eq_iff, if◌then◌else◌, any, sort, arith, inl, inr,
  Bool-cases, Option-cases, any-sort, any-append,
}
use Prim.Native.String.{◌++◌ as text_append}
use mathlib.Core.Option.{some-injective}
use papaia_manager.Base.Dict
use papaia_manager.Base.Dict.{Dict}
use papaia_manager.Base.Text.{TextOps, after_prefix, after_prefix-append}
use papaia_manager.Base.Names.{has_name}
use papaia_manager.Base.Result.{Result, ok, err, ◌>>=◌, ◌>>◌, raise_if, raise_if-returns}
use papaia_manager.RestoreScope.Model.{
  Artifact, SnapshotManifest, ScopeItem, ScopeGroup, config_selector, is_addon, artifact_selector,
  module_presentation, volume_presentation, is_hidden,
}
use papaia_manager.RestoreScope.Choice.{is_chosen, requires_full_restore, scoped_flag}
use papaia_manager.RestoreScope.Groups.{
  add_artifact, add_all, joined, new_group, new_items, build_groups, key_of, node_groups,
}
use papaia_manager.RestoreScope.Nodes.{or_else}

-- An artifact that the manifest lists.
pub data Listed (a : Artifact) : List (Option Artifact) → Type 0 where
  head : {xs : List (Option Artifact)} → Listed a (some a ∷ xs)
  tail : {x : Option Artifact} {xs : List (Option Artifact)} → Listed a xs → Listed a (x ∷ xs)

abbrev pub keycloak : String
keycloak = "module:keycloak"

module_of : (m : String) → text_append "module:" m ≡ keycloak → m ≡ "keycloak"
module_of m h =
    let both : some m ≡ some "keycloak" =
      sym (after_prefix-append "module:" m) ∙ ap (after_prefix "module:") h in
    cc both

not_addon : (m : String) → text_append "addon:" m ≢ keycloak
not_addon m h =
    let both : some m ≡ none =
      sym (after_prefix-append "addon:" m) ∙ ap (after_prefix "addon:") h in
    cc both

no_selector : "" ≢ keycloak
no_selector h = let both : none ≡ some "keycloak" = ap (after_prefix "module:") h in cc both

-- The selector of Keycloak's group is that of an artifact of the core's module of this name.
pub selector-keycloak :
    (a : Artifact)
    → artifact_selector a ≡ keycloak
    → (is_addon a ≡ false) × (a.module_name ≡ "keycloak")
unfolding artifact_selector
selector-keycloak a h =
    ground (arith, module_of a.module_name, not_addon a.module_name, no_selector)

abbrev pub joins_group : Artifact → Bool
joins_group a =
    not (a.kind == "configdir") && not (a.module_name == "") && artifact_selector a == keycloak

pub joins_group-selector : (a : Artifact) → joins_group a ≡ true → artifact_selector a ≡ keycloak
joins_group-selector a h = ground (arith, eq_iff (artifact_selector a) keycloak)

-- What Keycloak's group is like: it asks for the configuration.
abbrev pub IsGuarded : ScopeGroup → Type 0
IsGuarded g = (g.requires_config ≡ true) × (g.selector ≡ keycloak)

unfoldable pub Guarded : Dict ScopeGroup → Type 0
Guarded groups = (g : ScopeGroup) → Dict.get keycloak groups ≡ some g → IsGuarded g

-- An artifact of Keycloak, as the core writes it into the manifest.
abbrev pub IsKeycloak : Artifact → Type 0
IsKeycloak a =
    ((a.kind == "configdir") ≡ false) × (is_addon a ≡ false) × (a.module_name ≡ "keycloak")

pub IsKeycloak-selector : (a : Artifact) → IsKeycloak a → artifact_selector a ≡ keycloak
unfolding artifact_selector
IsKeycloak-selector a (kind, core, name) = rw (kind, core, name) refl

-- What the choice names of an artifact: its group, or its volume, where that is offered.
abbrev pub names_artifact : String → List String → Artifact → Bool
names_artifact project only a =
    has_name keycloak only
    || (a.kind == "volume"
        && not (is_hidden (key_of project a))
        && has_name (text_append "volume:" a.target) only)

-- The group of Keycloak is there, and the choice names it or one of its items.
abbrev pub IsChosen : List String → Dict ScopeGroup → Type 0
IsChosen only groups =
    (g : ScopeGroup) × (Dict.get keycloak groups ≡ some g) × IsGuarded g × (is_chosen only g ≡ true)

pub IsKeycloak-joins : (a : Artifact) → IsKeycloak a → joins_group a ≡ true
IsKeycloak-joins a k =
    let same = IsKeycloak-selector a k in
    let named : (a.module_name == "") ≡ false = subst (λ n. (n == "") ≡ false) (sym k.2) refl in
    ground (arith, eq_iff (artifact_selector a) keycloak)
