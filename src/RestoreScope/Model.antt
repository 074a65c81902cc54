-- ===== src/RestoreScope/Model.antt =====
-- src/app/core/restore_scope.py: the artifacts of a manifest, the groups that are offered, and the
-- table of what is said of a module and of a volume.
use papaia_manager.Base.{
  ℕ, String, Bool, true, false, ◌||◌, Option, none, some, List, [], ◌∷◌, ◌==◌, if◌then◌else◌,
}
use Prim.Native.String.{◌++◌ as text_append}
use papaia_manager.Base.Names.{has_name}
use papaia_manager.Base.Text.{after_prefix, starts_with}

-- An entry of the manifest's list, each field as a text, empty where it is absent; `node` and
-- `project` are empty for a null too.
pub record Artifact : Type 0 where
  pub kind : String
  pub module_name : String
  pub owner : String
  pub target : String
  pub project : String
  pub node : String
  pub profiles : List String

-- The manifest; an entry that is no mapping is `none`.
pub record SnapshotManifest : Type 0 where
  pub core_project : String
  pub artifacts : List (Option Artifact)

-- The sentences on what a restore breaks, each by what it says.
pub data Hazard : Type 0 where
  realm_secrets sessions_end ids_inconsistent keys_stop accounts_return settings_mounted : Hazard
  whole_bundle panel_unreachable : Hazard

pub data GroupKind : Type 0 where
  of_config of_module of_addon of_node : GroupKind

pub record Presentation : Type 0 where
  pub label : String
  pub summary : String
  pub advanced : Bool
  pub requires_config : Bool
  pub hazards : List Hazard

pub record ScopeItem : Type 0 where
  pub selector : String
  pub label : String
  pub kind : String
  pub target : String
  pub advanced : Bool

pub record ScopeGroup : Type 0 where
  pub selector : String
  pub kind : GroupKind
  pub name : String
  pub label : String
  pub summary : String
  pub profiles : List String
  pub hazards : List Hazard
  pub advanced : Bool
  pub requires_config : Bool
  pub items : List ScopeItem
  pub archives : ℕ

abbrev pub config_selector : String
config_selector = "config"

abbrev presented : String → String → List Hazard → Presentation
presented label summary hazards = record {
  label = label;
  summary = summary;
  advanced = false;
  requires_config = false;
  hazards = hazards;
}

-- `_MODULES.get(module)`
unfoldable pub module_presentation : String → Option Presentation
module_presentation name =
    if name == "keycloak"
    then some
        (record (presented "Keycloak" "Logins, users and realm data"
          (realm_secrets ∷ sessions_end ∷ [])) { requires_config = true })
    else if name == "librechat"
    then some (
        presented "LibreChat" "Conversations, uploads, search index and embeddings"
          (ids_inconsistent ∷ []))
    else if name == "litellm"
    then some (presented "LiteLLM" "Model routing, virtual keys and spend" (keys_stop ∷ []))
    else if name == "localai"
    then some (presented "LocalAI" "Local accounts and downloaded models" (accounts_return ∷ []))
    else if name == "searxng"
    then some (record (presented "SearXNG" "Search settings and cache" (settings_mounted ∷ [])) {
      advanced = true;
    })
    else none

-- `_VOLUMES.get(key)`
unfoldable pub volume_presentation : String → Option Presentation
volume_presentation key =
    if key == "keycloak-postgresql"
    then some (presented "Users and realm" "" [])
    else if key == "librechat-mongodb"
    then some (presented "Conversations" "" [])
    else if key == "librechat-meilisearch"
    then some (presented "Search index" "" [])
    else if key == "librechat-vectordb"
    then some (presented "Embeddings" "" [])
    else if key == "librechat-uploads"
    then some (presented "Uploaded files" "" [])
    else if key == "librechat-images"
    then some (presented "Generated images" "" [])
    else if key == "litellm-postgresql"
    then some (presented "Keys, budgets and spend" "" [])
    else if key == "localai-data"
    then some (presented "Local accounts and generated data" "" [])
    else if key == "localai-models"
    then some (record (presented "Downloaded model weights" "" []) { advanced = true })
    else if key == "searxng_config"
    then some (record (presented "Settings volume" "" []) { advanced = true })
    else none

-- `_HIDDEN_VOLUMES`
unfoldable pub is_hidden : String → Bool
is_hidden key = has_name key ("librechat-logs" ∷ "litellm-prometheus" ∷ "searxng_data" ∷ [])

abbrev pub without_prefix : String → Option String → String
without_prefix target none = target
without_prefix target (some rest) = rest

-- `_volume_key`
unfoldable pub volume_key : String → String → String
volume_key target project =
    if project == ""
    then target
    else without_prefix target (after_prefix (text_append project "_") target)

abbrev pub is_addon : Artifact → Bool
is_addon a = starts_with "addon:" a.owner

-- `_artifact_selector`
unfoldable pub artifact_selector : Artifact → String
artifact_selector a =
    if a.module_name == "" || a.kind == "configdir"
    then ""
    else if is_addon a
    then text_append "addon:" a.module_name
    else text_append "module:" a.module_name
