-- ===== src/RestoreScope/Tests.antt =====
-- Runs of the code of RestoreScope on a small restore point.
use papaia_manager.Base.{
  String, ◌≡◌, refl, true, false, none, some, List, [], ◌∷◌, ◌==◌, if◌then◌else◌, keep, ◌≤◌,
}
use papaia_manager.Base.Dict
use papaia_manager.Base.Text.{TextOps}
use papaia_manager.Base.Names.{has_name, sorted_set}
use papaia_manager.Base.Result.{ok}
use Prim.Native.String.{◌++◌ as text_append}
use papaia_manager.RestoreScope.Model.{
  Artifact, SnapshotManifest, config_selector, is_hidden, module_presentation, volume_presentation,
  artifact_selector, volume_key,
}
use papaia_manager.RestoreScope.Groups.{
  build_groups, add_all, add_artifact, joined, new_group, new_items, node_groups, node_group, title,
  config_group,
}
use papaia_manager.RestoreScope.Nodes.{node_scan, add_node}
use papaia_manager.RestoreScope.Choice.{
  selection_flag, check_selectors, is_selector, comma_joined, is_empty, max_selectors, scoped_flag,
  requires_full_restore, has_selectable_groups, allowed_selectors,
}
use papaia_manager.RestoreScope.Steps.{RestoreStep, same_step, parse_steps, read_steps, put_step}
use papaia_manager.RestoreScope.Steps.Latest.{latest, reports, parse_steps-latest}
use papaia_manager.RestoreScope.Guard.{head, tail, names_artifact}
use papaia_manager.RestoreScope.Guard.Scoped.{names_node, scoped_flag-keycloak}
use papaia_manager.RestoreScope.Selection.{IsOffered, selection_flag-returns}

abbrev plain : TextOps
plain = record {
  strip = λ s. s;
  squeeze = λ s. s;
  lower = λ s. s;
  casefold = λ s. s;
  is_space = λ c. false;
}

abbrev volume : String → String → String → Artifact
volume name target node = record {
  kind = "volume";
  module_name = name;
  owner = "core";
  target = target;
  project = "papaia";
  node = node;
  profiles = name ∷ [];
}

abbrev users : Artifact
users = volume "keycloak" "papaia_keycloak-postgresql" "edge"

abbrev chats : Artifact
chats = volume "librechat" "papaia_librechat-mongodb" ""

abbrev manifest : SnapshotManifest
manifest = record { core_project = "papaia"; artifacts = some chats ∷ none ∷ some users ∷ [] }

abbrev only_chats : List String
only_chats = "module:librechat" ∷ []

passes :
    scoped_flag (build_groups plain (λ s. s) (λ s. s) (λ s n. n) (some manifest) "main") only_chats
    ≡ ok "--only=module:librechat"
unfolding scoped_flag build_groups add_all add_artifact joined new_group new_items node_groups
    node_group node_scan add_node title config_group Dict.get Dict.put has_selectable_groups
    requires_full_restore selection_flag check_selectors is_selector allowed_selectors is_hidden
    module_presentation volume_presentation artifact_selector volume_key
passes = refl

scoped_flag-keycloak_example :
    (has_name config_selector only_chats ≡ false)
    × (names_artifact "papaia" only_chats users ≡ false)
    × (names_node "main" only_chats users ≡ false)
unfolding is_hidden
scoped_flag-keycloak_example =
    scoped_flag-keycloak plain (λ s. s) (λ s. s) (λ s n. n) manifest "main" only_chats
      "--only=module:librechat" users passes (tail (tail head)) (refl, refl, refl)

flag_of_two :
    selection_flag
      ("volume:data" ∷ "module:localai" ∷ "volume:data" ∷ [])
      ("config" ∷ "module:localai" ∷ "volume:data" ∷ [])
    ≡ ok "--only=module:localai,volume:data"
unfolding selection_flag check_selectors is_selector
flag_of_two = refl

selection_flag-returns_example :
    ("--only=module:localai,volume:data"
      ≡ text_append "--only="
          (comma_joined (sorted_set ("volume:data" ∷ "module:localai" ∷ "volume:data" ∷ []))))
    × (is_empty (sorted_set ("volume:data" ∷ "module:localai" ∷ "volume:data" ∷ [])) ≡ false)
    × (2 ≤ max_selectors)
    × ((s : String)
        → has_name s ("volume:data" ∷ "module:localai" ∷ "volume:data" ∷ []) ≡ true
        → IsOffered ("config" ∷ "module:localai" ∷ "volume:data" ∷ []) s)
selection_flag-returns_example =
    selection_flag-returns ("volume:data" ∷ "module:localai" ∷ "volume:data" ∷ [])
      ("config" ∷ "module:localai" ∷ "volume:data" ∷ []) "--only=module:localai,volume:data"
      flag_of_two

abbrev lines_of : String → List String
lines_of log =
    "RESTORE-STEP\tbegin a" ∷ "text" ∷ "RESTORE-STEP\tbegin b" ∷ "RESTORE-STEP\tend a" ∷ []

abbrev parts : String → List String
parts s =
    if s == "begin a"
    then "artifact" ∷ "a" ∷ "begin" ∷ []
    else if s == "begin b"
    then "artifact" ∷ "b" ∷ "begin" ∷ []
    else if s == "end a"
    then "artifact" ∷ "a" ∷ "ok" ∷ []
    else s ∷ []

abbrev step : String → String → RestoreStep
step subject state = record { phase = "artifact"; subject = subject; state = state }

steps_of_log : parse_steps plain lines_of parts "log" ≡ step "a" "ok" ∷ step "b" "begin" ∷ []
unfolding parse_steps read_steps put_step
steps_of_log = refl

parse_steps-latest_example :
    keep (same_step (step "a" "")) (parse_steps plain lines_of parts "log")
    ≡ latest (keep (same_step (step "a" "")) (reports plain lines_of parts (lines_of "log")))
parse_steps-latest_example = parse_steps-latest plain lines_of parts (step "a" "") "log"
