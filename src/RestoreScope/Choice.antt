-- ===== src/RestoreScope/Choice.antt =====
-- src/app/core/restore_scope.py: what a choice of selectors means, and `selection_flag` of
-- src/app/core/ctl.py with the checks of `start_scoped_restore` (src/app/routers/api_maintenance.py)
-- that stand in front of it.
use papaia_manager.Base.{
  ℕ, String, Bool, true, false, not, ◌&&◌, ◌||◌, Option, none, some, List, [], ◌∷◌, ◌++◌, map, ◌==◌,
  if◌then◌else◌, any, keep, sort, ltb, length, nat_eq,
}
use Prim.Native.String.{◌++◌ as text_append}
use papaia_manager.Base.Names.{has_name, sorted_set, text_le}
use papaia_manager.Base.Result.{Result, ok, ◌>>◌, raise_if}
use papaia_manager.Base.Text.{codes, after_prefix, is_low_or_digit, is_alphanumeric, up_to}
use papaia_manager.RestoreScope.Model.{
  ScopeGroup, ScopeItem, GroupKind, of_module, of_addon, of_node, config_selector,
}

abbrev is_module_or_addon : GroupKind → Bool
is_module_or_addon of_module = true
is_module_or_addon of_addon = true
is_module_or_addon _ = false

-- The kinds whose profiles a scoped restore stops.
abbrev has_core_profiles : GroupKind → Bool
has_core_profiles of_module = true
has_core_profiles of_node = true
has_core_profiles _ = false

abbrev is_addon_group : GroupKind → Bool
is_addon_group of_addon = true
is_addon_group _ = false

unfoldable pub has_selectable_groups : List ScopeGroup → Bool
has_selectable_groups groups = any (λ (g : ScopeGroup). is_module_or_addon g.kind) groups

abbrev item_selectors : ScopeGroup → List String
item_selectors g = map (λ (i : ScopeItem). i.selector) g.items

abbrev group_selectors : List ScopeGroup → List String
group_selectors [] = []
group_selectors (g ∷ gs) = g.selector ∷ item_selectors g ++ group_selectors gs

unfoldable pub allowed_selectors : List ScopeGroup → List String
allowed_selectors groups = config_selector ∷ group_selectors groups

-- A group is chosen by its own selector or by that of one of its items.
abbrev pub is_chosen : List String → ScopeGroup → Bool
is_chosen selected g =
    has_name g.selector selected || any (λ (i : ScopeItem). has_name i.selector selected) g.items

unfoldable pub requires_full_restore : List ScopeGroup → List String → Bool
requires_full_restore groups selected =
    has_name config_selector selected
    || any (λ (g : ScopeGroup). g.requires_config && is_chosen selected g) groups

abbrev chosen_profiles : List String → List ScopeGroup → List String
chosen_profiles selected [] = []
chosen_profiles selected (g ∷ gs) =
    let rest = chosen_profiles selected gs in
    if has_core_profiles g.kind && is_chosen selected g then g.profiles ++ rest else rest

unfoldable pub selected_profiles : List ScopeGroup → List String → List String
selected_profiles groups selected = sorted_set (chosen_profiles selected groups)

unfoldable pub selected_addons : List ScopeGroup → List String → List String
selected_addons groups selected = sort text_le (
    map (λ (g : ScopeGroup). g.name)
      (keep (λ g. is_addon_group g.kind && is_chosen selected g) groups))

-- Why a scoped restore does not start.
pub data ScopeProblem : Type 0 where
  no_grouping needs_full_restore no_selection too_many_selectors : ScopeProblem
  bad_selector own_panel not_in_restore_point : String → ScopeProblem

abbrev pub max_selectors : ℕ
max_selectors = 32

abbrev is_name_char : ℕ → Bool
is_name_char c = is_low_or_digit c || nat_eq c b'-'

abbrev is_volume_char : ℕ → Bool
is_volume_char c = is_alphanumeric c || nat_eq c b'_' || nat_eq c b'.' || nat_eq c b'-'

-- A first character of one class, then so many of another.
abbrev fits : (ℕ → Bool) → (ℕ → Bool) → ℕ → Option String → Bool
fits is_start is_char most none = false
fits is_start is_char most (some s) = elim (codes s) [
  | [] ↦ false
  | c ∷ cs ↦ is_start c && up_to is_char most cs
]

-- `_MODULE_SELECTOR_RE` and `_VOLUME_SELECTOR_RE`
unfoldable pub is_selector : String → Bool
is_selector s =
    fits is_low_or_digit is_name_char 31 (after_prefix "module:" s)
    || fits is_low_or_digit is_name_char 31 (after_prefix "addon:" s)
    || fits is_low_or_digit is_name_char 31 (after_prefix "node:" s)
    || fits is_alphanumeric is_volume_char 127 (after_prefix "volume:" s)

-- The loop over the selectors.
unfoldable pub check_selectors : List String → List String → Result ScopeProblem (Unit {0})
check_selectors allowed [] = ok tt
check_selectors allowed (s ∷ ss) = do
  raise_if (not (is_selector s)) (bad_selector s)
  raise_if (s == "module:manager") (own_panel s)
  raise_if (not (has_name s allowed)) (not_in_restore_point s)
  check_selectors allowed ss

abbrev pub comma_joined : List String → String
comma_joined [] = ""
comma_joined (s ∷ []) = s
comma_joined (s ∷ ss) = text_append s (text_append "," (comma_joined ss))

abbrev pub is_empty : List String → Bool
is_empty [] = true
is_empty _ = false

-- `selection_flag` of src/app/core/ctl.py
unfoldable pub selection_flag : List String → List String → Result ScopeProblem String
selection_flag selectors allowed = do
  let ordered = sorted_set selectors
  raise_if (is_empty ordered) no_selection
  raise_if (ltb max_selectors (length ordered)) too_many_selectors
  check_selectors allowed ordered
  ok (text_append "--only=" (comma_joined ordered))

-- What `start_scoped_restore` asks of the groups before it queues the job.
unfoldable pub scoped_flag : List ScopeGroup → List String → Result ScopeProblem String
scoped_flag groups only = do
  raise_if (not (has_selectable_groups groups)) no_grouping
  raise_if (requires_full_restore groups only) needs_full_restore
  selection_flag only (allowed_selectors groups)
