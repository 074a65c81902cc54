-- ===== src/Tiles/Check.antt =====
-- src/app/core/tiles.py: the check of a draft, `validate_config`.
use papaia_manager.Base.{
  ℕ, suc, String, Bool, true, false, not, Option, none, some, List, [], ◌∷◌, ◌++◌, ◌==◌,
  if◌then◌else◌, ltb,
}
use papaia_manager.Base.Dict.{Dict}
use papaia_manager.Base.Names.{has_name}
use papaia_manager.Base.Text.{TextOps, size}
use papaia_manager.Tiles.{WidgetTile, Tile, link, widget, TileGroup}
use papaia_manager.Tiles.Resolve.{LinkProblem, check_value}

pub data Field : Type 0 where
  at_name at_href at_icon at_widget at_title : Field

-- What a problem says.
pub data Message : Type 0 where
  no_group_name no_tile_name no_link no_widget title_too_long : Message
  duplicate_group unknown_widget : String → Message
  bad_link : LinkProblem → Message

pub record Problem : Type 0 where
  pub group : ℕ
  pub tile : Option ℕ
  pub field : Field
  pub message : Message

abbrev max_widget_title : ℕ
max_widget_title = 80

-- Whether a widget is known, where the caller says which are.
abbrev pub is_known : String → Option (List String) → Bool
is_known w none = true
is_known w (some known) = has_name w known

module _ (t : TextOps) (env : Dict String) (known_widgets : Option (List String)) where
  -- `not text.strip()`
  abbrev pub is_blank : String → Bool
  is_blank s = t.strip s == ""

  -- A problem of a field where there is one.
  abbrev pub problem_if : ℕ → ℕ → Field → Bool → Message → List Problem
  problem_if gi ti field false message = []
  problem_if gi ti field true message =
      record { group = gi; tile = some ti; field = field; message = message } ∷ []

  abbrev pub link_problems : ℕ → ℕ → Field → Option LinkProblem → List Problem
  link_problems gi ti field none = []
  link_problems gi ti field (some p) =
      record { group = gi; tile = some ti; field = field; message = bad_link p } ∷ []

  -- `_widget_problems`
  unfoldable pub widget_problems : ℕ → ℕ → WidgetTile → List Problem
  widget_problems gi ti w =
      (if is_blank w.widget
        then problem_if gi ti at_widget true no_widget
        else problem_if gi ti at_widget (not (is_known w.widget known_widgets))
            (unknown_widget w.widget))
      ++ problem_if gi ti at_title (ltb max_widget_title (size w.title)) title_too_long

  abbrev pub icon_problems : ℕ → ℕ → Option String → List Problem
  icon_problems gi ti none = []
  icon_problems gi ti (some icon) =
      if icon == "" then [] else link_problems gi ti at_icon (check_value t env icon).1

  unfoldable pub tile_problems : ℕ → ℕ → Tile → List Problem
  tile_problems gi ti (widget w) = widget_problems gi ti w
  tile_problems gi ti (link tile) =
      problem_if gi ti at_name (is_blank tile.name) no_tile_name
      ++ (if is_blank tile.href
          then problem_if gi ti at_href true no_link
          else link_problems gi ti at_href (check_value t env tile.href).1)
      ++ icon_problems gi ti tile.icon

  unfoldable pub tiles_problems : ℕ → ℕ → List Tile → List Problem
  tiles_problems gi ti [] = []
  tiles_problems gi ti (tile ∷ tiles) = tile_problems gi ti tile ++ tiles_problems gi (suc ti) tiles

  -- The problem of a group's name, and the names seen after it.
  abbrev pub name_problems : ℕ → List String → String → List Problem × List String
  name_problems gi seen name =
      if name == ""
      then (record { group = gi; tile = none; field = at_name; message = no_group_name } ∷ [], seen)
      else if has_name (t.casefold name) seen
      then (
        record { group = gi; tile = none; field = at_name; message = duplicate_group name } ∷ [],
        seen,
      )
      else ([], t.casefold name ∷ seen)

  unfoldable pub groups_problems : ℕ → List String → List TileGroup → List Problem
  groups_problems gi seen [] = []
  groups_problems gi seen (g ∷ gs) =
      let (of_name, names) = name_problems gi seen (t.strip g.name) in
      of_name ++ tiles_problems gi 0 g.tiles ++ groups_problems (suc gi) names gs

  unfoldable pub validate_config : List TileGroup → List Problem
  validate_config groups = groups_problems 0 [] groups
