-- ===== src/Tiles/Show.antt =====
-- src/app/core/tiles.py: the groups that a caller sees.
use papaia_manager.Base.{
  String, Bool, true, false, ◌||◌, Option, none, some, List, [], ◌∷◌, ◌==◌, if◌then◌else◌,
}
use papaia_manager.Base.Dict.{Dict}
use papaia_manager.Base.Text.{TextOps}
use papaia_manager.Tiles.{
  LinkTile, WidgetTile, Tile, link, widget, TileGroup, visibility_of, is_for_all, stored_icon,
}
use papaia_manager.Tiles.Resolve.{LinkProblem, check_value}

-- `_is_visible_to`
abbrev pub is_visible_to : Bool → Tile → Bool
is_visible_to is_admin tile = is_admin || is_for_all (visibility_of tile)

abbrev pub is_any : List Tile → Bool
is_any [] = false
is_any (t ∷ ts) = true

abbrev pub has_tiles : TileGroup → Bool
has_tiles g = is_any g.tiles

-- The widgets of a list of tiles, with the id that is looked for.
abbrev pub widget_in : String → List Tile → Option WidgetTile
widget_in id [] = none
widget_in id (link t ∷ ts) = widget_in id ts
widget_in id (widget w ∷ ts) = if w.id == id then some w else widget_in id ts

unfoldable pub find_widget : String → List TileGroup → Option WidgetTile
find_widget id [] = none
find_widget id (g ∷ gs) =
    let rest = find_widget id gs in elim (widget_in id g.tiles) [ none ↦ rest | some w ↦ some w ]

module _ (t : TextOps) (env : Dict String) where
  -- A link that is kept as it resolved, or none.
  abbrev pub kept_link : String × Option LinkProblem → Option String
  kept_link (resolved, none) = some resolved
  kept_link (resolved, some problem) = none

  abbrev pub resolved_icon : Option String → Option String
  resolved_icon none = none
  resolved_icon (some stored) = kept_link (check_value t env stored)

  abbrev pub with_href : LinkTile → Option String → Option LinkTile
  with_href tile none = none
  with_href tile (some href) =
      some (record tile { href = href; icon = resolved_icon (stored_icon t tile) })

  -- `_resolve_tile`
  unfoldable pub resolve_tile : LinkTile → Option LinkTile
  resolve_tile tile = with_href tile (kept_link (check_value t env tile.href))

  abbrev pub as_link : Option LinkTile → Option Tile
  as_link none = none
  as_link (some tile) = some (link tile)

  -- The tile that is shown in place of one that is visible.
  abbrev pub shown : Tile → Option Tile
  shown (widget w) = some (widget w)
  shown (link tile) = as_link (resolve_tile tile)

  unfoldable pub shown_tiles : Bool → List Tile → List Tile
  shown_tiles is_admin [] = []
  shown_tiles is_admin (tile ∷ tiles) =
      let rest = shown_tiles is_admin tiles in
      if is_visible_to is_admin tile
      then elim (shown tile) [ none ↦ rest | some s ↦ s ∷ rest ]
      else rest

  -- `visible_groups` on the groups of the configuration
  unfoldable pub visible_groups : Bool → List TileGroup → List TileGroup
  visible_groups is_admin [] = []
  visible_groups is_admin (g ∷ gs) =
      let group : TileGroup = record { name = g.name; tiles = shown_tiles is_admin g.tiles } in
      let rest = visible_groups is_admin gs in if has_tiles group then group ∷ rest else rest
