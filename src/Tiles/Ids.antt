-- ===== src/Tiles/Ids.antt =====
-- src/app/core/tiles.py: the ids of widgets, `_assign_widget_ids`. `digest` is the start of the
-- SHA-256 of a type and a number; the loop for a free one runs on fuel.
pub mod Found
pub mod Unique
pub mod Addressed
mod Tests
use papaia_manager.Base.{
  ℕ, zero, suc, String, Bool, true, false, Option, none, some, List, [], ◌∷◌, ◌++◌, ◌==◌,
  if◌then◌else◌, length,
}
use papaia_manager.Base.Dict
use papaia_manager.Base.Dict.{Dict}
use papaia_manager.Base.Names.{has_name}
use papaia_manager.Tiles.{WidgetTile, Tile, link, widget, TileGroup}

abbrev pub with_id : WidgetTile → String → WidgetTile
with_id w id = record w { id = id }

-- The first loop: an id that stands before is lost. The second part is `taken`.
unfoldable pub keep_first : List String → List WidgetTile → List WidgetTile × List String
keep_first taken [] = ([], taken)
keep_first taken (w ∷ ws) =
    if has_name w.id taken
    then (let (rest, all) = keep_first taken ws in (with_id w "" ∷ rest, all))
    else if w.id == ""
    then (let (rest, all) = keep_first taken ws in (w ∷ rest, all))
    else let (rest, all) = keep_first (w.id ∷ taken) ws in (w ∷ rest, all)

abbrev pub count_of : Dict ℕ → String → ℕ
count_of counters name = elim (Dict.get name counters) [ none ↦ 0 | some n ↦ n ]

abbrev pub followed_by : WidgetTile → Option (List WidgetTile) → Option (List WidgetTile)
followed_by w none = none
followed_by w (some ws) = some (w ∷ ws)

module _ (digest : String → ℕ → String) where
  -- `while True`: a digest that is free, and the number after it.
  unfoldable pub pick : ℕ → List String → String → ℕ → Option (String × ℕ)
  pick zero taken name number = none
  pick (suc fuel) taken name number =
      let rest = pick fuel taken name (suc number) in
      if has_name (digest name number) taken then rest else some (digest name number, suc number)

  -- The second loop.
  unfoldable pub assign : Dict ℕ → List String → List WidgetTile → Option (List WidgetTile)
  assign counters taken [] = some []
  assign counters taken (w ∷ ws) =
      if w.id == ""
      then elim (pick (suc (length taken)) taken w.widget (count_of counters w.widget)) [
        | none ↦ none
        | some (id, number) ↦
            followed_by (with_id w id) (assign (Dict.put w.widget number counters) (id ∷ taken) ws)
      ]
      else followed_by w (assign counters taken ws)

  -- The ids of all widgets of the configuration, in its order.
  unfoldable pub assign_widget_ids : List WidgetTile → Option (List WidgetTile)
  assign_widget_ids ws = let (kept, taken) = keep_first [] ws in assign [] taken kept

-- `tiles`, the widgets of the groups in order.
abbrev pub widgets_in : List Tile → List WidgetTile
widgets_in [] = []
widgets_in (link t ∷ ts) = widgets_in ts
widgets_in (widget w ∷ ts) = w ∷ widgets_in ts

abbrev pub widgets_of : List TileGroup → List WidgetTile
widgets_of [] = []
widgets_of (g ∷ gs) = widgets_in g.tiles ++ widgets_of gs

-- The tiles with the widgets as they are once their ids are written, and the widgets that are left.
unfoldable pub put_tiles : List WidgetTile → List Tile → List Tile × List WidgetTile
put_tiles ws [] = ([], ws)
put_tiles ws (link t ∷ ts) = let (rest, left) = put_tiles ws ts in (link t ∷ rest, left)
put_tiles [] (widget w ∷ ts) = (widget w ∷ ts, [])
put_tiles (v ∷ vs) (widget w ∷ ts) = let (rest, left) = put_tiles vs ts in (widget v ∷ rest, left)

unfoldable pub put_groups : List WidgetTile → List TileGroup → List TileGroup
put_groups ws [] = []
put_groups ws (g ∷ gs) =
    let (tiles, left) = put_tiles ws g.tiles in record g { tiles = tiles } ∷ put_groups left gs

-- `_assign_widget_ids`
unfoldable pub with_widget_ids : (String → ℕ → String) → List TileGroup → Option (List TileGroup)
with_widget_ids digest groups = elim (assign_widget_ids digest (widgets_of groups)) [
  | none ↦ none
  | some ws ↦ some (put_groups ws groups)
]
