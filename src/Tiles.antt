-- ===== src/Tiles.antt =====
-- src/app/core/tiles.py: the tiles of the dashboard, their links with placeholders, who sees which,
-- and the check of a draft. `text` has what Python does with texts.
pub mod Resolve
pub mod Show
pub mod Check
pub mod Safe
pub mod Ids
pub mod Survive
mod Tests
use papaia_manager.Base.{
  ℕ, String, Bool, true, false, ◌||◌, Option, none, some, List, [], ◌∷◌, ◌==◌, if◌then◌else◌,
}
use papaia_manager.Base.Text.{TextOps}

pub data Visibility : Type 0 where
  everyone administrators : Visibility

pub data Size : Type 0 where
  narrow double whole_row : Size

-- A tile of the class `Tile`.
pub record LinkTile : Type 0 where
  pub name : String
  pub href : String
  pub description : String
  pub icon : Option String
  pub visibility : Visibility

pub record WidgetTile : Type 0 where
  pub widget : String
  pub id : String
  pub title : String
  pub size : Size
  pub visibility : Visibility

pub data Tile : Type 0 where
  link : LinkTile → Tile
  widget : WidgetTile → Tile

pub record TileGroup : Type 0 where
  pub name : String
  pub tiles : List Tile

pub record TilesConfig : Type 0 where
  pub version : ℕ
  pub groups : List TileGroup

abbrev pub visibility_of : Tile → Visibility
visibility_of (link t) = t.visibility
visibility_of (widget t) = t.visibility

abbrev pub is_for_all : Visibility → Bool
is_for_all everyone = true
is_for_all administrators = false

-- `DEFAULT_ICONS.get`
unfoldable pub default_icons : String → Option String
default_icons name =
    if name == "librechat"
    then some "/static/icons/librechat.svg"
    else if name == "litellm"
    then some "/static/icons/litellm.svg"
    else if name == "keycloak"
    then some "/static/icons/keycloak.svg"
    else if name == "nginx proxy manager"
    then some "/static/icons/nginx-proxy-manager.svg"
    else if name == "qdrant"
    then some "/static/icons/qdrant.svg"
    else none

abbrev pub default_icon : TextOps → String → Option String
default_icon t name = default_icons (t.casefold (t.strip name))

-- `tile.icon or default_icon(tile.name)`: an empty text counts for none.
abbrev pub stored_icon : TextOps → LinkTile → Option String
stored_icon t tile = elim tile.icon [
  | none ↦ default_icon t tile.name
  | some icon ↦ if icon == "" then default_icon t tile.name else some icon
]
