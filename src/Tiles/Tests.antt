-- ===== src/Tiles/Tests.antt =====
-- Runs of the code of Tiles on a small dashboard.
use papaia_manager.Base.{
  String, ◌≡◌, refl, true, false, ◌&&◌, none, some, List, [], ◌∷◌, every, nat_eq,
}
use papaia_manager.Base.Dict
use papaia_manager.Base.Dict.{Dict}
use papaia_manager.Base.Text.{TextOps}
use papaia_manager.Tiles.{
  LinkTile, Tile, link, widget, TileGroup, everyone, administrators, narrow, default_icons,
}
use papaia_manager.Tiles.Resolve.{
  match_at, has_placeholder, substitute, resolve_placeholders, check_value, is_safe,
}
use papaia_manager.Tiles.Show.{resolve_tile, shown_tiles, visible_groups, has_tiles}
use papaia_manager.Tiles.Check.{
  tile_problems, tiles_problems, groups_problems, validate_config, widget_problems,
}
use papaia_manager.Tiles.Safe.{may_show, visible_groups-may_show}
use papaia_manager.Tiles.Survive.{tile_count, validate_config-shown}

abbrev plain : TextOps
plain = record {
  strip = λ s. s;
  squeeze = λ s. s;
  lower = λ s. s;
  casefold = λ s. s;
  is_space = λ c. nat_eq c b' ';
}

abbrev environment : Dict String
environment = ("HOST", "https://papaia") ∷ []

abbrev chat_at : String → LinkTile
chat_at href = record {
  name = "chat";
  href = href;
  description = "";
  icon = none;
  visibility = everyone;
}

abbrev uptime : Tile
uptime =
    widget (record {
      widget = "uptime";
      id = "a";
      title = "";
      size = narrow;
      visibility = administrators;
    })

abbrev dashboard : List TileGroup
dashboard =
    record { name = "one"; tiles = link (chat_at "{{ HOST }}:80") ∷ uptime ∷ [] }
    ∷ record { name = "two"; tiles = uptime ∷ [] }
    ∷ []

no_value :
    resolve_placeholders plain environment "{{{HOST}}/{{X}}/{{HOST}}"
    ≡ "{https://papaia/{{X}}/https://papaia"
unfolding resolve_placeholders substitute match_at Dict.get
no_value = refl

seen_by_a_user :
    visible_groups plain environment false dashboard
    ≡ record { name = "one"; tiles = link (chat_at "https://papaia:80") ∷ [] } ∷ []
unfolding visible_groups shown_tiles resolve_tile check_value resolve_placeholders substitute
    match_at has_placeholder is_safe Dict.get default_icons
seen_by_a_user = refl

visible_groups-may_show_example :
    every
      (λ (g : TileGroup). has_tiles g && every (may_show plain false) g.tiles)
      (visible_groups plain environment false dashboard)
    ≡ true
visible_groups-may_show_example = visible_groups-may_show plain environment false dashboard

validate_config-shown_example : tile_count (visible_groups plain environment true dashboard) ≡ 3
unfolding validate_config groups_problems tiles_problems tile_problems widget_problems check_value
    resolve_placeholders substitute match_at has_placeholder is_safe Dict.get
validate_config-shown_example =
    validate_config-shown plain environment (some ("uptime" ∷ [])) dashboard refl
