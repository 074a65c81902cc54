-- ===== src/Tiles/Safe.antt =====
-- Nothing leaves `visible_groups` of src/app/core/tiles.py that its caller may not see, or that
-- points to an unsafe target.
use papaia_manager.Base.{
  String, ◌≡◌, refl, Bool, true, not, ◌&&◌, Option, none, some, List, [], ◌∷◌, every, inl, inr,
  Bool-cases, Option-cases,
}
use papaia_manager.Base.Dict.{Dict}
use papaia_manager.Base.Text.{TextOps}
use papaia_manager.Tiles.{LinkTile, Tile, link, widget, TileGroup, stored_icon}
use papaia_manager.Tiles.Resolve.{check_value, has_placeholder, is_safe, resolve_placeholders}
use papaia_manager.Tiles.Show.{
  is_visible_to, has_tiles, kept_link, resolved_icon, with_href, as_link, resolve_tile, shown,
  shown_tiles, visible_groups,
}

module _ (t : TextOps) where
  -- A target that starts with `http://`, `https://` or `/`, with no placeholder left in it.
  abbrev pub is_target : String → Bool
  is_target s = not (has_placeholder t s) && is_safe s

  abbrev pub is_target_if : Option String → Bool
  is_target_if none = true
  is_target_if (some s) = is_target s

  abbrev pub points_safely : Tile → Bool
  points_safely (widget w) = true
  points_safely (link tile) = is_target tile.href && is_target_if tile.icon

  -- A tile that this caller may see, with safe targets.
  abbrev pub may_show : Bool → Tile → Bool
  may_show is_admin tile = is_visible_to is_admin tile && points_safely tile

  module _ (env : Dict String) where
    kept_link-is_target :
        (value : String) → is_target_if (kept_link t env (check_value t env value)) ≡ true
    unfolding check_value
    kept_link-is_target value =
        elim (Bool-cases (has_placeholder t (resolve_placeholders t env value))) [
          | inl e ↦ rw e refl
          | inr e ↦ elim (Bool-cases (is_safe (resolve_placeholders t env value))) [
            | inl safe ↦ rw (e, safe) (rw (e, safe) refl)
            | inr bad ↦ rw (e, bad) refl
          ]
        ]

    resolved_icon-is_target :
        (stored : Option String) → is_target_if (resolved_icon t env stored) ≡ true
    resolved_icon-is_target none = refl
    resolved_icon-is_target (some stored) = kept_link-is_target stored

    abbrev may_show_if : Bool → Option Tile → Bool
    may_show_if is_admin none = true
    may_show_if is_admin (some s) = may_show is_admin s

    with_href-may_show :
        (is_admin : Bool) (tile : LinkTile) (href : Option String)
        → is_visible_to is_admin (link tile) ≡ true
        → is_target_if href ≡ true
        → may_show_if is_admin (as_link t env (with_href t env tile href)) ≡ true
    with_href-may_show is_admin tile none visible safe = refl
    with_href-may_show is_admin tile (some href) visible safe =
        rw (visible, safe) (resolved_icon-is_target (stored_icon t tile))

    shown-may_show :
        (is_admin : Bool) (tile : Tile)
        → is_visible_to is_admin tile ≡ true
        → may_show_if is_admin (shown t env tile) ≡ true
    unfolding resolve_tile
    shown-may_show is_admin (widget w) visible = rw visible refl
    shown-may_show is_admin (link tile) visible =
        with_href-may_show is_admin tile (kept_link t env (check_value t env tile.href)) visible
          (kept_link-is_target tile.href)

    shown_tiles-may_show :
        (is_admin : Bool) (tiles : List Tile)
        → every (may_show is_admin) (shown_tiles t env is_admin tiles) ≡ true
    unfolding shown_tiles
    shown_tiles-may_show is_admin [] = refl
    shown_tiles-may_show is_admin (tile ∷ tiles) =
        let rest = shown_tiles-may_show is_admin tiles in
        elim (Bool-cases (is_visible_to is_admin tile)) [
          | inr hidden ↦ rw hidden rest
          | inl visible ↦
              let ok = shown-may_show is_admin tile visible in
              elim (Option-cases (shown t env tile)) [
                | inl absent ↦ rw (visible, absent) rest
                | inr (s, there) ↦ rw (visible, there, rw there at ok) rest
              ]
        ]

    -- Of every configuration, for every caller: each group that is shown has a tile, and each tile
    -- that is shown is one that the caller may see. Every link and icon in it starts with `http://`,
    -- `https://` or `/` and has no placeholder left.
    pub visible_groups-may_show :
        (is_admin : Bool) (groups : List TileGroup)
        → every
            (λ (g : TileGroup). has_tiles g && every (may_show is_admin) g.tiles)
            (visible_groups t env is_admin groups)
          ≡ true
    unfolding visible_groups
    visible_groups-may_show is_admin [] = refl
    visible_groups-may_show is_admin (g ∷ gs) =
        let rest = visible_groups-may_show is_admin gs in
        let tiles = shown_tiles-may_show is_admin g.tiles in
        let shown_group : TileGroup = record {
          name = g.name;
          tiles = shown_tiles t env is_admin g.tiles;
        } in
        elim (Bool-cases (has_tiles shown_group)) [
          | inl e ↦ rw (e, tiles) (rw e rest)
          | inr e ↦ rw e rest
        ]
