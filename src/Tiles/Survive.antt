-- ===== src/Tiles/Survive.antt =====
-- A draft that `validate_config` of src/app/core/tiles.py finds nothing in is shown whole to an
-- administrator.
use papaia_manager.Base.{
  ℕ, suc, ◌+◌, String, ◌≡◌, refl, sym, ap, ◌∙◌, true, false, Option, none, some, List, [], ◌∷◌,
  ◌++◌, length, arith, inl, inr, Bool-cases, if◌then◌else◌,
}
use papaia_manager.Base.Dict.{Dict}
use papaia_manager.Base.Text.{TextOps}
use papaia_manager.Tiles.{LinkTile, Tile, link, widget, TileGroup}
use papaia_manager.Tiles.Resolve.{check_value, LinkProblem}
use papaia_manager.Tiles.Show.{
  has_tiles, is_any, kept_link, with_href, resolve_tile, as_link, shown, shown_tiles,
  visible_groups,
}
use papaia_manager.Tiles.Check.{
  tile_problems, tiles_problems, groups_problems, validate_config, is_blank, link_problems,
  problem_if, name_problems, at_href, no_link,
}

append-nil {ℓ} : {A : Type ℓ} (xs ys : List A) → xs ++ ys ≡ [] → (xs ≡ []) × (ys ≡ [])
append-nil [] ys h = (refl, h)
append-nil (x ∷ xs) ys h = cc

-- How many tiles the groups have.
abbrev pub tile_count : List TileGroup → ℕ
tile_count [] = 0
tile_count (g ∷ gs) = length g.tiles + tile_count gs

is_any-length : (ts : List Tile) → is_any ts ≡ false → length ts ≡ 0
is_any-length [] h = refl
is_any-length (x ∷ ts) h = cc

module _ (t : TextOps) (env : Dict String) (known_widgets : Option (List String)) where
  no_link_problem :
      (gi ti : ℕ) (found : Option LinkProblem)
      → link_problems t env known_widgets gi ti at_href found ≡ []
      → found ≡ none
  no_link_problem gi ti none h = refl
  no_link_problem gi ti (some p) h = cc

  link_problems-none :
      (gi ti : ℕ) (tile : LinkTile)
      → (if is_blank t env known_widgets tile.href
          then problem_if t env known_widgets gi ti at_href true no_link
          else link_problems t env known_widgets gi ti at_href (check_value t env tile.href).1)
        ≡ []
      → (check_value t env tile.href).1 ≡ none
  link_problems-none gi ti tile h = elim (Bool-cases (is_blank t env known_widgets tile.href)) [
    | inl e ↦
        let problem : problem_if t env known_widgets gi ti at_href true no_link ≡ [] = rw e at h in
        cc problem
    | inr e ↦ no_link_problem gi ti (check_value t env tile.href).1 (rw e at h)
  ]

  kept-shown :
      (tile : LinkTile) (checked : String × Option LinkProblem)
      → checked.1 ≡ none
      → (s : Tile) × (as_link t env (with_href t env tile (kept_link t env checked)) ≡ some s)
  kept-shown tile (href, none) h = (_, refl)
  kept-shown tile (href, some p) h = cc

  tile-shown :
      (gi ti : ℕ) (tile : Tile)
      → tile_problems t env known_widgets gi ti tile ≡ []
      → (s : Tile) × (shown t env tile ≡ some s)
  unfolding tile_problems resolve_tile
  tile-shown gi ti (widget w) h = (widget w, refl)
  tile-shown gi ti (link tile) h =
      let (name_and_href, of_icon) = append-nil _ _ h in
      let (of_name, of_href) = append-nil _ _ name_and_href in
      kept-shown tile (check_value t env tile.href) (link_problems-none gi ti tile of_href)

  shown_tiles-length :
      (gi ti : ℕ) (tiles : List Tile)
      → tiles_problems t env known_widgets gi ti tiles ≡ []
      → length (shown_tiles t env true tiles) ≡ length tiles
  unfolding tiles_problems shown_tiles
  shown_tiles-length gi ti [] h = refl
  shown_tiles-length gi ti (tile ∷ tiles) h =
      let (here, later) = append-nil (tile_problems t env known_widgets gi ti tile) _ h in
      let (s, there) = tile-shown gi ti tile here in
      rw there (ap suc (shown_tiles-length gi (suc ti) tiles later))

  groups-count :
      (gi : ℕ) (seen : List String) (groups : List TileGroup)
      → groups_problems t env known_widgets gi seen groups ≡ []
      → tile_count (visible_groups t env true groups) ≡ tile_count groups
  unfolding groups_problems visible_groups
  groups-count gi seen [] h = refl
  groups-count gi seen (g ∷ gs) h =
      let named = name_problems t env known_widgets gi seen (t.strip g.name) in
      let (of_group, of_rest) =
        append-nil (named.0 ++ tiles_problems t env known_widgets gi 0 g.tiles)
          (groups_problems t env known_widgets (suc gi) named.1 gs) h in
      let (of_name, of_tiles) =
        append-nil named.0 (tiles_problems t env known_widgets gi 0 g.tiles) of_group in
      let tiles = shown_tiles-length gi 0 g.tiles of_tiles in
      let rest = groups-count (suc gi) named.1 gs of_rest in
      let shown_group : TileGroup = record {
        name = g.name;
        tiles = shown_tiles t env true g.tiles;
      } in
      elim (Bool-cases (has_tiles shown_group)) [
        | inl e ↦ rw (e, tiles, rest) refl
        | inr e ↦
            let empty : length g.tiles ≡ 0 =
              sym tiles ∙ is_any-length (shown_tiles t env true g.tiles) e in
            rw (e, rest, empty) (ground arith)
      ]

  -- Of a draft in which the check finds nothing, an administrator sees every tile: none is dropped.
  pub validate_config-shown :
      (groups : List TileGroup)
      → validate_config t env known_widgets groups ≡ []
      → tile_count (visible_groups t env true groups) ≡ tile_count groups
  unfolding validate_config
  validate_config-shown groups h = groups-count 0 [] groups h
