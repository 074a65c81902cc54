-- ===== src/Tiles/Ids/Addressed.antt =====
-- The widgets of a configuration after `_assign_widget_ids` of src/app/core/tiles.py.
use papaia_manager.Base.{
  ℕ, suc, ◌*◌, ◌≤◌, String, ◌≡◌, ◌≢◌, refl, sym, ap, ◌∙◌, false, Option, none, some, List, [], ◌∷◌,
  ◌++◌, ◌==◌, eq_iff, if◌then◌else◌, length, length-append, arith, All, All-map, All-both, Distinct,
  inl, inr, Bool-cases, Option-cases,
}
use mathlib.Core.Option.{some-injective}
use papaia_manager.Base.Dict
use papaia_manager.Base.Dict.{Dict}
use papaia_manager.Tiles.{WidgetTile, Tile, link, widget, TileGroup}
use papaia_manager.Tiles.Show.{find_widget, widget_in}
use papaia_manager.Tiles.Ids.{
  with_id, keep_first, count_of, pick, assign, assign_widget_ids, widgets_in, widgets_of, put_tiles,
  put_groups, with_widget_ids,
}
use papaia_manager.Tiles.Ids.Found.{IsSpread, length-keep_first}
use papaia_manager.Tiles.Ids.Unique.{ids, assign_widget_ids-Distinct, followed-returns}

-- Writing the widgets back uses up as many as there are, in order.
put_tiles-append :
    (ws : List WidgetTile) (ts : List Tile)
    → length (widgets_in ts) ≤ length ws
    → (widgets_in (put_tiles ws ts).0 ++ (put_tiles ws ts).1 ≡ ws)
      × (length (widgets_in (put_tiles ws ts).0) ≡ length (widgets_in ts))
unfolding put_tiles
put_tiles-append ws [] le = (refl, refl)
put_tiles-append ws (link t ∷ ts) le = put_tiles-append ws ts le
put_tiles-append [] (widget w ∷ ts) le = absurd (omega arith)
put_tiles-append (v ∷ vs) (widget w ∷ ts) le =
    let (same, size) = put_tiles-append vs ts (omega arith) in (ap (λ xs. v ∷ xs) same, ap suc size)

widgets_of-put_groups :
    (ws : List WidgetTile) (gs : List TileGroup)
    → length ws ≡ length (widgets_of gs)
    → widgets_of (put_groups ws gs) ≡ ws
unfolding put_groups
widgets_of-put_groups [] [] h = refl
widgets_of-put_groups (w ∷ ws) [] h = absurd (omega arith)
widgets_of-put_groups ws (g ∷ gs) h =
    let total = length-append (widgets_in g.tiles) (widgets_of gs) in
    let (same, size) = put_tiles-append ws g.tiles (omega arith) in
    let parts = length-append (widgets_in (put_tiles ws g.tiles).0) (put_tiles ws g.tiles).1 in
    let whole = ap length same in
    let rest = widgets_of-put_groups (put_tiles ws g.tiles).1 gs (omega arith) in
    ap (λ xs. widgets_in (put_tiles ws g.tiles).0 ++ xs) rest ∙ same

length-assign :
    (digest : String → ℕ → String) (counters : Dict ℕ) (taken : List String)
    (ws rs : List WidgetTile)
    → assign digest counters taken ws ≡ some rs
    → length rs ≡ length ws
unfolding assign
length-assign digest counters taken [] rs h = sym (ap length (some-injective [] rs h))
length-assign digest counters taken (w ∷ ws) rs h = elim (Bool-cases (w.id == "")) [
  | inr e ↦
      let (rest, found, same) =
        followed-returns w (assign digest counters taken ws) rs (rw e at h) in
      sym (ap length same) ∙ ap suc (length-assign digest counters taken ws rest found)
  | inl e ↦
      let number = count_of counters w.widget in
      elim (Option-cases (pick digest (suc (length taken)) taken w.widget number)) [
        | inl absent ↦ let nothing : none ≡ some rs = rw (e, absent) at h in cc nothing
        | inr ((id, after), there) ↦
            let counted = Dict.put w.widget after counters in
            let (rest, found, same) =
              followed-returns (with_id w id) (assign digest counted (id ∷ taken) ws) rs
                (rw (e, there) at h) in
            sym (ap length same) ∙ ap suc (length-assign digest counted (id ∷ taken) ws rest found)
      ]
]

length-assign_widget_ids :
    (digest : String → ℕ → String) (ws rs : List WidgetTile)
    → assign_widget_ids digest ws ≡ some rs
    → length rs ≡ length ws
unfolding assign_widget_ids
length-assign_widget_ids digest ws rs found =
    length-assign digest [] (keep_first [] ws).1 (keep_first [] ws).0 rs found
    ∙ (length-keep_first digest 0 [] ws).0

-- The first widget of a list with this id.
abbrev first_with : String → List WidgetTile → Option WidgetTile
first_with id [] = none
first_with id (w ∷ ws) = if w.id == id then some w else first_with id ws

abbrev or_later : Option WidgetTile → Option WidgetTile → Option WidgetTile
or_later none later = later
or_later (some w) later = some w

first_with-append :
    (id : String) (vs ws : List WidgetTile)
    → first_with id (vs ++ ws) ≡ or_later (first_with id vs) (first_with id ws)
first_with-append id [] ws = refl
first_with-append id (v ∷ vs) ws = elim (Bool-cases (v.id == id)) [
  | inl e ↦ rw e refl
  | inr e ↦ rw e (first_with-append id vs ws)
]

widget_in_lem : (id : String) (ts : List Tile) → widget_in id ts ≡ first_with id (widgets_in ts)
widget_in_lem id [] = refl
widget_in_lem id (link t ∷ ts) = widget_in_lem id ts
widget_in_lem id (widget w ∷ ts) = elim (Bool-cases (w.id == id)) [
  | inl e ↦ rw e refl
  | inr e ↦ rw e (widget_in_lem id ts)
]

find_widget_lem :
    (id : String) (gs : List TileGroup) → find_widget id gs ≡ first_with id (widgets_of gs)
unfolding find_widget
find_widget_lem id [] = refl
find_widget_lem id (g ∷ gs) =
    let split = first_with-append id (widgets_in g.tiles) (widgets_of gs) in
    elim (Option-cases (first_with id (widgets_in g.tiles))) [
      | inl absent ↦
          let none_here = widget_in_lem id g.tiles ∙ absent in
          rw (find_widget, none_here, split, absent) (find_widget_lem id gs)
      | inr (w, there) ↦
          let here = widget_in_lem id g.tiles ∙ there in rw (find_widget, here, split, there) refl
    ]

All-of_map :
    (P : String → Type 0) (ws : List WidgetTile)
    → All P (ids ws)
    → All (λ (w : WidgetTile). P w.id) ws
All-of_map P [] h = tt
All-of_map P (w ∷ ws) h = (h.0, All-of_map P ws h.1)

All-first_with :
    (ws : List WidgetTile) → Distinct (ids ws) → All (λ w. first_with w.id ws ≡ some w) ws
All-first_with [] d = tt
All-first_with (v ∷ ws) d = (
  rw ((eq_iff v.id v.id).1 refl) refl,
  All-both ws (λ w ne found. ground (arith, eq_iff v.id w.id)) (All-of_map (λ i. v.id ≢ i) ws d.0)
      (All-first_with ws d.1),
)

-- A digest is never empty. When, of the numbers up to four for each widget of the configuration and
-- one, no two give the same digest for one type, the loops for the ids end. Then no two widgets of
-- the configuration have the same id, and the search by the id of a widget finds that widget.
pub with_widget_ids-find_widget :
    (digest : String → ℕ → String)
    → ((name : String) (n : ℕ) → (digest name n == "") ≡ false)
    → (groups : List TileGroup) → IsSpread digest (suc (4 * length (widgets_of groups)))
    → (gs : List TileGroup) × (with_widget_ids digest groups ≡ some gs)
      × Distinct (ids (widgets_of gs))
      × All (λ (w : WidgetTile). find_widget w.id gs ≡ some w) (widgets_of gs)
unfolding with_widget_ids
with_widget_ids-find_widget digest given groups spread =
    let ws = widgets_of groups in
    let (rs, found, unique, filled) = assign_widget_ids-Distinct digest given ws spread in
    let size = length-assign_widget_ids digest ws rs found in
    let same = widgets_of-put_groups rs groups size in
    (
      put_groups rs groups,
      rw (with_widget_ids, found) refl,
      rw same unique,
      All-map (widgets_of (put_groups rs groups))
          (λ w h. find_widget_lem w.id (put_groups rs groups) ∙ h)
          (All-first_with (widgets_of (put_groups rs groups)) (rw same unique)),
    )
