-- ===== src/Tiles/Ids/Tests.antt =====
-- A run of the code of Tiles.Ids, with a digest that counts in strokes.
use papaia_manager.Base.{
  ℕ, zero, suc, String, ◌≡◌, refl, sym, ap, ◌∙◌, false, none, some, List, [], ◌∷◌, ◌==◌, eq_iff,
  All, Distinct, arith, inl, inr, Bool-cases,
}
use Prim.Native.String.{◌∷◌ as char}
use papaia_manager.Base.Dict
use papaia_manager.Base.Text.{size}
use papaia_manager.Tiles.{
  WidgetTile, LinkTile, TileGroup, link, widget, narrow, administrators, everyone,
}
use papaia_manager.Tiles.Show.{find_widget}
use papaia_manager.Tiles.Ids.Addressed.{with_widget_ids-find_widget}
use papaia_manager.Tiles.Ids.{
  assign_widget_ids, with_widget_ids, widgets_of, keep_first, assign, pick,
}
use papaia_manager.Tiles.Ids.Found.{IsSpread}
use papaia_manager.Tiles.Ids.Unique.{ids}

strokes : String → ℕ → String
strokes name zero = "i"
strokes name (suc n) = char "i" (strokes name n)

size-strokes : (name : String) (n : ℕ) → size (strokes name n) ≡ suc n
unfolding strokes
size-strokes name zero = refl
size-strokes name (suc n) = ap suc (size-strokes name n)

strokes-IsSpread : (bound : ℕ) → IsSpread strokes bound
strokes-IsSpread bound = λ name i j low high same.
    let sizes = sym (size-strokes name i) ∙ ap size same ∙ size-strokes name j in omega arith

strokes-given : (name : String) (n : ℕ) → (strokes name n == "") ≡ false
strokes-given name n = elim (Bool-cases (strokes name n == "")) [
  | inr e ↦ e
  | inl e ↦
      let sizes : suc n ≡ 0 =
        sym (size-strokes name n) ∙ ap size ((eq_iff (strokes name n) "").0 e) in
      absurd (omega arith)
]

abbrev uptime : String → WidgetTile
uptime id = record {
  widget = "uptime";
  id = id;
  title = "";
  size = narrow;
  visibility = administrators;
}

abbrev shortcut : LinkTile
shortcut = record {
  name = "chat";
  href = "/chat";
  description = "";
  icon = none;
  visibility = everyone;
}

abbrev four_cards : List WidgetTile
four_cards = uptime "" ∷ uptime "i" ∷ uptime "i" ∷ uptime "" ∷ []

four_ids :
    assign_widget_ids strokes four_cards
    ≡ some (uptime "ii" ∷ uptime "i" ∷ uptime "iii" ∷ uptime "iiii" ∷ [])
unfolding assign_widget_ids keep_first assign pick strokes Dict.get Dict.put
four_ids = refl

abbrev board : List TileGroup
board =
    record { name = "one"; tiles = widget (uptime "") ∷ link shortcut ∷ widget (uptime "i") ∷ [] }
    ∷ record { name = "two"; tiles = widget (uptime "i") ∷ widget (uptime "") ∷ [] }
    ∷ []

with_widget_ids-find_widget_example :
    (gs : List TileGroup) × (with_widget_ids strokes board ≡ some gs)
    × Distinct (ids (widgets_of gs))
    × All (λ (w : WidgetTile). find_widget w.id gs ≡ some w) (widgets_of gs)
with_widget_ids-find_widget_example =
    with_widget_ids-find_widget strokes strokes-given board (strokes-IsSpread 17)
