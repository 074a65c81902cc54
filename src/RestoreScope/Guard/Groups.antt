-- ===== src/RestoreScope/Guard/Groups.antt =====
-- Keycloak's group in the loop over the artifacts of `build_groups` (src/app/core/restore_scope.py).
use papaia_manager.Base.{
  String, ◌≡◌, refl, sym, ◌∙◌, subst, true, not, ◌&&◌, ◌||◌, Option, none, some, List, [], ◌∷◌,
  ◌==◌, eq_iff, if◌then◌else◌, any, arith, inl, inr, Bool-cases, Option-cases, any-append,
}
use Prim.Native.String.{◌++◌ as text_append}
use mathlib.Core.Option.{some-injective}
use papaia_manager.Base.Dict
use papaia_manager.Base.Dict.{Dict}
use papaia_manager.Base.Text.{TextOps}
use papaia_manager.Base.Names.{has_name}
use papaia_manager.RestoreScope.Model.{
  Artifact, ScopeItem, ScopeGroup, artifact_selector, module_presentation, volume_presentation,
  is_hidden,
}
use papaia_manager.RestoreScope.Choice.{is_chosen}
use papaia_manager.RestoreScope.Groups.{add_artifact, add_all, joined, new_group, new_items, key_of}
use papaia_manager.RestoreScope.Nodes.{or_else}
use papaia_manager.RestoreScope.Guard.{
  IsGuarded, Guarded, IsKeycloak, names_artifact, IsChosen, Listed, head, tail, keycloak,
  selector-keycloak, joins_group-selector, IsKeycloak-selector, IsKeycloak-joins, joins_group,
}

module _ (t : TextOps) (capitalize gettext : String → String)
    (fill : String → String → String) where
  -- The group that an artifact of Keycloak is put into.
  abbrev before : Artifact → Dict ScopeGroup → ScopeGroup
  before a groups =
      or_else (new_group t capitalize gettext fill a) (Dict.get (artifact_selector a) groups)

  new_group-selector :
      (a : Artifact) → (new_group t capitalize gettext fill a).selector ≡ artifact_selector a
  unfolding new_group
  new_group-selector a = elim (Option-cases (module_presentation a.module_name)) [
    | inl absent ↦ ground arith
    | inr (known, found) ↦ ground arith
  ]

  new_group-IsGuarded :
      (a : Artifact)
      → artifact_selector a ≡ keycloak
      → IsGuarded (new_group t capitalize gettext fill a)
  unfolding new_group module_presentation
  new_group-IsGuarded a h =
      let (core, name) = selector-keycloak a h in (rw (core, name) refl, new_group-selector a ∙ h)

  before-IsGuarded :
      (a : Artifact) (groups : Dict ScopeGroup)
      → artifact_selector a ≡ keycloak
      → Guarded groups
      → IsGuarded (before a groups)
  unfolding Guarded
  before-IsGuarded a groups same h = elim (Option-cases (Dict.get keycloak groups)) [
    | inl absent ↦ rw (same, absent) (new_group-IsGuarded a same)
    | inr (g, found) ↦ rw (same, found) (h g found)
  ]

  -- What one more artifact does to Keycloak's group.
  get-add_artifact :
      (project : String) (a : Artifact) (groups : Dict ScopeGroup)
      → Dict.get keycloak (add_artifact t capitalize gettext fill project groups a) ≡ (
          if joins_group a
          then some (joined t capitalize gettext fill project a (before a groups))
          else Dict.get keycloak groups)
  unfolding add_artifact
  get-add_artifact project a groups = elim (Bool-cases (a.kind == "configdir")) [
    | inl e ↦ rw e (Dict.get-put "config" keycloak _ groups)
    | inr e ↦ elim (Bool-cases (a.module_name == "")) [
      | inl none_named ↦ rw (e, none_named) refl
      | inr named ↦
          rw (e, named)
            (elim (Bool-cases (artifact_selector a == keycloak)) [
              | inl same ↦
                  rw (same, (eq_iff (artifact_selector a) keycloak).0 same)
                    (Dict.get-put keycloak keycloak _ groups)
              | inr other ↦
                  rw other (Dict.get-put (artifact_selector a) keycloak _ groups ∙ rw other refl)
            ])
    ]
  ]

  is_chosen-joined :
      (only : List String) (project : String) (a : Artifact) (g : ScopeGroup)
      → is_chosen only (joined t capitalize gettext fill project a g) ≡ (
          is_chosen only g
          || any
              (λ (i : ScopeItem). has_name i.selector only)
              (new_items t capitalize gettext fill project a))
  unfolding joined
  is_chosen-joined only project a g = ground (
    arith,
    any-append (λ (i : ScopeItem). has_name i.selector only) g.items
        (new_items t capitalize gettext fill project a),
  )

  joined-IsGuarded :
      (project : String) (a : Artifact) (g : ScopeGroup)
      → IsGuarded g
      → IsGuarded (joined t capitalize gettext fill project a g)
  unfolding joined
  joined-IsGuarded project a g h = h

  any-new_items :
      (only : List String) (project : String) (a : Artifact)
      → any
          (λ (i : ScopeItem). has_name i.selector only)
          (new_items t capitalize gettext fill project a)
        ≡ (a.kind == "volume"
            && not (is_hidden (key_of project a))
            && has_name (text_append "volume:" a.target) only)
  unfolding new_items
  any-new_items only project a = elim (Option-cases (volume_presentation (key_of project a))) [
    | inl absent ↦ ground arith
    | inr (known, found) ↦ ground arith
  ]

  add_artifact-Guarded :
      (project : String) (a : Artifact) (groups : Dict ScopeGroup)
      → Guarded groups
      → Guarded (add_artifact t capitalize gettext fill project groups a)
  unfolding Guarded
  add_artifact-Guarded project a groups h g found = elim (Bool-cases (joins_group a)) [
    | inl e ↦
        let into : some (joined t capitalize gettext fill project a (before a groups)) ≡ some g =
          rw e at (sym (get-add_artifact project a groups)) ∙ found in
        subst IsGuarded (some-injective _ _ into) (
          joined-IsGuarded project a (before a groups)
            (before-IsGuarded a groups (joins_group-selector a e) h))
    | inr e ↦ h g (sym (rw e at (get-add_artifact project a groups)) ∙ found)
  ]

  add_artifact-IsChosen :
      (only : List String) (project : String) (a : Artifact) (groups : Dict ScopeGroup)
      → IsChosen only groups
      → IsChosen only (add_artifact t capitalize gettext fill project groups a)
  add_artifact-IsChosen only project a groups (g, found, guarded, chosen) =
      elim (Bool-cases (joins_group a)) [
        | inl e ↦ (
          joined t capitalize gettext fill project a g,
          get-add_artifact project a groups ∙ rw (e, joins_group-selector a e, found) refl,
          joined-IsGuarded project a g guarded,
          is_chosen-joined only project a g ∙ rw chosen refl,
        )
        | inr e ↦ (g, get-add_artifact project a groups ∙ rw e found, guarded, chosen)
      ]

  or_names_artifact :
      (only : List String) (project : String) (a : Artifact) (g : ScopeGroup)
      → g.selector ≡ keycloak
      → names_artifact project only a ≡ true
      → (is_chosen only g
          || (a.kind == "volume"
              && not (is_hidden (key_of project a))
              && has_name (text_append "volume:" a.target) only))
        ≡ true
  or_names_artifact only project a g same named = elim (Bool-cases (has_name keycloak only)) [
    | inl e ↦
        let own : has_name g.selector only ≡ true =
          subst (λ n. has_name n only ≡ true) (sym same) e in
        rw own refl
    | inr e ↦ let offered = rw e at named in ground arith
  ]

  add_artifact-chooses :
      (only : List String) (project : String) (a : Artifact) (groups : Dict ScopeGroup)
      → IsKeycloak a
      → names_artifact project only a ≡ true
      → Guarded groups
      → IsChosen only (add_artifact t capitalize gettext fill project groups a)
  add_artifact-chooses only project a groups k named h =
      let same = IsKeycloak-selector a k in
      let g = before a groups in
      let guarded : IsGuarded g = before-IsGuarded a groups same h in
      (
        joined t capitalize gettext fill project a g,
        get-add_artifact project a groups ∙ rw (IsKeycloak-joins a k) refl,
        joined-IsGuarded project a g guarded,
        is_chosen-joined only project a g
            ∙ rw (any-new_items only project a)
                (or_names_artifact only project a g guarded.1 named),
      )

  add_all-IsChosen :
      (only : List String) (project : String) (groups : Dict ScopeGroup)
      (xs : List (Option Artifact))
      → IsChosen only groups
      → IsChosen only (add_all t capitalize gettext fill project groups xs)
  unfolding add_all
  add_all-IsChosen only project groups [] h = h
  add_all-IsChosen only project groups (none ∷ xs) h = add_all-IsChosen only project groups xs h
  add_all-IsChosen only project groups (some a ∷ xs) h =
      add_all-IsChosen only project (add_artifact t capitalize gettext fill project groups a) xs
        (add_artifact-IsChosen only project a groups h)

  pub add_all-chooses :
      (only : List String) (project : String) (a : Artifact) (groups : Dict ScopeGroup)
      (xs : List (Option Artifact))
      → Listed a xs
      → IsKeycloak a
      → names_artifact project only a ≡ true
      → Guarded groups
      → IsChosen only (add_all t capitalize gettext fill project groups xs)
  unfolding add_all
  add_all-chooses only project a groups [] l k named h = elim l [ ]
  add_all-chooses only project a groups (_ ∷ xs) head k named h =
      add_all-IsChosen only project (add_artifact t capitalize gettext fill project groups a) xs
        (add_artifact-chooses only project a groups k named h)
  add_all-chooses only project a groups (none ∷ xs) (tail l) k named h =
      add_all-chooses only project a groups xs l k named h
  add_all-chooses only project a groups (some b ∷ xs) (tail l) k named h =
      add_all-chooses only project a (add_artifact t capitalize gettext fill project groups b) xs l
        k named (add_artifact-Guarded project b groups h)
