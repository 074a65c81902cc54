-- ===== src/Resolve/Primary.antt =====
-- The catalog that an add-on was installed from wins its name, in src/app/core/resolve.py.
use mathlib.Core.List.{Memᴰ}
use papaia_manager.Base.{
  ℕ, zero, suc, String, ◌≡◌, refl, sym, ap, ◌∙◌, subst, Bool, true, false, ◌||◌, Option, none, some,
  List, [], ◌∷◌, ◌++◌, ◌==◌, eq_iff, if◌then◌else◌, arith, inl, inr, Bool-cases, map, take, drop,
  any,
}
use papaia_manager.Base.Dict
use papaia_manager.Base.Dict.{Dict, get-put}
use papaia_manager.Resolve.{
  Catalog, Manifest, InstalledAddon, ResolvedAddon, Hit, Entries, Hits, holds_catalog,
  index_holding, in_front, ordered, primary_index, resolved, entries_of, resolve_hits, collect,
  resolve_catalog_addons,
}
use papaia_manager.Resolve.Ships.{Ships, ShipsName, collect-new}

-- The group in front holds the catalog.
abbrev Leads : String → List (String × Entries) → Type 0
Leads c groups =
    (v : String) × (e : Entries) × (after : List (String × Entries)) × (groups ≡ (v, e) ∷ after)
    × (holds_catalog c e ≡ true)

-- What the loop for the primary group finds.
abbrev Finds : String → List (String × Entries) → Option ℕ → Type 0
Finds c groups none = Unit
Finds c groups (some i) = Leads c (drop i groups)

abbrev next : Option ℕ → Option ℕ
next o = elim o [ none ↦ none | some i ↦ some (suc i) ]

index_holding-some :
    (c v : String) (e : Entries) (groups : List (String × Entries))
    → Dict.get v groups ≡ some e
    → holds_catalog c e ≡ true
    → (i : ℕ) × (index_holding c groups ≡ some i) × Leads c (drop i groups)
unfolding Dict.get
index_holding-some c v e [] found holds = absurd (cc found)
index_holding-some c v e ((w, f) ∷ groups) found holds = elim (Bool-cases (holds_catalog c f)) [
  | inl first ↦ (zero, rw first refl, (w, f, groups, refl, first))
  | inr later ↦ elim (Bool-cases (w == v)) [
    | inl same ↦
        let here : some f ≡ some e =
          subst (λ b. (if b then some f else Dict.get v groups) ≡ some e) same found in
        let equal : f ≡ e = cc here in
        absurd (ground (arith, later, subst (λ x. holds_catalog c x ≡ true) (sym equal) holds))
    | inr other ↦
        let rest : Dict.get v groups ≡ some e =
          subst (λ b. (if b then some f else Dict.get v groups) ≡ some e) other found in
        let (i, at, leads) = index_holding-some c v e groups rest holds in
        (suc i, rw later (ap next at), leads)
  ]
]

ordered-Leads :
    (installed : InstalledAddon) (groups : Dict Entries)
    → Ships installed.catalog groups
    → Leads installed.catalog (ordered (primary_index (some installed) groups) groups)
ordered-Leads installed groups (v, e, found, holds) =
    let (i, at, (w, f, after, split, leads)) =
      index_holding-some installed.catalog v e groups found holds in
    let index : primary_index (some installed) groups ≡ i =
      ap (λ o. elim o as (λ _. ℕ) [ none ↦ 0 | some k ↦ k ]) at in
    (
      w,
      f,
      take i groups ++ after,
      ap (λ k. ordered k groups) index ∙ ap (in_front (take i groups)) split,
      leads,
    )

-- The catalog of the entry, or one that it shadows.
abbrev pub names_catalog : String → ResolvedAddon → Bool
names_catalog c r = r.catalog == c || any (λ s. s == c) r.shadowed_by

any-map :
    (c : String) (hs : List Hit)
    → any (λ s. s == c) (map (λ h. h.catalog.name) hs) ≡ any (λ h. h.catalog.name == c) hs
any-map c [] = refl
any-map c (h ∷ hs) = ap (λ b. h.catalog.name == c || b) (any-map c hs)

-- The primary entry of a name, which is of the catalog or shadows it.
abbrev pub HasPrimary : String → String → List ResolvedAddon → Type 0
HasPrimary c name rs =
    (r : ResolvedAddon) × Memᴰ r rs
    × (r.key ≡ name)
    × (r.name ≡ name)
    × (r.is_variant ≡ false)
    × (names_catalog c r ≡ true)

entries_of-HasPrimary :
    (c name : String) (groups : List (String × Entries))
    → Leads c groups
    → HasPrimary c name (entries_of name groups)
entries_of-HasPrimary c name groups (v, (first, more), after, split, holds) = (
  resolved name false (first, more),
  subst (λ g. Memᴰ (resolved name false (first, more)) (entries_of name g)) (sym split)
      (Memᴰ.head refl),
  refl,
  refl,
  refl,
  ap (λ b. first.catalog.name == c || b) (any-map c more) ∙ holds,
)

Mem-left : (r : ResolvedAddon) (rs ss : List ResolvedAddon) → Memᴰ r rs → Memᴰ r (rs ++ ss)
Mem-left r (q ∷ rs) ss (Memᴰ.head e) = Memᴰ.head e
Mem-left r (q ∷ rs) ss (Memᴰ.tail m) = Memᴰ.tail (Mem-left r rs ss m)
Mem-left r [] ss m = elim m [ ]

Mem-right : (r : ResolvedAddon) (rs ss : List ResolvedAddon) → Memᴰ r ss → Memᴰ r (rs ++ ss)
Mem-right r [] ss m = m
Mem-right r (q ∷ rs) ss m = Memᴰ.tail (Mem-right r rs ss m)

HasPrimary-left :
    (c name : String) (rs ss : List ResolvedAddon)
    → HasPrimary c name rs
    → HasPrimary c name (rs ++ ss)
HasPrimary-left c name rs ss (r, m, key, own, primary, named) =
    (r, Mem-left r rs ss m, key, own, primary, named)

HasPrimary-right :
    (c name : String) (rs ss : List ResolvedAddon)
    → HasPrimary c name ss
    → HasPrimary c name (rs ++ ss)
HasPrimary-right c name rs ss (r, m, key, own, primary, named) =
    (r, Mem-right r rs ss m, key, own, primary, named)

name-HasPrimary :
    (installed : InstalledAddon) (found : Option InstalledAddon) (name : String)
    (groups : Dict Entries)
    → found ≡ some installed
    → Ships installed.catalog groups
    → HasPrimary installed.catalog name
        (entries_of name (ordered (primary_index found groups) groups))
name-HasPrimary installed found name groups e ships =
    subst
      (λ o.
        HasPrimary installed.catalog name
          (entries_of name (ordered (primary_index o groups) groups)))
      (sym e)
      (entries_of-HasPrimary installed.catalog name
        (ordered (primary_index (some installed) groups) groups)
        (ordered-Leads installed groups ships))

resolve_hits-HasPrimary :
    (installed_map : Dict InstalledAddon) (installed : InstalledAddon) (name : String) (hits : Hits)
    → Dict.get name installed_map ≡ some installed
    → ShipsName installed.catalog name hits
    → HasPrimary installed.catalog name (resolve_hits installed_map hits)
unfolding resolve_hits Dict.get
resolve_hits-HasPrimary installed_map installed name [] at (d, found, ships) = absurd (cc found)
resolve_hits-HasPrimary installed_map installed name ((n, groups) ∷ hits) at (d, found, ships) =
    let c = installed.catalog in
    let here = entries_of n (ordered (primary_index (Dict.get n installed_map) groups) groups) in
    let rest = resolve_hits installed_map hits in
    elim (Bool-cases (n == name)) [
      | inl same ↦
          let at_groups : some groups ≡ some d =
            subst (λ b. (if b then some groups else Dict.get name hits) ≡ some d) same found in
          let equal : groups ≡ d = cc at_groups in
          let eq : n ≡ name = (eq_iff n name).0 same in
          subst (λ k. HasPrimary c k (here ++ rest)) eq
            (HasPrimary-left c n here rest (
              name-HasPrimary installed (Dict.get n installed_map) n groups
                (subst (λ k. Dict.get k installed_map ≡ some installed) (sym eq) at)
                (subst (Ships c) (sym equal) ships)))
      | inr other ↦
          let later : Dict.get name hits ≡ some d =
            subst (λ b. (if b then some groups else Dict.get name hits) ≡ some d) other found in
          HasPrimary-right c name here rest
            (resolve_hits-HasPrimary installed_map installed name hits at (d, later, ships))
    ]

module _ (scan_path : Catalog → String) (scan : String → List (String × Manifest)) where
  -- For every list of catalogs, an enabled one among them, and an add-on that its scan finds and that
  -- is installed from a catalog of its name: the resolved entries hold one for the add-on whose key
  -- is the bare name, which is no variant, and which is of that catalog or names it among those that
  -- it shadows.
  pub resolve_catalog_addons-HasPrimary :
      (catalogs : List Catalog) (installed_map : Dict InstalledAddon) (catalog : Catalog)
      (installed : InstalledAddon) (name : String) (manifest : Manifest)
      → Memᴰ catalog catalogs
      → catalog.enabled ≡ true
      → Memᴰ (name, manifest) (scan (scan_path catalog))
      → Dict.get name installed_map ≡ some installed
      → catalog.name ≡ installed.catalog
      → HasPrimary installed.catalog name
          (resolve_catalog_addons scan_path scan catalogs installed_map)
  unfolding resolve_catalog_addons
  resolve_catalog_addons-HasPrimary catalogs installed_map catalog installed name manifest member
        enabled found at same =
      resolve_hits-HasPrimary installed_map installed name (collect scan_path scan catalogs []) at (
        subst (λ c. ShipsName c name (collect scan_path scan catalogs [])) same
          (collect-new scan_path scan catalog name manifest catalogs [] member enabled found))
