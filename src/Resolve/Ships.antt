-- ===== src/Resolve/Ships.antt =====
-- What the scans find stays in the groups that src/app/core/resolve.py collects.
use mathlib.Core.List.{Memᴰ}
use papaia_manager.Base.{
  String, ◌≡◌, refl, sym, ap, ◌∙◌, subst, Bool, true, false, Option, none, some, List, [], ◌∷◌,
  ◌++◌, ◌==◌, eq_iff, if◌then◌else◌, arith, inl, inr, Bool-cases, any, any-append,
}
use papaia_manager.Base.Dict
use papaia_manager.Base.Dict.{Dict, get-put}
use papaia_manager.Resolve.{
  Catalog, Manifest, Hit, Entries, Hits, version_text, append_entry, versions_of, add_hit,
  add_scanned, holds_catalog, collect,
}

-- Some version of the add-on comes from the catalog.
abbrev pub Ships : String → Dict Entries → Type 0
Ships c by_version =
    (v : String) × (e : Entries) × (Dict.get v by_version ≡ some e) × (holds_catalog c e ≡ true)

abbrev pub ShipsName : String → String → Hits → Type 0
ShipsName c name hits = (d : Dict Entries) × (Dict.get name hits ≡ some d) × Ships c d

any-snoc : (p : Hit → Bool) (hs : List Hit) (h : Hit) → p h ≡ true → any p (hs ++ h ∷ []) ≡ true
any-snoc p [] h e = rw e refl
any-snoc p (g ∷ hs) h e = ground (arith, any-snoc p hs h e)

append_entry-new :
    (c : String) (hit : Hit) (old : Option Entries)
    → (hit.catalog.name == c) ≡ true
    → holds_catalog c (append_entry hit old) ≡ true
append_entry-new c hit none e = ground (arith, e)
append_entry-new c hit (some (first, more)) e =
    let h = any-snoc (λ g. g.catalog.name == c) more hit e in ground (arith, h)

append_entry-keeps :
    (c : String) (hit : Hit) (e : Entries)
    → holds_catalog c e ≡ true
    → holds_catalog c (append_entry hit (some e)) ≡ true
append_entry-keeps c hit (first, more) h =
    let k = any-append (λ g. g.catalog.name == c) more (hit ∷ []) in ground (arith, h, k)

same-get :
    {V : Type 0} (k j : String) (v : V) (d : Dict V)
    → (k == j) ≡ true
    → Dict.get j (Dict.put k v d) ≡ some v
same-get k j v d e = Dict.get-put k j v d ∙ rw e refl

other-get :
    {V : Type 0} (k j : String) (v : V) (d : Dict V)
    → (k == j) ≡ false
    → Dict.get j (Dict.put k v d) ≡ Dict.get j d
other-get k j v d e = Dict.get-put k j v d ∙ rw e refl

-- An entry that grows keeps what the versions ship.
put-Ships :
    (c version : String) (hit : Hit) (d : Dict Entries)
    → Ships c d
    → Ships c (Dict.put version (append_entry hit (Dict.get version d)) d)
put-Ships c version hit d (v, e, found, holds) = elim (Bool-cases (version == v)) [
  | inl same ↦
      let at : Dict.get version d ≡ some e =
        subst (λ k. Dict.get k d ≡ some e) (sym ((eq_iff version v).0 same)) found in
      (
        v,
        append_entry hit (Dict.get version d),
        same-get version v _ d same,
        subst (λ o. holds_catalog c (append_entry hit o) ≡ true) (sym at)
            (append_entry-keeps c hit e holds),
      )
  | inr other ↦ (v, e, other-get version v _ d other ∙ found, holds)
]

add_hit-new :
    (c name : String) (hit : Hit) (hits : Hits)
    → (hit.catalog.name == c) ≡ true
    → ShipsName c name (add_hit name hit hits)
unfolding add_hit
add_hit-new c name hit hits e =
    let d = versions_of (Dict.get name hits) in
    let version = version_text hit.manifest.version in
    let entry = append_entry hit (Dict.get version d) in
    (
      Dict.put version entry d,
      same-get name name _ hits ((eq_iff name name).1 refl),
      (
        version,
        entry,
        same-get version version entry d ((eq_iff version version).1 refl),
        append_entry-new c hit (Dict.get version d) e,
      ),
    )

add_hit-keeps :
    (c n name : String) (hit : Hit) (hits : Hits)
    → ShipsName c n hits
    → ShipsName c n (add_hit name hit hits)
unfolding add_hit
add_hit-keeps c n name hit hits (d, found, ships) = elim (Bool-cases (name == n)) [
  | inl same ↦
      let at : Dict.get name hits ≡ some d =
        subst (λ k. Dict.get k hits ≡ some d) (sym ((eq_iff name n).0 same)) found in
      let version = version_text hit.manifest.version in
      (
        _,
        same-get name n _ hits same,
        subst
            (λ o. Ships c (
              Dict.put version (append_entry hit (Dict.get version (versions_of o)))
                (versions_of o)))
            (sym at) (put-Ships c version hit d ships),
      )
  | inr other ↦ (d, other-get name n _ hits other ∙ found, ships)
]

-- The scan of one clone keeps what was found, and finds its own.
add_scanned-keeps :
    (c name : String) (catalog : Catalog) (clone : String) (found : List (String × Manifest))
    (hits : Hits)
    → ShipsName c name hits
    → ShipsName c name (add_scanned catalog clone found hits)
unfolding add_scanned
add_scanned-keeps c name catalog clone [] hits h = h
add_scanned-keeps c name catalog clone ((n, manifest) ∷ found) hits h =
    let hit : Hit = record { catalog = catalog; manifest = manifest; clone = clone } in
    add_scanned-keeps c name catalog clone found (add_hit n hit hits)
      (add_hit-keeps c name n hit hits h)

add_scanned-new :
    (name : String) (manifest : Manifest) (catalog : Catalog) (clone : String)
    (found : List (String × Manifest)) (hits : Hits)
    → Memᴰ (name, manifest) found
    → ShipsName catalog.name name (add_scanned catalog clone found hits)
unfolding add_scanned
add_scanned-new name manifest catalog clone ((n, m) ∷ found) hits (Memᴰ.head e) =
    let hit : Hit = record { catalog = catalog; manifest = m; clone = clone } in
    add_scanned-keeps catalog.name name catalog clone found (add_hit n hit hits) (
      subst (λ k. ShipsName catalog.name k (add_hit n hit hits)) (sym (ap (λ p. p.0) e))
        (add_hit-new catalog.name n hit hits ((eq_iff catalog.name catalog.name).1 refl)))
add_scanned-new name manifest catalog clone ((n, m) ∷ found) hits (Memᴰ.tail rest) =
    add_scanned-new name manifest catalog clone found
      (add_hit n (record { catalog = catalog; manifest = m; clone = clone }) hits) rest
add_scanned-new name manifest catalog clone [] hits m = elim m [ ]

module _ (scan_path : Catalog → String) (scan : String → List (String × Manifest)) where
  if-keeps :
      (c name : String) (b : Bool) (more hits : Hits)
      → (ShipsName c name hits → ShipsName c name more)
      → ShipsName c name hits
      → ShipsName c name (if b then more else hits)
  if-keeps c name true more hits f h = f h
  if-keeps c name false more hits f h = h

  collect-keeps :
      (c name : String) (catalogs : List Catalog) (hits : Hits)
      → ShipsName c name hits
      → ShipsName c name (collect scan_path scan catalogs hits)
  unfolding collect
  collect-keeps c name [] hits h = h
  collect-keeps c name (catalog ∷ catalogs) hits h =
      let clone = scan_path catalog in
      let more = add_scanned catalog clone (scan clone) hits in
      collect-keeps c name catalogs (if catalog.enabled then more else hits) (
        if-keeps c name catalog.enabled more hits
          (add_scanned-keeps c name catalog clone (scan clone) hits) h)

  pub collect-new :
      (catalog : Catalog) (name : String) (manifest : Manifest) (catalogs : List Catalog)
      (hits : Hits)
      → Memᴰ catalog catalogs
      → catalog.enabled ≡ true
      → Memᴰ (name, manifest) (scan (scan_path catalog))
      → ShipsName catalog.name name (collect scan_path scan catalogs hits)
  unfolding collect
  collect-new catalog name manifest (q ∷ catalogs) hits (Memᴰ.head e) enabled found =
      let clone = scan_path q in
      let more = add_scanned q clone (scan clone) hits in
      let mine : ShipsName q.name name more =
        add_scanned-new name manifest q clone (scan clone) hits
          (subst (λ k. Memᴰ (name, manifest) (scan (scan_path k))) e found) in
      subst
        (λ k.
          ShipsName k.name name
            (collect scan_path scan catalogs (if q.enabled then more else hits)))
        (sym e)
        (collect-keeps q.name name catalogs (if q.enabled then more else hits) (
          subst (λ b. ShipsName q.name name (if b then more else hits))
            (sym (subst (λ k. k.enabled ≡ true) e enabled)) mine))
  collect-new catalog name manifest (q ∷ catalogs) hits (Memᴰ.tail m) enabled found =
      let clone = scan_path q in
      collect-new catalog name manifest catalogs
        (if q.enabled then add_scanned q clone (scan clone) hits else hits) m enabled found
  collect-new catalog name manifest [] hits m enabled found = elim m [ ]
