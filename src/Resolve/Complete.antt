-- ===== src/Resolve/Complete.antt =====
-- No hit of a scan is lost or doubled by the grouping in src/app/core/resolve.py.
use papaia_manager.Base.{
  ℕ, zero, suc, ◌+◌, String, ◌≡◌, refl, ◌∙◌, Bool, true, false, Option, none, some, List, [], ◌∷◌,
  ◌++◌, ◌==◌, eq_iff, if◌then◌else◌, arith, inl, inr, Bool-cases, map, take, drop,
}
use papaia_manager.Base.Dict
use papaia_manager.Base.Dict.{Dict}
use papaia_manager.Resolve.{
  Catalog, Manifest, InstalledAddon, ResolvedAddon, Hit, Entries, Hits, version_text, append_entry,
  versions_of, add_hit, add_scanned, in_front, ordered, primary_index, variants, entries_of,
  resolve_hits, collect, resolve_catalog_addons,
}

-- A dictionary's values, weighed and added up.
module _ {ℓ} {V : Type ℓ} (weight : String → V → ℕ) where
  abbrev sum : Dict V → ℕ
  sum [] = 0
  sum ((k, v) ∷ d) = weight k v + sum d

  abbrev weight_of : String → Option V → ℕ
  weight_of k none = 0
  weight_of k (some v) = weight k v

  -- An entry that is put takes the place of the old one.
  sum-put :
      (k : String) (v : V) (d : Dict V)
      → sum (Dict.put k v d) + weight_of k (Dict.get k d) ≡ sum d + weight k v
  unfolding Dict.put Dict.get
  sum-put k v [] = omega arith
  sum-put k v ((j, w) ∷ d) = elim (Bool-cases (j == k)) [
    | inl e ↦ rw (e, (eq_iff j k).0 e) (omega arith)
    | inr e ↦ rw e (let h = sum-put k v d in omega (arith, h))
  ]

  sum-append : (d e : Dict V) → sum (d ++ e) ≡ sum d + sum e
  sum-append [] e = omega arith
  sum-append ((k, v) ∷ d) e = omega (arith, sum-append d e)

  sum-take-drop : (n : ℕ) (d : Dict V) → sum (take n d) + sum (drop n d) ≡ sum d
  sum-take-drop zero d = omega arith
  sum-take-drop (suc n) [] = omega arith
  sum-take-drop (suc n) ((k, v) ∷ d) = omega (arith, sum-take-drop n d)

-- `counts` picks pairs of an add-on's name and a catalog's name.
module _ (counts : String → String → Bool) where
  abbrev one : String → String → ℕ
  one name catalog = if counts name catalog then 1 else 0

  abbrev count_catalogs : String → List String → ℕ
  count_catalogs name [] = 0
  count_catalogs name (c ∷ cs) = one name c + count_catalogs name cs

  abbrev catalogs_of : List Hit → List String
  catalogs_of more = map (λ h. h.catalog.name) more

  abbrev count_entries : String → Entries → ℕ
  count_entries name entries =
      one name entries.0.catalog.name + count_catalogs name (catalogs_of entries.1)

  abbrev count_versions : String → Dict Entries → ℕ
  count_versions name by_version = sum (λ version entries. count_entries name entries) by_version

  abbrev count_hits : Hits → ℕ
  count_hits hits = sum count_versions hits

  -- How often the entries name such a pair, as the catalog or among the shadowed ones.
  abbrev pub count_resolved : List ResolvedAddon → ℕ
  count_resolved [] = 0
  count_resolved (r ∷ rs) =
      one r.name r.catalog + count_catalogs r.name r.shadowed_by + count_resolved rs

  abbrev pub count_found : Catalog → List (String × Manifest) → ℕ
  count_found catalog [] = 0
  count_found catalog ((name, manifest) ∷ found) = one name catalog.name + count_found catalog found

  count-snoc :
      (name : String) (more : List Hit) (hit : Hit)
      → count_catalogs name (catalogs_of (more ++ hit ∷ []))
        ≡ count_catalogs name (catalogs_of more) + one name hit.catalog.name
  count-snoc name [] hit = omega arith
  count-snoc name (h ∷ more) hit = omega (arith, count-snoc name more hit)

  count-append_entry :
      (name version : String) (hit : Hit) (old : Option Entries)
      → count_entries name (append_entry hit old)
        ≡ weight_of (λ v entries. count_entries name entries) version old
          + one name hit.catalog.name
  count-append_entry name version hit none = omega arith
  count-append_entry name version hit (some (first, more)) = omega (arith, count-snoc name more hit)

  count-versions_of :
      (name : String) (o : Option (Dict Entries))
      → count_versions name (versions_of o) ≡ weight_of count_versions name o
  count-versions_of name none = refl
  count-versions_of name (some by_version) = refl

  count-add_hit :
      (name : String) (hit : Hit) (hits : Hits)
      → count_hits (add_hit name hit hits) ≡ count_hits hits + one name hit.catalog.name
  unfolding add_hit
  count-add_hit name hit hits =
      let by_version = versions_of (Dict.get name hits) in
      let version = version_text hit.manifest.version in
      let old = Dict.get version by_version in
      let entry = append_entry hit old in
      omega (
        arith,
        sum-put (λ v entries. count_entries name entries) version entry by_version,
        count-append_entry name version hit old,
        sum-put count_versions name (Dict.put version entry by_version) hits,
        count-versions_of name (Dict.get name hits),
      )

  count-in_front :
      (name : String) (before after : List (String × Entries))
      → count_versions name (in_front before after)
        ≡ count_versions name before + count_versions name after
  count-in_front name before [] = omega arith
  count-in_front name before ((v, primary) ∷ after) =
      omega (arith, sum-append (λ w entries. count_entries name entries) before after)

  count-ordered :
      (name : String) (i : ℕ) (groups : List (String × Entries))
      → count_versions name (ordered i groups) ≡ count_versions name groups
  count-ordered name i groups =
      count-in_front name (take i groups) (drop i groups)
      ∙ sum-take-drop (λ v entries. count_entries name entries) i groups

  count-variants :
      (name : String) (groups : List (String × Entries))
      → count_resolved (variants name groups) ≡ count_versions name groups
  count-variants name [] = refl
  count-variants name ((v, entries) ∷ groups) = omega (arith, count-variants name groups)

  count-entries_of :
      (name : String) (groups : List (String × Entries))
      → count_resolved (entries_of name groups) ≡ count_versions name groups
  count-entries_of name [] = refl
  count-entries_of name ((v, entries) ∷ groups) = omega (arith, count-variants name groups)

  count_resolved-append :
      (rs ss : List ResolvedAddon)
      → count_resolved (rs ++ ss) ≡ count_resolved rs + count_resolved ss
  count_resolved-append [] ss = omega arith
  count_resolved-append (r ∷ rs) ss = omega (arith, count_resolved-append rs ss)

  count-resolve_hits :
      (installed_map : Dict InstalledAddon) (hits : Hits)
      → count_resolved (resolve_hits installed_map hits) ≡ count_hits hits
  unfolding resolve_hits
  count-resolve_hits installed_map [] = refl
  count-resolve_hits installed_map ((name, by_version) ∷ hits) =
      let i = primary_index (Dict.get name installed_map) by_version in
      let groups = ordered i by_version in
      omega (
        arith,
        count_resolved-append (entries_of name groups) (resolve_hits installed_map hits),
        count-entries_of name groups,
        count-ordered name i by_version,
        count-resolve_hits installed_map hits,
      )

  count-add_scanned :
      (catalog : Catalog) (clone : String) (found : List (String × Manifest)) (hits : Hits)
      → count_hits (add_scanned catalog clone found hits)
        ≡ count_hits hits + count_found catalog found
  unfolding add_scanned
  count-add_scanned catalog clone [] hits = omega arith
  count-add_scanned catalog clone ((name, manifest) ∷ found) hits =
      let hit : Hit = record { catalog = catalog; manifest = manifest; clone = clone } in
      omega (
        arith,
        count-add_scanned catalog clone found (add_hit name hit hits),
        count-add_hit name hit hits,
      )

  count-chosen :
      (b : Bool) (more hits : Hits) (n : ℕ)
      → count_hits more ≡ count_hits hits + n
      → count_hits (if b then more else hits) ≡ count_hits hits + (if b then n else 0)
  count-chosen true more hits n e = e
  count-chosen false more hits n e = omega arith

  module _ (scan_path : Catalog → String) (scan : String → List (String × Manifest)) where
    -- How often the scans of the enabled catalogs find such a pair.
    abbrev pub count_scanned : List Catalog → ℕ
    count_scanned [] = 0
    count_scanned (catalog ∷ catalogs) =
        (if catalog.enabled then count_found catalog (scan (scan_path catalog)) else 0)
        + count_scanned catalogs

    count-collect :
        (catalogs : List Catalog) (hits : Hits)
        → count_hits (collect scan_path scan catalogs hits)
          ≡ count_hits hits + count_scanned catalogs
    unfolding collect
    count-collect [] hits = omega arith
    count-collect (catalog ∷ catalogs) hits =
        let found = scan (scan_path catalog) in
        let more = add_scanned catalog (scan_path catalog) found hits in
        omega (
          arith,
          count-collect catalogs (if catalog.enabled then more else hits),
          count-chosen catalog.enabled more hits (count_found catalog found)
              (count-add_scanned catalog (scan_path catalog) found hits),
        )

    -- For every test of an add-on's name and a catalog's name, every list of catalogs and whatever is
    -- installed: the resolved entries name the pairs that pass, as the catalog of the entry or as
    -- one that it shadows, exactly as often as the scans of the enabled catalogs find them.
    pub resolve_catalog_addons-count :
        (catalogs : List Catalog) (installed_map : Dict InstalledAddon)
        → count_resolved (resolve_catalog_addons scan_path scan catalogs installed_map)
          ≡ count_scanned catalogs
    unfolding resolve_catalog_addons
    resolve_catalog_addons-count catalogs installed_map =
        count-resolve_hits installed_map (collect scan_path scan catalogs [])
        ∙ (count-collect catalogs [] ∙ omega arith)
