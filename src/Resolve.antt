-- ===== src/Resolve.antt =====
-- src/app/core/resolve.py: the add-ons that the enabled catalogs offer, one entry for a name and a
-- version, and which of them are updates of what is installed. What the scan of a catalog finds on
-- disk is a parameter.
pub mod Complete
pub mod Updates
pub mod Ships
pub mod Primary
mod Tests
use Prim.Native.String.{◌++◌ as text_append}
use papaia_manager.Base.{
  ℕ, zero, suc, ◌+◌, String, Bool, true, false, not, ◌&&◌, ◌||◌, Option, none, some, List, [], ◌∷◌,
  ◌++◌, map, ◌==◌, if◌then◌else◌, any, take, drop,
}
use papaia_manager.Base.Dict
use papaia_manager.Base.Dict.{Dict}
use papaia_manager.Semver.{is_newer}

pub record Catalog : Type 0 where
  pub name : String
  pub enabled : Bool

-- The `version` of a manifest: none, a text, or another YAML value, with whether Python takes it for
-- true and what `str` makes of it.
pub data Version : Type 0 where
  missing : Version
  text : String → Version
  other : Bool → String → Version

pub record Manifest : Type 0 where
  pub version : Version

pub record InstalledAddon : Type 0 where
  pub catalog : String
  pub manifest_version : String
  pub managed : Bool

pub record ResolvedAddon : Type 0 where
  pub key : String
  pub name : String
  pub catalog : String
  pub manifest : Manifest
  pub clone : String
  pub shadowed_by : List String
  pub is_variant : Bool

pub record AddonUpdate : Type 0 where
  pub name : String
  pub installed : String
  pub available : String
  pub catalog : String

pub record Hit : Type 0 where
  pub catalog : Catalog
  pub manifest : Manifest
  pub clone : String

-- The hits of one version: a list that is never empty.
abbrev pub Entries : Type 0
Entries = Hit × List Hit

abbrev pub Hits : Type 0
Hits = Dict (Dict Entries)

-- `str(manifest.get("version") or _UNKNOWN_VERSION)`
abbrev pub version_text : Version → String
version_text missing = "unknown"
version_text (text v) = if v == "" then "unknown" else v
version_text (other truthy shown) = if truthy then shown else "unknown"

-- `str(version)`
abbrev pub shown_version : Version → String
shown_version missing = "None"
shown_version (text v) = v
shown_version (other truthy shown) = shown

-- `setdefault(version, []).append(hit)`
abbrev pub append_entry : Hit → Option Entries → Entries
append_entry hit none = (hit, [])
append_entry hit (some (first, more)) = (first, more ++ hit ∷ [])

-- `setdefault(addon_name, {})`
abbrev pub versions_of : Option (Dict Entries) → Dict Entries
versions_of none = []
versions_of (some by_version) = by_version

unfoldable pub add_hit : String → Hit → Hits → Hits
add_hit name hit hits =
    let by_version = versions_of (Dict.get name hits) in
    let version = version_text hit.manifest.version in
    Dict.put name (Dict.put version (append_entry hit (Dict.get version by_version)) by_version)
      hits

unfoldable pub add_scanned : Catalog → String → List (String × Manifest) → Hits → Hits
add_scanned catalog clone [] hits = hits
add_scanned catalog clone ((name, manifest) ∷ found) hits =
    add_scanned catalog clone found
      (add_hit name (record { catalog = catalog; manifest = manifest; clone = clone }) hits)

-- `any(c.name == installed.catalog for c, _m, _clone in entries)`
abbrev pub holds_catalog : String → Entries → Bool
holds_catalog catalog entries =
    entries.0.catalog.name == catalog || any (λ h. h.catalog.name == catalog) entries.1

-- The loop for `primary_index`, `none` where it ends without a `break`.
abbrev pub index_holding : String → List (String × Entries) → Option ℕ
index_holding catalog [] = none
index_holding catalog ((version, entries) ∷ groups) =
    let rest = index_holding catalog groups in
    if holds_catalog catalog entries
    then some 0
    else elim rest [ none ↦ none | some i ↦ some (suc i) ]

abbrev pub primary_index : Option InstalledAddon → List (String × Entries) → ℕ
primary_index none groups = 0
primary_index (some installed) groups = elim (index_holding installed.catalog groups) [
  | none ↦ 0
  | some i ↦ i
]

-- `[groups[i], *groups[:i], *groups[i + 1:]]`
abbrev pub in_front : List (String × Entries) → List (String × Entries) → List (String × Entries)
in_front before [] = before
in_front before (primary ∷ after) = primary ∷ before ++ after

abbrev pub ordered : ℕ → List (String × Entries) → List (String × Entries)
ordered i groups = in_front (take i groups) (drop i groups)

abbrev pub resolved : String → Bool → Entries → ResolvedAddon
resolved name is_variant (first, more) = record {
  key = if is_variant then text_append (text_append name "@") first.catalog.name else name;
  name = name;
  catalog = first.catalog.name;
  manifest = first.manifest;
  clone = first.clone;
  shadowed_by = map (λ h. h.catalog.name) more;
  is_variant = is_variant;
}

abbrev pub variants : String → List (String × Entries) → List ResolvedAddon
variants name [] = []
variants name ((version, entries) ∷ groups) = resolved name true entries ∷ variants name groups

-- The loop over the ordered groups: the first is the primary entry.
abbrev pub entries_of : String → List (String × Entries) → List ResolvedAddon
entries_of name [] = []
entries_of name ((version, entries) ∷ groups) = resolved name false entries ∷ variants name groups

unfoldable pub resolve_hits : Dict InstalledAddon → Hits → List ResolvedAddon
resolve_hits installed_map [] = []
resolve_hits installed_map ((name, by_version) ∷ hits) =
    entries_of name (ordered (primary_index (Dict.get name installed_map) by_version) by_version)
    ++ resolve_hits installed_map hits

module _ (scan_path : Catalog → String) (scan : String → List (String × Manifest)) where
  unfoldable pub collect : List Catalog → Hits → Hits
  collect [] hits = hits
  collect (catalog ∷ catalogs) hits =
      let clone = scan_path catalog in
      collect catalogs
        (if catalog.enabled then add_scanned catalog clone (scan clone) hits else hits)

  unfoldable pub resolve_catalog_addons : List Catalog → Dict InstalledAddon → List ResolvedAddon
  resolve_catalog_addons catalogs installed_map = resolve_hits installed_map (collect catalogs [])

module _ (is_space : ℕ → Bool) (digit : ℕ → Option ℕ) where
  -- `installed.manifest_version != catalog_version`
  abbrev pub differs : String → Version → Bool
  differs installed (text v) = not (installed == v)
  differs installed _ = true

  abbrev pub higher : String → Version → Option Bool → Bool
  higher installed version none = differs installed version
  higher installed version (some newer) = newer

  abbrev pub offers : InstalledAddon → Version → Bool
  offers installed missing = false
  offers installed version =
      installed.managed
      && higher installed.manifest_version version
          (is_newer is_space digit (shown_version version) installed.manifest_version)

  unfoldable pub update_available : Option InstalledAddon → Version → Bool
  update_available none version = false
  update_available (some installed) version = offers installed version

  abbrev pub update_of : InstalledAddon → ResolvedAddon → AddonUpdate
  update_of installed r = record {
    name = r.name;
    installed = installed.manifest_version;
    available = shown_version r.manifest.version;
    catalog = r.catalog;
  }

  -- An entry that is about the installed add-on and offers more.
  abbrev pub is_update : InstalledAddon → ResolvedAddon → Bool
  is_update installed r =
      not (r.is_variant && not (installed.catalog == r.catalog))
      && update_available (some installed) r.manifest.version

  abbrev pub updates_for : Option InstalledAddon → ResolvedAddon → List AddonUpdate
  updates_for none r = []
  updates_for (some installed) r = if is_update installed r then update_of installed r ∷ [] else []

  unfoldable pub outdated : Dict InstalledAddon → List ResolvedAddon → List AddonUpdate
  outdated installed_map [] = []
  outdated installed_map (r ∷ rs) =
      updates_for (Dict.get r.name installed_map) r ++ outdated installed_map rs
