-- ===== src/Resolve/Tests.antt =====
-- Three catalogs that ship the same add-on, and the theorems of Resolve on them.
use papaia_manager.Base.{
  ℕ, ◌-◌, String, ◌≡◌, refl, Bool, true, false, ◌&&◌, Option, none, some, List, [], ◌∷◌, ◌==◌,
  if◌then◌else◌, All, leb, nat_eq, map,
}
use papaia_manager.Base.Dict
use papaia_manager.Base.Dict.{Dict}
use papaia_manager.Semver.{is_newer}
use papaia_manager.Resolve.{
  Catalog, Manifest, text, InstalledAddon, ResolvedAddon, resolve_catalog_addons, resolve_hits,
  collect, add_scanned, add_hit, outdated, update_available,
}
use papaia_manager.Resolve.Complete.{count_resolved, resolve_catalog_addons-count}
use papaia_manager.Resolve.Updates.{IsUpdate, outdated-IsUpdate}

abbrev is_space : ℕ → Bool
is_space c = nat_eq c b' '

abbrev digit : ℕ → Option ℕ
digit c = if leb b'0' c && leb c b'9' then some (c - b'0') else none

abbrev main : Catalog
main = record { name = "main"; enabled = true }

abbrev fork : Catalog
fork = record { name = "fork"; enabled = true }

abbrev other_fork : Catalog
other_fork = record { name = "old"; enabled = false }

abbrev scan_path : Catalog → String
scan_path catalog = catalog.name

abbrev version : String → Manifest
version v = record { version = text v }

abbrev scan : String → List (String × Manifest)
scan clone =
    if clone == "main"
    then ("wiki", version "1.2.0") ∷ ("mail", version "2.0.0") ∷ []
    else if clone == "fork"
    then ("wiki", version "1.3.0") ∷ []
    else ("wiki", version "1.2.0") ∷ []

abbrev catalogs : List Catalog
catalogs = main ∷ fork ∷ other_fork ∷ []

abbrev installed : Dict InstalledAddon
installed = ("wiki", record { catalog = "fork"; manifest_version = "1.2.9"; managed = true }) ∷ []

abbrev entries : List ResolvedAddon
entries = resolve_catalog_addons scan_path scan catalogs installed

the_installed_catalog_first : map (λ r. r.key) entries ≡ "wiki" ∷ "wiki@main" ∷ "mail" ∷ []
unfolding resolve_catalog_addons resolve_hits collect add_scanned add_hit Dict.get Dict.put
the_installed_catalog_first = refl

one_update : map (λ u. u.available) (outdated is_space digit installed entries) ≡ "1.3.0" ∷ []
unfolding resolve_catalog_addons resolve_hits collect add_scanned add_hit Dict.get Dict.put outdated
    update_available is_newer
one_update = refl

resolve_catalog_addons-count_example : count_resolved (λ name catalog. name == "wiki") entries ≡ 2
unfolding resolve_catalog_addons resolve_hits collect add_scanned add_hit Dict.get Dict.put
resolve_catalog_addons-count_example =
    resolve_catalog_addons-count (λ name catalog. name == "wiki") scan_path scan catalogs installed

outdated-IsUpdate_example :
    All (IsUpdate is_space digit installed entries) (outdated is_space digit installed entries)
outdated-IsUpdate_example = outdated-IsUpdate is_space digit installed entries
