-- ===== src/Resolve/Updates.antt =====
-- What src/app/core/resolve.py offers as an update is never a version below the installed one.
use mathlib.Core.List.{Memᴰ}
use papaia_manager.Base.{
  ℕ, String, ◌≡◌, ◌≢◌, refl, subst, Bool, true, false, not, ◌&&◌, Option, none, some, List, [], ◌∷◌,
  ◌==◌, arith, inl, inr, Bool-cases, All, All-append, All-map,
}
use papaia_manager.Base.Dict
use papaia_manager.Base.Dict.{Dict}
use papaia_manager.Semver.{is_newer}
use papaia_manager.Semver.Order.{is_newer_asymmetric}
use papaia_manager.Resolve.{
  Version, missing, text, other, InstalledAddon, ResolvedAddon, AddonUpdate, shown_version, higher,
  offers, update_available, update_of, is_update, updates_for, outdated,
}

module _ (is_space : ℕ → Bool) (digit : ℕ → Option ℕ) where
  higher-not_newer :
      (installed : String) (version : Version)
      → higher is_space digit installed version
          (is_newer is_space digit (shown_version version) installed)
        ≡ true
      → is_newer is_space digit installed (shown_version version) ≢ some true
  higher-not_newer installed version h newer =
      let below = is_newer_asymmetric is_space digit installed (shown_version version) newer in
      let no : false ≡ true =
        subst (λ o. higher is_space digit installed version o ≡ true) below h in
      absurd (cc no)

  and-both : (a b : Bool) → (a && b) ≡ true → (a ≡ true) × (b ≡ true)
  and-both true b h = (refl, h)
  and-both false b h = absurd (cc h)

  abbrev pub IsOffer : InstalledAddon → Version → Type 0
  IsOffer installed version =
      (installed.managed ≡ true)
      × (version ≢ missing)
      × (is_newer is_space digit installed.manifest_version (shown_version version) ≢ some true)

  offers-IsOffer :
      (installed : InstalledAddon) (version : Version)
      → offers is_space digit installed version ≡ true
      → IsOffer installed version
  offers-IsOffer installed missing h = absurd (cc h)
  offers-IsOffer installed (text v) h =
      let (managed, more) = and-both installed.managed _ h in
      (managed, (λ e. absurd (cc e)), higher-not_newer installed.manifest_version (text v) more)
  offers-IsOffer installed (other b v) h =
      let (managed, more) = and-both installed.managed _ h in
      (managed, (λ e. absurd (cc e)), higher-not_newer installed.manifest_version (other b v) more)

  -- An update that is reported: of an installed add-on that the manager manages, by an entry of the
  -- list that is no variant or is from the catalog the add-on came from, and not below what is
  -- installed.
  abbrev pub IsUpdate : Dict InstalledAddon → List ResolvedAddon → AddonUpdate → Type 0
  IsUpdate installed_map rs u =
      (i : InstalledAddon) × (r : ResolvedAddon) × (Dict.get u.name installed_map ≡ some i)
      × Memᴰ r rs
      × (u ≡ update_of is_space digit i r)
      × ((r.is_variant && not (i.catalog == r.catalog)) ≡ false)
      × IsOffer i r.manifest.version

  updates_for-IsUpdate :
      (installed_map : Dict InstalledAddon) (found : Option InstalledAddon) (r : ResolvedAddon)
      (rs : List ResolvedAddon)
      → Dict.get r.name installed_map ≡ found
      → All (IsUpdate installed_map (r ∷ rs)) (updates_for is_space digit found r)
  unfolding update_available
  updates_for-IsUpdate installed_map none r rs e = tt
  updates_for-IsUpdate installed_map (some i) r rs e =
      elim (Bool-cases (is_update is_space digit i r)) [
        | inl holds ↦
            let (here, offered) =
              and-both (not (r.is_variant && not (i.catalog == r.catalog)))
                (update_available is_space digit (some i) r.manifest.version) holds in
            rw holds (
              (
                i,
                r,
                e,
                Memᴰ.head refl,
                refl,
                ground (arith, here),
                offers-IsOffer i r.manifest.version offered,
              ),
              tt,
            )
        | inr fails ↦ rw fails tt
      ]

  later :
      (installed_map : Dict InstalledAddon) (r : ResolvedAddon) (rs : List ResolvedAddon)
      (u : AddonUpdate)
      → IsUpdate installed_map rs u
      → IsUpdate installed_map (r ∷ rs) u
  later installed_map r rs u (i, s, e, member, same, about, offer) =
      (i, s, e, Memᴰ.tail member, same, about, offer)

  -- Every update that is reported names an installed add-on that the manager manages, with its
  -- installed version, and comes from an entry of the list that states a version and is either the
  -- primary one or of the catalog that the add-on came from; and the installed version is not higher
  -- than the one offered, so that no downgrade is reported as an update.
  pub outdated-IsUpdate :
      (installed_map : Dict InstalledAddon) (rs : List ResolvedAddon)
      → All (IsUpdate installed_map rs) (outdated is_space digit installed_map rs)
  unfolding outdated
  outdated-IsUpdate installed_map [] = tt
  outdated-IsUpdate installed_map (r ∷ rs) =
      All-append (IsUpdate installed_map (r ∷ rs))
        (updates_for is_space digit (Dict.get r.name installed_map) r)
        (outdated is_space digit installed_map rs)
        (updates_for-IsUpdate installed_map (Dict.get r.name installed_map) r rs refl)
        (All-map (outdated is_space digit installed_map rs) (later installed_map r rs)
          (outdated-IsUpdate installed_map rs))
