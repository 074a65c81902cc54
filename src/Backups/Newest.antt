-- ===== src/Backups/Newest.antt =====
-- Which restore point is the newest successful one, in src/app/core/backups.py.
use mathlib.Core.List.{Memᴰ}
use papaia_manager.Base.{
  ℕ, ◌≤◌, String, ◌≡◌, refl, sym, ◌∙◌, Option, none, some, List, [], ◌∷◌, arith, if◌then◌else◌, ltb,
  All, All-map, inl, inr, Bool-cases, subst,
}
use papaia_manager.Backups.{
  RestorePoint, good_time, with_time, dated, max_dated, newest_of, newest_successful,
}

-- The maximum is an entry, and no entry is later.
max_dated-All :
    (P : ℕ × RestorePoint → Type 0) (best : ℕ × RestorePoint) (ds : List (ℕ × RestorePoint))
    → P best
    → All P ds
    → P (max_dated best ds)
max_dated-All P best [] p h = p
max_dated-All P best (d ∷ ds) p h =
    max_dated-All P (if ltb best.0 d.0 then d else best) ds
      (elim (Bool-cases (ltb best.0 d.0)) [ inl e ↦ rw e h.0 | inr e ↦ rw e p ]) h.1

better-le :
    (best d : ℕ × RestorePoint)
    → (best.0 ≤ (if ltb best.0 d.0 then d else best).0)
      × (d.0 ≤ (if ltb best.0 d.0 then d else best).0)
better-le best d = elim (Bool-cases (ltb best.0 d.0)) [
  | inl e ↦ rw e (ground arith, omega arith)
  | inr e ↦ rw e (omega arith, ground arith)
]

max_dated-le :
    (best : ℕ × RestorePoint) (ds : List (ℕ × RestorePoint))
    → (best.0 ≤ (max_dated best ds).0) × All (λ d. d.0 ≤ (max_dated best ds).0) ds
max_dated-le best [] = (omega arith, tt)
max_dated-le best (d ∷ ds) =
    let (le, rest) = max_dated-le (if ltb best.0 d.0 then d else best) ds in
    let (l, r) = better-le best d in (omega (arith, l, le), (omega (arith, r, le), rest))

module _ (read_time : String → Option ℕ) where
  -- Every dated entry is a good restore point of the list, with its time.
  abbrev Dated : List RestorePoint → ℕ × RestorePoint → Type 0
  Dated points d = Memᴰ d.1 points × (good_time read_time d.1 ≡ some d.0)

  Dated-cons :
      (q : RestorePoint) (points : List RestorePoint) (d : ℕ × RestorePoint)
      → Dated points d
      → Dated (q ∷ points) d
  Dated-cons q points d h = (Memᴰ.tail h.0, h.1)

  with_time-Dated :
      (q : RestorePoint) (points : List RestorePoint) (mt : Option ℕ)
      (rest : List (ℕ × RestorePoint))
      → good_time read_time q ≡ mt
      → All (Dated points) rest
      → All (Dated (q ∷ points)) (with_time mt q rest)
  with_time-Dated q points none rest e h = All-map rest (Dated-cons q points) h
  with_time-Dated q points (some t) rest e h =
      ((Memᴰ.head refl, e), All-map rest (Dated-cons q points) h)

  dated-Dated : (points : List RestorePoint) → All (Dated points) (dated read_time points)
  dated-Dated [] = tt
  dated-Dated (q ∷ points) =
      with_time-Dated q points (good_time read_time q) (dated read_time points) refl
        (dated-Dated points)

  -- No good time of the point is later than `t`.
  abbrev pub NoLater : ℕ → RestorePoint → Type 0
  NoLater t q = (u : ℕ) → good_time read_time q ≡ some u → u ≤ t

  with_time-NoLater :
      (t : ℕ) (q : RestorePoint) (mt : Option ℕ) (rest : List (ℕ × RestorePoint))
      → good_time read_time q ≡ mt
      → All (λ d. d.0 ≤ t) (with_time mt q rest)
      → NoLater t q × All (λ d. d.0 ≤ t) rest
  with_time-NoLater t q none rest e h = ((λ u found. absurd (cc (e, found))), h)
  with_time-NoLater t q (some v) rest e h =
      ((λ u found. subst (λ m. elim m [ none ↦ Unit | some x ↦ x ≤ t ]) (sym e ∙ found) h.0), h.1)

  -- A bound of the dated entries bounds every good restore point.
  dated-NoLater :
      (points : List RestorePoint) (t : ℕ)
      → All (λ d. d.0 ≤ t) (dated read_time points)
      → All (NoLater t) points
  dated-NoLater [] t h = tt
  dated-NoLater (q ∷ points) t h =
      let (first, rest) =
        with_time-NoLater t q (good_time read_time q) (dated read_time points) refl h in
      (first, dated-NoLater points t rest)

  -- No point of the list is a finished backup of the whole stack whose time can be read.
  abbrev pub NoneGood : List RestorePoint → Type 0
  NoneGood = All (λ q. good_time read_time q ≡ none)

  abbrev pub IsNewest : List RestorePoint → RestorePoint → Type 0
  IsNewest points p =
      Memᴰ p points × ((t : ℕ) × (good_time read_time p ≡ some t) × All (NoLater t) points)

  with_time-nil :
      (q : RestorePoint) (mt : Option ℕ) (rest : List (ℕ × RestorePoint))
      → with_time mt q rest ≡ []
      → (mt ≡ none) × (rest ≡ [])
  with_time-nil q none rest e = (refl, e)
  with_time-nil q (some t) rest e = absurd (cc e)

  dated-nil : (points : List RestorePoint) → dated read_time points ≡ [] → NoneGood points
  dated-nil [] e = tt
  dated-nil (q ∷ points) e =
      let (first, rest) = with_time-nil q (good_time read_time q) (dated read_time points) e in
      (first, dated-nil points rest)

  -- What `newest_successful` may answer about `points`.
  abbrev pub Newest : List RestorePoint → Option RestorePoint → Type 0
  Newest points none = NoneGood points
  Newest points (some p) = IsNewest points p

  newest_of-Newest :
      (points : List RestorePoint) (ds : List (ℕ × RestorePoint))
      → dated read_time points ≡ ds
      → Newest points (newest_of ds)
  newest_of-Newest points [] e = dated-nil points e
  newest_of-Newest points (d ∷ ds) e =
      let h = subst (All (Dated points)) e (dated-Dated points) in
      let (member, time) = max_dated-All (Dated points) d ds h.0 h.1 in
      (
        member,
        (
          (max_dated d ds).0,
          time,
          dated-NoLater points (max_dated d ds).0
              (subst (All (λ x. x.0 ≤ (max_dated d ds).0)) (sym e) (max_dated-le d ds)),
        ),
      )

  -- For every list of restore points: `newest_successful` answers none when no point is a finished
  -- backup of the whole stack with a readable time; and when it answers a point, that point is in
  -- the list, is such a backup, and no such backup of the list has a later time.
  pub newest_successful_lem :
      (points : List RestorePoint) → Newest points (newest_successful read_time points)
  unfolding newest_successful
  newest_successful_lem points = newest_of-Newest points (dated read_time points) refl
