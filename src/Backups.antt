-- ===== src/Backups.antt =====
-- src/app/core/backups.py: what the manager reads out of the catalogue of restore points.
-- Times are counts of microseconds; `read_time` is `datetime.fromisoformat` of a `created_at` (with
-- `Z` for the offset, and UTC where none is written), `none` where it raises.
pub mod Newest
pub mod Tests
use papaia_manager.Base.{
  ℕ, ◌+◌, ◌*◌, ◌-◌, String, Bool, true, false, ◌&&◌, not, Option, none, some, List, [], ◌∷◌, ◌==◌,
  if◌then◌else◌, ltb, leb,
}

pub record RestorePoint : Type 0 where
  pub id : String
  pub created_at : String
  pub result : String
  pub scope : List String

abbrev pub day : ℕ
day = 86_400_000_000

-- A `timedelta`: so many microseconds, or minus so many.
pub data Span : Type 0 where
  span minus : ℕ → Span

-- `now - taken`
abbrev pub elapsed : ℕ → ℕ → Span
elapsed taken now = if leb taken now then span (now - taken) else minus (taken - now)

-- `age > limit`
abbrev pub longer : Span → ℕ → Bool
longer (span age) limit = ltb limit age
longer (minus _) limit = false

-- A restore point that holds a part of the stack only.
abbrev pub is_scoped : RestorePoint → Bool
is_scoped p = elim p.scope [ [] ↦ false | _ ↦ true ]

abbrev with_time : Option ℕ → RestorePoint → List (ℕ × RestorePoint) → List (ℕ × RestorePoint)
with_time none p rest = rest
with_time (some taken) p rest = (taken, p) ∷ rest

-- `max` by the time: the first of the greatest.
abbrev max_dated : ℕ × RestorePoint → List (ℕ × RestorePoint) → ℕ × RestorePoint
max_dated best [] = best
max_dated best (d ∷ ds) = max_dated (if ltb best.0 d.0 then d else best) ds

abbrev newest_of : List (ℕ × RestorePoint) → Option RestorePoint
newest_of [] = none
newest_of (d ∷ ds) = some (max_dated d ds).1

abbrev pub before_cutoff : ℕ → ℕ → Option ℕ → Bool
before_cutoff days now none = false
before_cutoff days now (some taken) = ltb (taken + days * day) now

module _ (read_time : String → Option ℕ) where
  abbrev pub restore_point_time : RestorePoint → Option ℕ
  restore_point_time p = if p.created_at == "" then none else read_time p.created_at

  -- The time of a finished backup of the whole stack.
  abbrev pub good_time : RestorePoint → Option ℕ
  good_time p = if p.result == "ok" && not (is_scoped p) then restore_point_time p else none

  abbrev dated : List RestorePoint → List (ℕ × RestorePoint)
  dated [] = []
  dated (p ∷ ps) = with_time (good_time p) p (dated ps)

  unfoldable pub newest_successful : List RestorePoint → Option RestorePoint
  newest_successful points = newest_of (dated points)

  abbrev pub time_of : Option RestorePoint → Option ℕ
  time_of none = none
  time_of (some p) = restore_point_time p

  -- When the newest successful restore point was taken.
  unfoldable pub newest_time : List RestorePoint → Option ℕ
  newest_time points = time_of (newest_successful points)

  -- `taken < now - timedelta(days=days)`: what the core's `prune` deletes.
  abbrev pub older_than : ℕ → ℕ → RestorePoint → Bool
  older_than days now p = before_cutoff days now (restore_point_time p)

  unfoldable pub count_older_than : List RestorePoint → ℕ → ℕ → ℕ
  count_older_than [] days now = 0
  count_older_than (p ∷ ps) days now =
      let rest = count_older_than ps days now in if older_than days now p then rest + 1 else rest

  -- The age of the newest successful backup.
  unfoldable pub last_backup_age : List RestorePoint → ℕ → Option Span
  last_backup_age points now = elim (newest_time points) [
    | none ↦ none
    | some taken ↦ some (elapsed taken now)
  ]
