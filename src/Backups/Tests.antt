-- ===== src/Backups/Tests.antt =====
-- A catalogue of four restore points, and the theorems of Backups on it.
use papaia_manager.Base.{
  ℕ, ◌*◌, String, ◌≡◌, refl, Option, none, some, List, [], ◌∷◌, ◌==◌, if◌then◌else◌,
}
use papaia_manager.Backups.{
  RestorePoint, newest_successful, count_older_than, newest_time, last_backup_age, span, day,
}
use papaia_manager.Backups.Newest.{Newest, newest_successful_lem}

-- Two texts that are times, the first three days before the second.
abbrev pub sample_time : String → Option ℕ
sample_time text =
    if text == "monday" then some day else if text == "thursday" then some (4 * day) else none

abbrev pub point : String → String → String → List String → RestorePoint
point id created_at result scope = record {
  id = id;
  created_at = created_at;
  result = result;
  scope = scope;
}

abbrev pub sample_points : List RestorePoint
sample_points =
    point "failed" "thursday" "failed" []
    ∷ point "scoped" "thursday" "ok" ("addon" ∷ [])
    ∷ point "good" "monday" "ok" []
    ∷ point "undated" "sometime" "ok" []
    ∷ []

newest : newest_successful sample_time sample_points ≡ some (point "good" "monday" "ok" [])
unfolding newest_successful
newest = refl

older : count_older_than sample_time sample_points 2 (4 * day) ≡ 1
unfolding count_older_than
older = refl

age : last_backup_age sample_time sample_points (3 * day) ≡ some (span (2 * day))
unfolding last_backup_age newest_time newest_successful
age = refl

newest_successful_lem_example :
    Newest sample_time sample_points (newest_successful sample_time sample_points)
newest_successful_lem_example = newest_successful_lem sample_time sample_points
