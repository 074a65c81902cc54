-- ===== src/Schedule/Tests.antt =====
-- A daily schedule, and the theorems of Schedule on it.
use papaia_manager.Base.{◌*◌, ◌+◌, ◌<◌, String, ◌≡◌, refl, true, false, none, some, length}
use papaia_manager.Backups.{
  RestorePoint, newest_successful, newest_time, older_than, count_older_than, span, day,
}
use papaia_manager.Backups.Tests.{sample_time, sample_points}
use papaia_manager.Schedule.{
  BackupSchedule, Cadence, if_missed, check_cadence, retention_too_short, plan_retention, humanize,
  days_hours, days, min_interval,
}
use papaia_manager.Schedule.Retention.{plan_retention-keeps}

abbrev pub daily : String → String → Cadence
daily cron timezone = record { shortest = day; longest = day }

abbrev pub nightly : BackupSchedule
nightly = record {
  enabled = true;
  cron = "0 3 * * *";
  timezone = "UTC";
  retention_days = some 2;
  misfire_grace_seconds = 3_600;
  run_on_startup = if_missed;
}

accepted : check_cadence sample_time daily nightly ≡ none
unfolding check_cadence
accepted = refl

refused :
    check_cadence sample_time daily (record nightly { retention_days = some 1 })
    ≡ some (retention_too_short 2)
unfolding check_cadence
refused = refl

planned : (plan_retention sample_time daily nightly sample_points (2 * day)).days ≡ some 2
unfolding plan_retention newest_time newest_successful
planned = refl

forty_hours : humanize (span 144_000_000_000) ≡ days_hours 1 16
unfolding humanize
forty_hours = refl

a_week : humanize (span (7 * day + min_interval)) ≡ days 7
unfolding humanize
a_week = refl

plan_retention-keeps_example :
    ((p : RestorePoint) × (newest_successful sample_time sample_points ≡ some p)
      × (older_than sample_time 2 (2 * day) p ≡ false))
    × (count_older_than sample_time sample_points 2 (2 * day) < length sample_points)
plan_retention-keeps_example =
    plan_retention-keeps sample_time daily nightly sample_points (2 * day) 2 accepted planned
