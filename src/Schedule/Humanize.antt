-- ===== src/Schedule/Humanize.antt =====
-- `humanize` of src/app/core/schedule.py names a span in at most two units, rounded down.
use papaia_manager.Base.{
  ℕ, zero, suc, ◌+◌, ◌*◌, ◌/◌, ◌%◌, ◌≤◌, ◌<◌, arith, leb, inl, inr, Bool-cases, subst,
}
use papaia_manager.Backups.{Span}
use papaia_manager.Schedule.{
  Units, days, hours, minutes, days_hours, hours_minutes, under_a_minute, units_of, whole_seconds,
  humanize,
}

-- The seconds that the units stand for.
abbrev pub seconds_of : Units → ℕ
seconds_of (days d) = d * 86_400
seconds_of (hours h) = h * 3_600
seconds_of (minutes m) = m * 60
seconds_of (days_hours d h) = d * 86_400 + h * 3_600
seconds_of (hours_minutes h m) = h * 3_600 + m * 60
seconds_of under_a_minute = 0

-- The first span, in seconds, that is too long for the units: one more of the last unit.
abbrev pub seconds_beyond : Units → ℕ
seconds_beyond (days d) = seconds_of (days d) + 86_400
seconds_beyond (hours h) = seconds_of (hours h) + 3_600
seconds_beyond (minutes m) = seconds_of (minutes m) + 60
seconds_beyond (days_hours d h) = seconds_of (days_hours d h) + 3_600
seconds_beyond (hours_minutes h m) = seconds_of (hours_minutes h m) + 60
seconds_beyond under_a_minute = 60

-- Units that hold a count of seconds.
abbrev Holds : Units → ℕ → Type 0
Holds u seconds = (seconds_of u ≤ seconds) × (seconds < seconds_beyond u)

units_of-Holds :
    (d h m s : ℕ)
    → h < 24
    → m < 60
    → s < 60
    → Holds (units_of d h m) (d * 86_400 + (h * 3_600 + (m * 60 + s)))
units_of-Holds (suc d) zero m s lh lm ls = (omega arith, omega arith)
units_of-Holds (suc d) (suc h) m s lh lm ls = elim (Bool-cases (leb 7 (suc d))) [
  | inl e ↦ rw e (omega arith, omega arith)
  | inr e ↦ rw e (omega arith, omega arith)
]
units_of-Holds zero (suc h) zero s lh lm ls = (omega arith, omega arith)
units_of-Holds zero (suc h) (suc m) s lh lm ls = (omega arith, omega arith)
units_of-Holds zero zero (suc m) s lh lm ls = (omega arith, omega arith)
units_of-Holds zero zero zero s lh lm ls = (omega arith, omega arith)

seconds-Holds :
    (t : ℕ) → Holds (units_of (t / 86_400) (t % 86_400 / 3_600) (t % 86_400 % 3_600 / 60)) t
seconds-Holds t =
    subst (Holds (units_of (t / 86_400) (t % 86_400 / 3_600) (t % 86_400 % 3_600 / 60)))
      (omega arith)
      (units_of-Holds (t / 86_400) (t % 86_400 / 3_600) (t % 86_400 % 3_600 / 60)
        (t % 86_400 % 3_600 % 60) (omega arith) (omega arith) (omega arith))

-- For every span: the units that `humanize` names amount to no more than the span's whole seconds,
-- and one more of the smallest unit named (a minute, where none is) amounts to more than these. A
-- span in the future has no seconds.
pub humanize_lem : (s : Span) → Holds (humanize s) (whole_seconds s)
unfolding humanize
humanize_lem s = seconds-Holds (whole_seconds s)
