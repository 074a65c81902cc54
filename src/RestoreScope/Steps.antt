-- ===== src/RestoreScope/Steps.antt =====
-- src/app/core/restore_scope.py: the progress of a scoped restore, read from its log. `lines` is
-- `splitlines()` and `split` the parts between tabulators.
pub mod Latest
use papaia_manager.Base.{
  ℕ, String, Bool, true, false, not, ◌&&◌, ◌||◌, Option, none, some, List, [], ◌∷◌, ◌++◌, ◌==◌,
  if◌then◌else◌, keep,
}
use papaia_manager.Base.Text.{TextOps, after_prefix, starts_with}

pub record RestoreStep : Type 0 where
  pub phase : String
  pub subject : String
  pub state : String

-- `done`, `failed`, `running`
unfoldable pub done : RestoreStep → Bool
done s = s.state == "ok"

unfoldable pub failed : RestoreStep → Bool
failed s = s.state == "failed" || s.state == "in-use"

unfoldable pub running : RestoreStep → Bool
running s = s.state == "begin"

abbrev step_prefix : String
step_prefix = "RESTORE-STEP\t"

abbrev pub same_step : RestoreStep → RestoreStep → Bool
same_step a b = a.phase == b.phase && a.subject == b.subject

-- `order` and `latest` together: a step that is there keeps its place and takes the new state.
unfoldable pub put_step : RestoreStep → List RestoreStep → List RestoreStep
put_step s [] = s ∷ []
put_step s (x ∷ xs) = if same_step x s then s ∷ xs else x ∷ put_step s xs

module _ (t : TextOps) (lines split : String → List String) where
  abbrev read_step : List String → Option RestoreStep
  read_step (phase ∷ subject ∷ state ∷ []) =
      some (record { phase = t.strip phase; subject = t.strip subject; state = t.strip state })
  read_step _ = none

  -- A line that reports a step.
  abbrev pub step_of : Option String → Option RestoreStep
  step_of none = none
  step_of (some rest) = read_step (split rest)

  unfoldable pub read_steps : List RestoreStep → List String → List RestoreStep
  read_steps steps [] = steps
  read_steps steps (l ∷ ls) =
      read_steps
        (elim (step_of (after_prefix step_prefix l)) [ none ↦ steps | some s ↦ put_step s steps ])
        ls

  unfoldable pub parse_steps : String → List RestoreStep
  parse_steps log = read_steps [] (lines log)

  -- The lines that `strip_steps` joins.
  unfoldable pub other_lines : String → List String
  other_lines log = keep (λ l. not (starts_with step_prefix l)) (lines log)
