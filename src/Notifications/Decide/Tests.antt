-- ===== src/Notifications/Decide/Tests.antt =====
-- A service that flaps, and a release that is reported once.
use papaia_manager.Base.{
  ℕ, ◌+◌, ◌*◌, ◌≤◌, String, ◌≡◌, refl, true, false, List, [], ◌∷◌, if◌then◌else◌, arith,
}
use papaia_manager.Base.Dict
use papaia_manager.Base.Dict.{Dict}
use papaia_manager.Notifications.Model.{service_unhealthy, update_available, EventSettings}
use papaia_manager.Notifications.Decide.{
  Seen, Condition, Finding, at, decide, decide_finding, state_key, current_of, is_stale, over,
  minute,
}
use papaia_manager.Notifications.Decide.Pointwise.{noted_at, firing, decide_finding_lem}
use papaia_manager.Notifications.Decide.Quiet.{
  Pass, reports, after_all, decide_again_quiet, reports_debounced,
}

program : Unit {0}
unfolding decide_finding decide Dict.get Dict.put Dict.remove
program = tt

abbrev settings : EventSettings
settings = record { check_interval_minutes = 5; debounce_minutes = 30; cert_lead_days = 14 }

abbrev litellm_down : Condition
litellm_down = record {
  event = service_unhealthy;
  key = "litellm";
  marker = "";
  subject = "litellm";
  message = "litellm is stopped.";
  details = [];
}

abbrev release : String → Finding
release version = record {
  event = update_available;
  conditions =
      record {
        event = update_available;
        key = "core";
        marker = version;
        subject = "papAIa";
        message = "available";
        details = [];
      }
      ∷ [];
  scope = "core";
}

-- Down, up ten minutes later, down again after twenty and after forty minutes.
abbrev pass : ℕ → List Condition → Pass
pass minutes conditions = record { now = minutes * minute; conditions = conditions; scope = "" }

abbrev between : List Pass
between = pass 10 [] ∷ pass 20 (litellm_down ∷ []) ∷ pass 25 [] ∷ []

reported_at_first :
    reports settings "service_unhealthy|litellm" (pass 0 (litellm_down ∷ [])) [] ≡ true
unfolding program
reported_at_first = refl

reported_again :
    reports settings "service_unhealthy|litellm"
      (pass 40 (litellm_down ∷ []))
      (after_all settings (pass 0 (litellm_down ∷ []) ∷ between) [])
    ≡ true
unfolding program
reported_again = refl

quiet_within_window :
    reports settings "service_unhealthy|litellm"
      (pass 20 (litellm_down ∷ []))
      (after_all settings (pass 0 (litellm_down ∷ []) ∷ pass 10 [] ∷ []) [])
    ≡ false
unfolding program
quiet_within_window = refl

reports_debounced_example : 0 * minute + 30 * minute ≤ 40 * minute
reports_debounced_example =
    reports_debounced settings "service_unhealthy|litellm" (pass 0 (litellm_down ∷ [])) between
      (pass 40 (litellm_down ∷ [])) [] (omega arith) (omega arith) reported_at_first reported_again

decide_again_quiet_example :
    (decide_finding 9 settings
      (release "1.5.0")
      (decide_finding 4 settings (release "1.5.0") []).1).0
    ≡ []
decide_again_quiet_example = decide_again_quiet 4 9 settings settings (release "1.5.0") []

decide_finding_lem_example :
    let finding : Finding = release "1.5.1" in
    let seen : Dict Seen =
      ("update_available|core", record { active = true; marker = "1.5.0"; last_sent = at 1 })
      ∷ [] in
    let current : Dict Condition = current_of update_available finding.conditions [] in
    (Dict.get "update_available|core" (decide_finding 9 settings finding seen).1 ≡ (
      if is_stale (state_key update_available "core") current "update_available|core"
      then over update_available 9 settings (Dict.get "update_available|core" seen)
      else noted_at update_available 9 settings
          (Dict.get "update_available|core" current)
          (Dict.get "update_available|core" seen)))
    × ((decide_finding 9 settings finding seen).0 ≡ firing update_available 9 settings current seen)
decide_finding_lem_example =
    decide_finding_lem 9 settings (release "1.5.1")
      (("update_available|core", record { active = true; marker = "1.5.0"; last_sent = at 1 }) ∷ [])
      "update_available|core"
