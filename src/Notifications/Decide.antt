-- ===== src/Notifications/Decide.antt =====
-- src/app/core/notifications/detect.py: `decide`, which compares the conditions that hold now with
-- what is remembered. Times are counts of microseconds.
pub mod Pointwise
pub mod Quiet
mod Tests
use Prim.Native.String.{◌++◌ as text_append}
use text.Mathlib.Text.{starts_with}
use papaia_manager.Base.{
  ℕ, ◌+◌, ◌*◌, String, Bool, true, false, not, ◌&&◌, ◌||◌, Option, none, some, List, [], ◌∷◌, ◌++◌,
  ◌==◌, if◌then◌else◌, leb, ltb, keep,
}
use papaia_manager.Base.Dict
use papaia_manager.Base.Dict.{Dict}
use papaia_manager.Notifications.Model.{
  Event, backup_overdue, service_unhealthy, EventSettings, event_value,
}

-- `last_sent`: empty, a text that `fromisoformat` refuses, or the time that it reads.
pub data Sent : Type 0 where
  never unreadable : Sent
  at : ℕ → Sent

pub record Seen : Type 0 where
  pub active : Bool
  pub marker : String
  pub last_sent : Sent

pub record TestResult : Type 0 where
  pub tested_at : String
  pub ok : Bool
  pub reason : String

pub record NotifyState : Type 0 where
  pub seen : Dict Seen
  pub tests : Dict TestResult
  pub up : List String

pub record Condition : Type 0 where
  pub event : Event
  pub key : String
  pub marker : String
  pub subject : String
  pub message : String
  pub details : Dict String

pub record Finding : Type 0 where
  pub event : Event
  pub conditions : List Condition
  pub scope : String

-- `EDGE_EVENTS`
abbrev pub is_edge : Event → Bool
is_edge backup_overdue = true
is_edge service_unhealthy = true
is_edge _ = false

abbrev pub minute : ℕ
minute = 60_000_000

-- 30 days
abbrev pub forget_after : ℕ
forget_after = 30 * 86_400_000_000

-- `_key`
abbrev pub state_key : Event → String → String
state_key event key = text_append (text_append (event_value event) "|") key

-- `now - last >= timedelta(minutes=debounce_minutes)`
abbrev pub outside_window : Seen → ℕ → ℕ → Bool
outside_window seen now debounce_minutes = elim seen.last_sent [
  | at last ↦ leb (last + debounce_minutes * minute) now
  | _ ↦ true
]

abbrev pub forgotten : Seen → ℕ → Bool
forgotten entry now = elim entry.last_sent [ at last ↦ ltb (last + forget_after) now | _ ↦ true ]

-- `{_key(event, c.key): c for c in finding.conditions}`
pub current_of : Event → List Condition → Dict Condition → Dict Condition
current_of event [] current = current
current_of event (c ∷ cs) current = current_of event cs (Dict.put (state_key event c.key) c current)

module _ (event : Event) (now : ℕ) (settings : EventSettings) where
  abbrev turned_true : Option Seen → Bool
  turned_true none = true
  turned_true (some seen) = not seen.active

  abbrev debounced : Option Seen → Bool
  debounced none = true
  debounced (some seen) = elim event [
    | service_unhealthy ↦ outside_window seen now settings.debounce_minutes
    | _ ↦ true
  ]

  abbrev marker_changed : Condition → Option Seen → Bool
  marker_changed condition none = true
  marker_changed condition (some seen) = not (seen.marker == condition.marker)

  -- Whether a condition is reported, given what is remembered about it.
  abbrev pub fires : Condition → Option Seen → Bool
  fires condition seen =
      if is_edge event then turned_true seen && debounced seen else marker_changed condition seen

  abbrev pub last_of : Option Seen → Sent
  last_of none = never
  last_of (some seen) = seen.last_sent

  -- What is remembered about a condition that holds.
  abbrev pub noted : Condition → Option Seen → Seen
  noted condition seen = record {
    active = true;
    marker = condition.marker;
    last_sent = if fires condition seen then at now else last_of seen;
  }

  -- The loop over the conditions that hold.
  pub report : Dict Condition → Dict Seen → List Condition × Dict Seen
  report [] seen = ([], seen)
  report ((stored_key, condition) ∷ current) seen =
      let old = Dict.get stored_key seen in
      let (new, after) = report current (Dict.put stored_key (noted condition old) seen) in
      (if fires condition old then condition ∷ new else new, after)

  -- What is remembered about a condition that does not hold any more.
  abbrev pub over : Option Seen → Option Seen
  over none = none
  over (some entry) =
      if is_edge event
      then if forgotten entry now then none else some (record entry { active = false })
      else none

  abbrev replace : String → Option Seen → Dict Seen → Dict Seen
  replace stored_key none seen = Dict.remove stored_key seen
  replace stored_key (some entry) seen = Dict.put stored_key entry seen

  -- The loop over what held at the last look.
  pub clear : List String → Dict Seen → Dict Seen
  clear [] seen = seen
  clear (stored_key ∷ stale) seen =
      clear stale (replace stored_key (over (Dict.get stored_key seen)) seen)

abbrev pub has : Option Condition → Bool
has none = false
has (some _) = true

-- `[k for k in state.seen if k.startswith(prefix) and k not in current]`
abbrev pub is_stale : String → Dict Condition → String → Bool
is_stale prefix current k = starts_with k prefix && not (has (Dict.get k current))

pub decide_finding : ℕ → EventSettings → Finding → Dict Seen → List Condition × Dict Seen
unfolding current_of report clear
decide_finding now settings finding seen =
    let event = finding.event in
    let prefix = state_key event finding.scope in
    let current = current_of event finding.conditions [] in
    let (new, after) = report event now settings current seen in
    (new, clear event now settings (keep (is_stale prefix current) (Dict.keys after)) after)

decide_seen : ℕ → EventSettings → List Finding → Dict Seen → List Condition × Dict Seen
unfolding decide_finding
decide_seen now settings [] seen = ([], seen)
decide_seen now settings (finding ∷ findings) seen =
    let (new, after) = decide_finding now settings finding seen in
    let (more, last) = decide_seen now settings findings after in (new ++ more, last)

-- The conditions that are new, and the state that the caller stores.
pub decide : List Finding → NotifyState → ℕ → EventSettings → List Condition × NotifyState
unfolding decide_seen
decide findings state now settings =
    let (new, seen) = decide_seen now settings findings state.seen in
    (new, record state { seen = seen })
