-- ===== src/Notifications/Model.antt =====
-- src/app/core/notifications/model.py: the events, the recipients and the settings.
use papaia_manager.Base.{
  ℕ, String, Bool, true, false, ◌&&◌, Option, List, [], ◌∷◌, any, find_first, keep, ◌==◌,
}

pub data Event : Type 0 where
  job_failed backup_overdue service_unhealthy update_available cert_expiring : Event

abbrev pub event_eq : Event → Event → Bool
event_eq job_failed job_failed = true
event_eq backup_overdue backup_overdue = true
event_eq service_unhealthy service_unhealthy = true
event_eq update_available update_available = true
event_eq cert_expiring cert_expiring = true
event_eq _ _ = false

-- The value of the enum, as the state file has it.
abbrev pub event_value : Event → String
event_value job_failed = "job_failed"
event_value backup_overdue = "backup_overdue"
event_value service_unhealthy = "service_unhealthy"
event_value update_available = "update_available"
event_value cert_expiring = "cert_expiring"

pub data Kind : Type 0 where
  email webhook : Kind

-- The order of the columns of the page.
abbrev pub catalogue : List Event
catalogue = job_failed ∷ backup_overdue ∷ service_unhealthy ∷ update_available ∷ cert_expiring ∷ []

abbrev pub member : Event → List Event → Bool
member event events = any (event_eq event) events

-- Each event once, in the order of the catalogue.
unfoldable pub validate_events : List Event → List Event
validate_events values = keep (λ event. member event values) catalogue

pub record Recipient : Type 0 where
  pub id : String
  pub name : String
  pub kind : Kind
  pub target : String
  pub enabled : Bool
  pub events : List Event

pub record EventSettings : Type 0 where
  pub check_interval_minutes : ℕ
  pub debounce_minutes : ℕ
  pub cert_lead_days : ℕ

pub record NotificationsConfig : Type 0 where
  pub version : ℕ
  pub settings : EventSettings
  pub recipients : List Recipient

unfoldable pub find : String → NotificationsConfig → Option Recipient
find recipient_id config = find_first (λ r. r.id == recipient_id) config.recipients

-- The recipients that are on and chose this event.
unfoldable pub subscribed_to : Event → NotificationsConfig → List Recipient
subscribed_to event config = keep (λ r. r.enabled && member event r.events) config.recipients
