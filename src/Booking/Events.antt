-- ===== src/Booking/Events.antt =====
-- services/booking/src/booking/events.py: the events that a change of status produces.
use slot.Prelude.{ℕ, String, Bool, true, false, Option, none, some}
use slot.Booking.Domain.{BookingStatus, pending, confirmed, cancelled, expired}

abbrev pub event_version : ℕ
event_version = 1

pub data BookingEventType : Type 0 where
  confirmed_event cancelled_event expired_event : BookingEventType

abbrev pub type_eq : BookingEventType → BookingEventType → Bool
type_eq confirmed_event confirmed_event = true
type_eq cancelled_event cancelled_event = true
type_eq expired_event expired_event = true
type_eq _ _ = false

-- `STATUS_EVENTS.get`
abbrev pub event_type : BookingStatus → Option BookingEventType
event_type pending = none
event_type confirmed = some confirmed_event
event_type cancelled = some cancelled_event
event_type expired = some expired_event

-- The message body. Identifiers and instants stand for the texts that `str` and `isoformat` give.
pub record Event : Type 0 where
  pub event_id : ℕ
  pub type : BookingEventType
  pub version : ℕ
  pub occurred_at : ℕ
  pub booking_id : ℕ
  pub slot_id : ℕ
  pub client_id : String
  pub starts_at : ℕ

-- `type` is `STATUS_EVENTS[status]`, which its caller has looked up already.
unfoldable pub build_event : ℕ → BookingEventType → ℕ → ℕ → String → ℕ → ℕ → Event
build_event event_id type booking_id slot_id client_id starts_at occurred_at = record {
  event_id = event_id;
  type = type;
  version = event_version;
  occurred_at = occurred_at;
  booking_id = booking_id;
  slot_id = slot_id;
  client_id = client_id;
  starts_at = starts_at;
}
