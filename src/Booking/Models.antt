-- ===== src/Booking/Models.antt =====
-- services/booking/src/booking/models.py: the tables and what their constraints refuse.
-- `created_at` of slots and messages is filled by the server and never read: it is left out.
-- `ck_bookings_status` is the type of the column `status`.
use slot.Prelude.{
  ℕ, String, Bool, ◌&&◌, Option, none, some, List, [], ◌∷◌, ◌==◌, any_of, find_by, if◌then◌else◌,
}
use slot.Booking.Domain.{BookingStatus, is_active}
use slot.Booking.Events.{BookingEventType, Event}

pub record Slot : Type 0 where
  pub id : ℕ
  pub master_id : String
  pub starts_at : ℕ
  pub ends_at : ℕ
  pub price_minor : ℕ

pub record Booking : Type 0 where
  pub id : ℕ
  pub slot_id : ℕ
  pub client_id : String
  pub status : BookingStatus
  pub created_at : ℕ
  pub updated_at : ℕ

pub record OutboxMessage : Type 0 where
  pub id : ℕ
  pub topic : BookingEventType
  pub payload : Event
  pub published_at : Option ℕ
  pub attempts : ℕ
  pub last_error : Option String

-- The committed rows of the three tables.
pub record Db : Type 0 where
  pub slots : List Slot
  pub bookings : List Booking
  pub outbox : List OutboxMessage

abbrev pub empty : Db
empty = record { slots = []; bookings = []; outbox = [] }

-- `session.get` by primary key
abbrev pub get_slot_row : ℕ → Db → Option Slot
get_slot_row i db = find_by (λ s. s.id == i) db.slots

abbrev pub get_booking_row : ℕ → Db → Option Booking
get_booking_row i db = find_by (λ b. b.id == i) db.bookings

-- The rows that `uq_bookings_active_slot` indexes.
abbrev pub holds_index : ℕ → Booking → Bool
holds_index slot_id b = (b.slot_id == slot_id) && is_active b.status

pub data Constraint : Type 0 where
  primary_key active_slot_index foreign_key : Constraint

-- The constraint that an INSERT of a booking violates, if any.
unfoldable pub booking_violation : Booking → Db → Option Constraint
booking_violation b db =
    if any_of (λ (x : Booking). x.id == b.id) db.bookings
    then some primary_key
    else if is_active b.status && any_of (holds_index b.slot_id) db.bookings
    then some active_slot_index
    else if any_of (λ (s : Slot). s.id == b.slot_id) db.slots
    then none
    else some foreign_key

-- The INSERT of the messages added to a session; `none` where a primary key is taken.
unfoldable pub insert_messages :
    List OutboxMessage → List OutboxMessage → Option (List OutboxMessage)
insert_messages [] outbox = some outbox
insert_messages (m ∷ new) outbox =
    let rest = insert_messages new (m ∷ outbox) in
    if any_of (λ (x : OutboxMessage). x.id == m.id) outbox then none else rest
