-- ===== src/Booking/Invariant.antt =====
-- What holds of the booking database between two transactions, and the parts of its preservation
-- that are about one table.
pub mod BookSlot
pub mod ChangeStatus
pub mod CreateSlot
pub mod Relay
use mathlib.Core.Path.{subst}
use slot.Prelude.{
  ℕ, zero, suc, ◌+◌, ◌≤◌, ◌<◌, ◌≡◌, refl, ◌⊎◌, inl, inr, Bool, true, false, ◌&&◌, ◌||◌, Option,
  none, some, List, [], ◌∷◌, arith, ◌==◌, ==-refl, ==→eq, any_of, select, count_if, update_where,
  All, All-map, count_if-update_where-le, count_if-eq-zero, All-update_where, if◌then◌else◌,
  Bool-cases,
}
use slot.Booking.Domain.{BookingStatus, pending, confirmed, cancelled, expired}
use slot.Booking.Events.{BookingEventType, type_eq, event_type}
use slot.Booking.Models.{Slot, Booking, OutboxMessage, Db, empty, holds_index, insert_messages}

-- The outbox has a message of this type about this booking.
abbrev pub is_about : BookingEventType → ℕ → OutboxMessage → Bool
is_about type booking_id m = type_eq m.topic type && (m.payload.booking_id == booking_id)

-- A status that is announced to the world has its event in the outbox.
abbrev pub IsAnnounced : List OutboxMessage → BookingStatus → ℕ → Type 0
IsAnnounced outbox pending booking_id = Unit
IsAnnounced outbox confirmed booking_id =
    any_of (is_about BookingEventType.confirmed_event booking_id) outbox ≡ true
IsAnnounced outbox cancelled booking_id =
    any_of (is_about BookingEventType.cancelled_event booking_id) outbox ≡ true
IsAnnounced outbox expired booking_id =
    any_of (is_about BookingEventType.expired_event booking_id) outbox ≡ true

-- The events that a booking of a status has had: at a time it has the status, and before it was
-- cancelled it may have been confirmed.
abbrev pub has_had : BookingStatus → BookingEventType → Bool
has_had pending type = false
has_had confirmed type = type_eq BookingEventType.confirmed_event type
has_had cancelled type =
    type_eq BookingEventType.cancelled_event type || type_eq BookingEventType.confirmed_event type
has_had expired type = type_eq BookingEventType.expired_event type

abbrev pub has_id : ℕ → Booking → Bool
has_id i b = b.id == i

-- A booking with the id that has had such an event.
abbrev pub may_tell : BookingEventType → ℕ → Booking → Bool
may_tell type booking_id b = has_id booking_id b && has_had b.status type

abbrev pub message_has_id : ℕ → OutboxMessage → Bool
message_has_id i m = m.id == i

abbrev pub HasSlot : List Slot → Booking → Type 0
HasSlot slots b = any_of (λ (s : Slot). s.id == b.slot_id) slots ≡ true

abbrev pub IsOwnEvent : OutboxMessage → Type 0
IsOwnEvent m = m.payload.event_id ≡ m.id

pub record IsValid (db : Db) : Type 0 where
  -- a slot has at most one active booking (ADR-0005)
  pub one_active : (s : ℕ) → count_if (holds_index s) db.bookings ≤ 1
  pub one_booking : (i : ℕ) → count_if (has_id i) db.bookings ≤ 1
  pub one_message : (i : ℕ) → count_if (message_has_id i) db.outbox ≤ 1
  -- the message id is also the event id that consumers deduplicate by
  pub own_events : All IsOwnEvent db.outbox
  pub slots_exist : All (HasSlot db.slots) db.bookings
  -- no status that the world should hear of stands without its event (ADR-0010)
  pub announced : All (λ b. IsAnnounced db.outbox b.status b.id) db.bookings
  -- and no event stands there without a booking that has had it, nor twice
  pub told_once :
      (type : BookingEventType) (i : ℕ)
      → count_if (is_about type i) db.outbox ≤ count_if (may_tell type i) db.bookings

pub empty-IsValid : IsValid empty
empty-IsValid = record {
  one_active = λ s. omega arith;
  one_booking = λ i. omega arith;
  one_message = λ i. omega arith;
  own_events = tt;
  slots_exist = tt;
  announced = tt;
  told_once = λ type i. omega arith;
}

-- An INSERT keeps every row that was there, and adds the new ones.
pub any_of-insert_messages :
    (p : OutboxMessage → Bool) (new outbox outbox' : List OutboxMessage)
    → insert_messages new outbox ≡ some outbox'
    → any_of p outbox' ≡ (any_of p new || any_of p outbox)
unfolding insert_messages
any_of-insert_messages p [] outbox outbox' e = ground arith
any_of-insert_messages p (m ∷ new) outbox outbox' e =
    ground (arith, any_of-insert_messages p new (m ∷ outbox) outbox')

pub count_if-insert_messages :
    (p : OutboxMessage → Bool) (new outbox outbox' : List OutboxMessage)
    → insert_messages new outbox ≡ some outbox'
    → count_if p outbox' ≡ count_if p new + count_if p outbox
unfolding insert_messages
count_if-insert_messages p [] outbox outbox' e = ground arith
count_if-insert_messages p (m ∷ new) outbox outbox' e =
    ground (arith, count_if-insert_messages p new (m ∷ outbox) outbox')

fresh_count :
    (m : OutboxMessage) (outbox : List OutboxMessage)
    → any_of (message_has_id m.id) outbox ≡ false
    → ((i : ℕ) → count_if (message_has_id i) outbox ≤ 1)
    → (i : ℕ) → count_if (message_has_id i) (m ∷ outbox) ≤ 1
fresh_count m outbox fresh h i = elim (Bool-cases (m.id == i)) [
  | inl same ↦
      let e : m.id ≡ i = ==→eq m.id i same in
      ground (arith, e, count_if-eq-zero (message_has_id m.id) outbox fresh)
  | inr other ↦ ground (arith, h i)
]

pub All-insert_messages {κ} :
    (P : OutboxMessage → Type κ) (new outbox outbox' : List OutboxMessage)
    → insert_messages new outbox ≡ some outbox'
    → All P new
    → All P outbox
    → All P outbox'
unfolding insert_messages
All-insert_messages P [] outbox outbox' e h k =
    let same : outbox ≡ outbox' = ground arith in subst (All P) same k
All-insert_messages P (m ∷ new) outbox outbox' e h k =
    elim (Bool-cases (any_of (message_has_id m.id) outbox)) [
      | inl taken ↦ absurd (ground arith)
      | inr fresh ↦ All-insert_messages P new (m ∷ outbox) outbox' (ground arith) h.1 (h.0, k)
    ]

pub one_message-insert_messages :
    (new outbox outbox' : List OutboxMessage)
    → insert_messages new outbox ≡ some outbox'
    → ((i : ℕ) → count_if (message_has_id i) outbox ≤ 1)
    → (i : ℕ) → count_if (message_has_id i) outbox' ≤ 1
unfolding insert_messages
one_message-insert_messages [] outbox outbox' e h i = ground (arith, h i)
one_message-insert_messages (m ∷ new) outbox outbox' e h i =
    elim (Bool-cases (any_of (message_has_id m.id) outbox)) [
      | inl taken ↦ ground arith
      | inr fresh ↦
          one_message-insert_messages new (m ∷ outbox) outbox' (ground arith)
            (fresh_count m outbox fresh h) i
    ]

-- More messages announce no less.
pub IsAnnounced-mono :
    (outbox outbox' : List OutboxMessage) (status : BookingStatus) (booking_id : ℕ)
    → ((p : OutboxMessage → Bool) → any_of p outbox ≡ true → any_of p outbox' ≡ true)
    → IsAnnounced outbox status booking_id
    → IsAnnounced outbox' status booking_id
IsAnnounced-mono outbox outbox' pending i more h = tt
IsAnnounced-mono outbox outbox' confirmed i more h = more _ h
IsAnnounced-mono outbox outbox' cancelled i more h = more _ h
IsAnnounced-mono outbox outbox' expired i more h = more _ h
