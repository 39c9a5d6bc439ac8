-- ===== src/Booking/Invariant/ChangeStatus.antt =====
-- `change_status` and `cancel_booking` keep the invariant, whatever the transactions that commit
-- between their reads and their writes.
use slot.Prelude.{
  ℕ, ◌+◌, ◌≤◌, ◌≡◌, refl, Bool, true, false, ◌∷◌, ◌&&◌, count_if, update_where, ==→eq, Bool-cases,
  inl, inr, if◌then◌else◌, Option, none, some, String, List, [], arith, ◌==◌, any_of, All,
  count_if-update_where-le, All-update_where,
}
use slot.Booking.Domain.{
  BookingStatus, pending, confirmed, cancelled, expired, status_eq, status_eq→eq,
  allowed_transitions,
}
use slot.Booking.Events.{
  BookingEventType, confirmed_event, cancelled_event, expired_event, event_type, type_eq,
  build_event,
}
use slot.Booking.Models.{
  Slot, Booking, OutboxMessage, Db, holds_index, insert_messages, get_slot_row,
}
use slot.Booking.Auth.{Identity}
use slot.Booking.Service.Commands.{
  is_unchanged, with_status, enqueue_event, commit_status, after_update, announce, change_status,
  cancel_booking,
}
use slot.Booking.Service.Paths.{change_status_paths, cancel_booking_paths}
use slot.Booking.Invariant.{
  IsValid, IsAnnounced, IsAnnounced-mono, HasSlot, IsOwnEvent, may_tell, has_had,
  count_if-insert_messages, All-insert_messages, is_about, has_id, any_of-insert_messages,
  one_message-insert_messages,
}

abbrev is_event_of : BookingStatus → BookingEventType → Bool
is_event_of target type = elim (event_type target) [ none ↦ false | some t ↦ type_eq t type ]

-- The event of the new status is among the new messages.
pub enqueue_event-announces :
    (target : BookingStatus) (booking_id i : ℕ) (client_id : String) (slot : Slot)
    (now message_id : ℕ) (outbox outbox' : List OutboxMessage)
    → insert_messages (enqueue_event [] target booking_id client_id slot now message_id) outbox
      ≡ some outbox'
    → (i == booking_id) ≡ true
    → IsAnnounced outbox' target i
unfolding enqueue_event
enqueue_event-announces pending booking_id i client_id slot now m outbox outbox' e same = tt
enqueue_event-announces confirmed booking_id i client_id slot now m outbox outbox' e same =
    ground (
      arith,
      any_of-insert_messages (is_about BookingEventType.confirmed_event i) _ outbox outbox' e,
    )
enqueue_event-announces cancelled booking_id i client_id slot now m outbox outbox' e same =
    ground (
      arith,
      any_of-insert_messages (is_about BookingEventType.cancelled_event i) _ outbox outbox' e,
    )
enqueue_event-announces expired booking_id i client_id slot now m outbox outbox' e same =
    ground
      (arith, any_of-insert_messages (is_about BookingEventType.expired_event i) _ outbox outbox' e)

-- A status that is reached leaves room for its event, and for those before it.
has_had-next :
    (current target : BookingStatus) (type : BookingEventType)
    → any_of (status_eq target) (allowed_transitions current) ≡ true
    → (if has_had current type then 1 else 0) + (if is_event_of target type then 1 else 0)
      ≤ (if has_had target type then 1 else 0)
has_had-next pending confirmed type h = ground arith
has_had-next pending cancelled type h = ground arith
has_had-next pending expired type h = ground arith
has_had-next confirmed cancelled confirmed_event h = omega arith
has_had-next confirmed cancelled cancelled_event h = omega arith
has_had-next confirmed cancelled expired_event h = omega arith
has_had-next pending pending type h = absurd (cc h)
has_had-next confirmed pending type h = absurd (cc h)
has_had-next confirmed confirmed type h = absurd (cc h)
has_had-next confirmed expired type h = absurd (cc h)
has_had-next cancelled target type h = absurd (cc h)
has_had-next expired target type h = absurd (cc h)

-- The new message is one, about the booking.
new_count :
    (target : BookingStatus) (booking_id : ℕ) (client_id : String) (slot : Slot)
    (now message_id : ℕ) (type : BookingEventType) (i : ℕ)
    → count_if (is_about type i) (enqueue_event [] target booking_id client_id slot now message_id)
      ≡ (if is_event_of target type && (booking_id == i) then 1 else 0)
unfolding enqueue_event build_event
new_count pending booking_id client_id slot now m type i = refl
new_count confirmed booking_id client_id slot now m type i = ground arith
new_count cancelled booking_id client_id slot now m type i = ground arith
new_count expired booking_id client_id slot now m type i = ground arith

-- The update makes room for the new event, if it meets a row.
module _ (booking_id i now : ℕ) (current target : BookingStatus) (type : BookingEventType)
    (allowed : any_of (status_eq target) (allowed_transitions current) ≡ true) where
  rows_kept :
      (bs : List Booking)
      → count_if (may_tell type i) bs
        ≤ count_if
            (may_tell type i)
            (update_where (is_unchanged booking_id current) (with_status target now) bs)
  rows_kept [] = omega arith
  rows_kept (b ∷ bs) = elim (Bool-cases (is_unchanged booking_id current b)) [
    | inr other ↦ rw other (omega (arith, rows_kept bs))
    | inl hit ↦
        let was : b.status ≡ current = status_eq→eq b.status current (ground arith) in
        rw (hit, was) (ground (arith, rows_kept bs, has_had-next current target type allowed))
  ]

  room :
      (bs : List Booking)
      → any_of (is_unchanged booking_id current) bs ≡ true
      → (if is_event_of target type && (booking_id == i) then 1 else 0)
          + count_if (may_tell type i) bs
        ≤ count_if
            (may_tell type i)
            (update_where (is_unchanged booking_id current) (with_status target now) bs)
  room [] met = absurd (cc met)
  room (b ∷ bs) met = elim (Bool-cases (is_unchanged booking_id current b)) [
    | inr other ↦ rw other (omega (arith, room bs (rw other at met)))
    | inl hit ↦
        let was : b.status ≡ current = status_eq→eq b.status current (ground arith) in
        let named : b.id ≡ booking_id = ==→eq b.id booking_id (ground arith) in
        rw (hit, was, named)
          (ground (arith, rows_kept bs, has_had-next current target type allowed))
  ]

enqueue_event-own :
    (target : BookingStatus) (booking_id : ℕ) (client_id : String) (slot : Slot)
    (now message_id : ℕ)
    → All IsOwnEvent (enqueue_event [] target booking_id client_id slot now message_id)
unfolding enqueue_event
enqueue_event-own pending booking_id client_id slot now message_id = tt
enqueue_event-own _ booking_id client_id slot now message_id = (refl, tt)

module _ (db : Db) (booking : Booking) (booking_id : ℕ) (target : BookingStatus)
    (now message_id : ℕ)
    (allowed : any_of (status_eq target) (allowed_transitions booking.status) ≡ true)
    (current : any_of (is_unchanged booking_id booking.status) db.bookings ≡ true)
    (v : IsValid db) where
  announce-IsValid :
      (slot : Option Slot) → IsValid (announce slot db booking booking_id target now message_id).1
  announce-IsValid none = v
  announce-IsValid (some slot) = committed (insert_messages _ db.outbox) refl
    where
      new : List OutboxMessage
      new = enqueue_event [] target booking_id booking.client_id slot now message_id

      hit : Booking → Bool
      hit = is_unchanged booking_id booking.status

      committed :
          (inserted : Option (List OutboxMessage))
          → insert_messages new db.outbox ≡ inserted
          → IsValid
              (commit_status inserted db
                (after_update db booking booking_id target now)
                booking_id).1
      committed none e = v
      committed (some outbox) e = record {
        one_active = λ s.
            let fewer =
              count_if-update_where-le (holds_index s) hit (with_status target now) db.bookings
                (λ x unchanged after. ground arith) in
            omega (arith, fewer, v.one_active s);
        one_booking = λ i.
            let same =
              count_if-update_where-le (has_id i) hit (with_status target now) db.bookings
                (λ x unchanged after. after) in
            omega (arith, same, v.one_booking i);
        one_message = one_message-insert_messages new db.outbox outbox e v.one_message;
        own_events =
            All-insert_messages IsOwnEvent new db.outbox outbox e
              (enqueue_event-own target booking_id booking.client_id slot now message_id)
              v.own_events;
        slots_exist =
            All-update_where (HasSlot db.slots) (HasSlot db.slots) hit (with_status target now)
              db.bookings (λ x unchanged has. has) (λ x other has. has) v.slots_exist;
        told_once = λ type i.
            let added = count_if-insert_messages (is_about type i) new db.outbox outbox e in
            let one = new_count target booking_id booking.client_id slot now message_id type i in
            let fits =
              room booking_id i now booking.status target type allowed db.bookings current in
            omega (arith, added, one, fits, v.told_once type i);
        announced =
            All-update_where (λ b. IsAnnounced db.outbox b.status b.id)
              (λ b. IsAnnounced outbox b.status b.id) hit (with_status target now) db.bookings
              (λ b unchanged old.
                enqueue_event-announces target booking_id b.id booking.client_id slot now message_id
                  db.outbox outbox e (ground arith))
              (λ b other old.
                IsAnnounced-mono db.outbox outbox b.status b.id
                  (λ p before. ground (arith, any_of-insert_messages p new db.outbox outbox e)) old)
              v.announced;
      }

-- From a valid database, and whatever the reads have seen, `change_status` leaves a valid one.
pub change_status-IsValid :
    (seen db : Db) (booking_id : ℕ) (target : BookingStatus) (now message_id : ℕ)
    → IsValid db
    → IsValid (change_status seen db booking_id target now message_id).1
change_status-IsValid seen db booking_id target now message_id v =
    change_status_paths (λ r. IsValid r.1) seen db booking_id target now message_id (λ e. v)
      (λ booking found same. v)
      (λ booking found allowed current.
        announce-IsValid db booking booking_id target now message_id allowed current v
          (get_slot_row booking.slot_id db))

pub cancel_booking-IsValid :
    (seen db : Db) (booking_id : ℕ) (identity : Identity) (now message_id : ℕ)
    → IsValid db
    → IsValid (cancel_booking seen db booking_id identity now message_id).1
cancel_booking-IsValid seen db booking_id identity now message_id v =
    cancel_booking_paths (λ r. IsValid r.1) seen db booking_id identity now message_id (λ e. v)
      (λ booking slot owned. change_status-IsValid seen db booking.id cancelled now message_id v)
