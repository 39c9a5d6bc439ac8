-- ===== src/Booking/Invariant/BookSlot.antt =====
-- `book_slot` keeps the invariant, whatever the transactions that commit between its reads and its
-- writes.
use slot.Prelude.{
  ℕ, suc, ◌+◌, ◌≤◌, ◌≡◌, refl, inl, inr, Bool, true, false, Option, none, some, String, List, [],
  ◌∷◌, arith, ◌==◌, ==-refl, ==→eq, any_of, select, count_if, All, All-both, All-select,
  count_if-update_where-le, count_if-eq-zero, All-update_where, Bool-cases,
}
use slot.Booking.Domain.{expired, pending, status_eq→eq}
use slot.Booking.Events.{BookingEventType, build_event}
use slot.Booking.Models.{
  Slot, Booking, OutboxMessage, Db, holds_index, insert_messages, booking_violation, Constraint,
}
use slot.Booking.Service.Commands.{
  enqueue_event, is_stale_in, with_status, expire_stale, new_booking, enqueue_expired,
  commit_booking, after_expiry, expiry_messages, reserve, book_slot,
}
use slot.Booking.Service.Paths.{book_slot_paths}
use slot.Booking.Invariant.{
  IsValid, IsAnnounced, IsAnnounced-mono, HasSlot, IsOwnEvent, may_tell, count_if-insert_messages,
  All-insert_messages, is_about, has_id, any_of-insert_messages, one_message-insert_messages,
}

-- Every booking that the loop visits has its event among the new messages.
enqueue_expired-announces :
    (message_ids : ℕ → ℕ) (k : ℕ) (slot : Slot) (now i : ℕ) (bs : List Booking)
    → any_of (has_id i) bs ≡ true
    → any_of (is_about BookingEventType.expired_event i) (enqueue_expired message_ids k slot now bs)
      ≡ true
unfolding enqueue_expired
enqueue_expired-announces message_ids k slot now i [] h = cc
enqueue_expired-announces message_ids k slot now i (b ∷ bs) h =
    ground (arith, enqueue_expired-announces message_ids (suc k) slot now i bs)

enqueue_expired-own :
    (message_ids : ℕ → ℕ) (k : ℕ) (slot : Slot) (now : ℕ) (bs : List Booking)
    → All IsOwnEvent (enqueue_expired message_ids k slot now bs)
unfolding enqueue_expired
enqueue_expired-own message_ids k slot now [] = tt
enqueue_expired-own message_ids k slot now (b ∷ bs) =
    (refl, enqueue_expired-own message_ids (suc k) slot now bs)

module _ (slot_id now ttl : ℕ) where
  expire_stale-one_active :
      (bs : List Booking) (s : ℕ)
      → count_if (holds_index s) (expire_stale slot_id now ttl bs) ≤ count_if (holds_index s) bs
  expire_stale-one_active bs s =
      count_if-update_where-le (holds_index s) (is_stale_in slot_id now ttl)
        (with_status expired now) bs (λ x hit after. ground arith)

  expire_stale-one_booking :
      (bs : List Booking) (i : ℕ)
      → count_if (has_id i) (expire_stale slot_id now ttl bs) ≤ count_if (has_id i) bs
  expire_stale-one_booking bs i =
      count_if-update_where-le (has_id i) (is_stale_in slot_id now ttl) (with_status expired now) bs
        (λ x hit after. after)

  expire_stale-slots_exist :
      (slots : List Slot) (bs : List Booking)
      → All (HasSlot slots) bs
      → All (HasSlot slots) (expire_stale slot_id now ttl bs)
  expire_stale-slots_exist slots bs h =
      All-update_where (HasSlot slots) (HasSlot slots) (is_stale_in slot_id now ttl)
        (with_status expired now) bs (λ x hit has. has) (λ x miss has. has) h

  -- The expired rows are announced by the messages of the loop, the others as before.
  expire_stale-IsAnnounced :
      (message_ids : ℕ → ℕ) (slot : Slot) (outbox outbox' : List OutboxMessage) (bs : List Booking)
      → insert_messages
          (enqueue_expired message_ids 0 slot now (select (is_stale_in slot_id now ttl) bs))
          outbox
        ≡ some outbox'
      → All (λ b. IsAnnounced outbox b.status b.id) bs
      → All (λ b. IsAnnounced outbox' b.status b.id) (expire_stale slot_id now ttl bs)
  expire_stale-IsAnnounced message_ids slot outbox outbox' bs inserted h =
      let stale = is_stale_in slot_id now ttl in
      let new = enqueue_expired message_ids 0 slot now (select stale bs) in
      let added =
        λ (p : OutboxMessage → Bool). any_of-insert_messages p new outbox outbox' inserted in
      let found = λ (b : Booking). any_of (has_id b.id) (select stale bs) ≡ true in
      All-update_where (λ b. IsAnnounced outbox b.status b.id × (stale b ≡ true → found b))
        (λ b. IsAnnounced outbox' b.status b.id) stale (with_status expired now) bs
        (λ b hit both. ground (
          arith,
          added (is_about BookingEventType.expired_event b.id),
          enqueue_expired-announces message_ids 0 slot now b.id (select stale bs) (both.1 hit),
        ))
        (λ b miss both.
          IsAnnounced-mono outbox outbox' b.status b.id (λ p old. ground (arith, added p)) both.0)
        (All-both (λ b. IsAnnounced outbox b.status b.id) (λ b. stale b ≡ true → found b) bs h
          (All-select stale (λ x y. y.id == x.id) bs (λ x. ==-refl x.id)))

-- The messages of the loop are told of the rows that it expires.
expired_once :
    (slot_id now ttl k : ℕ) (message_ids : ℕ → ℕ) (slot : Slot) (type : BookingEventType) (i : ℕ)
    (bs : List Booking)
    → count_if
          (is_about type i)
          (enqueue_expired message_ids k slot now (select (is_stale_in slot_id now ttl) bs))
        + count_if (may_tell type i) bs
      ≤ count_if (may_tell type i) (expire_stale slot_id now ttl bs)
unfolding enqueue_expired enqueue_event build_event
expired_once slot_id now ttl k message_ids slot type i [] = omega arith
expired_once slot_id now ttl k message_ids slot type i (b ∷ bs) =
    elim (Bool-cases (is_stale_in slot_id now ttl b)) [
      | inr other ↦
          rw other (omega (arith, expired_once slot_id now ttl k message_ids slot type i bs))
      | inl stale ↦
          let was : b.status ≡ pending = status_eq→eq b.status pending (ground arith) in
          rw (stale, was)
            (ground (arith, expired_once slot_id now ttl (suc k) message_ids slot type i bs))
    ]

-- One more row that the constraints let in.
insert-one_active :
    (b : Booking) (db : Db)
    → booking_violation b db ≡ none
    → ((s : ℕ) → count_if (holds_index s) db.bookings ≤ 1)
    → (s : ℕ) → count_if (holds_index s) (b ∷ db.bookings) ≤ 1
unfolding booking_violation
insert-one_active b db fits h s = elim (Bool-cases (holds_index s b)) [
  | inl holds ↦
      let e : b.slot_id ≡ s = ==→eq b.slot_id s (ground arith) in
      let free : any_of (holds_index b.slot_id) db.bookings ≡ false = ground arith in
      ground (arith, e, count_if-eq-zero (holds_index b.slot_id) db.bookings free)
  | inr none_held ↦ ground (arith, h s)
]

insert-one_booking :
    (b : Booking) (db : Db)
    → booking_violation b db ≡ none
    → ((i : ℕ) → count_if (has_id i) db.bookings ≤ 1)
    → (i : ℕ) → count_if (has_id i) (b ∷ db.bookings) ≤ 1
unfolding booking_violation
insert-one_booking b db fits h i = elim (Bool-cases (has_id i b)) [
  | inl same ↦
      let e : b.id ≡ i = ==→eq b.id i same in
      let fresh : any_of (has_id b.id) db.bookings ≡ false = ground arith in
      ground (arith, e, count_if-eq-zero (has_id b.id) db.bookings fresh)
  | inr other ↦ ground (arith, h i)
]

insert-slot_exists : (b : Booking) (db : Db) → booking_violation b db ≡ none → HasSlot db.slots b
unfolding booking_violation
insert-slot_exists b db fits = ground arith

module _ (slot : Slot) (db : Db) (slot_id : ℕ) (client_id : String) (now ttl booking_id : ℕ)
    (message_ids : ℕ → ℕ) where
  commit_booking-IsValid :
      (violation : Option Constraint) (inserted : Option (List OutboxMessage))
      → booking_violation
          (new_booking booking_id slot_id client_id now)
          (after_expiry db slot_id now ttl)
        ≡ violation
      → insert_messages (expiry_messages slot db slot_id now ttl message_ids) db.outbox ≡ inserted
      → IsValid db
      → IsValid
          (commit_booking violation inserted db
            (after_expiry db slot_id now ttl)
            (new_booking booking_id slot_id client_id now)).1
  commit_booking-IsValid (some c) inserted refused messages v = v
  commit_booking-IsValid none none fits taken v = v
  commit_booking-IsValid none (some outbox) fits messages v =
      let b = new_booking booking_id slot_id client_id now in
      let updated = after_expiry db slot_id now ttl in
      record {
        one_active = insert-one_active b updated fits (λ s.
            omega (arith, expire_stale-one_active slot_id now ttl db.bookings s, v.one_active s));
        one_booking = insert-one_booking b updated fits (λ i.
            omega (arith, expire_stale-one_booking slot_id now ttl db.bookings i, v.one_booking i));
        one_message =
            one_message-insert_messages (expiry_messages slot db slot_id now ttl message_ids)
              db.outbox outbox messages v.one_message;
        own_events =
            All-insert_messages IsOwnEvent (expiry_messages slot db slot_id now ttl message_ids)
              db.outbox outbox messages
              (enqueue_expired-own message_ids 0 slot now
                (select (is_stale_in slot_id now ttl) db.bookings))
              v.own_events;
        slots_exist = (
          insert-slot_exists b updated fits,
          expire_stale-slots_exist slot_id now ttl db.slots db.bookings v.slots_exist,
        );
        told_once = λ type i.
            let new = expiry_messages slot db slot_id now ttl message_ids in
            let added = count_if-insert_messages (is_about type i) new db.outbox outbox messages in
            let once = expired_once slot_id now ttl 0 message_ids slot type i db.bookings in
            ground (arith, added, once, v.told_once type i);
        announced = (
          tt,
          expire_stale-IsAnnounced slot_id now ttl message_ids slot db.outbox outbox db.bookings
              messages v.announced,
        );
      }

  reserve-IsValid :
      IsValid db → IsValid (reserve slot db slot_id client_id now ttl booking_id message_ids).1
  unfolding reserve
  reserve-IsValid v = commit_booking-IsValid _ _ refl refl v

-- From a valid database, and whatever the reads have seen, `book_slot` leaves a valid one.
pub book_slot-IsValid :
    (seen db : Db) (slot_id : ℕ) (client_id : String) (now ttl booking_id : ℕ) (message_ids : ℕ → ℕ)
    → IsValid db
    → IsValid (book_slot seen db slot_id client_id now ttl booking_id message_ids).1
book_slot-IsValid seen db slot_id client_id now ttl booking_id message_ids v =
    book_slot_paths (λ r. IsValid r.1) seen db slot_id client_id now ttl booking_id message_ids
      (λ e. v)
      (λ slot found future.
        reserve-IsValid slot db slot_id client_id now ttl booking_id message_ids v)
