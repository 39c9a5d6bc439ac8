-- ===== src/Booking/Service/Availability.antt =====
-- What `list_slots` promises about a slot is what `book_slot` does with it.
use slot.Prelude.{
  ℕ, ◌≤◌, String, ◌≡◌, refl, inl, inr, true, false, ◌&&◌, List, [], ◌∷◌, none, some, arith, leb,
  ◌==◌, any_of, select, count_if, length, Bool-cases, ok, err, if◌then◌else◌, any_of-find_by,
}
use slot.Booking.Domain.{expired, domain, slot_in_past, slot_already_booked}
use slot.Booking.Models.{
  Slot, Booking, OutboxMessage, Db, primary_key, active_slot_index, foreign_key, holds_index,
  booking_violation, insert_messages, get_slot_row,
}
use slot.Booking.Service.Queries.{is_taken, holds_slot, is_available}
use slot.Booking.Service.Commands.{
  is_stale_in, expire_stale, new_booking, enqueue_event, enqueue_expired, after_expiry, reserve,
  book_slot,
}
use slot.Booking.Invariant.{IsValid, has_id, message_has_id}

module _ (slot_id now ttl : ℕ) where
  -- After the stale bookings have expired, the index holds the slot just where a booking holds it.
  any_of-expire_stale :
      (bs : List Booking)
      → any_of (holds_index slot_id) (expire_stale slot_id now ttl bs)
        ≡ any_of (λ b. (b.slot_id == slot_id) && holds_slot now ttl b) bs
  any_of-expire_stale [] = refl
  any_of-expire_stale (b ∷ bs) = ground (arith, any_of-expire_stale bs)

  has_id-expire_stale :
      (i : ℕ) (bs : List Booking)
      → any_of (has_id i) (expire_stale slot_id now ttl bs) ≡ any_of (has_id i) bs
  has_id-expire_stale i [] = refl
  has_id-expire_stale i (b ∷ bs) = ground (arith, has_id-expire_stale i bs)

  -- The constraint that decides `book_slot`, read off the database before it.
  pub violation-after_expiry :
      (db : Db) (client_id : String) (booking_id : ℕ)
      → booking_violation
          (new_booking booking_id slot_id client_id now)
          (after_expiry db slot_id now ttl)
        ≡ (if any_of (has_id booking_id) db.bookings
            then some primary_key
            else if is_taken db now ttl slot_id
            then some active_slot_index
            else if any_of (λ (s : Slot). s.id == slot_id) db.slots
            then none
            else some foreign_key)
  unfolding booking_violation
  violation-after_expiry db client_id booking_id =
      ground (arith, any_of-expire_stale db.bookings, has_id-expire_stale booking_id db.bookings)

  stale-le-active :
      (bs : List Booking)
      → length (select (is_stale_in slot_id now ttl) bs) ≤ count_if (holds_index slot_id) bs
  stale-le-active [] = omega arith
  stale-le-active (b ∷ bs) = ground (arith, stale-le-active bs)

-- At most one stale booking means at most one message, so one fresh id serves.
expiry_inserted :
    (message_ids : ℕ → ℕ) (slot : Slot) (now : ℕ) (bs : List Booking) (outbox : List OutboxMessage)
    → length bs ≤ 1
    → any_of (message_has_id (message_ids 0)) outbox ≡ false
    → (outbox' : List OutboxMessage) × (insert_messages
          (enqueue_expired message_ids 0 slot now bs)
          outbox
        ≡ some outbox')
unfolding insert_messages enqueue_expired
expiry_inserted message_ids slot now [] outbox few fresh = (outbox, refl)
expiry_inserted message_ids slot now (b ∷ []) outbox few fresh = (
  enqueue_event outbox expired b.id b.client_id slot now (message_ids 0),
  unfold enqueue_event in rw fresh refl,
)
expiry_inserted message_ids slot now (b ∷ c ∷ bs) outbox few fresh = absurd (omega arith)

module _ (db : Db) (slot : Slot) (client_id : String) (now ttl booking_id : ℕ) (message_ids : ℕ → ℕ)
    (v : IsValid db) (found : get_slot_row slot.id db ≡ some slot)
    (fresh_booking : any_of (has_id booking_id) db.bookings ≡ false)
    (fresh_message : any_of (message_has_id (message_ids 0)) db.outbox ≡ false) where
  slot_row : any_of (λ (s : Slot). s.id == slot.id) db.slots ≡ true
  slot_row = any_of-find_by (λ s. s.id == slot.id) db.slots slot found

  reserve_free :
      is_taken db now ttl slot.id ≡ false
      → (reserve slot db slot.id client_id now ttl booking_id message_ids).0
        ≡ ok (new_booking booking_id slot.id client_id now)
  unfolding reserve
  reserve_free free =
      let few : length (select (is_stale_in slot.id now ttl) db.bookings) ≤ 1 =
        omega (arith, stale-le-active slot.id now ttl db.bookings, v.one_active slot.id) in
      let (outbox, inserted) =
        expiry_inserted message_ids slot now (select (is_stale_in slot.id now ttl) db.bookings)
          db.outbox few fresh_message in
      rw (violation-after_expiry slot.id now ttl db client_id booking_id)
        (rw (fresh_booking, free, slot_row, inserted) refl)

  reserve_taken :
      is_taken db now ttl slot.id ≡ true
      → reserve slot db slot.id client_id now ttl booking_id message_ids
        ≡ (err (domain slot_already_booked), db)
  unfolding reserve
  reserve_taken taken =
      rw (violation-after_expiry slot.id now ttl db client_id booking_id)
        (rw (fresh_booking, taken) refl)

  -- In a valid database that has the slot, with an id for the booking and for the first message that
  -- no row has: if `list_slots` says that the slot is available, `book_slot` on the same database
  -- succeeds; if not, it raises that the slot is in the past or is booked, and changes nothing.
  pub book_slot-is_available :
      (is_available db now ttl slot ≡ true
        → (book_slot db db slot.id client_id now ttl booking_id message_ids).0
          ≡ ok (new_booking booking_id slot.id client_id now))
      × (is_available db now ttl slot ≡ false
          → book_slot db db slot.id client_id now ttl booking_id message_ids ≡ (
            err (domain (if leb slot.starts_at now then slot_in_past else slot_already_booked)),
            db,
          ))
  unfolding book_slot
  book_slot-is_available = (
    (λ available.
        rw (found, book_slot)
          (elim (Bool-cases (leb slot.starts_at now)) [
            | inl past ↦ absurd (ground arith)
            | inr future ↦ rw (future) (reserve_free (ground arith))
          ])),
    (λ unavailable.
        rw (found, book_slot)
          (elim (Bool-cases (leb slot.starts_at now)) [
            | inl past ↦ rw past refl
            | inr future ↦ rw (future) (reserve_taken (ground arith))
          ])),
  )
