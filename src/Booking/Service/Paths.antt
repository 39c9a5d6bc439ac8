-- ===== src/Booking/Service/Paths.antt =====
-- The paths through the use cases that write, as rules: what holds of every way to fail, and of the
-- transaction that writes, holds of the call.
use slot.Prelude.{
  ℕ, ◌<◌, ◌≡◌, inl, inr, true, some, String, arith, leb, any_of, Bool-cases, Option-cases, Result,
  ok, err, Result-cases,
}
use slot.Booking.Domain.{
  BookingStatus, cancelled, status_eq, status_eq→eq, Failure, allowed_transitions,
}
use slot.Booking.Models.{Slot, Booking, Db, get_slot_row, get_booking_row}
use slot.Booking.Auth.{Identity}
use slot.Booking.Service.Queries.{get_owned_booking}
use slot.Booking.Service.Commands.{
  reserve, book_slot, is_unchanged, announce, write_status, change_status, cancel_booking,
}

module _ {ℓ} (P : Result Failure Booking × Db → Type ℓ) where
  module _ (seen db : Db) (slot_id : ℕ) (client_id : String) (now ttl booking_id : ℕ)
      (message_ids : ℕ → ℕ) (fails : (e : Failure) → P (err e, db)) where
    pub book_slot_paths :
        ((slot : Slot)
          → get_slot_row slot_id seen ≡ some slot
          → now < slot.starts_at
          → P (reserve slot db slot_id client_id now ttl booking_id message_ids))
        → P (book_slot seen db slot_id client_id now ttl booking_id message_ids)
    unfolding book_slot
    book_slot_paths writes = elim (Option-cases (get_slot_row slot_id seen)) [
      | inl missing ↦ rw (missing, book_slot) (fails _)
      | inr (slot, found) ↦ elim (Bool-cases (leb slot.starts_at now)) [
        | inl past ↦ rw (found, past, book_slot) (fails _)
        | inr future ↦ rw (found, future, book_slot) (writes slot found (ground arith))
      ]
    ]

  module _ (seen db : Db) (booking_id : ℕ) (target : BookingStatus) (now message_id : ℕ)
      (fails : (e : Failure) → P (err e, db)) where
    pub change_status_paths :
        ((booking : Booking)
          → get_booking_row booking_id seen ≡ some booking
          → booking.status ≡ target
          → P (ok booking, db))
        → ((booking : Booking)
            → get_booking_row booking_id seen ≡ some booking
            → any_of (status_eq target) (allowed_transitions booking.status) ≡ true
            → any_of (is_unchanged booking_id booking.status) db.bookings ≡ true
            → P (
                announce
                  (get_slot_row booking.slot_id db)
                  db
                  booking
                  booking_id
                  target
                  now
                  message_id))
        → P (change_status seen db booking_id target now message_id)
    unfolding change_status write_status
    change_status_paths repeats writes = elim (Option-cases (get_booking_row booking_id seen)) [
      | inl missing ↦ rw (missing, change_status) (fails _)
      | inr (b, found) ↦ elim (Bool-cases (status_eq b.status target)) [
        | inl same ↦
            rw (found, same, change_status) (repeats b found (status_eq→eq b.status target same))
        | inr other ↦ elim (Bool-cases (any_of (status_eq target) (allowed_transitions b.status))) [
          | inl allowed ↦
              rw (found, other, allowed, change_status)
                (elim (Bool-cases (any_of (is_unchanged booking_id b.status) db.bookings)) [
                  | inl current ↦ rw (current, write_status) (writes b found allowed current)
                  | inr changed ↦ rw (changed, write_status) (fails _)
                ])
          | inr refused ↦ rw (found, other, refused, change_status) (fails _)
        ]
      ]
    ]

  pub cancel_booking_paths :
      (seen db : Db) (booking_id : ℕ) (identity : Identity) (now message_id : ℕ)
      → ((e : Failure) → P (err e, db))
      → ((booking : Booking) (slot : Slot)
          → get_owned_booking seen booking_id identity ≡ ok (booking, slot)
          → P (change_status seen db booking.id cancelled now message_id))
      → P (cancel_booking seen db booking_id identity now message_id)
  unfolding cancel_booking
  cancel_booking_paths seen db booking_id identity now message_id fails writes =
      elim (Result-cases (get_owned_booking seen booking_id identity)) [
        | inl (found, owned) ↦ rw (owned, cancel_booking) (writes found.0 found.1 owned)
        | inr (e, refused) ↦ rw (refused, cancel_booking) (fails e)
      ]
