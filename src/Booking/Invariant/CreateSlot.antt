-- ===== src/Booking/Invariant/CreateSlot.antt =====
-- `create_slot` keeps the invariant.
use slot.Prelude.{ℕ, String, inl, inr, ◌∷◌, All-map, any_of, arith, Bool-cases, ◌==◌, Result-cases}
use slot.Booking.Domain.{DateTime, ensure_valid_slot}
use slot.Booking.Models.{Slot, Db}
use slot.Booking.Service.Commands.{create_slot}
use slot.Booking.Invariant.{IsValid}

one_more_slot : (s : Slot) (db : Db) → IsValid db → IsValid (record db { slots = s ∷ db.slots })
one_more_slot s db v = record {
  one_active = v.one_active;
  one_booking = v.one_booking;
  one_message = v.one_message;
  own_events = v.own_events;
  slots_exist = All-map db.bookings (λ b has. ground arith) v.slots_exist;
  announced = v.announced;
  told_once = v.told_once;
}

pub create_slot-IsValid :
    (db : Db) (master_id : String) (starts_at ends_at : DateTime) (price_minor now slot_id : ℕ)
    → IsValid db
    → IsValid (create_slot db master_id starts_at ends_at price_minor now slot_id).1
unfolding create_slot
create_slot-IsValid db master_id starts_at ends_at price_minor now slot_id v =
    elim (Result-cases (ensure_valid_slot starts_at ends_at now)) [
      | inl (_, valid) ↦ elim (Bool-cases (any_of (λ (s : Slot). s.id == slot_id) db.slots)) [
        | inl taken ↦ rw (valid, taken, create_slot) v
        | inr fresh ↦ rw (valid, fresh, create_slot) (one_more_slot _ db v)
      ]
      | inr (e, invalid) ↦ rw (invalid, create_slot) v
    ]
