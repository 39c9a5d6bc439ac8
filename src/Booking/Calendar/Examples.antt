-- ===== src/Booking/Calendar/Examples.antt =====
-- The calendar theorem at a concrete input: an hour of "anna" that "bob" books.
use slot.Prelude.{ℕ, ◌≡◌, refl, arith, some, none, []}
use slot.Booking.Domain.{aware, ensure_valid_slot, ensure_bookable}
use slot.Booking.Models.{Db, empty, booking_violation, insert_messages}
use slot.Booking.Service.Commands.{create_slot, enqueue_expired, reserve, book_slot}
use slot.Booking.Outbox.Publisher.{in_memory}
use slot.Booking.Invariant.{empty-IsValid}
use slot.Booking.Invariant.CreateSlot.{create_slot-IsValid}
use slot.Booking.System.{books}
use slot.Booking.Calendar.{holder, booking, Move, Wait}
use slot.Booking.Calendar.Refinement.{Step-Refines}

abbrev ids : ℕ → ℕ
ids k = k

abbrev shop : Db
shop = (create_slot empty "anna" (aware 5000) (aware 6000) 1500 10 7).1

abbrev booked : Db
booked = (book_slot shop shop 7 "bob" 100 900 1 ids).1

Step-Refines_example :
    Wait 50 100 (holder 50 900 shop 7) (holder 100 900 shop 7)
    × Move 7 (booking 7 1) (holder 100 900 shop 7) (holder 100 900 booked 7)
Step-Refines_example =
    Step-Refines in_memory 50 100 900 7 shop booked [] []
      (books shop 7 "bob" 100 900 1 ids refl refl) (omega arith)
      (create_slot-IsValid empty "anna" (aware 5000) (aware 6000) 1500 10 7 empty-IsValid)
      (refl, refl)

-- The pending booking holds the hour, and lapses with its lifetime.
held_then_lapsed : (holder 999 900 booked 7 ≡ some 1) × (holder 1000 900 booked 7 ≡ none)
unfolding book_slot create_slot reserve booking_violation insert_messages enqueue_expired
    ensure_valid_slot ensure_bookable holder
held_then_lapsed = (refl, refl)
