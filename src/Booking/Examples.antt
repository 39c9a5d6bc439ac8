-- ===== src/Booking/Examples.antt =====
-- The booking theorems at concrete inputs, and runs of the service.
use slot.Booking.Outbox.Drain.{run_relay, run_relay_drains}
use slot.Booking.Invariant.ChangeStatus.{change_status-IsValid}
use slot.Prelude.{
  ℕ, String, ◌≡◌, refl, Bool, true, false, [], ◌∷◌, none, arith, Result, ok, err, if◌then◌else◌,
  ◌==◌, ◌+◌, any_of,
}
use slot.Booking.Domain.{
  aware, confirmed, cancelled, Failure, domain, slot_already_booked, invalid_transition,
  ensure_valid_slot, ensure_bookable, ensure_transition,
}
use slot.Booking.Events.{build_event, confirmed_event, BookingEventType, Event}
use slot.Booking.Models.{Booking, OutboxMessage, Db, empty, booking_violation, insert_messages}
use slot.Booking.Service.Queries.{is_available}
use slot.Booking.Service.Commands.{
  create_slot, enqueue_event, enqueue_expired, reserve, book_slot, write_status, change_status,
  new_booking,
}
use slot.Booking.Service.Availability.{book_slot-is_available}
use slot.Booking.Service.Transitions.{change_status-Keeps}
use slot.Booking.Service.Race.{second_booking_refused}
use slot.Booking.Service.Retries.{change_status_lost, change_status_repeated}
use slot.Booking.Outbox.{pending_messages, publish_pending, record_failure, is_unpublished}
use slot.Booking.Outbox.Publisher.{in_memory}
use slot.Booking.Outbox.Delivery.{publish_pending-IsDelivered, IsDelivered}
use slot.Booking.Outbox.Batch.{publish_pending_interrupted, ids_of}
use slot.Booking.Invariant.{IsValid, empty-IsValid}
use slot.Booking.Invariant.CreateSlot.{create_slot-IsValid}
use slot.Booking.Invariant.BookSlot.{book_slot-IsValid}
use slot.Booking.Service.Transitions.{Keeps}
use slot.Booking.System.{Step, Reach, Reach-IsValid, Step-Keeps}

abbrev ids : ℕ → ℕ
ids k = k

-- One slot of "anna", from 5000 to 6000.
abbrev shop : Db
shop = (create_slot empty "anna" (aware 5000) (aware 6000) 1500 10 7).1

-- The first client books it at 100, with a pending time of 900.
abbrev booked : Db
booked = (book_slot shop shop 7 "bob" 100 900 1 ids).1

abbrev paid : Db
paid = (change_status booked booked 1 confirmed 200 40).1

abbrev the_booking : Booking
the_booking = new_booking 1 7 "bob" 100

shop-IsValid : IsValid shop
shop-IsValid = create_slot-IsValid empty "anna" (aware 5000) (aware 6000) 1500 10 7 empty-IsValid

booked-IsValid : IsValid booked
booked-IsValid = book_slot-IsValid shop shop 7 "bob" 100 900 1 ids shop-IsValid

booked_once : book_slot shop shop 7 "bob" 100 900 1 ids ≡ (ok the_booking, booked)
unfolding book_slot create_slot reserve booking_violation insert_messages enqueue_expired
    ensure_valid_slot ensure_bookable
booked_once = refl

booked_later : (book_slot booked booked 7 "eve" 1000 900 2 ids).0 ≡ ok (new_booking 2 7 "eve" 1000)
unfolding book_slot create_slot reserve booking_violation insert_messages enqueue_expired
    ensure_valid_slot ensure_bookable
booked_later = refl

-- The first booking is confirmed before the second request.
second_booking_refused_example :
    (e : Failure) × (book_slot shop paid 7 "eve" 999 900 2 ids ≡ (err e, paid))
unfolding change_status book_slot create_slot reserve booking_violation insert_messages
    enqueue_expired ensure_valid_slot ensure_bookable write_status enqueue_event ensure_transition
second_booking_refused_example =
    second_booking_refused shop shop shop booked paid the_booking
      (record the_booking { status = confirmed; updated_at = 200 }) 7 "bob" "eve" 100 999 900 1 2
      ids ids booked_once (change_status-Keeps booked booked 1 confirmed 200 40) refl refl
      (omega arith)

book_slot-is_available_example :
    (is_available shop 100 900 (record {
      id = 7;
      master_id = "anna";
      starts_at = 5000;
      ends_at = 6000;
      price_minor = 1500;
    })
        ≡ true
      → (book_slot shop shop 7 "bob" 100 900 1 ids).0 ≡ ok the_booking)
    × (is_available shop 100 900 (record {
      id = 7;
      master_id = "anna";
      starts_at = 5000;
      ends_at = 6000;
      price_minor = 1500;
    })
          ≡ false
        → book_slot shop shop 7 "bob" 100 900 1 ids ≡ (err (domain slot_already_booked), shop))
unfolding create_slot ensure_valid_slot
book_slot-is_available_example =
    book_slot-is_available shop
      (record { id = 7; master_id = "anna"; starts_at = 5000; ends_at = 6000; price_minor = 1500 })
      "bob" 100 900 1 ids shop-IsValid refl refl refl

abbrev confirmed_booking : Booking
confirmed_booking = record the_booking { status = confirmed; updated_at = 200 }

paid_once : change_status booked booked 1 confirmed 200 40 ≡ (ok confirmed_booking, paid)
unfolding change_status write_status book_slot create_slot reserve booking_violation insert_messages
    enqueue_expired enqueue_event ensure_valid_slot ensure_bookable ensure_transition
paid_once = refl

change_status_repeated_example :
    (confirmed_booking.status ≡ confirmed)
    × (change_status paid paid 1 confirmed 300 41 ≡ (ok confirmed_booking, paid))
change_status_repeated_example =
    change_status_repeated booked paid 1 confirmed 200 300 40 41 confirmed_booking paid_once

-- The cancellation has read the booking before the payment confirmed it.
change_status_lost_example :
    change_status booked paid 1 cancelled 250 42 ≡ (err (domain invalid_transition), paid)
unfolding change_status write_status book_slot create_slot reserve booking_violation insert_messages
    enqueue_expired enqueue_event ensure_valid_slot ensure_bookable ensure_transition
change_status_lost_example =
    change_status_lost booked paid 1 cancelled 250 42 the_booking confirmed_booking
      (change_status-IsValid booked booked 1 confirmed 200 40 booked-IsValid) refl refl (λ e. cc)
      (λ e. cc)

message : ℕ → OutboxMessage
message i = record {
  id = i;
  topic = confirmed_event;
  payload = build_event i confirmed_event i 7 "bob" 5000 200;
  published_at = none;
  attempts = 0;
  last_error = none;
}

abbrev queue : Db
queue = record empty { outbox = message 3 ∷ message 1 ∷ [] }

-- A broker that counts what it has taken and refuses the second message.
abbrev refuses_second : ℕ → BookingEventType → Event → Result String (Unit {0}) × ℕ
refuses_second n t e = if e.event_id == 3 then (err "timeout", n) else (ok tt, n + 1)

abbrev free : ℕ → Bool
free i = false

publish_pending_interrupted_example :
    let (count, db', after) = publish_pending refuses_second free 100 50 queue 0 in
    (count ≡ 1)
    × (ids_of (pending_messages free 100 db') ≡ 1 ∷ 3 ∷ [])
    × (db'.outbox ≡ record_failure 3 "timeout" queue.outbox)
unfolding pending_messages message build_event
publish_pending_interrupted_example =
    publish_pending_interrupted refuses_second free 100 50 queue 0 1 (message 1 ∷ []) (message 3) []
      "timeout" refl (refl, refl) refl

publish_pending-IsDelivered_example :
    let (count, db', broker') = publish_pending in_memory.publish free 100 50 queue [] in
    IsDelivered in_memory broker' db'.outbox
unfolding message build_event
publish_pending-IsDelivered_example =
    publish_pending-IsDelivered in_memory free 100 50 queue [] (refl, (refl, tt))
      ((λ e. absurd (cc)), ((λ e. absurd (cc)), tt))

Step-Keeps_example : Keeps shop booked
Step-Keeps_example =
    Step-Keeps in_memory shop booked [] [] (Step.books shop 7 "bob" 100 900 1 ids refl refl)

Reach-IsValid_example : IsValid booked
Reach-IsValid_example = Reach-IsValid in_memory [] (
    Reach.next
      (Reach.next Reach.here (Step.creates "anna" (aware 5000) (aware 6000) 1500 10 7 refl refl))
      (Step.books shop 7 "bob" 100 900 1 ids refl refl))

run_relay_drains_example :
    any_of is_unpublished (run_relay in_memory.publish (100 ∷ []) queue []).0.outbox ≡ false
unfolding message
run_relay_drains_example =
    run_relay_drains in_memory.publish (λ broker type e. refl) (100 ∷ []) queue [] (omega arith)
