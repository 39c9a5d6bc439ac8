-- ===== src/Booking/System.antt =====
-- The booking service and its relay as one system: any number of calls in any order, where the
-- reads of a call may have met any earlier database, or any other at all.
use slot.Prelude.{
  ℕ, String, ◌≡◌, Bool, arith, List, Option, none, some, find_by, ap, ◌∙◌, ◌==◌, refl,
}
use slot.Booking.Domain.{DateTime, BookingStatus}
use slot.Booking.Models.{Db, empty, Booking}
use slot.Booking.Auth.{Identity}
use slot.Booking.Service.Commands.{create_slot, book_slot, change_status, cancel_booking}
use slot.Booking.Service.Transitions.{
  Keeps, Keeps-refl, book_slot-Keeps, change_status-Keeps, cancel_booking-Keeps,
}
use slot.Booking.Outbox.{publish_pending, settle}
use slot.Booking.Outbox.Publisher.{Publisher}
use slot.Booking.Invariant.{IsValid, empty-IsValid}
use slot.Booking.Invariant.CreateSlot.{create_slot-IsValid}
use slot.Booking.Invariant.BookSlot.{book_slot-IsValid}
use slot.Booking.Invariant.ChangeStatus.{change_status-IsValid, cancel_booking-IsValid}
use slot.Booking.Invariant.Relay.{publish_pending-IsValid}

-- Calls that leave the bookings alone.
Keeps-of_bookings : (db db' : Db) → db'.bookings ≡ db.bookings → Keeps db db'
Keeps-of_bookings db db' same i b e =
    let (b', found, evolves) = Keeps-refl db i b e in
    (b', ap (find_by (λ (x : Booking). x.id == i)) same ∙ found, evolves)

pub bookings-create_slot :
    (db : Db) (m : String) (s e : DateTime) (p now i : ℕ)
    → (create_slot db m s e p now i).1.bookings ≡ db.bookings
unfolding create_slot
bookings-create_slot db m s e p now i = ground arith

pub bookings-settle :
    (db : Db) (now : ℕ) (ids : List ℕ) (failure : Option (ℕ × String))
    → (settle db now ids failure).bookings ≡ db.bookings
unfolding settle
bookings-settle db now ids none = refl
bookings-settle db now ids (some f) = refl

module _ (relay : Publisher) where
  open relay use {Broker, publish}

  -- One transaction, or one run of the relay.
  pub data Step (db : Db) (broker : Broker) (db' : Db) (broker' : Broker) : Type 0 where
    creates :
        (master_id : String) (starts_at ends_at : DateTime) (price_minor now slot_id : ℕ)
        → db' ≡ (create_slot db master_id starts_at ends_at price_minor now slot_id).1
        → broker' ≡ broker
        → Step db broker db' broker'
    books :
        (seen : Db) (slot_id : ℕ) (client_id : String) (now ttl booking_id : ℕ)
        (message_ids : ℕ → ℕ)
        → db' ≡ (book_slot seen db slot_id client_id now ttl booking_id message_ids).1
        → broker' ≡ broker
        → Step db broker db' broker'
    changes :
        (seen : Db) (booking_id : ℕ) (target : BookingStatus) (now message_id : ℕ)
        → db' ≡ (change_status seen db booking_id target now message_id).1
        → broker' ≡ broker
        → Step db broker db' broker'
    cancels :
        (seen : Db) (booking_id : ℕ) (identity : Identity) (now message_id : ℕ)
        → db' ≡ (cancel_booking seen db booking_id identity now message_id).1
        → broker' ≡ broker
        → Step db broker db' broker'
    relays :
        (locked : ℕ → Bool) (limit now : ℕ)
        → db' ≡ (publish_pending publish locked limit now db broker).1
        → broker' ≡ (publish_pending publish locked limit now db broker).2
        → Step db broker db' broker'

  pub data Reach (start : Broker) : Db → Broker → Type 0 where
    here : Reach start empty start
    next :
        {db db' : Db} {broker broker' : Broker}
        → Reach start db broker
        → Step db broker db' broker'
        → Reach start db' broker'

  Step-IsValid :
      (db db' : Db) (broker broker' : Broker)
      → Step db broker db' broker'
      → IsValid db
      → IsValid db'
  Step-IsValid db db' broker broker' (creates m s e p now i eq same) v =
      rw eq (create_slot-IsValid db m s e p now i v)
  Step-IsValid db db' broker broker' (books seen s c now ttl i ms eq same) v =
      rw eq (book_slot-IsValid seen db s c now ttl i ms v)
  Step-IsValid db db' broker broker' (changes seen i target now m eq same) v =
      rw eq (change_status-IsValid seen db i target now m v)
  Step-IsValid db db' broker broker' (cancels seen i identity now m eq same) v =
      rw eq (cancel_booking-IsValid seen db i identity now m v)
  Step-IsValid db db' broker broker' (relays locked limit now eq moved) v =
      rw eq (publish_pending-IsValid publish locked limit now db broker v)

  -- Every interleaving of calls and relay runs, from the empty database and any broker, leads to a
  -- database where the invariant holds.
  pub Reach-IsValid :
      (start : Broker) {broker : Broker} {db : Db} → Reach start db broker → IsValid db
  Reach-IsValid start here = empty-IsValid
  Reach-IsValid start (next {db = db} {db' = db'} {broker = b} {broker' = b'} r st) =
      Step-IsValid db db' b b' st (Reach-IsValid start r)

  publish_pending-Keeps :
      (locked : ℕ → Bool) (limit now : ℕ) (db : Db) (broker : Broker)
      → Keeps db (publish_pending publish locked limit now db broker).1
  publish_pending-Keeps locked limit now db broker =
      Keeps-of_bookings db (publish_pending publish locked limit now db broker).1
        (unfold publish_pending in bookings-settle db now _ _)

  -- Every step of the system keeps every booking, its slot, its client and its time of creation,
  -- and moves its status only along the table of allowed transitions.
  pub Step-Keeps :
      (db db' : Db) (broker broker' : Broker) → Step db broker db' broker' → Keeps db db'
  Step-Keeps db db' broker broker' (creates m s e p now i eq same) = rw eq (
      Keeps-of_bookings db (create_slot db m s e p now i).1 (bookings-create_slot db m s e p now i))
  Step-Keeps db db' broker broker' (books seen s c now ttl i ms eq same) =
      rw eq (book_slot-Keeps db s c now ttl i ms seen)
  Step-Keeps db db' broker broker' (changes seen i target now m eq same) =
      rw eq (change_status-Keeps seen db i target now m)
  Step-Keeps db db' broker broker' (cancels seen i identity now m eq same) =
      rw eq (cancel_booking-Keeps seen db i identity now m)
  Step-Keeps db db' broker broker' (relays locked limit now eq moved) =
      rw eq (publish_pending-Keeps locked limit now db broker)
