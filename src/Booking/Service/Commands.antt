-- ===== src/Booking/Service/Commands.antt =====
-- services/booking/src/booking/service.py: the use cases that write.
-- A use case reads first and writes afterwards, in a transaction that ends with `commit`. Other
-- transactions may commit between the two, so a use case that writes takes two databases: `seen`,
-- which its first reads meet, and `db`, which its writes and its commit meet. The writes of one
-- transaction stand together: the row locks of its UPDATE and the unique index keep others out.
-- Every path returns the database that is committed at its end; after a rollback this is `db`.
-- The values of `uuid7` are arguments.
use slot.Prelude.{
  ℕ, suc, String, Bool, ◌&&◌, Option, none, some, List, [], ◌∷◌, ◌==◌, any_of, select, update_where,
  if◌then◌else◌, Result, ok, err,
}
use slot.Booking.Domain.{
  DateTime, instant, BookingStatus, pending, cancelled, expired, status_eq, Failure, domain,
  integrity_error, no_result_found, invalid_transition, slot_already_booked, slot_not_found,
  ensure_valid_slot, ensure_bookable, ensure_transition,
}
use slot.Booking.Events.{event_type, build_event}
use slot.Booking.Models.{
  Slot, Booking, OutboxMessage, Db, Constraint, active_slot_index, get_slot_row, get_booking_row,
  booking_violation, insert_messages,
}
use slot.Booking.Auth.{Identity}
use slot.Booking.Service.Queries.{or_raise, is_stale, get_booking, get_owned_booking}

unfoldable pub create_slot :
    Db → String → DateTime → DateTime → ℕ → ℕ → ℕ → Result Failure Slot × Db
create_slot db master_id starts_at ends_at price_minor now slot_id =
    let slot : Slot = record {
      id = slot_id;
      master_id = master_id;
      starts_at = instant starts_at;
      ends_at = instant ends_at;
      price_minor = price_minor;
    } in
    elim (ensure_valid_slot starts_at ends_at now) [
      | err e ↦ (err e, db)
      | ok _ ↦
          if any_of (λ (s : Slot). s.id == slot_id) db.slots
          then (err integrity_error, db)
          else (ok slot, record db { slots = slot ∷ db.slots })
    ]

-- `_enqueue_event`: what the session will insert at its commit, the message first.
unfoldable pub enqueue_event :
    List OutboxMessage → BookingStatus → ℕ → String → Slot → ℕ → ℕ → List OutboxMessage
unfolding build_event
enqueue_event new status booking_id client_id slot now message_id = elim (event_type status) [
  | none ↦ new
  | some topic ↦
      record {
        id = message_id;
        topic = topic;
        payload = build_event message_id topic booking_id slot.id client_id slot.starts_at now;
        published_at = none;
        attempts = 0;
        last_error = none;
      }
      ∷ new
]

-- The loop over `expired` in `book_slot`; `message_ids` are the values that `uuid7` returns.
unfoldable pub enqueue_expired : (ℕ → ℕ) → ℕ → Slot → ℕ → List Booking → List OutboxMessage
unfolding enqueue_event
enqueue_expired message_ids k slot now [] = []
enqueue_expired message_ids k slot now (b ∷ bs) =
    enqueue_event (enqueue_expired message_ids (suc k) slot now bs) expired b.id b.client_id slot
      now (message_ids k)

-- The rows that the UPDATE of `book_slot` meets, and what it writes.
abbrev pub is_stale_in : ℕ → ℕ → ℕ → Booking → Bool
is_stale_in slot_id now pending_ttl b = (b.slot_id == slot_id) && is_stale now pending_ttl b

abbrev pub with_status : BookingStatus → ℕ → Booking → Booking
with_status status now b = record b { status = status; updated_at = now }

abbrev pub expire_stale : ℕ → ℕ → ℕ → List Booking → List Booking
expire_stale slot_id now pending_ttl =
    update_where (is_stale_in slot_id now pending_ttl) (with_status expired now)

abbrev pub new_booking : ℕ → ℕ → String → ℕ → Booking
new_booking booking_id slot_id client_id now = record {
  id = booking_id;
  slot_id = slot_id;
  client_id = client_id;
  status = pending;
  created_at = now;
  updated_at = now;
}

-- What an `IntegrityError` at the commit of `book_slot` becomes.
abbrev pub insert_failure : Constraint → Failure
insert_failure active_slot_index = domain slot_already_booked
insert_failure _ = integrity_error

-- The flush and the commit of `book_slot`, from the violation of the booking's INSERT and the
-- outbox after those of the messages.
abbrev pub commit_booking :
    Option Constraint
    → Option (List OutboxMessage)
    → Db
    → Db
    → Booking
    → Result Failure Booking × Db
commit_booking (some c) outbox db updated booking = (err (insert_failure c), db)
commit_booking none none db updated booking = (err integrity_error, db)
commit_booking none (some outbox) db updated booking =
    (ok booking, record updated { bookings = booking ∷ updated.bookings; outbox = outbox })

-- What the UPDATE leaves, and the messages of the loop.
abbrev pub after_expiry : Db → ℕ → ℕ → ℕ → Db
after_expiry db slot_id now pending_ttl = record db {
  bookings = expire_stale slot_id now pending_ttl db.bookings;
}

abbrev pub expiry_messages : Slot → Db → ℕ → ℕ → ℕ → (ℕ → ℕ) → List OutboxMessage
expiry_messages slot db slot_id now pending_ttl message_ids =
    enqueue_expired message_ids 0 slot now
      (select (is_stale_in slot_id now pending_ttl) db.bookings)

unfoldable pub reserve : Slot → Db → ℕ → String → ℕ → ℕ → ℕ → (ℕ → ℕ) → Result Failure Booking × Db
reserve slot db slot_id client_id now pending_ttl booking_id message_ids =
    let updated = after_expiry db slot_id now pending_ttl in
    let booking = new_booking booking_id slot_id client_id now in
    commit_booking (booking_violation booking updated)
      (insert_messages (expiry_messages slot db slot_id now pending_ttl message_ids) db.outbox) db
      updated booking

unfoldable pub book_slot : Db → Db → ℕ → String → ℕ → ℕ → ℕ → (ℕ → ℕ) → Result Failure Booking × Db
unfolding ensure_bookable
book_slot seen db slot_id client_id now pending_ttl booking_id message_ids =
    elim (get_slot_row slot_id seen) [
      | none ↦ (err (domain slot_not_found), db)
      | some slot ↦ elim (ensure_bookable slot.starts_at now) [
        | err e ↦ (err e, db)
        | ok _ ↦ reserve slot db slot_id client_id now pending_ttl booking_id message_ids
      ]
    ]

-- The WHERE of the conditional update.
abbrev pub is_unchanged : ℕ → BookingStatus → Booking → Bool
is_unchanged booking_id current b = (b.id == booking_id) && status_eq b.status current

-- The rest of `change_status` after the conditional update, from the slot that it reads and the
-- outbox after the INSERT. `session.refresh` reads the row again after the commit.
abbrev pub commit_status : Option (List OutboxMessage) → Db → Db → ℕ → Result Failure Booking × Db
commit_status none db updated booking_id = (err integrity_error, db)
commit_status (some outbox) db updated booking_id =
    let committed = record updated { outbox = outbox } in
    (or_raise (get_booking_row booking_id committed) no_result_found, committed)

-- What the conditional update leaves.
abbrev pub after_update : Db → Booking → ℕ → BookingStatus → ℕ → Db
after_update db booking booking_id target now = record db {
  bookings =
      update_where (is_unchanged booking_id booking.status) (with_status target now) db.bookings;
}

abbrev pub announce :
    Option Slot → Db → Booking → ℕ → BookingStatus → ℕ → ℕ → Result Failure Booking × Db
announce none db booking booking_id target now message_id = (err no_result_found, db)
announce (some slot) db booking booking_id target now message_id =
    commit_status
      (insert_messages (enqueue_event [] target booking_id booking.client_id slot now message_id)
        db.outbox)
      db (after_update db booking booking_id target now) booking_id

unfoldable pub write_status : Db → Booking → ℕ → BookingStatus → ℕ → ℕ → Result Failure Booking × Db
write_status db booking booking_id target now message_id =
    if any_of (is_unchanged booking_id booking.status) db.bookings
    then announce (get_slot_row booking.slot_id db) db booking booking_id target now message_id
    else (err (domain invalid_transition), db)

unfoldable pub change_status : Db → Db → ℕ → BookingStatus → ℕ → ℕ → Result Failure Booking × Db
unfolding get_booking ensure_transition
change_status seen db booking_id target now message_id = elim (get_booking seen booking_id) [
  | err e ↦ (err e, db)
  | ok booking ↦
      if status_eq booking.status target
      then (ok booking, db)
      else elim (ensure_transition booking.status target) [
        | err e ↦ (err e, db)
        | ok _ ↦ write_status db booking booking_id target now message_id
      ]
]

-- The second read of the booking finds the row in the session, so `seen` serves both reads.
unfoldable pub cancel_booking : Db → Db → ℕ → Identity → ℕ → ℕ → Result Failure Booking × Db
unfolding get_owned_booking
cancel_booking seen db booking_id identity now message_id =
    elim (get_owned_booking seen booking_id identity) [
      | err e ↦ (err e, db)
      | ok found ↦ change_status seen db found.0.id cancelled now message_id
    ]
