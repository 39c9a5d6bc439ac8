-- ===== src/Booking/Calendar/Refinement.antt =====
-- The steps of the booking service as moves of its calendar.
use slot.Prelude.{
  ℕ, ◌≤◌, String, ◌≡◌, refl, sym, ap, subst, inl, inr, true, false, Option, none, some, List, [],
  ◌∷◌, arith, ==→eq, any_of, Bool-cases,
}
use slot.Booking.Domain.{
  BookingStatus, cancelled, expired, status_eq, is_active, allowed_transitions,
}
use slot.Booking.Models.{
  Slot, Booking, OutboxMessage, Db, Constraint, holds_index, booking_violation, insert_messages,
}
use slot.Booking.Service.Commands.{
  with_status, is_stale_in, new_booking, commit_booking, after_expiry, reserve, book_slot,
  commit_status, after_update, announce, enqueue_event, change_status, cancel_booking,
}
use slot.Booking.Service.Paths.{book_slot_paths, change_status_paths, cancel_booking_paths}
use slot.Booking.Invariant.{IsValid}
use slot.Booking.Auth.{Identity}
use slot.Booking.Outbox.{publish_pending}
use slot.Booking.Outbox.Publisher.{Publisher}
use slot.Booking.System.{
  Step, creates, books, changes, cancels, relays, bookings-create_slot, bookings-settle,
}
use slot.Booking.Calendar.{
  is_held_by, id_of, holder, Action, nothing, booking, setting, Move, stays, takes, Wait,
}
use slot.Booking.Calendar.Rows.{find_by-none}
use slot.Booking.Calendar.Moves.{
  owned_id, held-active, find_by-update_where-other, waits, update-Move,
}

-- A call at `now`, and a slot that it is looked at for.
module _ (now ttl s : ℕ) where
  abbrev Refines : Action → Db → Db → Type 0
  Refines a db db' = Move s a (holder now ttl db s) (holder now ttl db' s)

  commit_status-Refines :
      (o : Option (List OutboxMessage)) (db : Db) (b : Booking) (i n : ℕ) (target : BookingStatus)
      → IsValid db
      → any_of (status_eq target) (allowed_transitions b.status) ≡ true
      → Refines (setting i target) db (commit_status o db (after_update db b i target n) i).1
  commit_status-Refines none db b i n target v active = stays
  commit_status-Refines (some outbox) db b i n target v active =
      update-Move now ttl s db b i n target outbox v active

  announce-Refines :
      (slot : Option Slot) (db : Db) (b : Booking) (i n m : ℕ) (target : BookingStatus)
      → IsValid db
      → any_of (status_eq target) (allowed_transitions b.status) ≡ true
      → Refines (setting i target) db (announce slot db b i target n m).1
  announce-Refines none db b i n m target v active = stays
  announce-Refines (some slot) db b i n m target v active =
      commit_status-Refines
        (insert_messages (enqueue_event [] target i b.client_id slot n m) db.outbox) db b i n target
        v active

  change_status-Refines :
      (seen db : Db) (i : ℕ) (target : BookingStatus) (n m : ℕ)
      → IsValid db
      → Refines (setting i target) db (change_status seen db i target n m).1
  change_status-Refines seen db i target n m v =
      change_status_paths (λ r. Refines (setting i target) db r.1) seen db i target n m (λ e. stays)
        (λ b found same. stays)
        (λ b found allowed current. announce-Refines _ db b i n m target v allowed)

  cancel_booking-Refines :
      (seen db : Db) (i : ℕ) (identity : Identity) (n m : ℕ)
      → IsValid db
      → Refines (setting i cancelled) db (cancel_booking seen db i identity n m).1
  cancel_booking-Refines seen db i identity n m v =
      cancel_booking_paths (λ r. Refines (setting i cancelled) db r.1) seen db i identity n m
        (λ e. stays)
        (λ b slot owned.
          subst (λ k. Refines (setting k cancelled) db (change_status seen db b.id cancelled n m).1)
            (owned_id seen i identity b slot owned)
            (change_status-Refines seen db b.id cancelled n m v))

  holder-after_expiry :
      (db : Db) (slot_id : ℕ)
      → holder now ttl (after_expiry db slot_id now ttl) s ≡ holder now ttl db s
  unfolding holder
  holder-after_expiry db slot_id = ap id_of (
      find_by-update_where-other (is_held_by now ttl s) (is_stale_in slot_id now ttl)
        (with_status expired now) db.bookings (λ x is. (ground arith, ground arith)))

  insert-Move :
      (db : Db) (b : Booking) (outbox : List OutboxMessage)
      → booking_violation b db ≡ none
      → is_active b.status ≡ true
      → Move s
          (booking b.slot_id b.id)
          (holder now ttl db s)
          (holder now ttl (record db { bookings = b ∷ db.bookings; outbox = outbox }) s)
  unfolding holder booking_violation
  insert-Move db b outbox fits active = elim (Bool-cases (is_held_by now ttl s b)) [
    | inr other ↦ rw other stays
    | inl held ↦
        let there : b.slot_id ≡ s = ==→eq b.slot_id s (ground arith) in
        let free : any_of (holds_index b.slot_id) db.bookings ≡ false = ground arith in
        rw held (
          rw
            (find_by-none (is_held_by now ttl s) (holds_index s) db.bookings (held-active now ttl s)
              (subst (λ k. any_of (holds_index k) db.bookings ≡ false) there free))
            (subst (λ k. Move s (booking k b.id) none (some b.id)) (sym there) takes))
  ]

  commit_booking-Refines :
      (c : Option Constraint) (o : Option (List OutboxMessage)) (db updated : Db) (b : Booking)
      → IsValid db
      → holder now ttl updated s ≡ holder now ttl db s
      → booking_violation b updated ≡ c
      → is_active b.status ≡ true
      → Refines (booking b.slot_id b.id) db (commit_booking c o db updated b).1
  commit_booking-Refines (some c) o db updated b v m fits active = stays
  commit_booking-Refines none none db updated b v m fits active = stays
  commit_booking-Refines none (some outbox) db updated b v m fits active =
      subst
        (λ o.
          Move s (booking b.slot_id b.id) o (
            holder now ttl (record updated { bookings = b ∷ updated.bookings; outbox = outbox }) s))
        m (insert-Move updated b outbox fits active)

  book_slot-Refines :
      (seen db : Db) (slot_id : ℕ) (client_id : String) (i : ℕ) (ids : ℕ → ℕ)
      → IsValid db
      → Refines (booking slot_id i) db (book_slot seen db slot_id client_id now ttl i ids).1
  book_slot-Refines seen db slot_id client_id i ids v =
      book_slot_paths (λ r. Refines (booking slot_id i) db r.1) seen db slot_id client_id now ttl i
        ids (λ e. stays)
        (λ slot found future.
          unfold reserve in
          commit_booking-Refines _ _ db (after_expiry db slot_id now ttl)
            (new_booking i slot_id client_id now) v (holder-after_expiry db slot_id) refl refl)

  rows-Refines : (db db' : Db) → db'.bookings ≡ db.bookings → Refines nothing db db'
  unfolding holder
  rows-Refines db db' same = rw same stays

-- The time and the lifetime of a pending booking that a booking is made with.
module _ (relay : Publisher) where
  open relay use {Broker, publish}

  abbrev pub IsAt :
      {db db' : Db} {broker broker' : Broker} → ℕ → ℕ → Step relay db broker db' broker' → Type 0
  IsAt now ttl (books seen slot_id client_id n life i ids eq same) = (n ≡ now) × (life ≡ ttl)
  IsAt now ttl _ = Unit

  -- What a step means to the calendar.
  abbrev pub action :
      {db db' : Db} {broker broker' : Broker} → Step relay db broker db' broker' → Action
  action (books seen slot_id client_id n life i ids eq same) = booking slot_id i
  action (changes seen i target n m eq same) = setting i target
  action (cancels seen i identity n m eq same) = setting i cancelled
  action (creates m x y p n i eq same) = nothing
  action (relays locked limit n eq moved) = nothing

  moves :
      (now ttl s : ℕ) (db db' : Db) (broker broker' : Broker)
      (st : Step relay db broker db' broker')
      → IsValid db
      → IsAt now ttl st
      → Move s (action st) (holder now ttl db s) (holder now ttl db' s)
  moves now ttl s db db' b b' (creates m x y p n i eq same) v at =
      rw eq (rows-Refines now ttl s db _ (bookings-create_slot db m x y p n i))
  moves now ttl s db db' b b' (books seen slot c n life i ids eq same) v at =
      rw eq (rw (at.0, at.1) (book_slot-Refines now ttl s seen db slot c i ids v))
  moves now ttl s db db' b b' (changes seen i target n m eq same) v at =
      rw eq (change_status-Refines now ttl s seen db i target n m v)
  moves now ttl s db db' b b' (cancels seen i identity n m eq same) v at =
      rw eq (cancel_booking-Refines now ttl s seen db i identity n m v)
  moves now ttl s db db' b b' (relays locked limit n eq moved) v at =
      rw eq (rows-Refines now ttl s db _ (unfold publish_pending in bookings-settle db n _ _))

  -- Whatever step the booking service makes at `now` from a valid database, and however long after
  -- the calendar was last looked at: until then each slot has stood, or has lapsed if time has
  -- passed; and the step takes a free slot only for the booking that it makes for that slot, frees a
  -- held one only if the booking that it cancels or expires is the holder, gives a free one back only
  -- to the lapsed booking that it confirms, and leaves every other slot as it is.
  pub Step-Refines :
      (t now ttl s : ℕ) (db db' : Db) (broker broker' : Broker)
      (st : Step relay db broker db' broker')
      → t ≤ now
      → IsValid db
      → IsAt now ttl st
      → Wait t now (holder t ttl db s) (holder now ttl db s)
        × Move s (action st) (holder now ttl db s) (holder now ttl db' s)
  Step-Refines t now ttl s db db' b b' st later v at =
      (waits now ttl s t db later v, moves now ttl s db db' b b' st v at)
