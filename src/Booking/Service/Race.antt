-- ===== src/Booking/Service/Race.antt =====
-- Two clients and one slot: the index decides, whatever each of them has read.
use slot.Prelude.{
  ◌==◌, ==-refl, ◌&&◌, ◌||◌, sym, [], find_by, inr, ℕ, ◌+◌, ◌<◌, String, ◌≡◌, refl, subst, inl,
  true, List, ◌∷◌, Option, none, some, arith, any_of, Bool-cases, Result, ok, err,
}
use slot.Booking.Domain.{Failure, BookingStatus, pending, confirmed, cancelled, expired, is_active}
use slot.Booking.Service.Transitions.{Keeps}
use slot.Booking.Models.{
  Slot, Booking, OutboxMessage, Db, Constraint, get_booking_row, primary_key, active_slot_index,
}
use slot.Booking.Service.Queries.{is_taken, holds_slot}
use slot.Booking.Service.Commands.{new_booking, commit_booking, reserve, book_slot, insert_failure}
use slot.Booking.Service.Paths.{book_slot_paths}
use slot.Booking.Invariant.{has_id}
use slot.Booking.Service.Availability.{violation-after_expiry}

-- What a call of `book_slot` from `db` has done, by how it ended.
abbrev pub Books : Db → ℕ → String → ℕ → ℕ → Result Failure Booking × Db → Type 0
Books db slot_id client_id now booking_id (err e, db') = db' ≡ db
Books db slot_id client_id now booking_id (ok b, db') =
    (b ≡ new_booking booking_id slot_id client_id now)
    × (bookings : List Booking) × (db'.bookings ≡ b ∷ bookings)

module _ (seen db : Db) (slot_id : ℕ) (client_id : String) (now ttl booking_id : ℕ)
    (message_ids : ℕ → ℕ) where
  commit_booking-Books :
      (violation : Option Constraint) (inserted : Option (List OutboxMessage)) (updated : Db)
      → Books db slot_id client_id now booking_id (
          commit_booking violation inserted db updated
            (new_booking booking_id slot_id client_id now))
  commit_booking-Books (some c) inserted updated = refl
  commit_booking-Books none none updated = refl
  commit_booking-Books none (some outbox) updated = (refl, updated.bookings, refl)

  -- `book_slot` raises and changes nothing, or adds the pending booking that it returns.
  pub book_slot-Books :
      Books db slot_id client_id now booking_id
        (book_slot seen db slot_id client_id now ttl booking_id message_ids)
  book_slot-Books =
      book_slot_paths (Books db slot_id client_id now booking_id) seen db slot_id client_id now ttl
        booking_id message_ids (λ e. refl)
        (λ slot found future. unfold reserve in commit_booking-Books _ _ _)

  reserve_refused :
      (slot : Slot)
      → is_taken db now ttl slot_id ≡ true
      → (e : Failure) × (reserve slot db slot_id client_id now ttl booking_id message_ids
          ≡ (err e, db))
  unfolding reserve
  reserve_refused slot taken = elim (Bool-cases (any_of (has_id booking_id) db.bookings)) [
    | inl used ↦ (
      insert_failure primary_key,
      rw (violation-after_expiry slot_id now ttl db client_id booking_id) (rw used refl),
    )
    | inr fresh ↦ (
      insert_failure active_slot_index,
      rw (violation-after_expiry slot_id now ttl db client_id booking_id) (rw (fresh, taken) refl),
    )
  ]

  -- A slot that some booking holds is refused to everybody, and the database stays as it is.
  pub taken_refused :
      is_taken db now ttl slot_id ≡ true
      → (e : Failure) × (book_slot seen db slot_id client_id now ttl booking_id message_ids
          ≡ (err e, db))
  taken_refused taken =
      book_slot_paths (λ r. (e : Failure) × (r ≡ (err e, db))) seen db slot_id client_id now ttl
        booking_id message_ids (λ e. (e, refl)) (λ slot found future. reserve_refused slot taken)

-- A slot is taken while an active booking of it is there whose pending time is not over.
active_takes :
    (db : Db) (x : Booking) (booking_id slot_id now' ttl : ℕ)
    → get_booking_row booking_id db ≡ some x
    → x.slot_id ≡ slot_id
    → is_active x.status ≡ true
    → now' < x.created_at + ttl
    → is_taken db now' ttl slot_id ≡ true
active_takes db x i slot_id now' ttl row same active soon = any_of_row db.bookings row
  where
    holds :
        (s : BookingStatus)
        → is_active s ≡ true
        → holds_slot now' ttl (record x { status = s }) ≡ true
    holds pending h = ground (arith, soon)
    holds confirmed h = refl
    holds cancelled h = absurd (cc h)
    holds expired h = absurd (cc h)

    any_of_row :
        (xs : List Booking)
        → find_by (λ b. b.id == i) xs ≡ some x
        → any_of (λ (b : Booking). (b.slot_id == slot_id) && holds_slot now' ttl b) xs ≡ true
    any_of_row [] found = absurd (cc found)
    any_of_row (y ∷ ys) found = elim (Bool-cases (y.id == i)) [
      | inr other ↦ ground (arith, any_of_row ys (rw other at found))
      | inl hit ↦
          let eq : x ≡ y = cc (rw hit at found) in
          subst
            (λ z.
              (((z.slot_id == slot_id) && holds_slot now' ttl z)
                || any_of (λ (b : Booking). (b.slot_id == slot_id) && holds_slot now' ttl b) ys)
              ≡ true)
            eq (ground (arith, same, holds x.status active))
    ]

-- Once one client has booked a slot, every request for it fails and changes nothing, in any later
-- database that keeps the bookings, until the pending time of that booking is over, as long as that
-- booking is neither cancelled nor expired, and whatever database either request has read before.
pub second_booking_refused :
    (seen seen' db db' later : Db) (b x : Booking) (slot_id : ℕ) (client_id client_id' : String)
    (now now' ttl booking_id booking_id' : ℕ) (message_ids message_ids' : ℕ → ℕ)
    → book_slot seen db slot_id client_id now ttl booking_id message_ids ≡ (ok b, db')
    → Keeps db' later
    → get_booking_row booking_id later ≡ some x
    → is_active x.status ≡ true
    → now' < now + ttl
    → (e : Failure) × (book_slot seen' later slot_id client_id' now' ttl booking_id' message_ids'
        ≡ (err e, later))
second_booking_refused seen seen' db db' later b x slot_id c c' now now' ttl i i' ms ms' booked
      keeps row active soon =
    let (made, rows, added) =
      subst (Books db slot_id c now i) booked (book_slot-Books seen db slot_id c now ttl i ms) in
    let first : get_booking_row i db' ≡ some (new_booking i slot_id c now) =
      rw (added, made) (rw (==-refl i) refl) in
    let (x', row', evolves) = keeps i (new_booking i slot_id c now) first in
    let same : x' ≡ x = cc (row, row') in
    taken_refused seen' later slot_id c' now' ttl i' ms' (
      active_takes later x i slot_id now' ttl row
        (subst (λ y. y.slot_id ≡ slot_id) same evolves.slot_id) active
        (subst (λ t. now' < t + ttl) (sym (subst (λ y. y.created_at ≡ now) same evolves.created_at))
          soon))
