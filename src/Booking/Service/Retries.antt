-- ===== src/Booking/Service/Retries.antt =====
-- Calls of `change_status` that fail, that repeat, and that lose a race.
use slot.Prelude.{
  ℕ, ◌≤◌, ◌≡◌, refl, ◌∙◌, subst, ◌≢◌, inl, inr, true, false, List, [], ◌∷◌, Option, none, some,
  arith, any_of, find_by, count_if, Bool-cases, Result, ok, err, if◌then◌else◌,
  find_by-update_where, find_by-any_of, find_by_holds, any_of_mono, count_if_of-any_of,
}
use slot.Booking.Domain.{
  BookingStatus, status_eq, status_eq_refl, status_eq→eq, allowed_transitions, Failure, domain,
  invalid_transition,
}
use slot.Booking.Models.{
  Slot, Booking, OutboxMessage, Db, get_slot_row, get_booking_row, insert_messages,
}
use slot.Booking.Service.Commands.{
  with_status, is_unchanged, commit_status, after_update, announce, change_status, write_status,
}
use slot.Booking.Service.Paths.{change_status_paths}
use slot.Booking.Invariant.{IsValid, has_id}

-- A call that raises has committed nothing.
abbrev pub Atomic : Db → Result Failure Booking × Db → Type 0
Atomic db (ok b, db') = Unit
Atomic db (err e, db') = db' ≡ db

module _ (db : Db) (booking : Booking) (booking_id : ℕ) (target : BookingStatus)
    (now message_id : ℕ) where
  -- The row that `session.refresh` finds.
  refreshed :
      (row : Booking)
      → get_booking_row booking_id db ≡ some row
      → get_booking_row booking_id (after_update db booking booking_id target now)
        ≡ some
            (if is_unchanged booking_id booking.status row then with_status target now row else row)
  refreshed row found =
      find_by-update_where (has_id booking_id) (is_unchanged booking_id booking.status)
        (with_status target now) db.bookings row (λ y. refl) found

  row_of_current :
      any_of (is_unchanged booking_id booking.status) db.bookings ≡ true
      → (row : Booking) × (get_booking_row booking_id db ≡ some row)
  row_of_current current = find_by-any_of (has_id booking_id) db.bookings (
      any_of_mono (is_unchanged booking_id booking.status) (has_id booking_id) db.bookings
        (λ x h. ground arith) current)

  announce-Atomic :
      any_of (is_unchanged booking_id booking.status) db.bookings ≡ true
      → (slot : Option Slot) → Atomic db (announce slot db booking booking_id target now message_id)
  announce-Atomic current none = refl
  announce-Atomic current (some slot) = committed (insert_messages _ db.outbox)
    where
      committed :
          (inserted : Option (List OutboxMessage))
          → Atomic db
              (commit_status inserted db (after_update db booking booking_id target now) booking_id)
      committed none = refl
      committed (some outbox) =
          let (row, found) = row_of_current current in rw (refreshed row found) tt

-- Whatever `change_status` has read, where it raises the database is as it was.
pub change_status-Atomic :
    (seen db : Db) (booking_id : ℕ) (target : BookingStatus) (now message_id : ℕ)
    → Atomic db (change_status seen db booking_id target now message_id)
change_status-Atomic seen db booking_id target now message_id =
    change_status_paths (Atomic db) seen db booking_id target now message_id (λ e. refl)
      (λ b found same. tt)
      (λ b found allowed current.
        announce-Atomic db b booking_id target now message_id current (get_slot_row b.slot_id db))

-- The row of an id is the only one that a conditional update can meet.
other_status :
    (i : ℕ) (status : BookingStatus) (bs : List Booking) (row : Booking)
    → count_if (has_id i) bs ≤ 1
    → find_by (has_id i) bs ≡ some row
    → status_eq row.status status ≡ false
    → any_of (is_unchanged i status) bs ≡ false
other_status i status [] row once found other = refl
other_status i status (b ∷ bs) row once found other = elim (Bool-cases (has_id i b)) [
  | inl hit ↦ elim (Bool-cases (any_of (has_id i) bs)) [
    | inl twice ↦ absurd (ground (arith, count_if_of-any_of (has_id i) bs))
    | inr no_other ↦
        ground (arith, any_of_mono (is_unchanged i status) (has_id i) bs (λ x h. ground arith))
  ]
  | inr miss ↦ ground (arith, other_status i status bs row)
]

differs : (a b : BookingStatus) → a ≢ b → status_eq a b ≡ false
differs a b h = elim (Bool-cases (status_eq a b)) [
  | inl same ↦ absurd (h (status_eq→eq a b same))
  | inr other ↦ other
]

-- In a valid database, a call whose read is out of date, since another transaction has changed the
-- status after it, raises `InvalidTransitionError` and changes nothing; the status that it read is
-- not the one that it asks for.
pub change_status_lost :
    (seen db : Db) (booking_id : ℕ) (target : BookingStatus) (now message_id : ℕ)
    (read row : Booking)
    → IsValid db
    → get_booking_row booking_id seen ≡ some read
    → get_booking_row booking_id db ≡ some row
    → row.status ≢ read.status
    → read.status ≢ target
    → change_status seen db booking_id target now message_id ≡ (err (domain invalid_transition), db)
unfolding change_status write_status
change_status_lost seen db i target now m read row v was is changed different =
    let moved =
      other_status i read.status db.bookings row (v.one_booking i) is
        (differs row.status read.status changed) in
    elim (Bool-cases (any_of (status_eq target) (allowed_transitions read.status))) [
      | inl allowed ↦
          rw (was, differs read.status target different, allowed, change_status)
            (rw (moved, write_status))
      | inr refused ↦ rw (was, differs read.status target different, refused, change_status)
    ]

module _ (booking_id : ℕ) (target : BookingStatus) (now now' message_id message_id' : ℕ) where
  change_status_noop :
      (db : Db) (row : Booking)
      → get_booking_row booking_id db ≡ some row
      → row.status ≡ target
      → change_status db db booking_id target now' message_id' ≡ (ok row, db)
  unfolding change_status
  change_status_noop db row found same = rw (found, same, status_eq_refl target, change_status)

  abbrev Settled : Result Failure Booking × Db → Type 0
  Settled (err e, db) = Unit
  Settled (ok b, db) =
      (b.status ≡ target) × (change_status db db booking_id target now' message_id' ≡ (ok b, db))

  announce-Settled :
      (db : Db) (b : Booking)
      → get_booking_row booking_id db ≡ some b
      → (slot : Option Slot) → Settled (announce slot db b booking_id target now message_id)
  announce-Settled db b found none = tt
  announce-Settled db b found (some slot) = committed (insert_messages _ db.outbox)
    where
      row :
          get_booking_row booking_id (after_update db b booking_id target now)
          ≡ some (with_status target now b)
      row =
          refreshed db b booking_id target now message_id b found
          ∙ ground (
            arith,
            find_by_holds (has_id booking_id) db.bookings b found,
            status_eq_refl b.status,
          )

      committed :
          (inserted : Option (List OutboxMessage))
          → Settled (commit_status inserted db (after_update db b booking_id target now) booking_id)
      committed none = tt
      committed (some outbox) = rw row (
        refl,
        change_status_noop (record (after_update db b booking_id target now) { outbox = outbox })
            (with_status target now b) row refl,
      )

  change_status-Settled : (db : Db) → Settled (change_status db db booking_id target now message_id)
  change_status-Settled db =
      change_status_paths Settled db db booking_id target now message_id (λ e. tt)
        (λ b found same. (same, change_status_noop db b found same))
        (λ b found allowed current. announce-Settled db b found (get_slot_row b.slot_id db))

-- Repeating a call that has succeeded succeeds with the same booking and changes nothing more: a
-- retry writes no second event.
pub change_status_repeated :
    (db db' : Db) (booking_id : ℕ) (target : BookingStatus) (now now' message_id message_id' : ℕ)
    (b : Booking)
    → change_status db db booking_id target now message_id ≡ (ok b, db')
    → (b.status ≡ target) × (change_status db' db' booking_id target now' message_id' ≡ (ok b, db'))
change_status_repeated db db' i target now now' m m' b done =
    subst (Settled i target now now' m m') done (change_status-Settled i target now now' m m' db)
