-- ===== src/Booking/Service/Transitions.antt =====
-- How the status of a booking moves, and what a call of `change_status` leaves behind.
use slot.Prelude.{
  ℕ, String, ◌≡◌, refl, sym, ap, ◌∙◌, subst, ◌⊎◌, inl, inr, Bool, true, false, List, ◌∷◌, Option,
  none, some, arith, ◌==◌, ==→eq, any_of, find_by, update_where, Bool-cases, if◌then◌else◌,
  find_by-update_where, any_of-find_by,
}
use slot.Booking.Domain.{BookingStatus, expired, status_eq, status_eq→eq, allowed_transitions}
use slot.Booking.Models.{
  Slot, Booking, OutboxMessage, Db, Constraint, get_slot_row, get_booking_row, booking_violation,
}
use slot.Booking.Auth.{Identity}
use slot.Booking.Service.Commands.{
  with_status, is_unchanged, is_stale_in, commit_booking, after_expiry, commit_status, after_update,
  announce, reserve, book_slot, change_status, cancel_booking,
}
use slot.Booking.Service.Paths.{book_slot_paths, change_status_paths, cancel_booking_paths}
use slot.Booking.Invariant.{has_id}

-- The later row of a booking: the same booking, in the same status or one that the table of
-- transitions allows after it.
pub record Evolves (b b' : Booking) : Type 0 where
  pub id : b'.id ≡ b.id
  pub slot_id : b'.slot_id ≡ b.slot_id
  pub client_id : b'.client_id ≡ b.client_id
  pub created_at : b'.created_at ≡ b.created_at
  pub status :
      (b'.status ≡ b.status) ⊎ (any_of (status_eq b'.status) (allowed_transitions b.status) ≡ true)

-- Every booking of `db` is still there in `db'`, and has moved along an allowed transition or not.
abbrev pub Keeps : Db → Db → Type 0
Keeps db db' =
    (i : ℕ) (b : Booking)
    → get_booking_row i db ≡ some b
    → (b' : Booking) × (get_booking_row i db' ≡ some b') × Evolves b b'

Evolves-refl : (b : Booking) → Evolves b b
Evolves-refl b = record {
  id = refl;
  slot_id = refl;
  client_id = refl;
  created_at = refl;
  status = inl refl;
}

pub Keeps-refl : (db : Db) → Keeps db db
Keeps-refl db i b e = (b, e, Evolves-refl b)

-- An update of the bookings to a status that is allowed after that of every row it meets.
updated_row :
    (p : Booking → Bool) (target : BookingStatus) (now : ℕ) (b : Booking)
    → (p b ≡ true → any_of (status_eq target) (allowed_transitions b.status) ≡ true)
    → Evolves b (if p b then with_status target now b else b)
updated_row p target now b allowed = elim (Bool-cases (p b)) [
  | inl hit ↦ rw hit (record {
    id = refl;
    slot_id = refl;
    client_id = refl;
    created_at = refl;
    status = inr (allowed hit);
  })
  | inr miss ↦ rw miss (Evolves-refl b)
]

Keeps-update_where :
    (p : Booking → Bool) (target : BookingStatus) (now : ℕ) (db db' : Db)
    → ((b : Booking) → p b ≡ true → any_of (status_eq target) (allowed_transitions b.status) ≡ true)
    → db'.bookings ≡ update_where p (with_status target now) db.bookings
    → Keeps db db'
Keeps-update_where p target now db db' allowed rows i b e = (
  (if p b then with_status target now b else b),
  ap (find_by (has_id i)) rows
      ∙ find_by-update_where (has_id i) p (with_status target now) db.bookings b (λ y. refl) e,
  updated_row p target now b (allowed b),
)

-- A row with a new id in front hides no other.
Keeps-insert :
    (db updated : Db) (b : Booking) (outbox : List OutboxMessage)
    → booking_violation b updated ≡ none
    → Keeps db updated
    → Keeps db (record updated { bookings = b ∷ updated.bookings; outbox = outbox })
unfolding booking_violation
Keeps-insert db updated b outbox fits keeps i x e =
    let (x', found, evolves) = keeps i x e in
    let fresh : any_of (has_id b.id) updated.bookings ≡ false = ground arith in
    let present : any_of (has_id i) updated.bookings ≡ true =
      any_of-find_by (has_id i) updated.bookings x' found in
    elim (Bool-cases (b.id == i)) [
      | inl same ↦ absurd (let e : b.id ≡ i = ==→eq b.id i same in ground (arith, e))
      | inr other ↦ (x', rw other found, evolves)
    ]

module _ (db : Db) (slot_id : ℕ) (client_id : String) (now ttl booking_id : ℕ)
    (message_ids : ℕ → ℕ) where
  Keeps-after_expiry : Keeps db (after_expiry db slot_id now ttl)
  Keeps-after_expiry =
      Keeps-update_where (is_stale_in slot_id now ttl) expired now db
        (after_expiry db slot_id now ttl) (λ b hit. ground arith) refl

  Keeps-commit_booking :
      (violation : Option Constraint) (inserted : Option (List OutboxMessage)) (b : Booking)
      → booking_violation b (after_expiry db slot_id now ttl) ≡ violation
      → Keeps db (commit_booking violation inserted db (after_expiry db slot_id now ttl) b).1
  Keeps-commit_booking (some c) inserted b refused = Keeps-refl db
  Keeps-commit_booking none none b fits = Keeps-refl db
  Keeps-commit_booking none (some outbox) b fits =
      Keeps-insert db (after_expiry db slot_id now ttl) b outbox fits Keeps-after_expiry

  -- `book_slot` moves bookings only from pending to expired.
  pub book_slot-Keeps :
      (seen : Db) → Keeps db (book_slot seen db slot_id client_id now ttl booking_id message_ids).1
  book_slot-Keeps seen =
      book_slot_paths (λ r. Keeps db r.1) seen db slot_id client_id now ttl booking_id message_ids
        (λ e. Keeps-refl db)
        (λ slot found future. unfold reserve in Keeps-commit_booking _ _ _ refl)

module _ (db : Db) (booking : Booking) (booking_id : ℕ) (target : BookingStatus)
    (now message_id : ℕ) where
  Keeps-commit_status :
      (inserted : Option (List OutboxMessage))
      → any_of (status_eq target) (allowed_transitions booking.status) ≡ true
      → Keeps db
          (commit_status inserted db (after_update db booking booking_id target now) booking_id).1
  Keeps-commit_status none allowed = Keeps-refl db
  Keeps-commit_status (some outbox) allowed =
      Keeps-update_where (is_unchanged booking_id booking.status) target now db
        (record (after_update db booking booking_id target now) { outbox = outbox })
        (λ b hit.
          subst (λ s. any_of (status_eq target) (allowed_transitions s) ≡ true)
            (sym (status_eq→eq b.status booking.status (ground arith))) allowed)
        refl

  Keeps-announce :
      (slot : Option Slot)
      → any_of (status_eq target) (allowed_transitions booking.status) ≡ true
      → Keeps db (announce slot db booking booking_id target now message_id).1
  Keeps-announce none allowed = Keeps-refl db
  Keeps-announce (some slot) allowed = Keeps-commit_status _ allowed

pub change_status-Keeps :
    (seen db : Db) (booking_id : ℕ) (target : BookingStatus) (now message_id : ℕ)
    → Keeps db (change_status seen db booking_id target now message_id).1
change_status-Keeps seen db booking_id target now message_id =
    change_status_paths (λ r. Keeps db r.1) seen db booking_id target now message_id
      (λ e. Keeps-refl db) (λ b found same. Keeps-refl db)
      (λ b found allowed current.
        Keeps-announce db b booking_id target now message_id (get_slot_row b.slot_id db) allowed)

pub cancel_booking-Keeps :
    (seen db : Db) (booking_id : ℕ) (identity : Identity) (now message_id : ℕ)
    → Keeps db (cancel_booking seen db booking_id identity now message_id).1
cancel_booking-Keeps seen db booking_id identity now message_id =
    cancel_booking_paths (λ r. Keeps db r.1) seen db booking_id identity now message_id
      (λ e. Keeps-refl db) (λ b slot owned. change_status-Keeps seen db b.id _ now message_id)
