-- ===== src/Booking/Calendar/Moves.antt =====
-- What time does to the calendar, and what an update of one booking's status does to it.
use slot.Prelude.{
  ◌<◌, ◌==◌, ltb, find_by_holds, Option-cases, Result-cases, ok, ℕ, ◌≤◌, ◌≡◌, refl, sym, subst, inl,
  inr, Bool, true, false, Option, none, some, List, [], ◌∷◌, arith, ==→eq, any_of, find_by,
  update_where, Bool-cases,
}
use slot.Booking.Domain.{
  BookingStatus, pending, confirmed, cancelled, expired, status_eq, status_eq→eq, is_active,
  allowed_transitions,
}
use slot.Booking.Models.{
  Slot, Booking, OutboxMessage, Db, get_booking_row, get_slot_row, holds_index,
}
use slot.Booking.Service.Commands.{with_status, is_unchanged, after_update}
use slot.Booking.Invariant.{IsValid, has_id}
use slot.Booking.Service.Queries.{holds_slot, get_owned_booking}
use slot.Booking.Auth.{Identity, ensure_owner}
use slot.Booking.Calendar.{
  is_held_by, id_of, holder, setting, Move, stays, revives, leaves_cancelled, leaves_expired, Wait,
  stands, lapses,
}
use slot.Booking.Calendar.Rows.{holds-active, find_by-none, find_by-stronger, id_if, rows-related}

pub owned_id :
    (seen : Db) (i : ℕ) (identity : Identity) (b : Booking) (slot : Slot)
    → get_owned_booking seen i identity ≡ ok (b, slot)
    → b.id ≡ i
unfolding get_owned_booking
owned_id seen i identity b slot owned = elim (Option-cases (get_booking_row i seen)) [
  | inl missing ↦ absurd (cc (rw missing at owned))
  | inr (c, found) ↦ elim (Option-cases (get_slot_row c.slot_id seen)) [
    | inl no_slot ↦ absurd (cc (rw (found, no_slot) at owned))
    | inr (s, there) ↦ elim (Result-cases (ensure_owner identity c.client_id s.master_id)) [
      | inr (e, stranger) ↦ absurd (cc (rw (found, there, stranger) at owned))
      | inl (u, owns) ↦
          let same : c ≡ b = cc (rw (found, there, owns) at owned) in
          let named = ==→eq c.id i (find_by_holds (has_id i) seen.bookings c found) in
          subst (λ x. x.id ≡ i) same named
    ]
  ]
]

pub held-active :
    (now ttl s : ℕ) (x : Booking) → is_held_by now ttl s x ≡ true → holds_index s x ≡ true
held-active now ttl s x h = ground (arith, holds-active now ttl x)

allowed-active :
    (target current : BookingStatus)
    → any_of (status_eq target) (allowed_transitions current) ≡ true
    → is_active current ≡ true
allowed-active target pending h = refl
allowed-active target confirmed h = refl
allowed-active target cancelled h = absurd (cc (h))
allowed-active target expired h = absurd (cc (h))

active_as : (a b : BookingStatus) → status_eq a b ≡ true → is_active b ≡ true → is_active a ≡ true
active_as a b same h = subst (λ s. is_active s ≡ true) (sym (status_eq→eq a b same)) h

-- An update of rows that the test does not hold for, before or after, changes nothing for it.
pub find_by-update_where-other :
    (p hit : Booking → Bool) (f : Booking → Booking) (xs : List Booking)
    → ((x : Booking) → hit x ≡ true → (p x ≡ false) × (p (f x) ≡ false))
    → find_by p (update_where hit f xs) ≡ find_by p xs
find_by-update_where-other p hit f [] h = refl
find_by-update_where-other p hit f (x ∷ xs) h = elim (Bool-cases (hit x)) [
  | inl is ↦ rw is (rw ((h x is).0, (h x is).1) (find_by-update_where-other p hit f xs h))
  | inr other ↦ rw other (rw (find_by-update_where-other p hit f xs h) refl)
]

-- A call at `now`, and a slot that it is looked at for.
module _ (now ttl s : ℕ) where
  -- The calendar between `t` and `now`.
  pub waits :
      (t : ℕ) (db : Db)
      → t ≤ now
      → IsValid db
      → Wait t now (holder t ttl db s) (holder now ttl db s)
  unfolding holder
  waits t db later v = elim (Bool-cases (any_of (is_held_by now ttl s) db.bookings)) [
    | inl held ↦
        rw
          (find_by-stronger (is_held_by t ttl s) (is_held_by now ttl s) (holds_index s)
            (λ x h. ground arith) (held-active t ttl s) db.bookings (v.one_active s) held)
          stands
    | inr free ↦ elim (Bool-cases (ltb t now)) [
      | inr at_once ↦
          let same : t ≡ now = ground (arith, later, at_once) in
          subst
            (λ k.
              Wait t now (id_of (find_by (is_held_by t ttl s) db.bookings))
                (id_of (find_by (is_held_by k ttl s) db.bookings)))
            same stands
      | inl passed ↦
          rw
            (find_by-none (is_held_by now ttl s) (is_held_by now ttl s) db.bookings (λ x h. h) free)
            (lapsed (find_by (is_held_by t ttl s) db.bookings) (ground arith))
    ]
  ]
    where
      lapsed : (o : Option Booking) → t < now → Wait t now (id_of o) none
      lapsed none passed = stands
      lapsed (some b) passed = lapses passed

  status-Move :
      (x : Booking) (n : ℕ) (current target : BookingStatus)
      → any_of (status_eq target) (allowed_transitions current) ≡ true
      → Move s
          (setting x.id target)
          (id_if (is_held_by now ttl s x) x)
          (id_if (is_held_by now ttl s (with_status target n x)) (with_status target n x))
  status-Move x n current pending allowed = absurd (never current allowed)
    where
      never : (c : BookingStatus) → any_of (status_eq pending) (allowed_transitions c) ≡ true → ⊥
      never pending h = cc h
      never confirmed h = cc h
      never cancelled h = cc h
      never expired h = cc h
  status-Move x n current confirmed allowed = elim (Bool-cases (x.slot_id == s)) [
    | inr elsewhere ↦ rw elsewhere stays
    | inl here ↦ elim (Bool-cases (holds_slot now ttl x)) [
      | inl held ↦ rw (here, held) stays
      | inr lapsed ↦ rw (here, lapsed) revives
    ]
  ]
  status-Move x n current cancelled allowed = elim (Bool-cases (x.slot_id == s)) [
    | inr elsewhere ↦ rw elsewhere stays
    | inl here ↦ elim (Bool-cases (holds_slot now ttl x)) [
      | inl held ↦ rw (here, held) leaves_cancelled
      | inr lapsed ↦ rw (here, lapsed) stays
    ]
  ]
  status-Move x n current expired allowed = elim (Bool-cases (x.slot_id == s)) [
    | inr elsewhere ↦ rw elsewhere stays
    | inl here ↦ elim (Bool-cases (holds_slot now ttl x)) [
      | inl held ↦ rw (here, held) leaves_expired
      | inr lapsed ↦ rw (here, lapsed) stays
    ]
  ]

  pub update-Move :
      (db : Db) (b : Booking) (i n : ℕ) (target : BookingStatus) (outbox : List OutboxMessage)
      → IsValid db
      → any_of (status_eq target) (allowed_transitions b.status) ≡ true
      → Move s
          (setting i target)
          (holder now ttl db s)
          (holder now ttl (record (after_update db b i target n) { outbox = outbox }) s)
  unfolding holder
  update-Move db b i n target outbox v allowed =
      let active = allowed-active target b.status allowed in
      rows-related (Move s (setting i target)) (λ o. stays) (is_held_by now ttl s) (holds_index s)
        (is_unchanged i b.status) (with_status target n) (held-active now ttl s)
        (λ x is h. ground (arith, active_as x.status b.status, active))
        (λ x is.
          subst
            (λ k.
              Move s (setting k target) (id_if (is_held_by now ttl s x) x)
                (id_if (is_held_by now ttl s (with_status target n x)) (with_status target n x)))
            (==→eq x.id i (ground arith)) (status-Move x n b.status target allowed))
        db.bookings (v.one_active s)
