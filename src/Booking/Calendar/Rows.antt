-- ===== src/Booking/Calendar/Rows.antt =====
-- The row of a table that holds a slot, before and after an update.
use slot.Prelude.{
  ℕ, ◌≤◌, ◌≡◌, refl, inl, inr, Bool, true, false, Option, none, some, List, [], ◌∷◌, arith, any_of,
  find_by, count_if, update_where, Bool-cases, count_if_of-any_of, if◌then◌else◌,
}
use slot.Booking.Domain.{BookingStatus, pending, confirmed, cancelled, expired, is_active}
use slot.Booking.Models.{Booking}
use slot.Booking.Service.Queries.{holds_slot}
use slot.Booking.Calendar.{id_of}

pub holds-active :
    (now ttl : ℕ) (b : Booking) → holds_slot now ttl b ≡ true → is_active b.status ≡ true
holds-active now ttl b h = go b.status h
  where
    go :
        (s : BookingStatus)
        → holds_slot now ttl (record b { status = s }) ≡ true
        → is_active s ≡ true
    go pending h = refl
    go confirmed h = refl
    go cancelled h = absurd (ground arith)
    go expired h = absurd (ground arith)

-- The first row that passes a test which no row passes but those of another, which all fail.
pub find_by-none :
    (p q : Booking → Bool) (xs : List Booking)
    → ((x : Booking) → p x ≡ true → q x ≡ true)
    → any_of q xs ≡ false
    → find_by p xs ≡ none
find_by-none p q [] h free = refl
find_by-none p q (x ∷ xs) h free = ground (arith, h x, find_by-none p q xs h)

unused : {a : Bool} (b : Bool) → (b ≡ true → a ≡ true) → a ≡ false → b ≡ false
unused b h idle = ground (arith, h)

-- Of two tests where the second is the stronger, at most one row being active: the row that passes
-- the second, if there is one, is the one that passes the first.
module _ (p q active : Booking → Bool) (stronger : (x : Booking) → q x ≡ true → p x ≡ true)
    (before : (x : Booking) → p x ≡ true → active x ≡ true) where
  pub find_by-stronger :
      (xs : List Booking)
      → count_if active xs ≤ 1
      → any_of q xs ≡ true
      → find_by p xs ≡ find_by q xs
  find_by-stronger [] once some_row = refl
  find_by-stronger (x ∷ xs) once some_row = elim (Bool-cases (q x)) [
    | inl is ↦ rw (is, stronger x is) refl
    | inr other ↦ elim (Bool-cases (active x)) [
      | inl act ↦ elim (Bool-cases (any_of active xs)) [
        | inl twice ↦ absurd (ground (arith, count_if_of-any_of active xs))
        | inr alone ↦ let gone = rest_none xs alone in absurd (cc (rw (other, gone) at some_row))
      ]
      | inr idle ↦
          rw (other, unused (p x) (before x) idle)
            (find_by-stronger xs (ground (arith, once, idle)) (rw other at some_row))
    ]
  ]
    where
      rest_none : (ys : List Booking) → any_of active ys ≡ false → any_of q ys ≡ false
      rest_none [] free = refl
      rest_none (y ∷ ys) free = ground (arith, stronger y, before y, rest_none ys)

-- The id of a row, if it passes the test.
abbrev pub id_if : Bool → Booking → Option ℕ
id_if a x = id_of (if a then some x else none)

module _ (R : Option ℕ → Option ℕ → Type 0) (same : (o : Option ℕ) → R o o)
    (p active hit : Booking → Bool) (f : Booking → Booking)
    (before : (x : Booking) → p x ≡ true → active x ≡ true)
    (after : (x : Booking) → hit x ≡ true → p (f x) ≡ true → active x ≡ true)
    (one : (x : Booking) → hit x ≡ true → R (id_if (p x) x) (id_if (p (f x)) (f x))) where
  after-active : (x : Booking) → p (if hit x then f x else x) ≡ true → active x ≡ true
  after-active x h = elim (Bool-cases (hit x)) [
    | inl is ↦ after x is (ground arith)
    | inr other ↦ before x (ground arith)
  ]

  rows_none :
      (xs : List Booking) → any_of active xs ≡ false → find_by p (update_where hit f xs) ≡ none
  rows_none [] free = refl
  rows_none (x ∷ xs) free = ground (arith, after-active x, rows_none xs)

  row-related :
      (x : Booking)
      → R (id_if (p x) x) (id_if (p (if hit x then f x else x)) (if hit x then f x else x))
  row-related x = elim (Bool-cases (hit x)) [
    | inl is ↦ rw is (one x is)
    | inr other ↦ rw other (same _)
  ]

  -- Where at most one row is active, an update of rows does to the one that passes the test what it
  -- does to a row by itself.
  pub rows-related :
      (xs : List Booking)
      → count_if active xs ≤ 1
      → R (id_of (find_by p xs)) (id_of (find_by p (update_where hit f xs)))
  rows-related [] once = same none
  rows-related (x ∷ xs) once = elim (Bool-cases (active x)) [
    | inl act ↦ elim (Bool-cases (any_of active xs)) [
      | inl twice ↦ absurd (ground (arith, count_if_of-any_of active xs))
      | inr alone ↦
          rw (find_by-none p active xs before alone) (rw (rows_none xs alone) (row-related x))
    ]
    | inr idle ↦ rw (unused (p x) (before x) idle) (
        rw (unused (p (if hit x then f x else x)) (after-active x) idle)
          (rows-related xs (ground arith)))
  ]
