-- ===== src/Booking/Http/Failures.antt =====
-- How each use case may fail, as the statuses of its errors.
use slot.Prelude.{
  Answer, no_response, response, ℕ, String, ◌≡◌, refl, inl, inr, Bool, true, Option, none, some,
  List, [], ◌∷◌, arith, any_of, ◌==◌, leb, Bool-cases, Option-cases, Result-cases, Result, ok, err,
  subst, all_of, ==→eq,
}
use slot.Booking.Domain.{
  DateTime, BookingStatus, cancelled, Failure, domain, integrity_error, no_result_found,
  ensure_valid_slot, ensure_bookable, ensure_transition, status_eq, allowed_transitions,
}
use slot.Booking.Models.{
  Slot, Booking, OutboxMessage, Db, Constraint, get_slot_row, get_booking_row, insert_messages,
}
use slot.Booking.Auth.{Identity}
use slot.Booking.Service.Queries.{get_owned_booking, get_payable_booking}
use slot.Booking.Service.Commands.{
  create_slot, commit_booking, reserve, book_slot, is_unchanged, announce, commit_status,
  enqueue_event, after_update, write_status, change_status, cancel_booking,
}
use slot.Booking.Http.{error_status, raised, failed, Payment, payment_answer, Page}

-- The failure of a use case has one of these statuses, or is no `DomainError`.
abbrev pub failure_in : List ℕ → Failure → Bool
failure_in codes (domain e) = any_of (λ c. c == error_status e) codes
failure_in codes integrity_error = true
failure_in codes no_result_found = true

abbrev pub fails_in {ℓ} : {A : Type ℓ} → List ℕ → Result Failure A → Bool
fails_in codes (ok a) = true
fails_in codes (err e) = failure_in codes e

abbrev pub within : List ℕ → List ℕ → Bool
within codes all = all_of (λ c. any_of (λ d. d == c) all) codes

any_of-within :
    (n : ℕ) (codes all : List ℕ)
    → within codes all ≡ true
    → any_of (λ c. c == n) codes ≡ true
    → any_of (λ c. c == n) all ≡ true
any_of-within n [] all h k = absurd (cc)
any_of-within n (c ∷ codes) all h k = elim (Bool-cases (c == n)) [
  | inl hit ↦ subst (λ m. any_of (λ d. d == m) all ≡ true) (==→eq c n hit) (ground arith)
  | inr miss ↦ any_of-within n codes all (ground arith) (ground arith)
]

pub widen :
    (codes all : List ℕ) (e : Failure)
    → within codes all ≡ true
    → failure_in codes e ≡ true
    → failure_in all e ≡ true
widen codes all (domain e) h k = any_of-within (error_status e) codes all h k
widen codes all integrity_error h k = refl
widen codes all no_result_found h k = refl

-- The page of a failure.
pub failed-within :
    (codes all : List ℕ) (e : Failure)
    → within codes all ≡ true
    → failure_in codes e ≡ true
    → any_of (λ c. c == (failed {A = Page} (raised e)).status) (500 ∷ all) ≡ true
failed-within codes all (domain e) h k =
    ground (arith, any_of-within (error_status e) codes all h k)
failed-within codes all integrity_error h k = refl
failed-within codes all no_result_found h k = refl

pub create_slot_fails :
    (db : Db) (m : String) (s e : DateTime) (p now i : ℕ)
    → fails_in (422 ∷ []) (create_slot db m s e p now i).0 ≡ true
unfolding create_slot ensure_valid_slot error_status
create_slot_fails db m s e p now i = ground arith

commit_booking_fails :
    (violation : Option Constraint) (outbox : Option (List OutboxMessage)) (db updated : Db)
    (b : Booking)
    → fails_in (404 ∷ 409 ∷ []) (commit_booking violation outbox db updated b).0 ≡ true
unfolding error_status
commit_booking_fails (some Constraint.primary_key) outbox db updated b = refl
commit_booking_fails (some Constraint.active_slot_index) outbox db updated b = refl
commit_booking_fails (some Constraint.foreign_key) outbox db updated b = refl
commit_booking_fails none none db updated b = refl
commit_booking_fails none (some outbox) db updated b = refl

pub book_slot_fails :
    (seen db : Db) (slot_id : ℕ) (client_id : String) (now ttl i : ℕ) (ids : ℕ → ℕ)
    → fails_in (404 ∷ 409 ∷ []) (book_slot seen db slot_id client_id now ttl i ids).0 ≡ true
unfolding book_slot ensure_bookable error_status reserve
book_slot_fails seen db slot_id client_id now ttl i ids =
    elim (Option-cases (get_slot_row slot_id seen)) [
      | inl missing ↦ rw (missing, book_slot) refl
      | inr (slot, found) ↦ elim (Bool-cases (leb slot.starts_at now)) [
        | inl past ↦ rw (found, past, book_slot) refl
        | inr future ↦ rw (found, future, book_slot) (commit_booking_fails _ _ db _ _)
      ]
    ]

commit_status_fails :
    (inserted : Option (List OutboxMessage)) (db updated : Db) (i : ℕ)
    → fails_in (404 ∷ 409 ∷ []) (commit_status inserted db updated i).0 ≡ true
commit_status_fails none db updated i = refl
commit_status_fails (some outbox) db updated i =
    elim (Option-cases (get_booking_row i (record updated { outbox = outbox }))) [
      | inl missing ↦ ground (arith, missing)
      | inr (b, found) ↦ ground (arith, found)
    ]

announce_fails :
    (slot : Option Slot) (db : Db) (b : Booking) (i : ℕ) (target : BookingStatus) (now m : ℕ)
    → fails_in (404 ∷ 409 ∷ []) (announce slot db b i target now m).0 ≡ true
announce_fails none db b i target now m = refl
announce_fails (some slot) db b i target now m =
    commit_status_fails
      (insert_messages (enqueue_event [] target i b.client_id slot now m) db.outbox) db
      (after_update db b i target now) i

pub change_status_fails :
    (seen db : Db) (i : ℕ) (target : BookingStatus) (now m : ℕ)
    → fails_in (404 ∷ 409 ∷ []) (change_status seen db i target now m).0 ≡ true
unfolding change_status ensure_transition error_status write_status
change_status_fails seen db i target now m = elim (Option-cases (get_booking_row i seen)) [
  | inl missing ↦ rw (missing, change_status) refl
  | inr (b, found) ↦ elim (Bool-cases (status_eq b.status target)) [
    | inl same ↦ rw (found, same, change_status) refl
    | inr other ↦ elim (Bool-cases (any_of (status_eq target) (allowed_transitions b.status))) [
      | inr stays ↦ rw (found, other, stays, change_status) refl
      | inl allowed ↦
          rw (found, other, allowed, change_status)
            (elim (Bool-cases (any_of (is_unchanged i b.status) db.bookings)) [
              | inl current ↦ rw (current, write_status) (announce_fails _ db b i target now m)
              | inr changed ↦ rw (changed, write_status) refl
            ])
    ]
  ]
]

pub get_owned_booking_fails :
    (db : Db) (i : ℕ) (identity : Identity)
    → fails_in (404 ∷ []) (get_owned_booking db i identity) ≡ true
unfolding get_owned_booking error_status
get_owned_booking_fails db i identity = ground arith

pub cancel_booking_fails :
    (seen db : Db) (i : ℕ) (identity : Identity) (now m : ℕ)
    → fails_in (404 ∷ 409 ∷ []) (cancel_booking seen db i identity now m).0 ≡ true
unfolding cancel_booking
cancel_booking_fails seen db i identity now m =
    elim (Result-cases (get_owned_booking seen i identity)) [
      | inl (found, owned) ↦
          rw (owned, cancel_booking) (change_status_fails seen db found.0.id cancelled now m)
      | inr (e, bad) ↦
          rw (bad, cancel_booking)
            (widen (404 ∷ []) (404 ∷ 409 ∷ []) e refl (
              subst (λ r. fails_in (404 ∷ []) r ≡ true) bad
                (get_owned_booking_fails seen i identity)))
    ]

pub get_payable_booking_fails :
    (db : Db) (i : ℕ) (identity : Identity) (now ttl : ℕ)
    → fails_in (404 ∷ 409 ∷ []) (get_payable_booking db i identity now ttl) ≡ true
unfolding get_payable_booking error_status
get_payable_booking_fails db i identity now ttl =
    elim (Result-cases (get_owned_booking db i identity)) [
      | inl (found, owned) ↦ rw owned (ground arith)
      | inr (e, bad) ↦ rw bad (
          widen (404 ∷ []) (404 ∷ 409 ∷ []) e refl
            (subst (λ r. fails_in (404 ∷ []) r ≡ true) bad (get_owned_booking_fails db i identity)))
    ]

pub payment_answer_fails :
    (a : Answer Payment) → fails_in (409 ∷ 503 ∷ []) (payment_answer a) ≡ true
unfolding payment_answer error_status
payment_answer_fails no_response = refl
payment_answer_fails (response code body) = ground arith
