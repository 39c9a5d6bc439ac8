-- ===== src/Platform/Confirmed.antt =====
-- What the status code of the booking service tells about the booking.
use slot.Prelude.{
  Answer, response, ℕ, ◌≡◌, refl, sym, ap, ◌∙◌, Bool, true, false, Option, none, some, String, List,
  [], arith, ◌==◌, ==-refl, any_of, Result, ok, err, All-find_by, find_by_holds, ==→eq, subst,
}
use slot.Booking.Domain.{confirmed, Failure, domain, integrity_error, no_result_found, DomainError}
use slot.Booking.Models.{Slot, Booking, OutboxMessage, Db, get_booking_row, insert_messages}
use slot.Booking.Events.{BookingEventType}
use slot.Booking.Tokens.{Stdlib}
use slot.Booking.Service.Commands.{
  commit_status, after_update, announce, enqueue_event, change_status,
}
use slot.Booking.Service.Paths.{change_status_paths}
use slot.Booking.Invariant.{IsValid, IsAnnounced, is_about, has_id, any_of-insert_messages}
use slot.Booking.Invariant.ChangeStatus.{enqueue_event-announces, change_status-IsValid}
use slot.Booking.Http.{raised, failed, error_status, Page, booking_written, Env, Payment, serve}
use slot.Payments.Clients.{confirm_answer}
use slot.Platform.{confirm_call}

-- The booking service has announced that the booking is confirmed.
abbrev pub is_confirmed : ℕ → OutboxMessage → Bool
is_confirmed booking_id = is_about BookingEventType.confirmed_event booking_id

abbrev pub is_ok : Result Failure Booking → Bool
is_ok (ok b) = true
is_ok (err e) = false

-- A call that succeeds leaves the event, and every call keeps the events that were there.
abbrev Announces : ℕ → Db → Result Failure Booking × Db → Type 0
Announces booking_id db (r, db') =
    (is_ok r ≡ true → any_of (is_confirmed booking_id) db'.outbox ≡ true)
    × ((p : OutboxMessage → Bool) → any_of p db.outbox ≡ true → any_of p db'.outbox ≡ true)

commit_status-Announces :
    (o : Option (List OutboxMessage)) (db updated : Db) (i : ℕ)
    → ((outbox : List OutboxMessage)
        → o ≡ some outbox
        → (any_of (is_confirmed i) outbox ≡ true)
          × ((p : OutboxMessage → Bool) → any_of p db.outbox ≡ true → any_of p outbox ≡ true))
    → Announces i db (commit_status o db updated i)
commit_status-Announces none db updated i h = ((λ e. absurd (cc)), (λ p before. before))
commit_status-Announces (some outbox) db updated i h = ((λ e. (h outbox refl).0), (h outbox refl).1)

announce-Announces :
    (slot : Option Slot) (db : Db) (b : Booking) (i now m : ℕ)
    → Announces i db (announce slot db b i confirmed now m)
announce-Announces none db b i now m = ((λ e. absurd (cc)), (λ p before. before))
announce-Announces (some s) db b i now m =
    let new = enqueue_event [] confirmed i b.client_id s now m in
    commit_status-Announces (insert_messages new db.outbox) db (after_update db b i confirmed now) i
      λ outbox e. (
        enqueue_event-announces confirmed i i b.client_id s now m db.outbox outbox e (==-refl i),
        λ p before. ground (arith, any_of-insert_messages p new db.outbox outbox e),
      )

confirmed_event :
    (db : Db) (b : Booking) (i : ℕ)
    → IsValid db
    → get_booking_row i db ≡ some b
    → b.status ≡ confirmed
    → any_of (is_confirmed i) db.outbox ≡ true
confirmed_event db b i v found done =
    let told =
      All-find_by (λ b. IsAnnounced db.outbox b.status b.id) (has_id i) db.bookings b v.announced
        found in
    let same : b.id ≡ i = ==→eq b.id i (find_by_holds (has_id i) db.bookings b found) in
    let there : IsAnnounced db.outbox confirmed i =
      subst (λ s. IsAnnounced db.outbox s i) done
        (subst (λ k. IsAnnounced db.outbox b.status k) same told) in
    there

pub change_status-Announces :
    (db : Db) (i now m : ℕ) → IsValid db → Announces i db (change_status db db i confirmed now m)
change_status-Announces db i now m v =
    change_status_paths (Announces i db) db db i confirmed now m
      (λ e. ((λ e. absurd (cc)), (λ p before. before)))
      (λ b found done. ((λ e. confirmed_event db b i v found done), (λ p before. before)))
      (λ b found allowed current. announce-Announces _ db b i now m)

-- No error of the booking service is answered with the status of a success.
error_status_bad : (e : DomainError) → (error_status e == 200) ≡ false
unfolding error_status
error_status_bad DomainError.slot_not_found = refl
error_status_bad DomainError.booking_not_found = refl
error_status_bad DomainError.invalid_slot = refl
error_status_bad DomainError.payments_unavailable = refl
error_status_bad DomainError.missing_token = refl
error_status_bad DomainError.invalid_token = refl
error_status_bad DomainError.expired_token = refl
error_status_bad DomainError.forbidden = refl
error_status_bad DomainError.slot_in_past = refl
error_status_bad DomainError.slot_already_booked = refl
error_status_bad DomainError.invalid_transition = refl
error_status_bad DomainError.booking_not_payable = refl
error_status_bad DomainError.payment_conflict = refl

raised_status_bad : (e : Failure) → ((failed {A = Page} (raised e)).status == 200) ≡ false
raised_status_bad (domain e) = error_status_bad e
raised_status_bad integrity_error = refl
raised_status_bad no_result_found = refl

confirm_answer_ok :
    (status : ℕ) → confirm_answer (response status tt) ≡ ok tt → (status == 200) ≡ true
unfolding confirm_answer
confirm_answer_ok status h = ground arith

pub written_ok :
    (r : Result Failure Booking × Db)
    → confirm_answer (response (booking_written 200 r).0.status tt) ≡ ok tt
    → is_ok r.0 ≡ true
written_ok (ok b, db) h = refl
written_ok (err e, db) h =
    absurd (
      ground
        (arith, raised_status_bad e, confirm_answer_ok (failed {A = Page} (raised e)).status h))

pub written_db : (r : Result Failure Booking × Db) → (booking_written 200 r).1 ≡ r.1
written_db (ok b, db) = refl
written_db (err e, db) = refl

-- A call of the confirm route in a valid database: the database after it is valid and keeps the
-- events, and an answer that the relay takes for a success stands for a confirmed booking.
pub record Confirms (booking_id : ℕ) (db : Db) (answer : Answer (Unit {0})) (after : Db)
    : Type 0 where
  pub valid : IsValid after
  pub keeps : (p : OutboxMessage → Bool) → any_of p db.outbox ≡ true → any_of p after.outbox ≡ true
  pub told : confirm_answer answer ≡ ok tt → any_of (is_confirmed booking_id) after.outbox ≡ true

pub confirm_call-Confirms :
    (lib : Stdlib) (env : Env) (post : ℕ → ℕ → String → Answer Payment) (now : ℕ)
    (message_ids : ℕ → ℕ) (db : Db) (i : ℕ)
    → IsValid db
    → let (answer, after) = confirm_call lib env post now message_ids db db i in
      Confirms i db answer after
unfolding confirm_call serve
confirm_call-Confirms lib env post now ids db i v =
    let r = change_status db db i confirmed now (ids i) in
    let a = change_status-Announces db i now (ids i) v in
    record {
      valid =
          subst IsValid (sym (written_db r))
            (change_status-IsValid db db i confirmed now (ids i) v);
      keeps = λ p before. ap (λ (d : Db). any_of p d.outbox) (written_db r) ∙ a.1 p before;
      told = λ h.
          ap (λ (d : Db). any_of (is_confirmed i) d.outbox) (written_db r) ∙ a.0 (written_ok r h);
    }
