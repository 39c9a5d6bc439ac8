-- ===== src/Platform/Race.antt =====
-- Two calls of the confirm route for one booking that overlap, as when the relay has given up
-- waiting for the first and its next run sends the command again.
use slot.Prelude.{
  Answer, ℕ, String, ◌≡◌, ◌≢◌, refl, sym, ap, ◌∙◌, subst, inl, inr, ◌∷◌, Option, none, some, List,
  arith, update_where, Result, ok, err, Result-cases, [],
}
use slot.Booking.Domain.{pending, confirmed, Failure, domain, invalid_transition}
use slot.Booking.Models.{
  Booking, Slot, Db as BookingDb, OutboxMessage, get_booking_row, insert_messages,
}
use slot.Booking.Tokens.{Stdlib}
use slot.Booking.Service.Queries.{or_raise}
use slot.Booking.Service.Commands.{
  enqueue_event, commit_status, after_update, announce, change_status,
}
use slot.Booking.Service.Paths.{change_status_paths}
use slot.Booking.Service.Retries.{change_status_lost, change_status_repeated}
use slot.Booking.Invariant.{IsValid}
use slot.Booking.Invariant.ChangeStatus.{change_status-IsValid}
use slot.Booking.Http.{Env, Payment, error_status, serve}
use slot.Payments.Domain.{booking_rejected}
use slot.Payments.Models.{Db, has_id}
use slot.Payments.Clients.{confirm_answer}
use slot.Payments.Relay.{needing_refund, refund_command, after_confirm}
use slot.Platform.{confirm_call}
use slot.Platform.Confirmed.{written_ok, written_db}

-- The booking that a success answers with is the row of the database after it.
abbrev Reads : ℕ → Result Failure Booking × BookingDb → Type 0
Reads i (err e, db) = Unit
Reads i (ok b, db) = get_booking_row i db ≡ some b

or_raise-Reads :
    (i : ℕ) (db : BookingDb) (e : Failure) (o : Option Booking)
    → get_booking_row i db ≡ o
    → Reads i (or_raise o e, db)
or_raise-Reads i db e none h = tt
or_raise-Reads i db e (some b) h = h

commit_status-Reads :
    (o : Option (List OutboxMessage)) (db updated : BookingDb) (i : ℕ)
    → Reads i (commit_status o db updated i)
commit_status-Reads none db updated i = tt
commit_status-Reads (some outbox) db updated i = or_raise-Reads i _ _ _ refl

announce-Reads :
    (slot : Option Slot) (db : BookingDb) (b : Booking) (i now m : ℕ)
    → Reads i (announce slot db b i confirmed now m)
announce-Reads none db b i now m = tt
announce-Reads (some s) db b i now m =
    commit_status-Reads
      (insert_messages (enqueue_event [] confirmed i b.client_id s now m) db.outbox) db
      (after_update db b i confirmed now) i

change_status-Reads :
    (db : BookingDb) (i now m : ℕ) → Reads i (change_status db db i confirmed now m)
change_status-Reads db i now m =
    change_status_paths (Reads i) db db i confirmed now m (λ e. tt) (λ b found same. found)
      (λ b found allowed current. announce-Reads _ db b i now m)

pending≢confirmed : pending ≢ confirmed
pending≢confirmed e = cc

module _ (lib : Stdlib) (env : Env) (post : ℕ → ℕ → String → Answer Payment) where
  rejected :
      (seen db : BookingDb) (i now : ℕ) (ids : ℕ → ℕ)
      → change_status seen db i confirmed now (ids i) ≡ (err (domain invalid_transition), db)
      → (confirm_answer (confirm_call lib env post now ids seen db i).0 ≡ err booking_rejected)
        × ((confirm_call lib env post now ids seen db i).1 ≡ db)
  unfolding confirm_call serve confirm_answer error_status
  rejected seen db i now ids lost = rw lost (refl, refl)

  answered :
      (db : BookingDb) (i now : ℕ) (ids : ℕ → ℕ)
      → confirm_answer (confirm_call lib env post now ids db db i).0 ≡ ok tt
      → (b : Booking) × (change_status db db i confirmed now (ids i)
          ≡ (ok b, (confirm_call lib env post now ids db db i).1))
  unfolding confirm_call serve
  answered db i now ids told =
      let r = change_status db db i confirmed now (ids i) in
      elim (Result-cases r.0) [
        | inl (b, good) ↦ (b, λ k. (good k, sym (written_db r) k))
        | inr (e, bad) ↦ absurd (ground (arith, written_ok r told, bad))
      ]

  -- Two confirmations of a booking overlap, both having read it as pending. The first one confirms
  -- it; the second one is answered with a conflict, which the relay takes for a booking that is
  -- lost, and the payment of the confirmed booking is marked for a refund and commanded back.
  pub confirm_overlapping :
      (before : BookingDb) (payments : Db) (row : Booking)
      (i payment_id now later relay_now refund_id : ℕ) (ids later_ids : ℕ → ℕ)
      → IsValid before
      → get_booking_row i before ≡ some row
      → row.status ≡ pending
      → confirm_answer (confirm_call lib env post now ids before before i).0 ≡ ok tt
      → let after = (confirm_call lib env post now ids before before i).1 in
        let (answer, last) = confirm_call lib env post later later_ids before after i in
        ((b : Booking) × (get_booking_row i last ≡ some b) × (b.status ≡ confirmed))
        × (after_confirm (confirm_answer answer) payment_id relay_now refund_id payments
            ≡ ok (record payments {
              payments =
                  update_where (has_id payment_id) (needing_refund relay_now) payments.payments;
              outbox = refund_command refund_id payment_id ∷ payments.outbox;
            }))
  unfolding after_confirm
  confirm_overlapping before payments row i p now later relay_now m ids later_ids v found was told =
      let after = (confirm_call lib env post now ids before before i).1 in
      let (b, done) = answered before i now ids told in
      let reads : get_booking_row i after ≡ some b =
        subst (Reads i) done (change_status-Reads before i now (ids i)) in
      let repeated =
        change_status_repeated before after i confirmed now later (ids i) (later_ids i) b done in
      let valid : IsValid after =
        subst (λ r. IsValid r.1) done
          (change_status-IsValid before before i confirmed now (ids i) v) in
      let lost =
        change_status_lost before after i confirmed later (later_ids i) row b valid found reads
          (λ e. pending≢confirmed (sym was ∙ sym e ∙ repeated.0))
          (λ e. pending≢confirmed (sym was ∙ e)) in
      let (answer, kept) = rejected before after i later later_ids lost in
      ((b, ap (get_booking_row i) kept ∙ reads, repeated.0), rw answer refl)
