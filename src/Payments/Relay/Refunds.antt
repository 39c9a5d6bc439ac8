-- ===== src/Payments/Relay/Refunds.antt =====
-- Money that must go back has its command: the relay marks a payment for a refund and writes the
-- refund command together, or does neither.
use slot.Prelude.{
  ℕ, suc, String, ◌≡◌, refl, inl, inr, subst, ◌∙◌, Bool, true, ◌&&◌, Option, none, some, List, [],
  ◌∷◌, arith, ◌==◌, str_eq, eq_refl, any_of, any_of-update_where, All, All-map, All-update_where,
  Bool-cases, Option-cases, Result-cases, Result, ok, err,
}
use slot.Payments.Domain.{Failure, confirm_booking, refund_payment, booking_rejected}
use slot.Payments.Models.{Payment, OutboxMessage, Db, has_id, get_payment_row}
use slot.Payments.Clients.{Refund}
use slot.Payments.Relay.{
  mark_published, record_failure, needing_refund, refunded, after_confirm, after_refund, Neighbours,
  confirm_delivery, refund_of, refund_delivery, deliver, deliver_each, settle, process_pending,
}

abbrev pub is_refund : ℕ → OutboxMessage → Bool
is_refund payment_id m = str_eq m.topic refund_payment && (m.payment_id == payment_id)

-- Every payment that needs a refund has a refund command in the outbox.
abbrev pub IsRefundable : Db → Type 0
IsRefundable db =
    All (λ p. p.needs_refund ≡ true → any_of (is_refund p.id) db.outbox ≡ true) db.payments

-- A database of which every result that is no error keeps the property.
abbrev RefundableResult : Result Failure Db → Type 0
RefundableResult (ok db) = IsRefundable db
RefundableResult (err e) = Unit

after_confirm-IsRefundable :
    (answer : Result Failure (Unit {0})) (payment_id now message_id : ℕ) (db : Db)
    → IsRefundable db
    → RefundableResult (after_confirm answer payment_id now message_id db)
unfolding after_confirm
after_confirm-IsRefundable (ok _) payment_id now message_id db h = h
after_confirm-IsRefundable (err booking_rejected) payment_id now message_id db h =
    All-update_where _ _ (has_id payment_id) (needing_refund now) db.payments
      (λ p hit old needs. ground (arith, eq_refl refund_payment))
      (λ p miss old needs. ground (arith, old needs)) h
after_confirm-IsRefundable (err _) payment_id now message_id db h = tt

after_refund-IsRefundable :
    (answer : Result Failure Refund) (payment_id now : ℕ) (db : Db)
    → IsRefundable db
    → RefundableResult (after_refund answer payment_id now db)
unfolding after_refund
after_refund-IsRefundable (err e) payment_id now db h = tt
after_refund-IsRefundable (ok refund) payment_id now db h =
    All-update_where _ _ (has_id payment_id) (refunded refund now) db.payments
      (λ p hit old needs. absurd (cc)) (λ p miss old. old) h

-- The relay's marks keep what identifies a command.
mark-IsRefundable :
    (now message_id : ℕ) (db : Db)
    → IsRefundable db
    → IsRefundable (mark_published now message_id db)
mark-IsRefundable now message_id db h =
    All-map db.payments
      (λ p old needs.
        any_of-update_where (is_refund p.id) (λ m. m.id == message_id) _ db.outbox (λ m. refl)
        ∙ old needs)
      h

failure-IsRefundable :
    (message_id : ℕ) (error : String) (db : Db)
    → IsRefundable db
    → IsRefundable (record_failure message_id error db)
failure-IsRefundable message_id error db h =
    All-map db.payments
      (λ p old needs.
        any_of-update_where (is_refund p.id) (λ m. m.id == message_id) _ db.outbox (λ m. refl)
        ∙ old needs)
      h

module _ {World : Type 0} (neighbours : Neighbours World) where
  refund_of-IsRefundable :
      (world : World) (db : Db) (p : Payment) (now : ℕ) (at : Option ℕ) (charge : Option String)
      → IsRefundable db
      → RefundableResult (refund_of neighbours world db p now at charge).0
  refund_of-IsRefundable world db p now (some t) charge h = h
  refund_of-IsRefundable world db p now none none h = tt
  refund_of-IsRefundable world db p now none (some c) h = after_refund-IsRefundable _ p.id now db h

  deliver-IsRefundable :
      (world : World) (db : Db) (m : OutboxMessage) (now refund_id : ℕ)
      → IsRefundable db
      → RefundableResult (deliver neighbours world db m now refund_id).0
  unfolding deliver confirm_delivery refund_delivery
  deliver-IsRefundable world db m now refund_id h =
      elim (Bool-cases (str_eq m.topic confirm_booking)) [
        | inl confirms ↦ rw confirms (elim (Option-cases m.booking_id) [
          | inl missing ↦ rw (missing, confirm_delivery) tt
          | inr (b, has) ↦
              rw (has, confirm_delivery)
                (after_confirm-IsRefundable _ m.payment_id now refund_id db h)
        ])
        | inr other ↦ rw other (elim (Bool-cases (str_eq m.topic refund_payment)) [
          | inl refunds ↦ rw refunds (elim (Option-cases (get_payment_row m.payment_id db)) [
            | inl missing ↦ rw (missing, refund_delivery) tt
            | inr (p, found) ↦
                rw (found, refund_delivery)
                  (refund_of-IsRefundable world db p now p.refunded_at p.provider_charge_id h)
          ])
          | inr unknown ↦ rw unknown tt
        ])
      ]

  deliver_each-IsRefundable :
      (world : World) (db : Db) (ms : List OutboxMessage) (now : ℕ) (refund_ids : ℕ → ℕ) (done : ℕ)
      → IsRefundable db
      → IsRefundable (deliver_each neighbours world db ms now refund_ids done).work
  unfolding deliver_each
  deliver_each-IsRefundable world db [] now refund_ids done h = h
  deliver_each-IsRefundable world db (m ∷ ms) now refund_ids done h =
      elim (Result-cases (deliver neighbours world db m now (refund_ids m.id)).0) [
        | inl (db', delivered) ↦
            let kept : IsRefundable db' =
              subst RefundableResult delivered
                (deliver-IsRefundable world db m now (refund_ids m.id) h) in
            rw (delivered, deliver_each)
              (deliver_each-IsRefundable (deliver neighbours world db m now (refund_ids m.id)).1
                (mark_published now m.id db') ms now refund_ids (suc done)
                (mark-IsRefundable now m.id db' kept))
        | inr (e, failed) ↦ rw (failed, deliver_each) h
      ]

  settle-IsRefundable :
      (db work : Db) (failure : Option (ℕ × Failure))
      → IsRefundable db
      → IsRefundable work
      → IsRefundable (settle neighbours db work failure)
  settle-IsRefundable db work none h k = k
  settle-IsRefundable db work (some (message_id, e)) h k =
      failure-IsRefundable message_id (neighbours.message_of e) db h

  -- However a run of the relay ends, every payment that needs a refund has its refund command.
  pub process_pending-IsRefundable :
      (locked : ℕ → Bool) (limit now : ℕ) (refund_ids : ℕ → ℕ) (world : World) (db : Db)
      → IsRefundable db
      → IsRefundable (process_pending neighbours locked limit now refund_ids world db).1
  unfolding process_pending
  process_pending-IsRefundable locked limit now refund_ids world db h =
      settle-IsRefundable db _ _ h (deliver_each-IsRefundable world db _ now refund_ids 0 h)
