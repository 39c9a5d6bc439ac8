-- ===== src/Payments/System.antt =====
-- The payments service and its relay as one system: any number of transactions in any order. A
-- request for a payment is two of them, with the call of the provider in between.
use slot.Prelude.{
  ℕ, String, ◌≡◌, refl, inl, inr, Bool, true, false, Option, none, some, List, ◌∷◌, arith, any_of,
  All-update_where, Bool-cases, Option-cases, Result, ok, err, if◌then◌else◌,
}
use slot.Payments.Domain.{PaymentStatus, Failure, succeeded, status_eq, can_transition}
use slot.Payments.Clients.{Charge}
use slot.Payments.Models.{
  Payment, OutboxMessage, Db, Constraint, amount_positive, primary_key, one_payment_per_booking,
  empty, has_id, payment_violation, get_payment_row,
}
use slot.Payments.Service.{
  new_payment, open_payment, attach_charge, close_payment, is_uncharged, with_charge, with_status,
  apply_event, settle_event, record_event, handle_webhook,
}
use slot.Payments.Invariant.{IsValid, empty-IsValid}
use slot.Payments.Checkout.{open_payment-IsValid, close_payment-IsValid}
use slot.Payments.Webhooks.{handle_webhook_paths, handle_webhook-IsValid}
use slot.Payments.Relay.{Neighbours, process_pending}
use slot.Payments.Relay.Refunds.{IsRefundable, is_refund, process_pending-IsRefundable}
use slot.Payments.Relay.Commands.{process_pending-IsValid}
use slot.Payments.Lifecycle.{
  KeepsPayments, open_payment-KeepsPayments, close_payment-KeepsPayments,
  handle_webhook-KeepsPayments, process_pending-KeepsPayments,
}

open_payment-IsRefundable :
    (violation : Option Constraint) (db : Db) (p : Payment)
    → p.needs_refund ≡ false
    → IsRefundable db
    → IsRefundable (open_payment violation db p).1
open_payment-IsRefundable none db p new h = ((λ needs. absurd (cc (new, needs))), h)
open_payment-IsRefundable (some amount_positive) db p new h = h
open_payment-IsRefundable (some primary_key) db p new h = h
open_payment-IsRefundable (some one_payment_per_booking) db p new h = h

attach_charge-IsRefundable :
    (db : Db) (payment_id : ℕ) (charge : Charge) (now : ℕ)
    → IsRefundable db
    → IsRefundable (attach_charge payment_id charge now db)
attach_charge-IsRefundable db payment_id charge now h =
    All-update_where _ _ (is_uncharged payment_id) (with_charge charge now) db.payments
      (λ p hit old. old) (λ p miss old. old) h

close_payment-IsRefundable :
    (charged : Result Failure Charge) (created : Bool) (payment_id now : ℕ) (db : Db)
    → IsRefundable db
    → IsRefundable (close_payment charged created payment_id now db).1
close_payment-IsRefundable (err e) created payment_id now db h = h
close_payment-IsRefundable (ok charge) created payment_id now db h =
    let after = attach_charge-IsRefundable db payment_id charge now h in
    elim (Option-cases (get_payment_row payment_id (attach_charge payment_id charge now db))) [
      | inl missing ↦ rw (missing, close_payment) after
      | inr (p, found) ↦ rw (found, close_payment) after
    ]

command_kept :
    (success : Bool) (m : OutboxMessage) (outbox : List OutboxMessage) (i : ℕ)
    → any_of (is_refund i) outbox ≡ true
    → any_of (is_refund i) (if success then m ∷ outbox else outbox) ≡ true
command_kept true m outbox i h = ground (arith, h)
command_kept false m outbox i h = h

apply_event-IsRefundable :
    (p : Payment) (target : PaymentStatus) (now message_id : ℕ) (db : Db)
    → IsRefundable db
    → IsRefundable (apply_event p target now message_id db)
apply_event-IsRefundable p target now message_id db h =
    All-update_where _ _ (has_id p.id) (with_status target now) db.payments
      (λ x hit old needs. command_kept (status_eq target succeeded) _ db.outbox x.id (old needs))
      (λ x miss old needs. command_kept (status_eq target succeeded) _ db.outbox x.id (old needs)) h

settle_event-IsRefundable :
    (o : Option Payment) (target : PaymentStatus) (now message_id : ℕ) (db : Db)
    → IsRefundable db
    → IsRefundable (settle_event o target now message_id db).1
settle_event-IsRefundable none target now m db h = h
settle_event-IsRefundable (some p) target now m db h =
    elim (Bool-cases (can_transition p.status target)) [
      | inl moves ↦ rw moves (apply_event-IsRefundable p target now m db h)
      | inr stays ↦ rw stays h
    ]

-- The first transaction of `create_payment`.
abbrev pub opened : Db → Payment → Result Failure (Payment × Bool) × Db
opened db p = open_payment (payment_violation p db) db p

-- What holds of the database: the invariant, and a command for each refund.
abbrev pub IsSound : Db → Type 0
IsSound db = IsValid db × IsRefundable db

module _ (parse_uuid : String → Option ℕ) {World : Type 0} (neighbours : Neighbours World) where
  handle_webhook-IsSound :
      (db : Db) (event_id event_type reference : String) (now message_id : ℕ)
      → IsSound db
      → IsSound (handle_webhook parse_uuid db event_id event_type reference now message_id).1
  handle_webhook-IsSound db e t reference now m (v, h) = (
    handle_webhook-IsValid parse_uuid db e t reference now m v,
    handle_webhook_paths parse_uuid (λ r. IsRefundable r.1) db e t reference now m (λ _. h) (λ _. h)
        (λ target fresh. settle_event-IsRefundable _ target now m (record_event e t db) h),
  )

  -- One transaction of a request or of a webhook, or one run of the relay.
  pub data Step (db : Db) (world : World) (db' : Db) (world' : World) : Type 0 where
    opens :
        (payment_id booking_id amount_minor : ℕ) (currency : String) (now : ℕ)
        → db' ≡ (opened db (new_payment payment_id booking_id amount_minor currency now)).1
        → world' ≡ world
        → Step db world db' world'
    closes :
        (charged : Result Failure Charge) (created : Bool) (payment_id now : ℕ)
        → db' ≡ (close_payment charged created payment_id now db).1
        → world' ≡ world
        → Step db world db' world'
    hears :
        (event_id event_type reference : String) (now message_id : ℕ)
        → db' ≡ (handle_webhook parse_uuid db event_id event_type reference now message_id).1
        → world' ≡ world
        → Step db world db' world'
    relays :
        (locked : ℕ → Bool) (limit now : ℕ) (refund_ids : ℕ → ℕ)
        → db' ≡ (process_pending neighbours locked limit now refund_ids world db).1
        → world' ≡ (process_pending neighbours locked limit now refund_ids world db).2
        → Step db world db' world'

  pub data Reach (start : World) : Db → World → Type 0 where
    here : Reach start empty start
    next :
        {db db' : Db} {world world' : World}
        → Reach start db world
        → Step db world db' world'
        → Reach start db' world'

  Step-IsSound :
      (db db' : Db) (world world' : World) → Step db world db' world' → IsSound db → IsSound db'
  Step-IsSound db db' world world' (opens i b amount currency now eq same) (v, h) =
      let p = new_payment i b amount currency now in
      rw eq (
        open_payment-IsValid (payment_violation p db) db p refl refl v,
        open_payment-IsRefundable (payment_violation p db) db p refl h,
      )
  Step-IsSound db db' world world' (closes charged created i now eq same) (v, h) = rw eq (
    close_payment-IsValid charged created i now db v,
    close_payment-IsRefundable charged created i now db h,
  )
  Step-IsSound db db' world world' (hears e t reference now m eq same) sound =
      rw eq (handle_webhook-IsSound db e t reference now m sound)
  Step-IsSound db db' world world' (relays locked limit now ids eq moved) (v, h) = rw eq (
    process_pending-IsValid neighbours locked limit now ids world db v,
    process_pending-IsRefundable neighbours locked limit now ids world db h,
  )

  -- However the transactions of requests, webhooks and relay runs are interleaved from the empty
  -- database, and whatever the provider and the neighbours answer, there is one payment per booking
  -- and one row per provider event, each payment that succeeded has the command to confirm its
  -- booking, and each that needs a refund has the command to refund it.
  pub Reach-IsSound : (start : World) {world : World} {db : Db} → Reach start db world → IsSound db
  Reach-IsSound start here = (empty-IsValid, tt)
  Reach-IsSound start (next {db = db} {db' = db'} {world = w} {world' = w'} r st) =
      Step-IsSound db db' w w' st (Reach-IsSound start r)

  -- Every step keeps each payment with its booking, amount and currency, and moves its status only
  -- along the table of allowed transitions.
  pub Step-KeepsPayments :
      (db db' : Db) (world world' : World)
      → Step db world db' world'
      → KeepsPayments db.payments db'.payments
  Step-KeepsPayments db db' world world' (opens i b amount currency now eq same) =
      let p = new_payment i b amount currency now in
      rw eq (open_payment-KeepsPayments (payment_violation p db) db p refl)
  Step-KeepsPayments db db' world world' (closes charged created i now eq same) =
      rw eq (close_payment-KeepsPayments charged created i now db)
  Step-KeepsPayments db db' world world' (hears e t reference now m eq same) =
      rw eq (handle_webhook-KeepsPayments parse_uuid db e t reference now m)
  Step-KeepsPayments db db' world world' (relays locked limit now ids eq moved) =
      rw eq (process_pending-KeepsPayments neighbours locked limit now ids world db)
