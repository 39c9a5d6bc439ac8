-- ===== src/Payments/Service.antt =====
-- services/payments/src/payments/service.py: the use cases.
-- `uuid7` draws ids that no row has, so no INSERT of a message is refused; the id of a new payment
-- is an argument and is checked against its constraints.
use slot.Prelude.{
  ℕ, String, Bool, true, false, ◌&&◌, Option, none, some, ◌∷◌, ◌==◌, str_eq, any_of, find_by,
  update_where, if◌then◌else◌, Result, ok, err,
}
use slot.Payments.Domain.{
  PaymentStatus, pending, succeeded, status_eq, target_status, can_transition, confirm_booking,
  Failure, payment_conflict, payment_not_found, integrity_error, no_result_found,
}
use slot.Payments.Models.{
  Payment, ProviderEvent, OutboxMessage, Db, Constraint, amount_positive, primary_key,
  one_payment_per_booking, of_booking, has_id, payment_violation, get_payment_row,
}
use slot.Payments.Clients.{Charge}

pub data WebhookOutcome : Type 0 where
  processed duplicate ignored : WebhookOutcome

unfoldable pub get_payment : Db → ℕ → Result Failure Payment
get_payment db payment_id = elim (get_payment_row payment_id db) [
  | none ↦ err payment_not_found
  | some p ↦ ok p
]

abbrev pub new_payment : ℕ → ℕ → ℕ → String → ℕ → Payment
new_payment payment_id booking_id amount_minor currency now = record {
  id = payment_id;
  booking_id = booking_id;
  amount_minor = amount_minor;
  currency = currency;
  status = pending;
  provider_charge_id = none;
  checkout_url = none;
  needs_refund = false;
  provider_refund_id = none;
  refunded_at = none;
  created_at = now;
  updated_at = now;
}

-- The payment that was there, if it is for the same money.
abbrev pub existing_payment : Option Payment → ℕ → String → Result Failure (Payment × Bool)
existing_payment none amount_minor currency = err no_result_found
existing_payment (some p) amount_minor currency =
    if (p.amount_minor == amount_minor) && str_eq p.currency currency
    then ok (p, false)
    else err payment_conflict

-- The first transaction of `create_payment`, from the violation of its INSERT.
abbrev pub open_payment : Option Constraint → Db → Payment → Result Failure (Payment × Bool) × Db
open_payment none db p = (ok (p, true), record db { payments = p ∷ db.payments })
open_payment (some one_payment_per_booking) db p =
    (existing_payment (find_by (of_booking p.booking_id) db.payments) p.amount_minor p.currency, db)
open_payment (some amount_positive) db p = (err integrity_error, db)
open_payment (some primary_key) db p = (err integrity_error, db)

abbrev pub is_uncharged : ℕ → Payment → Bool
is_uncharged payment_id p =
    (p.id == payment_id) && elim p.provider_charge_id [ none ↦ true | some c ↦ false ]

abbrev pub with_charge : Charge → ℕ → Payment → Payment
with_charge charge now p = record p {
  provider_charge_id = some charge.id;
  checkout_url = some charge.checkout_url;
  updated_at = now;
}

abbrev pub attach_charge : ℕ → Charge → ℕ → Db → Db
attach_charge payment_id charge now db = record db {
  payments = update_where (is_uncharged payment_id) (with_charge charge now) db.payments;
}

-- The second transaction, after the provider has answered; other transactions have committed
-- `meanwhile`.
abbrev pub close_payment :
    Result Failure Charge → Bool → ℕ → ℕ → Db → Result Failure (Payment × Bool) × Db
close_payment (err e) created payment_id now db = (err e, db)
close_payment (ok charge) created payment_id now db =
    let charged = attach_charge payment_id charge now db in
    elim (get_payment_row payment_id charged) [
      | none ↦ (err no_result_found, charged)
      | some p ↦ (ok (p, created), charged)
    ]

module _ (create_charge : ℕ → ℕ → String → Result Failure Charge) (meanwhile : Db → Db) where
  abbrev pub ensure_charge :
      Result Failure (Payment × Bool) × Db → ℕ → String → ℕ → Result Failure (Payment × Bool) × Db
  ensure_charge (err e, db) amount_minor currency now = (err e, db)
  ensure_charge (ok (p, created), db) amount_minor currency now = elim p.provider_charge_id [
    | some c ↦ (ok (p, created), db)
    | none ↦
        close_payment (create_charge p.id amount_minor currency) created p.id now (meanwhile db)
  ]

  unfoldable pub create_payment : Db → ℕ → ℕ → String → ℕ → ℕ → Result Failure (Payment × Bool) × Db
  create_payment db booking_id amount_minor currency now payment_id =
      let p = new_payment payment_id booking_id amount_minor currency now in
      ensure_charge (open_payment (payment_violation p db) db p) amount_minor currency now

-- The command that a payment which succeeded leaves.
abbrev pub confirm_command : ℕ → Payment → OutboxMessage
confirm_command message_id p = record {
  id = message_id;
  topic = confirm_booking;
  payment_id = p.id;
  booking_id = some p.booking_id;
  published_at = none;
  attempts = 0;
  last_error = none;
}

abbrev pub with_status : PaymentStatus → ℕ → Payment → Payment
with_status target now p = record p { status = target; updated_at = now }

abbrev pub apply_event : Payment → PaymentStatus → ℕ → ℕ → Db → Db
apply_event p target now message_id db = record db {
  payments = update_where (has_id p.id) (with_status target now) db.payments;
  outbox =
      if status_eq target succeeded then confirm_command message_id p ∷ db.outbox else db.outbox;
}

-- The rest of `handle_webhook` once the event is recorded.
abbrev pub settle_event : Option Payment → PaymentStatus → ℕ → ℕ → Db → WebhookOutcome × Db
settle_event none target now message_id db = (ignored, db)
settle_event (some p) target now message_id db =
    if can_transition p.status target
    then (processed, apply_event p target now message_id db)
    else (ignored, db)

abbrev pub record_event : String → String → Db → Db
record_event event_id event_type db = record db {
  events = record { event_id = event_id; event_type = event_type } ∷ db.events;
}

abbrev pub is_event : String → ProviderEvent → Bool
is_event event_id e = str_eq e.event_id event_id

-- `uuid.UUID(reference)` is of Python's library: `none` where it raises `ValueError`.
module _ (parse_uuid : String → Option ℕ) where
  unfoldable pub find_payment : Db → String → Option Payment
  find_payment db reference = elim (parse_uuid reference) [
    | none ↦ none
    | some payment_id ↦ get_payment_row payment_id db
  ]

  unfoldable pub handle_webhook : Db → String → String → String → ℕ → ℕ → WebhookOutcome × Db
  handle_webhook db event_id event_type reference now message_id = elim (target_status event_type) [
    | none ↦ (ignored, db)
    | some target ↦
        if any_of (is_event event_id) db.events
        then (duplicate, db)
        else settle_event (find_payment (record_event event_id event_type db) reference) target now
            message_id (record_event event_id event_type db)
  ]
