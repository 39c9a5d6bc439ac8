-- ===== src/Payments/Models.antt =====
-- services/payments/src/payments/models.py: the tables. `ck_payments_status` is the type of the
-- column; `received_at` and `created_at` of the messages are never read and left out.
use slot.Prelude.{
  ℕ, String, Bool, Option, none, some, List, [], ◌==◌, any_of, find_by, if◌then◌else◌,
}
use slot.Payments.Domain.{PaymentStatus}

pub record Payment : Type 0 where
  pub id : ℕ
  pub booking_id : ℕ
  pub amount_minor : ℕ
  pub currency : String
  pub status : PaymentStatus
  pub provider_charge_id : Option String
  pub checkout_url : Option String
  pub needs_refund : Bool
  pub provider_refund_id : Option String
  pub refunded_at : Option ℕ
  pub created_at : ℕ
  pub updated_at : ℕ

pub record ProviderEvent : Type 0 where
  pub event_id : String
  pub event_type : String

-- The payload of a command: `booking_id` stands in that of `booking.confirm` alone.
pub record OutboxMessage : Type 0 where
  pub id : ℕ
  pub topic : String
  pub payment_id : ℕ
  pub booking_id : Option ℕ
  pub published_at : Option ℕ
  pub attempts : ℕ
  pub last_error : Option String

pub record Db : Type 0 where
  pub payments : List Payment
  pub events : List ProviderEvent
  pub outbox : List OutboxMessage

abbrev pub empty : Db
empty = record { payments = []; events = []; outbox = [] }

pub data Constraint : Type 0 where
  amount_positive primary_key one_payment_per_booking : Constraint

abbrev pub of_booking : ℕ → Payment → Bool
of_booking booking_id p = p.booking_id == booking_id

abbrev pub has_id : ℕ → Payment → Bool
has_id i p = p.id == i

-- The constraint that an INSERT of a payment violates, if any.
unfoldable pub payment_violation : Payment → Db → Option Constraint
payment_violation p db =
    if p.amount_minor == 0
    then some amount_positive
    else if any_of (has_id p.id) db.payments
    then some primary_key
    else if any_of (of_booking p.booking_id) db.payments
    then some one_payment_per_booking
    else none

abbrev pub get_payment_row : ℕ → Db → Option Payment
get_payment_row i db = find_by (has_id i) db.payments
