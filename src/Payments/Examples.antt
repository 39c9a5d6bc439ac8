-- ===== src/Payments/Examples.antt =====
-- The payment theorems at concrete inputs, and runs of the service.
use slot.Payments.Lifecycle.{KeepsPayments}
use slot.Payments.System.{
  opened, Step, opens, hears, here, next, IsSound, Reach-IsSound, Step-KeepsPayments,
}
use slot.Prelude.{
  no_response, response, ℕ, String, ◌≡◌, refl, Bool, false, Option, none, some, [], ◌∷◌, Result, ok,
  if◌then◌else◌, ◌==◌, ◌+◌, str_eq, find_by,
}
use slot.Payments.Domain.{succeeded, Failure, booking_unavailable, target_status, can_transition}
use slot.Payments.Clients.{Charge, confirm_answer}
use slot.Payments.Models.{Payment, Db, empty, payment_violation, get_payment_row, of_booking}
use slot.Payments.Service.{
  processed, duplicate, create_payment, find_payment, handle_webhook, confirm_command, new_payment,
}
use slot.Payments.Webhooks.{handle_webhook_once}
use slot.Payments.Relay.{
  Neighbours, pending_commands, process_pending, deliver, confirm_delivery, after_confirm,
  record_failure,
}
use slot.Payments.Relay.Interrupted.{process_pending_interrupted}

-- The provider takes every charge, and a reference to the first payment is the text "one".
abbrev charges : ℕ → ℕ → String → Result Failure Charge
charges i amount currency = ok (record { id = "ch-1"; checkout_url = "https://pay" })

abbrev alone : Db → Db
alone db = db

abbrev parse_reference : String → Option ℕ
parse_reference s = if str_eq s "one" then some 1 else none

abbrev charged : Db
charged = (create_payment charges alone empty 9 1500 "EUR" 100 1).1

abbrev the_payment : Payment
the_payment = record (new_payment 1 9 1500 "EUR" 100) {
  provider_charge_id = some "ch-1";
  checkout_url = some "https://pay";
}

abbrev paid : Db
paid = (handle_webhook parse_reference charged "evt-1" "charge.succeeded" "one" 200 50).1

abbrev paid_payment : Payment
paid_payment = record the_payment { status = succeeded; updated_at = 200 }

charged_row : get_payment_row 1 charged ≡ some the_payment
unfolding create_payment payment_violation
charged_row = refl

charged_for_booking : find_by (of_booking 9) charged.payments ≡ some the_payment
unfolding create_payment payment_violation
charged_for_booking = refl

paid_outcome :
    (handle_webhook parse_reference charged "evt-1" "charge.succeeded" "one" 200 50).0 ≡ processed
unfolding create_payment payment_violation handle_webhook find_payment target_status can_transition
paid_outcome = refl

repeated_outcome :
    (handle_webhook parse_reference paid "evt-1" "charge.succeeded" "one" 300 51).0 ≡ duplicate
unfolding create_payment payment_violation handle_webhook find_payment target_status can_transition
repeated_outcome = refl

paid_row : get_payment_row 1 paid ≡ some paid_payment
unfolding create_payment payment_violation handle_webhook find_payment target_status can_transition
paid_row = refl

handle_webhook_once_example :
    (handle_webhook parse_reference paid "evt-1" "charge.succeeded" "one" 300 51).1 ≡ paid
handle_webhook_once_example =
    handle_webhook_once parse_reference "evt-1" "charge.succeeded" "one" 200 300 50 51 charged

-- Two commands wait; the booking service takes the first confirmation and is then down.
abbrev busy : Db
busy = record empty {
  outbox =
      confirm_command 6 (new_payment 2 10 700 "EUR" 80)
      ∷ confirm_command 5 (new_payment 1 9 1500 "EUR" 80)
      ∷ [];
}

abbrev neighbours : Neighbours ℕ
neighbours = record {
  confirm =
      λ calls booking_id. if calls == 0 then (response 200 tt, 1) else (no_response, calls + 1);
  refund = λ calls i charge_id amount. (no_response, calls + 1);
  message_of = λ e. "error";
}

abbrev free : ℕ → Bool
free i = false

abbrev refund_ids : ℕ → ℕ
refund_ids i = i + 100

process_pending_interrupted_example :
    process_pending neighbours free 100 300 refund_ids 0 busy
    ≡ (1, record_failure 6 "error" busy, 2)
unfolding pending_commands deliver confirm_delivery after_confirm confirm_answer
process_pending_interrupted_example =
    process_pending_interrupted neighbours 300 refund_ids free 100 0 1 busy _
      (confirm_command 5 (new_payment 1 9 1500 "EUR" 80) ∷ [])
      (confirm_command 6 (new_payment 2 10 700 "EUR" 80)) [] booking_unavailable refl
      (busy, refl, (refl, refl)) refl

-- A payment is opened and then paid, with the relay at rest.
abbrev one_open : Db
one_open = (opened empty (new_payment 1 9 1500 "EUR" 100)).1

abbrev one_paid : Db
one_paid = (handle_webhook parse_reference one_open "evt-1" "charge.succeeded" "one" 200 50).1

payment_opens : Step parse_reference neighbours empty 0 one_open 0
payment_opens = opens 1 9 1500 "EUR" 100 refl refl

payment_succeeds : Step parse_reference neighbours one_open 0 one_paid 0
payment_succeeds = hears "evt-1" "charge.succeeded" "one" 200 50 refl refl

Reach-IsSound_example : IsSound one_paid
Reach-IsSound_example =
    Reach-IsSound parse_reference neighbours 0 (next (next here payment_opens) payment_succeeds)

Step-KeepsPayments_example : KeepsPayments one_open.payments one_paid.payments
Step-KeepsPayments_example =
    Step-KeepsPayments parse_reference neighbours one_open one_paid 0 0 payment_succeeds
