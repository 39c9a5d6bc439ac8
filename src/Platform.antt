-- ===== src/Platform.antt =====
-- The payments relay with the booking service as its neighbour: services/payments/src/payments
-- (relay.py, booking_client.py) calls the route of services/booking/src/booking/app.py that confirms
-- a booking. What the two exchange over HTTP is the status code. Announced has the notifier instead,
-- which reads the events of the booking service from the stream.
pub mod Confirmed
pub mod Deliveries
pub mod Honoured
pub mod Race
pub mod Announced
mod Examples
use slot.Prelude.{Answer, response, ℕ, String, Option, none}
use slot.Booking.Models.{Db}
use slot.Booking.Tokens.{Stdlib}
use slot.Booking.Http.{Env, Payment, confirm_request, serve}
use slot.Payments.Domain.{Failure}
use slot.Payments.Clients.{Refund}
use slot.Payments.Relay.{Neighbours}

module _ (lib : Stdlib) (env : Env) (post : ℕ → ℕ → String → Answer Payment) (now : ℕ)
    (message_ids : ℕ → ℕ) where
  -- One call of `/internal/bookings/{booking_id}/confirm`, from what its reads have seen.
  unfoldable pub confirm_call : Db → Db → ℕ → Answer (Unit {0}) × Db
  confirm_call seen db booking_id =
      let (answer, db') =
        serve lib env post seen db none (confirm_request booking_id) now 0
          (λ k. message_ids booking_id) in
      (response answer.status tt, db')

  -- The neighbours of the relay: the booking service with its database, and a provider.
  abbrev pub platform : (Db → ℕ → String → ℕ → Answer Refund) → (Failure → String) → Neighbours Db
  platform provider message_of = record {
    confirm = λ db booking_id. confirm_call db db booking_id;
    refund = λ db payment_id charge_id amount. (provider db payment_id charge_id amount, db);
    message_of = message_of;
  }
