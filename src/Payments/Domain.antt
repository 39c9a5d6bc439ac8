-- ===== src/Payments/Domain.antt =====
-- services/payments/src/payments/domain.py: payment rules with no database, HTTP or provider.
use slot.Prelude.{
  String, Bool, true, false, Option, none, some, List, [], ◌∷◌, str_eq, any_of, if◌then◌else◌,
}

pub data PaymentStatus : Type 0 where
  pending succeeded failed : PaymentStatus

abbrev pub status_eq : PaymentStatus → PaymentStatus → Bool
status_eq pending pending = true
status_eq succeeded succeeded = true
status_eq failed failed = true
status_eq _ _ = false

abbrev pub allowed_transitions : PaymentStatus → List PaymentStatus
allowed_transitions pending = succeeded ∷ failed ∷ []
allowed_transitions succeeded = []
allowed_transitions failed = []

-- `EVENT_TARGET_STATUS.get`
unfoldable pub target_status : String → Option PaymentStatus
target_status event_type =
    if str_eq event_type "charge.succeeded"
    then some succeeded
    else if str_eq event_type "charge.failed"
    then some failed
    else none

unfoldable pub can_transition : PaymentStatus → PaymentStatus → Bool
can_transition current target = any_of (status_eq target) (allowed_transitions current)

abbrev pub confirm_booking : String
confirm_booking = "booking.confirm"

abbrev pub refund_payment : String
refund_payment = "payment.refund"

-- The subclasses of `DomainError`, and the other errors that the service may raise.
pub data Failure : Type 0 where
  invalid_signature invalid_event payment_not_found payment_conflict : Failure
  provider_unavailable booking_unavailable booking_rejected : Failure
  integrity_error no_result_found key_error value_error : Failure
