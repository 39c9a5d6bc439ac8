-- ===== src/Payments/Clients.antt =====
-- services/payments/src/payments/paystub.py and booking_client.py: what an answer of a neighbour
-- over HTTP comes to. The HTTP library and the neighbours are not modelled: an exchange ends with
-- no answer, or with a status code and the fields that the client reads from the body.
use slot.Prelude.{Answer, no_response, response, String, ◌||◌, ◌==◌, if◌then◌else◌, Result, ok, err}
use slot.Payments.Domain.{Failure, provider_unavailable, booking_unavailable, booking_rejected}

pub record Charge : Type 0 where
  pub id : String
  pub checkout_url : String

pub record Refund : Type 0 where
  pub id : String
  pub status : String

-- `PayStubClient.create_charge` and `create_refund`: anything but 200 and 201 can be retried.
unfoldable pub paystub_answer : {A : Type 0} → Answer A → Result Failure A
paystub_answer no_response = err provider_unavailable
paystub_answer (response code body) =
    if code == 200 || code == 201 then ok body else err provider_unavailable

-- `BookingClient.confirm`
unfoldable pub confirm_answer : Answer (Unit {0}) → Result Failure (Unit {0})
confirm_answer no_response = err booking_unavailable
confirm_answer (response code body) =
    if code == 409
    then err booking_rejected
    else if code == 200
    then ok tt
    else err booking_unavailable
