-- ===== src/Booking/Http.antt =====
-- services/booking/src/booking/app.py, payments_client.py and schemas.py: the routes over the use
-- cases. FastAPI calls the dependencies of a route (who is calling) before it checks the body and
-- the parameters, and its parsers are not modelled: a body is what they have read, and `422` stands
-- for what they refuse.
pub mod Failures
pub mod Statuses
pub mod Ownership
pub mod Prices
pub mod Edge
mod Examples
use slot.Prelude.{
  Answer, Response, no_response, response, ℕ, String, Bool, true, false, not, ◌&&◌, ◌||◌, Option,
  none, some, List, [], ◌∷◌, map, leb, ltb, ◌==◌, str_eq, text_length, if◌then◌else◌, Result, ok,
  err, ◌>>=◌, ◌>>◌,
}
use slot.Booking.Domain.{
  DateTime, is_naive, confirmed, BookingStatus, DomainError, invalid_slot, slot_in_past,
  slot_already_booked, invalid_transition, slot_not_found, booking_not_found, booking_not_payable,
  payments_unavailable, payment_conflict, missing_token, invalid_token, expired_token, forbidden,
  Failure, domain, integrity_error, no_result_found,
}
use slot.Booking.Models.{Slot, Booking, Db}
use slot.Booking.Auth.{Role, client, master, Identity, ensure_role}
use slot.Booking.Tokens.{Stdlib, TokenError, type_error, max_external_id_length, verify_token}
use slot.Booking.Service.Queries.{
  get_owned_booking, get_payable_booking, list_slots, list_my_bookings,
}
use slot.Booking.Service.Commands.{create_slot, book_slot, change_status, cancel_booking}

-- `_ERROR_STATUS` and `error_status`: the three token errors are subclasses of `AuthError`.
unfoldable pub error_status : DomainError → ℕ
error_status slot_not_found = 404
error_status booking_not_found = 404
error_status invalid_slot = 422
error_status payments_unavailable = 503
error_status missing_token = 401
error_status invalid_token = 401
error_status expired_token = 401
error_status forbidden = 403
error_status slot_in_past = 409
error_status slot_already_booked = 409
error_status invalid_transition = 409
error_status booking_not_payable = 409
error_status payment_conflict = 409

-- The `code` of each class.
abbrev pub error_code : DomainError → String
error_code invalid_slot = "invalid_slot"
error_code slot_in_past = "slot_in_past"
error_code slot_already_booked = "slot_already_booked"
error_code invalid_transition = "invalid_transition"
error_code slot_not_found = "slot_not_found"
error_code booking_not_found = "booking_not_found"
error_code booking_not_payable = "booking_not_payable"
error_code payments_unavailable = "payments_unavailable"
error_code payment_conflict = "payment_conflict"
error_code missing_token = "unauthorized"
error_code invalid_token = "invalid_token"
error_code expired_token = "token_expired"
error_code forbidden = "forbidden"

-- What a handler raises: an error with a page, a refusal of the framework, or anything else, which
-- ends as a 500.
pub data Raised : Type 0 where
  refused : DomainError → Raised
  invalid_request : Raised
  uncaught : Raised

abbrev pub raised : Failure → Raised
raised (domain e) = refused e
raised integrity_error = uncaught
raised no_result_found = uncaught

abbrev pub token_raised : TokenError → Raised
token_raised TokenError.invalid_token = refused invalid_token
token_raised TokenError.expired_token = refused expired_token
token_raised type_error = uncaught

abbrev pub failed : {A : Type 0} → Raised → Response A
failed (refused e) = record { status = error_status e; body = none; error = some (error_code e) }
failed invalid_request = record { status = 422; body = none; error = some "invalid_request" }
failed uncaught = record { status = 500; body = none; error = none }

-- `status` is that of a success.
abbrev pub respond : {A : Type 0} → ℕ → Result Raised A → Response A
respond status (ok a) = record { status = status; body = some a; error = none }
respond status (err e) = failed e

pub record Env : Type 0 where
  pub auth_secret : String
  pub pending_ttl : ℕ

-- `create_app` refuses a caller with no token in its own error shape.
module _ (lib : Stdlib) (env : Env) where
  unfoldable pub caller : Option String → ℕ → Result Raised Identity
  caller none now = err (refused missing_token)
  caller (some token) now = elim (verify_token lib token env.auth_secret now) [
    | err e ↦ err (token_raised e)
    | ok identity ↦ ok identity
  ]

  -- `a_client` and `a_master`
  unfoldable pub a_caller : Role → Option String → ℕ → Result Raised Identity
  a_caller role token now = elim (caller token now) [
    | err e ↦ err e
    | ok identity ↦ elim (ensure_role identity role) [ err e ↦ err (raised e) | ok _ ↦ ok identity ]
  ]

  -- `ExternalId`
  abbrev pub is_external_id : String → Bool
  is_external_id s =
      leb 1 (text_length s) && leb (text_length s) max_external_id_length && lib.is_identifier s

abbrev pub max_amount_minor : ℕ
max_amount_minor = 1000000000

-- `SlotCreate`; a price below zero is refused like zero.
pub record SlotCreate : Type 0 where
  pub starts_at : DateTime
  pub ends_at : DateTime
  pub price_minor : ℕ

abbrev pub is_valid_body : SlotCreate → Bool
is_valid_body body =
    not (is_naive body.starts_at)
    && not (is_naive body.ends_at)
    && ltb 0 body.price_minor
    && leb body.price_minor max_amount_minor

pub record SlotOut : Type 0 where
  pub id : ℕ
  pub master_id : String
  pub starts_at : ℕ
  pub ends_at : ℕ
  pub price_minor : ℕ
  pub available : Bool

abbrev pub slot_out : Bool → Slot → SlotOut
slot_out available s = record {
  id = s.id;
  master_id = s.master_id;
  starts_at = s.starts_at;
  ends_at = s.ends_at;
  price_minor = s.price_minor;
  available = available;
}

pub record MyBookingOut : Type 0 where
  pub id : ℕ
  pub slot_id : ℕ
  pub client_id : String
  pub master_id : String
  pub status : BookingStatus
  pub starts_at : ℕ
  pub ends_at : ℕ
  pub price_minor : ℕ
  pub created_at : ℕ
  pub updated_at : ℕ

abbrev pub my_booking_out : Booking × Slot → MyBookingOut
my_booking_out (b, s) = record {
  id = b.id;
  slot_id = s.id;
  client_id = b.client_id;
  master_id = s.master_id;
  status = b.status;
  starts_at = s.starts_at;
  ends_at = s.ends_at;
  price_minor = s.price_minor;
  created_at = b.created_at;
  updated_at = b.updated_at;
}

-- What the payments service answers, and `PaymentOut` of it.
pub record Payment : Type 0 where
  pub id : ℕ
  pub status : String
  pub checkout_url : Option String

-- `PaymentsClient.create_payment`
unfoldable pub payment_answer : Answer Payment → Result Failure Payment
payment_answer no_response = err (domain payments_unavailable)
payment_answer (response code body) =
    if code == 409
    then err (domain payment_conflict)
    else if not (code == 200 || code == 201)
    then err (domain payments_unavailable)
    else ok body

abbrev pub payment_currency : String
payment_currency = "RUB"

-- The body of each page. `BookingOut` has the fields of the row.
pub data Page : Type 0 where
  slot_page : SlotOut → Page
  slots_page : List SlotOut → Page
  booking_page : Booking → Page
  bookings_page : List MyBookingOut → Page
  payment_page : Payment → Page

pub data Request : Type 0 where
  create_slot_request : SlotCreate → Request
  list_slots_request : String → Option ℕ → Request
  create_booking_request : ℕ → Request
  list_my_bookings_request : Request
  pay_request get_booking_request cancel_request confirm_request : ℕ → Request

abbrev pub slot_created : Result Failure Slot × Db → Response Page × Db
slot_created (ok s, db) = (respond 201 (ok (slot_page (slot_out true s))), db)
slot_created (err e, db) = (failed (raised e), db)

abbrev pub booking_written : ℕ → Result Failure Booking × Db → Response Page × Db
booking_written status (ok b, db) = (respond status (ok (booking_page b)), db)
booking_written status (err e, db) = (failed (raised e), db)

-- A handler behind a dependency.
abbrev pub with_caller :
    Db → Result Raised Identity → (Identity → Response Page × Db) → Response Page × Db
with_caller db (err e) handler = (failed e, db)
with_caller db (ok identity) handler = handler identity

abbrev pub owned_page : Result Failure (Booking × Slot) → Response Page
owned_page (err e) = failed (raised e)
owned_page (ok (b, s)) = respond 200 (ok (booking_page b))

-- `PaymentOut`, or what the client of the payments service raised.
abbrev pub charged_page : Result Failure Payment → Response Page
charged_page (ok p) = respond 200 (ok (payment_page p))
charged_page (err e) = failed (raised e)

-- `post` is the call of the payments service: the booking, the amount and the currency.
abbrev pub pay_page :
    (ℕ → ℕ → String → Answer Payment) → ℕ → Result Failure (Booking × Slot) → Response Page
pay_page post booking_id (err e) = failed (raised e)
pay_page post booking_id (ok (b, s)) =
    charged_page (payment_answer (post booking_id s.price_minor payment_currency))

-- The route that publishes a slot, once a master is calling.
abbrev pub publish : Db → SlotCreate → ℕ → ℕ → Identity → Response Page × Db
publish db body now new_id identity =
    if is_valid_body body
    then slot_created
        (create_slot db identity.subject body.starts_at body.ends_at body.price_minor now new_id)
    else (failed invalid_request, db)

module _ (lib : Stdlib) (env : Env) (post : ℕ → ℕ → String → Answer Payment) where
  -- The routes; `new_id` and `message_ids` are the values that `uuid7` returns in the handler.
  unfoldable pub serve : Db → Db → Option String → Request → ℕ → ℕ → (ℕ → ℕ) → Response Page × Db
  serve seen db token (create_slot_request body) now new_id message_ids =
      with_caller db (a_caller lib env master token now) (publish db body now new_id)
  serve seen db token (list_slots_request master_id day) now new_id message_ids =
      if is_external_id lib env master_id
      then (
        respond 200 (
            ok (
              slots_page (
                map (λ (r : Slot × Bool). slot_out r.1 r.0)
                  (list_slots seen master_id day now env.pending_ttl)))),
        db,
      )
      else (failed invalid_request, db)
  serve seen db token (create_booking_request slot_id) now new_id message_ids =
      with_caller db (a_caller lib env client token now) λ identity.
        booking_written 201
          (book_slot seen db slot_id identity.subject now env.pending_ttl new_id message_ids)
  serve seen db token list_my_bookings_request now new_id message_ids =
      with_caller db (caller lib env token now) λ identity.
        (respond 200 (ok (bookings_page (map my_booking_out (list_my_bookings seen identity)))), db)
  serve seen db token (pay_request booking_id) now new_id message_ids =
      with_caller db (a_caller lib env client token now) λ identity. (
        pay_page post booking_id (get_payable_booking seen booking_id identity now env.pending_ttl),
        db,
      )
  serve seen db token (get_booking_request booking_id) now new_id message_ids =
      with_caller db (caller lib env token now)
        λ identity. (owned_page (get_owned_booking seen booking_id identity), db)
  serve seen db token (cancel_request booking_id) now new_id message_ids =
      with_caller db (caller lib env token now) λ identity.
        booking_written 200 (cancel_booking seen db booking_id identity now (message_ids 0))
  serve seen db token (confirm_request booking_id) now new_id message_ids =
      booking_written 200 (change_status seen db booking_id confirmed now (message_ids 0))
