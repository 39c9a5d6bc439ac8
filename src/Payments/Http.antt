-- ===== src/Payments/Http.antt =====
-- services/payments/src/payments/app.py, schemas.py and the signature of domain.py: the routes over
-- the use cases. A body is what FastAPI has parsed, except that of a webhook, whose bytes are signed
-- and which is parsed in the route; bytes are a text here.
pub mod Requests
pub mod Edge
mod Examples
use Prim.Native.String.{◌++◌}
use slot.Prelude.{
  Answer, Response, ℕ, String, Bool, true, false, ◌&&◌, Option, none, some, leb, ltb, str_eq,
  text_length, if◌then◌else◌, Result, ok, err,
}
use slot.Payments.Domain.{
  PaymentStatus, Failure, invalid_signature, invalid_event, payment_not_found, payment_conflict,
  provider_unavailable, booking_unavailable, booking_rejected, integrity_error, no_result_found,
  key_error, value_error,
}
use slot.Payments.Models.{Payment, Db}
use slot.Payments.Clients.{Charge, paystub_answer}
use slot.Payments.Service.{WebhookOutcome, get_payment, create_payment, handle_webhook}

-- `_ERROR_STATUS`; an error that is no `DomainError` ends as a 500.
unfoldable pub error_status : Failure → ℕ
error_status invalid_signature = 401
error_status invalid_event = 422
error_status payment_not_found = 404
error_status provider_unavailable = 503
error_status payment_conflict = 409
error_status booking_unavailable = 409
error_status booking_rejected = 409
error_status integrity_error = 500
error_status no_result_found = 500
error_status key_error = 500
error_status value_error = 500

-- The `code` of each class.
abbrev pub error_code : Failure → Option String
error_code invalid_signature = some "invalid_signature"
error_code invalid_event = some "invalid_event"
error_code payment_not_found = some "payment_not_found"
error_code provider_unavailable = some "provider_unavailable"
error_code payment_conflict = some "payment_conflict"
error_code booking_unavailable = some "booking_unavailable"
error_code booking_rejected = some "booking_rejected"
error_code integrity_error = none
error_code no_result_found = none
error_code key_error = none
error_code value_error = none

abbrev pub failed : {A : Type 0} → Failure → Response A
failed e = record { status = error_status e; body = none; error = error_code e }

abbrev pub answered : {A : Type 0} → ℕ → A → Response A
answered status a = record { status = status; body = some a; error = none }

abbrev pub invalid_request : {A : Type 0} → Response A
invalid_request = record { status = 422; body = none; error = some "invalid_request" }

-- The page of an error that no handler catches.
abbrev pub uncaught : {A : Type 0} → Response A
uncaught = record { status = 500; body = none; error = none }

abbrev pub max_amount_minor : ℕ
max_amount_minor = 1000000000

-- `PaymentCreate`; an amount below zero is refused like zero.
pub record PaymentCreate : Type 0 where
  pub booking_id : ℕ
  pub amount_minor : ℕ
  pub currency : String

pub record PaymentOut : Type 0 where
  pub id : ℕ
  pub booking_id : ℕ
  pub amount_minor : ℕ
  pub currency : String
  pub status : PaymentStatus
  pub checkout_url : Option String
  pub needs_refund : Bool

abbrev pub payment_out : Payment → PaymentOut
payment_out p = record {
  id = p.id;
  booking_id = p.booking_id;
  amount_minor = p.amount_minor;
  currency = p.currency;
  status = p.status;
  checkout_url = p.checkout_url;
  needs_refund = p.needs_refund;
}

-- `WebhookEvent`, with the reference of its data.
pub record WebhookEvent : Type 0 where
  pub id : String
  pub type : String
  pub reference : String

-- What the service asks of libraries: the hexadecimal HMAC of a text under a secret, whether a text
-- is ASCII, the two patterns of the schemas, the reading of an event from JSON where its fields have
-- their types, and `uuid.UUID` of a reference.
pub record Library : Type 0 where
  pub mac : String → String → String
  pub is_ascii : String → Bool
  pub is_currency : String → Bool
  pub is_printable : String → Bool
  pub parse_event : String → Option WebhookEvent
  pub parse_uuid : String → Option ℕ

pub data Page : Type 0 where
  payment_page : PaymentOut → Page
  outcome_page : WebhookOutcome → Page

pub data Request : Type 0 where
  create_payment_request : PaymentCreate → Request
  get_payment_request : ℕ → Request
  -- the body, and the header if there is one
  webhook_request : String → Option String → Request

-- How `verify_signature` fails: `compare_digest` takes texts of ASCII characters alone.
pub data SignatureError : Type 0 where
  invalid type_error : SignatureError

abbrev pub signature_prefix : String
signature_prefix = "sha256="

abbrev pub payment_created : Result Failure (Payment × Bool) × Db → Response Page × Db
payment_created (ok (p, created), db) =
    (answered (if created then 201 else 200) (payment_page (payment_out p)), db)
payment_created (err e, db) = (failed e, db)

abbrev pub payment_read : Result Failure Payment → Response Page
payment_read (ok p) = answered 200 (payment_page (payment_out p))
payment_read (err e) = failed e

abbrev pub webhook_done : WebhookOutcome × Db → Response Page × Db
webhook_done (outcome, db) = (answered 200 (outcome_page outcome), db)

module _ (lib : Library) where
  open lib use {mac, is_ascii, is_currency, is_printable, parse_event, parse_uuid}

  abbrev pub is_valid_payment : PaymentCreate → Bool
  is_valid_payment body =
      ltb 0 body.amount_minor && leb body.amount_minor max_amount_minor && is_currency body.currency

  -- The constraints on `id` and `type`.
  abbrev pub is_stored_text : String → Bool
  is_stored_text s = leb 1 (text_length s) && leb (text_length s) 64 && is_printable s

  -- `WebhookEvent.model_validate_json`
  abbrev pub read_event : String → Option WebhookEvent
  read_event body = elim (parse_event body) [
    | none ↦ none
    | some e ↦ if is_stored_text e.id && is_stored_text e.type then some e else none
  ]

  unfoldable pub sign : String → String → String
  sign body secret = signature_prefix ++ mac secret body

  unfoldable pub verify_signature :
      String → Option String → String → Result SignatureError (Unit {0})
  verify_signature body none secret = err invalid
  verify_signature body (some header) secret =
      if is_ascii header && is_ascii (sign body secret)
      then if str_eq header (sign body secret) then ok tt else err invalid
      else err type_error

  -- The route of the webhook once the signature is verified.
  abbrev pub accept_event : Db → Option WebhookEvent → ℕ → ℕ → Response Page × Db
  accept_event db none now message_id = (failed invalid_event, db)
  accept_event db (some e) now message_id =
      webhook_done (handle_webhook parse_uuid db e.id e.type e.reference now message_id)

  abbrev pub webhook_page :
      Result SignatureError (Unit {0}) → Db → String → ℕ → ℕ → Response Page × Db
  webhook_page (err invalid) db body now message_id = (failed invalid_signature, db)
  webhook_page (err type_error) db body now message_id = (uncaught, db)
  webhook_page (ok _) db body now message_id = accept_event db (read_event body) now message_id

  -- The routes: `post` is the call of the provider with the payment, the amount and the currency,
  -- `meanwhile` what other transactions commit during it, `new_id` and `message_id` the values that
  -- `uuid7` returns.
  module _ (webhook_secret : String) (post : ℕ → ℕ → String → Answer Charge)
      (meanwhile : Db → Db) where
    unfoldable pub serve : Db → Request → ℕ → ℕ → ℕ → Response Page × Db
    serve db (create_payment_request body) now new_id message_id =
        if is_valid_payment body
        then payment_created (
            create_payment (λ i amount currency. paystub_answer (post i amount currency)) meanwhile
              db body.booking_id body.amount_minor body.currency now new_id)
        else (invalid_request, db)
    serve db (get_payment_request payment_id) now new_id message_id =
        (payment_read (get_payment db payment_id), db)
    serve db (webhook_request body header) now new_id message_id =
        webhook_page (verify_signature body header webhook_secret) db body now message_id
