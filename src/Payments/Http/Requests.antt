-- ===== src/Payments/Http/Requests.antt =====
-- What a request to the payments service can do to its database.
use slot.Prelude.{
  Answer, Response, ℕ, String, ◌≡◌, ◌≢◌, refl, inl, inr, Bool, true, Option, none, some, str_eq,
  eq_iff, if◌then◌else◌, Bool-cases, Result, ok, err, ap,
}
use slot.Payments.Domain.{Failure, invalid_signature}
use slot.Payments.Models.{Payment, Db}
use slot.Payments.Clients.{Charge, paystub_answer}
use slot.Payments.Service.{create_payment}
use slot.Payments.Invariant.{IsValid}
use slot.Payments.Webhooks.{handle_webhook-IsValid}
use slot.Payments.Checkout.{create_payment-IsValid}
use slot.Payments.Http.{
  failed, uncaught, Library, WebhookEvent, Page, Request, create_payment_request,
  get_payment_request, webhook_request, SignatureError, invalid, type_error, payment_created,
  is_valid_payment, read_event, sign, verify_signature, accept_event, webhook_page, serve,
}

payment_created-db : (r : Result Failure (Payment × Bool) × Db) → (payment_created r).1 ≡ r.1
payment_created-db (ok (p, created), db) = refl
payment_created-db (err e, db) = refl

module _ (lib : Library) (secret : String) (post : ℕ → ℕ → String → Answer Charge)
    (meanwhile : Db → Db) where
  accept_event-IsValid :
      (db : Db) (e : Option WebhookEvent) (now m : ℕ)
      → IsValid db
      → IsValid (accept_event lib db e now m).1
  accept_event-IsValid db none now m v = v
  accept_event-IsValid db (some e) now m v =
      handle_webhook-IsValid lib.parse_uuid db e.id e.type e.reference now m v

  webhook_page-IsValid :
      (r : Result SignatureError (Unit {0})) (db : Db) (body : String) (now m : ℕ)
      → IsValid db
      → IsValid (webhook_page lib r db body now m).1
  webhook_page-IsValid (err invalid) db body now m v = v
  webhook_page-IsValid (err type_error) db body now m v = v
  webhook_page-IsValid (ok u) db body now m v =
      accept_event-IsValid db (read_event lib body) now m v

  -- Every request keeps the invariant of the payments, whatever the provider answers, where the
  -- transactions that commit while it is asked keep it: one payment per booking, one row per
  -- provider event, and the command to confirm its booking for each payment that succeeded.
  pub serve-IsValid :
      (db : Db) (r : Request) (now new_id message_id : ℕ)
      → ((d : Db) → IsValid d → IsValid (meanwhile d))
      → IsValid db
      → IsValid (serve lib secret post meanwhile db r now new_id message_id).1
  unfolding serve
  serve-IsValid db (create_payment_request body) now i m others v =
      elim (Bool-cases (is_valid_payment lib body)) [
        | inr bad ↦ rw (bad, serve) v
        | inl good ↦
            let charge =
              λ (k amount : ℕ) (currency : String). paystub_answer (post k amount currency) in
            rw (good, serve)
              (rw
                (payment_created-db (
                  create_payment charge meanwhile db body.booking_id body.amount_minor body.currency
                    now i))
                (create_payment-IsValid charge meanwhile db body.booking_id body.amount_minor
                  body.currency now i others v))
      ]
  serve-IsValid db (get_payment_request i) now n m others v = v
  serve-IsValid db (webhook_request body header) now n m others v =
      webhook_page-IsValid (verify_signature lib body header secret) db body now m v

  abbrev pub refused : Option String → Response Page
  refused none = failed invalid_signature
  refused (some header) = if lib.is_ascii header then failed invalid_signature else uncaught

  -- A webhook with no signature, or with another than that of its body, changes nothing, and is
  -- answered with 401 if the header is missing or ASCII and with an error of the server if it is not.
  pub serve_unsigned :
      (db : Db) (body : String) (header : Option String) (now new_id message_id : ℕ)
      → lib.is_ascii (sign lib body secret) ≡ true
      → header ≢ some (sign lib body secret)
      → serve lib secret post meanwhile db (webhook_request body header) now new_id message_id
        ≡ (refused header, db)
  unfolding serve verify_signature
  serve_unsigned db body none now n m plain other = refl
  serve_unsigned db body (some h) now n m plain other =
      elim (Bool-cases (str_eq h (sign lib body secret))) [
        | inl same ↦ absurd (other (ap some ((eq_iff h (sign lib body secret)).0 same)))
        | inr differs ↦ elim (Bool-cases (lib.is_ascii h)) [
          | inl ascii ↦ rw (plain, differs, ascii) refl
          | inr beyond ↦ rw beyond refl
        ]
      ]
