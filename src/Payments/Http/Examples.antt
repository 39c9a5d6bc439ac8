-- ===== src/Payments/Http/Examples.antt =====
-- The theorems about the routes of the payments service at concrete inputs.
use slot.Prelude.{
  Answer, response, ℕ, String, ◌≡◌, ◌≢◌, refl, true, false, Option, none, some, str_eq, eq_iff,
  if◌then◌else◌, ap,
}
use mathlib.Core.Bool.{false≢true}
use slot.Payments.Models.{Db, empty, payment_violation}
use slot.Payments.Clients.{Charge, paystub_answer}
use slot.Payments.Service.{create_payment}
use slot.Payments.Http.{
  uncaught, Library, PaymentCreate, create_payment_request, webhook_request, sign, verify_signature,
  serve,
}
use slot.Payments.Http.Requests.{serve_unsigned, refused}

abbrev lib : Library
lib = record {
  mac = λ secret body. "ab12";
  is_ascii = λ s. if str_eq s "é" then false else true;
  is_currency = λ s. str_eq s "RUB";
  is_printable = λ s. true;
  parse_event = λ s. none;
  parse_uuid = λ s. none;
}

abbrev charges : ℕ → ℕ → String → Answer Charge
charges i amount currency = response 201 (record { id = "ch-1"; checkout_url = "https://pay" })

abbrev alone : Db → Db
alone db = db

abbrev order : PaymentCreate
order = record { booking_id = 9; amount_minor = 1500; currency = "RUB" }

text_or_empty : Option String → String
text_or_empty none = ""
text_or_empty (some s) = s

forged : some "sha256=00" ≢ some (sign lib "{}" "secret")
unfolding sign text_or_empty
forged e = false≢true ((eq_iff "sha256=00" "sha256=ab12").1 (ap text_or_empty e))

serve_unsigned_example :
    serve lib "secret" charges alone empty (webhook_request "{}" (some "sha256=00")) 100 1 2
    ≡ (refused lib "secret" charges alone (some "sha256=00"), empty)
unfolding sign
serve_unsigned_example =
    serve_unsigned lib "secret" charges alone empty "{}" (some "sha256=00") 100 1 2 refl forged

-- A header beyond ASCII is an error of the server.
beyond_ascii :
    (serve lib "secret" charges alone empty (webhook_request "{}" (some "é")) 100 1 2).0 ≡ uncaught
unfolding serve verify_signature sign
beyond_ascii = refl

-- The second request for a booking finds its payment.
repeated :
    let first = serve lib "secret" charges alone empty (create_payment_request order) 100 1 2 in
    let second = serve lib "secret" charges alone first.1 (create_payment_request order) 130 3 4 in
    (first.0.status ≡ 201) × (second.0.status ≡ 200) × (second.0.body ≡ first.0.body)
unfolding serve create_payment payment_violation paystub_answer
repeated = (refl, refl, refl)
