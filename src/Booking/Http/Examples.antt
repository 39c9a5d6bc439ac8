-- ===== src/Booking/Http/Examples.antt =====
-- The theorems about the routes at concrete inputs: two tokens, and the slot of "anna".
use slot.Prelude.{Answer, no_response, ℕ, String, true, some, [], ◌∷◌, str_eq, if◌then◌else◌, arith}
use slot.Booking.Domain.{aware}
use slot.Booking.Models.{Slot, Db}
use slot.Booking.Auth.{client, Identity}
use slot.Booking.Tokens.{integer, text, object, Stdlib}
use slot.Booking.Service.Commands.{new_booking}
use slot.Booking.Http.{Env, SlotCreate, Payment, create_slot_request, pay_request, serve}
use slot.Booking.Http.Statuses.{Documented, documented, serve-Documented}
use slot.Booking.Http.Prices.{IsPriced, serve-IsPriced}

-- The tokens of "eve" and "anna".
abbrev lib : Stdlib
lib = record {
  split = λ token. "v1" ∷ token ∷ "m" ∷ [];
  mac = λ secret message. "m";
  decode = λ payload. some (
      object (
        ("sub", text payload)
        ∷ ("role", text (if str_eq payload "eve" then "client" else "master"))
        ∷ ("exp", integer 9000)
        ∷ []));
  encode = λ claims. "eve";
  is_identifier = λ s. true;
  is_ascii = λ s. true;
}

abbrev env : Env
env = record { auth_secret = "secret"; pending_ttl = 900 }

abbrev offline : ℕ → ℕ → String → Answer Payment
offline booking_id amount currency = no_response

abbrev eve : Identity
eve = record { subject = "eve"; role = client }

abbrev hour : Slot
hour = record { id = 7; master_id = "anna"; starts_at = 5000; ends_at = 6000; price_minor = 1500 }

-- The booking of "bob".
abbrev shop : Db
shop = record { slots = hour ∷ []; bookings = new_booking 1 7 "bob" 100 ∷ []; outbox = [] }

abbrev ids : ℕ → ℕ
ids k = k

abbrev offer : SlotCreate
offer = record { starts_at = aware 7000; ends_at = aware 8000; price_minor = 2000 }

serve-Documented_example :
    Documented
      (documented (pay_request 1))
      (serve lib env offline shop shop (some "eve") (pay_request 1) 200 2 ids).0
serve-Documented_example =
    serve-Documented lib env offline shop shop (some "eve") (pay_request 1) 200 2 ids

serve-IsPriced_example :
    IsPriced (serve lib env offline shop shop (some "anna") (create_slot_request offer) 200 8 ids).1
unfolding IsPriced
serve-IsPriced_example =
    serve-IsPriced lib env offline shop shop (some "anna") (create_slot_request offer) 200 8 ids
      ((omega arith, omega arith), tt)
