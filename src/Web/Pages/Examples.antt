-- ===== src/Web/Pages/Examples.antt =====
-- The theorem about the pages at a concrete input, and the pages of a booking service that answers 200
-- with the text of a proxy in place of JSON.
use slot.Prelude.{response, String, ◌≡◌, refl, none, some, true, false}
use slot.Booking.Auth.{client}
use slot.Web.Forms.{Rounded, value_error}
use slot.Web.BookingClient.{call}
use slot.Web.Login.{Visitor}
use slot.Web.Pages.{Ask, Service, book, my_bookings, login_page, server_error, serve}
use slot.Web.Pages.Reading.{is_server_error, serve_refused}

abbrev bob : Visitor
bob = record { token = "v1.p.m"; name = "bob"; role = client }

abbrev garbled : Service String
garbled = record {
  answer = λ a. response 200 none;
  encodes = λ t. true;
  error_of = λ j. some j;
  bookings_of = λ j. none;
  slots_of = λ j. none;
  slot_of = λ j. none;
  id_of = λ j. some 1;
  status_of = λ j. some j;
  payment_of = λ j. none;
}

abbrev round : String → Rounded
round s = value_error

abbrev refusing : Service String
refusing = record garbled { answer = λ a. response 409 none }

serve_refused_example : is_server_error (serve refusing round (some bob) (book 7)) ≡ false
serve_refused_example =
    serve_refused refusing round bob (book 7) (Ask.ask_book "v1.p.m" 7) refl refl refl

traceback : serve garbled round (some bob) (book 7) ≡ server_error
unfolding serve call
traceback = refl

-- A session that has expired leads back to the login.
session_over :
    serve
      (record garbled { answer = λ a. response 401 (some "token_expired") })
      round
      (some bob)
      my_bookings
    ≡ login_page true
unfolding serve call
session_over = refl
