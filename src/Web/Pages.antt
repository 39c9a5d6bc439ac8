-- ===== src/Web/Pages.antt =====
-- services/web/src/web/app.py: the pages over the booking service. A page is the template with what
-- it shows; the templates are not modelled.
pub mod Reading
mod Examples
use slot.Prelude.{
  Answer, all_of, ◌||◌, ℕ, ◌+◌, ◌*◌, String, Bool, Option, none, some, List, [], ◌==◌, ltb, str_eq,
  if◌then◌else◌, Result, ok, err,
}
use slot.Booking.Domain.{DateTime}
use slot.Web.Forms.{
  InputError, overflow_error, Offset, Rounded, Sentence, end_of_time, microseconds_per_minute,
  to_utc, price_to_minor, explain,
}
use slot.Web.BookingClient.{ClientError, booking_error, value_error, call, read}
use slot.Web.Login.{Visitor}

-- The `price_minor` of an answer, which nobody checks: a number, or a value that the filter
-- `roubles` of the templates cannot divide.
pub data Price : Type 0 where
  minor_units : ℕ → Price
  no_amount : Price

abbrev pub is_amount : Price → Bool
is_amount (minor_units n) = Bool.true
is_amount no_amount = Bool.false

pub record Slot : Type 0 where
  pub id : ℕ
  pub master_id : String
  pub starts_at : ℕ
  pub ends_at : ℕ
  pub price_minor : Price
  pub available : Bool

pub record Booking : Type 0 where
  pub id : ℕ
  pub slot_id : ℕ
  pub client_id : String
  pub master_id : String
  pub status : String
  pub starts_at : ℕ
  pub ends_at : ℕ
  pub price_minor : Price

pub record Payment : Type 0 where
  pub payment_id : ℕ
  pub status : String
  pub checkout_url : Option String

-- What a problem page says: a sentence about a code, the text of a form's refusal, or that of a
-- `ValueError`.
pub data Message : Type 0 where
  sentence : Sentence → Message
  refused_input : InputError → Message
  error_text : Message

pub data Page : Type 0 where
  -- the login page, with whether it says that the session is over
  login_page : Bool → Page
  bookings_page : List Booking → Option Sentence → Page
  slots_page : List Slot → Option Sentence → Page
  booked_page : Page
  slot_row : Slot → Page
  -- with whether the row asks for itself again
  status_row : ℕ → String → Bool → Page
  problem : Message → Page
  redirect : String → Page
  -- an error that no handler catches
  server_error : Page

abbrev pub on_refusal : (String → ℕ → Page) → ClientError → Page
on_refusal show (booking_error code status) = show code status
on_refusal show value_error = server_error

abbrev pub as_problem : String → ℕ → Page
as_problem code status = problem (sentence (explain code))

abbrev pub bookings_shown : Result ClientError (List Booking) → Page
bookings_shown (ok bookings) =
    if all_of (λ (b : Booking). is_amount b.price_minor) bookings
    then bookings_page bookings none
    else server_error
bookings_shown (err e) =
    on_refusal
      (λ code status.
        if status == 401 then login_page Bool.true else bookings_page [] (some (explain code)))
      e

abbrev pub slots_shown : Result ClientError (List Slot) → Page
slots_shown (ok slots) =
    if all_of (λ (s : Slot). is_amount s.price_minor) slots
    then slots_page slots none
    else server_error
slots_shown (err e) = on_refusal (λ code status. slots_page [] (some (explain code))) e

abbrev pub booked_shown : Result ClientError ℕ → Page
booked_shown (ok id) = booked_page
booked_shown (err e) = on_refusal as_problem e

abbrev pub status_shown : ℕ → Result ClientError String → Page
status_shown booking_id (ok state) = status_row booking_id state (str_eq state "pending")
status_shown booking_id (err e) = on_refusal as_problem e

-- An empty address counts as none.
abbrev pub checkout : Option String → Page
checkout none = problem (sentence (explain "payments_unavailable"))
checkout (some url) =
    if str_eq url "" then problem (sentence (explain "payments_unavailable")) else redirect url

abbrev pub payment_shown : Result ClientError Payment → Page
payment_shown (ok p) = checkout p.checkout_url
payment_shown (err e) = on_refusal as_problem e

-- `publish_slot` catches a `ValueError` too, but not the `TypeError` of the filter.
abbrev pub slot_shown : Result ClientError Slot → Page
slot_shown (ok s) = if is_amount s.price_minor then slot_row s else server_error
slot_shown (err (booking_error code status)) = as_problem code status
slot_shown (err value_error) = problem error_text

abbrev pub input_problem : InputError → Page
input_problem overflow_error = server_error
input_problem e = problem (refused_input e)

-- What the form of a slot comes to, in the order of the source; a duration below zero is left out.
abbrev pub slot_times :
    Result InputError ℕ → ℕ → Result InputError ℕ → Result InputError (ℕ × ℕ × ℕ)
slot_times (err e) duration price = err e
slot_times (ok starts) duration price =
    if ltb (starts + duration * microseconds_per_minute) end_of_time
    then elim price [
      | err e ↦ err e
      | ok minor ↦ ok (starts, starts + duration * microseconds_per_minute, minor)
    ]
    else err overflow_error

pub data Request : Type 0 where
  my_bookings my_slots : Request
  master_slots : String → Request
  book booking_row cancel pay : ℕ → Request
  -- the time, or none if it is no ISO date, the minutes, the price and the offset
  publish_slot : Option DateTime → ℕ → String → Offset → Request

-- What the booking service is asked.
pub data Ask : Type 0 where
  ask_bookings : String → Ask
  ask_slots : String → Ask
  ask_book ask_status ask_cancel ask_pay : String → ℕ → Ask
  ask_publish : String → ℕ → ℕ → ℕ → Ask

-- The token that the client sends along.
abbrev pub token_of : Ask → Option String
token_of (ask_bookings token) = some token
token_of (ask_slots master_id) = none
token_of (ask_book token i) = some token
token_of (ask_status token i) = some token
token_of (ask_cancel token i) = some token
token_of (ask_pay token i) = some token
token_of (ask_publish token starts ends price) = some token

-- The readers of a JSON value, the booking service that answers, and whether the HTTP library can
-- write a token into a header.
pub record Service (Json : Type 0) : Type 0 where
  pub answer : Ask → Answer (Option Json)
  pub encodes : String → Bool
  pub error_of : Json → Option String
  pub bookings_of : Json → Option (List Booking)
  pub slots_of : Json → Option (List Slot)
  pub slot_of : Json → Option Slot
  pub id_of : Json → Option ℕ
  pub status_of : Json → Option String
  pub payment_of : Json → Option Payment

module _ {Json : Type 0} (service : Service Json) (round : String → Rounded) where
  open service use {
    answer, encodes, error_of, bookings_of, slots_of, slot_of, id_of, status_of, payment_of,
  }

  -- An empty token is not sent.
  abbrev pub sends : Option String → Bool
  sends none = Bool.true
  sends (some token) = str_eq token "" || encodes token

  abbrev pub ask : {A : Type 0} → (Json → Option A) → Ask → Result ClientError A
  ask build a = read error_of build (call error_of (sends (token_of a)) (answer a))

  abbrev pub published : String → Result InputError (ℕ × ℕ × ℕ) → Page
  published token (err e) = input_problem e
  published token (ok (starts, ends, price)) =
      slot_shown (ask slot_of (ask_publish token starts ends price))

  abbrev pub publish_page : String → Option DateTime → ℕ → String → Offset → Page
  publish_page token none duration price offset = problem error_text
  publish_page token (some local) duration price offset =
      published token (slot_times (to_utc local offset) duration (price_to_minor round price))

  unfoldable pub serve : Option Visitor → Request → Page
  serve none r = login_page Bool.false
  serve (some who) my_bookings = bookings_shown (ask bookings_of (ask_bookings who.token))
  serve (some who) my_slots = slots_shown (ask slots_of (ask_slots who.name))
  serve (some who) (master_slots master_id) = slots_shown (ask slots_of (ask_slots master_id))
  serve (some who) (book slot_id) = booked_shown (ask id_of (ask_book who.token slot_id))
  serve (some who) (booking_row i) = status_shown i (ask status_of (ask_status who.token i))
  serve (some who) (cancel i) = status_shown i (ask status_of (ask_cancel who.token i))
  serve (some who) (pay i) = payment_shown (ask payment_of (ask_pay who.token i))
  serve (some who) (publish_slot local duration price offset) =
      publish_page who.token local duration price offset
