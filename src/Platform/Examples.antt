-- ===== src/Platform/Examples.antt =====
-- The theorems about the two services at concrete inputs: "bob" has booked an hour of "anna" and
-- paid it.
use slot.Notifier.Lossless.{undisturbed}
use slot.Notifier.Consumer.{Gateway, claim_row, handle, was_sent}
use slot.Notifier.Gateway.{GatewayAnswer, send_answer}
use slot.Notifier.Models.{is_storable, State}
use slot.Notifier.Domain.{Python, render}
use slot.Platform.Announced.{
  Wire, Fits, event_document, published_fields, IsTold, received, published_is_sent,
}
use slot.Booking.Events.{Event as BookingEvent, build_event, confirmed_event}
use slot.Prelude.{
  Answer, no_response, ℕ, String, ◌≡◌, refl, Bool, true, false, none, some, [], ◌∷◌, ok, subst, All,
  any_of, str_eq, update_where, suc, arith,
}
use slot.Booking.Domain.{aware, confirmed, ensure_valid_slot, ensure_bookable, ensure_transition}
use slot.Booking.Models.{
  Booking, OutboxMessage as Event, Db as BookingDb, empty, get_booking_row, booking_violation,
  insert_messages,
}
use slot.Booking.Tokens.{Stdlib}
use slot.Booking.Service.Commands.{
  create_slot, book_slot, reserve, enqueue_expired, enqueue_event, write_status, change_status,
  new_booking,
}
use slot.Booking.Invariant.{IsValid, empty-IsValid}
use slot.Booking.Invariant.CreateSlot.{create_slot-IsValid}
use slot.Booking.Invariant.BookSlot.{book_slot-IsValid}
use slot.Booking.Http.{Env, Payment, serve}
use slot.Payments.Domain.{Failure, confirm_booking}
use slot.Payments.Models.{Payment as Charged, OutboxMessage, Db, has_id}
use slot.Payments.Domain.{succeeded}
use slot.Payments.Clients.{Refund, confirm_answer}
use slot.Payments.Relay.{
  pending_commands, needing_refund, refund_command, deliver, confirm_delivery, after_confirm,
  deliver_each, process_pending,
}
use slot.Platform.{confirm_call, platform}
use slot.Platform.Deliveries.{is_honoured}
use slot.Platform.Honoured.{process_pending_honoured}
use slot.Platform.Race.{confirm_overlapping}

abbrev lib : Stdlib
lib = record {
  split = λ token. token ∷ [];
  mac = λ secret message. "m";
  decode = λ payload. none;
  encode = λ claims. "p";
  is_identifier = λ s. true;
  is_ascii = λ s. true;
}

abbrev env : Env
env = record { auth_secret = "secret"; pending_ttl = 900 }

abbrev offline : ℕ → ℕ → String → Answer Payment
offline booking_id amount currency = no_response

abbrev ids : ℕ → ℕ
ids k = 40

abbrev later_ids : ℕ → ℕ
later_ids k = 41

abbrev shop : BookingDb
shop = (create_slot empty "anna" (aware 5000) (aware 6000) 1500 10 7).1

abbrev booked : BookingDb
booked = (book_slot shop shop 7 "bob" 100 900 1 ids).1

booked-IsValid : IsValid booked
booked-IsValid =
    book_slot-IsValid shop shop 7 "bob" 100 900 1 ids
      (create_slot-IsValid empty "anna" (aware 5000) (aware 6000) 1500 10 7 empty-IsValid)

abbrev charged : Charged
charged = record {
  id = 3;
  booking_id = 1;
  amount_minor = 1500;
  currency = "RUB";
  status = succeeded;
  provider_charge_id = some "ch";
  checkout_url = none;
  needs_refund = false;
  provider_refund_id = none;
  refunded_at = none;
  created_at = 120;
  updated_at = 130;
}

abbrev command : OutboxMessage
command = record {
  id = 5;
  topic = confirm_booking;
  payment_id = 3;
  booking_id = some 1;
  published_at = none;
  attempts = 0;
  last_error = none;
}

abbrev payments : Db
payments = record { payments = charged ∷ []; events = []; outbox = command ∷ [] }

abbrev provider : BookingDb → ℕ → String → ℕ → Answer Refund
provider db payment_id charge_id amount = no_response

abbrev message_of : Failure → String
message_of e = "failed"

abbrev unlocked : ℕ → Bool
unlocked i = false

process_pending_honoured_example :
    let services = platform lib env offline 200 ids provider message_of in
    let (count, db', after) = process_pending services unlocked 100 200 ids booked payments in
    IsValid after
    × ((p : Event → Bool) → any_of p booked.outbox ≡ true → any_of p after.outbox ≡ true)
    × All
        (λ m. str_eq m.topic confirm_booking ≡ true → is_honoured after db' m ≡ true)
        (pending_commands unlocked 100 payments)
unfolding book_slot create_slot reserve booking_violation insert_messages enqueue_expired
    ensure_valid_slot ensure_bookable confirm_answer confirm_call serve change_status write_status
    ensure_transition enqueue_event pending_commands deliver_each deliver confirm_delivery
    after_confirm
process_pending_honoured_example =
    process_pending_honoured lib env offline 200 ids provider message_of unlocked 100 ids booked
      payments booked-IsValid refl

confirm_overlapping_example :
    let after = (confirm_call lib env offline 200 ids booked booked 1).1 in
    let (answer, last) = confirm_call lib env offline 206 later_ids booked after 1 in
    ((b : Booking) × (get_booking_row 1 last ≡ some b) × (b.status ≡ confirmed))
    × (after_confirm (confirm_answer answer) 3 207 8 payments
        ≡ ok (record payments {
          payments = update_where (has_id 3) (needing_refund 207) payments.payments;
          outbox = refund_command 8 3 ∷ payments.outbox;
        }))
unfolding book_slot create_slot reserve booking_violation insert_messages enqueue_expired
    ensure_valid_slot ensure_bookable confirm_answer confirm_call serve change_status write_status
    ensure_transition enqueue_event
confirm_overlapping_example =
    confirm_overlapping lib env offline booked payments (new_booking 1 7 "bob" 100) 1 3 200 206 207
      8 ids later_ids booked-IsValid refl refl refl

-- The run confirms the booking.
confirmed_once :
    (process_pending
      (platform lib env offline 200 ids provider message_of)
      unlocked
      100
      200
      ids
      booked
      payments).0
    ≡ 1
unfolding book_slot create_slot reserve booking_violation insert_messages enqueue_expired
    ensure_valid_slot ensure_bookable confirm_answer confirm_call serve change_status write_status
    ensure_transition enqueue_event process_pending pending_commands deliver_each deliver
    confirm_delivery after_confirm
confirmed_once = refl

-- An event of "bob", and a notifier that reads it back from the stream.
abbrev confirmed_booking : BookingEvent
confirmed_booking = build_event 1 confirmed_event 7 3 "bob" 5000 100

abbrev wire : Wire
wire = record {
  uuid_text = λ i. "id";
  isoformat = λ t. "2030-01-01";
  number_text = λ n. "1";
  dumps = λ d. "event";
}

abbrev python : Python
python = record {
  Time = String;
  loads = λ s. some (event_document wire confirmed_booking);
  from_isoformat = λ s. some s;
  strftime = λ t. t;
  format = λ template when. when;
}

-- A gateway that counts its calls.
abbrev gateway : Gateway ℕ
gateway = record {
  post = λ calls key recipient sent_text. (GatewayAnswer.response 201 (some "g1"), suc calls);
  reason_text = λ r. "reason";
  error_text = λ e. "error";
}

abbrev waiting : State
waiting = record { rows = []; pending = "1-0" ∷ []; dead_letters = [] }

fits : Fits python wire confirmed_booking
unfolding build_event event_document
fits = record {
  when = "2030-01-01";
  loads_dumps = refl;
  iso_back = refl;
  event_id_there = refl;
  booking_id_there = refl;
  iso_there = refl;
}

accepted : send_answer (GatewayAnswer.response 201 (some "g1")) ≡ ok "g1"
unfolding send_answer
accepted = refl

named : str_eq confirmed_booking.client_id "" ≡ false
unfolding build_event
named = refl

storable :
    (words : String)
    → render python (received python wire confirmed_booking fits) ≡ some words
    → is_storable (
        claim_row python gateway undisturbed
          (received python wire confirmed_booking fits)
          words
          200)
      ≡ true
unfolding render build_event fits
storable words rendered =
    let told : "2030-01-01" ≡ words = cc (rendered) in
    subst
      (λ t.
        is_storable
          (claim_row python gateway undisturbed (received python wire confirmed_booking fits) t 200)
        ≡ true)
      told refl

published_is_sent_example :
    (s : State) × (calls : ℕ) × (handle python gateway undisturbed waiting 0 "1-0"
        (published_fields wire confirmed_booking.type confirmed_booking)
        1
        200
        300
      ≡ (ok (was_sent, s), calls))
    × IsTold python wire confirmed_booking fits gateway "1-0" "g1" 300 s
published_is_sent_example =
    published_is_sent python wire confirmed_booking fits gateway waiting 0 "1-0" "g1" 1 200 300
      named (omega arith) refl (λ w key recipient sent_text. accepted) storable refl
