-- ===== src/Notifier/Examples.antt =====
-- The notifier theorems at concrete inputs, and messages that it handles.
use slot.Notifier.Turnover.{Serves, run_turns_settled, IsServed}
use slot.Notifier.Lossless.{IsAccounted, run_once-IsAccounted}
use slot.Notifier.Redeliveries.{AnswersFit, IsHarmless}
use slot.Notifier.Stream.{Broker, Moment, Turn, run_once, run_turns}
use slot.Notifier.Rows.{Extends-refl}
use slot.Prelude.{
  ℕ, ◌+◌, String, ◌≡◌, refl, Bool, none, some, List, [], ◌∷◌, arith, str_eq, if◌then◌else◌, ok,
  true, false, inl, inr, any_of, subst, Bool-cases, All, zero, suc, err,
}
use slot.Notifier.Domain.{
  Python, Document, object, no_object, text, sent, BookingEvent, parse_event, render,
  NotificationStatus,
}
use slot.Notifier.Models.{Notification, is_storable, get_notification, Fields, State}
use slot.Notifier.Gateway.{response, no_response, send_answer}
use slot.Notifier.Consumer.{
  Outcome, was_sent, with_dead, Gateway, claim_row, read_event, handle, data_error,
}
use slot.Notifier.Outcomes.{Leaves, handle-Leaves, is_pending}
use slot.Notifier.Repeats.{handle_done, handle_overdelivered}

abbrev confirmed_event : Document
confirmed_event = object (
    ("event_id", text "e1")
    ∷ ("type", text "booking.confirmed")
    ∷ ("booking_id", text "b1")
    ∷ ("client_id", text "bob")
    ∷ ("starts_at", text "2030-01-01")
    ∷ [])

-- Dates are texts; the message "event" is an event and any other a JSON list.
abbrev python : Python
python = record {
  Time = String;
  loads = λ s. if str_eq s "event" then some confirmed_event else some no_object;
  from_isoformat = λ s. some s;
  strftime = λ t. t;
  format = λ template when. when;
}

-- A gateway that counts its calls.
abbrev gateway : Gateway ℕ
gateway = record {
  post = λ calls key recipient text. (response 201 (some "g1"), calls + 1);
  reason_text = λ r. "reason";
  error_text = λ e. "error";
}

abbrev gateway_down : Gateway ℕ
gateway_down = record gateway { post = λ calls key recipient text. (no_response, calls + 1) }

abbrev alone : Bool → List Notification → List Notification
alone late rows = rows

abbrev fields : Fields
fields = record { topic = "booking.confirmed"; payload = "event" }

abbrev start : State
start = record { rows = []; pending = "1-0" ∷ []; dead_letters = [] }

abbrev event : BookingEvent python
event = record {
  event_id = "e1";
  type = "booking.confirmed";
  booking_id = "b1";
  client_id = "bob";
  starts_at = "2030-01-01";
}

abbrev sent_row : Notification
sent_row = record {
  event_id = "e1";
  booking_id = "b1";
  client_id = "bob";
  event_type = "booking.confirmed";
  text = "2030-01-01";
  status = sent;
  attempts = 0;
  last_error = none;
  gateway_message_id = some "g1";
  created_at = 100;
  updated_at = 200;
}

abbrev told : State
told = record { rows = sent_row ∷ []; pending = "1-0" ∷ []; dead_letters = [] }

event_read : read_event python gateway alone fields ≡ ok event
unfolding read_event parse_event
event_read = refl

first_delivery :
    handle python gateway alone start 0 "1-0" fields 1 100 200
    ≡ (ok (was_sent, record told { pending = [] }), 1)
unfolding handle read_event parse_event render send_answer
first_delivery = refl

-- The client is told, and the answer has an id of 65 characters: the message comes back.
abbrev long_id : String
long_id = "ggggggggggggggggggggggggggggggggggggggggggggggggggggggggggggggggg"

abbrev gateway_long : Gateway ℕ
gateway_long = record gateway {
  post = λ calls key recipient text. (response 201 (some long_id), calls + 1);
}

abbrev claimed : State
claimed = record start {
  rows =
      record sent_row {
        status = NotificationStatus.sending;
        gateway_message_id = none;
        updated_at = 100;
      }
      ∷ [];
}

long_id_raises :
    handle python gateway_long alone start 0 "1-0" fields 1 100 200 ≡ (err (data_error, claimed), 1)
unfolding handle read_event parse_event render send_answer
long_id_raises = refl

handle-Leaves_example :
    Leaves "1-0" (handle python gateway_down alone start 0 "1-0" fields 1 100 200).0
handle-Leaves_example = handle-Leaves python gateway_down alone start 0 "1-0" fields 1 100 200 refl

handle_done_example : (handle python gateway alone told 1 "1-0" fields 2 300 400).1 ≡ 1
handle_done_example =
    handle_done python gateway alone told 1 "1-0" fields 2 300 400 event sent_row sent_row
      event_read refl refl (λ e. cc)

handle_overdelivered_example :
    (s : State) × (o : Outcome) × (handle python gateway alone told 1 "1-0" fields 6 300 400
      ≡ (ok (o, s), 1))
    × (get_notification "e1" s.rows ≡ some (with_dead "reason" 300 sent_row))
handle_overdelivered_example =
    handle_overdelivered python gateway alone told 1 "1-0" fields 6 300 400 event sent_row
      event_read (omega arith) refl

-- The gateway is down, and the broker hands out the message "1-0" in every turn.
abbrev claim_first : List String → List (String × Fields)
claim_first ids = if any_of (λ i. str_eq i "1-0") ids then ("1-0", fields) ∷ [] else []

abbrev busy_broker : ℕ → Broker
busy_broker k = record {
  xpending_range = λ size idle. record { message_id = "1-0"; times_delivered = k } ∷ [];
  xclaim = λ idle ids. claim_first ids;
  xreadgroup = λ size. [];
}

abbrev quiet : ℕ → Moment
quiet n = record { others = alone; now = 100; now' = 200 }

abbrev turn : ℕ → Turn
turn k = record { broker = busy_broker k; moments = quiet }

claim_first-All :
    (P : String × Fields → Type 0) (ids : List String)
    → (any_of (λ i. str_eq i "1-0") ids ≡ true → P ("1-0", fields))
    → All P (claim_first ids)
claim_first-All P ids h = elim (Bool-cases (any_of (λ i. str_eq i "1-0") ids)) [
  | inl asked ↦ rw asked (h asked, tt)
  | inr other ↦ rw other tt
]

event_storable :
    (words : String) (now : ℕ)
    → render python event ≡ some words
    → is_storable (claim_row python gateway_down alone event words now) ≡ true
unfolding render
event_storable words now rendered =
    let told_so : "2030-01-01" ≡ words = cc (rendered) in
    subst (λ t. is_storable (claim_row python gateway_down alone event t now) ≡ true) told_so refl

storable :
    (read : BookingEvent python)
    → ok event ≡ read_event python gateway_down alone fields
    → read_event python gateway_down alone fields ≡ ok read
    → (words : String) (now : ℕ) → render python read ≡ some words
    → is_storable (claim_row python gateway_down alone read words now) ≡ true
storable read is reads words now =
    let same : event ≡ read = cc (is, reads) in
    subst
      (λ r.
        render python r ≡ some words
        → is_storable (claim_row python gateway_down alone r words now) ≡ true)
      same (event_storable words now)

harmless : IsHarmless python gateway_down ("1-0", fields)
unfolding read_event parse_event
harmless = (
  λ e. absurd (cc e),
  λ read words now reads rendered. storable read refl reads words now rendered,
)

down-AnswersFit : AnswersFit python gateway_down
unfolding send_answer
down-AnswersFit w key recipient words i h = absurd (cc h)

turn-Serves : (k : ℕ) (s : State) → Serves python gateway_down "1-0" k (turn k) s
turn-Serves k s = (
  λ n late rows. Extends-refl rows,
  λ ids. claim_first-All _ ids (λ asked. asked),
  λ ids. claim_first-All _ ids (λ asked. harmless),
  tt,
  refl,
  λ waits. (refl, refl),
)

abbrev turns_from : ℕ → ℕ → List Turn
turns_from k zero = []
turns_from k (suc n) = turn k ∷ turns_from (k + 1) n

turns_from-IsServed :
    (k n : ℕ) (s : State) (world : ℕ)
    → IsServed python gateway_down "1-0" k (turns_from k n) s world
turns_from-IsServed k zero s world = tt
turns_from-IsServed k (suc n) s world = (
  turn-Serves k s,
  turns_from-IsServed (k + 1) n (run_once python gateway_down (turn k) s world).0.1
      (run_once python gateway_down (turn k) s world).1,
)

run_turns_settled_example :
    (s : State) × (w : ℕ) × (run_turns python gateway_down (turns_from 1 5) start 0
      ≡ ((ok tt, s), w))
    × (is_pending "1-0" s ≡ false)
run_turns_settled_example =
    run_turns_settled python gateway_down "1-0" down-AnswersFit (turns_from 1 5) 1 start 0
      (turns_from-IsServed 1 5 start 0) (omega arith) (omega arith)

run_once-IsAccounted_example :
    IsAccounted python gateway_down "1-0" fields (run_once python gateway_down (turn 5) start 0).0.1
run_once-IsAccounted_example =
    run_once-IsAccounted python gateway_down "1-0" fields (turn 5) start 0
      (λ n late rows. Extends-refl rows) (λ ids. claim_first-All _ ids (λ asked. asked))
      (λ ids. claim_first-All _ ids (λ asked same. refl)) tt (inl (inl refl))
