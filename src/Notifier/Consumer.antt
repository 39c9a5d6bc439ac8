-- ===== src/Notifier/Consumer.antt =====
-- services/notifier/src/notifier/consumer.py: one message of the stream, from its delivery to its
-- acknowledgement. `others` is what other consumers commit to the table, first while this one
-- claims the event and then while it sends; `now` and `now'` are the readings of the clock.
use slot.Prelude.{
  ℕ, ◌+◌, String, Bool, true, false, Option, none, some, List, ◌∷◌, any_of, ltb, take_text,
  update_where, if◌then◌else◌, Result, ok, err,
}
use slot.Notifier.Domain.{
  Python, NotificationStatus, sending, sent, dead, ParseError, value_error, attribute_error,
  BookingEvent, parse_event, render,
}
use slot.Notifier.Models.{
  Notification, id_width, fits, is_storable, is_of_event, get_notification, Fields, DeadLetter,
  State, acknowledge,
}
use slot.Notifier.Gateway.{GatewayAnswer, SendError, send_answer}

abbrev pub max_error_length : ℕ
max_error_length = 200

-- `ConsumerSettings.max_deliveries`
abbrev pub max_deliveries : ℕ
max_deliveries = 5

-- `Outcome`: the names stand for the texts.
pub data Outcome : Type 0 where
  was_sent was_duplicate was_ignored has_failed is_dead : Outcome

-- Why a message is given up.
pub data Reason : Type 0 where
  unreadable : ParseError → Reason
  delivered_times : ℕ → Reason

-- What `_handle` does not catch: the `AttributeError` of a JSON value that is no object, and the
-- `DataError` of a text that is too long for its column.
pub data HandleError : Type 0 where
  not_an_object data_error : HandleError

-- How `_handle` ends: with an outcome or an error, and in either case with a state.
abbrev pub Ending : Type 0
Ending = Result (HandleError × State) (Outcome × State)

abbrev pub is_sending : NotificationStatus → Bool
is_sending sending = true
is_sending sent = false
is_sending dead = false

-- The INSERT of `_already_done`, which does nothing on a conflict.
abbrev pub insert_claim : Notification → List Notification → List Notification
insert_claim n rows = if any_of (is_of_event n.event_id) rows then rows else n ∷ rows

-- The rest of `_already_done`: the row of the event as it is after the commit.
abbrev pub is_done : Option Notification → Bool
is_done none = false
is_done (some n) = if is_sending n.status then false else true

abbrev pub with_failure : String → ℕ → Notification → Notification
with_failure error now n = record n {
  attempts = n.attempts + 1;
  last_error = some (take_text max_error_length error);
  updated_at = now;
}

abbrev pub with_sent : String → ℕ → Notification → Notification
with_sent gateway_id now n = record n {
  status = sent;
  gateway_message_id = some gateway_id;
  updated_at = now;
}

abbrev pub with_dead : String → ℕ → Notification → Notification
with_dead reason now n = record n {
  status = dead;
  last_error = some (take_text max_error_length reason);
  updated_at = now;
}

abbrev pub update_event : String → (Notification → Notification) → State → State
update_event event_id f s = record s { rows = update_where (is_of_event event_id) f s.rows }

abbrev pub mark_dead : Option String → String → ℕ → State → State
mark_dead none reason now s = s
mark_dead (some event_id) reason now s = update_event event_id (with_dead reason now) s

unfoldable pub dead_letter : State → String → Fields → String → Option String → ℕ → Outcome × State
dead_letter s message_id fields reason event_id now =
    let letter : DeadLetter = record {
      original_id = message_id;
      reason = take_text max_error_length reason;
      topic = fields.topic;
      payload = fields.payload;
    } in
    (
      is_dead,
      acknowledge message_id
          (mark_dead event_id reason now (record s { dead_letters = letter ∷ s.dead_letters })),
    )

-- The gateway, and how Python writes the texts of reasons and errors.
pub record Gateway (World : Type 0) : Type 0 where
  pub post : World → String → String → String → GatewayAnswer × World
  pub reason_text : Reason → String
  pub error_text : SendError → String

module _ (python : Python) {World : Type 0} (gateway : Gateway World)
    (others : Bool → List Notification → List Notification) where
  open python use {loads}
  open gateway use {post, reason_text, error_text}

  abbrev pub claim_row : BookingEvent python → String → ℕ → Notification
  claim_row event text now = record {
    event_id = event.event_id;
    booking_id = event.booking_id;
    client_id = event.client_id;
    event_type = event.type;
    text = text;
    status = sending;
    attempts = 0;
    last_error = none;
    gateway_message_id = none;
    created_at = now;
    updated_at = now;
  }

  -- `json.loads` and `parse_event`.
  unfoldable pub read_event : Fields → Result ParseError (BookingEvent python)
  read_event fields = elim (loads fields.payload) [
    | none ↦ err value_error
    | some document ↦ parse_event python document
  ]

  -- The end of `_handle`, from the answer of the gateway; the UPDATE of `_mark_sent` is outside the
  -- `try`.
  abbrev pub finish : Result SendError String → State → String → BookingEvent python → ℕ → Ending
  finish (err e) s message_id event now =
      ok (has_failed, update_event event.event_id (with_failure (error_text e) now) s)
  finish (ok gateway_id) s message_id event now =
      if fits id_width gateway_id
      then ok (
        was_sent,
        acknowledge message_id (update_event event.event_id (with_sent gateway_id now) s),
      )
      else err (data_error, s)

  abbrev pub after_claim :
      Bool → State → World → String → BookingEvent python → String → ℕ → Ending × World
  after_claim true s world message_id event text now =
      (ok (was_duplicate, acknowledge message_id s), world)
  after_claim false s world message_id event text now =
      let (answer, world') = post world event.event_id event.client_id text in
      (
        finish (send_answer answer) (record s { rows = others true s.rows }) message_id event now,
        world',
      )

  -- `_already_done` and what follows: the row that the claim inserted is not read again, and an
  -- INSERT that fails changes nothing, also on a conflict.
  abbrev pub claim_and_send :
      State → World → String → BookingEvent python → String → ℕ → ℕ → Ending × World
  claim_and_send s world message_id event text now now' =
      let rows = others false (insert_claim (claim_row event text now) s.rows) in
      let existed = any_of (is_of_event event.event_id) s.rows in
      if is_storable (claim_row event text now)
      then after_claim (if existed then is_done (get_notification event.event_id rows) else false)
          (record s { rows = rows }) world message_id event text now'
      else (err (data_error, s), world)

  abbrev pub handle_event :
      State → World → String → Fields → BookingEvent python → ℕ → ℕ → ℕ → Ending × World
  handle_event s world message_id fields event deliveries now now' =
      if ltb max_deliveries deliveries
      then (
        ok (
            dead_letter s message_id fields (reason_text (delivered_times deliveries))
              (some event.event_id) now),
        world,
      )
      else elim (render python event) [
        | none ↦ (ok (was_ignored, acknowledge message_id s), world)
        | some text ↦ claim_and_send s world message_id event text now now'
      ]

  -- `_handle`
  unfoldable pub handle : State → World → String → Fields → ℕ → ℕ → ℕ → Ending × World
  handle s world message_id fields deliveries now now' = elim (read_event fields) [
    | err attribute_error ↦ (err (not_an_object, s), world)
    | err e ↦ (ok (dead_letter s message_id fields (reason_text (unreadable e)) none now), world)
    | ok event ↦ handle_event s world message_id fields event deliveries now now'
  ]
