-- ===== src/Platform/Announced.antt =====
-- An event of the booking service as the notifier reads it: services/booking/src/booking/events.py
-- and the publisher of outbox.py write it, services/notifier/src/notifier reads it.
use slot.Prelude.{
  ℕ, ◌≤◌, String, ◌≡◌, refl, Bool, true, false, some, List, [], ◌∷◌, str_eq, any_of, ltb, arith, ok,
  eq_refl,
}
use slot.Booking.Events.{BookingEventType, confirmed_event, cancelled_event, expired_event, Event}
use slot.Notifier.Domain.{
  Python, Document, object, text, other, BookingEvent, parse_event, render, messages,
}
use slot.Notifier.Models.{
  fits as is_short, id_width, is_storable, Fields, State, is_of_event, get_notification,
  Notification,
}
use slot.Notifier.Gateway.{send_answer}
use slot.Notifier.Consumer.{
  Gateway, read_event, handle, was_sent, with_sent, claim_row, max_deliveries,
}
use slot.Notifier.Outcomes.{is_pending, none_left}
use slot.Notifier.Lossless.{undisturbed}

-- The value of an event type.
abbrev pub type_text : BookingEventType → String
type_text confirmed_event = "booking.confirmed"
type_text cancelled_event = "booking.cancelled"
type_text expired_event = "booking.expired"

-- How the booking service writes an identifier, an instant, a number and a JSON value.
pub record Wire : Type 0 where
  pub uuid_text : ℕ → String
  pub isoformat : ℕ → String
  pub number_text : ℕ → String
  pub dumps : Document → String

module _ (wire : Wire) where
  open wire use {uuid_text, isoformat, number_text, dumps}

  -- The message body as the dict that `build_event` returns.
  unfoldable pub event_document : Event → Document
  event_document e = object (
      ("event_id", text (uuid_text e.event_id))
      ∷ ("type", text (type_text e.type))
      ∷ ("version", other true (number_text e.version))
      ∷ ("occurred_at", text (isoformat e.occurred_at))
      ∷ ("booking_id", text (uuid_text e.booking_id))
      ∷ ("slot_id", text (uuid_text e.slot_id))
      ∷ ("client_id", text e.client_id)
      ∷ ("starts_at", text (isoformat e.starts_at))
      ∷ [])

  -- `RedisPublisher.publish`
  unfoldable pub published_fields : BookingEventType → Event → Fields
  published_fields topic e = record { topic = type_text topic; payload = dumps (event_document e) }

-- Writing and reading fit for an event: JSON and dates come back, and no identifier or date is empty.
pub record Fits (python : Python) (wire : Wire) (e : Event) : Type 0 where
  pub when : python.Time
  pub loads_dumps : python.loads (wire.dumps (event_document wire e)) ≡ some (event_document wire e)
  pub iso_back : python.from_isoformat (wire.isoformat e.starts_at) ≡ some when
  pub event_id_there : str_eq (wire.uuid_text e.event_id) "" ≡ false
  pub booking_id_there : str_eq (wire.uuid_text e.booking_id) "" ≡ false
  pub iso_there : str_eq (wire.isoformat e.starts_at) "" ≡ false

module _ (python : Python) (wire : Wire) (e : Event) (fits : Fits python wire e) where
  abbrev pub received : BookingEvent python
  received = record {
    event_id = wire.uuid_text e.event_id;
    type = type_text e.type;
    booking_id = wire.uuid_text e.booking_id;
    client_id = e.client_id;
    starts_at = fits.when;
  }

  type_there : (t : BookingEventType) → str_eq (type_text t) "" ≡ false
  type_there confirmed_event = refl
  type_there cancelled_event = refl
  type_there expired_event = refl

  known_type :
      (t : BookingEventType) → (template : String) × (messages (type_text t) ≡ some template)
  known_type confirmed_event = (_, refl)
  known_type cancelled_event = (_, refl)
  known_type expired_event = (_, refl)

  -- An event of a client is read as it was written.
  pub read_event-published :
      {World : Type 0} (gateway : Gateway World)
      (others : Bool → List Notification → List Notification) (topic : BookingEventType)
      → str_eq e.client_id "" ≡ false
      → read_event python gateway others (published_fields wire topic e) ≡ ok received
  unfolding read_event parse_event published_fields event_document
  read_event-published gateway others topic named =
      rw (fits.loads_dumps, read_event)
        (rw
          (
            fits.event_id_there,
            type_there e.type,
            fits.booking_id_there,
            named,
            fits.iso_there,
            fits.iso_back,
          )
          refl)

  -- What the row of the event says of it, and the message no longer waits.
  abbrev pub IsTold : {World : Type 0} → Gateway World → String → String → ℕ → State → Type 0
  IsTold gateway message_id gateway_id now s =
      (told_at : ℕ) × (sent_text : String) × (get_notification (wire.uuid_text e.event_id) s.rows
        ≡ some (
            with_sent gateway_id now
              (claim_row python gateway undisturbed received sent_text told_at)))
      × (is_pending message_id s ≡ false)

  render-received : (sent_text : String) × (render python received ≡ some sent_text)
  unfolding render
  render-received =
      let (template, known) = known_type e.type in
      (python.format template (python.strftime fits.when), rw (known, render) refl)

  -- An event of a client that the booking service publishes, and that reads back as it was written,
  -- is sent: at a delivery within `max_deliveries` of an event with no row yet, if the gateway
  -- accepts, the texts of the row and the id of the gateway fit their columns and no other consumer
  -- steps in, the row says so with the booking and the client of the event, and the message is
  -- acknowledged.
  pub published_is_sent :
      {World : Type 0} (gateway : Gateway World) (s : State) (world : World)
      (message_id gateway_id : String) (deliveries now now' : ℕ)
      → str_eq e.client_id "" ≡ false
      → deliveries ≤ max_deliveries
      → any_of (is_of_event (wire.uuid_text e.event_id)) s.rows ≡ false
      → ((w : World) (key recipient sent_text : String)
          → send_answer (gateway.post w key recipient sent_text).0 ≡ ok gateway_id)
      → ((sent_text : String)
          → render python received ≡ some sent_text
          → is_storable (claim_row python gateway undisturbed received sent_text now) ≡ true)
      → is_short id_width gateway_id ≡ true
      → (s' : State) × (world' : World) × (handle python gateway undisturbed s world message_id
            (published_fields wire e.type e)
            deliveries
            now
            now'
          ≡ (ok (was_sent, s'), world'))
        × IsTold gateway message_id gateway_id now' s'
  unfolding handle
  published_is_sent gateway s world message_id gateway_id deliveries now now' named due fresh
        accepts storable short =
      let read = read_event-published gateway undisturbed e.type named in
      let (sent_text, rendered) = render-received in
      let early : ltb max_deliveries deliveries ≡ false = ground arith in
      let self = eq_refl (wire.uuid_text e.event_id) in
      rw (read, handle)
        (rw early (
          rw rendered (
            rw (fresh, storable sent_text rendered)
              (rw (accepts world (wire.uuid_text e.event_id) e.client_id sent_text, short)
                (
                  _,
                  _,
                  refl,
                  (now, sent_text, rw self (rw self refl), none_left message_id s.pending),
                )))))
