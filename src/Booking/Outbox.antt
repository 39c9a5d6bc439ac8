-- ===== src/Booking/Outbox.antt =====
-- services/booking/src/booking/outbox.py: the relay from the outbox to the broker.
-- The publisher is not code of this service: it is a state, which a call changes whether or not it
-- returns, and the call. The heartbeat file is left out.
pub mod Publisher
pub mod Delivery
pub mod Batch
pub mod Drain
use slot.Prelude.{
  ℕ, suc, ◌+◌, String, Bool, true, false, not, ◌&&◌, ◌||◌, Option, none, some, List, [], ◌∷◌, ◌≡◌,
  ◌==◌, any_of, take, take_text, select, sort_by, update_where, length, Result, ok, err,
}
use slot.Booking.Events.{BookingEventType, Event}
use slot.Booking.Models.{OutboxMessage, Db}

abbrev pub batch_size : ℕ
batch_size = 100

abbrev pub max_error_length : ℕ
max_error_length = 200

abbrev pub is_unpublished : OutboxMessage → Bool
is_unpublished m = elim m.published_at [ none ↦ true | some t ↦ false ]

-- The WHERE of the query, without the rows that another relay has locked.
abbrev pub is_waiting : (ℕ → Bool) → OutboxMessage → Bool
is_waiting locked m = is_unpublished m && not (locked m.id)

-- What the query takes and locks: `locked` tells which rows another relay holds.
unfoldable pub pending_messages : (ℕ → Bool) → ℕ → Db → List OutboxMessage
pending_messages locked limit db =
    take limit (sort_by (λ (m : OutboxMessage). m.id) (select (is_waiting locked) db.outbox))

-- `message.published_at = now` on the rows of these ids.
abbrev pub mark_published : ℕ → List ℕ → List OutboxMessage → List OutboxMessage
mark_published now ids =
    update_where (λ m. any_of (λ i. i == m.id) ids) (λ m. record m { published_at = some now })

abbrev pub record_failure : ℕ → String → List OutboxMessage → List OutboxMessage
record_failure message_id error =
    update_where (λ m. m.id == message_id)
      (λ m. record m {
        attempts = m.attempts + 1;
        last_error = some (take_text max_error_length error);
      })

-- The end of the call: a failure rolls the marks of the whole batch back before it is recorded.
unfoldable pub settle : Db → ℕ → List ℕ → Option (ℕ × String) → Db
settle db now ids none = record db { outbox = mark_published now ids db.outbox }
settle db now ids (some (message_id, error)) = record db {
  outbox = record_failure message_id error db.outbox;
}

-- How the loop over the batch ends: the broker, the ids marked so far, and the failure that stopped
-- it, if any.
pub record Sent (Broker : Type 0) : Type 0 where
  pub broker : Broker
  pub ids : List ℕ
  pub failure : Option (ℕ × String)

module _ {Broker : Type 0}
    (publish : Broker → BookingEventType → Event → Result String (Unit {0}) × Broker) where
  unfoldable pub publish_each : Broker → List OutboxMessage → Sent Broker
  publish_each broker [] = record { broker = broker; ids = []; failure = none }
  publish_each broker (m ∷ ms) =
      let (answer, broker') = publish broker m.topic m.payload in
      let rest = publish_each broker' ms in
      elim answer [
        | err error ↦ record { broker = broker'; ids = []; failure = some (m.id, error) }
        | ok _ ↦ record rest { ids = m.id ∷ rest.ids }
      ]

  unfoldable pub publish_pending : (ℕ → Bool) → ℕ → ℕ → Db → Broker → ℕ × Db × Broker
  publish_pending locked limit now db broker =
      let sent = publish_each broker (pending_messages locked limit db) in
      (length sent.ids, settle db now sent.ids sent.failure, sent.broker)
