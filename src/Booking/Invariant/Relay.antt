-- ===== src/Booking/Invariant/Relay.antt =====
-- The relay keeps the invariant: it touches only the delivery columns of the outbox.
use mathlib.Core.Path.{ap₂}
use slot.Prelude.{
  ℕ, String, ◌≡◌, refl, ap, subst, true, ◌∙◌, Bool, List, Option, none, some, All-map,
  All-update_where, any_of, update_where, any_of-update_where, count_if-update_where-le, arith,
  Result, ◌&&◌, ◌==◌,
}
use slot.Booking.Domain.{BookingStatus}
use slot.Booking.Events.{BookingEventType, Event, type_eq}
use slot.Booking.Models.{OutboxMessage, Db}
use slot.Booking.Outbox.{settle, publish_pending}
use slot.Booking.Invariant.{IsValid, IsOwnEvent, IsAnnounced, is_about, message_has_id}

-- An update that keeps what identifies a message.
record IsTouch (f : OutboxMessage → OutboxMessage) : Type 0 where
  id : (m : OutboxMessage) → (f m).id ≡ m.id
  topic : (m : OutboxMessage) → (f m).topic ≡ m.topic
  payload : (m : OutboxMessage) → (f m).payload ≡ m.payload

module _ (p : OutboxMessage → Bool) (f : OutboxMessage → OutboxMessage) (touch : IsTouch f) where
  touched_about :
      (outbox : List OutboxMessage) (type : BookingEventType) (i : ℕ)
      → any_of (is_about type i) (update_where p f outbox) ≡ any_of (is_about type i) outbox
  touched_about outbox type i = any_of-update_where (is_about type i) p f outbox (λ m.
      ap₂ (λ t (e : Event). type_eq t type && (e.booking_id == i)) (touch.topic m)
        (touch.payload m))

  touched-IsAnnounced :
      (outbox : List OutboxMessage) (status : BookingStatus) (i : ℕ)
      → IsAnnounced outbox status i
      → IsAnnounced (update_where p f outbox) status i
  touched-IsAnnounced outbox BookingStatus.pending i h = tt
  touched-IsAnnounced outbox BookingStatus.confirmed i h = touched_about outbox _ i ∙ h
  touched-IsAnnounced outbox BookingStatus.cancelled i h = touched_about outbox _ i ∙ h
  touched-IsAnnounced outbox BookingStatus.expired i h = touched_about outbox _ i ∙ h

  touched-IsValid :
      (db : Db) → IsValid db → IsValid (record db { outbox = update_where p f db.outbox })
  touched-IsValid db v = record {
    one_active = v.one_active;
    one_booking = v.one_booking;
    one_message = λ i.
        let same =
          count_if-update_where-le (message_has_id i) p f db.outbox
            (λ m hit after. ground (arith, touch.id m)) in
        omega (arith, same, v.one_message i);
    own_events =
        All-update_where IsOwnEvent IsOwnEvent p f db.outbox
          (λ m hit own. cc (touch.id m, ap (λ (e : Event). e.event_id) (touch.payload m)))
          (λ m miss own. own) v.own_events;
    slots_exist = v.slots_exist;
    told_once = λ type i.
        let same = count_if-update_where-le (is_about type i) p f db.outbox (λ m hit after.
          subst (λ b. b ≡ true)
            (ap₂ (λ t (e : Event). type_eq t type && (e.booking_id == i)) (touch.topic m)
              (touch.payload m))
            after) in
        omega (arith, same, v.told_once type i);
    announced = All-map db.bookings (λ b. touched-IsAnnounced db.outbox b.status b.id) v.announced;
  }

settle-IsValid :
    (db : Db) (now : ℕ) (ids : List ℕ) (failure : Option (ℕ × String))
    → IsValid db
    → IsValid (settle db now ids failure)
unfolding settle
settle-IsValid db now ids none v =
    touched-IsValid _ _ (record { id = λ m. refl; topic = λ m. refl; payload = λ m. refl }) db v
settle-IsValid db now ids (some (message_id, error)) v =
    touched-IsValid _ _ (record { id = λ m. refl; topic = λ m. refl; payload = λ m. refl }) db v

module _ {Broker : Type 0}
    (publish : Broker → BookingEventType → Event → Result String (Unit {0}) × Broker) where
  -- Whatever the broker does, a run of the relay leaves a valid database.
  pub publish_pending-IsValid :
      (locked : ℕ → Bool) (limit now : ℕ) (db : Db) (broker : Broker)
      → IsValid db
      → IsValid (publish_pending publish locked limit now db broker).1
  unfolding publish_pending
  publish_pending-IsValid locked limit now db broker v = settle-IsValid db now _ _ v
