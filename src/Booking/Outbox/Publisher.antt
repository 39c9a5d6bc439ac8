-- ===== src/Booking/Outbox/Publisher.antt =====
-- `Publisher` of services/booking/src/booking/outbox.py: what the relay asks of the broker, which
-- is not code of this repository.
use slot.Prelude.{ℕ, String, ◌≡◌, Bool, true, List, ◌∷◌, ◌==◌, any_of, arith, Result, ok}
use slot.Booking.Events.{BookingEventType, Event}

pub record Publisher : Type 1 where
  pub Broker : Type 0
  pub publish : Broker → BookingEventType → Event → Result String (Unit {0}) × Broker
  -- the broker has accepted an event of this id at some time
  pub accepted : Broker → ℕ → Bool
  -- a call that returns has handed its event over
  pub accepted_self :
      (b : Broker) (t : BookingEventType) (e : Event)
      → (publish b t e).0 ≡ ok tt
      → accepted (publish b t e).1 e.event_id ≡ true
  -- nothing is accepted and then taken back, whether the call returns or raises
  pub accepted_kept :
      (b : Broker) (t : BookingEventType) (e : Event) (i : ℕ)
      → accepted b i ≡ true
      → accepted (publish b t e).1 i ≡ true

-- A broker that accepts everything, and keeps what it was sent.
pub stream_kept :
    (stream : List Event) (e : Event) (i : ℕ)
    → any_of (λ x. x.event_id == i) stream ≡ true
    → any_of (λ (x : Event). x.event_id == i) (e ∷ stream) ≡ true
stream_kept stream e i h = ground arith

pub stream_self :
    (stream : List Event) (e : Event)
    → any_of (λ (x : Event). x.event_id == e.event_id) (e ∷ stream) ≡ true
stream_self stream e = ground arith

abbrev pub in_memory : Publisher
in_memory = record {
  Broker = List Event;
  publish = λ stream t e. (ok tt, e ∷ stream);
  accepted = λ stream i. any_of (λ (e : Event). e.event_id == i) stream;
  accepted_self = λ b t e h. stream_self b e;
  accepted_kept = λ b t e i h. stream_kept b e i h;
}
