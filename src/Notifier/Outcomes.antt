-- ===== src/Notifier/Outcomes.antt =====
-- What becomes of a message that the consumer handles: when it is acknowledged.
use slot.Prelude.{
  ℕ, String, ◌≡◌, refl, inl, inr, Bool, true, false, not, Option, none, some, List, [], ◌∷◌, arith,
  str_eq, any_of, select, ltb, Bool-cases, Option-cases, Result, ok, err, Result-cases,
}
use slot.Notifier.Domain.{Python, value_error, invalid_event, attribute_error, BookingEvent, render}
use slot.Notifier.Models.{Notification, id_width, fits, is_storable, Fields, State}
use slot.Notifier.Gateway.{SendError, send_answer}
use slot.Notifier.Consumer.{
  max_deliveries, Outcome, has_failed, Ending, claim_row, dead_letter, Gateway, read_event, finish,
  after_claim, handle_event, handle,
}

abbrev pub is_pending : String → State → Bool
is_pending message_id s = any_of (λ i. str_eq i message_id) s.pending

abbrev pub is_failed : Outcome → Bool
is_failed has_failed = true
is_failed _ = false

-- The message still waits after a failure or an error that is not caught, and after nothing else.
abbrev pub Leaves : String → Ending → Type 0
Leaves message_id (err (e, s)) = is_pending message_id s ≡ true
Leaves message_id (ok (outcome, s)) = is_pending message_id s ≡ is_failed outcome

pub none_left :
    (message_id : String) (ids : List String)
    → any_of (λ i. str_eq i message_id) (select (λ i. not (str_eq i message_id)) ids) ≡ false
none_left message_id [] = refl
none_left message_id (i ∷ ids) = ground (arith, none_left message_id ids)

dead_letter-Leaves :
    (s : State) (message_id : String) (fields : Fields) (reason : String) (event_id : Option String)
    (now : ℕ)
    → Leaves message_id (ok (dead_letter s message_id fields reason event_id now))
unfolding dead_letter
dead_letter-Leaves s message_id fields reason none now = none_left message_id s.pending
dead_letter-Leaves s message_id fields reason (some i) now = none_left message_id s.pending

module _ (python : Python) {World : Type 0} (gateway : Gateway World)
    (others : Bool → List Notification → List Notification) where
  finish-Leaves :
      (answer : Result SendError String) (s : State) (message_id : String)
      (event : BookingEvent python) (now : ℕ)
      → is_pending message_id s ≡ true
      → Leaves message_id (finish python gateway others answer s message_id event now)
  finish-Leaves (err e) s message_id event now waits = waits
  finish-Leaves (ok i) s message_id event now waits = elim (Bool-cases (fits id_width i)) [
    | inl short ↦ rw short (none_left message_id s.pending)
    | inr long ↦ rw long waits
  ]

  after_claim-Leaves :
      (done : Bool) (s : State) (world : World) (message_id : String) (event : BookingEvent python)
      (text : String) (now : ℕ)
      → is_pending message_id s ≡ true
      → Leaves message_id
          (after_claim python gateway others done s world message_id event text now).0
  after_claim-Leaves true s world message_id event text now waits = none_left message_id s.pending
  after_claim-Leaves false s world message_id event text now waits =
      finish-Leaves (send_answer (gateway.post world event.event_id event.client_id text).0)
        (record s { rows = others true s.rows }) message_id event now waits

  handle_event-Leaves :
      (s : State) (world : World) (message_id : String) (fields : Fields)
      (event : BookingEvent python) (deliveries now now' : ℕ)
      → is_pending message_id s ≡ true
      → Leaves message_id
          (handle_event python gateway others s world message_id fields event deliveries now now').0
  handle_event-Leaves s world message_id fields event deliveries now now' waits =
      elim (Bool-cases (ltb max_deliveries deliveries)) [
        | inl over ↦ rw over (dead_letter-Leaves s message_id fields _ (some event.event_id) now)
        | inr due ↦ rw due (elim (Option-cases (render python event)) [
          | inl unknown ↦ rw unknown (none_left message_id s.pending)
          | inr (text, known) ↦
              let claim = claim_row python gateway others event text now in
              rw known (elim (Bool-cases (is_storable claim)) [
                | inl short ↦
                    rw short (after_claim-Leaves _ _ world message_id event text now' waits)
                | inr long ↦ rw long waits
              ])
        ])
      ]

  -- A message that waits for its acknowledgement waits on exactly if its notification has failed
  -- or the consumer raises, be it at a JSON value that is no object, at an event too long for its
  -- columns or at an answer of the gateway that is; however it ends otherwise, it is acknowledged.
  pub handle-Leaves :
      (s : State) (world : World) (message_id : String) (fields : Fields) (deliveries now now' : ℕ)
      → is_pending message_id s ≡ true
      → Leaves message_id
          (handle python gateway others s world message_id fields deliveries now now').0
  unfolding handle
  handle-Leaves s world message_id fields deliveries now now' waits =
      elim (Result-cases (read_event python gateway others fields)) [
        | inl (event, read) ↦
            rw (read, handle)
              (handle_event-Leaves s world message_id fields event deliveries now now' waits)
        | inr (attribute_error, read) ↦ rw (read, handle) waits
        | inr (value_error, read) ↦
            rw (read, handle) (dead_letter-Leaves s message_id fields _ none now)
        | inr (invalid_event, read) ↦
            rw (read, handle) (dead_letter-Leaves s message_id fields _ none now)
      ]
