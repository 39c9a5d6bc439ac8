-- ===== src/Notifier/Redeliveries.antt =====
-- How often a message is handled: the turns of the loop after which it no longer waits.
use slot.Prelude.{
  ℕ, ◌+◌, String, ◌≡◌, ◌≢◌, refl, inl, inr, ◌⊎◌, Bool, true, false, List, [], ◌∷◌, str_eq, eq_iff,
  any_of, All, Bool-cases, Option-cases, Result, ok, err, Result-cases, ap, sym, subst, ◌∙◌, arith,
  ◌||◌, ◌&&◌, Option, none, some, ltb,
}
use slot.Notifier.Domain.{Python, BookingEvent, render, value_error, invalid_event, attribute_error}
use slot.Notifier.Models.{Notification, id_width, fits, is_storable, Fields, State}
use slot.Notifier.Gateway.{SendError, send_answer}
use slot.Notifier.Consumer.{
  Outcome, Ending, claim_row, finish, after_claim, handle_event, Gateway, read_event, handle,
  dead_letter, max_deliveries,
}
use slot.Notifier.Outcomes.{is_pending, none_left}
use slot.Notifier.Rows.{Extends}
use slot.Notifier.Accounts.{handle-Settles}
use slot.Notifier.Turns.{On}
use slot.Notifier.Lossless.{undisturbed, read_event_alone}
use slot.Notifier.Stream.{Counter, count, Delivery, Moment, handle_all}

dead_letter_closes :
    (s : State) (message_id : String) (fields : Fields) (reason : String) (event_id : Option String)
    (now : ℕ)
    → is_pending message_id (dead_letter s message_id fields reason event_id now).1 ≡ false
unfolding dead_letter
dead_letter_closes s message_id fields reason none now = none_left message_id s.pending
dead_letter_closes s message_id fields reason (some i) now = none_left message_id s.pending

module _ (python : Python) {World : Type 0} (gateway : Gateway World) where
  -- The ids that the gateway answers with fit their column.
  abbrev pub AnswersFit : Type 0
  AnswersFit =
      (w : World) (key recipient text i : String)
      → send_answer (gateway.post w key recipient text).0 ≡ ok i
      → fits id_width i ≡ true

  -- A message that raises no error which the consumer does not catch: it is an object or no JSON,
  -- and its texts fit their columns.
  abbrev pub IsHarmless : String × Fields → Type 0
  IsHarmless message =
      (read_event python gateway undisturbed message.1 ≢ err attribute_error)
      × ((event : BookingEvent python) (text : String) (now : ℕ)
          → read_event python gateway undisturbed message.1 ≡ ok event
          → render python event ≡ some text
          → is_storable (claim_row python gateway undisturbed event text now) ≡ true)

  module _ (others : Bool → List Notification → List Notification) where
    abbrev Returns : Ending × World → Type 0
    Returns result = (o : Outcome) × (s' : State) × (w : World) × (result ≡ (ok (o, s'), w))

    finish-Returns :
        (answer : Result SendError String) (s : State) (message_id : String)
        (event : BookingEvent python) (now : ℕ)
        → ((i : String) → answer ≡ ok i → fits id_width i ≡ true)
        → (r : Outcome × State) × (finish python gateway others answer s message_id event now
            ≡ ok r)
    finish-Returns (err e) s message_id event now short = (_, refl)
    finish-Returns (ok i) s message_id event now short = rw (short i refl) (_, refl)

    module _ (answers_fit : AnswersFit) where
      after_claim-Returns :
          (done : Bool) (s : State) (world : World) (message_id : String)
          (event : BookingEvent python) (text : String) (now : ℕ)
          → Returns (after_claim python gateway others done s world message_id event text now)
      after_claim-Returns true s world message_id event text now = (_, _, _, refl)
      after_claim-Returns false s world message_id event text now =
          let posted = gateway.post world event.event_id event.client_id text in
          let (r, finished) =
            finish-Returns (send_answer posted.0) (record s { rows = others true s.rows })
              message_id event now (answers_fit world event.event_id event.client_id text) in
          (r.0, r.1, posted.1, ap (λ e. (e, posted.1)) finished)

      handle_event-Returns :
          (s : State) (world : World) (message_id : String) (fields : Fields)
          (event : BookingEvent python) (deliveries now now' : ℕ)
          → ((text : String)
              → render python event ≡ some text
              → is_storable (claim_row python gateway others event text now) ≡ true)
          → Returns (
              handle_event python gateway others s world message_id fields event deliveries now
                now')
      handle_event-Returns s world message_id fields event deliveries now now' storable =
          elim (Bool-cases (ltb max_deliveries deliveries)) [
            | inl late ↦ rw late (_, _, _, refl)
            | inr due ↦ rw due (elim (Option-cases (render python event)) [
              | inl unknown ↦ rw unknown (_, _, _, refl)
              | inr (text, known) ↦ rw known (
                  rw (storable text known)
                    (after_claim-Returns _ _ world message_id event text now'))
            ])
          ]

      handle-Returns :
          (s : State) (world : World) (message_id : String) (fields : Fields)
          (deliveries now now' : ℕ)
          → IsHarmless (message_id, fields)
          → Returns (handle python gateway others s world message_id fields deliveries now now')
      unfolding handle
      handle-Returns s world message_id fields deliveries now now' (readable, storable) =
          let alone = read_event_alone python gateway others fields in
          elim (Result-cases (read_event python gateway others fields)) [
            | inl (event, read) ↦
                rw (read, handle)
                  (handle_event-Returns s world message_id fields event deliveries now now'
                    (λ text. storable event text now (sym alone ∙ read)))
            | inr (attribute_error, read) ↦ absurd (readable (sym alone ∙ read))
            | inr (value_error, read) ↦ rw (read, handle) (_, _, _, refl)
            | inr (invalid_event, read) ↦ rw (read, handle) (_, _, _, refl)
          ]

    abbrev Closes : String → Ending → Type 0
    Closes message_id (err (e, s)) = Unit
    Closes message_id (ok (outcome, s)) = is_pending message_id s ≡ false

    -- A message that was delivered too often does not wait on.
    handle_overdue-Closes :
        (s : State) (world : World) (message_id : String) (fields : Fields)
        (deliveries now now' : ℕ)
        → ltb max_deliveries deliveries ≡ true
        → Closes message_id
            (handle python gateway others s world message_id fields deliveries now now').0
    unfolding handle
    handle_overdue-Closes s world message_id fields deliveries now now' late =
        elim (Result-cases (read_event python gateway others fields)) [
          | inl (event, read) ↦
              rw (read, handle)
                (rw late (dead_letter_closes s message_id fields _ (some event.event_id) now))
          | inr (attribute_error, read) ↦ rw (read, handle) tt
          | inr (value_error, read) ↦
              rw (read, handle) (dead_letter_closes s message_id fields _ none now)
          | inr (invalid_event, read) ↦
              rw (read, handle) (dead_letter_closes s message_id fields _ none now)
        ]

  module _ (message_id : String) where
    -- A delivery of the message beyond the last one that a message gets.
    abbrev pub is_overdue : Delivery → Bool
    is_overdue d = str_eq d.message_id message_id && ltb max_deliveries d.deliveries

    module _ (moments : ℕ → Moment)
        (tame : (n : ℕ) (late : Bool) (rows : List Notification)
          → Extends rows ((moments n).others late rows))
        (answers_fit : AnswersFit) where
      step-Closes :
          (d : Delivery) (n : ℕ) (s : State) (world : World) (o : Outcome) (s' : State)
          → (handle python gateway
              (moments n).others
              s
              world
              d.message_id
              d.fields
              d.deliveries
              (moments n).now
              (moments n).now').0
            ≡ ok (o, s')
          → (is_overdue d ≡ true) ⊎ (is_pending message_id s ≡ false)
          → is_pending message_id s' ≡ false
      step-Closes d n s world o s' e (inr gone) =
          let m = moments n in
          let (grown, letters, pends, stays_gone, here) =
            handle-Settles python gateway m.others (tame n) s world d.message_id d.fields
              d.deliveries m.now m.now' o s' e in
          stays_gone message_id gone
      step-Closes d n s world o s' e (inl due) =
          let m = moments n in
          let same = (eq_iff d.message_id message_id).0 (ground arith) in
          subst (λ i. is_pending i s' ≡ false) same
            (subst (Closes m.others d.message_id) e (
              handle_overdue-Closes m.others s world d.message_id d.fields d.deliveries m.now m.now'
                (ground arith)))

      pub handle_all-Closes :
          (ds : List Delivery) (n : ℕ) (results : Counter) (s : State) (world : World)
          → All (On IsHarmless) ds
          → (c : Counter) × (s' : State) × (w : World) × (handle_all python gateway ds moments n
                results s world
              ≡ ((ok c, s'), w))
            × ((any_of is_overdue ds ≡ true) ⊎ (is_pending message_id s ≡ false)
                → is_pending message_id s' ≡ false)
      unfolding handle_all
      handle_all-Closes [] n results s world harmless = (results, s, world, refl, none_due)
        where
          none_due :
              (false ≡ true) ⊎ (is_pending message_id s ≡ false) → is_pending message_id s ≡ false
          none_due (inl never) = absurd (ground arith)
          none_due (inr gone) = gone
      handle_all-Closes (d ∷ ds) n results s world harmless =
          let m = moments n in
          let (o, s1, w1, one) =
            handle-Returns m.others answers_fit s world d.message_id d.fields d.deliveries m.now
              m.now' harmless.0 in
          let (c, s2, w2, rest, closes) =
            handle_all-Closes ds (n + 1) (count o results) s1 w1 harmless.1 in
          (
            c,
            s2,
            w2,
            rw (one, handle_all) rest,
            λ due. closes (
                still s1 (any_of is_overdue ds) (step-Closes d n s world o s1 (ap (λ r. r.0) one))
                  due),
          )
        where
          still :
              (s1 : State) (later : Bool)
              → ((is_overdue d ≡ true) ⊎ (is_pending message_id s ≡ false)
                  → is_pending message_id s1 ≡ false)
              → ((is_overdue d || later) ≡ true) ⊎ (is_pending message_id s ≡ false)
              → (later ≡ true) ⊎ (is_pending message_id s1 ≡ false)
          still s1 later step (inr gone) = inr (step (inr gone))
          still s1 true step (inl due) = inl refl
          still s1 false step (inl due) = inr (step (inl (ground (arith, due))))
