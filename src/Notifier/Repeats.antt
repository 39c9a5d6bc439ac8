-- ===== src/Notifier/Repeats.antt =====
-- An event that is delivered again: who is told twice, and what the row says.
use slot.Prelude.{
  ℕ, ◌≤◌, ◌<◌, String, ◌≡◌, ◌≢◌, refl, inl, inr, Bool, true, false, Option, none, some, List, arith,
  str_eq, any_of, any_of-find_by, find_by_holds, count_if, update_where, find_by-update_where,
  count_if-update_where-le, count_if-eq-zero, ltb, Bool-cases, Option-cases, Result, ok, err,
  Result-cases, eq_iff, subst, ap, ◌∙◌,
}
use slot.Notifier.Domain.{
  Python, sending, value_error, invalid_event, attribute_error, BookingEvent, render,
}
use slot.Notifier.Models.{
  Notification, id_width, fits, is_storable, is_of_event, get_notification, Fields, State,
}
use slot.Notifier.Gateway.{SendError, send_answer}
use slot.Notifier.Consumer.{
  max_deliveries, Outcome, Ending, is_sending, is_done, insert_claim, with_failure, with_sent,
  with_dead, dead_letter, delivered_times, Gateway, claim_row, read_event, finish, after_claim,
  handle_event, handle,
}

done_of_status : (n : Notification) → n.status ≢ sending → is_done (some n) ≡ true
done_of_status n h = elim (Bool-cases (is_sending n.status)) [
  | inl still ↦ absurd (h (ground arith))
  | inr over ↦ rw over refl
]

-- At most one row per event.
abbrev pub IsKeyed : List Notification → Type 0
IsKeyed rows = (e : String) → count_if (is_of_event e) rows ≤ 1

abbrev pub KeyedResult : Ending → Type 0
KeyedResult (err (e, s)) = IsKeyed s.rows
KeyedResult (ok (outcome, s)) = IsKeyed s.rows

module _ (f : Notification → Notification)
    (keeps : (n : Notification) → (f n).event_id ≡ n.event_id) where
  update-IsKeyed :
      (event_id : String) (rows : List Notification)
      → IsKeyed rows
      → IsKeyed (update_where (is_of_event event_id) f rows)
  update-IsKeyed event_id rows h e =
      let fewer =
        count_if-update_where-le (is_of_event e) (is_of_event event_id) f rows
          (λ n hit there. subst (λ x. str_eq x e ≡ true) (keeps n) there) in
      omega (arith, fewer, h e)

  updated_row :
      (event_id : String) (rows : List Notification) (n : Notification)
      → get_notification event_id rows ≡ some n
      → get_notification event_id (update_where (is_of_event event_id) f rows) ≡ some (f n)
  updated_row event_id rows n found =
      let hit = find_by_holds (is_of_event event_id) rows n found in
      find_by-update_where (is_of_event event_id) (is_of_event event_id) f rows n
        (λ x. ap (λ i. str_eq i event_id) (keeps x)) found
      ∙ rw hit refl

dead_letter-IsKeyed :
    (s : State) (message_id : String) (fields : Fields) (reason : String) (event_id : Option String)
    (now : ℕ)
    → IsKeyed s.rows
    → IsKeyed (dead_letter s message_id fields reason event_id now).1.rows
unfolding dead_letter
dead_letter-IsKeyed s message_id fields reason none now h = h
dead_letter-IsKeyed s message_id fields reason (some i) now h =
    update-IsKeyed (with_dead reason now) (λ n. refl) i s.rows h

insert_claim-IsKeyed :
    (n : Notification) (rows : List Notification) → IsKeyed rows → IsKeyed (insert_claim n rows)
insert_claim-IsKeyed n rows h e = elim (Bool-cases (any_of (is_of_event n.event_id) rows)) [
  | inl there ↦ rw there (h e)
  | inr fresh ↦ rw fresh (elim (Bool-cases (str_eq n.event_id e)) [
    | inl same ↦
        let eq : n.event_id ≡ e = (eq_iff n.event_id e).0 same in
        ground (arith, eq, count_if-eq-zero (is_of_event n.event_id) rows fresh)
    | inr other ↦ ground (arith, h e)
  ])
]

module _ (python : Python) {World : Type 0} (gateway : Gateway World)
    (others : Bool → List Notification → List Notification) where
  finish-IsKeyed :
      (answer : Result SendError String) (s : State) (message_id : String)
      (event : BookingEvent python) (now : ℕ)
      → IsKeyed s.rows
      → KeyedResult (finish python gateway others answer s message_id event now)
  finish-IsKeyed (err e) s message_id event now h =
      update-IsKeyed (with_failure (gateway.error_text e) now) (λ n. refl) event.event_id s.rows h
  finish-IsKeyed (ok i) s message_id event now h = elim (Bool-cases (fits id_width i)) [
    | inl short ↦ rw short (update-IsKeyed (with_sent i now) (λ n. refl) event.event_id s.rows h)
    | inr long ↦ rw long h
  ]

  module _
      (tame : (late : Bool) (rows : List Notification)
        → IsKeyed rows
        → IsKeyed (others late rows)) where
    after_claim-IsKeyed :
        (done : Bool) (s : State) (world : World) (message_id : String)
        (event : BookingEvent python) (text : String) (now : ℕ)
        → IsKeyed s.rows
        → KeyedResult (after_claim python gateway others done s world message_id event text now).0
    after_claim-IsKeyed true s world message_id event text now h = h
    after_claim-IsKeyed false s world message_id event text now h =
        finish-IsKeyed (send_answer (gateway.post world event.event_id event.client_id text).0)
          (record s { rows = others true s.rows }) message_id event now (tame true s.rows h)

    handle_event-IsKeyed :
        (s : State) (world : World) (message_id : String) (fields : Fields)
        (event : BookingEvent python) (deliveries now now' : ℕ)
        → IsKeyed s.rows
        → KeyedResult
            (handle_event python gateway others s world message_id fields event deliveries now
              now').0
    handle_event-IsKeyed s world message_id fields event deliveries now now' h =
        elim (Bool-cases (ltb max_deliveries deliveries)) [
          | inl over ↦
              rw over (dead_letter-IsKeyed s message_id fields _ (some event.event_id) now h)
          | inr due ↦ rw due (elim (Option-cases (render python event)) [
            | inl unknown ↦ rw unknown h
            | inr (text, known) ↦
                let claim = claim_row python gateway others event text now in
                rw known (elim (Bool-cases (is_storable claim)) [
                  | inl short ↦ rw short (
                      after_claim-IsKeyed _ _ world message_id event text now'
                        (tame false _ (insert_claim-IsKeyed claim s.rows h)))
                  | inr long ↦ rw long h
                ])
          ])
        ]

    -- Handling a message keeps at most one row per event, where the other consumers do.
    pub handle-IsKeyed :
        (s : State) (world : World) (message_id : String) (fields : Fields)
        (deliveries now now' : ℕ)
        → IsKeyed s.rows
        → KeyedResult (handle python gateway others s world message_id fields deliveries now now').0
    unfolding handle
    handle-IsKeyed s world message_id fields deliveries now now' h =
        elim (Result-cases (read_event python gateway others fields)) [
          | inl (event, read) ↦
              rw (read, handle)
                (handle_event-IsKeyed s world message_id fields event deliveries now now' h)
          | inr (attribute_error, read) ↦ rw (read, handle) h
          | inr (value_error, read) ↦
              rw (read, handle) (dead_letter-IsKeyed s message_id fields _ none now h)
          | inr (invalid_event, read) ↦
              rw (read, handle) (dead_letter-IsKeyed s message_id fields _ none now h)
        ]

  -- An event whose notification is sent or given up is not sent again, at any delivery of any
  -- message with it, as long as the other consumers do not open it again while it is looked at.
  pub handle_done :
      (s : State) (world : World) (message_id : String) (fields : Fields) (deliveries now now' : ℕ)
      (event : BookingEvent python) (n n' : Notification)
      → read_event python gateway others fields ≡ ok event
      → get_notification event.event_id s.rows ≡ some n
      → get_notification event.event_id (others false s.rows) ≡ some n'
      → n'.status ≢ sending
      → (handle python gateway others s world message_id fields deliveries now now').1 ≡ world
  unfolding handle
  handle_done s world message_id fields deliveries now now' event n n' read row later over =
      let there = any_of-find_by (is_of_event event.event_id) s.rows n row in
      let done = done_of_status n' over in
      rw (read, handle)
        (elim (Bool-cases (ltb max_deliveries deliveries)) [
          | inl late ↦ rw late refl
          | inr due ↦ rw due (elim (Option-cases (render python event)) [
            | inl unknown ↦ rw unknown refl
            | inr (text, known) ↦
                rw known
                  (elim (Bool-cases
                    (is_storable (claim_row python gateway others event text now))) [
                      | inl short ↦ rw short (rw there (rw later (rw done refl)))
                      | inr long ↦ rw long refl
                    ])
          ])
        ])

  -- A message that was delivered too often makes the row of its event say `dead`, also where the
  -- row says that the client has been told.
  pub handle_overdelivered :
      (s : State) (world : World) (message_id : String) (fields : Fields) (deliveries now now' : ℕ)
      (event : BookingEvent python) (n : Notification)
      → read_event python gateway others fields ≡ ok event
      → max_deliveries < deliveries
      → get_notification event.event_id s.rows ≡ some n
      → (s' : State) × (o : Outcome) × (handle python gateway others s world message_id fields
            deliveries now now'
          ≡ (ok (o, s'), world))
        × (get_notification event.event_id s'.rows
            ≡ some (with_dead (gateway.reason_text (delivered_times deliveries)) now n))
  unfolding handle dead_letter
  handle_overdelivered s world message_id fields deliveries now now' event n read often row =
      let over : ltb max_deliveries deliveries ≡ true = ground arith in
      rw (read, handle)
        (rw over (
          _,
          _,
          refl,
          updated_row (with_dead (gateway.reason_text (delivered_times deliveries)) now) (λ x. refl)
              event.event_id s.rows n row,
        ))
