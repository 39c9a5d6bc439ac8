-- ===== src/Notifier/Accounts.antt =====
-- No message is lost: where one is that no longer waits for its acknowledgement.
use slot.Prelude.{
  ℕ, if◌then◌else◌, String, ◌≡◌, refl, inl, inr, Bool, true, false, not, ◌||◌, Option, none, some,
  List, [], ◌∷◌, arith, ◌⊎◌, str_eq, eq_iff, eq_refl, any_of, select, update_where, ltb, Bool-cases,
  Option-cases, Result, ok, err, Result-cases, subst, ap, sym, find_by_holds, find_by-update_where,
  find_by-any_of,
}
use slot.Notifier.Domain.{
  Python, ParseError, value_error, invalid_event, attribute_error, BookingEvent, render,
}
use slot.Notifier.Models.{
  Notification, id_width, fits, is_storable, is_of_event, get_notification, Fields, State,
}
use slot.Notifier.Gateway.{SendError, send_answer}
use slot.Notifier.Consumer.{
  max_deliveries, Outcome, Ending, is_done, insert_claim, with_failure, with_sent, with_dead,
  dead_letter, Gateway, claim_row, read_event, finish, after_claim, handle_event, handle,
}
use slot.Notifier.Outcomes.{is_pending}
use slot.Notifier.Rows.{
  Extends, Extends-refl, Extends-trans, update-Extends, insert_claim-Extends, insert_claim_present,
}

abbrev pub has_letter : String → State → Bool
has_letter message_id s = any_of (λ l. str_eq l.original_id message_id) s.dead_letters

module _ (python : Python) where
  -- The event needs no notification, or has one that is sent or given up.
  abbrev pub is_answered : Result ParseError (BookingEvent python) → List Notification → Bool
  is_answered (err e) rows = false
  is_answered (ok event) rows = elim (render python event) [
    | none ↦ true
    | some text ↦ is_done (get_notification event.event_id rows)
  ]

-- What handling the message `x`, with what it reads as, may do to the state.
abbrev pub Settles :
    (python : Python) → String → Result ParseError (BookingEvent python) → State → State → Type 0
Settles python x reading s s' =
    Extends s.rows s'.rows
    × ((m : String) → has_letter m s ≡ true → has_letter m s' ≡ true)
    × ((m : String) → str_eq m x ≡ false → is_pending m s' ≡ is_pending m s)
    × ((m : String) → is_pending m s ≡ false → is_pending m s' ≡ false)
    × ((is_pending x s' ≡ is_pending x s)
        ⊎ ((has_letter x s' ≡ true) ⊎ (is_answered python reading s'.rows ≡ true)))

-- The same of the state that handling ends in, also if it raises.
abbrev pub SettlesResult :
    (python : Python) → String → Result ParseError (BookingEvent python) → State → Ending → Type 0
SettlesResult python x reading s (err (e, s')) = Settles python x reading s s'
SettlesResult python x reading s (ok (outcome, s')) = Settles python x reading s s'

-- Nothing done settles whatever is read.
Settles-refl :
    (python : Python) (x : String) (reading : Result ParseError (BookingEvent python)) (s : State)
    → Settles python x reading s s
Settles-refl python x reading s =
    (Extends-refl s.rows, λ m h. h, λ m differ. refl, λ m gone. gone, inl refl)

differ_sym : (i m : String) → str_eq m i ≡ false → str_eq i m ≡ false
differ_sym i m differ = elim (Bool-cases (str_eq i m)) [
  | inl hit ↦ absurd (cc (differ, subst (λ j. str_eq j i ≡ true) ((eq_iff i m).0 hit) (eq_refl i)))
  | inr miss ↦ miss
]

or_right : (a b : Bool) → b ≡ true → (a || b) ≡ true
or_right true b h = refl
or_right false b h = h

others_left :
    (x m : String) (ids : List String)
    → str_eq m x ≡ false
    → any_of (λ i. str_eq i m) (select (λ i. not (str_eq i x)) ids) ≡ any_of (λ i. str_eq i m) ids
others_left x m [] differ = refl
others_left x m (i ∷ ids) differ = elim (Bool-cases (str_eq i x)) [
  | inl hit ↦
      let eq = (eq_iff i x).0 hit in
      let miss : str_eq i m ≡ false =
        subst (λ j. str_eq j m ≡ false) (sym eq) (differ_sym x m differ) in
      rw hit (rw miss (others_left x m ids differ))
  | inr other ↦ rw other (ap (λ b. str_eq i m || b) (others_left x m ids differ))
]

none_back :
    (x m : String) (ids : List String)
    → any_of (λ i. str_eq i m) ids ≡ false
    → any_of (λ i. str_eq i m) (select (λ i. not (str_eq i x)) ids) ≡ false
none_back x m [] h = refl
none_back x m (i ∷ ids) h = ground (arith, none_back x m ids)

dead_letter-Settles :
    (python : Python) (reading : Result ParseError (BookingEvent python)) (s : State)
    (message_id : String) (fields : Fields) (reason : String) (event_id : Option String) (now : ℕ)
    → Settles python message_id reading s (dead_letter s message_id fields reason event_id now).1
unfolding dead_letter
dead_letter-Settles python reading s message_id fields reason none now = (
  Extends-refl s.rows,
  λ m h. or_right _ _ h,
  λ m differ. others_left message_id m s.pending differ,
  λ m gone. none_back message_id m s.pending gone,
  inr (inl (rw (eq_refl message_id) refl)),
)
dead_letter-Settles python reading s message_id fields reason (some i) now = (
  update-Extends (with_dead reason now) (λ n. refl) (λ n over. refl) i s.rows,
  λ m h. or_right _ _ h,
  λ m differ. others_left message_id m s.pending differ,
  λ m gone. none_back message_id m s.pending gone,
  inr (inl (rw (eq_refl message_id) refl)),
)

module _ (python : Python) {World : Type 0} (gateway : Gateway World)
    (others : Bool → List Notification → List Notification)
    (tame : (late : Bool) (rows : List Notification) → Extends rows (others late rows)) where
  -- The claim leaves the row of the event there.
  abbrev claimed_rows : BookingEvent python → String → ℕ → List Notification → List Notification
  claimed_rows event text now rows =
      others false (insert_claim (claim_row python gateway others event text now) rows)

  claimed-Extends :
      (event : BookingEvent python) (text : String) (now : ℕ) (rows : List Notification)
      → Extends rows (claimed_rows event text now rows)
  claimed-Extends event text now rows =
      let n = claim_row python gateway others event text now in
      Extends-trans rows (insert_claim n rows) _ (insert_claim-Extends n rows)
        (tame false (insert_claim n rows))

  claimed_present :
      (event : BookingEvent python) (text : String) (now : ℕ) (rows : List Notification)
      → any_of (is_of_event event.event_id) (claimed_rows event text now rows) ≡ true
  claimed_present event text now rows =
      let n = claim_row python gateway others event text now in
      (tame false (insert_claim n rows) event.event_id).0 (insert_claim_present n rows)

  sent_done :
      (gateway_id event_id : String) (now : ℕ) (rows : List Notification)
      → any_of (is_of_event event_id) rows ≡ true
      → is_done (
          get_notification event_id
            (update_where (is_of_event event_id) (with_sent gateway_id now) rows))
        ≡ true
  sent_done gateway_id event_id now rows there =
      let (n, row) = find_by-any_of (is_of_event event_id) rows there in
      let after =
        find_by-update_where (is_of_event event_id) (is_of_event event_id)
          (with_sent gateway_id now) rows n (λ x. refl) row in
      rw after (rw (find_by_holds (is_of_event event_id) rows n row) refl)

  finish-Settles :
      (answer : Result SendError String) (s s' : State) (message_id : String)
      (event : BookingEvent python) (text : String) (now : ℕ)
      → render python event ≡ some text
      → Extends s.rows s'.rows
      → s'.pending ≡ s.pending
      → s'.dead_letters ≡ s.dead_letters
      → any_of (is_of_event event.event_id) s'.rows ≡ true
      → SettlesResult python message_id
          (ok event)
          s
          (finish python gateway others answer s' message_id event now)
  finish-Settles (err e) s s' message_id event text now known grown pends letters there = (
    Extends-trans s.rows s'.rows _ grown (
        update-Extends (with_failure (gateway.error_text e) now) (λ n. refl) (λ n over. over)
          event.event_id s'.rows),
    λ m h. rw letters h,
    λ m differ. rw pends refl,
    λ m gone. rw pends gone,
    inl (rw pends refl),
  )
  finish-Settles (ok i) s s' message_id event text now known grown pends letters there =
      elim (Bool-cases (fits id_width i)) [
        | inr long ↦ rw long (
          grown,
          λ m h. rw letters h,
          λ m differ. rw pends refl,
          λ m gone. rw pends gone,
          inl (rw pends refl),
        )
        | inl short ↦ rw short (
          Extends-trans s.rows s'.rows _ grown (
              update-Extends (with_sent i now) (λ n. refl) (λ n over. refl) event.event_id s'.rows),
          λ m h. rw letters h,
          λ m differ. rw pends (others_left message_id m s.pending differ),
          λ m gone. rw pends (none_back message_id m s.pending gone),
          inr (inr (rw (known, is_answered) (sent_done i event.event_id now s'.rows there))),
        )
      ]

  after_claim-Settles :
      (done : Bool) (s s' : State) (world : World) (message_id : String)
      (event : BookingEvent python) (text : String) (now : ℕ)
      → render python event ≡ some text
      → Extends s.rows s'.rows
      → s'.pending ≡ s.pending
      → s'.dead_letters ≡ s.dead_letters
      → any_of (is_of_event event.event_id) s'.rows ≡ true
      → (done ≡ true → is_done (get_notification event.event_id s'.rows) ≡ true)
      → SettlesResult python message_id
          (ok event)
          s
          (after_claim python gateway others done s' world message_id event text now).0
  after_claim-Settles true s s' world message_id event text now known grown pends letters there
        over =
      (
        grown,
        λ m h. rw letters h,
        λ m differ. rw pends (others_left message_id m s.pending differ),
        λ m gone. rw pends (none_back message_id m s.pending gone),
        inr (inr (rw (known, is_answered) (over refl))),
      )
  after_claim-Settles false s s' world message_id event text now known grown pends letters there
        over =
      finish-Settles (send_answer (gateway.post world event.event_id event.client_id text).0) s
        (record s' { rows = others true s'.rows }) message_id event text now known
        (Extends-trans s.rows s'.rows _ grown (tame true s'.rows)) pends letters
        ((tame true s'.rows event.event_id).0 there)

  seen_done :
      (existed : Bool) (row : Option Notification)
      → (if existed then is_done row else false) ≡ true
      → is_done row ≡ true
  seen_done true row h = h
  seen_done false row h = absurd (ground arith)

  handle_event-Settles :
      (s : State) (world : World) (message_id : String) (fields : Fields)
      (event : BookingEvent python) (deliveries now now' : ℕ)
      → SettlesResult python message_id
          (ok event)
          s
          (handle_event python gateway others s world message_id fields event deliveries now now').0
  handle_event-Settles s world message_id fields event deliveries now now' =
      elim (Bool-cases (ltb max_deliveries deliveries)) [
        | inl late ↦
            rw late (
              dead_letter-Settles python (ok event) s message_id fields _ (some event.event_id) now)
        | inr due ↦ rw due (elim (Option-cases (render python event)) [
          | inl unknown ↦ rw unknown (
            Extends-refl s.rows,
            λ m h. h,
            λ m differ. others_left message_id m s.pending differ,
            λ m gone. none_back message_id m s.pending gone,
            inr (inr (rw (unknown, is_answered) refl)),
          )
          | inr (text, known) ↦
              let claim = claim_row python gateway others event text now in
              rw known (elim (Bool-cases (is_storable claim)) [
                | inr long ↦ rw long (Settles-refl python message_id (ok event) s)
                | inl short ↦ rw short (
                    after_claim-Settles _ s (record s { rows = claimed_rows event text now s.rows })
                      world message_id event text now' known (claimed-Extends event text now s.rows)
                      refl refl (claimed_present event text now s.rows)
                      (seen_done (any_of (is_of_event event.event_id) s.rows)
                        (get_notification event.event_id (claimed_rows event text now s.rows))))
              ])
        ])
      ]

  pub handle-SettlesResult :
      (s : State) (world : World) (message_id : String) (fields : Fields) (deliveries now now' : ℕ)
      → SettlesResult python message_id
          (read_event python gateway others fields)
          s
          (handle python gateway others s world message_id fields deliveries now now').0
  unfolding handle
  handle-SettlesResult s world message_id fields deliveries now now' =
      elim (Result-cases (read_event python gateway others fields)) [
        | inl (event, read) ↦
            rw (read, handle)
              (handle_event-Settles s world message_id fields event deliveries now now')
        | inr (attribute_error, read) ↦
            rw (read, handle) (Settles-refl python message_id (err attribute_error) s)
        | inr (value_error, read) ↦
            rw (read, handle)
              (dead_letter-Settles python (err value_error) s message_id fields _ none now)
        | inr (invalid_event, read) ↦
            rw (read, handle)
              (dead_letter-Settles python (err invalid_event) s message_id fields _ none now)
      ]

  pub handle-Settles :
      (s : State) (world : World) (message_id : String) (fields : Fields) (deliveries now now' : ℕ)
      (o : Outcome) (s' : State)
      → (handle python gateway others s world message_id fields deliveries now now').0 ≡ ok (o, s')
      → Settles python message_id (read_event python gateway others fields) s s'
  handle-Settles s world message_id fields deliveries now now' o s' e =
      subst (SettlesResult python message_id (read_event python gateway others fields) s) e
        (handle-SettlesResult s world message_id fields deliveries now now')
