-- ===== src/Notifier/Lossless.antt =====
-- No message of the stream is lost over a turn of the consumer's loop.
use slot.Prelude.{
  ℕ, ◌+◌, String, ◌≡◌, refl, inl, inr, ◌⊎◌, Bool, true, false, List, [], ◌∷◌, ◌++◌, map, str_eq,
  eq_iff, any_of, All, All-append, Bool-cases, Result, ok, err, sym, subst, ◌∙◌, ◌||◌, none, some,
  Option-cases,
}
use slot.Notifier.Domain.{Python, ParseError, BookingEvent, render}
use slot.Notifier.Models.{Notification, get_notification, Fields, State}
use slot.Notifier.Consumer.{Outcome, HandleError, Ending, is_done, Gateway, read_event, handle}
use slot.Notifier.Outcomes.{is_pending}
use slot.Notifier.Rows.{Extends}
use slot.Notifier.Turns.{
  On, AllReclaimed, reclaimed-All, fresh-All, ClaimsAsked, reclaimed-Returns, noted_pending,
}
use slot.Notifier.Accounts.{has_letter, is_answered, Settles, SettlesResult, handle-SettlesResult}
use slot.Notifier.Stream.{
  Counter, no_results, count, Delivery, Moment, Turn, RunError, idle_ms, batch, fresh_delivery,
  fresh, note_read, after_handle, handle_all, run_once,
}

or_right : (a b : Bool) → b ≡ true → (a || b) ≡ true
or_right true b h = refl
or_right false b h = h

abbrev pub undisturbed : Bool → List Notification → List Notification
undisturbed late rows = rows

after_handle-keeps :
    {W : Type 0} (P : State → Type 0) (result : Ending × W)
    (rest : Outcome → State → W → (Result RunError Counter × State) × W)
    → ((e : HandleError) (s' : State) (w : W) → result ≡ (err (e, s'), w) → P s')
    → ((o : Outcome) (s' : State) (w : W) → result ≡ (ok (o, s'), w) → P (rest o s' w).0.1)
    → P (after_handle result rest).0.1
after_handle-keeps P (err (e, s'), w) rest stop next = stop e s' w refl
after_handle-keeps P (ok (o, s'), w) rest stop next = next o s' w refl

-- Reading a message takes nothing of what other consumers do.
pub read_event_alone :
    (python : Python) {World : Type 0} (gateway : Gateway World)
    (others : Bool → List Notification → List Notification) (read : Fields)
    → read_event python gateway others read ≡ read_event python gateway undisturbed read
unfolding read_event
read_event_alone python gateway others read = refl

module _ (python : Python) {World : Type 0} (gateway : Gateway World) (message_id : String)
    (fields : Fields) where
  -- The message waits for its acknowledgement, or is on the dead-letter stream, or its event needs
  -- no notification or has one that is sent or given up.
  abbrev pub IsAccounted : State → Type 0
  IsAccounted s =
      (is_pending message_id s ≡ true)
      ⊎ ((has_letter message_id s ≡ true)
          ⊎ (is_answered python (read_event python gateway undisturbed fields) s.rows ≡ true))

  -- A message with the id has the fields.
  abbrev pub Agrees : String × Fields → Type 0
  Agrees message = message.0 ≡ message_id → message.1 ≡ fields

  answered_stays :
      (reading : Result ParseError (BookingEvent python)) (rows rows' : List Notification)
      → Extends rows rows'
      → is_answered python reading rows ≡ true
      → is_answered python reading rows' ≡ true
  answered_stays (err e) rows rows' grown h = h
  answered_stays (ok event) rows rows' grown h = elim (Option-cases (render python event)) [
    | inl unknown ↦ rw (unknown, is_answered) refl
    | inr (text, known) ↦ rw (known, is_answered) ((grown event.event_id).1 (by_text text known h))
  ]
    where
      by_text :
          (text : String)
          → render python event ≡ some text
          → is_answered python (ok event) rows ≡ true
          → is_done (get_notification event.event_id rows) ≡ true
      by_text text known h =
          subst
            (λ t.
              elim t [ none ↦ true | some _ ↦ is_done (get_notification event.event_id rows) ]
              ≡ true)
            known h

  settled-IsAccounted :
      (x : String) (read : Fields) (s s' : State)
      → Agrees (x, read)
      → Settles python x (read_event python gateway undisturbed read) s s'
      → IsAccounted s
      → IsAccounted s'
  settled-IsAccounted x read s s' agrees (grown, letters, pends, gone, here) (inr (inl letter)) =
      inr (inl (letters message_id letter))
  settled-IsAccounted x read s s' agrees (grown, letters, pends, gone, here) (inr (inr answered)) =
      inr (
        inr (
          answered_stays (read_event python gateway undisturbed fields) s.rows s'.rows grown
            answered))
  settled-IsAccounted x read s s' agrees (grown, letters, pends, gone, here) (inl waits) =
      elim (Bool-cases (str_eq message_id x)) [
        | inr differ ↦ inl (pends message_id differ ∙ waits)
        | inl same ↦
            let eq : x ≡ message_id = sym ((eq_iff message_id x).0 same) in
            elim here [
              | inl kept ↦ inl (subst (λ i. is_pending i s' ≡ is_pending i s) eq kept ∙ waits)
              | inr (inl letter) ↦ inr (inl (subst (λ i. has_letter i s' ≡ true) eq letter))
              | inr (inr answered) ↦ inr (
                  inr (
                    subst
                      (λ f.
                        is_answered python (read_event python gateway undisturbed f) s'.rows ≡ true)
                      (agrees eq) answered))
            ]
      ]

  module _ (moments : ℕ → Moment)
      (tame : (n : ℕ) (late : Bool) (rows : List Notification)
        → Extends rows ((moments n).others late rows)) where
    handle_all-IsAccounted :
        (ds : List Delivery) (n : ℕ) (results : Counter) (s : State) (world : World)
        → All (On Agrees) ds
        → IsAccounted s
        → IsAccounted (handle_all python gateway ds moments n results s world).0.1
    unfolding handle_all
    handle_all-IsAccounted [] n results s world agree h = h
    handle_all-IsAccounted (d ∷ ds) n results s world agree h =
        let m = moments n in
        let one =
          handle python gateway m.others s world d.message_id d.fields d.deliveries m.now m.now' in
        let settles =
          subst (λ r. SettlesResult python d.message_id r s one.0)
            (read_event_alone python gateway m.others d.fields)
            (handle-SettlesResult python gateway m.others (tame n) s world d.message_id d.fields
              d.deliveries m.now m.now') in
        let reading = read_event python gateway undisturbed d.fields in
        after_handle-keeps IsAccounted one _
          (λ e s' w ended.
            settled-IsAccounted d.message_id d.fields s s' agree.0
              (subst (λ r. SettlesResult python d.message_id reading s r.0) ended settles) h)
          (λ o s' w ended. handle_all-IsAccounted ds (n + 1) (count o results) s' w agree.1 (
            settled-IsAccounted d.message_id d.fields s s' agree.0
              (subst (λ r. SettlesResult python d.message_id reading s r.0) ended settles) h))

  noted-IsAccounted :
      (messages : List (String × Fields)) (s : State)
      → IsAccounted s ⊎ (any_of (λ m. str_eq m.0 message_id) messages ≡ true)
      → IsAccounted (note_read (map fresh_delivery messages) s)
  noted-IsAccounted messages s (inl (inl waits)) =
      inl (noted_pending messages message_id s ∙ or_right _ _ waits)
  noted-IsAccounted messages s (inl (inr done)) = inr done
  noted-IsAccounted messages s (inr new) = inl (noted_pending messages message_id s ∙ rw new refl)

  -- No silent loss: a message that was accounted for, or that the turn newly reads, is accounted for
  -- after the turn, also if the turn raises, where other consumers neither remove rows nor open again
  -- what is dealt with, the broker answers to a claim with messages of the ids asked for, and one id
  -- stands for one message.
  pub run_once-IsAccounted :
      (turn : Turn) (s : State) (world : World)
      → ((n : ℕ) (late : Bool) (rows : List Notification)
          → Extends rows ((turn.moments n).others late rows))
      → ClaimsAsked turn.broker
      → ((ids : List String) → All Agrees (turn.broker.xclaim idle_ms ids))
      → All Agrees (turn.broker.xreadgroup batch)
      → IsAccounted s ⊎ (any_of (λ m. str_eq m.0 message_id) (turn.broker.xreadgroup batch) ≡ true)
      → IsAccounted (run_once python gateway turn s world).0.1
  unfolding run_once
  run_once-IsAccounted turn s world tame asked claims reads here =
      let (ds, found) = reclaimed-Returns turn.broker asked in
      let agree = subst (AllReclaimed Agrees) found (reclaimed-All Agrees turn.broker claims) in
      rw (found, run_once)
        (handle_all-IsAccounted turn.moments tame (ds ++ fresh turn.broker) 0 no_results
          (note_read (fresh turn.broker) s) world
          (All-append _ ds (fresh turn.broker) agree
            (fresh-All Agrees (turn.broker.xreadgroup batch) reads))
          (noted-IsAccounted (turn.broker.xreadgroup batch) s here))
