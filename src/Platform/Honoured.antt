-- ===== src/Platform/Honoured.antt =====
-- What a run of the payments relay against the booking service leaves.
use slot.Prelude.{
  Answer, ℕ, suc, String, ◌≡◌, refl, Bool, true, Option, none, some, List, [], ◌∷◌, ◌∙◌, str_eq,
  any_of, All, Result, ok, err,
}
use slot.Booking.Models.{Db as BookingDb, OutboxMessage as Event}
use slot.Booking.Tokens.{Stdlib}
use slot.Booking.Invariant.{IsValid}
use slot.Booking.Http.{Env, Payment}
use slot.Payments.Domain.{Failure, confirm_booking}
use slot.Payments.Models.{OutboxMessage, Db}
use slot.Payments.Clients.{Refund}
use slot.Payments.Relay.{
  pending_commands, mark_published, Neighbours, deliver, Run, deliver_each, settle, process_pending,
}
use slot.Payments.Relay.Refunds.{is_refund}
use slot.Platform.Deliveries.{
  is_honoured, Grows, KeepsRefunds, Grows-trans, Delivers, mark-keeps, is_honoured-keeps, services,
  deliver-Delivers,
}

module _ (lib : Stdlib) (env : Env) (post : ℕ → ℕ → String → Answer Payment) (now : ℕ)
    (message_ids : ℕ → ℕ) (provider : BookingDb → ℕ → String → ℕ → Answer Refund)
    (message_of : Failure → String) where
  abbrev neighbours : Neighbours BookingDb
  neighbours = services lib env post now message_ids provider message_of

  -- How the rest of a run goes on from a delivery.
  abbrev Honours : List OutboxMessage → Option (ℕ × Failure) → BookingDb → Db → Type 0
  Honours ms (some failure) bookings db = Unit
  Honours ms none bookings db =
      All (λ m. str_eq m.topic confirm_booking ≡ true → is_honoured bookings db m ≡ true) ms

  record Ends (bookings : BookingDb) (db : Db) (ms : List OutboxMessage) (run : Run neighbours)
      : Type 0 where
    grows : Grows bookings run.world
    keeps : KeepsRefunds db run.work
    honours : Honours ms run.failure run.world run.work

  Honours-step :
      (after world : BookingDb) (db work : Db) (m : OutboxMessage) (ms : List OutboxMessage)
      (o : Option (ℕ × Failure))
      → Grows after world
      → KeepsRefunds db work
      → (str_eq m.topic confirm_booking ≡ true → is_honoured after db m ≡ true)
      → Honours ms o world work
      → Honours (m ∷ ms) o world work
  Honours-step after world db work m ms (some f) g k h rest = tt
  Honours-step after world db work m ms none g k h rest =
      ((λ topic. is_honoured-keeps after world db work m g k (h topic)), rest)

  Ends-step :
      (bookings after : BookingDb) (db db' : Db) (m : OutboxMessage) (ms : List OutboxMessage)
      (run : Run neighbours)
      → Delivers bookings db m (ok db', after)
      → Ends after (mark_published now m.id db') ms run
      → Ends bookings db (m ∷ ms) run
  Ends-step bookings after db db' m ms run (g, k, h) e =
      let keeps : KeepsRefunds db' run.work =
        λ i before. e.keeps i (mark-keeps now m.id (is_refund i) db' (λ x. refl) ∙ before) in
      record {
        grows = Grows-trans bookings after run.world g e.grows;
        keeps = λ i before. keeps i (k i before);
        honours =
            Honours-step after run.world db' run.work m ms run.failure e.grows keeps h e.honours;
      }

  Ends-delivery :
      (bookings after : BookingDb) (db : Db) (m : OutboxMessage) (ms : List OutboxMessage)
      (refund_ids : ℕ → ℕ) (done : ℕ) (r : Result Failure Db)
      → Delivers bookings db m (r, after)
      → ((after : BookingDb) (db' : Db)
          → IsValid after
          → Ends after (mark_published now m.id db') ms (
              deliver_each neighbours after
                (mark_published now m.id db')
                ms
                now
                refund_ids
                (suc done)))
      → Ends bookings db (m ∷ ms) (elim r [
        | err e ↦ record { world = after; work = db; done = done; failure = some (m.id, e) }
        | ok db' ↦
            deliver_each neighbours after (mark_published now m.id db') ms now refund_ids (suc done)
      ])
  Ends-delivery bookings after db m ms ids done (err e) d rest = record {
    grows = d;
    keeps = λ i before. before;
    honours = tt;
  }
  Ends-delivery bookings after db m ms ids done (ok db') d rest =
      Ends-step bookings after db db' m ms _ d (rest after db' d.0.valid)

  deliver_each-Ends :
      (bookings : BookingDb) (db : Db) (ms : List OutboxMessage) (refund_ids : ℕ → ℕ) (done : ℕ)
      → IsValid bookings
      → Ends bookings db ms (deliver_each neighbours bookings db ms now refund_ids done)
  unfolding deliver_each
  deliver_each-Ends bookings db [] refund_ids done v = record {
    grows = record { valid = v; keeps = λ p before. before };
    keeps = λ i before. before;
    honours = tt;
  }
  deliver_each-Ends bookings db (m ∷ ms) refund_ids done v =
      Ends-delivery bookings (deliver neighbours bookings db m now (refund_ids m.id)).1 db m ms
        refund_ids done (deliver neighbours bookings db m now (refund_ids m.id)).0
        (deliver-Delivers lib env post now message_ids provider message_of bookings db m
          (refund_ids m.id) v)
        λ after db' valid.
          deliver_each-Ends after (mark_published now m.id db') ms refund_ids (suc done) valid

  settled :
      (batch : List OutboxMessage) (db work : Db) (world : BookingDb) (o : Option (ℕ × Failure))
      → Honours batch o world work
      → o ≡ none
      → All
          (λ m.
            str_eq m.topic confirm_booking ≡ true
            → is_honoured world (settle neighbours db work o) m ≡ true)
          batch
  settled batch db work world none h done = h
  settled batch db work world (some f) h done = absurd (cc (done))

  -- A run of the relay in which no delivery fails, against a valid booking database, leaves a valid
  -- one that keeps its events, and each confirm command of the batch is honoured afterwards: its
  -- booking has been announced as confirmed, or the refund of its payment is commanded.
  pub process_pending_honoured :
      (locked : ℕ → Bool) (limit : ℕ) (refund_ids : ℕ → ℕ) (bookings : BookingDb) (db : Db)
      → IsValid bookings
      → (deliver_each neighbours bookings db
          (pending_commands locked limit db)
          now
          refund_ids
          0).failure
        ≡ none
      → let (count, db', after) =
          process_pending neighbours locked limit now refund_ids bookings db in
        IsValid after
        × ((p : Event → Bool) → any_of p bookings.outbox ≡ true → any_of p after.outbox ≡ true)
        × All
            (λ m. str_eq m.topic confirm_booking ≡ true → is_honoured after db' m ≡ true)
            (pending_commands locked limit db)
  unfolding process_pending
  process_pending_honoured locked limit refund_ids bookings db v complete =
      let batch = pending_commands locked limit db in
      let run = deliver_each neighbours bookings db batch now refund_ids 0 in
      let e = deliver_each-Ends bookings db batch refund_ids 0 v in
      (
        e.grows.valid,
        e.grows.keeps,
        settled batch db run.work run.world run.failure e.honours complete,
      )
