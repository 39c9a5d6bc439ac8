-- ===== src/Booking/Outbox/Batch.antt =====
-- How a run of the relay ends: with the whole batch marked, or with nothing marked at all.
use mathlib.Core.Path.{subst}
use slot.Prelude.{
  ℕ, zero, suc, String, ◌≡◌, refl, ap, ◌∙◌, Bool, true, false, List, [], ◌∷◌, none, some, ◌++◌, map,
  All, All-map, any_of, select, sort_by, insert_by, any_of-sort_by, take, length, arith, ◌<◌,
  Result, ok, err, ◌==◌, ==-refl, All-select,
}
use slot.Booking.Events.{BookingEventType, Event}
use slot.Booking.Models.{OutboxMessage, Db}
use slot.Booking.Outbox.{
  is_waiting, pending_messages, mark_published, record_failure, settle, Sent, publish_each,
  publish_pending,
}

abbrev pub ids_of : List OutboxMessage → List ℕ
ids_of = map (λ m. m.id)

-- The ids that a query returns, in order, depend only on the ids and on what the query tests.
ids-insert_by :
    (m : OutboxMessage) (ms : List OutboxMessage)
    → ids_of (insert_by (λ x. x.id) m ms) ≡ insert_by (λ i. i) m.id (ids_of ms)
ids-insert_by m [] = refl
ids-insert_by m (x ∷ xs) = ground (arith, ids-insert_by m xs)

ids-sort_by :
    (ms : List OutboxMessage) → ids_of (sort_by (λ x. x.id) ms) ≡ sort_by (λ i. i) (ids_of ms)
ids-sort_by [] = refl
ids-sort_by (m ∷ ms) =
    ids-insert_by m (sort_by (λ x. x.id) ms) ∙ ap (insert_by (λ i. i) m.id) (ids-sort_by ms)

ids-take : (n : ℕ) (ms : List OutboxMessage) → ids_of (take n ms) ≡ take n (ids_of ms)
ids-take zero ms = refl
ids-take (suc n) [] = refl
ids-take (suc n) (m ∷ ms) = ap (λ l. m.id ∷ l) (ids-take n ms)

ids-select_failed :
    (locked : ℕ → Bool) (message_id : ℕ) (error : String) (ms : List OutboxMessage)
    → ids_of (select (is_waiting locked) (record_failure message_id error ms))
      ≡ ids_of (select (is_waiting locked) ms)
ids-select_failed locked i error [] = refl
ids-select_failed locked i error (m ∷ ms) = ground (arith, ids-select_failed locked i error ms)

-- The relay asks again for the same messages after a failure.
pending-record_failure :
    (locked : ℕ → Bool) (limit : ℕ) (db : Db) (message_id : ℕ) (error : String)
    → ids_of (
        pending_messages locked limit
          (record db { outbox = record_failure message_id error db.outbox }))
      ≡ ids_of (pending_messages locked limit db)
unfolding pending_messages
pending-record_failure locked limit db i error =
    simp (ids-take, ids-sort_by) (rw (ids-select_failed locked i error db.outbox) refl)

length-ids_of : (ms : List OutboxMessage) → length (ids_of ms) ≡ length ms
length-ids_of [] = refl
length-ids_of (m ∷ ms) = ap suc (length-ids_of ms)

-- A query with no row that fits returns nothing.
select-eq-nil {ℓ} :
    {A : Type ℓ} (p : A → Bool) (xs : List A) → any_of p xs ≡ false → select p xs ≡ []
select-eq-nil p [] h = refl
select-eq-nil p (x ∷ xs) h = ground (arith, select-eq-nil p xs)

take-all {ℓ} : {A : Type ℓ} (n : ℕ) (xs : List A) → length (take n xs) < n → take n xs ≡ xs
take-all zero xs h = absurd (omega arith)
take-all (suc n) [] h = refl
take-all (suc n) (x ∷ xs) h = ap (λ l. x ∷ l) (take-all n xs (omega arith))

pub any_of-ids_of :
    (i : ℕ) (ms : List OutboxMessage)
    → any_of (λ j. j == i) (ids_of ms) ≡ any_of (λ (m : OutboxMessage). m.id == i) ms
any_of-ids_of i [] = refl
any_of-ids_of i (m ∷ ms) = ground (arith, any_of-ids_of i ms)

-- Once every row that waits is marked, none waits.
none_left :
    (locked : ℕ → Bool) (now : ℕ) (ids : List ℕ) (ms : List OutboxMessage)
    → All (λ m. is_waiting locked m ≡ true → any_of (λ i. i == m.id) ids ≡ true) ms
    → any_of (is_waiting locked) (mark_published now ids ms) ≡ false
none_left locked now ids [] c = refl
none_left locked now ids (m ∷ ms) c = ground (arith, c.0, none_left locked now ids ms c.1)

take-nil {ℓ} : {A : Type ℓ} (n : ℕ) → take {A = A} n [] ≡ []
take-nil zero = refl
take-nil (suc n) = refl

-- A batch that the limit did not cut off holds every waiting message.
waiting_in_batch :
    (locked : ℕ → Bool) (limit : ℕ) (db : Db)
    → length (pending_messages locked limit db) < limit
    → All
        (λ m.
          is_waiting locked m ≡ true
          → any_of (λ i. i == m.id) (ids_of (pending_messages locked limit db)) ≡ true)
        db.outbox
unfolding pending_messages
waiting_in_batch locked limit db short =
    let rows = select (is_waiting locked) db.outbox in
    let whole = take-all limit (sort_by (λ x. x.id) rows) short in
    All-map db.outbox
      (λ m found waits.
        any_of-ids_of m.id (pending_messages locked limit db)
        ∙ ap (any_of (λ (x : OutboxMessage). x.id == m.id)) whole
        ∙ any_of-sort_by (λ (x : OutboxMessage). x.id == m.id) (λ x. x.id) rows
        ∙ found waits)
      (All-select (is_waiting locked) (λ x y. y.id == x.id) db.outbox (λ x. ==-refl x.id))

nothing_left :
    (locked : ℕ → Bool) (limit now : ℕ) (db : Db)
    → length (pending_messages locked limit db) < limit
    → pending_messages locked limit (record db {
      outbox = mark_published now (ids_of (pending_messages locked limit db)) db.outbox;
    })
      ≡ []
nothing_left locked limit now db short =
    let ids = ids_of (pending_messages locked limit db) in
    let none_waits =
      select-eq-nil (is_waiting locked) (mark_published now ids db.outbox)
        (none_left locked now ids db.outbox (waiting_in_batch locked limit db short)) in
    unfold pending_messages in
    ap (λ rows. take limit (sort_by (λ (m : OutboxMessage). m.id) rows)) none_waits ∙ take-nil limit

module _ {Broker : Type 0}
    (publish : Broker → BookingEventType → Event → Result String (Unit {0}) × Broker) where
  -- The broker takes these messages one after another, and is left as the last argument says.
  abbrev pub Accepts : Broker → List OutboxMessage → Broker → Type 0
  Accepts broker [] broker' = broker ≡ broker'
  Accepts broker (m ∷ ms) broker' =
      ((publish broker m.topic m.payload).0 ≡ ok tt)
      × Accepts (publish broker m.topic m.payload).1 ms broker'

  pub publish_each-Accepts :
      (broker broker' : Broker) (ms : List OutboxMessage)
      → Accepts broker ms broker'
      → publish_each publish broker ms
        ≡ record { broker = broker'; ids = ids_of ms; failure = none }
  unfolding publish_each
  publish_each-Accepts broker broker' [] h =
      ap (λ b. record { broker = b; ids = []; failure = none }) h
  publish_each-Accepts broker broker' (m ∷ ms) h =
      rw (h.0, publish_each)
        (ap (λ (s : Sent Broker). record s { ids = m.id ∷ s.ids })
          (publish_each-Accepts (publish broker m.topic m.payload).1 broker' ms h.1))

  publish_each_stops :
      (broker broker' : Broker) (ms : List OutboxMessage) (m : OutboxMessage)
      (rest : List OutboxMessage) (error : String)
      → Accepts broker ms broker'
      → (publish broker' m.topic m.payload).0 ≡ err error
      → publish_each publish broker (ms ++ m ∷ rest) ≡ record {
        broker = (publish broker' m.topic m.payload).1;
        ids = ids_of ms;
        failure = some (m.id, error);
      }
  unfolding publish_each
  publish_each_stops broker broker' [] m rest error h e =
      subst
        (λ b.
          (publish b m.topic m.payload).0 ≡ err error
          → publish_each publish broker (m ∷ rest) ≡ record {
            broker = (publish b m.topic m.payload).1;
            ids = [];
            failure = some (m.id, error);
          })
        h (λ refused. rw (refused, publish_each)) e
  publish_each_stops broker broker' (x ∷ ms) m rest error h e =
      rw (h.0, publish_each)
        (ap (λ (s : Sent Broker). record s { ids = x.id ∷ s.ids })
          (publish_each_stops (publish broker x.topic x.payload).1 broker' ms m rest error h.1 e))

  module _ (locked : ℕ → Bool) (limit now : ℕ) (db : Db) (broker broker' : Broker) where
    -- When the broker takes the whole batch, the run reports its length, and a batch that was not
    -- cut off by the limit leaves nothing for the next run.
    pub publish_pending_complete :
        Accepts broker (pending_messages locked limit db) broker'
        → let batch = pending_messages locked limit db in
          let (count, db', after) = publish_pending publish locked limit now db broker in
          (count ≡ length batch)
          × (after ≡ broker')
          × (length batch < limit → pending_messages locked limit db' ≡ [])
    unfolding publish_pending settle
    publish_pending_complete taken =
        rw (publish_each-Accepts broker broker' (pending_messages locked limit db) taken)
          (length-ids_of (pending_messages locked limit db), refl, nothing_left locked limit now db)

    -- When the broker refuses a message in the middle of the batch, the run reports the number of
    -- messages that it took before, but none of these is marked: the next run takes the same batch
    -- from its beginning, and the refused message has one attempt more.
    pub publish_pending_interrupted :
        (sent : List OutboxMessage) (m : OutboxMessage) (rest : List OutboxMessage) (error : String)
        → pending_messages locked limit db ≡ sent ++ m ∷ rest
        → Accepts broker sent broker'
        → (publish broker' m.topic m.payload).0 ≡ err error
        → let (count, db', after) = publish_pending publish locked limit now db broker in
          (count ≡ length sent)
          × (ids_of (pending_messages locked limit db') ≡ ids_of (sent ++ m ∷ rest))
          × (db'.outbox ≡ record_failure m.id error db.outbox)
    unfolding publish_pending settle
    publish_pending_interrupted sent m rest error batch taken refused =
        let stops =
          ap (publish_each publish broker) batch
          ∙ publish_each_stops broker broker' sent m rest error taken refused in
        rw stops (
          length-ids_of sent,
          pending-record_failure locked limit db m.id error ∙ ap ids_of batch,
          refl,
        )
