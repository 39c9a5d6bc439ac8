-- ===== src/Booking/Outbox/Drain.antt =====
-- `run_forever` of services/booking/src/booking/outbox.py: the relay run after run. The heartbeat
-- file and the sleep are left out, and the endless loop is cut after some runs.
use slot.Prelude.{
  ℕ, zero, suc, ◌+◌, ◌*◌, ◌≤◌, String, ◌≡◌, refl, ap, ◌∙◌, sym, inl, inr, ◌⊎◌, Bool, true, false,
  List, [], ◌∷◌, All, All-map, any_of, count_if, select, sort_by, insert_by, take, length, arith,
  leb, Bool-cases, Result, ok, ◌==◌, ==-refl, if◌then◌else◌, count_if_of-any_of,
}
use slot.Booking.Events.{BookingEventType, Event}
use slot.Booking.Models.{OutboxMessage, Db}
use slot.Booking.Outbox.{
  batch_size, is_unpublished, is_waiting, pending_messages, mark_published, settle, publish_pending,
}
use slot.Booking.Outbox.Batch.{ids_of, Accepts, publish_each-Accepts}

module _ {Broker : Type 0}
    (publish : Broker → BookingEventType → Event → Result String (Unit {0}) × Broker) where
  -- The runs of one relay alone, at the given readings of the clock.
  unfoldable pub run_relay : List ℕ → Db → Broker → Db × Broker
  run_relay [] db broker = (db, broker)
  run_relay (now ∷ nows) db broker =
      let (sent, db', broker') = publish_pending publish (λ i. false) batch_size now db broker in
      run_relay nows db' broker'

module _ {A : Type 0} (q : A → Bool) where
  count_if-insert_by :
      (key : A → ℕ) (x : A) (xs : List A)
      → count_if q (insert_by key x xs) ≡ (if q x then 1 else 0) + count_if q xs
  count_if-insert_by key x [] = refl
  count_if-insert_by key x (y ∷ ys) = ground (arith, count_if-insert_by key x ys)

  count_if-sort_by : (key : A → ℕ) (xs : List A) → count_if q (sort_by key xs) ≡ count_if q xs
  count_if-sort_by key [] = refl
  count_if-sort_by key (x ∷ xs) =
      count_if-insert_by key x (sort_by key xs)
      ∙ ap (λ n. (if q x then 1 else 0) + n) (count_if-sort_by key xs)

  count_if-take-le : (n : ℕ) (xs : List A) → count_if q (take n xs) ≤ count_if q xs
  count_if-take-le zero xs = omega arith
  count_if-take-le (suc n) [] = omega arith
  count_if-take-le (suc n) (x ∷ xs) = omega (arith, count_if-take-le n xs)

  count_if-All : (xs : List A) → All (λ x. q x ≡ true) xs → count_if q xs ≡ length xs
  count_if-All [] h = refl
  count_if-All (x ∷ xs) h = ground (arith, h.0, count_if-All xs h.1)

length-take : {A : Type 0} (n : ℕ) (xs : List A) → n ≤ length xs → length (take n xs) ≡ n
length-take zero xs h = refl
length-take (suc n) [] h = absurd (omega (arith, h))
length-take (suc n) (x ∷ xs) h = ap suc (length-take n xs (omega (arith, h)))

take_whole : {A : Type 0} (n : ℕ) (xs : List A) → length xs ≤ n → take n xs ≡ xs
take_whole zero [] h = refl
take_whole zero (x ∷ xs) h = absurd (omega (arith, h))
take_whole (suc n) [] h = refl
take_whole (suc n) (x ∷ xs) h = ap (λ l. x ∷ l) (take_whole n xs (omega (arith, h)))

-- Every row is among the rows that have its id.
self_among : (ms : List OutboxMessage) → All (λ m. any_of (λ i. i == m.id) (ids_of ms) ≡ true) ms
self_among [] = tt
self_among (m ∷ ms) =
    (ground (arith, ==-refl m.id), All-map ms (λ x h. ground (arith, h)) (self_among ms))

abbrev is_in_batch : List OutboxMessage → OutboxMessage → Bool
is_in_batch batch m = any_of (λ i. i == m.id) (ids_of batch)

-- What is left unpublished, and what a run has marked of it, are the rows that were unpublished.
left_and_marked :
    (now : ℕ) (batch ms : List OutboxMessage)
    → count_if is_unpublished (mark_published now (ids_of batch) ms)
        + count_if (is_in_batch batch) (select (is_waiting (λ i. false)) ms)
      ≡ count_if is_unpublished ms
left_and_marked now batch [] = refl
left_and_marked now batch (m ∷ ms) = ground (arith, left_and_marked now batch ms)

length-select :
    (ms : List OutboxMessage)
    → length (select (is_waiting (λ i. false)) ms) ≡ count_if is_unpublished ms
length-select [] = refl
length-select (m ∷ ms) = ground (arith, length-select ms)

length-sort_by : {A : Type 0} (key : A → ℕ) (xs : List A) → length (sort_by key xs) ≡ length xs
length-sort_by {A = A} key xs =
    sym (count_if-All (λ x. true) (sort_by key xs) (everything (sort_by key xs)))
    ∙ (count_if-sort_by (λ x. true) key xs ∙ count_if-All (λ x. true) xs (everything xs))
  where
    everything : (ys : List A) → All (λ y. true ≡ true) ys
    everything [] = tt
    everything (y ∷ ys) = (refl, everything ys)

-- A batch is as long as it may be, or holds all that is unpublished.
batch_length :
    (db : Db)
    → (length (pending_messages (λ i. false) batch_size db) ≡ batch_size)
      ⊎ (length (pending_messages (λ i. false) batch_size db) ≡ count_if is_unpublished db.outbox)
unfolding pending_messages
batch_length db =
    let rows = select (is_waiting (λ i. false)) db.outbox in
    let sorted = sort_by (λ (m : OutboxMessage). m.id) rows in
    let whole : length sorted ≡ count_if is_unpublished db.outbox =
      length-sort_by (λ (m : OutboxMessage). m.id) rows ∙ length-select db.outbox in
    elim (Bool-cases (leb batch_size (length sorted))) [
      | inl full ↦ inl (length-take batch_size sorted (ground (arith, full)))
      | inr short ↦ inr (ap length (take_whole batch_size sorted (ground (arith, short))) ∙ whole)
    ]

batch_marked :
    (db : Db)
    → let batch = pending_messages (λ i. false) batch_size db in
      length batch ≤ count_if (is_in_batch batch) (select (is_waiting (λ i. false)) db.outbox)
unfolding pending_messages
batch_marked db =
    let rows = select (is_waiting (λ i. false)) db.outbox in
    let sorted = sort_by (λ (m : OutboxMessage). m.id) rows in
    let batch = take batch_size sorted in
    let all = count_if-All (is_in_batch batch) batch (self_among batch) in
    let fewer = count_if-take-le (is_in_batch batch) batch_size sorted in
    let same = count_if-sort_by (is_in_batch batch) (λ (m : OutboxMessage). m.id) rows in
    omega (arith, all, fewer, same)

module _ {Broker : Type 0}
    (publish : Broker → BookingEventType → Event → Result String (Unit {0}) × Broker)
    (takes : (broker : Broker) (type : BookingEventType) (e : Event)
      → (publish broker type e).0 ≡ ok tt) where
  all_taken :
      (broker : Broker) (ms : List OutboxMessage)
      → (after : Broker) × Accepts publish broker ms after
  all_taken broker [] = (broker, refl)
  all_taken broker (m ∷ ms) =
      let (after, rest) = all_taken (publish broker m.topic m.payload).1 ms in
      (after, (takes broker m.topic m.payload, rest))

  run_publishes :
      (now : ℕ) (db : Db) (broker : Broker)
      → let db' = (publish_pending publish (λ i. false) batch_size now db broker).1 in
        (count_if is_unpublished db'.outbox + batch_size ≤ count_if is_unpublished db.outbox)
        ⊎ (count_if is_unpublished db'.outbox ≡ 0)
  unfolding publish_pending settle
  run_publishes now db broker =
      let batch = pending_messages (λ i. false) batch_size db in
      let (after, taken) = all_taken broker batch in
      let parts = left_and_marked now batch db.outbox in
      let enough = batch_marked db in
      rw (publish_each-Accepts publish broker after batch taken) (elim (batch_length db) [
        | inl full ↦ inl (omega (arith, parts, enough, full))
        | inr whole ↦ inr (omega (arith, parts, enough, whole))
      ])

  -- If the broker takes every message, as many runs as the unpublished messages fill batches leave
  -- none of them unpublished.
  pub run_relay_drains :
      (nows : List ℕ) (db : Db) (broker : Broker)
      → count_if is_unpublished db.outbox ≤ batch_size * length nows
      → any_of is_unpublished (run_relay publish nows db broker).0.outbox ≡ false
  unfolding run_relay
  run_relay_drains [] db broker enough = elim (Bool-cases (any_of is_unpublished db.outbox)) [
    | inl some_left ↦
        let more = count_if_of-any_of is_unpublished db.outbox some_left in
        absurd (omega (arith, enough, more))
    | inr none_left ↦ none_left
  ]
  run_relay_drains (now ∷ nows) db broker enough =
      run_relay_drains nows _ _ (elim (run_publishes now db broker) [
        | inl fewer ↦ omega (arith, fewer, enough)
        | inr nothing ↦ omega (arith, nothing)
      ])
