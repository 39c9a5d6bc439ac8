-- ===== src/Booking/Outbox/Delivery.antt =====
-- What a run of the relay does to the outbox, and that no event is lost on its way to the broker.
use mathlib.Core.Path.{subst}
use slot.Prelude.{
  ℕ, zero, suc, String, ◌≡◌, Bool, true, false, inl, inr, List, [], ◌∷◌, Option, none, some, All,
  All-map, All-update_where, any_of, select, sort_by, insert_by, take, arith, ◌==◌, ==→eq, leb,
  Bool-cases, Result-cases,
}
use slot.Booking.Models.{OutboxMessage, Db}
use slot.Booking.Outbox.{is_unpublished, pending_messages, settle, publish_each, publish_pending}
use slot.Booking.Outbox.Publisher.{Publisher}
use slot.Booking.Invariant.{IsOwnEvent}

module _ {ℓ κ} {A : Type ℓ} (P : A → Type κ) where
  All-select_from : (p : A → Bool) (xs : List A) → All P xs → All P (select p xs)
  All-select_from p [] h = tt
  All-select_from p (x ∷ xs) h = elim (Bool-cases (p x)) [
    | inl hit ↦ rw hit (h.0, All-select_from p xs h.1)
    | inr miss ↦ rw miss (All-select_from p xs h.1)
  ]

  All-insert_by : (key : A → ℕ) (x : A) (xs : List A) → P x → All P xs → All P (insert_by key x xs)
  All-insert_by key x [] h hs = (h, tt)
  All-insert_by key x (y ∷ ys) h hs = elim (Bool-cases (leb (key x) (key y))) [
    | inl first ↦ rw first (h, hs)
    | inr later ↦ rw later (hs.0, All-insert_by key x ys h hs.1)
  ]

  All-sort_by : (key : A → ℕ) (xs : List A) → All P xs → All P (sort_by key xs)
  All-sort_by key [] h = tt
  All-sort_by key (x ∷ xs) h = All-insert_by key x (sort_by key xs) h.0 (All-sort_by key xs h.1)

  All-take : (n : ℕ) (xs : List A) → All P xs → All P (take n xs)
  All-take zero xs h = tt
  All-take (suc n) [] h = tt
  All-take (suc n) (x ∷ xs) h = (h.0, All-take n xs h.1)

-- What holds of every message holds of those in the batch.
All-pending_messages {κ} :
    (P : OutboxMessage → Type κ) (locked : ℕ → Bool) (limit : ℕ) (db : Db)
    → All P db.outbox
    → All P (pending_messages locked limit db)
unfolding pending_messages
All-pending_messages P locked limit db h =
    All-take P limit _ (All-sort_by P _ _ (All-select_from P _ db.outbox h))

All-any_of {κ} :
    (P : ℕ → Type κ) (ids : List ℕ) (i : ℕ) → All P ids → any_of (λ j. j == i) ids ≡ true → P i
All-any_of P [] i h e = absurd (ground arith)
All-any_of P (j ∷ ids) i h e = elim (Bool-cases (j == i)) [
  | inl same ↦ subst P (==→eq j i same) h.0
  | inr other ↦ All-any_of P ids i h.1 (ground arith)
]

module _ (relay : Publisher) where
  open relay use {Broker, publish, accepted, accepted_self, accepted_kept}

  publish_each_kept :
      (broker : Broker) (ms : List OutboxMessage) (i : ℕ)
      → accepted broker i ≡ true
      → accepted (publish_each publish broker ms).broker i ≡ true
  unfolding publish_each
  publish_each_kept broker [] i h = h
  publish_each_kept broker (m ∷ ms) i h = elim (Result-cases (publish broker m.topic m.payload).0) [
    | inl (_, sent) ↦
        rw (sent, publish_each)
          (publish_each_kept (publish broker m.topic m.payload).1 ms i
            (accepted_kept broker m.topic m.payload i h))
    | inr (e, failed) ↦ rw (failed, publish_each) (accepted_kept broker m.topic m.payload i h)
  ]

  -- Every id that the loop marks is one that the broker has accepted.
  publish_each-accepted :
      (broker : Broker) (ms : List OutboxMessage)
      → All IsOwnEvent ms
      → All
          (λ i. accepted (publish_each publish broker ms).broker i ≡ true)
          (publish_each publish broker ms).ids
  unfolding publish_each
  publish_each-accepted broker [] own = tt
  publish_each-accepted broker (m ∷ ms) own =
      let next = (publish broker m.topic m.payload).1 in
      elim (Result-cases (publish broker m.topic m.payload).0) [
        | inl (_, sent) ↦
            rw (sent, publish_each)
              (
                publish_each_kept next ms m.id (
                    subst (λ i. accepted next i ≡ true) own.0
                      (accepted_self broker m.topic m.payload sent)),
                publish_each-accepted next ms own.1,
              )
        | inr (e, failed) ↦ rw (failed, publish_each) tt
      ]

  -- What the outbox says was published was accepted by the broker.
  abbrev pub IsDelivered : Broker → List OutboxMessage → Type 0
  IsDelivered broker outbox =
      All (λ m. is_unpublished m ≡ false → accepted broker m.id ≡ true) outbox

  settle-IsDelivered :
      (broker : Broker) (db : Db) (now : ℕ) (ids : List ℕ) (failure : Option (ℕ × String))
      → All (λ i. accepted broker i ≡ true) ids
      → IsDelivered broker db.outbox
      → IsDelivered broker (settle db now ids failure).outbox
  unfolding settle
  settle-IsDelivered broker db now ids none sent h =
      All-update_where (λ m. is_unpublished m ≡ false → accepted broker m.id ≡ true)
        (λ m. is_unpublished m ≡ false → accepted broker m.id ≡ true) _ _ db.outbox
        (λ m hit before published. All-any_of (λ i. accepted broker i ≡ true) ids m.id sent hit)
        (λ m miss before. before) h
  settle-IsDelivered broker db now ids (some (message_id, error)) sent h =
      All-update_where (λ m. is_unpublished m ≡ false → accepted broker m.id ≡ true)
        (λ m. is_unpublished m ≡ false → accepted broker m.id ≡ true) _ _ db.outbox
        (λ m hit before published. before published) (λ m miss before. before) h

  -- A run of the relay, however it ends, marks nothing that the broker has not accepted, and what
  -- was marked before stays accepted: a published event is never lost.
  pub publish_pending-IsDelivered :
      (locked : ℕ → Bool) (limit now : ℕ) (db : Db) (broker : Broker)
      → All IsOwnEvent db.outbox
      → IsDelivered broker db.outbox
      → let (count, db', broker') = publish_pending publish locked limit now db broker in
        IsDelivered broker' db'.outbox
  unfolding publish_pending
  publish_pending-IsDelivered locked limit now db broker own h =
      let batch = pending_messages locked limit db in
      settle-IsDelivered (publish_each publish broker batch).broker db now _ _
        (publish_each-accepted broker batch (All-pending_messages IsOwnEvent locked limit db own))
        (All-map db.outbox
          (λ m before published. publish_each_kept broker batch m.id (before published)) h)
