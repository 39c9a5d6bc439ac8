-- ===== src/Notifier/Turns.antt =====
-- What a turn of the consumer's loop hands to `_handle`.
use slot.Prelude.{
  ℕ, ◌+◌, String, ◌≡◌, refl, inl, inr, true, List, [], ◌∷◌, map, str_eq, any_of, All, Bool-cases,
  Result, ok, err, subst, arith, ◌||◌, Option, none, some, Option-cases,
}
use slot.Notifier.Models.{Fields, State}
use slot.Notifier.Outcomes.{is_pending}
use slot.Notifier.Stream.{
  Delivery, Broker, RunError, PendingEntry, times_delivered, claimed_delivery, claimed_deliveries,
  reclaimed_of, reclaimed, entry_ids, idle_ms, batch, fresh_delivery, note_read, prepend,
}

-- What the broker answers to a claim are messages that it was asked for.
abbrev pub ClaimsAsked : Broker → Type 0
ClaimsAsked broker =
    (ids : List String)
    → All (λ m. any_of (λ i. str_eq i m.0) ids ≡ true) (broker.xclaim idle_ms ids)

times_delivered-some :
    (entries : List PendingEntry) (message_id : String)
    → any_of (λ i. str_eq i message_id) (entry_ids entries) ≡ true
    → (k : ℕ) × (times_delivered entries message_id ≡ some k)
times_delivered-some [] message_id h = absurd (ground arith)
times_delivered-some (e ∷ es) message_id h = elim (Option-cases (times_delivered es message_id)) [
  | inr (k, later) ↦ (k, rw later refl)
  | inl last ↦ elim (Bool-cases (str_eq e.message_id message_id)) [
    | inl hit ↦ (e.times_delivered, rw last (rw hit refl))
    | inr miss ↦
        let (k, later) =
          times_delivered-some es message_id
            (subst (λ b. (b || any_of (λ i. str_eq i message_id) (entry_ids es)) ≡ true) miss h) in
        absurd (cc (last, later))
  ]
]

claimed-Returns :
    (entries : List PendingEntry) (messages : List (String × Fields))
    → All (λ m. any_of (λ i. str_eq i m.0) (entry_ids entries) ≡ true) messages
    → (ds : List Delivery) × (claimed_deliveries entries messages ≡ ok ds)
claimed-Returns entries [] h = ([], refl)
claimed-Returns entries (m ∷ ms) h =
    let (k, times) = times_delivered-some entries m.0 h.0 in
    let (ds, rest) = claimed-Returns entries ms h.1 in
    (record { message_id = m.0; fields = m.1; deliveries = k + 1 } ∷ ds, rw times (rw rest refl))

pub reclaimed-Returns :
    (broker : Broker) → ClaimsAsked broker → (ds : List Delivery) × (reclaimed broker ≡ ok ds)
reclaimed-Returns broker asked = by_entries (broker.xpending_range batch idle_ms)
  where
    by_entries :
        (entries : List PendingEntry) → (ds : List Delivery) × (reclaimed_of broker entries ≡ ok ds)
    by_entries [] = ([], refl)
    by_entries (e ∷ es) =
        claimed-Returns (e ∷ es) (broker.xclaim idle_ms (entry_ids (e ∷ es)))
          (asked (entry_ids (e ∷ es)))

-- What waits after new messages are read: those, and what waited before.
pub noted_pending :
    (messages : List (String × Fields)) (x : String) (s : State)
    → is_pending x (note_read (map fresh_delivery messages) s)
      ≡ (any_of (λ m. str_eq m.0 x) messages || is_pending x s)
noted_pending [] x s = refl
noted_pending (m ∷ ms) x s = ground (arith, noted_pending ms x s)

-- What holds of the messages that the broker answers with holds of those that are handled.
module _ (P : String × Fields → Type 0) where
  abbrev pub On : Delivery → Type 0
  On d = P (d.message_id, d.fields)

  abbrev pub AllReclaimed : Result RunError (List Delivery) → Type 0
  AllReclaimed (err e) = Unit
  AllReclaimed (ok ds) = All On ds

  claimed-All :
      (entries : List PendingEntry) (messages : List (String × Fields))
      → All P messages
      → AllReclaimed (claimed_deliveries entries messages)
  claimed-All entries [] h = tt
  claimed-All entries (message ∷ messages) h =
      prepended (times_delivered entries message.0) (claimed_deliveries entries messages)
        (claimed-All entries messages h.1)
    where
      prepended :
          (times : Option ℕ) (rest : Result RunError (List Delivery))
          → AllReclaimed rest
          → AllReclaimed (prepend (claimed_delivery message times) rest)
      prepended none rest k = tt
      prepended (some n) (err e) k = tt
      prepended (some n) (ok ds) k = (h.0, k)

  pub fresh-All :
      (messages : List (String × Fields)) → All P messages → All On (map fresh_delivery messages)
  fresh-All [] h = tt
  fresh-All (message ∷ messages) h = (h.0, fresh-All messages h.1)

  pub reclaimed-All :
      (broker : Broker)
      → ((ids : List String) → All P (broker.xclaim idle_ms ids))
      → AllReclaimed (reclaimed broker)
  reclaimed-All broker claims = by_entries (broker.xpending_range batch idle_ms)
    where
      by_entries : (entries : List PendingEntry) → AllReclaimed (reclaimed_of broker entries)
      by_entries [] = tt
      by_entries (e ∷ es) =
          claimed-All (e ∷ es) (broker.xclaim idle_ms (entry_ids (e ∷ es)))
            (claims (entry_ids (e ∷ es)))
