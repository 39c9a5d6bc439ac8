-- ===== src/Notifier/Turnover.antt =====
-- The turns of the loop after which a message that is handed out again and again is settled.
use slot.Prelude.{
  ℕ, ◌+◌, ◌≤◌, ◌<◌, String, ◌≡◌, refl, inl, inr, ◌⊎◌, Bool, true, false, List, [], ◌∷◌, ◌++◌,
  str_eq, length, any_of, any_of-append, All, All-append, Bool-cases, Result, ok, err, subst, sym,
  ◌∙◌, arith, Option, none, some, ltb, eq_iff,
}
use slot.Notifier.Domain.{Python}
use slot.Notifier.Models.{Notification, Fields, State}
use slot.Notifier.Consumer.{Gateway, max_deliveries}
use slot.Notifier.Outcomes.{is_pending}
use slot.Notifier.Rows.{Extends}
use slot.Notifier.Turns.{
  AllReclaimed, reclaimed-All, fresh-All, ClaimsAsked, reclaimed-Returns, noted_pending,
}
use slot.Notifier.Redeliveries.{AnswersFit, IsHarmless, is_overdue, handle_all-Closes}
use slot.Notifier.Stream.{
  Counter, no_results, Delivery, Turn, Broker, RunError, PendingEntry, times_delivered,
  claimed_delivery, claimed_deliveries, reclaimed_of, reclaimed, entry_ids, idle_ms, batch, fresh,
  note_read, run_once, prepend, run_turns,
}

module _ (python : Python) {World : Type 0} (gateway : Gateway World) (message_id : String) where
  abbrev pub is_message : String × Fields → Bool
  is_message message = str_eq message.0 message_id

  -- A turn that the broker, the clock and the other consumers leave to its course, and in which it
  -- hands out the message if it still waits, as one that was delivered `k` times before.
  abbrev pub Serves : ℕ → Turn → State → Type 0
  Serves k turn s =
      ((n : ℕ) (late : Bool) (rows : List Notification)
        → Extends rows ((turn.moments n).others late rows))
      × ClaimsAsked turn.broker
      × ((ids : List String) → All (IsHarmless python gateway) (turn.broker.xclaim idle_ms ids))
      × All (IsHarmless python gateway) (turn.broker.xreadgroup batch)
      × (any_of is_message (turn.broker.xreadgroup batch) ≡ false)
      × (is_pending message_id s ≡ true
          → (times_delivered (turn.broker.xpending_range batch idle_ms) message_id ≡ some k)
            × (any_of is_message (
                  turn.broker.xclaim idle_ms (entry_ids (turn.broker.xpending_range batch idle_ms)))
                ≡ true))

  -- Each turn finds the message delivered once more than the turn before.
  abbrev pub IsServed : ℕ → List Turn → State → World → Type 0
  IsServed k [] s world = Unit
  IsServed k (turn ∷ turns) s world =
      Serves k turn s
      × IsServed (k + 1) turns (run_once python gateway turn s world).0.1
          (run_once python gateway turn s world).1

  abbrev OverdueIn : Result RunError (List Delivery) → Type 0
  OverdueIn (err e) = Unit
  OverdueIn (ok ds) = any_of (is_overdue python gateway message_id) ds ≡ true

  claimed_overdue :
      (entries : List PendingEntry) (messages : List (String × Fields)) (k : ℕ)
      → max_deliveries ≤ k
      → times_delivered entries message_id ≡ some k
      → any_of is_message messages ≡ true
      → OverdueIn (claimed_deliveries entries messages)
  claimed_overdue entries [] k late times there = absurd (ground arith)
  claimed_overdue entries (m ∷ ms) k late times there = elim (Bool-cases (is_message m)) [
    | inl hit ↦
        let same = (eq_iff m.0 message_id).0 hit in
        rw (subst (λ i. times_delivered entries i ≡ some k) (sym same) times)
          (here (claimed_deliveries entries ms) hit)
    | inr miss ↦
        later (times_delivered entries m.0) (claimed_deliveries entries ms)
          (claimed_overdue entries ms k late times (ground (arith, there, miss)))
  ]
    where
      here :
          (rest : Result RunError (List Delivery))
          → is_message m ≡ true
          → OverdueIn
              (prepend (ok (record { message_id = m.0; fields = m.1; deliveries = k + 1 })) rest)
      here (err e) hit = tt
      here (ok ds) hit = ground (arith, hit, late)

      later :
          (o : Option ℕ) (rest : Result RunError (List Delivery))
          → OverdueIn rest
          → OverdueIn (prepend (claimed_delivery m o) rest)
      later none rest h = tt
      later (some n) (err e) h = tt
      later (some n) (ok ds) h = ground (arith, h)

  reclaimed_overdue :
      (broker : Broker) (k : ℕ)
      → max_deliveries ≤ k
      → times_delivered (broker.xpending_range batch idle_ms) message_id ≡ some k
      → any_of is_message (broker.xclaim idle_ms (entry_ids (broker.xpending_range batch idle_ms)))
        ≡ true
      → OverdueIn (reclaimed broker)
  reclaimed_overdue broker k late = by_entries (broker.xpending_range batch idle_ms)
    where
      by_entries :
          (entries : List PendingEntry)
          → times_delivered entries message_id ≡ some k
          → any_of is_message (broker.xclaim idle_ms (entry_ids entries)) ≡ true
          → OverdueIn (reclaimed_of broker entries)
      by_entries [] times there = absurd (cc times)
      by_entries (e ∷ es) times there =
          claimed_overdue (e ∷ es) (broker.xclaim idle_ms (entry_ids (e ∷ es))) k late times there

  run_once-Closes :
      AnswersFit python gateway
      → (k : ℕ) (turn : Turn) (s : State) (world : World) → Serves k turn s
      → (c : Counter) × (s' : State) × (w : World) × (run_once python gateway turn s world
          ≡ ((ok c, s'), w))
        × ((max_deliveries ≤ k) ⊎ (is_pending message_id s ≡ false)
            → is_pending message_id s' ≡ false)
  unfolding run_once
  run_once-Closes answers_fit k turn s world (tame, asked, claims, reads, old, served) =
      let (ds, found) = reclaimed-Returns turn.broker asked in
      let harmless =
        subst (AllReclaimed (IsHarmless python gateway)) found
          (reclaimed-All (IsHarmless python gateway) turn.broker claims) in
      let (c, s', w, run, closes) =
        handle_all-Closes python gateway message_id turn.moments tame answers_fit
          (ds ++ fresh turn.broker) 0 no_results (note_read (fresh turn.broker) s) world
          (All-append _ ds (fresh turn.broker) harmless
            (fresh-All (IsHarmless python gateway) (turn.broker.xreadgroup batch) reads)) in
      (c, s', w, rw (found, run_once) run, λ due. closes (handed ds found due))
    where
      noted : is_pending message_id (note_read (fresh turn.broker) s) ≡ is_pending message_id s
      noted = noted_pending (turn.broker.xreadgroup batch) message_id s ∙ rw old refl

      overdue :
          (ds : List Delivery)
          → reclaimed turn.broker ≡ ok ds
          → max_deliveries ≤ k
          → is_pending message_id s ≡ true
          → any_of (is_overdue python gateway message_id) (ds ++ fresh turn.broker) ≡ true
      overdue ds found late waits =
          let first =
            subst OverdueIn found
              (reclaimed_overdue turn.broker k late (served waits).0 (served waits).1) in
          any_of-append (is_overdue python gateway message_id) ds (fresh turn.broker)
          ∙ rw first refl

      handed :
          (ds : List Delivery)
          → reclaimed turn.broker ≡ ok ds
          → (max_deliveries ≤ k) ⊎ (is_pending message_id s ≡ false)
          → (any_of (is_overdue python gateway message_id) (ds ++ fresh turn.broker) ≡ true)
            ⊎ (is_pending message_id (note_read (fresh turn.broker) s) ≡ false)
      handed ds found (inr gone) = inr (noted ∙ gone)
      handed ds found (inl late) = elim (Bool-cases (is_pending message_id s)) [
        | inl waits ↦ inl (overdue ds found late waits)
        | inr gone ↦ inr (noted ∙ gone)
      ]

  turns_settle :
      AnswersFit python gateway
      → (turns : List Turn) (k : ℕ) (s : State) (world : World) → IsServed k turns s world
      → (0 < length turns) × (max_deliveries < k + length turns) ⊎ (is_pending message_id s ≡ false)
      → (s' : State) × (w : World) × (run_turns python gateway turns s world ≡ ((ok tt, s'), w))
        × (is_pending message_id s' ≡ false)
  unfolding run_turns
  turns_settle answers_fit [] k s world served (inl (some_left, enough)) =
      absurd (omega (arith, some_left))
  turns_settle answers_fit [] k s world served (inr gone) = (s, world, refl, gone)
  turns_settle answers_fit (turn ∷ turns) k s world (now, later) due =
      let (c, s1, w1, once, closes) = run_once-Closes answers_fit k turn s world now in
      let later' : IsServed (k + 1) turns s1 w1 =
        subst (λ r. IsServed (k + 1) turns r.0.1 r.1) once later in
      let (s2, w2, rest, gone) =
        turns_settle answers_fit turns (k + 1) s1 w1 later' (still s1 closes due) in
      (s2, w2, rw (once, run_turns) rest, gone)
    where
      still :
          (s1 : State)
          → ((max_deliveries ≤ k) ⊎ (is_pending message_id s ≡ false)
              → is_pending message_id s1 ≡ false)
          → (0 < length (turn ∷ turns)) × (max_deliveries < k + length (turn ∷ turns))
            ⊎ (is_pending message_id s ≡ false)
          → (0 < length turns) × (max_deliveries < (k + 1) + length turns)
            ⊎ (is_pending message_id s1 ≡ false)
      still s1 closes (inr gone) = inr (closes (inr gone))
      still s1 closes (inl (some_left, enough)) = elim (Bool-cases (ltb k max_deliveries)) [
        | inl more ↦ inl (ground (arith, more, enough), ground (arith, enough))
        | inr last ↦ inr (closes (inl (ground (arith, last))))
      ]

  -- If every turn hands out the message as long as it waits, each as delivered once more than the
  -- turn before, and reads only messages that are objects or no JSON and whose texts fit their
  -- columns, and if the ids of the gateway fit theirs, then the turns all return, and after one that
  -- hands it out beyond `max_deliveries` the message no longer waits, whether the gateway accepts or
  -- fails, where other consumers neither remove rows nor open again what is dealt with.
  pub run_turns_settled :
      AnswersFit python gateway
      → (turns : List Turn) (k : ℕ) (s : State) (world : World) → IsServed k turns s world
      → 0 < length turns
      → max_deliveries < k + length turns
      → (s' : State) × (w : World) × (run_turns python gateway turns s world ≡ ((ok tt, s'), w))
        × (is_pending message_id s' ≡ false)
  run_turns_settled answers_fit turns k s world served some_left enough =
      turns_settle answers_fit turns k s world served (inl (some_left, enough))
