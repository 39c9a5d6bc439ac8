-- ===== src/Payments/Relay/Interrupted.antt =====
-- A run of the relay that meets a command which fails.
use mathlib.Core.Path.{subst₂}
use native.Mathlib.Nat.{add-zero, zero-add}
use slot.Prelude.{
  ℕ, suc, ◌+◌, ◌≡◌, refl, sym, ◌∙◌, Bool, some, List, [], ◌∷◌, ◌++◌, length, arith, ok, err,
}
use slot.Payments.Domain.{Failure}
use slot.Payments.Models.{OutboxMessage, Db}
use slot.Payments.Relay.{
  pending_commands, mark_published, record_failure, Neighbours, deliver, deliver_each, Run,
  process_pending,
}

module _ {World : Type 0} (neighbours : Neighbours World) (now : ℕ) (refund_ids : ℕ → ℕ) where
  open neighbours use {message_of}

  -- The commands go through one after another, and leave the working copy and the neighbours so.
  abbrev pub Delivers : World → Db → List OutboxMessage → World → Db → Type 0
  Delivers world db [] world' db' = (world ≡ world') × (db ≡ db')
  Delivers world db (m ∷ ms) world' db' =
      (next : Db) × ((deliver neighbours world db m now (refund_ids m.id)).0 ≡ ok next)
      × Delivers (deliver neighbours world db m now (refund_ids m.id)).1
          (mark_published now m.id next) ms world' db'

  -- What the loop reports when it stops at a command.
  abbrev Stops : Run neighbours → ℕ → ℕ → Failure → World → Type 0
  Stops run done message_id e world =
      (run.done ≡ done) × (run.failure ≡ some (message_id, e)) × (run.world ≡ world)

  refused_first :
      (world : World) (db : Db) (m : OutboxMessage) (rest : List OutboxMessage) (e : Failure)
      (done : ℕ)
      → (deliver neighbours world db m now (refund_ids m.id)).0 ≡ err e
      → Stops
          (deliver_each neighbours world db (m ∷ rest) now refund_ids done)
          done
          m.id
          e
          (deliver neighbours world db m now (refund_ids m.id)).1
  unfolding deliver_each
  refused_first world db m rest e done refused = rw (refused, deliver_each) (refl, refl, refl)

  deliver_each-Stops :
      (world world' : World) (db db' : Db) (sent : List OutboxMessage) (m : OutboxMessage)
      (rest : List OutboxMessage) (e : Failure) (done : ℕ)
      → Delivers world db sent world' db'
      → (deliver neighbours world' db' m now (refund_ids m.id)).0 ≡ err e
      → Stops
          (deliver_each neighbours world db (sent ++ m ∷ rest) now refund_ids done)
          (done + length sent)
          m.id
          e
          (deliver neighbours world' db' m now (refund_ids m.id)).1
  unfolding deliver_each
  deliver_each-Stops world world' db db' [] m rest e done through refused =
      subst₂
        (λ w d.
          (deliver neighbours w d m now (refund_ids m.id)).0 ≡ err e
          → Stops (deliver_each neighbours world db (m ∷ rest) now refund_ids done) (done + 0) m.id
              e (deliver neighbours w d m now (refund_ids m.id)).1)
        through.0 through.1
        (λ r.
          let first = refused_first world db m rest e done r in
          (first.0 ∙ sym (add-zero done), first.1, first.2))
        refused
  deliver_each-Stops world world' db db' (x ∷ sent) m rest e done through refused =
      let later =
        deliver_each-Stops (deliver neighbours world db x now (refund_ids x.id)).1 world'
          (mark_published now x.id through.0) db' sent m rest e (suc done) through.2 refused in
      rw (through.1, deliver_each) (omega (arith, later.0), later.1, later.2)

  -- When a command fails after others of the batch went through, the run reports how many went
  -- through, the neighbours have been called for all of them, and the database is the one before
  -- the run with one attempt more at the command that failed: no payment, mark or new command of
  -- the run is kept.
  pub process_pending_interrupted :
      (locked : ℕ → Bool) (limit : ℕ) (world world' : World) (db db' : Db)
      (sent : List OutboxMessage) (m : OutboxMessage) (rest : List OutboxMessage) (e : Failure)
      → pending_commands locked limit db ≡ sent ++ m ∷ rest
      → Delivers world db sent world' db'
      → (deliver neighbours world' db' m now (refund_ids m.id)).0 ≡ err e
      → process_pending neighbours locked limit now refund_ids world db ≡ (
        length sent,
        record_failure m.id (message_of e) db,
        (deliver neighbours world' db' m now (refund_ids m.id)).1,
      )
  unfolding process_pending
  process_pending_interrupted locked limit world world' db db' sent m rest e batch through refused =
      let stops = deliver_each-Stops world world' db db' sent m rest e 0 through refused in
      rw batch (rw (stops.0, stops.1, stops.2) (rw zero-add refl))
