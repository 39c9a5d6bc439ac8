-- ===== src/Payments/Relay.antt =====
-- services/payments/src/payments/relay.py: delivery of the commands in the outbox.
-- The neighbours are a state with a call each, whose answers Clients.antt reads. A run works on a
-- copy of the database that is committed at its end, or dropped. `uuid7` draws ids that no row has:
-- `refund_ids` gives that of the refund command which the delivery of a message leaves.
pub mod Refunds
pub mod Commands
pub mod Interrupted
use slot.Prelude.{
  Answer, ℕ, suc, ◌+◌, String, Bool, true, false, not, ◌&&◌, Option, none, some, List, [], ◌∷◌,
  ◌==◌, str_eq, any_of, take, take_text, select, sort_by, update_where, if◌then◌else◌, Result, ok,
  err,
}
use slot.Payments.Domain.{
  confirm_booking, refund_payment, Failure, booking_rejected, no_result_found, key_error,
  value_error,
}
use slot.Payments.Models.{Payment, OutboxMessage, Db, has_id, get_payment_row}
use slot.Payments.Clients.{Refund, paystub_answer, confirm_answer}

abbrev pub batch_size : ℕ
batch_size = 100

abbrev pub max_error_length : ℕ
max_error_length = 200

abbrev pub is_unpublished : OutboxMessage → Bool
is_unpublished m = elim m.published_at [ none ↦ true | some t ↦ false ]

abbrev pub is_waiting : (ℕ → Bool) → OutboxMessage → Bool
is_waiting locked m = is_unpublished m && not (locked m.id)

-- The query of a run: `locked` tells which rows another relay holds.
unfoldable pub pending_commands : (ℕ → Bool) → ℕ → Db → List OutboxMessage
pending_commands locked limit db =
    take limit (sort_by (λ (m : OutboxMessage). m.id) (select (is_waiting locked) db.outbox))

abbrev pub mark_published : ℕ → ℕ → Db → Db
mark_published now message_id db = record db {
  outbox =
      update_where (λ m. m.id == message_id) (λ m. record m { published_at = some now }) db.outbox;
}

abbrev pub record_failure : ℕ → String → Db → Db
record_failure message_id error db = record db {
  outbox =
      update_where (λ m. m.id == message_id)
        (λ m. record m {
          attempts = m.attempts + 1;
          last_error = some (take_text max_error_length error);
        })
        db.outbox;
}

abbrev pub needing_refund : ℕ → Payment → Payment
needing_refund now p = record p { needs_refund = true; updated_at = now }

abbrev pub refunded : Refund → ℕ → Payment → Payment
refunded refund now p = record p {
  needs_refund = false;
  provider_refund_id = some refund.id;
  refunded_at = some now;
  updated_at = now;
}

abbrev pub refund_command : ℕ → ℕ → OutboxMessage
refund_command message_id payment_id = record {
  id = message_id;
  topic = refund_payment;
  payment_id = payment_id;
  booking_id = none;
  published_at = none;
  attempts = 0;
  last_error = none;
}

-- What `_confirm_booking` does with the answer of the booking service.
unfoldable pub after_confirm : Result Failure (Unit {0}) → ℕ → ℕ → ℕ → Db → Result Failure Db
after_confirm (ok _) payment_id now message_id db = ok db
after_confirm (err booking_rejected) payment_id now message_id db = ok (record db {
  payments = update_where (has_id payment_id) (needing_refund now) db.payments;
  outbox = refund_command message_id payment_id ∷ db.outbox;
})
after_confirm (err e) payment_id now message_id db = err e

-- What `_refund_payment` does with the answer of the provider.
unfoldable pub after_refund : Result Failure Refund → ℕ → ℕ → Db → Result Failure Db
after_refund (err e) payment_id now db = err e
after_refund (ok refund) payment_id now db =
    ok (record db { payments = update_where (has_id payment_id) (refunded refund now) db.payments })

-- The calls of the neighbours.
pub record Neighbours (World : Type 0) : Type 0 where
  pub confirm : World → ℕ → Answer (Unit {0}) × World
  pub refund : World → ℕ → String → ℕ → Answer Refund × World
  -- `str(error)`
  pub message_of : Failure → String

module _ {World : Type 0} (neighbours : Neighbours World) where
  open neighbours use {confirm, refund, message_of}

  -- A delivery: the database after it or the error, and the neighbours after it.
  unfoldable pub confirm_delivery : World → Db → OutboxMessage → ℕ → ℕ → Result Failure Db × World
  confirm_delivery world db m now refund_id = elim m.booking_id [
    | none ↦ (err key_error, world)
    | some booking_id ↦
        let (answer, world') = confirm world booking_id in
        (after_confirm (confirm_answer answer) m.payment_id now refund_id db, world')
  ]

  abbrev pub refund_of :
      World → Db → Payment → ℕ → Option ℕ → Option String → Result Failure Db × World
  refund_of world db p now (some t) charge_id = (ok db, world)
  refund_of world db p now none none = (err value_error, world)
  refund_of world db p now none (some charge_id) =
      let (answer, world') = refund world p.id charge_id p.amount_minor in
      (after_refund (paystub_answer answer) p.id now db, world')

  unfoldable pub refund_delivery : World → Db → OutboxMessage → ℕ → Result Failure Db × World
  refund_delivery world db m now = elim (get_payment_row m.payment_id db) [
    | none ↦ (err no_result_found, world)
    | some p ↦ refund_of world db p now p.refunded_at p.provider_charge_id
  ]

  unfoldable pub deliver : World → Db → OutboxMessage → ℕ → ℕ → Result Failure Db × World
  deliver world db m now refund_id =
      if str_eq m.topic confirm_booking
      then confirm_delivery world db m now refund_id
      else if str_eq m.topic refund_payment
      then refund_delivery world db m now
      else (err value_error, world)

  -- How the loop ends: the working copy, how many were done, and the failure that stopped it.
  pub record Run : Type 0 where
    pub world : World
    pub work : Db
    pub done : ℕ
    pub failure : Option (ℕ × Failure)

  unfoldable pub deliver_each : World → Db → List OutboxMessage → ℕ → (ℕ → ℕ) → ℕ → Run
  deliver_each world db [] now refund_ids done = record {
    world = world;
    work = db;
    done = done;
    failure = none;
  }
  deliver_each world db (m ∷ ms) now refund_ids done =
      let (result, world') = deliver world db m now (refund_ids m.id) in
      elim result [
        | err e ↦ record { world = world'; work = db; done = done; failure = some (m.id, e) }
        | ok db' ↦ deliver_each world' (mark_published now m.id db') ms now refund_ids (suc done)
      ]

  -- A failure drops the whole working copy before it is recorded.
  abbrev pub settle : Db → Db → Option (ℕ × Failure) → Db
  settle db work none = work
  settle db work (some (message_id, e)) = record_failure message_id (message_of e) db

  unfoldable pub process_pending : (ℕ → Bool) → ℕ → ℕ → (ℕ → ℕ) → World → Db → ℕ × Db × World
  process_pending locked limit now refund_ids world db =
      let run = deliver_each world db (pending_commands locked limit db) now refund_ids 0 in
      (run.done, settle db run.work run.failure, run.world)
