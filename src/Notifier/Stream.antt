-- ===== src/Notifier/Stream.antt =====
-- services/notifier/src/notifier/consumer.py: one turn of the loop, from the broker's answers to
-- the count of the outcomes, and several of them. What the broker answers during a turn is given;
-- the heartbeat file is left out, and the endless loop is cut after some turns.
use slot.Prelude.{
  ℕ, ◌+◌, String, Bool, Option, none, some, List, [], ◌∷◌, ◌++◌, map, str_eq, Result, ok, err,
  if◌then◌else◌,
}
use slot.Notifier.Domain.{Python}
use slot.Notifier.Models.{Notification, Fields, State}
use slot.Notifier.Consumer.{
  Outcome, was_sent, was_duplicate, was_ignored, has_failed, is_dead, Gateway, HandleError, Ending,
  handle,
}

-- `ConsumerSettings.batch` and `ConsumerSettings.idle_ms`
abbrev pub batch : ℕ
batch = 10

abbrev pub idle_ms : ℕ
idle_ms = 30000

-- `Counter[Outcome]`
pub record Counter : Type 0 where
  pub sent_count : ℕ
  pub duplicate_count : ℕ
  pub ignored_count : ℕ
  pub dead_count : ℕ
  pub failed_count : ℕ

abbrev pub no_results : Counter
no_results = record {
  sent_count = 0;
  duplicate_count = 0;
  ignored_count = 0;
  dead_count = 0;
  failed_count = 0;
}

abbrev pub count : Outcome → Counter → Counter
count was_sent c = record c { sent_count = c.sent_count + 1 }
count was_duplicate c = record c { duplicate_count = c.duplicate_count + 1 }
count was_ignored c = record c { ignored_count = c.ignored_count + 1 }
count is_dead c = record c { dead_count = c.dead_count + 1 }
count has_failed c = record c { failed_count = c.failed_count + 1 }

-- An entry of the pending messages, as the broker tells of it.
pub record PendingEntry : Type 0 where
  pub message_id : String
  pub times_delivered : ℕ

-- A message that `_handle` is called with.
pub record Delivery : Type 0 where
  pub message_id : String
  pub fields : Fields
  pub deliveries : ℕ

-- What the broker answers during a turn: the pending messages by their number and idle time, the
-- messages claimed of some ids, and the new messages by their number.
pub record Broker : Type 0 where
  pub xpending_range : ℕ → ℕ → List PendingEntry
  pub xclaim : ℕ → List String → List (String × Fields)
  pub xreadgroup : ℕ → List (String × Fields)

-- How a turn ends early: an error of `_handle`, or an id that is not among the pending messages.
pub data RunError : Type 0 where
  uncaught : HandleError → RunError
  key_error : RunError

-- The dict `deliveries`, in which a later entry of an id wins.
abbrev pub times_delivered : List PendingEntry → String → Option ℕ
times_delivered [] message_id = none
times_delivered (e ∷ es) message_id = elim (times_delivered es message_id) [
  | some k ↦ some k
  | none ↦ if str_eq e.message_id message_id then some e.times_delivered else none
]

abbrev pub entry_ids : List PendingEntry → List String
entry_ids entries = map (λ e. e.message_id) entries

abbrev pub claimed_delivery : String × Fields → Option ℕ → Result RunError Delivery
claimed_delivery message none = err key_error
claimed_delivery (message_id, fields) (some k) =
    ok (record { message_id = message_id; fields = fields; deliveries = k + 1 })

abbrev pub prepend :
    Result RunError Delivery → Result RunError (List Delivery) → Result RunError (List Delivery)
prepend (err e) rest = err e
prepend (ok d) (err e) = err e
prepend (ok d) (ok ds) = ok (d ∷ ds)

-- The comprehension at the end of `_reclaimed`.
abbrev pub claimed_deliveries :
    List PendingEntry → List (String × Fields) → Result RunError (List Delivery)
claimed_deliveries entries [] = ok []
claimed_deliveries entries (message ∷ messages) =
    prepend (claimed_delivery message (times_delivered entries message.0))
      (claimed_deliveries entries messages)

-- `_reclaimed`: without pending messages nothing is claimed.
abbrev pub reclaimed_of : Broker → List PendingEntry → Result RunError (List Delivery)
reclaimed_of broker [] = ok []
reclaimed_of broker (e ∷ es) =
    claimed_deliveries (e ∷ es) (broker.xclaim idle_ms (entry_ids (e ∷ es)))

abbrev pub reclaimed : Broker → Result RunError (List Delivery)
reclaimed broker = reclaimed_of broker (broker.xpending_range batch idle_ms)

abbrev pub fresh_delivery : String × Fields → Delivery
fresh_delivery (message_id, fields) = record {
  message_id = message_id;
  fields = fields;
  deliveries = 1;
}

-- `_fresh`
abbrev pub fresh : Broker → List Delivery
fresh broker = map fresh_delivery (broker.xreadgroup batch)

-- A new message waits for its acknowledgement from the moment that it is read.
abbrev pub note_read : List Delivery → State → State
note_read ds s = record s { pending = map (λ d. d.message_id) ds ++ s.pending }

-- What other consumers do, and what the clock says, while a message is handled.
pub record Moment : Type 0 where
  pub others : Bool → List Notification → List Notification
  pub now : ℕ
  pub now' : ℕ

-- A turn: the broker's answers, and the moments at which the messages are handled.
pub record Turn : Type 0 where
  pub broker : Broker
  pub moments : ℕ → Moment

-- `ensure_group`: whether the broker's error, if it has one, is raised.
abbrev pub ensure_group : (String → Bool) → Result {0, 0} String Unit → Result {0, 0} String Unit
ensure_group says_busygroup (ok _) = ok tt
ensure_group says_busygroup (err e) = if says_busygroup e then ok tt else err e

-- The rest of a turn after `_handle`: an error that is not caught ends it, and what was done before
-- the error stays.
abbrev pub after_handle :
    {W : Type 0}
    → Ending × W
    → (Outcome → State → W → (Result RunError Counter × State) × W)
    → (Result RunError Counter × State) × W
after_handle (err (e, s), world) rest = ((err (uncaught e), s), world)
after_handle (ok (outcome, s'), world) rest = rest outcome s' world

module _ (python : Python) {World : Type 0} (gateway : Gateway World) where
  -- The loop of `run_once`, from a message on.
  unfoldable pub handle_all :
      List Delivery
      → (ℕ → Moment)
      → ℕ
      → Counter
      → State
      → World
      → (Result RunError Counter × State) × World
  handle_all [] moments n results s world = ((ok results, s), world)
  handle_all (d ∷ ds) moments n results s world =
      after_handle
        (handle python gateway (moments n).others s world d.message_id d.fields d.deliveries
          (moments n).now (moments n).now')
        (λ outcome s' world'. handle_all ds moments (n + 1) (count outcome results) s' world')

  -- `run_once`
  unfoldable pub run_once : Turn → State → World → (Result RunError Counter × State) × World
  run_once turn s world = elim (reclaimed turn.broker) [
    | err e ↦ ((err e, s), world)
    | ok ds ↦
        handle_all (ds ++ fresh turn.broker) turn.moments 0 no_results
          (note_read (fresh turn.broker) s) world
  ]

  abbrev pub after_turn :
      (Result RunError Counter × State) × World
      → (State → World → (Result {0, 0} RunError Unit × State) × World)
      → (Result {0, 0} RunError Unit × State) × World
  after_turn ((err e, s), world) rest = ((err e, s), world)
  after_turn ((ok results, s), world) rest = rest s world

  -- `run_forever`, over the given turns.
  unfoldable pub run_turns :
      List Turn → State → World → (Result {0, 0} RunError Unit × State) × World
  run_turns [] s world = ((ok tt, s), world)
  run_turns (turn ∷ turns) s world =
      after_turn (run_once turn s world) (λ s' world'. run_turns turns s' world')
