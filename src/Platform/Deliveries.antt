-- ===== src/Platform/Deliveries.antt =====
-- One delivery of the payments relay to the booking service or the provider.
use slot.Prelude.{
  Answer, ℕ, String, ◌≡◌, refl, inl, inr, Bool, true, false, ◌||◌, Option, none, some, arith, subst,
  sym, ◌==◌, str_eq, eq_refl, any_of, any_of-update_where, Bool-cases, Option-cases, Result, ok,
  err,
}
use slot.Booking.Models.{Db as BookingDb, OutboxMessage as Event}
use slot.Booking.Tokens.{Stdlib}
use slot.Booking.Invariant.{IsValid}
use slot.Booking.Http.{Env, Payment}
use slot.Payments.Domain.{Failure, confirm_booking, refund_payment, booking_rejected}
use slot.Payments.Models.{Payment as Charged, OutboxMessage, Db, get_payment_row}
use slot.Payments.Clients.{Refund, confirm_answer}
use slot.Payments.Relay.{
  mark_published, after_confirm, after_refund, Neighbours, confirm_delivery, refund_of,
  refund_delivery, deliver,
}
use slot.Payments.Relay.Refunds.{is_refund}
use slot.Platform.{confirm_call, platform}
use slot.Platform.Confirmed.{is_confirmed, Confirms, confirm_call-Confirms}

-- The booking of the command has been announced as confirmed, or the money is commanded back.
abbrev pub is_honoured : BookingDb → Db → OutboxMessage → Bool
is_honoured bookings payments m = elim m.booking_id [
  | none ↦ false
  | some b ↦
      any_of (is_confirmed b) bookings.outbox || any_of (is_refund m.payment_id) payments.outbox
]

-- Nothing that honours a command is taken back.
pub record Grows (bookings after : BookingDb) : Type 0 where
  pub valid : IsValid after
  pub keeps : (p : Event → Bool) → any_of p bookings.outbox ≡ true → any_of p after.outbox ≡ true

abbrev pub KeepsRefunds : Db → Db → Type 0
KeepsRefunds db db' =
    (i : ℕ) → any_of (is_refund i) db.outbox ≡ true → any_of (is_refund i) db'.outbox ≡ true

pub Grows-trans : (a b c : BookingDb) → Grows a b → Grows b c → Grows a c
Grows-trans a b c g h = record { valid = h.valid; keeps = λ p before. h.keeps p (g.keeps p before) }

-- What holds of a delivery of `m`.
abbrev pub Delivers : BookingDb → Db → OutboxMessage → Result Failure Db × BookingDb → Type 0
Delivers bookings db m (err e, after) = Grows bookings after
Delivers bookings db m (ok db', after) =
    Grows bookings after
    × KeepsRefunds db db'
    × (str_eq m.topic confirm_booking ≡ true → is_honoured after db' m ≡ true)

after_confirm-Delivers :
    (bookings after : BookingDb) (db : Db) (m : OutboxMessage) (b now refund_id : ℕ)
    (answer : Answer (Unit {0})) (r : Result Failure (Unit {0}))
    → m.booking_id ≡ some b
    → confirm_answer answer ≡ r
    → Confirms b bookings answer after
    → Delivers bookings db m (after_confirm r m.payment_id now refund_id db, after)
unfolding after_confirm
after_confirm-Delivers bookings after db m b now i answer (ok tt) has e c = (
  record { valid = c.valid; keeps = c.keeps },
  (λ k before. before),
  λ topic. rw (has, c.told e) refl,
)
after_confirm-Delivers bookings after db m b now i answer (err booking_rejected) has e c = (
  record { valid = c.valid; keeps = c.keeps },
  (λ k before. ground arith),
  λ topic. rw has (ground (arith, eq_refl refund_payment)),
)
after_confirm-Delivers bookings after db m b now i answer (err _) has e c = record {
  valid = c.valid;
  keeps = c.keeps;
}

after_refund-Delivers :
    (bookings : BookingDb) (db : Db) (m : OutboxMessage) (i now : ℕ) (r : Result Failure Refund)
    → IsValid bookings
    → (str_eq m.topic confirm_booking) ≡ false
    → Delivers bookings db m (after_refund r i now db, bookings)
unfolding after_refund
after_refund-Delivers bookings db m i now (ok refund) v other =
    (record { valid = v; keeps = λ p before. before }, (λ k before. before), λ topic. absurd (cc))
after_refund-Delivers bookings db m i now (err e) v other = record {
  valid = v;
  keeps = λ p before. before;
}

pub mark-keeps :
    (now i : ℕ) (p : OutboxMessage → Bool) (db : Db)
    → ((m : OutboxMessage) → p (record m { published_at = some now }) ≡ p m)
    → any_of p (mark_published now i db).outbox ≡ any_of p db.outbox
mark-keeps now i p db h =
    any_of-update_where p (λ m. m.id == i) (λ m. record m { published_at = some now }) db.outbox h

pub is_honoured-keeps :
    (a b : BookingDb) (db db' : Db) (m : OutboxMessage)
    → Grows a b
    → KeepsRefunds db db'
    → is_honoured a db m ≡ true
    → is_honoured b db' m ≡ true
is_honoured-keeps a b db db' m g k h = elim (Option-cases m.booking_id) [
  | inl missing ↦ absurd (ground (arith, missing))
  | inr (i, has) ↦ rw has (
      ground (
        arith,
        g.keeps (is_confirmed i),
        k m.payment_id,
        subst
            (λ o.
              elim o [
                | none ↦ false
                | some b ↦
                    any_of (is_confirmed b) a.outbox || any_of (is_refund m.payment_id) db.outbox
              ]
              ≡ true)
            has h,
      ))
]

module _ (lib : Stdlib) (env : Env) (post : ℕ → ℕ → String → Answer Payment) (now : ℕ)
    (message_ids : ℕ → ℕ) (provider : BookingDb → ℕ → String → ℕ → Answer Refund)
    (message_of : Failure → String) where
  abbrev pub services : Neighbours BookingDb
  services = platform lib env post now message_ids provider message_of

  refund_of-Delivers :
      (bookings : BookingDb) (db : Db) (m : OutboxMessage) (p : Charged) (at : Option ℕ)
      (charge : Option String)
      → IsValid bookings
      → (str_eq m.topic confirm_booking) ≡ false
      → Delivers bookings db m (refund_of services bookings db p now at charge)
  refund_of-Delivers bookings db m p (some t) charge v other =
      (record { valid = v; keeps = λ p before. before }, (λ k before. before), λ topic. absurd (cc))
  refund_of-Delivers bookings db m p none none v other = record {
    valid = v;
    keeps = λ p before. before;
  }
  refund_of-Delivers bookings db m p none (some c) v other =
      after_refund-Delivers bookings db m p.id now _ v other

  delivery_of :
      (bookings : BookingDb) (db : Db) (m : OutboxMessage) (b refund_id : ℕ)
      → m.booking_id ≡ some b
      → let call = confirm_call lib env post now message_ids bookings bookings b in
        confirm_delivery services bookings db m now refund_id
        ≡ (after_confirm (confirm_answer call.0) m.payment_id now refund_id db, call.1)
  unfolding confirm_delivery
  delivery_of bookings db m b refund_id has = rw has refl

  pub deliver-Delivers :
      (bookings : BookingDb) (db : Db) (m : OutboxMessage) (refund_id : ℕ)
      → IsValid bookings
      → Delivers bookings db m (deliver services bookings db m now refund_id)
  unfolding deliver confirm_delivery refund_delivery
  deliver-Delivers bookings db m refund_id v = elim (Bool-cases (str_eq m.topic confirm_booking)) [
    | inl confirms ↦ rw confirms (elim (Option-cases m.booking_id) [
      | inl missing ↦
          rw (missing, confirm_delivery) (record { valid = v; keeps = λ p before. before })
      | inr (b, has) ↦
          let call = confirm_call lib env post now message_ids bookings bookings b in
          subst (Delivers bookings db m) (sym (delivery_of bookings db m b refund_id has)) (
            after_confirm-Delivers bookings call.1 db m b now refund_id call.0
              (confirm_answer call.0) has refl
              (confirm_call-Confirms lib env post now message_ids bookings b v))
    ])
    | inr other ↦ rw other (elim (Bool-cases (str_eq m.topic refund_payment)) [
      | inl refunds ↦ rw refunds (elim (Option-cases (get_payment_row m.payment_id db)) [
        | inl missing ↦
            rw (missing, refund_delivery) (record { valid = v; keeps = λ p before. before })
        | inr (p, found) ↦
            rw (found, refund_delivery)
              (refund_of-Delivers bookings db m p p.refunded_at p.provider_charge_id v other)
      ])
      | inr unknown ↦ rw unknown (record { valid = v; keeps = λ p before. before })
    ])
  ]
