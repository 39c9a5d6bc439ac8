-- ===== src/Payments/Lifecycle.antt =====
-- What becomes of a payment: its row stays, with its money, and its status moves along the table.
use slot.Prelude.{
  ℕ, suc, String, ◌≡◌, refl, sym, ◌∙◌, subst, ap, ◌⊎◌, inl, inr, Bool, true, ◌==◌, ==→eq, Option,
  none, some, List, [], ◌∷◌, arith, str_eq, any_of, any_of-find_by, find_by, find_by_holds,
  find_by-update_where, update_where, Bool-cases, Option-cases, Result-cases, Result, ok, err,
}
use slot.Payments.Domain.{
  PaymentStatus, pending, succeeded, failed, Failure, can_transition, confirm_booking,
  refund_payment, booking_rejected,
}
use slot.Payments.Clients.{Charge, Refund}
use slot.Payments.Models.{
  Payment, OutboxMessage, Db, Constraint, amount_positive, primary_key, one_payment_per_booking,
  has_id, payment_violation, get_payment_row,
}
use slot.Payments.Service.{
  open_payment, attach_charge, close_payment, is_uncharged, with_charge, with_status, settle_event,
  record_event, handle_webhook, find_payment,
}
use slot.Payments.Webhooks.{handle_webhook_paths, find_payment_row}
use slot.Payments.Relay.{
  mark_published, needing_refund, refunded, after_confirm, after_refund, Neighbours,
  confirm_delivery, refund_of, refund_delivery, deliver, deliver_each, settle, process_pending,
}

abbrev pub Moves : PaymentStatus → PaymentStatus → Type 0
Moves s t = (s ≡ t) ⊎ (can_transition s t ≡ true)

Moves-trans : (s t u : PaymentStatus) → Moves s t → Moves t u → Moves s u
unfolding can_transition
Moves-trans s t u (inl e) h = subst (λ x. Moves x u) (sym e) h
Moves-trans s t u (inr m) (inl e) = subst (λ x. Moves s x) e (inr m)
Moves-trans s pending u (inr m) (inr m') = absurd (never s m)
  where
    never : (s : PaymentStatus) → ¬ (can_transition s pending ≡ true)
    never pending h = cc h
    never succeeded h = cc h
    never failed h = cc h
Moves-trans s succeeded u (inr m) (inr m') = absurd (cc m')
Moves-trans s failed u (inr m) (inr m') = absurd (cc m')

some_injective : {x y : Payment} → some x ≡ some y → x ≡ y
some_injective e = cc e

-- The money of a payment does not change, and its status moves along the table.
abbrev pub Evolves : Payment → Payment → Type 0
Evolves p q =
    (q.booking_id ≡ p.booking_id)
    × (q.amount_minor ≡ p.amount_minor)
    × (q.currency ≡ p.currency)
    × Moves p.status q.status

abbrev pub KeepsPayments : List Payment → List Payment → Type 0
KeepsPayments ps ps' =
    (i : ℕ) (p : Payment)
    → find_by (has_id i) ps ≡ some p
    → (q : Payment) × (find_by (has_id i) ps' ≡ some q) × Evolves p q

KeepsPayments-refl : (ps : List Payment) → KeepsPayments ps ps
KeepsPayments-refl ps i p row = (p, row, (refl, refl, refl, inl refl))

KeepsPayments-trans :
    (a b c : List Payment) → KeepsPayments a b → KeepsPayments b c → KeepsPayments a c
KeepsPayments-trans a b c f g i p row =
    let (q, there, (booking, amount, currency, moves)) = f i p row in
    let (r, there', (booking', amount', currency', moves')) = g i q there in
    (
      r,
      there',
      (
        booking' ∙ booking,
        amount' ∙ amount,
        currency' ∙ currency,
        Moves-trans p.status q.status r.status moves moves',
      ),
    )

-- An update of some rows that lets each of them evolve.
module _ (q : Payment → Bool) (f : Payment → Payment)
    (same_id : (p : Payment) → (f p).id ≡ p.id) where
  update-KeepsPayments :
      (ps : List Payment)
      → ((i : ℕ) (p : Payment) → find_by (has_id i) ps ≡ some p → q p ≡ true → Evolves p (f p))
      → KeepsPayments ps (update_where q f ps)
  update-KeepsPayments ps evolves i p row =
      let after =
        find_by-update_where (has_id i) q f ps p (λ x. ap (λ k. k == i) (same_id x)) row in
      elim (Bool-cases (q p)) [
        | inl hit ↦ (f p, after ∙ rw hit refl, evolves i p row hit)
        | inr miss ↦ (p, after ∙ rw miss refl, (refl, refl, refl, inl refl))
      ]

pub open_payment-KeepsPayments :
    (violation : Option Constraint) (db : Db) (p : Payment)
    → payment_violation p db ≡ violation
    → KeepsPayments db.payments (open_payment violation db p).1.payments
unfolding payment_violation
open_payment-KeepsPayments none db p fits i x row = elim (Bool-cases (has_id i p)) [
  | inr other ↦ (x, rw other row, (refl, refl, refl, inl refl))
  | inl same ↦
      let eq : p.id ≡ i = ==→eq p.id i same in
      let there = any_of-find_by (has_id i) db.payments x row in
      let taken : any_of (has_id p.id) db.payments ≡ true =
        subst (λ k. any_of (has_id k) db.payments ≡ true) (sym eq) there in
      absurd (ground (arith, taken, fits))
]
open_payment-KeepsPayments (some amount_positive) db p e i x row =
    KeepsPayments-refl db.payments i x row
open_payment-KeepsPayments (some primary_key) db p e i x row =
    KeepsPayments-refl db.payments i x row
open_payment-KeepsPayments (some one_payment_per_booking) db p e i x row =
    KeepsPayments-refl db.payments i x row

pub close_payment-KeepsPayments :
    (charged : Result Failure Charge) (created : Bool) (payment_id now : ℕ) (db : Db)
    → KeepsPayments db.payments (close_payment charged created payment_id now db).1.payments
close_payment-KeepsPayments (err e) created payment_id now db = KeepsPayments-refl db.payments
close_payment-KeepsPayments (ok charge) created payment_id now db =
    let after : KeepsPayments db.payments (attach_charge payment_id charge now db).payments =
      update-KeepsPayments (is_uncharged payment_id) (with_charge charge now) (λ p. refl)
        db.payments (λ i p row hit. (refl, refl, refl, inl refl)) in
    elim (Option-cases (get_payment_row payment_id (attach_charge payment_id charge now db))) [
      | inl missing ↦ rw (missing, close_payment) after
      | inr (p, found) ↦ rw (found, close_payment) after
    ]

-- The row of an id is one row: where it is that of `p`, it is `p`.
same_row :
    (db : Db) (p x : Payment) (i : ℕ)
    → get_payment_row p.id db ≡ some p
    → get_payment_row i db ≡ some x
    → has_id p.id x ≡ true
    → x ≡ p
same_row db p x i of_p of_x hit =
    let at_i : x.id ≡ i = ==→eq x.id i (find_by_holds (has_id i) db.payments x of_x) in
    let at_p : x.id ≡ p.id = ==→eq x.id p.id hit in
    let row : get_payment_row p.id db ≡ some x =
      subst (λ k. get_payment_row k db ≡ some x) (sym at_i ∙ at_p) of_x in
    some_injective (sym row ∙ of_p)

settle_event-KeepsPayments :
    (o : Option Payment) (target : PaymentStatus) (now m : ℕ) (db : Db)
    → ((p : Payment) → o ≡ some p → get_payment_row p.id db ≡ some p)
    → KeepsPayments db.payments (settle_event o target now m db).1.payments
settle_event-KeepsPayments none target now m db row = KeepsPayments-refl db.payments
settle_event-KeepsPayments (some p) target now m db row =
    elim (Bool-cases (can_transition p.status target)) [
      | inr stays ↦ rw stays (KeepsPayments-refl db.payments)
      | inl moves ↦ rw moves (
          update-KeepsPayments (has_id p.id) (with_status target now) (λ x. refl) db.payments
            (λ i x found hit.
              let same = same_row db p x i (row p refl) found hit in
              (
                refl,
                refl,
                refl,
                inr (subst (λ y. can_transition y.status target ≡ true) (sym same) moves),
              )))
    ]

pub handle_webhook-KeepsPayments :
    (parse_uuid : String → Option ℕ) (db : Db) (event_id event_type reference : String)
    (now message_id : ℕ)
    → KeepsPayments db.payments
        (handle_webhook parse_uuid db event_id event_type reference now message_id).1.payments
handle_webhook-KeepsPayments parse_uuid db e t reference now m =
    handle_webhook_paths parse_uuid (λ r. KeepsPayments db.payments r.1.payments) db e t reference
      now m (λ _. KeepsPayments-refl db.payments) (λ _. KeepsPayments-refl db.payments)
      (λ target fresh.
        let recorded = record_event e t db in
        settle_event-KeepsPayments (find_payment parse_uuid recorded reference) target now m
          recorded (find_payment_row parse_uuid recorded reference))

abbrev KeepsResult : Db → Result Failure Db → Type 0
KeepsResult db (ok db') = KeepsPayments db.payments db'.payments
KeepsResult db (err e) = Unit

after_confirm-KeepsPayments :
    (answer : Result Failure (Unit {0})) (payment_id now message_id : ℕ) (db : Db)
    → KeepsResult db (after_confirm answer payment_id now message_id db)
unfolding after_confirm
after_confirm-KeepsPayments (ok _) payment_id now message_id db = KeepsPayments-refl db.payments
after_confirm-KeepsPayments (err booking_rejected) payment_id now message_id db =
    update-KeepsPayments (has_id payment_id) (needing_refund now) (λ p. refl) db.payments
      (λ i p row hit. (refl, refl, refl, inl refl))
after_confirm-KeepsPayments (err _) payment_id now message_id db = tt

after_refund-KeepsPayments :
    (answer : Result Failure Refund) (payment_id now : ℕ) (db : Db)
    → KeepsResult db (after_refund answer payment_id now db)
unfolding after_refund
after_refund-KeepsPayments (err e) payment_id now db = tt
after_refund-KeepsPayments (ok refund) payment_id now db =
    update-KeepsPayments (has_id payment_id) (refunded refund now) (λ p. refl) db.payments
      (λ i p row hit. (refl, refl, refl, inl refl))

module _ {World : Type 0} (neighbours : Neighbours World) where
  refund_of-KeepsPayments :
      (world : World) (db : Db) (p : Payment) (now : ℕ) (t : Option ℕ) (charge_id : Option String)
      → KeepsResult db (refund_of neighbours world db p now t charge_id).0
  refund_of-KeepsPayments world db p now (some t) charge_id = KeepsPayments-refl db.payments
  refund_of-KeepsPayments world db p now none none = tt
  refund_of-KeepsPayments world db p now none (some c) = after_refund-KeepsPayments _ p.id now db

  deliver-KeepsPayments :
      (world : World) (db : Db) (m : OutboxMessage) (now refund_id : ℕ)
      → KeepsResult db (deliver neighbours world db m now refund_id).0
  unfolding deliver confirm_delivery refund_delivery
  deliver-KeepsPayments world db m now refund_id =
      elim (Bool-cases (str_eq m.topic confirm_booking)) [
        | inl confirms ↦ rw confirms (elim (Option-cases m.booking_id) [
          | inl missing ↦ rw (missing, confirm_delivery) tt
          | inr (b, has) ↦
              rw (has, confirm_delivery)
                (after_confirm-KeepsPayments _ m.payment_id now refund_id db)
        ])
        | inr other ↦ rw other (elim (Bool-cases (str_eq m.topic refund_payment)) [
          | inl refunds ↦ rw refunds (elim (Option-cases (get_payment_row m.payment_id db)) [
            | inl missing ↦ rw (missing, refund_delivery) tt
            | inr (p, found) ↦
                rw (found, refund_delivery)
                  (refund_of-KeepsPayments world db p now p.refunded_at p.provider_charge_id)
          ])
          | inr unknown ↦ rw unknown tt
        ])
      ]

  deliver_each-KeepsPayments :
      (world : World) (db : Db) (ms : List OutboxMessage) (now : ℕ) (refund_ids : ℕ → ℕ) (done : ℕ)
      → KeepsPayments db.payments
          (deliver_each neighbours world db ms now refund_ids done).work.payments
  unfolding deliver_each
  deliver_each-KeepsPayments world db [] now refund_ids done = KeepsPayments-refl db.payments
  deliver_each-KeepsPayments world db (m ∷ ms) now refund_ids done =
      elim (Result-cases (deliver neighbours world db m now (refund_ids m.id)).0) [
        | inr (e, raised) ↦ rw (raised, deliver_each) (KeepsPayments-refl db.payments)
        | inl (db', delivered) ↦
            let kept : KeepsPayments db.payments db'.payments =
              subst (KeepsResult db) delivered
                (deliver-KeepsPayments world db m now (refund_ids m.id)) in
            rw (delivered, deliver_each)
              (KeepsPayments-trans db.payments db'.payments _ kept (
                deliver_each-KeepsPayments (deliver neighbours world db m now (refund_ids m.id)).1
                  (mark_published now m.id db') ms now refund_ids (suc done)))
      ]

  settle-KeepsPayments :
      (db work : Db) (failure : Option (ℕ × Failure))
      → KeepsPayments db.payments work.payments
      → KeepsPayments db.payments (settle neighbours db work failure).payments
  settle-KeepsPayments db work none k = k
  settle-KeepsPayments db work (some (message_id, e)) k = KeepsPayments-refl db.payments

  pub process_pending-KeepsPayments :
      (locked : ℕ → Bool) (limit now : ℕ) (refund_ids : ℕ → ℕ) (world : World) (db : Db)
      → KeepsPayments db.payments
          (process_pending neighbours locked limit now refund_ids world db).1.payments
  unfolding process_pending
  process_pending-KeepsPayments locked limit now refund_ids world db =
      settle-KeepsPayments db _ _ (deliver_each-KeepsPayments world db _ now refund_ids 0)
