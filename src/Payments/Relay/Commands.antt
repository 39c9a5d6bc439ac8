-- ===== src/Payments/Relay/Commands.antt =====
-- The relay keeps the invariant of the payments: it changes no status and drops no command.
use slot.Prelude.{
  ℕ, suc, String, ◌≡◌, refl, inl, inr, subst, sym, ◌∙◌, Bool, true, Option, none, some, List, [],
  ◌∷◌, arith, ◌==◌, str_eq, any_of, any_of-update_where, count_if-update_where-le, update_where,
  All-map, All-update_where, Bool-cases, Option-cases, Result-cases, Result, ok, err,
}
use slot.Payments.Domain.{
  PaymentStatus, pending, succeeded, failed, Failure, confirm_booking, refund_payment,
  booking_rejected,
}
use slot.Payments.Models.{Payment, OutboxMessage, Db, of_booking, has_id, get_payment_row}
use slot.Payments.Clients.{Refund}
use slot.Payments.Invariant.{IsValid, IsCommanded, is_confirm}
use slot.Payments.Relay.{
  mark_published, needing_refund, refunded, refund_command, after_confirm, after_refund, Neighbours,
  confirm_delivery, refund_of, refund_delivery, deliver, deliver_each, settle, process_pending,
}

-- Every command to confirm a booking is still there.
abbrev KeepsCommands : List OutboxMessage → List OutboxMessage → Type 0
KeepsCommands outbox outbox' =
    (i b : ℕ) → any_of (is_confirm i b) outbox ≡ true → any_of (is_confirm i b) outbox' ≡ true

IsCommanded-still :
    (outbox outbox' : List OutboxMessage) (s : PaymentStatus) (i b : ℕ)
    → KeepsCommands outbox outbox'
    → IsCommanded outbox s i b
    → IsCommanded outbox' s i b
IsCommanded-still outbox outbox' pending i b keeps h = tt
IsCommanded-still outbox outbox' failed i b keeps h = tt
IsCommanded-still outbox outbox' succeeded i b keeps h = keeps i b h

outbox-IsValid :
    (db : Db) (outbox' : List OutboxMessage)
    → KeepsCommands db.outbox outbox'
    → IsValid db
    → IsValid (record db { outbox = outbox' })
outbox-IsValid db outbox' keeps v = record {
  one_payment = v.one_payment;
  one_row = v.one_row;
  one_event = v.one_event;
  commanded =
      All-map db.payments
        (λ p h. IsCommanded-still db.outbox outbox' p.status p.id p.booking_id keeps h) v.commanded;
}

-- An update that leaves what the invariant speaks of.
module _ (f : Payment → Payment) (same_id : (p : Payment) → (f p).id ≡ p.id)
    (same_booking : (p : Payment) → (f p).booking_id ≡ p.booking_id)
    (same_status : (p : Payment) → (f p).status ≡ p.status) where
  update-IsValid :
      (db : Db) (payment_id : ℕ)
      → IsValid db
      → IsValid (record db { payments = update_where (has_id payment_id) f db.payments })
  update-IsValid db payment_id v = record {
    one_payment = λ b. omega (
      arith,
      v.one_payment b,
      count_if-update_where-le (of_booking b) (has_id payment_id) f db.payments
          (λ x hit after. subst (λ k. (k == b) ≡ true) (same_booking x) after),
    );
    one_row = λ i. omega (
      arith,
      v.one_row i,
      count_if-update_where-le (has_id i) (has_id payment_id) f db.payments
          (λ x hit after. subst (λ k. (k == i) ≡ true) (same_id x) after),
    );
    one_event = v.one_event;
    commanded =
        All-update_where _ _ (has_id payment_id) f db.payments
          (λ x hit h.
            subst (λ s. IsCommanded db.outbox s (f x).id (f x).booking_id) (sym (same_status x))
              (subst (λ i. IsCommanded db.outbox x.status i (f x).booking_id) (sym (same_id x))
                (subst (λ b. IsCommanded db.outbox x.status x.id b) (sym (same_booking x)) h)))
          (λ x miss h. h) v.commanded;
  }

abbrev ValidResult : Result Failure Db → Type 0
ValidResult (ok db) = IsValid db
ValidResult (err e) = Unit

after_confirm-IsValid :
    (answer : Result Failure (Unit {0})) (payment_id now message_id : ℕ) (db : Db)
    → IsValid db
    → ValidResult (after_confirm answer payment_id now message_id db)
unfolding after_confirm
after_confirm-IsValid (ok _) payment_id now message_id db v = v
after_confirm-IsValid (err booking_rejected) payment_id now message_id db v =
    outbox-IsValid
      (record db { payments = update_where (has_id payment_id) (needing_refund now) db.payments })
      (refund_command message_id payment_id ∷ db.outbox) (λ i b h. ground (arith, h))
      (update-IsValid (needing_refund now) (λ p. refl) (λ p. refl) (λ p. refl) db payment_id v)
after_confirm-IsValid (err _) payment_id now message_id db v = tt

after_refund-IsValid :
    (answer : Result Failure Refund) (payment_id now : ℕ) (db : Db)
    → IsValid db
    → ValidResult (after_refund answer payment_id now db)
unfolding after_refund
after_refund-IsValid (err e) payment_id now db v = tt
after_refund-IsValid (ok refund) payment_id now db v =
    update-IsValid (refunded refund now) (λ p. refl) (λ p. refl) (λ p. refl) db payment_id v

marked-IsValid :
    (f : OutboxMessage → OutboxMessage) (db : Db) (message_id : ℕ)
    → ((i b : ℕ) (m : OutboxMessage) → is_confirm i b (f m) ≡ is_confirm i b m)
    → IsValid db
    → IsValid (record db { outbox = update_where (λ m. m.id == message_id) f db.outbox })
marked-IsValid f db message_id same v =
    outbox-IsValid db (update_where (λ m. m.id == message_id) f db.outbox)
      (λ i b h.
        any_of-update_where (is_confirm i b) (λ m. m.id == message_id) f db.outbox (same i b) ∙ h)
      v

module _ {World : Type 0} (neighbours : Neighbours World) where
  refund_of-IsValid :
      (world : World) (db : Db) (p : Payment) (now : ℕ) (t : Option ℕ) (charge_id : Option String)
      → IsValid db
      → ValidResult (refund_of neighbours world db p now t charge_id).0
  refund_of-IsValid world db p now (some t) charge_id v = v
  refund_of-IsValid world db p now none none v = tt
  refund_of-IsValid world db p now none (some c) v = after_refund-IsValid _ p.id now db v

  deliver-IsValid :
      (world : World) (db : Db) (m : OutboxMessage) (now refund_id : ℕ)
      → IsValid db
      → ValidResult (deliver neighbours world db m now refund_id).0
  unfolding deliver confirm_delivery refund_delivery
  deliver-IsValid world db m now refund_id v = elim (Bool-cases (str_eq m.topic confirm_booking)) [
    | inl confirms ↦ rw confirms (elim (Option-cases m.booking_id) [
      | inl missing ↦ rw (missing, confirm_delivery) tt
      | inr (b, has) ↦
          rw (has, confirm_delivery) (after_confirm-IsValid _ m.payment_id now refund_id db v)
    ])
    | inr other ↦ rw other (elim (Bool-cases (str_eq m.topic refund_payment)) [
      | inl refunds ↦ rw refunds (elim (Option-cases (get_payment_row m.payment_id db)) [
        | inl missing ↦ rw (missing, refund_delivery) tt
        | inr (p, found) ↦
            rw (found, refund_delivery)
              (refund_of-IsValid world db p now p.refunded_at p.provider_charge_id v)
      ])
      | inr unknown ↦ rw unknown tt
    ])
  ]

  deliver_each-IsValid :
      (world : World) (db : Db) (ms : List OutboxMessage) (now : ℕ) (refund_ids : ℕ → ℕ) (done : ℕ)
      → IsValid db
      → IsValid (deliver_each neighbours world db ms now refund_ids done).work
  unfolding deliver_each
  deliver_each-IsValid world db [] now refund_ids done v = v
  deliver_each-IsValid world db (m ∷ ms) now refund_ids done v =
      elim (Result-cases (deliver neighbours world db m now (refund_ids m.id)).0) [
        | inl (db', delivered) ↦
            let kept : IsValid db' =
              subst ValidResult delivered (deliver-IsValid world db m now (refund_ids m.id) v) in
            rw (delivered, deliver_each)
              (deliver_each-IsValid (deliver neighbours world db m now (refund_ids m.id)).1
                (mark_published now m.id db') ms now refund_ids (suc done)
                (marked-IsValid (λ x. record x { published_at = some now }) db' m.id (λ i b x. refl)
                  kept))
        | inr (e, raised) ↦ rw (raised, deliver_each) v
      ]

  settle-IsValid :
      (db work : Db) (failure : Option (ℕ × Failure))
      → IsValid db
      → IsValid work
      → IsValid (settle neighbours db work failure)
  settle-IsValid db work none v w = w
  settle-IsValid db work (some (message_id, e)) v w =
      marked-IsValid _ db message_id (λ i b x. refl) v

  -- However a run of the relay ends, it keeps the invariant of the payments.
  pub process_pending-IsValid :
      (locked : ℕ → Bool) (limit now : ℕ) (refund_ids : ℕ → ℕ) (world : World) (db : Db)
      → IsValid db
      → IsValid (process_pending neighbours locked limit now refund_ids world db).1
  unfolding process_pending
  process_pending-IsValid locked limit now refund_ids world db v =
      settle-IsValid db _ _ v (deliver_each-IsValid world db _ now refund_ids 0 v)
