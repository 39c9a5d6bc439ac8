-- ===== src/Payments/Invariant.antt =====
-- What holds of the payments database between two transactions.
use slot.Prelude.{
  ℕ, ◌≤◌, String, ◌≡◌, refl, inl, inr, subst, sym, Bool, true, false, ◌&&◌, Option, none, some,
  List, ◌∷◌, arith, ◌==◌, ==→eq, str_eq, eq_iff, any_of, count_if, All, All-both, All-unique,
  All-update_where, count_if-update_where-le, count_if-eq-zero, Bool-cases,
}
use slot.Payments.Domain.{
  PaymentStatus, pending, succeeded, failed, can_transition, confirm_booking,
}
use slot.Payments.Clients.{Charge}
use slot.Payments.Models.{
  Payment, OutboxMessage, Db, empty, of_booking, has_id, payment_violation, get_payment_row,
}
use slot.Payments.Service.{
  is_uncharged, with_charge, attach_charge, is_event, record_event, confirm_command, with_status,
  apply_event, settle_event,
}

-- The outbox has the command that confirms the booking of this payment.
abbrev pub is_confirm : ℕ → ℕ → OutboxMessage → Bool
is_confirm payment_id booking_id m =
    str_eq m.topic confirm_booking
    && (m.payment_id == payment_id)
    && elim m.booking_id [ none ↦ false | some b ↦ b == booking_id ]

abbrev pub IsCommanded : List OutboxMessage → PaymentStatus → ℕ → ℕ → Type 0
IsCommanded outbox pending payment_id booking_id = Unit
IsCommanded outbox failed payment_id booking_id = Unit
IsCommanded outbox succeeded payment_id booking_id =
    any_of (is_confirm payment_id booking_id) outbox ≡ true

pub record IsValid (db : Db) : Type 0 where
  -- one payment per booking (ADR-0008)
  pub one_payment : (b : ℕ) → count_if (of_booking b) db.payments ≤ 1
  pub one_row : (i : ℕ) → count_if (has_id i) db.payments ≤ 1
  pub one_event : (e : String) → count_if (is_event e) db.events ≤ 1
  -- money that arrived has the command to confirm its booking (ADR-0010)
  pub commanded : All (λ p. IsCommanded db.outbox p.status p.id p.booking_id) db.payments

pub empty-IsValid : IsValid empty
empty-IsValid = record {
  one_payment = λ b. omega arith;
  one_row = λ i. omega arith;
  one_event = λ e. omega arith;
  commanded = tt;
}

IsCommanded-mono :
    (m : OutboxMessage) (outbox : List OutboxMessage) (s : PaymentStatus) (i b : ℕ)
    → IsCommanded outbox s i b
    → IsCommanded (m ∷ outbox) s i b
IsCommanded-mono m outbox pending i b h = tt
IsCommanded-mono m outbox failed i b h = tt
IsCommanded-mono m outbox succeeded i b h = ground arith

pub insert_payment-IsValid :
    (db : Db) (p : Payment)
    → payment_violation p db ≡ none
    → p.status ≡ pending
    → IsValid db
    → IsValid (record db { payments = p ∷ db.payments })
unfolding payment_violation
insert_payment-IsValid db p fits new v = record {
  one_payment = λ b. elim (Bool-cases (of_booking b p)) [
    | inl same ↦
        let e : p.booking_id ≡ b = ==→eq p.booking_id b same in
        let none_there : any_of (of_booking p.booking_id) db.payments ≡ false = ground arith in
        ground (arith, e, count_if-eq-zero (of_booking p.booking_id) db.payments none_there)
    | inr other ↦ ground (arith, v.one_payment b)
  ];
  one_row = λ i. elim (Bool-cases (has_id i p)) [
    | inl same ↦
        let e : p.id ≡ i = ==→eq p.id i same in
        let none_there : any_of (has_id p.id) db.payments ≡ false = ground arith in
        ground (arith, e, count_if-eq-zero (has_id p.id) db.payments none_there)
    | inr other ↦ ground (arith, v.one_row i)
  ];
  one_event = v.one_event;
  commanded = (subst (λ s. IsCommanded db.outbox s p.id p.booking_id) (sym new) tt, v.commanded);
}

pub attach_charge-IsValid :
    (db : Db) (payment_id : ℕ) (charge : Charge) (now : ℕ)
    → IsValid db
    → IsValid (attach_charge payment_id charge now db)
attach_charge-IsValid db payment_id charge now v = record {
  one_payment = λ b. omega (
    arith,
    v.one_payment b,
    count_if-update_where-le (of_booking b) (is_uncharged payment_id) (with_charge charge now)
        db.payments (λ x hit after. after),
  );
  one_row = λ i. omega (
    arith,
    v.one_row i,
    count_if-update_where-le (has_id i) (is_uncharged payment_id) (with_charge charge now)
        db.payments (λ x hit after. after),
  );
  one_event = v.one_event;
  commanded =
      All-update_where _ _ (is_uncharged payment_id) (with_charge charge now) db.payments
        (λ x hit h. h) (λ x miss h. h) v.commanded;
}

pub record_event-IsValid :
    (db : Db) (event_id event_type : String)
    → any_of (is_event event_id) db.events ≡ false
    → IsValid db
    → IsValid (record_event event_id event_type db)
record_event-IsValid db event_id event_type fresh v = record {
  one_payment = v.one_payment;
  one_row = v.one_row;
  one_event = λ e. elim (Bool-cases (str_eq event_id e)) [
    | inl same ↦
        let eq : event_id ≡ e = (eq_iff event_id e).0 same in
        ground (arith, eq, count_if-eq-zero (is_event event_id) db.events fresh)
    | inr other ↦ ground (arith, v.one_event e)
  ];
  commanded = v.commanded;
}

module _ (db : Db) (p : Payment) (now message_id : ℕ) (found : get_payment_row p.id db ≡ some p)
    (v : IsValid db) where
  -- The payments after the update, against the outbox with the command of a success.
  apply_event-IsCommanded :
      (target : PaymentStatus)
      → All
          (λ x.
            IsCommanded (apply_event p target now message_id db).outbox x.status x.id x.booking_id)
          (apply_event p target now message_id db).payments
  apply_event-IsCommanded target =
      All-update_where
        (λ x. IsCommanded db.outbox x.status x.id x.booking_id × (has_id p.id x ≡ true → x ≡ p))
        (λ x.
          IsCommanded (apply_event p target now message_id db).outbox x.status x.id x.booking_id)
        (has_id p.id) (with_status target now) db.payments
        (λ x hit both.
          subst
            (λ y.
              IsCommanded (apply_event p target now message_id db).outbox target y.id y.booking_id)
            (sym (both.1 hit)) (own target))
        (λ x miss both. kept target x.status x.id x.booking_id both.0)
        (All-both (λ x. IsCommanded db.outbox x.status x.id x.booking_id)
          (λ x. has_id p.id x ≡ true → x ≡ p) db.payments v.commanded
          (All-unique (has_id p.id) db.payments p (v.one_row p.id) found))
    where
      own :
          (t : PaymentStatus)
          → IsCommanded (apply_event p t now message_id db).outbox t p.id p.booking_id
      own pending = tt
      own failed = tt
      own succeeded = ground arith

      kept :
          (t s : PaymentStatus) (i b : ℕ)
          → IsCommanded db.outbox s i b
          → IsCommanded (apply_event p t now message_id db).outbox s i b
      kept pending s i b h = h
      kept failed s i b h = h
      kept succeeded s i b h = IsCommanded-mono (confirm_command message_id p) db.outbox s i b h

  apply_event-IsValid : (target : PaymentStatus) → IsValid (apply_event p target now message_id db)
  apply_event-IsValid target = record {
    one_payment = λ b. omega (
      arith,
      v.one_payment b,
      count_if-update_where-le (of_booking b) (has_id p.id) (with_status target now) db.payments
          (λ x hit after. after),
    );
    one_row = λ i. omega (
      arith,
      v.one_row i,
      count_if-update_where-le (has_id i) (has_id p.id) (with_status target now) db.payments
          (λ x hit after. after),
    );
    one_event = v.one_event;
    commanded = apply_event-IsCommanded target;
  }

pub settle_event-IsValid :
    (o : Option Payment) (target : PaymentStatus) (now message_id : ℕ) (db : Db)
    → ((p : Payment) → o ≡ some p → get_payment_row p.id db ≡ some p)
    → IsValid db
    → IsValid (settle_event o target now message_id db).1
settle_event-IsValid none target now m db row v = v
settle_event-IsValid (some p) target now m db row v =
    elim (Bool-cases (can_transition p.status target)) [
      | inl moves ↦ rw moves (apply_event-IsValid db p now m (row p refl) v target)
      | inr stays ↦ rw stays v
    ]
