-- ===== src/Payments/Checkout.antt =====
-- `create_payment`: one payment per booking, and what a repeated request comes to.
use slot.Prelude.{
  ℕ, ◌<◌, String, ◌≡◌, refl, inl, inr, Bool, false, ◌&&◌, Option, none, some, arith, ◌==◌, str_eq,
  any_of, find_by, any_of-find_by, Bool-cases, Option-cases, if◌then◌else◌, Result, ok, err,
}
use slot.Payments.Domain.{Failure, payment_conflict, pending}
use slot.Payments.Clients.{Charge}
use slot.Payments.Models.{
  Payment, Db, Constraint, amount_positive, primary_key, one_payment_per_booking, of_booking,
  has_id, payment_violation, get_payment_row,
}
use slot.Payments.Service.{
  new_payment, existing_payment, open_payment, attach_charge, close_payment, ensure_charge,
  create_payment,
}
use slot.Payments.Invariant.{IsValid, insert_payment-IsValid, attach_charge-IsValid}

pub open_payment-IsValid :
    (violation : Option Constraint) (db : Db) (p : Payment)
    → payment_violation p db ≡ violation
    → p.status ≡ pending
    → IsValid db
    → IsValid (open_payment violation db p).1
open_payment-IsValid none db p fits new v = insert_payment-IsValid db p fits new v
open_payment-IsValid (some amount_positive) db p e new v = v
open_payment-IsValid (some primary_key) db p e new v = v
open_payment-IsValid (some one_payment_per_booking) db p e new v = v

pub close_payment-IsValid :
    (charged : Result Failure Charge) (created : Bool) (payment_id now : ℕ) (db : Db)
    → IsValid db
    → IsValid (close_payment charged created payment_id now db).1
close_payment-IsValid (err e) created payment_id now db v = v
close_payment-IsValid (ok charge) created payment_id now db v =
    let after = attach_charge-IsValid db payment_id charge now v in
    elim (Option-cases (get_payment_row payment_id (attach_charge payment_id charge now db))) [
      | inl missing ↦ rw (missing, close_payment) after
      | inr (p, found) ↦ rw (found, close_payment) after
    ]

taken :
    (db : Db) (b amount : ℕ) (currency : String) (now i : ℕ) (p : Payment)
    → find_by (of_booking b) db.payments ≡ some p
    → 0 < amount
    → any_of (has_id i) db.payments ≡ false
    → payment_violation (new_payment i b amount currency now) db ≡ some one_payment_per_booking
unfolding payment_violation
taken db b amount currency now i p found positive fresh =
    ground (arith, any_of-find_by (of_booking b) db.payments p found)

module _ (create_charge : ℕ → ℕ → String → Result Failure Charge) (meanwhile : Db → Db) where
  ensure_charge-IsValid :
      (opened : Result Failure (Payment × Bool)) (db : Db) (amount_minor : ℕ) (currency : String)
      (now : ℕ)
      → ((d : Db) → IsValid d → IsValid (meanwhile d))
      → IsValid db
      → IsValid (ensure_charge create_charge meanwhile (opened, db) amount_minor currency now).1
  ensure_charge-IsValid (err e) db amount currency now others v = v
  ensure_charge-IsValid (ok (p, created)) db amount currency now others v =
      elim (Option-cases p.provider_charge_id) [
        | inr (c, charged) ↦ simp charged v
        | inl uncharged ↦ simp uncharged (
            close_payment-IsValid (create_charge p.id amount currency) created p.id now
              (meanwhile db) (others db v))
      ]

  -- `create_payment` keeps the invariant, whatever the provider answers, where the transactions
  -- that commit during the call of the provider keep it.
  pub create_payment-IsValid :
      (db : Db) (booking_id amount_minor : ℕ) (currency : String) (now payment_id : ℕ)
      → ((d : Db) → IsValid d → IsValid (meanwhile d))
      → IsValid db
      → IsValid
          (create_payment create_charge meanwhile db booking_id amount_minor currency now
            payment_id).1
  unfolding create_payment
  create_payment-IsValid db b amount currency now i others v =
      ensure_charge-IsValid _ _ amount currency now others
        (open_payment-IsValid _ db (new_payment i b amount currency now) refl refl v)

  -- A request for a booking that has a payment already, with a charge: it is answered by that
  -- payment if the amount and the currency are the same and by a conflict if they are not, and in
  -- both cases the provider is not asked and nothing changes.
  pub create_payment_existing :
      (db : Db) (booking_id amount_minor : ℕ) (currency : String) (now payment_id : ℕ) (p : Payment)
      (c : String)
      → find_by (of_booking booking_id) db.payments ≡ some p
      → p.provider_charge_id ≡ some c
      → 0 < amount_minor
      → any_of (has_id payment_id) db.payments ≡ false
      → create_payment create_charge meanwhile db booking_id amount_minor currency now payment_id
        ≡ (
          if (p.amount_minor == amount_minor) && str_eq p.currency currency
              then ok (p, false)
              else err payment_conflict,
          db,
        )
  unfolding create_payment
  create_payment_existing db b amount currency now i p c found charged positive fresh =
      rw (taken db b amount currency now i p found positive fresh) (
        rw (found, existing_payment)
          (elim (Bool-cases ((p.amount_minor == amount) && str_eq p.currency currency)) [
            | inl same ↦ rw same (simp charged refl)
            | inr other ↦ rw other refl
          ]))
