-- ===== src/Booking/Http/Prices.antt =====
-- The prices of the slots, from the schema of a request to the table.
use slot.Prelude.{
  Response, Answer, ℕ, ◌≤◌, ◌<◌, String, ◌≡◌, refl, sym, subst, inl, inr, true, Option, none, some,
  List, [], arith, All, Bool-cases, Result-cases, Result, ok, err, any_of, ◌==◌,
}
use slot.Booking.Domain.{BookingStatus, confirmed, Failure, ensure_valid_slot}
use slot.Booking.Models.{Slot, Booking, OutboxMessage, Db, Constraint, insert_messages}
use slot.Booking.Auth.{client, Identity}
use slot.Booking.Tokens.{Stdlib}
use slot.Booking.Service.Commands.{
  create_slot, commit_booking, reserve, book_slot, commit_status, announce, enqueue_event,
  after_update, change_status, cancel_booking,
}
use slot.Booking.Service.Paths.{book_slot_paths, change_status_paths, cancel_booking_paths}
use slot.Booking.Http.{
  Raised, Env, caller, a_caller, max_amount_minor, SlotCreate, is_valid_body, Payment, Page,
  Request, create_slot_request, list_slots_request, create_booking_request,
  list_my_bookings_request, pay_request, get_booking_request, cancel_request, confirm_request,
  slot_created, booking_written, with_caller, publish, is_external_id, serve,
}

-- A price that the payments service accepts as an amount.
abbrev pub IsPayable : Slot → Type 0
IsPayable s = (0 < s.price_minor) × (s.price_minor ≤ max_amount_minor)

unfoldable pub IsPriced : Db → Type 0
IsPriced db = All IsPayable db.slots

commit_booking-slots :
    (v : Option Constraint) (o : Option (List OutboxMessage)) (db updated : Db) (b : Booking)
    → updated.slots ≡ db.slots
    → (commit_booking v o db updated b).1.slots ≡ db.slots
commit_booking-slots (some c) o db updated b h = refl
commit_booking-slots none none db updated b h = refl
commit_booking-slots none (some o) db updated b h = h

book_slot-slots :
    (seen db : Db) (slot_id : ℕ) (client_id : String) (now ttl i : ℕ) (ids : ℕ → ℕ)
    → (book_slot seen db slot_id client_id now ttl i ids).1.slots ≡ db.slots
book_slot-slots seen db slot_id client_id now ttl i ids =
    book_slot_paths (λ r. r.1.slots ≡ db.slots) seen db slot_id client_id now ttl i ids (λ e. refl)
      (λ slot found future. unfold reserve in commit_booking-slots _ _ db _ _ refl)

commit_status-slots :
    (o : Option (List OutboxMessage)) (db updated : Db) (i : ℕ)
    → updated.slots ≡ db.slots
    → (commit_status o db updated i).1.slots ≡ db.slots
commit_status-slots none db updated i h = refl
commit_status-slots (some outbox) db updated i h = h

announce-slots :
    (slot : Option Slot) (db : Db) (b : Booking) (i : ℕ) (target : BookingStatus) (now m : ℕ)
    → (announce slot db b i target now m).1.slots ≡ db.slots
announce-slots none db b i target now m = refl
announce-slots (some s) db b i target now m =
    commit_status-slots (insert_messages (enqueue_event [] target i b.client_id s now m) db.outbox)
      db (after_update db b i target now) i refl

change_status-slots :
    (seen db : Db) (i : ℕ) (target : BookingStatus) (now m : ℕ)
    → (change_status seen db i target now m).1.slots ≡ db.slots
change_status-slots seen db i target now m =
    change_status_paths (λ r. r.1.slots ≡ db.slots) seen db i target now m (λ e. refl)
      (λ b found same. refl) (λ b found allowed current. announce-slots _ db b i target now m)

cancel_booking-slots :
    (seen db : Db) (i : ℕ) (identity : Identity) (now m : ℕ)
    → (cancel_booking seen db i identity now m).1.slots ≡ db.slots
cancel_booking-slots seen db i identity now m =
    cancel_booking_paths (λ r. r.1.slots ≡ db.slots) seen db i identity now m (λ e. refl)
      (λ b s owned. change_status-slots seen db b.id _ now m)

create_slot-IsPriced :
    (db : Db) (body : SlotCreate) (m : String) (now i : ℕ)
    → is_valid_body body ≡ true
    → IsPriced db
    → IsPriced (create_slot db m body.starts_at body.ends_at body.price_minor now i).1
unfolding create_slot IsPriced
create_slot-IsPriced db body m now i valid h =
    elim (Result-cases (ensure_valid_slot body.starts_at body.ends_at now)) [
      | inr (e, bad) ↦ rw (bad, create_slot) h
      | inl (_, good) ↦
          rw (good, create_slot)
            (elim (Bool-cases (any_of (λ (s : Slot). s.id == i) db.slots)) [
              | inl taken ↦ rw taken h
              | inr fresh ↦ rw fresh ((ground arith, ground arith), h)
            ])
    ]

slot_created-db : (r : Result Failure Slot × Db) → (slot_created r).1 ≡ r.1
slot_created-db (ok s, db) = refl
slot_created-db (err e, db) = refl

booking_written-db :
    (status : ℕ) (r : Result Failure Booking × Db) → (booking_written status r).1 ≡ r.1
booking_written-db status (ok b, db) = refl
booking_written-db status (err e, db) = refl

publish-IsPriced :
    (db : Db) (body : SlotCreate) (now i : ℕ) (identity : Identity)
    → IsPriced db
    → IsPriced (publish db body now i identity).1
publish-IsPriced db body now i identity h = elim (Bool-cases (is_valid_body body)) [
  | inr invalid ↦ rw (invalid, publish) h
  | inl valid ↦
      rw (valid, publish)
        (rw
          (slot_created-db
            (create_slot db identity.subject body.starts_at body.ends_at body.price_minor now i))
          (create_slot-IsPriced db body identity.subject now i valid h))
]

written-IsPriced :
    (db : Db) (status : ℕ) (r : Result Failure Booking × Db)
    → r.1.slots ≡ db.slots
    → IsPriced db
    → IsPriced (booking_written status r).1
unfolding IsPriced
written-IsPriced db status r same h =
    rw (booking_written-db status r) (subst (All IsPayable) (sym same) h)

with_caller-IsPriced :
    (db : Db) (who : Result Raised Identity) (handler : Identity → Response Page × Db)
    → IsPriced db
    → ((identity : Identity) → IsPriced (handler identity).1)
    → IsPriced (with_caller db who handler).1
with_caller-IsPriced db (ok identity) handler h k = k identity
with_caller-IsPriced db (err e) handler h k = h

-- Every request keeps the prices of the slots between one kopeck and ten million roubles.
pub serve-IsPriced :
    (lib : Stdlib) (env : Env) (post : ℕ → ℕ → String → Answer Payment) (seen db : Db)
    (token : Option String) (r : Request) (now new_id : ℕ) (message_ids : ℕ → ℕ)
    → IsPriced db
    → IsPriced (serve lib env post seen db token r now new_id message_ids).1
unfolding serve
serve-IsPriced lib env post seen db token (create_slot_request body) now i ids h =
    with_caller-IsPriced db _ _ h λ identity. publish-IsPriced db body now i identity h
serve-IsPriced lib env post seen db token (list_slots_request m day) now i ids h =
    elim (Bool-cases (is_external_id lib env m)) [
      | inl valid ↦ rw (valid, serve) h
      | inr invalid ↦ rw (invalid, serve) h
    ]
serve-IsPriced lib env post seen db token (create_booking_request s) now i ids h =
    with_caller-IsPriced db (a_caller lib env client token now)
      (λ identity.
        booking_written 201 (book_slot seen db s identity.subject now env.pending_ttl i ids))
      h
      λ identity.
        written-IsPriced db 201 (book_slot seen db s identity.subject now env.pending_ttl i ids)
          (book_slot-slots seen db s identity.subject now env.pending_ttl i ids) h
serve-IsPriced lib env post seen db token list_my_bookings_request now i ids h =
    with_caller-IsPriced db _ _ h λ identity. h
serve-IsPriced lib env post seen db token (pay_request b) now i ids h =
    with_caller-IsPriced db _ _ h λ identity. h
serve-IsPriced lib env post seen db token (get_booking_request b) now i ids h =
    with_caller-IsPriced db _ _ h λ identity. h
serve-IsPriced lib env post seen db token (cancel_request b) now i ids h =
    with_caller-IsPriced db (caller lib env token now)
      (λ identity. booking_written 200 (cancel_booking seen db b identity now (ids 0))) h
      λ identity.
        written-IsPriced db 200 (cancel_booking seen db b identity now (ids 0))
          (cancel_booking-slots seen db b identity now (ids 0)) h
serve-IsPriced lib env post seen db token (confirm_request b) now i ids h =
    written-IsPriced db 200 (change_status seen db b confirmed now (ids 0))
      (change_status-slots seen db b confirmed now (ids 0)) h
