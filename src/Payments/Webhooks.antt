-- ===== src/Payments/Webhooks.antt =====
-- Provider events: applied once, and never to a payment that is settled.
use slot.Prelude.{
  ℕ, String, ◌≡◌, ◌≢◌, refl, inl, inr, subst, sym, ap, ◌∙◌, true, false, Option, none, some, arith,
  ==→eq, eq_refl, any_of, find_by_holds, find_by-update_where, Bool-cases, Option-cases,
  if◌then◌else◌,
}
use slot.Payments.Domain.{PaymentStatus, pending, target_status, can_transition}
use slot.Payments.Models.{Payment, Db, has_id, get_payment_row}
use slot.Payments.Service.{
  WebhookOutcome, duplicate, ignored, is_event, record_event, with_status, settle_event,
  find_payment, handle_webhook,
}
use slot.Payments.Invariant.{IsValid, record_event-IsValid, settle_event-IsValid}

events-settle_event :
    (o : Option Payment) (target : PaymentStatus) (now message_id : ℕ) (db : Db)
    → (settle_event o target now message_id db).1.events ≡ db.events
events-settle_event none target now m db = refl
events-settle_event (some p) target now m db = ground arith

moves_from_pending :
    (current target : PaymentStatus) → can_transition current target ≡ true → current ≡ pending
unfolding can_transition
moves_from_pending current target h = ground arith

module _ (parse_uuid : String → Option ℕ) where
  pub find_payment_row :
      (db : Db) (reference : String) (p : Payment)
      → find_payment parse_uuid db reference ≡ some p
      → get_payment_row p.id db ≡ some p
  unfolding find_payment
  find_payment_row db reference p e = elim (Option-cases (parse_uuid reference)) [
    | inl bad ↦ absurd (ground arith)
    | inr (i, good) ↦
        let row : get_payment_row i db ≡ some p = ground arith in
        let same : p.id ≡ i = ==→eq p.id i (find_by_holds (has_id i) db.payments p row) in
        subst (λ j. get_payment_row j db ≡ some p) (sym same) row
  ]

  module _ {ℓ} (P : WebhookOutcome × Db → Type ℓ) (db : Db) (event_id event_type reference : String)
      (now message_id : ℕ) where
    pub handle_webhook_paths :
        (target_status event_type ≡ none → P (ignored, db))
        → (any_of (is_event event_id) db.events ≡ true → P (duplicate, db))
        → ((target : PaymentStatus)
            → any_of (is_event event_id) db.events ≡ false
            → let recorded = record_event event_id event_type db in
              P (
                settle_event
                  (find_payment parse_uuid recorded reference)
                  target
                  now
                  message_id
                  recorded))
        → P (handle_webhook parse_uuid db event_id event_type reference now message_id)
    unfolding handle_webhook
    handle_webhook_paths unknown repeated applies = elim (Option-cases (target_status event_type)) [
      | inl no_target ↦ rw (no_target, handle_webhook) (unknown no_target)
      | inr (target, known) ↦ elim (Bool-cases (any_of (is_event event_id) db.events)) [
        | inl seen ↦ rw (known, seen, handle_webhook) (repeated seen)
        | inr fresh ↦ rw (known, fresh, handle_webhook) (applies target fresh)
      ]
    ]

  -- A webhook keeps the invariant, whatever it says.
  pub handle_webhook-IsValid :
      (db : Db) (event_id event_type reference : String) (now message_id : ℕ)
      → IsValid db
      → IsValid (handle_webhook parse_uuid db event_id event_type reference now message_id).1
  handle_webhook-IsValid db e t reference now m v =
      handle_webhook_paths (λ r. IsValid r.1) db e t reference now m (λ _. v) (λ _. v)
        (λ target fresh.
          settle_event-IsValid _ target now m (record_event e t db)
            (find_payment_row (record_event e t db) reference)
            (record_event-IsValid db e t fresh v))

  module _ (event_id event_type reference : String) (now now' message_id message_id' : ℕ) where
    -- The event of this call has no more effect at a database.
    abbrev Spent : Db → Type 0
    Spent db = (handle_webhook parse_uuid db event_id event_type reference now' message_id').1 ≡ db

    seen_Spent : (db : Db) → any_of (is_event event_id) db.events ≡ true → Spent db
    unfolding handle_webhook
    seen_Spent db seen = ground arith

    unknown_Spent : (db : Db) → target_status event_type ≡ none → Spent db
    unfolding handle_webhook
    unknown_Spent db unknown = rw (unknown, handle_webhook) refl

    settled_Spent :
        (o : Option Payment) (target : PaymentStatus) (db : Db)
        → Spent (settle_event o target now message_id (record_event event_id event_type db)).1
    settled_Spent o target db =
        let recorded = record_event event_id event_type db in
        let there : any_of (is_event event_id) recorded.events ≡ true =
          ground (arith, eq_refl event_id) in
        seen_Spent (settle_event o target now message_id recorded).1 (
          ap (any_of (is_event event_id)) (events-settle_event o target now message_id recorded)
          ∙ there)

    -- A provider event that is delivered again, at whatever time, changes nothing more.
    pub handle_webhook_once :
        (db : Db)
        → (handle_webhook parse_uuid
            (handle_webhook parse_uuid db event_id event_type reference now message_id).1
            event_id
            event_type
            reference
            now'
            message_id').1
          ≡ (handle_webhook parse_uuid db event_id event_type reference now message_id).1
    handle_webhook_once db =
        handle_webhook_paths (λ r. Spent r.1) db event_id event_type reference now message_id
          (unknown_Spent db) (seen_Spent db) (λ target fresh. settled_Spent _ target db)

  settle_event_kept :
      (o : Option Payment) (target : PaymentStatus) (now message_id : ℕ) (db : Db) (i : ℕ)
      (p : Payment)
      → ((q : Payment) → o ≡ some q → get_payment_row q.id db ≡ some q)
      → get_payment_row i db ≡ some p
      → p.status ≢ pending
      → get_payment_row i (settle_event o target now message_id db).1 ≡ some p
  settle_event_kept none target now m db i p row found settled = found
  settle_event_kept (some q) target now m db i p row found settled =
      elim (Bool-cases (can_transition q.status target)) [
        | inr stays ↦ rw stays found
        | inl moves ↦ rw moves (
            find_by-update_where (has_id i) (has_id q.id) (with_status target now) db.payments p
              (λ y. refl) found
            ∙ ap some (other moves))
      ]
    where
      other :
          can_transition q.status target ≡ true
          → (if has_id q.id p then with_status target now p else p) ≡ p
      other moves = elim (Bool-cases (has_id q.id p)) [
        | inr different ↦ rw different refl
        | inl same ↦
            let qi : q.id ≡ i =
              sym (==→eq p.id q.id same)
              ∙ ==→eq p.id i (find_by_holds (has_id i) db.payments p found) in
            let row_i = subst (λ j. get_payment_row j db ≡ some q) qi (row q refl) in
            let qp : q ≡ p = cc (row_i, found) in
            absurd (
              settled (
                subst (λ (x : Payment). x.status ≡ pending) qp
                  (moves_from_pending q.status target moves)))
      ]

  -- A payment that has succeeded or failed is not touched by any webhook.
  pub handle_webhook_settled :
      (db : Db) (event_id event_type reference : String) (now message_id i : ℕ) (p : Payment)
      → get_payment_row i db ≡ some p
      → p.status ≢ pending
      → get_payment_row i
          (handle_webhook parse_uuid db event_id event_type reference now message_id).1
        ≡ some p
  handle_webhook_settled db e t reference now m i p found settled =
      handle_webhook_paths (λ r. get_payment_row i r.1 ≡ some p) db e t reference now m (λ _. found)
        (λ _. found)
        (λ target fresh.
          settle_event_kept _ target now m (record_event e t db) i p
            (find_payment_row (record_event e t db) reference) found settled)
