-- ===== src/Booking/Http/Statuses.antt =====
-- The status codes that each route documents (`responses=errors(...)` in app.py) and answers.
use slot.Prelude.{
  Response, Answer, ℕ, String, ◌≡◌, refl, inl, inr, true, Option, none, some, List, [], ◌∷◌, arith,
  any_of, ◌==◌, Bool-cases, Result-cases, Result, ok, err, subst,
}
use slot.Booking.Domain.{confirmed, Failure}
use slot.Booking.Models.{Slot, Booking, Db}
use slot.Booking.Auth.{Role, client, master, Identity, ensure_role}
use slot.Booking.Tokens.{Stdlib, TokenError, verify_token}
use slot.Booking.Http.{
  error_status, Raised, invalid_request, failed, respond, Env, caller, a_caller, is_external_id,
  SlotCreate, is_valid_body, Payment, payment_currency, Page, Request, create_slot_request,
  list_slots_request, create_booking_request, list_my_bookings_request, pay_request,
  get_booking_request, cancel_request, confirm_request, slot_created, booking_written, with_caller,
  pay_page, owned_page, serve, charged_page, publish,
}
use slot.Booking.Http.Failures.{
  fails_in, within, failed-within, create_slot_fails, book_slot_fails, change_status_fails,
  get_owned_booking_fails, cancel_booking_fails, get_payable_booking_fails, payment_answer_fails,
}

-- The decorators of the routes: the status of a success, and the documented errors.
abbrev pub documented : Request → List ℕ
documented (create_slot_request body) = 201 ∷ 400 ∷ 401 ∷ 403 ∷ 422 ∷ []
documented (list_slots_request master_id day) = 200 ∷ 422 ∷ []
documented (create_booking_request i) = 201 ∷ 400 ∷ 401 ∷ 403 ∷ 404 ∷ 409 ∷ 422 ∷ []
documented list_my_bookings_request = 200 ∷ 401 ∷ 422 ∷ []
documented (pay_request i) = 200 ∷ 401 ∷ 403 ∷ 404 ∷ 409 ∷ 422 ∷ 503 ∷ []
documented (get_booking_request i) = 200 ∷ 401 ∷ 404 ∷ 422 ∷ []
documented (cancel_request i) = 200 ∷ 401 ∷ 404 ∷ 409 ∷ 422 ∷ []
documented (confirm_request i) = 200 ∷ 404 ∷ 409 ∷ 422 ∷ []

-- A documented status, or the 500 of an error that nothing catches.
unfoldable pub Documented : List ℕ → Response Page → Type 0
Documented codes r = any_of (λ c. c == r.status) (500 ∷ codes) ≡ true

-- The page of a dependency that raises is documented.
Allows : List ℕ → Result Raised Identity → Type 0
Allows all (ok identity) = Unit
Allows all (err e) = any_of (λ c. c == (failed {A = Page} e).status) (500 ∷ all) ≡ true

module _ (all : List ℕ) (db : Db) where
  booking_written-Documented :
      (status : ℕ) (r : Result Failure Booking × Db)
      → any_of (λ c. c == status) all ≡ true
      → within (404 ∷ 409 ∷ []) all ≡ true
      → fails_in (404 ∷ 409 ∷ []) r.0 ≡ true
      → Documented all (booking_written status r).0
  unfolding Documented
  booking_written-Documented status (ok b, db') h k f = ground arith
  booking_written-Documented status (err e, db') h k f = failed-within (404 ∷ 409 ∷ []) all e k f

  slot_created-Documented :
      (r : Result Failure Slot × Db)
      → within (201 ∷ 422 ∷ []) all ≡ true
      → fails_in (422 ∷ []) r.0 ≡ true
      → Documented all (slot_created r).0
  unfolding Documented
  slot_created-Documented (ok s, db') k f = ground arith
  slot_created-Documented (err e, db') k f = failed-within (422 ∷ []) all e (ground arith) f

  owned_page-Documented :
      (r : Result Failure (Booking × Slot))
      → within (200 ∷ 404 ∷ []) all ≡ true
      → fails_in (404 ∷ []) r ≡ true
      → Documented all (owned_page r)
  unfolding Documented
  owned_page-Documented (ok (b, s)) k f = ground arith
  owned_page-Documented (err e) k f = failed-within (404 ∷ []) all e (ground arith) f

  with_caller-Documented :
      (who : Result Raised Identity) (handler : Identity → Response Page × Db)
      → Allows all who
      → ((identity : Identity) → Documented all (handler identity).0)
      → Documented all (with_caller db who handler).0
  unfolding Documented Allows
  with_caller-Documented (ok identity) handler h k = k identity
  with_caller-Documented (err e) handler h k = h

  charged_page-Documented :
      (r : Result Failure Payment)
      → within (200 ∷ 409 ∷ 503 ∷ []) all ≡ true
      → fails_in (409 ∷ 503 ∷ []) r ≡ true
      → Documented all (charged_page r)
  unfolding Documented
  charged_page-Documented (ok p) k f = ground arith
  charged_page-Documented (err e) k f = failed-within (409 ∷ 503 ∷ []) all e (ground arith) f

  pay_page-Documented :
      (post : ℕ → ℕ → String → Answer Payment) (i : ℕ) (r : Result Failure (Booking × Slot))
      → within (200 ∷ 404 ∷ 409 ∷ 503 ∷ []) all ≡ true
      → fails_in (404 ∷ 409 ∷ []) r ≡ true
      → Documented all (pay_page post i r)
  unfolding Documented
  pay_page-Documented post i (ok (b, s)) k f =
      charged_page-Documented _ (ground arith)
        (payment_answer_fails (post i s.price_minor payment_currency))
  pay_page-Documented post i (err e) k f = failed-within (404 ∷ 409 ∷ []) all e (ground arith) f

  answered-Documented :
      (page : Page) → any_of (λ c. c == 200) all ≡ true → Documented all (respond 200 (ok page))
  unfolding Documented
  answered-Documented page k = ground arith

  invalid-Documented : any_of (λ c. c == 422) all ≡ true → Documented all (failed invalid_request)
  unfolding Documented
  invalid-Documented k = ground arith

  publish-Documented :
      (body : SlotCreate) (now i : ℕ) (identity : Identity)
      → within (201 ∷ 422 ∷ []) all ≡ true
      → Documented all (publish db body now i identity).0
  publish-Documented body now i identity k = elim (Bool-cases (is_valid_body body)) [
    | inl valid ↦
        rw (valid, publish)
          (slot_created-Documented _ k (
            create_slot_fails db identity.subject body.starts_at body.ends_at body.price_minor now
              i))
    | inr invalid ↦ rw (invalid, publish) (invalid-Documented (ground arith))
  ]

module _ (lib : Stdlib) (env : Env) (all : List ℕ) where
  caller-Allows :
      (token : Option String) (now : ℕ)
      → any_of (λ c. c == 401) all ≡ true
      → Allows all (caller lib env token now)
  unfolding caller error_status Allows
  caller-Allows none now h = ground arith
  caller-Allows (some token) now h =
      elim (Result-cases (verify_token lib token env.auth_secret now)) [
        | inl (identity, known) ↦ rw (known, caller) tt
        | inr (TokenError.invalid_token, bad) ↦ rw (bad, caller) (ground arith)
        | inr (TokenError.expired_token, bad) ↦ rw (bad, caller) (ground arith)
        | inr (TokenError.type_error, bad) ↦ rw (bad, caller) refl
      ]

  a_caller-Allows :
      (role : Role) (token : Option String) (now : ℕ)
      → within (401 ∷ 403 ∷ []) all ≡ true
      → Allows all (a_caller lib env role token now)
  unfolding a_caller ensure_role error_status Allows
  a_caller-Allows role token now h = elim (Result-cases (caller lib env token now)) [
    | inr (e, bad) ↦
        rw (bad, a_caller) (subst (λ w. Allows all w) bad (caller-Allows token now (ground arith)))
    | inl (identity, known) ↦ rw (known, a_caller) (ground arith)
  ]

-- Every answer of the service, to any request and in any state, has a status that its route
-- documents, or is the 500 of an error that no handler catches.
pub serve-Documented :
    (lib : Stdlib) (env : Env) (post : ℕ → ℕ → String → Answer Payment) (seen db : Db)
    (token : Option String) (r : Request) (now new_id : ℕ) (message_ids : ℕ → ℕ)
    → Documented (documented r) (serve lib env post seen db token r now new_id message_ids).0
unfolding serve
serve-Documented lib env post seen db token (create_slot_request body) now i ids =
    with_caller-Documented _ db _ _ (a_caller-Allows lib env _ master token now refl)
      λ identity. publish-Documented _ db body now i identity refl
serve-Documented lib env post seen db token (list_slots_request master_id day) now i ids =
    elim (Bool-cases (is_external_id lib env master_id)) [
      | inl valid ↦ rw (valid, serve) (answered-Documented (200 ∷ 422 ∷ []) db _ refl)
      | inr invalid ↦ rw (invalid, serve) (invalid-Documented (200 ∷ 422 ∷ []) db refl)
    ]
serve-Documented lib env post seen db token (create_booking_request slot_id) now i ids =
    with_caller-Documented _ db _ _ (a_caller-Allows lib env _ client token now refl) λ identity.
      booking_written-Documented _ db 201 _ refl refl
        (book_slot_fails seen db slot_id identity.subject now env.pending_ttl i ids)
serve-Documented lib env post seen db token list_my_bookings_request now i ids =
    with_caller-Documented _ db _ _ (caller-Allows lib env _ token now refl)
      λ identity. answered-Documented _ db _ refl
serve-Documented lib env post seen db token (pay_request b) now i ids =
    with_caller-Documented _ db _ _ (a_caller-Allows lib env _ client token now refl) λ identity.
      pay_page-Documented _ db post b _ refl
        (get_payable_booking_fails seen b identity now env.pending_ttl)
serve-Documented lib env post seen db token (get_booking_request b) now i ids =
    with_caller-Documented _ db _ _ (caller-Allows lib env _ token now refl)
      λ identity. owned_page-Documented _ db _ refl (get_owned_booking_fails seen b identity)
serve-Documented lib env post seen db token (cancel_request b) now i ids =
    with_caller-Documented _ db _ _ (caller-Allows lib env _ token now refl) λ identity.
      booking_written-Documented _ db 200 _ refl refl
        (cancel_booking_fails seen db b identity now (ids 0))
serve-Documented lib env post seen db token (confirm_request b) now i ids =
    booking_written-Documented _ db 200 _ refl refl
      (change_status_fails seen db b confirmed now (ids 0))
