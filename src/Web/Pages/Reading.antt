-- ===== src/Web/Pages/Reading.antt =====
-- What a page makes of a refusal.
use slot.Prelude.{
  Answer, no_response, response, ℕ, String, ◌≡◌, refl, subst, sym, not, inl, inr, Bool, true, false,
  Option, none, some, [], ◌==◌, if◌then◌else◌, Result, err, Bool-cases,
}
use slot.Web.Forms.{Rounded, explain}
use slot.Web.BookingClient.{ClientError, booking_error, is_success, call, read}
use slot.Web.Login.{Visitor}
use slot.Web.Pages.{
  Page, login_page, bookings_page, slots_page, booked_page, slot_row, status_row, problem, redirect,
  server_error, Request, my_bookings, my_slots, master_slots, book, booking_row, cancel, pay,
  publish_slot, Ask, ask_bookings, ask_slots, ask_book, ask_status, ask_cancel, ask_pay, Service,
  bookings_shown, slots_shown, booked_shown, status_shown, payment_shown, serve, ask, sends,
  token_of,
}

abbrev pub is_server_error : Page → Bool
is_server_error server_error = true
is_server_error (login_page over) = false
is_server_error (bookings_page bookings message) = false
is_server_error (slots_page slots message) = false
is_server_error booked_page = false
is_server_error (slot_row slot) = false
is_server_error (status_row id state polling) = false
is_server_error (problem message) = false
is_server_error (redirect url) = false

-- The booking service refuses, or does not answer.
abbrev pub is_refusal {ℓ} : {A : Type ℓ} → Answer A → Bool
is_refusal no_response = true
is_refusal (response code body) = not (is_success code)

-- What a page other than the form of a slot asks.
abbrev pub asked : Visitor → Request → Option Ask
asked who my_bookings = some (ask_bookings who.token)
asked who my_slots = some (ask_slots who.name)
asked who (master_slots master_id) = some (ask_slots master_id)
asked who (book slot_id) = some (ask_book who.token slot_id)
asked who (booking_row i) = some (ask_status who.token i)
asked who (cancel i) = some (ask_cancel who.token i)
asked who (pay i) = some (ask_pay who.token i)
asked who (publish_slot local duration price offset) = none

some_injective : {A : Type 0} {a b : A} → some a ≡ some b → a ≡ b
some_injective h = cc

module _ {Json : Type 0} (service : Service Json) (round : String → Rounded) where
  open service use {answer, error_of, bookings_of, slots_of, id_of, status_of, payment_of}

  -- A page that shows refusals shows every one.
  reading :
      {A : Type 0} (build : Json → Option A) (f : Result ClientError A → Page)
      → ((code : String) (status : ℕ)
          → is_server_error (f (err (booking_error code status))) ≡ false)
      → (given : Answer (Option Json)) → is_refusal given ≡ true
      → is_server_error (f (read error_of build (call error_of true given))) ≡ false
  unfolding call
  reading build f refuses no_response h = refuses _ _
  reading build f refuses (response code body) h = elim (Bool-cases (is_success code)) [
    | inl good ↦ absurd (cc (rw good at h))
    | inr bad ↦ rw bad (refuses _ code)
  ]

  over_or_empty :
      (over : Bool) (code : String)
      → is_server_error (if over then login_page true else bookings_page [] (some (explain code)))
        ≡ false
  over_or_empty true code = refl
  over_or_empty false code = refl

  by_ask :
      {A : Type 0} (build : Json → Option A) (f : Result ClientError A → Page)
      → ((code : String) (status : ℕ)
          → is_server_error (f (err (booking_error code status))) ≡ false)
      → (a b : Ask) → a ≡ b
      → sends service round (token_of b) ≡ true
      → is_refusal (answer b) ≡ true
      → is_server_error (f (ask service round build a)) ≡ false
  by_ask build f refuses a b same sent refused =
      let sent' = subst (λ k. sends service round (token_of k) ≡ true) (sym same) sent in
      let refused' = subst (λ k. is_refusal (answer k) ≡ true) (sym same) refused in
      subst (λ b. is_server_error (f (read error_of build (call error_of b (answer a)))) ≡ false)
        (sym sent') (reading build f refuses (answer a) refused')

  -- A refusal of the booking service is never a traceback: whatever code it refuses with, and if it
  -- does not answer at all, every page of a visitor but the form of a slot is one of its own, where
  -- the token can be written into a header.
  pub serve_refused :
      (who : Visitor) (r : Request) (a : Ask)
      → asked who r ≡ some a
      → sends service round (token_of a) ≡ true
      → is_refusal (answer a) ≡ true
      → is_server_error (serve service round (some who) r) ≡ false
  unfolding serve
  serve_refused who my_bookings a h sent refused =
      by_ask bookings_of bookings_shown (λ code status. over_or_empty (status == 401) code)
        (ask_bookings who.token) a (some_injective h) sent refused
  serve_refused who my_slots a h sent refused =
      by_ask slots_of slots_shown (λ code status. refl) (ask_slots who.name) a (some_injective h)
        sent refused
  serve_refused who (master_slots m) a h sent refused =
      by_ask slots_of slots_shown (λ code status. refl) (ask_slots m) a (some_injective h) sent
        refused
  serve_refused who (book i) a h sent refused =
      by_ask id_of booked_shown (λ code status. refl) (ask_book who.token i) a (some_injective h)
        sent refused
  serve_refused who (booking_row i) a h sent refused =
      by_ask status_of (status_shown i) (λ code status. refl) (ask_status who.token i) a
        (some_injective h) sent refused
  serve_refused who (cancel i) a h sent refused =
      by_ask status_of (status_shown i) (λ code status. refl) (ask_cancel who.token i) a
        (some_injective h) sent refused
  serve_refused who (pay i) a h sent refused =
      by_ask payment_of payment_shown (λ code status. refl) (ask_pay who.token i) a
        (some_injective h) sent refused
  serve_refused who (publish_slot l d p o) a h sent refused = absurd (cc (h))
