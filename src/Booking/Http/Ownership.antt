-- ===== src/Booking/Http/Ownership.antt =====
-- What a caller without a trusted token, and a caller who does not own a booking, can see and do.
use slot.Prelude.{Answer, ℕ, String, ◌≡◌, refl, Bool, true, false, Option, if◌then◌else◌, err}
use slot.Booking.Models.{Slot, Booking, Db}
use slot.Booking.Auth.{Role, client, master, role_eq, Identity}
use slot.Booking.Tokens.{Stdlib}
use slot.Booking.Http.{
  Raised, failed, Env, caller, a_caller, Payment, Request, create_slot_request, list_slots_request,
  create_booking_request, list_my_bookings_request, pay_request, get_booking_request,
  cancel_request, confirm_request, serve,
}

-- The routes that ask for no token.
abbrev pub is_open : Request → Bool
is_open (list_slots_request master_id day) = true
is_open (confirm_request booking_id) = true
is_open _ = false

module _ (lib : Stdlib) (env : Env) (post : ℕ → ℕ → String → Answer Payment) where
  a_caller_refused :
      (role : Role) (token : Option String) (now : ℕ) (e : Raised)
      → caller lib env token now ≡ err e
      → a_caller lib env role token now ≡ err e
  unfolding a_caller
  a_caller_refused role token now e bad = rw (bad, a_caller) refl

  -- A caller whose token is missing, forged or expired gets the error of the token from every route
  -- but the list of slots and the confirmation, and changes nothing.
  pub serve_untrusted :
      (seen db : Db) (token : Option String) (r : Request) (now new_id : ℕ) (message_ids : ℕ → ℕ)
      (e : Raised)
      → is_open r ≡ false
      → caller lib env token now ≡ err e
      → serve lib env post seen db token r now new_id message_ids ≡ (failed e, db)
  unfolding serve
  serve_untrusted seen db token (create_slot_request body) now i ids e closed bad =
      rw (a_caller_refused master token now e bad) refl
  serve_untrusted seen db token (list_slots_request m day) now i ids e closed bad = absurd (cc)
  serve_untrusted seen db token (create_booking_request s) now i ids e closed bad =
      rw (a_caller_refused client token now e bad) refl
  serve_untrusted seen db token list_my_bookings_request now i ids e closed bad = rw bad refl
  serve_untrusted seen db token (pay_request b) now i ids e closed bad =
      rw (a_caller_refused client token now e bad) refl
  serve_untrusted seen db token (get_booking_request b) now i ids e closed bad = rw bad refl
  serve_untrusted seen db token (cancel_request b) now i ids e closed bad = rw bad refl
  serve_untrusted seen db token (confirm_request b) now i ids e closed bad = absurd (cc)

  -- Who a booking belongs to: its client, or the master of its slot.
  abbrev pub owner : Identity → Booking → Slot → String
  owner identity b s = if role_eq identity.role client then b.client_id else s.master_id

  -- The requests about one booking that name it.
  pub data About (booking_id : ℕ) : Request → Type 0 where
    reads : About booking_id (get_booking_request booking_id)
    cancels : About booking_id (cancel_request booking_id)
