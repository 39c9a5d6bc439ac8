-- ===== src/Booking/Service/Queries.antt =====
-- services/booking/src/booking/service.py: the reads. Each is made on one committed database.
use slot.Prelude.{
  ℕ, ◌+◌, ◌*◌, String, Bool, not, ◌&&◌, ◌||◌, Option, none, some, List, [], ◌∷◌, ◌++◌, map, ltb,
  leb, ◌==◌, str_eq, any_of, select, sort_by, if◌then◌else◌, Result, ok, err, ◌>>=◌, ◌>>◌,
}
use slot.Booking.Domain.{
  pending, confirmed, status_eq, Failure, domain, no_result_found, booking_not_found,
  booking_not_payable,
}
use slot.Booking.Models.{Slot, Booking, Db, get_slot_row, get_booking_row}
use slot.Booking.Auth.{client, role_eq, Identity, ensure_owner}

abbrev pub or_raise {ℓ} : {A : Type ℓ} → Option A → Failure → Result Failure A
or_raise none e = err e
or_raise (some a) e = ok a

-- `created_at <= now - pending_ttl` over the integers, with nothing truncated.
abbrev pub is_past : ℕ → ℕ → Booking → Bool
is_past now pending_ttl b = leb (b.created_at + pending_ttl) now

-- `_holds_slot`
abbrev pub holds_slot : ℕ → ℕ → Booking → Bool
holds_slot now pending_ttl b =
    status_eq b.status confirmed
    || (status_eq b.status pending && ltb now (b.created_at + pending_ttl))

-- `_is_stale`
abbrev pub is_stale : ℕ → ℕ → Booking → Bool
is_stale now pending_ttl b = status_eq b.status pending && is_past now pending_ttl b

-- the correlated `exists()` of `list_slots`
abbrev pub is_taken : Db → ℕ → ℕ → ℕ → Bool
is_taken db now pending_ttl slot_id =
    any_of (λ (b : Booking). (b.slot_id == slot_id) && holds_slot now pending_ttl b) db.bookings

unfoldable pub get_booking : Db → ℕ → Result Failure Booking
get_booking db booking_id = or_raise (get_booking_row booking_id db) (domain booking_not_found)

unfoldable pub get_owned_booking : Db → ℕ → Identity → Result Failure (Booking × Slot)
unfolding get_booking ensure_owner
get_owned_booking db booking_id identity = do
  booking ← get_booking db booking_id
  slot ← or_raise (get_slot_row booking.slot_id db) no_result_found
  ensure_owner identity booking.client_id slot.master_id
  ok (booking, slot)

abbrev ensure_payable : ℕ → ℕ → Booking × Slot → Result Failure (Booking × Slot)
ensure_payable now pending_ttl (booking, slot) =
    if not (status_eq booking.status pending) || is_stale now pending_ttl booking
    then err (domain booking_not_payable)
    else ok (booking, slot)

unfoldable pub get_payable_booking : Db → ℕ → Identity → ℕ → ℕ → Result Failure (Booking × Slot)
unfolding get_owned_booking
get_payable_booking db booking_id identity now pending_ttl =
    get_owned_booking db booking_id identity >>= ensure_payable now pending_ttl

abbrev pub microseconds_per_day : ℕ
microseconds_per_day = 24 * 60 * 60 * 1000000

-- The WHERE of `list_slots`; a day is counted from year 1.
abbrev pub is_listed : String → Option ℕ → Slot → Bool
is_listed master_id none s = str_eq s.master_id master_id
is_listed master_id (some day) s =
    str_eq s.master_id master_id
    && leb (day * microseconds_per_day) s.starts_at
    && ltb s.starts_at (day * microseconds_per_day + microseconds_per_day)

abbrev pub is_available : Db → ℕ → ℕ → Slot → Bool
is_available db now pending_ttl s = not (is_taken db now pending_ttl s.id) && ltb now s.starts_at

unfoldable pub list_slots : Db → String → Option ℕ → ℕ → ℕ → List (Slot × Bool)
list_slots db master_id day now pending_ttl =
    map (λ s. (s, is_available db now pending_ttl s))
      (sort_by (λ (s : Slot). s.starts_at) (select (is_listed master_id day) db.slots))

-- The rows of the join, booking by booking.
abbrev pub join_slots : List Slot → List Booking → List (Booking × Slot)
join_slots slots [] = []
join_slots slots (b ∷ bs) =
    map (λ s. (b, s)) (select (λ (s : Slot). s.id == b.slot_id) slots) ++ join_slots slots bs

abbrev pub is_mine : Identity → Booking × Slot → Bool
is_mine identity (b, s) =
    if role_eq identity.role client
    then str_eq b.client_id identity.subject
    else str_eq s.master_id identity.subject

unfoldable pub list_my_bookings : Db → Identity → List (Booking × Slot)
list_my_bookings db identity =
    sort_by (λ (r : Booking × Slot). r.1.starts_at)
      (select (is_mine identity) (join_slots db.slots db.bookings))
