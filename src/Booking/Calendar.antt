-- ===== src/Booking/Calendar.antt =====
-- The calendar that the booking service stands for: each slot is free or held by one booking. What
-- `list_slots` shows as taken (services/booking/src/booking/service.py, `_holds_slot`) is a slot
-- that is held.
pub mod Rows
pub mod Moves
pub mod Refinement
mod Examples
use slot.Prelude.{ℕ, ◌≡◌, Bool, ◌&&◌, Option, none, some, List, ◌==◌, ◌<◌, find_by}
use slot.Booking.Domain.{BookingStatus, confirmed, cancelled, expired}
use slot.Booking.Models.{Booking, Db}
use slot.Booking.Service.Queries.{holds_slot}

abbrev pub is_held_by : ℕ → ℕ → ℕ → Booking → Bool
is_held_by now pending_ttl slot_id b = (b.slot_id == slot_id) && holds_slot now pending_ttl b

abbrev pub id_of : Option Booking → Option ℕ
id_of none = none
id_of (some b) = some b.id

-- The booking that holds a slot at a time.
unfoldable pub holder : ℕ → ℕ → Db → ℕ → Option ℕ
holder now pending_ttl db slot_id = id_of (find_by (is_held_by now pending_ttl slot_id) db.bookings)

-- What a step does to the calendar: nothing, to book a slot by a new booking, or to set the status
-- of a booking.
pub data Action : Type 0 where
  nothing : Action
  booking : ℕ → ℕ → Action
  setting : ℕ → BookingStatus → Action

-- What the calendar allows the slot `s` in a step: it is taken, when free, by the booking that is
-- made for it; the booking that holds it leaves it when that booking is cancelled or expires; a
-- free one goes back to a booking that has lapsed when that booking is confirmed; and nothing else.
pub data Move (s : ℕ) : Action → Option ℕ → Option ℕ → Type 0 where
  stays : {a : Action} {o : Option ℕ} → Move s a o o
  takes : {i : ℕ} → Move s (booking s i) none (some i)
  revives : {i : ℕ} → Move s (setting i confirmed) none (some i)
  leaves_cancelled : {i : ℕ} → Move s (setting i cancelled) (some i) none
  leaves_expired : {i : ℕ} → Move s (setting i expired) (some i) none

-- What it allows a slot between two times: a held one may lapse, if time has passed.
pub data Wait (t now : ℕ) : Option ℕ → Option ℕ → Type 0 where
  stands : {o : Option ℕ} → Wait t now o o
  lapses : {i : ℕ} → t < now → Wait t now (some i) none
