-- ===== src/Booking/Domain.antt =====
-- services/booking/src/booking/domain.py: the rules with no database and no HTTP.
-- An instant is a number of microseconds since year 1 (UTC). A `datetime` either has a timezone
-- or has none. The text of an error is a hint for people and is left out: its code is the
-- contract.
use slot.Prelude.{
  ℕ, ◌*◌, ◌≡◌, Bool, true, false, List, [], ◌∷◌, ◌||◌, arith, leb, any_of, if◌then◌else◌, Result,
  ok, err,
}

pub data DateTime : Type 0 where
  naive aware : ℕ → DateTime

-- `tzinfo is None`
abbrev pub is_naive : DateTime → Bool
is_naive (naive t) = true
is_naive (aware t) = false

abbrev pub instant : DateTime → ℕ
instant (naive t) = t
instant (aware t) = t

-- `timedelta(minutes=15)`
abbrev pub default_pending_ttl : ℕ
default_pending_ttl = 15 * 60 * 1000000

pub data BookingStatus : Type 0 where
  pending confirmed cancelled expired : BookingStatus

abbrev pub status_eq : BookingStatus → BookingStatus → Bool
status_eq pending pending = true
status_eq confirmed confirmed = true
status_eq cancelled cancelled = true
status_eq expired expired = true
status_eq _ _ = false

abbrev pub active_statuses : List BookingStatus
active_statuses = pending ∷ confirmed ∷ []

abbrev pub is_active : BookingStatus → Bool
is_active s = any_of (status_eq s) active_statuses

abbrev pub allowed_transitions : BookingStatus → List BookingStatus
allowed_transitions pending = confirmed ∷ cancelled ∷ expired ∷ []
allowed_transitions confirmed = cancelled ∷ []
allowed_transitions cancelled = []
allowed_transitions expired = []

-- The subclasses of `DomainError`, those of auth.py too.
pub data DomainError : Type 0 where
  invalid_slot slot_in_past slot_already_booked invalid_transition : DomainError
  slot_not_found booking_not_found booking_not_payable : DomainError
  payments_unavailable payment_conflict : DomainError
  missing_token invalid_token expired_token forbidden : DomainError

-- What a call may raise: a domain error, or an error of the database library.
pub data Failure : Type 0 where
  domain : DomainError → Failure
  integrity_error no_result_found : Failure

unfoldable pub ensure_valid_slot : DateTime → DateTime → ℕ → Result Failure (Unit {0})
ensure_valid_slot starts_at ends_at now =
    if is_naive starts_at || is_naive ends_at
    then err (domain invalid_slot)
    else if leb (instant ends_at) (instant starts_at)
    then err (domain invalid_slot)
    else if leb (instant starts_at) now
    then err (domain invalid_slot)
    else ok tt

unfoldable pub ensure_bookable : ℕ → ℕ → Result Failure (Unit {0})
ensure_bookable starts_at now = if leb starts_at now then err (domain slot_in_past) else ok tt

unfoldable pub ensure_transition : BookingStatus → BookingStatus → Result Failure (Unit {0})
ensure_transition current target =
    if any_of (status_eq target) (allowed_transitions current)
    then ok tt
    else err (domain invalid_transition)

pub status_eq→eq : (a b : BookingStatus) → status_eq a b ≡ true → a ≡ b
status_eq→eq a b h = ground arith

pub status_eq_refl : (a : BookingStatus) → status_eq a a ≡ true
status_eq_refl a = ground arith
