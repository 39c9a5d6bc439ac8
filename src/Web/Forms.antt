-- ===== src/Web/Forms.antt =====
-- services/web/src/web/domain.py: what a person types. The message of a refusal is a value in place
-- of a sentence. `str.strip` and `float` are of Python's library.
use slot.Prelude.{
  ℕ, ◌+◌, ◌-◌, ◌*◌, String, not, List, [], ◌∷◌, leb, ltb, str_eq, any_of, text_length,
  if◌then◌else◌, Result, ok, err,
}
use slot.Booking.Auth.{Role, client, master}
use slot.Booking.Domain.{DateTime, naive, aware}
use slot.Booking.Tokens.{Stdlib}

-- `InvalidInputError` by its sentence, and the `OverflowError` that nothing catches.
pub data InputError : Type 0 where
  no_name long_name bad_name unknown_role : InputError
  bad_offset zoned_time no_number not_positive : InputError
  overflow_error : InputError

abbrev pub max_name_length : ℕ
max_name_length = 64

-- `NAME` is the pattern that the booking service asks of a subject.
module _ (lib : Stdlib) (strip : String → String) where
  abbrev pub clean_stripped : String → Result InputError String
  clean_stripped name =
      if str_eq name ""
      then err no_name
      else if ltb max_name_length (text_length name)
      then err long_name
      else if not (lib.is_identifier name)
      then err bad_name
      else ok name

  unfoldable pub clean_name : String → Result InputError String
  clean_name name = clean_stripped (strip name)

unfoldable pub parse_role : String → Result InputError Role
parse_role value =
    if str_eq value "client"
    then ok client
    else if str_eq value "master"
    then ok master
    else err unknown_role

abbrev pub max_offset_minutes : ℕ
max_offset_minutes = 14 * 60

abbrev pub microseconds_per_minute : ℕ
microseconds_per_minute = 60 * 1000000

-- The first instant after the last day that `datetime` has, counted from year 1.
abbrev pub end_of_time : ℕ
end_of_time = 3652059 * (24 * 60 * 60 * 1000000)

-- Minutes to add, and minutes to take away.
pub data Offset : Type 0 where
  plus minus : ℕ → Offset

abbrev pub minutes : Offset → ℕ
minutes (plus m) = m
minutes (minus m) = m

-- `local + timedelta(minutes=offset_minutes)`
abbrev pub shifted : ℕ → Offset → Result InputError ℕ
shifted t (plus m) =
    if ltb (t + m * microseconds_per_minute) end_of_time
    then ok (t + m * microseconds_per_minute)
    else err overflow_error
shifted t (minus m) =
    if ltb t (m * microseconds_per_minute)
    then err overflow_error
    else ok (t - m * microseconds_per_minute)

abbrev pub zone_checked : DateTime → Offset → Result InputError ℕ
zone_checked (aware t) offset = err zoned_time
zone_checked (naive t) offset = shifted t offset

unfoldable pub to_utc : DateTime → Offset → Result InputError ℕ
to_utc local offset =
    if ltb max_offset_minutes (minutes offset) then err bad_offset else zone_checked local offset

-- `round(float(roubles.replace(",", ".")) * MINOR_UNITS)`: a `ValueError` for a text that is no
-- number or is nan, an `OverflowError` for an infinity.
pub data Rounded : Type 0 where
  value_error infinite negative : Rounded
  amount : ℕ → Rounded

unfoldable pub price_to_minor : (String → Rounded) → String → Result InputError ℕ
price_to_minor round roubles = elim (round roubles) [
  | value_error ↦ err no_number
  | infinite ↦ err overflow_error
  | negative ↦ err not_positive
  | amount n ↦ if leb n 0 then err not_positive else ok n
]

-- The codes of `ERROR_MESSAGES`.
abbrev pub explained_codes : List String
explained_codes =
    "slot_already_booked" ∷ "slot_in_past" ∷ "slot_not_found" ∷ "booking_not_found"
    ∷ "booking_not_payable" ∷ "invalid_transition" ∷ "invalid_slot" ∷ "payments_unavailable"
    ∷ "booking_unavailable" ∷ []

pub data Sentence : Type 0 where
  about : String → Sentence
  unexpected : Sentence

unfoldable pub explain : String → Sentence
explain code = if any_of (str_eq code) explained_codes then about code else unexpected
