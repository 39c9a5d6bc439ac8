-- ===== src/Notifier/Domain.antt =====
-- services/notifier/src/notifier/domain.py: what a booking event says, and what the client is told.
-- Dates and the parser of JSON are of Python's library and are a parameter, `Python`.
use slot.Prelude.{
  String, Bool, true, not, Option, none, some, List, [], ◌∷◌, str_eq, any_of, find_by,
  if◌then◌else◌, Result, ok, err,
}

-- A value of the JSON: a text, or anything else by its truth and its `str()`.
pub data Value : Type 0 where
  text : String → Value
  other : Bool → String → Value

-- What `json.loads` returns: an object, or a value that has no `get`.
pub data Document : Type 0 where
  object : List (String × Value) → Document
  no_object : Document

pub record Python : Type 1 where
  pub Time : Type 0
  -- `json.loads` and `datetime.fromisoformat`, with `none` for a `ValueError`
  pub loads : String → Option Document
  pub from_isoformat : String → Option Time
  pub strftime : Time → String
  -- `str.format` of a template with `when`
  pub format : String → String → String

pub data NotificationStatus : Type 0 where
  sending sent dead : NotificationStatus

-- What parsing may raise.
pub data ParseError : Type 0 where
  value_error invalid_event attribute_error : ParseError

abbrev pub required_fields : List String
required_fields = "event_id" ∷ "type" ∷ "booking_id" ∷ "client_id" ∷ "starts_at" ∷ []

abbrev pub messages : String → Option String
messages t =
    if str_eq t "booking.confirmed"
    then some "Your booking on {when} is confirmed."
    else if str_eq t "booking.cancelled"
    then some "Your booking on {when} is cancelled."
    else if str_eq t "booking.expired"
    then some "Your booking on {when} expired, the slot is free again."
    else none

abbrev pub is_empty : String → Bool
is_empty s = str_eq s ""

abbrev pub is_truthy : Value → Bool
is_truthy (text s) = not (is_empty s)
is_truthy (other truth s) = truth

abbrev pub text_of : Value → String
text_of (text s) = s
text_of (other truth s) = s

abbrev pub get_field : String → List (String × Value) → Option Value
get_field field values = elim (find_by (λ (p : String × Value). str_eq p.0 field) values) [
  | none ↦ none
  | some (f, v) ↦ some v
]

abbrev pub is_missing : List (String × Value) → String → Bool
is_missing values field = elim (get_field field values) [ none ↦ true | some v ↦ not (is_truthy v) ]

-- `str(data[field])` of a field that is there.
abbrev pub field_text : String → List (String × Value) → String
field_text field values = elim (get_field field values) [ none ↦ "" | some v ↦ text_of v ]

module _ (python : Python) where
  open python use {Time, from_isoformat, strftime, format}

  pub record BookingEvent : Type 0 where
    pub event_id : String
    pub type : String
    pub booking_id : String
    pub client_id : String
    pub starts_at : Time

  unfoldable pub parse_event : Document → Result ParseError BookingEvent
  parse_event no_object = err attribute_error
  parse_event (object values) =
      if any_of (is_missing values) required_fields
      then err invalid_event
      else elim (from_isoformat (field_text "starts_at" values)) [
        | none ↦ err invalid_event
        | some starts_at ↦ ok (record {
          event_id = field_text "event_id" values;
          type = field_text "type" values;
          booking_id = field_text "booking_id" values;
          client_id = field_text "client_id" values;
          starts_at = starts_at;
        })
      ]

  unfoldable pub render : BookingEvent → Option String
  render event = elim (messages event.type) [
    | none ↦ none
    | some template ↦ some (format template (strftime event.starts_at))
  ]
