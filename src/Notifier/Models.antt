-- ===== src/Notifier/Models.antt =====
-- services/notifier/src/notifier/models.py: one row per event, and the streams of the broker.
-- `ck_notifications_status` is the type of the column, and the widths of the columns are tested
-- where a row is written; a text with a NUL, which PostgreSQL refuses, is left out. The broker is Redis: of its stream the model
-- keeps the messages that are delivered and not acknowledged, and the dead-letter stream.
use slot.Prelude.{
  ℕ, String, Bool, ◌&&◌, not, Option, List, leb, str_eq, text_length, find_by, select,
}
use slot.Notifier.Domain.{NotificationStatus}

pub record Notification : Type 0 where
  pub event_id : String
  pub booking_id : String
  pub client_id : String
  pub event_type : String
  pub text : String
  pub status : NotificationStatus
  pub attempts : ℕ
  pub last_error : Option String
  pub gateway_message_id : Option String
  pub created_at : ℕ
  pub updated_at : ℕ

-- `String(64)` and `String(512)`: a longer text ends the statement in a `DataError`.
abbrev pub fits : ℕ → String → Bool
fits width s = leb (text_length s) width

abbrev pub id_width : ℕ
id_width = 64

abbrev pub text_width : ℕ
text_width = 512

-- The columns that the INSERT of a claim fills.
abbrev pub is_storable : Notification → Bool
is_storable n =
    fits id_width n.event_id
    && fits id_width n.booking_id
    && fits id_width n.client_id
    && fits id_width n.event_type
    && fits text_width n.text

abbrev pub is_of_event : String → Notification → Bool
is_of_event event_id n = str_eq n.event_id event_id

abbrev pub get_notification : String → List Notification → Option Notification
get_notification event_id rows = find_by (is_of_event event_id) rows

-- The fields `topic` and `data` of a message, `""` for one that is not there.
pub record Fields : Type 0 where
  pub topic : String
  pub payload : String

pub record DeadLetter : Type 0 where
  pub original_id : String
  pub reason : String
  pub topic : String
  pub payload : String

pub record State : Type 0 where
  pub rows : List Notification
  pub pending : List String
  pub dead_letters : List DeadLetter

-- `xack`
abbrev pub acknowledge : String → State → State
acknowledge message_id s = record s { pending = select (λ i. not (str_eq i message_id)) s.pending }
