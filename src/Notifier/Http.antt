-- ===== src/Notifier/Http.antt =====
-- services/notifier/src/notifier/app.py, service.py and schemas.py: what the client was told, over
-- HTTP. FastAPI is not modelled: a request is its parameters as they were parsed, and the text order
-- of the database and the pattern of an identifier are parameters.
pub mod Told
mod Examples
use slot.Prelude.{
  Response, ℕ, String, Bool, true, false, ◌&&◌, ◌||◌, ◌==◌, Option, none, some, List, [], ◌∷◌, map,
  leb, ltb, str_eq, text_length, select, sort_with, if◌then◌else◌, Result, ok, err, ◌>>=◌, Route,
  Framework, HttpException, ErrorPage, error_page, Health, build_of, Environ, EnvError, env_value,
  env_or, int_of,
}
use slot.Notifier.Domain.{NotificationStatus}
use slot.Notifier.Models.{Notification}

abbrev pub service_name : String
service_name = "notifier"

-- What is asked of libraries: the pattern of `ExternalId`, and the order of texts in the database.
pub record Library : Type 0 where
  pub is_identifier : String → Bool
  pub collate : String → String → Bool

pub record NotificationOut : Type 0 where
  pub event_id : String
  pub booking_id : String
  pub client_id : String
  pub event_type : String
  pub text : String
  pub status : NotificationStatus
  pub attempts : ℕ
  pub created_at : ℕ

abbrev pub notification_out : Notification → NotificationOut
notification_out n = record {
  event_id = n.event_id;
  booking_id = n.booking_id;
  client_id = n.client_id;
  event_type = n.event_type;
  text = n.text;
  status = n.status;
  attempts = n.attempts;
  created_at = n.created_at;
}

pub record Settings : Type 0 where
  pub database_url : String
  pub db_pool_size : ℕ

-- `Settings.from_env`
unfoldable pub from_env : (String → Option ℕ) → Environ → Result EnvError Settings
from_env parse_int environ = env_value environ "SLOT_DATABASE_URL" >>= λ database_url.
    int_of parse_int (env_or environ "SLOT_DB_POOL_SIZE" "10") >>= λ db_pool_size.
    ok (record { database_url = database_url; db_pool_size = db_pool_size })

abbrev pub routes : List Route
routes =
    record { methods = "GET" ∷ []; template = "/health" }
    ∷ record { methods = "GET" ∷ []; template = "/notifications" }
    ∷ []

-- `http_error`
abbrev pub http_error : Framework → String → HttpException → ErrorPage
http_error framework path error = error_page framework routes path error

abbrev pub health : String → Environ → Health
health version environ = record {
  status = "ok";
  service = service_name;
  version = version;
  build_sha = build_of (environ "SLOT_BUILD_SHA");
}

module _ (lib : Library) where
  open lib use {is_identifier, collate}

  -- `ORDER BY created_at, event_id`
  abbrev pub is_before : Notification → Notification → Bool
  is_before n m =
      ltb n.created_at m.created_at
      || (n.created_at == m.created_at && collate n.event_id m.event_id)

  abbrev pub is_about : String → Notification → Bool
  is_about booking_id n = str_eq n.booking_id booking_id

  -- `service.list_notifications`
  unfoldable pub list_notifications : List Notification → String → List Notification
  list_notifications rows booking_id = sort_with is_before (select (is_about booking_id) rows)

  -- `ExternalId`
  abbrev pub is_external_id : String → Bool
  is_external_id s = leb 1 (text_length s) && leb (text_length s) 64 && is_identifier s

  -- The route `/notifications`.
  unfoldable pub serve : List Notification → String → Response (List NotificationOut)
  serve rows booking_id =
      if is_external_id booking_id
      then record {
        status = 200;
        body = some (map notification_out (list_notifications rows booking_id));
        error = none;
      }
      else record { status = 422; body = none; error = some "invalid_request" }
