-- ===== src/Payments/Http/Edge.antt =====
-- services/payments/src/payments/app.py: the settings, the page of a framework error, and the health
-- route.
use slot.Prelude.{
  ℕ, String, Option, List, [], ◌∷◌, Result, ok, ◌>>=◌, Route, Framework, HttpException, ErrorPage,
  error_page, Health, build_of, Environ, EnvError, env_value, env_or, int_of,
}

pub record Settings : Type 0 where
  pub database_url : String
  pub paystub_url : String
  pub paystub_api_key : String
  pub webhook_secret : String
  pub booking_url : String
  pub db_pool_size : ℕ

-- `Settings.from_env`; the timeout keeps its default.
unfoldable pub from_env : (String → Option ℕ) → Environ → Result EnvError Settings
from_env parse_int environ = env_value environ "SLOT_DATABASE_URL" >>= λ database_url.
    env_value environ "SLOT_PAYSTUB_URL" >>= λ paystub_url.
    env_value environ "SLOT_PAYSTUB_API_KEY" >>= λ paystub_api_key.
    env_value environ "SLOT_PAYSTUB_WEBHOOK_SECRET" >>= λ webhook_secret.
    env_value environ "SLOT_BOOKING_URL" >>= λ booking_url.
    int_of parse_int (env_or environ "SLOT_DB_POOL_SIZE" "10") >>= λ db_pool_size. ok (record {
      database_url = database_url;
      paystub_url = paystub_url;
      paystub_api_key = paystub_api_key;
      webhook_secret = webhook_secret;
      booking_url = booking_url;
      db_pool_size = db_pool_size;
    })

abbrev pub routes : List Route
routes =
    record { methods = "GET" ∷ []; template = "/health" }
    ∷ record { methods = "POST" ∷ []; template = "/payments" }
    ∷ record { methods = "GET" ∷ []; template = "/payments/{payment_id}" }
    ∷ record { methods = "POST" ∷ []; template = "/webhooks/paystub" }
    ∷ []

abbrev pub http_error : Framework → String → HttpException → ErrorPage
http_error framework path error = error_page framework routes path error

abbrev pub health : String → Environ → Health
health version environ = record {
  status = "ok";
  service = "payments";
  version = version;
  build_sha = build_of (environ "SLOT_BUILD_SHA");
}
