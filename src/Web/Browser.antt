-- ===== src/Web/Browser.antt =====
-- services/web/src/web/app.py: what the browser keeps of a session, over the login, the start page
-- and the logout; the settings and the health route.
pub mod Cookies
use slot.Prelude.{
  String, Option, none, some, Result, ok, err, ◌>>=◌, Environ, EnvError, env_value, env_or, Health,
  build_of,
}
use slot.Booking.Auth.{Role}
use slot.Web.Tokens.{role_text}
use slot.Web.Forms.{InputError}
use slot.Web.Login.{Visitor, LoginReply, login_page, redirect, home, current_visitor}

-- The cookies of `COOKIES`.
pub record Jar : Type 0 where
  pub session : Option String
  pub name : Option String
  pub role : Option String

abbrev pub no_cookies : Jar
no_cookies = record { session = none; name = none; role = none }

-- What the start page and the logout answer.
pub data Start : Type 0 where
  form : Option String → Start
  goes_to : String → Start

abbrev pub visitor_in : Jar → Option Visitor
visitor_in jar = current_visitor jar.session jar.name jar.role

abbrev pub start_of : Jar → Option Visitor → Start × Jar
start_of jar none = (form none, no_cookies)
start_of jar (some who) = (goes_to (home who), jar)

-- The form of the login drops the cookies.
unfoldable pub index : Jar → Start × Jar
index jar = start_of jar (visitor_in jar)

unfoldable pub logout : Jar → Start × Jar
logout jar = (form (some "Вы вышли"), no_cookies)

abbrev pub visitor_cookies : Visitor → Jar
visitor_cookies who = record {
  session = some who.token;
  name = some who.name;
  role = some (role_text who.role);
}

-- What the browser keeps after the answer of the login.
abbrev pub after_login : LoginReply → Jar
after_login (login_page status e) = no_cookies
after_login (redirect page who) = visitor_cookies who

pub record Settings : Type 0 where
  pub booking_url : String
  pub auth_secret : String

-- `Settings.from_env`; the timeout keeps its default.
unfoldable pub from_env : Environ → Result EnvError Settings
from_env environ = env_value environ "SLOT_AUTH_SECRET" >>= λ auth_secret. ok (record {
  booking_url = env_or environ "SLOT_BOOKING_URL" "http://localhost:8000";
  auth_secret = auth_secret;
})

abbrev pub health : String → Environ → Health
health version environ = record {
  status = "ok";
  service = "web";
  version = version;
  build_sha = build_of (environ "SLOT_BUILD_SHA");
}
