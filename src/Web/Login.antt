-- ===== src/Web/Login.antt =====
-- services/web/src/web/app.py: who the browser says it is, and logging in.
pub mod Session
use slot.Prelude.{ℕ, String, Option, none, some, str_eq, ◌||◌, if◌then◌else◌, Result, ok, err}
use slot.Booking.Auth.{Role, client, master}
use slot.Booking.Tokens.{Stdlib}
use slot.Web.Tokens.{issue_token}
use slot.Web.Forms.{InputError, clean_name, parse_role}

pub record Visitor : Type 0 where
  pub token : String
  pub name : String
  pub role : Role

-- What the login answers: the form again with the refusal and 400, or the redirection with the
-- three cookies of the visitor.
pub data LoginReply : Type 0 where
  login_page : ℕ → InputError → LoginReply
  redirect : String → Visitor → LoginReply

-- `_home`
abbrev pub home : Visitor → String
home who = elim who.role [ client ↦ "/bookings" | master ↦ "/my-slots" ]

abbrev pub visitor_of : String → String → Result InputError Role → Option Visitor
visitor_of token name (err e) = none
visitor_of token name (ok role) = some (record { token = token; name = name; role = role })

-- `current_visitor`, from the three cookies; an empty one counts as missing.
unfoldable pub current_visitor : Option String → Option String → Option String → Option Visitor
current_visitor (some token) (some name) (some role) =
    if str_eq token "" || str_eq name "" || str_eq role ""
    then none
    else visitor_of token name (parse_role role)
current_visitor _ _ _ = none

module _ (lib : Stdlib) (strip : String → String) (auth_secret : String) where
  abbrev pub welcome : String → Role → ℕ → LoginReply
  welcome subject role now =
      let who : Visitor = record {
        token = issue_token lib subject role auth_secret now;
        name = subject;
        role = role;
      } in
      redirect (home who) who

  abbrev pub log_in : Result InputError String → Result InputError Role → ℕ → LoginReply
  log_in (err e) role now = login_page 400 e
  log_in (ok subject) (err e) now = login_page 400 e
  log_in (ok subject) (ok role) now = welcome subject role now

  unfoldable pub login : String → String → ℕ → LoginReply
  login name role now = log_in (clean_name lib strip name) (parse_role role) now
