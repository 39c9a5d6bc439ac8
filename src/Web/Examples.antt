-- ===== src/Web/Examples.antt =====
-- The session theorems at concrete inputs: a front end with a toy encoding of one session.
use slot.Prelude.{String, ◌*◌, ◌≡◌, refl, none, some, [], ◌∷◌, str_eq, leb, if◌then◌else◌, ok, err}
use slot.Booking.Auth.{client}
use slot.Booking.Tokens.{
  object, Stdlib, expired_token, type_error, verify_token, signature, claims_of, identity_of,
}
use slot.Web.Tokens.{session_claims, expiry, issue_token}
use slot.Booking.Domain.{naive}
use slot.Web.Forms.{infinite, overflow_error, minus, clean_name, parse_role, to_utc, price_to_minor}
use slot.Web.Login.{Visitor, redirect, current_visitor, login}
use slot.Web.Login.Session.{login_session}
use slot.Web.Sessions.{verify_token_signed, verify_token_not_ascii}

-- One session of "bob", issued at 1000; its payload is written "p" and every signature "m".
abbrev lib : Stdlib
lib = record {
  split = λ token.
      if str_eq token "v1.p.m"
      then "v1" ∷ "p" ∷ "m" ∷ []
      else if str_eq token "v1.p.é"
      then "v1" ∷ "p" ∷ "é" ∷ []
      else token ∷ [];
  mac = λ secret message. "m";
  decode = λ payload.
      if str_eq payload "p" then some (object (session_claims "bob" client 1000)) else none;
  encode = λ claims. "p";
  is_identifier = λ s. str_eq s "bob";
  is_ascii = λ s. str_eq s "m";
}

accepted : verify_token lib "v1.p.m" "secret" 2000 ≡ ok (record { subject = "bob"; role = client })
unfolding verify_token signature claims_of identity_of
accepted = refl

verify_token_signed_example : (payload : String) × (lib.split "v1.p.m" ≡ "v1" ∷ payload ∷ "m" ∷ [])
verify_token_signed_example =
    verify_token_signed lib "v1.p.m" "secret" 2000 (record { subject = "bob"; role = client })
      accepted

beyond_ascii : verify_token lib "v1.p.é" "secret" 2000 ≡ err type_error
beyond_ascii = verify_token_not_ascii lib "v1.p.é" "p" "é" "secret" 2000 refl refl

abbrev trimmed : String → String
trimmed s = if str_eq s " bob " then "bob" else s

abbrev bob : Visitor
bob = record { token = "v1.p.m"; name = "bob"; role = client }

let_in : login lib trimmed "secret" " bob " "client" 1000 ≡ redirect "/bookings" bob
unfolding login clean_name parse_role issue_token
let_in = refl

login_session_example : verify_token lib "v1.p.m" "secret" 2000 ≡ (
    if leb (expiry 1000 * 1000000) 2000
    then err expired_token
    else ok (record { subject = "bob"; role = client }))
login_session_example =
    login_session lib trimmed "secret" " bob " "client" "/bookings" 1000 2000 bob let_in
      (record { splits = refl; decodes = refl; ascii = refl })

-- The cookies give the visitor back, and a price that is infinite is an error of the server.
remembered : current_visitor (some "v1.p.m") (some "bob") (some "client") ≡ some bob
unfolding current_visitor parse_role
remembered = refl

endless_price : price_to_minor (λ s. infinite) "inf" ≡ err overflow_error
unfolding price_to_minor
endless_price = refl

-- Ten in the morning, three hours east of Greenwich.
moscow : to_utc (naive 36000000000) (minus 180) ≡ ok 25200000000
unfolding to_utc
moscow = refl
