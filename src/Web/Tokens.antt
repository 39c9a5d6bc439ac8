-- ===== src/Web/Tokens.antt =====
-- services/web/src/web/domain.py: the session token that the front end signs.
use Prim.Native.String.{◌++◌}
use Prim.Native.Nat.{◌/◌}
use slot.Prelude.{ℕ, ◌+◌, ◌*◌, String, List, [], ◌∷◌}
use slot.Booking.Auth.{Role, client, master}
use slot.Booking.Tokens.{Claim, text, integer, Stdlib}

-- `SESSION_LIFETIME`: twelve hours of microseconds.
abbrev pub session_lifetime : ℕ
session_lifetime = 12 * 60 * 60 * 1000000

abbrev pub role_text : Role → String
role_text client = "client"
role_text master = "master"

-- `int((now + SESSION_LIFETIME).timestamp())`
abbrev pub expiry : ℕ → ℕ
expiry now = (now + session_lifetime) / 1000000

-- The claims, as `sort_keys` writes them.
abbrev pub session_claims : String → Role → ℕ → List (String × Claim)
session_claims subject role now =
    ("exp", integer (expiry now)) ∷ ("role", text (role_text role)) ∷ ("sub", text subject) ∷ []

unfoldable pub issue_token : Stdlib → String → Role → String → ℕ → String
issue_token lib subject role secret now =
    let message = "v1." ++ lib.encode (session_claims subject role now) in
    message ++ ("." ++ lib.mac secret message)
