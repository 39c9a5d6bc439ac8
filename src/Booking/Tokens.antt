-- ===== src/Booking/Tokens.antt =====
-- services/booking/src/booking/auth.py: the verification of a signed session token.
-- HMAC, base64, JSON, regular expressions and `str.split` are of Python's library and are a
-- parameter, `Stdlib`. An instant is a number of microseconds since 1970 here, as in `timestamp()`.
use slot.Prelude.{
  ℕ, ◌*◌, String, Bool, true, false, not, ◌&&◌, ◌||◌, Option, none, some, List, [], ◌∷◌, str_eq,
  text_length, find_by, ltb, leb, if◌then◌else◌, Result, ok, err, ◌>>=◌,
}
use Prim.Native.String.{◌++◌}
use slot.Booking.Auth.{Role, client, master, Identity}

-- A claim of the JSON: a text, an integer that is not negative, or anything else by its `str()`.
-- A negative integer is in the past, and is told apart from what is no integer.
pub data Claim : Type 0 where
  text : String → Claim
  integer : ℕ → Claim
  negative : Claim
  other : String → Claim

pub data Payload : Type 0 where
  object : List (String × Claim) → Payload
  no_object : Payload

pub record Stdlib : Type 0 where
  -- `token.split(".")`
  pub split : String → List String
  -- the base64url text of the HMAC of a message under a secret
  pub mac : String → String → String
  -- `json.loads` of the base64url text, with `none` for the errors that `_claims` catches
  pub decode : String → Option Payload
  pub encode : List (String × Claim) → String
  -- `SUBJECT.fullmatch`
  pub is_identifier : String → Bool
  pub is_ascii : String → Bool

-- `compare_digest` takes texts of ASCII characters alone and raises `TypeError` on others.
pub data TokenError : Type 0 where
  invalid_token expired_token type_error : TokenError

abbrev pub max_external_id_length : ℕ
max_external_id_length = 64

abbrev pub get_claim : String → List (String × Claim) → Option Claim
get_claim name claims = elim (find_by (λ (c : String × Claim). str_eq c.0 name) claims) [
  | none ↦ none
  | some (n, v) ↦ some v
]

-- `Role(str(role))`
abbrev pub role_of_text : String → Result TokenError Role
role_of_text s =
    if str_eq s "client"
    then ok client
    else if str_eq s "master"
    then ok master
    else err invalid_token

abbrev pub role_of : Option Claim → Result TokenError Role
role_of (some (text s)) = role_of_text s
role_of (some (other s)) = role_of_text s
role_of _ = err invalid_token

module _ (lib : Stdlib) where
  open lib use {split, mac, decode, is_identifier, is_ascii}

  unfoldable pub signature : String → String → String
  signature payload secret = mac secret ("v1." ++ payload)

  abbrev pub compare_digest : String → String → Result TokenError Bool
  compare_digest a b = if is_ascii a && is_ascii b then ok (str_eq a b) else err type_error

  abbrev pub subject_of : Option Claim → Result TokenError String
  subject_of (some (text s)) =
      if str_eq s ""
      then err invalid_token
      else if ltb max_external_id_length (text_length s) || not (is_identifier s)
      then err invalid_token
      else ok s
  subject_of _ = err invalid_token

  abbrev pub check_expiry : Option Claim → ℕ → Identity → Result TokenError Identity
  check_expiry (some (integer seconds)) now identity =
      if leb (seconds * 1000000) now then err expired_token else ok identity
  check_expiry (some negative) now identity = err expired_token
  check_expiry _ now identity = err invalid_token

  -- `_identity`
  unfoldable pub identity_of : List (String × Claim) → ℕ → Result TokenError Identity
  identity_of claims now = do
    subject ← subject_of (get_claim "sub" claims)
    role ← role_of (get_claim "role" claims)
    check_expiry (get_claim "exp" claims) now (record { subject = subject; role = role })

  -- `_claims`
  unfoldable pub claims_of : String → Result TokenError (List (String × Claim))
  claims_of payload = elim (decode payload) [
    | none ↦ err invalid_token
    | some no_object ↦ err invalid_token
    | some (object claims) ↦ ok claims
  ]

  -- The answer of `compare_digest`, and what follows.
  abbrev pub trust : Result TokenError Bool → String → ℕ → Result TokenError Identity
  trust (err e) payload now = err e
  trust (ok false) payload now = err invalid_token
  trust (ok true) payload now = claims_of payload >>= λ claims. identity_of claims now

  abbrev pub verify_parts : List String → String → ℕ → Result TokenError Identity
  verify_parts (version ∷ payload ∷ presented ∷ []) secret now =
      if str_eq version "v1"
      then trust (compare_digest (signature payload secret) presented) payload now
      else err invalid_token
  verify_parts _ secret now = err invalid_token

  unfoldable pub verify_token : String → String → ℕ → Result TokenError Identity
  verify_token token secret now = verify_parts (split token) secret now
