-- ===== src/Web/BookingClient.antt =====
-- services/web/src/web/booking_client.py: what an answer of the booking service comes to. JSON is of
-- Python's library: a body that parses is a value of `Json`, from which a builder reads what the
-- client wants, or fails with one of the errors that `_read` catches.
use slot.Prelude.{
  Answer, no_response, response, ℕ, String, Bool, true, false, ◌&&◌, Option, none, some, leb, ltb,
  if◌then◌else◌, Result, ok, err,
}

-- `BookingError`, and the `ValueError` of a success whose body is no JSON; the error of a header
-- that cannot be encoded, which is none of the HTTP library, is a `ValueError` too.
pub data ClientError : Type 0 where
  booking_error : String → ℕ → ClientError
  value_error : ClientError

abbrev pub unreadable : String
unreadable = "unreadable_answer"

abbrev pub unavailable : String
unavailable = "booking_unavailable"

abbrev pub is_success : ℕ → Bool
is_success code = leb 200 code && ltb code 300

module _ {Json : Type 0} (error_of : Json → Option String) where
  -- `str(response.json()["error"])`, with the errors that are caught there.
  abbrev pub refusal_code : Option Json → String
  refusal_code none = unreadable
  refusal_code (some j) = elim (error_of j) [ none ↦ unreadable | some code ↦ code ]

  abbrev pub success_body : Option Json → Result ClientError Json
  success_body none = err value_error
  success_body (some j) = ok j

  -- `_call`, with whether the token can be written into the header, and the answer if it can.
  unfoldable pub call : Bool → Answer (Option Json) → Result ClientError Json
  call false given = err value_error
  call true no_response = err (booking_error unavailable 503)
  call true (response code body) =
      if is_success code then success_body body else err (booking_error (refusal_code body) code)

  abbrev pub read :
      {A : Type 0} → (Json → Option A) → Result ClientError Json → Result ClientError A
  read build (err e) = err e
  read build (ok j) = elim (build j) [ none ↦ err (booking_error unreadable 502) | some a ↦ ok a ]
