-- ===== src/Prelude/Http.antt =====
-- An exchange over HTTP as its caller sees it: no answer, or a status code and what the caller reads
-- from the body.
use Prim.Native.Nat.{ℕ}
use Prim.Native.String.{String}
use mathlib.Core.Option.{Option}

pub data Answer {ℓ} (A : Type ℓ) : Type ℓ where
  no_response : Answer A
  response : ℕ → A → Answer A

-- What a route answers: the status, the body of a success, and the code of an error.
pub record Response (A : Type 0) : Type 0 where
  pub status : ℕ
  pub body : Option A
  pub error : Option String
