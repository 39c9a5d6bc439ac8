-- ===== src/Web/Sessions.antt =====
-- The token that the front end signs is the one that the booking service trusts.
use Prim.Native.String.{◌++◌}
use slot.Prelude.{
  ℕ, ◌*◌, String, ◌≡◌, refl, inl, inr, true, false, some, List, [], ◌∷◌, arith, str_eq, eq_iff,
  eq_refl, leb, if◌then◌else◌, Bool-cases, ok, err,
}
use slot.Booking.Auth.{Role, client, master, Identity}
use slot.Booking.Tokens.{
  Claim, object, Stdlib, expired_token, signature, subject_of, identity_of, claims_of, verify_parts,
  verify_token, type_error,
}
use slot.Web.Tokens.{session_claims, expiry, issue_token}

module _ (lib : Stdlib) where
  open lib use {split, mac, decode, encode, is_identifier, is_ascii}

  identity_of-session_claims :
      (subject : String) (role : Role) (now now' : ℕ)
      → subject_of lib (some (Claim.text subject)) ≡ ok subject
      → identity_of lib (session_claims subject role now) now' ≡ (
          if leb (expiry now * 1000000) now'
          then err expired_token
          else ok (record { subject = subject; role = role }))
  unfolding identity_of
  identity_of-session_claims subject client now now' fits = rw (fits, identity_of) refl
  identity_of-session_claims subject master now now' fits = rw (fits, identity_of) refl

  -- A token that the front end has issued is accepted by the booking service under the same secret,
  -- with the same subject and role, until the second of its expiry begins, and is expired from then
  -- on, where the subject is one that fits, the token splits at its two dots, its claims can be
  -- decoded again and its signature is ASCII.
  pub verify_token-issue_token :
      (subject : String) (role : Role) (secret : String) (now now' : ℕ)
      → let payload = encode (session_claims subject role now) in
        let code = mac secret ("v1." ++ payload) in
        split (("v1." ++ payload) ++ ("." ++ code)) ≡ "v1" ∷ payload ∷ code ∷ []
        → decode (encode (session_claims subject role now))
          ≡ some (object (session_claims subject role now))
        → is_ascii (mac secret ("v1." ++ encode (session_claims subject role now))) ≡ true
        → subject_of lib (some (Claim.text subject)) ≡ ok subject
        → verify_token lib (issue_token lib subject role secret now) secret now' ≡ (
            if leb (expiry now * 1000000) now'
            then err expired_token
            else ok (record { subject = subject; role = role }))
  unfolding verify_token issue_token signature claims_of
  verify_token-issue_token subject role secret now now' splits decodes ascii fits =
      let code = mac secret ("v1." ++ encode (session_claims subject role now)) in
      rw splits (
        rw ascii (
          rw (eq_refl code)
            (rw (decodes, claims_of) (identity_of-session_claims subject role now now' fits))))

  verify_parts_signed :
      (parts : List String) (secret : String) (now : ℕ) (identity : Identity)
      → verify_parts lib parts secret now ≡ ok identity
      → (payload : String) × (parts ≡ "v1" ∷ payload ∷ mac secret ("v1." ++ payload) ∷ [])
  unfolding signature
  verify_parts_signed [] secret now identity h = absurd (ground arith)
  verify_parts_signed (version ∷ []) secret now identity h = absurd (ground arith)
  verify_parts_signed (version ∷ payload ∷ []) secret now identity h = absurd (ground arith)
  verify_parts_signed (version ∷ payload ∷ presented ∷ []) secret now identity h =
      let code = mac secret ("v1." ++ payload) in
      elim (Bool-cases (str_eq version "v1")) [
        | inr other ↦ absurd (ground arith)
        | inl known ↦ elim (Bool-cases (str_eq code presented)) [
          | inr forged ↦ absurd (ground arith)
          | inl same ↦
              let v : version ≡ "v1" = (eq_iff version "v1").0 known in
              let p : code ≡ presented = (eq_iff code presented).0 same in (payload, cc (v, p))
        ]
      ]
  verify_parts_signed (a ∷ b ∷ c ∷ d ∷ parts) secret now identity h = absurd (ground arith)

  -- Only a token of three parts whose last is the signature of the second, under the secret and
  -- with the version, is accepted.
  pub verify_token_signed :
      (token secret : String) (now : ℕ) (identity : Identity)
      → verify_token lib token secret now ≡ ok identity
      → (payload : String) × (split token ≡ "v1" ∷ payload ∷ mac secret ("v1." ++ payload) ∷ [])
  unfolding verify_token
  verify_token_signed token secret now identity accepted =
      verify_parts_signed (split token) secret now identity accepted

  -- A token of three parts and the right version, whose signature has a character beyond ASCII,
  -- ends with a `TypeError`.
  pub verify_token_not_ascii :
      (token payload presented secret : String) (now : ℕ)
      → split token ≡ "v1" ∷ payload ∷ presented ∷ []
      → is_ascii presented ≡ false
      → verify_token lib token secret now ≡ err type_error
  unfolding verify_token
  verify_token_not_ascii token payload presented secret now parts odd =
      rw parts (ground (arith, odd))
