-- ===== src/Web/Login/Session.antt =====
-- A session that a login opens, as the booking service sees it.
use Prim.Native.String.{◌++◌}
use slot.Prelude.{
  ℕ, ◌*◌, String, ◌≡◌, refl, ◌∙◌, inl, inr, some, true, [], ◌∷◌, arith, leb, str_eq, ltb,
  text_length, subst, ap, if◌then◌else◌, Bool-cases, Result, ok, err,
}
use slot.Booking.Auth.{Role}
use slot.Booking.Tokens.{Claim, object, Stdlib, expired_token, subject_of, verify_token}
use slot.Web.Tokens.{session_claims, expiry, issue_token}
use slot.Web.Sessions.{verify_token-issue_token}
use slot.Web.Forms.{InputError, max_name_length, clean_stripped, clean_name, parse_role}
use slot.Web.Login.{Visitor, LoginReply, login_page, redirect, log_in, login}

module _ (lib : Stdlib) (strip : String → String) (secret : String) where
  -- A name that the form takes is a subject that the booking service takes.
  clean_fits :
      (s name : String)
      → clean_stripped lib strip s ≡ ok name
      → subject_of lib (some (Claim.text name)) ≡ ok name
  clean_fits s name h = elim (Bool-cases (str_eq s "")) [
    | inl empty ↦ absurd (ground (arith, empty))
    | inr filled ↦ elim (Bool-cases (ltb max_name_length (text_length s))) [
      | inl long ↦ absurd (ground (arith, filled, long))
      | inr fits ↦ elim (Bool-cases (lib.is_identifier s)) [
        | inr bad ↦ absurd (ground (arith, filled, fits, bad))
        | inl good ↦
            let same : s ≡ name = ground (arith, filled, fits, good) in
            subst (λ n. subject_of lib (some (Claim.text n)) ≡ ok n) same
              (rw filled (rw fits (rw good refl)))
      ]
    ]
  ]

  -- What the documentation of the libraries promises of the token of a visitor.
  pub record IsEncoded (who : Visitor) (now : ℕ) : Type 0 where
    pub splits :
        let payload = lib.encode (session_claims who.name who.role now) in
        let code = lib.mac secret ("v1." ++ payload) in
        lib.split (("v1." ++ payload) ++ ("." ++ code)) ≡ "v1" ∷ payload ∷ code ∷ []
    pub decodes :
        lib.decode (lib.encode (session_claims who.name who.role now))
        ≡ some (object (session_claims who.name who.role now))
    pub ascii :
        lib.is_ascii (lib.mac secret ("v1." ++ lib.encode (session_claims who.name who.role now)))
        ≡ true

  -- What a redirection of the login says about the visitor.
  abbrev Opens : ℕ → LoginReply → Type 0
  Opens now (login_page status e) = Unit
  Opens now (redirect page who) =
      (who.token ≡ issue_token lib who.name who.role secret now)
      × (subject_of lib (some (Claim.text who.name)) ≡ ok who.name)

  log_in-Opens :
      (s : String) (subject : Result InputError String) (role : Result InputError Role) (now : ℕ)
      → clean_stripped lib strip s ≡ subject
      → Opens now (log_in lib strip secret subject role now)
  log_in-Opens s (err e) role now h = tt
  log_in-Opens s (ok subject) (err e) now h = tt
  log_in-Opens s (ok subject) (ok role) now h = (refl, clean_fits s subject h)

  login-Opens : (name role : String) (now : ℕ) → Opens now (login lib strip secret name role now)
  unfolding login clean_name
  login-Opens name role now = log_in-Opens (strip name) _ (parse_role role) now refl

  -- Whoever the login lets in has a session that the booking service accepts under the same secret,
  -- with the name and the role of the visitor, until the second of its expiry begins, and refuses as
  -- expired from then on, where the libraries split, decode and sign the token as they document.
  pub login_session :
      (name role page : String) (now later : ℕ) (who : Visitor)
      → login lib strip secret name role now ≡ redirect page who
      → IsEncoded who now
      → verify_token lib who.token secret later ≡ (
          if leb (expiry now * 1000000) later
          then err expired_token
          else ok (record { subject = who.name; role = who.role }))
  login_session name role page now later who entered documented =
      let opens = subst (Opens now) entered (login-Opens name role now) in
      ap (λ t. verify_token lib t secret later) opens.0
      ∙ verify_token-issue_token lib who.name who.role secret now later documented.splits
          documented.decodes documented.ascii opens.1
