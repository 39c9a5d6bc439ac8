-- ===== src/Web/Browser/Cookies.antt =====
-- Whom the browser says it is after the login and after the logout.
use Prim.Native.String.{◌++◌}
use text.Mathlib.TextLemmas.{append-eq-nil_iff}
use slot.Prelude.{
  String, ◌≡◌, refl, inl, inr, false, none, some, str_eq, ltb, text_length, Bool-cases, Result, ok,
  err, arith, subst, ℕ, eq_iff,
}
use slot.Booking.Auth.{Role, client, master}
use slot.Booking.Tokens.{Stdlib}
use slot.Web.Tokens.{issue_token, role_text, session_claims}
use slot.Web.Forms.{InputError, max_name_length, clean_name, clean_stripped, parse_role}
use slot.Web.Login.{Visitor, LoginReply, login_page, redirect, home, log_in, login, current_visitor}
use slot.Web.Browser.{no_cookies, form, goes_to, index, logout, after_login}

append_there : (s t : String) → str_eq s "" ≡ false → str_eq (s ++ t) "" ≡ false
append_there s t there = elim (Bool-cases (str_eq (s ++ t) "")) [
  | inr filled ↦ filled
  | inl empty ↦
      let s_empty = (append-eq-nil_iff.0 ((eq_iff (s ++ t) "").0 empty)).0 in
      absurd (cc (there, (eq_iff s "").1 s_empty))
]

token_there :
    (lib : Stdlib) (subject : String) (role : Role) (secret : String) (now : ℕ)
    → str_eq (issue_token lib subject role secret now) "" ≡ false
unfolding issue_token
token_there lib subject role secret now =
    append_there ("v1." ++ lib.encode (session_claims subject role now)) _
      (append_there "v1." (lib.encode (session_claims subject role now)) refl)

role_back : (role : Role) → parse_role (role_text role) ≡ ok role
unfolding parse_role
role_back client = refl
role_back master = refl

role_there : (role : Role) → str_eq (role_text role) "" ≡ false
role_there client = refl
role_there master = refl

visitor_back :
    (who : Visitor)
    → str_eq who.token "" ≡ false
    → str_eq who.name "" ≡ false
    → current_visitor (some who.token) (some who.name) (some (role_text who.role)) ≡ some who
unfolding current_visitor
visitor_back who token name = rw (token, name, role_there who.role, role_back who.role) refl

module _ (lib : Stdlib) (strip : String → String) (secret : String) where
  clean_same : (s name : String) → clean_stripped lib strip s ≡ ok name → s ≡ name
  clean_same s name h = elim (Bool-cases (str_eq s "")) [
    | inl empty ↦ absurd (ground (arith, empty))
    | inr filled ↦ elim (Bool-cases (ltb max_name_length (text_length s))) [
      | inl long ↦ absurd (ground (arith, filled, long))
      | inr fits ↦ elim (Bool-cases (lib.is_identifier s)) [
        | inr bad ↦ absurd (ground (arith, filled, fits, bad))
        | inl good ↦ ground (arith, filled, fits, good)
      ]
    ]
  ]

  clean_filled : (s name : String) → clean_stripped lib strip s ≡ ok name → str_eq name "" ≡ false
  clean_filled s name h = elim (Bool-cases (str_eq s "")) [
    | inl empty ↦ absurd (ground (arith, empty))
    | inr filled ↦ subst (λ n. str_eq n "" ≡ false) (clean_same s name h) filled
  ]

  abbrev Lands : LoginReply → Type 0
  Lands (login_page status e) = Unit
  Lands (redirect page who) =
      (page ≡ home who)
      × (current_visitor (some who.token) (some who.name) (some (role_text who.role)) ≡ some who)

  log_in-Lands :
      (s : String) (subject : Result InputError String) (role : Result InputError Role) (now : ℕ)
      → clean_stripped lib strip s ≡ subject
      → Lands (log_in lib strip secret subject role now)
  log_in-Lands s (err e) role now h = tt
  log_in-Lands s (ok subject) (err e) now h = tt
  log_in-Lands s (ok subject) (ok role) now h = (
    refl,
    visitor_back
        (record { token = issue_token lib subject role secret now; name = subject; role = role })
        (token_there lib subject role secret now) (clean_filled s subject h),
  )

  login-Lands : (name role : String) (now : ℕ) → Lands (login lib strip secret name role now)
  unfolding login clean_name
  login-Lands name role now = log_in-Lands (strip name) _ (parse_role role) now refl

  -- Whoever the login lets in is led by the start page to the page of the role, with the cookies
  -- kept, until the logout, after which the start page shows the form and keeps no cookies.
  pub index_follows :
      (name role page : String) (now : ℕ) (who : Visitor)
      → login lib strip secret name role now ≡ redirect page who
      → let jar = after_login (login lib strip secret name role now) in
        (index jar ≡ (goes_to page, jar)) × (index (logout jar).1 ≡ (form none, no_cookies))
  unfolding index logout current_visitor
  index_follows name role page now who entered =
      let lands = subst Lands entered (login-Lands name role now) in
      rw entered (rw (lands.1, lands.0) refl, refl)
