-- ===== src/Prelude/Pages.antt =====
-- What the services of the repository share at their edge: the page of a framework error, the answer
-- of the health route, and settings read from the environment. How a template matches a path and
-- what a status is called are of the framework and are a parameter.
use Prim.Native.Nat.{ℕ}
use Prim.Native.String.{String}
use mathlib.Core.Path.{◌≡◌, refl, ◌∙◌}
use mathlib.Core.Logic.{inl, inr}
use mathlib.Core.Bool.{Bool, true, ◌||◌, ◌&&◌}
use mathlib.Core.Option.{Option, none, some}
use mathlib.Core.List.{List, [], ◌∷◌, ◌++◌}
use native.Mathlib.Omega.{arith}
use text.Mathlib.Text.{◌==◌ as str_eq}
use slot.Prelude.Tests.{◌==◌, if◌then◌else◌, Bool-cases}
use slot.Prelude.Rows.{any_of}
use slot.Prelude.RowLaws.{any_of-append}
use slot.Prelude.Results.{Result, ok, err}
use slot.Prelude.Texts.{sort_texts, insert_text}

pub record Route : Type 0 where
  pub methods : List String
  pub template : String

pub record Framework : Type 0 where
  -- whether a template matches a path
  pub matches : String → String → Bool
  -- the name of a status, in lower case with underscores
  pub phrase : ℕ → String
  -- `", ".join`
  pub join : List String → String

pub record HttpException : Type 0 where
  pub status_code : ℕ
  pub detail : String
  pub headers : Option (List (String × String))

pub record ErrorOut : Type 0 where
  pub error : String
  pub detail : String

pub record ErrorPage : Type 0 where
  pub status_code : ℕ
  pub content : ErrorOut
  pub headers : List (String × String)

-- Assignment to a key of a dict, which keeps its place.
abbrev pub set_header : String → String → List (String × String) → List (String × String)
set_header key value [] = (key, value) ∷ []
set_header key value ((k, v) ∷ headers) =
    let rest = set_header key value headers in
    if str_eq k key then (k, value) ∷ headers else (k, v) ∷ rest

abbrev pub get_header : String → List (String × String) → Option String
get_header key [] = none
get_header key ((k, v) ∷ headers) =
    let rest = get_header key headers in if str_eq k key then some v else rest

abbrev pub given_headers : Option (List (String × String)) → List (String × String)
given_headers none = []
given_headers (some headers) = headers

abbrev pub method_not_allowed : ℕ
method_not_allowed = 405

module _ (framework : Framework) (routes : List Route) where
  open framework use {matches, phrase, join}

  abbrev pub methods_at : String → List Route → List String
  methods_at path [] = []
  methods_at path (r ∷ rs) =
      let rest = methods_at path rs in if matches r.template path then r.methods ++ rest else rest

  abbrev pub allowed_methods : String → List String
  allowed_methods path = sort_texts (methods_at path routes)

  abbrev pub error_headers : String → HttpException → List (String × String)
  error_headers path error =
      let headers = given_headers error.headers in
      if error.status_code == method_not_allowed
      then set_header "Allow" (join (allowed_methods path)) headers
      else headers

  unfoldable pub error_page : String → HttpException → ErrorPage
  error_page path error = record {
    status_code = error.status_code;
    content = record { error = phrase error.status_code; detail = error.detail };
    headers = error_headers path error;
  }

any_of-insert_text :
    (p : String → Bool) (s : String) (ts : List String)
    → any_of p (insert_text s ts) ≡ (p s || any_of p ts)
any_of-insert_text p s [] = refl
any_of-insert_text p s (t ∷ ts) = ground (arith, any_of-insert_text p s ts)

pub any_of-sort_texts :
    (p : String → Bool) (ts : List String) → any_of p (sort_texts ts) ≡ any_of p ts
any_of-sort_texts p [] = refl
any_of-sort_texts p (t ∷ ts) =
    ground (arith, any_of-insert_text p t (sort_texts ts), any_of-sort_texts p ts)

pub get_header-set_header :
    (key value : String) (headers : List (String × String))
    → str_eq key key ≡ true
    → get_header key (set_header key value headers) ≡ some value
get_header-set_header key value [] same = rw same refl
get_header-set_header key value ((k, v) ∷ headers) same =
    ground (arith, get_header-set_header key value headers same)

module _ (framework : Framework) where
  open framework use {matches}

  pub any_of-methods_at :
      (routes : List Route) (path method : String) (rs : List Route)
      → any_of (λ m. str_eq m method) (methods_at framework routes path rs)
        ≡ any_of (λ r. matches r.template path && any_of (λ m. str_eq m method) r.methods) rs
  any_of-methods_at routes path method [] = refl
  any_of-methods_at routes path method (r ∷ rs) = elim (Bool-cases (matches r.template path)) [
    | inl hit ↦ rw hit (
        any_of-append (λ m. str_eq m method) r.methods (methods_at framework routes path rs)
        ∙ rw (any_of-methods_at routes path method rs) refl)
    | inr miss ↦ rw miss (any_of-methods_at routes path method rs)
  ]

-- How reading a setting fails: a variable that is not set, or one that is no number.
pub data EnvError : Type 0 where
  key_error value_error : EnvError

abbrev pub Environ : Type 0
Environ = String → Option String

-- `os.environ[name]`
abbrev pub env_value : Environ → String → Result EnvError String
env_value environ name = elim (environ name) [ none ↦ err key_error | some value ↦ ok value ]

-- `os.environ.get(name, default)`
abbrev pub env_or : Environ → String → String → String
env_or environ name default = elim (environ name) [ none ↦ default | some value ↦ value ]

-- `int(text)`, with `none` for a `ValueError`
abbrev pub int_of : (String → Option ℕ) → String → Result EnvError ℕ
int_of parse_int text = elim (parse_int text) [ none ↦ err value_error | some n ↦ ok n ]

pub record Health : Type 0 where
  pub status : String
  pub service : String
  pub version : String
  pub build_sha : String

abbrev pub build_of : Option String → String
build_of none = "unknown"
build_of (some sha) = if str_eq sha "" then "unknown" else sha

module _ (framework : Framework) (routes : List Route) where
  open framework use {matches, join}

  -- RFC 9110: the page of a 405 lists exactly the methods of the routes that match the path.
  pub error_page_allows :
      (path : String) (error : HttpException)
      → error.status_code ≡ method_not_allowed
      → (methods : List String) × (get_header "Allow"
            (error_page framework routes path error).headers
          ≡ some (join methods))
        × ((method : String)
            → any_of (λ m. str_eq m method) methods
              ≡ any_of
                  (λ r. matches r.template path && any_of (λ m. str_eq m method) r.methods)
                  routes)
  unfolding error_page
  error_page_allows path error refused = (
    allowed_methods framework routes path,
    rw (refused, error_page) (get_header-set_header "Allow" _ (given_headers error.headers) refl),
    λ method.
        any_of-sort_texts (λ m. str_eq m method) (methods_at framework routes path routes)
        ∙ any_of-methods_at framework routes path method routes,
  )
