-- ===== src/Tools/ChangedServices.antt =====
-- tools/changed_services.py: which services a change can break. What git answers is a parameter.
pub mod Selection
use text.Mathlib.Text.{starts_with}
use slot.Prelude.{
  zero, suc, ◌++◌, ℕ, String, Bool, true, false, not, ◌&&◌, ◌||◌, Option, none, some, List, [], ◌∷◌,
  ltb, str_eq, any_of, length, sort_texts, split_on, ends_with, remove_suffix, if◌then◌else◌, ◌==◌,
}
use slot.Tools.AcceptedRisks.{is_among}

abbrev pub services : List String
services = "booking" ∷ "notifier" ∷ "payments" ∷ "web" ∷ []

-- An external API, and the services that call it.
abbrev pub external_api_users : List (String × List String)
external_api_users =
    ("contracts/paystub/", "payments" ∷ []) ∷ ("contracts/notifygw/", "notifier" ∷ []) ∷ []

abbrev pub event_parties : List String
event_parties = "booking" ∷ "notifier" ∷ []

abbrev pub token_parties : List String
token_parties = "booking" ∷ "web" ∷ []

abbrev pub irrelevant : List String
irrelevant = "docs/" ∷ "README.md" ∷ "CLAUDE.md" ∷ ".gitignore" ∷ "smoke/" ∷ "e2e/" ∷ []

abbrev pub libraries : List String
libraries = "quality-hub" ∷ []

-- What a changed path comes to: nothing, some services, or every service.
pub data Effect : Type 0 where
  affects_none : Effect
  affects : List String → Effect
  affects_all : Effect

abbrev pub part : ℕ → List String → String
part n [] = ""
part zero (p ∷ ps) = p
part (suc n) (p ∷ ps) = part n ps

abbrev pub last_part : List String → String
last_part [] = ""
last_part (p ∷ []) = p
last_part (p ∷ q ∷ ps) = last_part (q ∷ ps)

-- The service in a path `services/<name>/<file>`.
abbrev pub service_in : List String → List String → Bool
service_in names parts =
    str_eq (part 0 parts) "services" && ltb 2 (length parts) && is_among names (part 1 parts)

abbrev pub provider_of : List String → String
provider_of parts = last_part (split_on "-" (remove_suffix ".json" (last_part parts)))

abbrev pub users_of : String → List (String × List String) → List String
users_of path [] = []
users_of path ((api, users) ∷ apis) =
    let rest = users_of path apis in if starts_with path api then users ++ rest else rest

abbrev pub has_prefix : String → List String → Bool
has_prefix path prefixes = any_of (λ p. starts_with path p) prefixes

-- The body of the loop, as a function of the path and its parts.
abbrev pub effect_of : String → List String → Effect
effect_of path parts =
    if has_prefix path irrelevant
    then affects_none
    else if service_in libraries parts
    then affects_none
    else if service_in services parts
    then affects (part 1 parts ∷ [])
    else if starts_with path "contracts/events/"
    then affects event_parties
    else if starts_with path "contracts/auth/"
    then affects token_parties
    else if starts_with path "contracts/pacts/" && ends_with path ".json"
    then (if is_among services (provider_of parts)
        then affects (provider_of parts ∷ [])
        else affects services)
    else if any_of (λ (a : String × List String). starts_with path a.0) external_api_users
    then affects (users_of path external_api_users)
    else affects_all

abbrev pub path_effect : String → Effect
path_effect path = effect_of path (split_on "/" path)

-- `affected.update`
abbrev pub add_all : List String → List String → List String
add_all [] affected = affected
add_all (s ∷ ss) affected =
    let rest = add_all ss affected in if is_among rest s then rest else s ∷ rest

-- The loop, from a path on: a path that affects every service ends it.
abbrev pub affected_from : (String → Effect) → List String → List String → List String
affected_from effect affected [] = sort_texts affected
affected_from effect affected (path ∷ paths) = elim (effect path) [
  | affects_none ↦ affected_from effect affected paths
  | affects ss ↦ affected_from effect (add_all ss affected) paths
  | affects_all ↦ sort_texts services
]

unfoldable pub affected_services : List String → List String
affected_services paths = affected_from path_effect [] paths

-- What `git diff` answers: the exit status, and the output split at white space.
pub record GitDiff : Type 0 where
  pub returncode : ℕ
  pub names : List String

unfoldable pub changed_files : GitDiff → List String
changed_files diff = if diff.returncode == 0 then diff.names else "<unknown base>" ∷ []
