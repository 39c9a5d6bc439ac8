-- ===== src/Tools/ChangedServices/Selection.antt =====
-- Which services a list of changed paths selects, in terms of the paths one by one.
use text.Mathlib.Text.{starts_with}
use slot.Prelude.{
  String, Bool, true, false, ◌≡◌, refl, ◌&&◌, ◌||◌, inl, inr, List, [], ◌∷◌, ◌++◌, arith, str_eq,
  eq_iff, any_of, all_of, any_of-append, sort_texts, any_of-sort_texts, split_on, if◌then◌else◌,
  Bool-cases, subst, ap, ◌∙◌, sym, ends_with, ◌==◌, ◌≢◌,
}
use slot.Tools.AcceptedRisks.{is_among}
use slot.Tools.ChangedServices.{
  Effect, affects_none, affects, affects_all, services, path_effect, add_all, affected_from,
  affected_services, effect_of, external_api_users, users_of, has_prefix, service_in, part,
  event_parties, token_parties, libraries, irrelevant, provider_of, GitDiff, changed_files,
}

abbrev pub selects_all : Effect → Bool
selects_all affects_none = false
selects_all (affects ss) = false
selects_all affects_all = true

abbrev pub selects : String → Effect → Bool
selects s affects_none = false
selects s (affects ss) = is_among ss s
selects s affects_all = is_among services s

or_swap : (a b c : Bool) → ((a || b) || c) ≡ (b || (a || c))
or_swap true true c = refl
or_swap true false c = refl
or_swap false b c = refl

is_among-add_all :
    (ss affected : List String) (s : String)
    → is_among (add_all ss affected) s ≡ (is_among ss s || is_among affected s)
is_among-add_all [] affected s = refl
is_among-add_all (t ∷ ss) affected s = elim (Bool-cases (is_among (add_all ss affected) t)) [
  | inr fresh ↦ rw fresh (ground (arith, is_among-add_all ss affected s))
  | inl already ↦ rw already (elim (Bool-cases (str_eq t s)) [
    | inr other ↦ rw other (is_among-add_all ss affected s)
    | inl same ↦
        rw same (subst (λ i. is_among (add_all ss affected) i ≡ true) ((eq_iff t s).0 same) already)
  ])
]

-- The selection of a list of paths: all services if a path affects all, else those that a path
-- affects.
affected_from-lem :
    (effect : String → Effect) (affected paths : List String) (s : String)
    → is_among (affected_from effect affected paths) s ≡ (
        if any_of (λ p. selects_all (effect p)) paths
        then is_among services s
        else is_among affected s || any_of (λ p. selects s (effect p)) paths)
affected_from-lem effect affected [] s = any_of-sort_texts (λ n. str_eq n s) affected ∙ ground arith
affected_from-lem effect affected (p ∷ ps) s =
    by_effect (effect p) (λ a. affected_from-lem effect a ps s)
  where
    all_rest : Bool
    all_rest = any_of (λ q. selects_all (effect q)) ps

    some_rest : Bool
    some_rest = any_of (λ q. selects s (effect q)) ps

    by_effect :
        (e : Effect)
        → ((a : List String)
            → is_among (affected_from effect a ps) s
              ≡ (if all_rest then is_among services s else is_among a s || some_rest))
        → is_among
            (elim e [
              | affects_none ↦ affected_from effect affected ps
              | affects ss ↦ affected_from effect (add_all ss affected) ps
              | affects_all ↦ sort_texts services
            ])
            s
          ≡ (if selects_all e || all_rest
              then is_among services s
              else is_among affected s || (selects s e || some_rest))
    by_effect affects_none rest = rest affected
    by_effect (affects ss) rest =
        rest (add_all ss affected)
        ∙ rw (is_among-add_all ss affected s) (
            ap (λ b. if all_rest then is_among services s else b)
              (or_swap (is_among ss s) (is_among affected s) some_rest))
    by_effect affects_all rest = any_of-sort_texts (λ n. str_eq n s) services

-- The selection of a list of paths does not depend on their order or number: it is every service
-- if some path affects all, and otherwise those that some path affects.
pub affected_services-lem :
    (paths : List String) (s : String)
    → is_among (affected_services paths) s ≡ (
        if any_of (λ p. selects_all (path_effect p)) paths
        then is_among services s
        else any_of (λ p. selects s (path_effect p)) paths)
unfolding affected_services
affected_services-lem paths s = affected_from-lem path_effect [] paths s

-- An effect names services of the repository alone.
abbrev IsKnown : Effect → Type 0
IsKnown e = (s : String) → selects s e ≡ true → is_among services s ≡ true

one-IsKnown : (name : String) → is_among services name ≡ true → IsKnown (affects (name ∷ []))
one-IsKnown name known s h =
    subst (λ n. is_among services n ≡ true) ((eq_iff name s).0 (ground (arith, h))) known

all-IsKnown :
    (names : List String) → all_of (is_among services) names ≡ true → IsKnown (affects names)
all-IsKnown [] known s h = absurd (ground arith)
all-IsKnown (n ∷ names) known s h = elim (Bool-cases (str_eq n s)) [
  | inl same ↦ subst (λ i. is_among services i ≡ true) ((eq_iff n s).0 same) (ground (arith, known))
  | inr other ↦ all-IsKnown names (ground (arith, known)) s (rw other at h)
]

if-IsKnown :
    (b : Bool) (e f : Effect) → (b ≡ true → IsKnown e) → IsKnown f → IsKnown (if b then e else f)
if-IsKnown true e f h k = h refl
if-IsKnown false e f h k = k

users_known : (path : String) → all_of (is_among services) (users_of path external_api_users) ≡ true
users_known path = elim (Bool-cases (starts_with path "contracts/paystub/")) [
  | inl paystub ↦ rw paystub (elim (Bool-cases (starts_with path "contracts/notifygw/")) [
    | inl notifygw ↦ rw notifygw refl
    | inr other ↦ rw other refl
  ])
  | inr other ↦ rw other (elim (Bool-cases (starts_with path "contracts/notifygw/")) [
    | inl notifygw ↦ rw notifygw refl
    | inr none_of_them ↦ rw none_of_them refl
  ])
]

effect_of-IsKnown : (path : String) (parts : List String) → IsKnown (effect_of path parts)
effect_of-IsKnown path parts =
    if-IsKnown (has_prefix path irrelevant) affects_none _ (λ _. all-IsKnown [] refl)
      (if-IsKnown (service_in libraries parts) affects_none _ (λ _. all-IsKnown [] refl)
        (if-IsKnown (service_in services parts) (affects (part 1 parts ∷ [])) _
          (λ here. one-IsKnown (part 1 parts) (ground (arith, here)))
          (if-IsKnown (starts_with path "contracts/events/") (affects event_parties) _
            (λ _. all-IsKnown event_parties refl)
            (if-IsKnown (starts_with path "contracts/auth/") (affects token_parties) _
              (λ _. all-IsKnown token_parties refl)
              (if-IsKnown (starts_with path "contracts/pacts/" && ends_with path ".json") _ _
                (λ _.
                  if-IsKnown (is_among services (provider_of parts))
                    (affects (provider_of parts ∷ [])) (affects services)
                    (λ known. one-IsKnown (provider_of parts) known) (all-IsKnown services refl))
                (if-IsKnown
                  (any_of (λ (a : String × List String). starts_with path a.0) external_api_users)
                  (affects (users_of path external_api_users)) affects_all
                  (λ _. all-IsKnown (users_of path external_api_users) (users_known path))
                  (λ s h. h)))))))

some-IsKnown :
    (paths : List String) (s : String)
    → any_of (λ p. selects s (path_effect p)) paths ≡ true
    → is_among services s ≡ true
some-IsKnown [] s h = absurd (ground arith)
some-IsKnown (p ∷ ps) s h = elim (Bool-cases (selects s (path_effect p))) [
  | inl here ↦ effect_of-IsKnown p (split_on "/" p) s here
  | inr later ↦ some-IsKnown ps s (rw later at h)
]

still_selected :
    (all_before all_here all_after known before here after : Bool)
    → (here ≡ true → known ≡ true)
    → (if all_here then known else here) ≡ true
    → (if all_before || (all_here || all_after) then known else before || (here || after)) ≡ true
still_selected true true c known x y z k h = h
still_selected true false c known x y z k h = k h
still_selected false true c known x y z k h = h
still_selected false false true known x y z k h = k h
still_selected false false false known x y z k h = ground (arith, h)

-- A longer list of changed paths, with others before or after, never selects fewer services.
pub affected_services_grows :
    (before paths after : List String) (s : String)
    → is_among (affected_services paths) s ≡ true
    → is_among (affected_services (before ++ (paths ++ after))) s ≡ true
affected_services_grows before paths after s h =
    affected_services-lem (before ++ (paths ++ after)) s
    ∙ rw (split3 (λ p. selects_all (path_effect p)), split3 (λ p. selects s (path_effect p)))
        (still_selected _ (any_of (λ p. selects_all (path_effect p)) paths) _ (is_among services s)
          _ (any_of (λ p. selects s (path_effect p)) paths) _ (some-IsKnown paths s)
          (sym (affected_services-lem paths s) ∙ h))
  where
    split3 :
        (p : String → Bool)
        → any_of p (before ++ (paths ++ after))
          ≡ (any_of p before || (any_of p paths || any_of p after))
    split3 p =
        any_of-append p before (paths ++ after)
        ∙ ap (λ b. any_of p before || b) (any_of-append p paths after)

-- Without a base to compare with, every service is selected.
pub unknown_base :
    (diff : GitDiff) → diff.returncode ≢ 0 → affected_services (changed_files diff) ≡ services
unfolding changed_files affected_services
unknown_base diff failed =
    let other : (diff.returncode == 0) ≡ false = ground arith in rw other refl
