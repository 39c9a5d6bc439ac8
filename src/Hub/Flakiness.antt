-- ===== src/Hub/Flakiness.antt =====
-- services/quality-hub/src/quality_hub/flakiness.py: is a test flaky, and what is done with it.
-- Rates and thresholds are floats in the source. Here a threshold is a fraction, and a rate is
-- compared with it by cross multiplication, which is what the division of two small integers and the
-- comparison come to: rounding keeps the order of fractions whose terms are below 2^26.
-- An instant and a duration are numbers of microseconds. The duration of a run is never read.
use slot.Prelude.{
  ℕ, zero, suc, ◌+◌, ◌-◌, ◌*◌, String, Bool, true, false, not, ◌&&◌, List, [], ◌∷◌, leb, ltb,
  str_eq, any_of, all_of, Option, none, some, map, sort_texts, select, length, drop, if◌then◌else◌,
}

pub data CaseStatus : Type 0 where
  passed failed skipped error : CaseStatus

pub data FlakyVerdict : Type 0 where
  not_enough_data stable broken flaky : FlakyVerdict

pub data QuarantineState : Type 0 where
  active released expired : QuarantineState

pub record FlakinessPolicy : Type 0 where
  pub window : ℕ
  pub min_runs : ℕ
  -- the flip rate threshold is `flips_num / flips_den`
  pub flips_num : ℕ
  pub flips_den : ℕ
  pub quarantine_ttl : ℕ
  pub stable_runs_to_release : ℕ

abbrev pub default_policy : FlakinessPolicy
default_policy = record {
  window = 20;
  min_runs = 5;
  flips_num = 15;
  flips_den = 100;
  quarantine_ttl = 14 * 24 * 60 * 60 * 1000000;
  stable_runs_to_release = 20;
}

pub record CaseRun : Type 0 where
  pub test_id : String
  pub commit : String
  pub branch : String
  pub attempt : ℕ
  pub status : CaseStatus

pub record QuarantineEntry : Type 0 where
  pub test_id : String
  pub owner : String
  pub opened_at : ℕ
  pub reason : FlakyVerdict

abbrev pub is_conclusive : CaseRun → Bool
is_conclusive run = elim run.status [ CaseStatus.skipped ↦ false | _ ↦ true ]

unfoldable pub conclusive : List CaseRun → List CaseRun
conclusive = select is_conclusive

-- A run that did not pass: an `error` counts.
abbrev pub has_failed : CaseRun → Bool
has_failed run = elim run.status [ CaseStatus.passed ↦ false | _ ↦ true ]

abbrev pub bool_eq : Bool → Bool → Bool
bool_eq true b = b
bool_eq false b = not b

-- `outcomes` of `flipped_on_same_commit`: the commits in the order of their first run, each with
-- whether a pass and whether a failure was seen.
pub record Outcomes : Type 0 where
  pub commit : String
  pub saw_pass : Bool
  pub saw_failure : Bool

abbrev pub add_outcome : Bool → Outcomes → Outcomes
add_outcome failure o =
    if failure then record o { saw_failure = true } else record o { saw_pass = true }

-- `outcomes.setdefault(commit, set()).add(failed(run))`
unfoldable pub note : String → Bool → List Outcomes → List Outcomes
note commit failure [] =
    add_outcome failure (record { commit = commit; saw_pass = false; saw_failure = false }) ∷ []
note commit failure (o ∷ os) =
    let rest = o ∷ note commit failure os in
    if str_eq o.commit commit then add_outcome failure o ∷ os else rest

unfoldable pub outcomes_of : List CaseRun → List Outcomes → List Outcomes
outcomes_of [] os = os
outcomes_of (run ∷ runs) os = outcomes_of runs (note run.commit (has_failed run) os)

unfoldable pub flipped_on_same_commit : List CaseRun → Bool
flipped_on_same_commit runs =
    any_of (λ (o : Outcomes). o.saw_pass && o.saw_failure) (outcomes_of (conclusive runs) [])

-- `runs[-n:]`, which for n = 0 is the whole list.
abbrev pub last_runs : ℕ → List CaseRun → List CaseRun
last_runs zero runs = runs
last_runs (suc n) runs = drop (length runs - suc n) runs

unfoldable pub window_of : List CaseRun → FlakinessPolicy → List CaseRun
unfolding conclusive
window_of runs policy = last_runs policy.window (conclusive runs)

-- The pairs of neighbours whose outcomes differ.
abbrev pub count_flips : List CaseRun → ℕ
count_flips [] = 0
count_flips (before ∷ []) = 0
count_flips (before ∷ after ∷ runs) =
    (if bool_eq (has_failed before) (has_failed after) then 0 else 1) + count_flips (after ∷ runs)

-- `flip_rate(runs, policy) >= policy.flip_rate_threshold`
unfoldable pub flips_too_often : List CaseRun → FlakinessPolicy → Bool
flips_too_often runs policy =
    let recent = window_of runs policy in
    if ltb (length recent) 2
    then leb policy.flips_num 0
    else leb (policy.flips_num * (length recent - 1)) (policy.flips_den * count_flips recent)

unfoldable pub classify : List CaseRun → FlakinessPolicy → FlakyVerdict
classify runs policy =
    let recent = window_of runs policy in
    if flipped_on_same_commit recent
    then flaky
    else if ltb (length recent) policy.min_runs
    then not_enough_data
    else if all_of has_failed recent
    then broken
    else if flips_too_often recent policy
    then flaky
    else stable

unfoldable pub should_quarantine : List CaseRun → FlakinessPolicy → Bool
should_quarantine runs policy = elim (classify runs policy) [
  | FlakyVerdict.flaky ↦ true
  | _ ↦ false
]

abbrev pub expires_at : QuarantineEntry → FlakinessPolicy → ℕ
expires_at entry policy = entry.opened_at + policy.quarantine_ttl

unfoldable pub is_expired : QuarantineEntry → ℕ → FlakinessPolicy → Bool
is_expired entry now policy = leb (expires_at entry policy) now

unfoldable pub earned_release : List CaseRun → FlakinessPolicy → Bool
earned_release runs_since policy =
    let recent = conclusive runs_since in
    if ltb (length recent) policy.stable_runs_to_release
    then false
    else not (any_of has_failed (last_runs policy.stable_runs_to_release recent))

unfoldable pub quarantine_state :
    QuarantineEntry → List CaseRun → ℕ → FlakinessPolicy → QuarantineState
unfolding is_expired
quarantine_state entry runs_since now policy =
    if earned_release runs_since policy
    then released
    else if is_expired entry now policy
    then expired
    else active

-- `states.get(...) == ACTIVE`
abbrev pub is_active : Option QuarantineState → Bool
is_active (some active) = true
is_active (some released) = false
is_active (some expired) = false
is_active none = false

-- The list for the plugin, `states` being a dictionary by the id of a test.
unfoldable pub quarantined_ids :
    List QuarantineEntry → (String → Option QuarantineState) → List String
quarantined_ids entries states =
    sort_texts (map (λ e. e.test_id) (select (λ e. is_active (states e.test_id)) entries))
