-- ===== src/Hub/Examples.antt =====
-- The flakiness theorems at concrete inputs, and verdicts on short histories.
use slot.Prelude.{◌≡◌, ◌↔◌, refl, some, true, [], ◌∷◌, any_of}
use slot.Hub.Flakiness.{
  CaseStatus, flaky, broken, active, FlakinessPolicy, default_policy, CaseRun, QuarantineEntry,
  conclusive, note, outcomes_of, flipped_on_same_commit, window_of, classify, quarantined_ids,
}
use slot.Hub.Verdicts.{passed_at, failed_at, flipped_on_same_commit_iff}

abbrev passes : CaseRun
passes = record {
  test_id = "t";
  commit = "c1";
  branch = "main";
  attempt = 1;
  status = CaseStatus.passed;
}

abbrev fails : CaseRun
fails = record passes { status = CaseStatus.failed; attempt = 2 }

abbrev policy : FlakinessPolicy
policy = record default_policy { min_runs = 2; stable_runs_to_release = 2; quarantine_ttl = 100 }

abbrev entry : QuarantineEntry
entry = record { test_id = "t"; owner = "anna"; opened_at = 1000; reason = flaky }

verdict_flaky : classify (passes ∷ fails ∷ []) default_policy ≡ flaky
unfolding classify window_of conclusive flipped_on_same_commit outcomes_of note
verdict_flaky = refl

verdict_broken : classify (fails ∷ fails ∷ []) policy ≡ broken
unfolding classify window_of conclusive flipped_on_same_commit outcomes_of note
verdict_broken = refl

flipped_on_same_commit_iff_example : (flipped_on_same_commit (passes ∷ fails ∷ []) ≡ true) ↔ (
    (c : _) × (any_of (passed_at c) (conclusive (passes ∷ fails ∷ [])) ≡ true)
    × (any_of (failed_at c) (conclusive (passes ∷ fails ∷ [])) ≡ true))
flipped_on_same_commit_iff_example = flipped_on_same_commit_iff (passes ∷ fails ∷ [])

listed :
    quarantined_ids (entry ∷ record entry { test_id = "a" } ∷ []) (λ i. some active)
    ≡ "a" ∷ "t" ∷ []
unfolding quarantined_ids
listed = refl
