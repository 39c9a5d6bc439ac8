-- ===== src/Hub/Verdicts.antt =====
-- What the verdicts of `classify` mean, in terms of the runs themselves.
use slot.Prelude.{
  ◌+◌, ◌≤◌, String, ◌≡◌, ◌↔◌, refl, sym, ◌∙◌, inl, inr, Bool, true, false, not, ◌&&◌, ◌||◌, List,
  [], ◌∷◌, arith, ltb, str_eq, eq_iff, eq_refl, any_of, all_of, length, if◌then◌else◌, Bool-cases,
  count_if, count_if_of-any_of, count_if-eq-zero, any_of_mono,
}
use slot.Hub.Flakiness.{
  not_enough_data, broken, FlakinessPolicy, CaseRun, conclusive, has_failed, Outcomes, note,
  outcomes_of, flipped_on_same_commit, window_of, classify, should_quarantine,
}

-- The history has a passed and a failed run of one commit.
abbrev pub passed_at : String → CaseRun → Bool
passed_at commit run = str_eq run.commit commit && not (has_failed run)

abbrev pub failed_at : String → CaseRun → Bool
failed_at commit run = str_eq run.commit commit && has_failed run

abbrev pub is_flip : List CaseRun → CaseRun → Bool
is_flip runs run = any_of (passed_at run.commit) runs && any_of (failed_at run.commit) runs

-- What the dictionary knows of a commit.
abbrev knows_pass : String → List Outcomes → Bool
knows_pass commit = any_of (λ o. str_eq o.commit commit && o.saw_pass)

abbrev knows_failure : String → List Outcomes → Bool
knows_failure commit = any_of (λ o. str_eq o.commit commit && o.saw_failure)

knows_pass-note :
    (c commit : String) (failure : Bool) (os : List Outcomes)
    → knows_pass c (note commit failure os) ≡ (knows_pass c os || (str_eq commit c && not failure))
unfolding note
knows_pass-note c commit failure [] = ground arith
knows_pass-note c commit failure (o ∷ os) = ground (
  arith,
  knows_pass-note c commit failure os,
  eq_iff o.commit commit,
  eq_iff o.commit c,
  eq_iff commit c,
)

knows_failure-note :
    (c commit : String) (failure : Bool) (os : List Outcomes)
    → knows_failure c (note commit failure os)
      ≡ (knows_failure c os || (str_eq commit c && failure))
unfolding note
knows_failure-note c commit failure [] = ground arith
knows_failure-note c commit failure (o ∷ os) = ground (
  arith,
  knows_failure-note c commit failure os,
  eq_iff o.commit commit,
  eq_iff o.commit c,
  eq_iff commit c,
)

-- The dictionary after the loop knows just what the runs show.
knows_pass-outcomes_of :
    (c : String) (runs : List CaseRun) (os : List Outcomes)
    → knows_pass c (outcomes_of runs os) ≡ (knows_pass c os || any_of (passed_at c) runs)
unfolding outcomes_of
knows_pass-outcomes_of c [] os = ground arith
knows_pass-outcomes_of c (run ∷ runs) os = ground (
  arith,
  knows_pass-outcomes_of c runs (note run.commit (has_failed run) os),
  knows_pass-note c run.commit (has_failed run) os,
)

knows_failure-outcomes_of :
    (c : String) (runs : List CaseRun) (os : List Outcomes)
    → knows_failure c (outcomes_of runs os) ≡ (knows_failure c os || any_of (failed_at c) runs)
unfolding outcomes_of
knows_failure-outcomes_of c [] os = ground arith
knows_failure-outcomes_of c (run ∷ runs) os = ground (
  arith,
  knows_failure-outcomes_of c runs (note run.commit (has_failed run) os),
  knows_failure-note c run.commit (has_failed run) os,
)

-- A commit has one entry in the dictionary.
abbrev of_commit : String → Outcomes → Bool
of_commit c o = str_eq o.commit c

count-note :
    (c commit : String) (failure : Bool) (os : List Outcomes)
    → count_if (of_commit c) (note commit failure os)
      ≡ (if str_eq commit c && not (any_of (of_commit c) os) then 1 else 0)
        + count_if (of_commit c) os
unfolding note
count-note c commit failure [] = ground arith
count-note c commit failure (o ∷ os) = ground (
  arith,
  count-note c commit failure os,
  eq_iff o.commit commit,
  eq_iff o.commit c,
  eq_iff commit c,
)

one_entry-note :
    (c commit : String) (failure : Bool) (os : List Outcomes)
    → count_if (of_commit c) os ≤ 1
    → count_if (of_commit c) (note commit failure os) ≤ 1
one_entry-note c commit failure os h =
    ground (arith, count-note c commit failure os, count_if-eq-zero (of_commit c) os)

one_entry-outcomes_of :
    (c : String) (runs : List CaseRun) (os : List Outcomes)
    → count_if (of_commit c) os ≤ 1
    → count_if (of_commit c) (outcomes_of runs os) ≤ 1
unfolding outcomes_of
one_entry-outcomes_of c [] os h = h
one_entry-outcomes_of c (run ∷ runs) os h =
    one_entry-outcomes_of c runs (note run.commit (has_failed run) os)
      (one_entry-note c run.commit (has_failed run) os h)

both_of_one :
    (c : String) (os : List Outcomes)
    → count_if (of_commit c) os ≤ 1
    → knows_pass c os ≡ true
    → knows_failure c os ≡ true
    → any_of (λ (o : Outcomes). o.saw_pass && o.saw_failure) os ≡ true
both_of_one c [] once p f = absurd (ground arith)
both_of_one c (o ∷ os) once p f = elim (Bool-cases (of_commit c o)) [
  | inl here ↦ elim (Bool-cases (any_of (of_commit c) os)) [
    | inl twice ↦ absurd (ground (arith, count_if_of-any_of (of_commit c) os))
    | inr no_other ↦ ground (
      arith,
      any_of_mono (λ x. of_commit c x && x.saw_pass) (of_commit c) os (λ x h. ground arith),
      any_of_mono (λ x. of_commit c x && x.saw_failure) (of_commit c) os (λ x h. ground arith),
    )
  ]
  | inr elsewhere ↦ ground (arith, both_of_one c os)
]

some_of_both :
    (os : List Outcomes)
    → any_of (λ (o : Outcomes). o.saw_pass && o.saw_failure) os ≡ true
    → (c : String) × (knows_pass c os ≡ true) × (knows_failure c os ≡ true)
some_of_both [] h = absurd (ground arith)
some_of_both (o ∷ os) h = elim (Bool-cases (o.saw_pass && o.saw_failure)) [
  | inl both ↦ (o.commit, ground (arith, eq_refl o.commit), ground (arith, eq_refl o.commit))
  | inr other ↦
      let (c, p, f) = some_of_both os (ground arith) in (c, ground (arith, p), ground (arith, f))
]

-- `flipped_on_same_commit` finds exactly the histories in which some commit has both a conclusive
-- run that passed and one that failed.
pub flipped_on_same_commit_iff :
    (runs : List CaseRun)
    → (flipped_on_same_commit runs ≡ true) ↔ (
        (c : String) × (any_of (passed_at c) (conclusive runs) ≡ true)
        × (any_of (failed_at c) (conclusive runs) ≡ true))
unfolding flipped_on_same_commit
flipped_on_same_commit_iff runs =
    let seen = conclusive runs in
    (
      (λ flipped.
          let (c, p, f) = some_of_both (outcomes_of seen []) flipped in
          (
            c,
            sym (knows_pass-outcomes_of c seen []) ∙ p,
            sym (knows_failure-outcomes_of c seen []) ∙ f,
          )),
      (λ (c, p, f).
          both_of_one c (outcomes_of seen []) (one_entry-outcomes_of c seen [] (omega arith))
            (knows_pass-outcomes_of c seen [] ∙ p) (knows_failure-outcomes_of c seen [] ∙ f)),
    )

no_pass :
    (c : String) (runs : List CaseRun)
    → all_of has_failed runs ≡ true
    → any_of (passed_at c) (conclusive runs) ≡ false
unfolding conclusive
no_pass c [] h = refl
no_pass c (run ∷ runs) h = ground (arith, no_pass c runs)

-- A test that fails in every run of its window is never quarantined, whatever the policy: it is
-- reported as broken once there are enough runs, and before that as not judged.
pub classify_all_failed :
    (runs : List CaseRun) (policy : FlakinessPolicy)
    → all_of has_failed (window_of runs policy) ≡ true
    → (classify runs policy ≡ (
        if ltb (length (window_of runs policy)) policy.min_runs then not_enough_data else broken))
      × (should_quarantine runs policy ≡ false)
unfolding classify should_quarantine
classify_all_failed runs policy all =
    elim (Bool-cases (flipped_on_same_commit (window_of runs policy))) [
      | inl flipped ↦
          let (c, p, f) = (flipped_on_same_commit_iff (window_of runs policy)).0 flipped in
          absurd (ground (arith, p, no_pass c (window_of runs policy) all))
      | inr steady ↦ (ground arith, ground arith)
    ]
