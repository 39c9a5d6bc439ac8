-- ===== src/Hub/Quarantine.antt =====
-- How the state of a quarantine entry moves as runs come in and time passes.
use slot.Prelude.{
  ℕ, zero, suc, ◌+◌, ◌-◌, ◌≤◌, ◌<◌, ◌≡◌, refl, inl, inr, Bool, true, false, not, ◌&&◌, List, [],
  ◌∷◌, ◌++◌, arith, ltb, any_of, length, drop, length-append, if◌then◌else◌, Bool-cases,
}
use slot.Hub.Flakiness.{
  active, released, expired, QuarantineEntry, FlakinessPolicy, CaseRun, is_conclusive, conclusive,
  has_failed, last_runs, earned_release, quarantine_state,
}

any_of-drop_last {ℓ} :
    {A : Type ℓ} (p : A → Bool) (k : ℕ) (xs : List A) (x : A)
    → k ≤ length xs
    → p x ≡ true
    → any_of p (drop k (xs ++ x ∷ [])) ≡ true
any_of-drop_last p zero [] x h e = ground arith
any_of-drop_last p (suc k) [] x h e = absurd (omega arith)
any_of-drop_last p zero (y ∷ ys) x h e = ground (arith, any_of-drop_last p zero ys x)
any_of-drop_last p (suc k) (y ∷ ys) x h e = any_of-drop_last p k ys x (omega arith) e

none_append {ℓ} :
    {A : Type ℓ} (p : A → Bool) (xs : List A) (x : A)
    → any_of p xs ≡ false
    → p x ≡ false
    → any_of p (xs ++ x ∷ []) ≡ false
none_append p [] x h e = ground arith
none_append p (y ∷ ys) x h e = ground (arith, none_append p ys x)

-- One more row at the end and one more dropped in front bring in no row that fits.
none-drop-suc {ℓ} :
    {A : Type ℓ} (p : A → Bool) (k : ℕ) (xs : List A) (x : A)
    → k ≤ length xs
    → p x ≡ false
    → any_of p (drop k xs) ≡ false
    → any_of p (drop (suc k) (xs ++ x ∷ [])) ≡ false
none-drop-suc p zero [] x h e f = refl
none-drop-suc p (suc k) [] x h e f = absurd (omega arith)
none-drop-suc p zero (y ∷ ys) x h e f = none_append p ys x (ground arith) e
none-drop-suc p (suc k) (y ∷ ys) x h e f = none-drop-suc p k ys x (omega arith) e f

conclusive-append :
    (runs : List CaseRun) (run : CaseRun)
    → conclusive (runs ++ run ∷ [])
      ≡ (if is_conclusive run then conclusive runs ++ run ∷ [] else conclusive runs)
unfolding conclusive
conclusive-append [] run = ground arith
conclusive-append (x ∷ xs) run = ground (arith, conclusive-append xs run)

release_lost :
    (runs : List CaseRun) (run : CaseRun) (policy : FlakinessPolicy)
    → is_conclusive run ≡ true
    → has_failed run ≡ true
    → 0 < policy.stable_runs_to_release
    → earned_release (runs ++ run ∷ []) policy ≡ false
unfolding earned_release
release_lost runs run policy counts fails some_needed =
    rw (conclusive-append runs run) (rw counts (lost policy.stable_runs_to_release some_needed))
  where
    xs : List CaseRun
    xs = conclusive runs

    lost :
        (n : ℕ)
        → 0 < n
        → (if ltb (length (xs ++ run ∷ [])) n
            then false
            else not (any_of has_failed (last_runs n (xs ++ run ∷ []))))
          ≡ false
    lost zero h = absurd (omega arith)
    lost (suc n) h = ground (
      arith,
      length-append xs (run ∷ []),
      any_of-drop_last has_failed (length (xs ++ run ∷ []) - suc n) xs run,
    )

clean_last_runs :
    (n : ℕ) (xs : List CaseRun) (run : CaseRun)
    → has_failed run ≡ false
    → n ≤ length xs
    → any_of has_failed (last_runs n xs) ≡ false
    → any_of has_failed (last_runs n (xs ++ run ∷ [])) ≡ false
clean_last_runs zero xs run passes enough clean = none_append has_failed xs run clean passes
clean_last_runs (suc n) xs run passes enough clean =
    let one_more : length (xs ++ run ∷ []) - suc n ≡ suc (length xs - suc n) =
      omega (arith, length-append xs (run ∷ []), enough) in
    rw one_more (none-drop-suc has_failed (length xs - suc n) xs run (omega arith) passes clean)

release_kept :
    (runs : List CaseRun) (run : CaseRun) (policy : FlakinessPolicy)
    → (is_conclusive run && has_failed run) ≡ false
    → earned_release runs policy ≡ true
    → earned_release (runs ++ run ∷ []) policy ≡ true
unfolding earned_release
release_kept runs run policy passes earned =
    rw (conclusive-append runs run) (elim (Bool-cases (is_conclusive run)) [
      | inr skipped ↦ rw skipped earned
      | inl counts ↦
          let n : ℕ = policy.stable_runs_to_release in
          let xs : List CaseRun = conclusive runs in
          let enough : n ≤ length xs = ground arith in
          let clean : any_of has_failed (last_runs n xs) ≡ false = ground arith in
          let still = clean_last_runs n xs run (ground arith) enough clean in
          rw counts (ground (arith, still, length-append xs (run ∷ [])))
    ])

-- A conclusive run that failed takes the release away, and the entry is active or expired by its
-- deadline alone; the deadline itself is expired.
pub quarantine_state_failed :
    (entry : QuarantineEntry) (runs : List CaseRun) (run : CaseRun) (now : ℕ)
    (policy : FlakinessPolicy)
    → is_conclusive run ≡ true
    → has_failed run ≡ true
    → 0 < policy.stable_runs_to_release
    → quarantine_state entry (runs ++ run ∷ []) now policy
      ≡ (if ltb now (entry.opened_at + policy.quarantine_ttl) then active else expired)
unfolding quarantine_state
quarantine_state_failed entry runs run now policy counts fails some_needed =
    rw (release_lost runs run policy counts fails some_needed) (ground arith)

-- A released entry stays released, at any time, while the runs that come in pass or are skipped.
pub quarantine_state_released :
    (entry : QuarantineEntry) (runs : List CaseRun) (run : CaseRun) (now now' : ℕ)
    (policy : FlakinessPolicy)
    → (is_conclusive run && has_failed run) ≡ false
    → quarantine_state entry runs now policy ≡ released
    → quarantine_state entry (runs ++ run ∷ []) now' policy ≡ released
unfolding quarantine_state
quarantine_state_released entry runs run now now' policy passes before =
    let earned : earned_release runs policy ≡ true = ground arith in
    rw (release_kept runs run policy passes earned) refl
