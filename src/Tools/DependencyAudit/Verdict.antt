-- ===== src/Tools/DependencyAudit/Verdict.antt =====
-- When the audit lets a change pass.
use slot.Prelude.{
  ℕ, ◌+◌, ◌≤◌, String, ◌≡◌, ◌↔◌, ◌⊎◌, refl, inl, inr, Bool, true, false, not, List, [], ◌∷◌, subst,
  arith, ap, sym, Result-cases, any_of, select, All, Bool-cases, Result, ok, err,
}
use slot.Tools.AcceptedRisks.{AcceptedRisk, Problem, is_among}
use slot.Tools.DependencyAudit.{
  Finding, blocking_severities, grace_days, AuditError, judge, covers_finding, is_blocking, is_nil,
  unused_acceptances, exit_code, run, Status, LookupError, bad_json, uncaught, AuditExit, exits,
  raises, judgements, judged_exit,
}

-- A finding that need not be fixed today: accepted, or not rated as urgent and young enough.
abbrev pub IsTolerated : String → List AcceptedRisk → ℕ → Finding → Type 0
IsTolerated severity risks today f =
    (any_of (covers_finding f) risks ≡ true)
    ⊎ ((is_among blocking_severities severity ≡ false) × (today ≤ f.published + grace_days))

abbrev pub IsUsed : List Finding → AcceptedRisk → Type 0
IsUsed findings r = any_of (λ f. covers_finding f r) findings ≡ true

IsTolerated-judge :
    (severity : String) (risks : List AcceptedRisk) (today : ℕ) (f : Finding)
    → is_blocking (judge f severity risks today) ≡ false
    → IsTolerated severity risks today f
unfolding judge
IsTolerated-judge severity risks today f free =
    elim (Bool-cases (any_of (covers_finding f) risks)) [
      | inl covered ↦ inl covered
      | inr open_case ↦ inr (ground arith)
    ]

judge-IsTolerated :
    (severity : String) (risks : List AcceptedRisk) (today : ℕ) (f : Finding)
    → IsTolerated severity risks today f
    → is_blocking (judge f severity risks today) ≡ false
unfolding judge
judge-IsTolerated severity risks today f (inl covered) = ground arith
judge-IsTolerated severity risks today f (inr h) = ground arith

module _ {ℓ} {A : Type ℓ} where
  none_of-All {κ} :
      (P : A → Type κ) (p : A → Bool) (xs : List A)
      → ((x : A) → p x ≡ false → P x)
      → any_of p xs ≡ false
      → All P xs
  none_of-All P p [] f h = tt
  none_of-All P p (x ∷ xs) f h = (f x (ground arith), none_of-All P p xs f (ground arith))

  All-none_of {κ} :
      (P : A → Type κ) (p : A → Bool) (xs : List A)
      → ((x : A) → P x → p x ≡ false)
      → All P xs
      → any_of p xs ≡ false
  All-none_of P p [] f h = refl
  All-none_of P p (x ∷ xs) f h = ground (arith, f x h.0, All-none_of P p xs f h.1)

  select_none :
      (p : A → Bool) (xs : List A)
      → is_nil (select (λ x. not (p x)) xs) ≡ not (any_of (λ x. not (p x)) xs)
  select_none p [] = refl
  select_none p (x ∷ xs) = ground (arith, select_none p xs)

-- A finding whose severity was read, and which need not be fixed today.
abbrev pub IsSettled :
    (String → Result LookupError String) → List AcceptedRisk → ℕ → Finding → Type 0
IsSettled lookup risks today f =
    (severity : String) × (lookup f.advisory ≡ ok severity) × IsTolerated severity risks today f

ok_injective :
    {ss ts : List Status} → ◌≡◌ {A = Result LookupError (List Status)} (ok ss) (ok ts) → ss ≡ ts
ok_injective h = ap ok_value h
  where
    ok_value : Result LookupError (List Status) → List Status
    ok_value (ok ss) = ss
    ok_value (err e) = []

abbrev code_of : AuditExit → ℕ
code_of (exits n) = n
code_of raises = 1

module _ (lookup : String → Result LookupError String) (risks : List AcceptedRisk) (today : ℕ) where
  judgements-IsSettled :
      (findings : List Finding) (statuses : List Status)
      → judgements lookup findings risks today ≡ ok statuses
      → any_of is_blocking statuses ≡ false
      → All (IsSettled lookup risks today) findings
  unfolding judgements
  judgements-IsSettled [] statuses judged free = tt
  judgements-IsSettled (f ∷ fs) statuses judged free = elim (Result-cases (lookup f.advisory)) [
    | inr (e, failed) ↦ absurd (cc (rw (failed, judgements) at judged))
    | inl (severity, known) ↦ elim (Result-cases (judgements lookup fs risks today)) [
      | inr (e, failed) ↦ absurd (cc (rw (known, failed, judgements) at judged))
      | inl (rest, later) ↦
          let all = ok_injective (rw (known, later, judgements) at judged) in
          let free' = subst (λ ss. any_of is_blocking ss ≡ false) (sym all) free in
          (
            (severity, known, IsTolerated-judge severity risks today f (ground (arith, free'))),
            judgements-IsSettled fs rest later (ground (arith, free')),
          )
    ]
  ]

  IsSettled-judgements :
      (findings : List Finding)
      → All (IsSettled lookup risks today) findings
      → (statuses : List Status) × (judgements lookup findings risks today ≡ ok statuses)
        × (any_of is_blocking statuses ≡ false)
  unfolding judgements
  IsSettled-judgements [] settled = ([], refl, refl)
  IsSettled-judgements (f ∷ fs) ((severity, known, tolerated), others) =
      let (rest, later, free) = IsSettled-judgements fs others in
      (
        judge f severity risks today ∷ rest,
        rw (known, later, judgements) refl,
        rw (judge-IsTolerated severity risks today f tolerated) free,
      )

  -- What the policy asks of a change (ADR-0018).
  abbrev pub Passes : List Finding → Type 0
  Passes findings = All (IsSettled lookup risks today) findings × All (IsUsed findings) risks

  exit_code-zero :
      (statuses : List Status) (findings : List Finding)
      → exit_code statuses findings risks ≡ 0
      → (any_of is_blocking statuses ≡ false) × All (IsUsed findings) risks
  unfolding exit_code unused_acceptances
  exit_code-zero statuses findings passes =
      let used = λ (r : AcceptedRisk). any_of (λ f. covers_finding f r) findings in
      let nil = select_none used risks in
      (
        ground (arith, nil),
        none_of-All (IsUsed findings) (λ r. not (used r)) risks (λ r h. ground arith)
            (ground (arith, nil)),
      )

  zero-exit_code :
      (statuses : List Status) (findings : List Finding)
      → any_of is_blocking statuses ≡ false
      → All (IsUsed findings) risks
      → exit_code statuses findings risks ≡ 0
  unfolding exit_code unused_acceptances
  zero-exit_code statuses findings free all_used =
      let used = λ (r : AcceptedRisk). any_of (λ f. covers_finding f r) findings in
      ground (
        arith,
        select_none used risks,
        All-none_of (IsUsed findings) (λ r. not (used r)) risks (λ r h. ground arith) all_used,
      )

  judged_zero :
      (findings : List Finding) (judged : Result LookupError (List Status))
      → judgements lookup findings risks today ≡ judged
      → judged_exit judged findings risks ≡ exits 0
      → Passes findings
  judged_zero findings (err bad_json) is h = absurd (ground (arith, ap code_of h))
  judged_zero findings (err uncaught) is h = absurd (cc h)
  judged_zero findings (ok statuses) is h =
      let (free, all_used) = exit_code-zero statuses findings (ap code_of h) in
      (judgements-IsSettled findings statuses is free, all_used)

  Passes-zero :
      (findings : List Finding)
      → Passes findings
      → judged_exit (judgements lookup findings risks today) findings risks ≡ exits 0
  Passes-zero findings (settled, all_used) =
      let (statuses, judged, free) = IsSettled-judgements findings settled in
      rw judged (ap exits (zero-exit_code statuses findings free all_used))

-- The audit exits with 0 exactly if the list of accepted risks has no problem, every project could
-- be audited, the severity of each finding could be read, also of an accepted one, each finding is
-- accepted by a risk or is neither urgent nor older than thirty days, and each accepted risk is
-- still reported.
pub run_iff :
    (risks : List AcceptedRisk) (problems : List (ℕ × Problem))
    (found : Result AuditError (List Finding)) (lookup : String → Result LookupError String)
    (today : ℕ)
    → (run (risks, problems) found lookup today ≡ exits 0) ↔ (
        (problems ≡ [])
        × ((findings : List Finding) × (found ≡ ok findings) × Passes lookup risks today findings))
unfolding run
run_iff risks (p ∷ ps) found lookup today =
    ((λ h. absurd (ground (arith, ap code_of h))), (λ h. absurd (cc (h.0))))
run_iff risks [] (err e) lookup today = (
  (λ h. absurd (ground (arith, ap code_of h))),
  (λ (_, (findings, found, _)). absurd (cc (found))),
)
run_iff risks [] (ok findings) lookup today = (
  (λ h. (refl, (findings, refl, judged_zero lookup risks today findings _ refl h))),
  (λ (_, (others, same, passes)).
      let eq : others ≡ findings = cc (same) in
      Passes-zero lookup risks today findings (subst (Passes lookup risks today) eq passes)),
)
