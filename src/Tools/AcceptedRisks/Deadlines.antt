-- ===== src/Tools/AcceptedRisks/Deadlines.antt =====
-- What a list of accepted risks with no problem comes to, and how long a risk may be accepted.
use text.Mathlib.Text.{starts_with}
use slot.Prelude.{
  ℕ, suc, ◌+◌, ◌≤◌, ◌<◌, String, ◌≡◌, refl, ap, inl, inr, true, false, Option, none, some, List, [],
  ◌∷◌, ◌++◌, arith, text_length, any_of, All, All-map, length, if◌then◌else◌, Bool-cases,
}
use slot.Tools.AcceptedRisks.{
  TomlValue, Entry, table, no_table, accepted, Problem, max_days, max_days_without_fix,
  min_reason_chars, AcceptedRisk, field_problems, content_problems, risk_of, at_position,
  is_same_advisory, check_risk, check_fields, check_entry, keep, parse_entries, parse,
}

-- What ADR-0018 asks of an acceptance.
pub record IsDecision (strip : String → String) (today : ℕ) (risk : AcceptedRisk) : Type 0 where
  pub reason : min_reason_chars ≤ text_length (strip risk.reason)
  pub link : starts_with risk.link "https://" ≡ true
  pub order : risk.added < risk.until
  pub limit : risk.until ≤ risk.added + (if risk.no_fix then max_days_without_fix else max_days)
  pub lasts : today ≤ risk.until

-- No advisory is accepted twice in one package.
abbrev pub Distinct : List AcceptedRisk → Type 0
Distinct [] = Unit
Distinct (r ∷ rs) = All (λ q. is_same_advisory q r ≡ false) rs × Distinct rs

append-eq-nil {ℓ} : {A : Type ℓ} (xs ys : List A) → xs ++ ys ≡ [] → (xs ≡ []) × (ys ≡ [])
append-eq-nil [] ys e = (refl, e)
append-eq-nil (x ∷ xs) ys e = absurd (cc)

at_position_clean : (n : ℕ) (ps : List Problem) → at_position n ps ≡ [] → ps ≡ []
at_position_clean n [] e = refl
at_position_clean n (p ∷ ps) e = absurd (cc)

module _ (strip : String → String) where
  content_problems-IsDecision :
      (risk : AcceptedRisk) (today : ℕ)
      → content_problems strip risk today ≡ []
      → IsDecision strip today risk
  unfolding content_problems
  content_problems-IsDecision risk today clean = record {
    reason = ground arith;
    link = ground arith;
    order = ground arith;
    limit = ground arith;
    lasts = ground arith;
  }

  -- The entry gives its risk, and the risk is a decision that no earlier entry has made.
  abbrev Adds : Option AcceptedRisk → ℕ → List AcceptedRisk → Type 0
  Adds none today seen = ⊥
  Adds (some r) today seen = IsDecision strip today r × (any_of (is_same_advisory r) seen ≡ false)

  check_risk-Adds :
      (risk : AcceptedRisk) (today : ℕ) (seen : List AcceptedRisk)
      → (check_risk strip risk today seen).1 ≡ []
      → Adds (check_risk strip risk today seen).0 today seen
  check_risk-Adds risk today seen clean = elim (Bool-cases (any_of (is_same_advisory risk) seen)) [
    | inl again ↦ absurd (ground (arith, again))
    | inr new ↦ rw new (content_problems-IsDecision risk today (ground arith), new)
  ]

  check_fields-Adds :
      (ps : List Problem) (raw : List (String × TomlValue)) (today : ℕ) (seen : List AcceptedRisk)
      → (check_fields strip ps raw today seen).1 ≡ []
      → Adds (check_fields strip ps raw today seen).0 today seen
  check_fields-Adds [] raw today seen clean = check_risk-Adds (risk_of raw) today seen clean
  check_fields-Adds (p ∷ ps) raw today seen clean = absurd (cc)

  check_entry-Adds :
      (e : Entry) (today : ℕ) (seen : List AcceptedRisk)
      → (check_entry strip e today seen).1 ≡ []
      → Adds (check_entry strip e today seen).0 today seen
  unfolding check_entry
  check_entry-Adds no_table today seen clean = absurd (cc)
  check_entry-Adds (table raw) today seen clean =
      check_fields-Adds (field_problems strip raw) raw today seen clean

  abbrev Decides : ℕ → List AcceptedRisk → List AcceptedRisk → ℕ → Type 0
  Decides today seen rs n =
      All (λ r. IsDecision strip today r × (any_of (is_same_advisory r) seen ≡ false)) rs
      × Distinct rs
      × (length rs ≡ n)

  keep-Decides :
      (o : Option AcceptedRisk) (today : ℕ) (seen rs : List AcceptedRisk) (n : ℕ)
      → Adds o today seen
      → Decides today (keep o seen) rs n
      → Decides today seen (keep o rs) (suc n)
  keep-Decides none today seen rs n adds h = absurd adds
  keep-Decides (some r) today seen rs n adds h = (
    (adds, All-map rs (λ q (decision, new). (decision, ground (arith, new))) h.0),
    (All-map rs (λ q (decision, new). ground (arith, new)) h.0, h.1),
    ap suc h.2,
  )

  parse_entries-Decides :
      (es : List Entry) (position today : ℕ) (seen : List AcceptedRisk)
      → (parse_entries strip es position today seen).1 ≡ []
      → Decides today seen (parse_entries strip es position today seen).0 (length es)
  unfolding parse_entries
  parse_entries-Decides [] position today seen clean = (tt, tt, refl)
  parse_entries-Decides (e ∷ es) position today seen clean =
      let checked = check_entry strip e today seen in
      let parts = append-eq-nil (at_position position checked.1) _ clean in
      let adds = check_entry-Adds e today seen (at_position_clean position checked.1 parts.0) in
      keep-Decides checked.0 today seen _ (length es) adds
        (parse_entries-Decides es (suc position) today (keep checked.0 seen) parts.1)

  -- A list in which `parse` finds no problem gives one risk for each entry, no advisory of a package
  -- twice, and every risk has a reason and a link of the form that is asked for, a deadline after
  -- its date by at most ninety days, or thirty without a fix, and has not expired.
  pub parse_clean :
      (es : List Entry) (today : ℕ)
      → (parse strip (accepted es) today).1 ≡ []
      → let risks = (parse strip (accepted es) today).0 in
        All (IsDecision strip today) risks × Distinct risks × (length risks ≡ length es)
  unfolding parse
  parse_clean es today clean =
      let h = parse_entries-Decides es 1 today [] clean in (All-map _ (λ r d. d.0) h.0, h.1, h.2)
