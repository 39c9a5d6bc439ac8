-- ===== src/Tools/DependencyAudit.antt =====
-- tools/dependency_audit.py: known vulnerabilities against the accepted risks. `uv audit`, the OSV
-- lookup of a severity and the parser of dates are parameters; the report file, the printed lines
-- and the texts of explanations are left out. A date is its ordinal.
pub mod Verdict
pub mod Aliases
use Prim.Native.String.{◌++◌}
use text.Mathlib.Text.{starts_with}
use slot.Prelude.{
  ℕ, ◌+◌, String, Bool, true, false, not, ◌&&◌, ◌||◌, Option, none, some, List, [], ◌∷◌,
  ◌++◌ as append, map, ltb, text_leb, sort_texts, str_eq, any_of, select, find_by, count_if,
  if◌then◌else◌, Result, ok, err, take_text,
}
use slot.Tools.AcceptedRisks.{AcceptedRisk, Problem, is_among, covers}

abbrev pub blocking_severities : List String
blocking_severities = "CRITICAL" ∷ "HIGH" ∷ "UNKNOWN" ∷ []

abbrev pub grace_days : ℕ
grace_days = 30

abbrev pub osv_url : String
osv_url = "https://api.osv.dev/v1/vulns/"

pub record Finding : Type 0 where
  pub project : String
  pub package_name : String
  pub version : String
  pub advisory : String
  pub aliases : List String
  pub summary : String
  pub fix_versions : List String
  pub published : ℕ
  pub link : String

-- `Finding.identifiers`
abbrev pub identifiers : Finding → List String
identifiers f = f.advisory ∷ f.aliases

pub data Status : Type 0 where
  blocks reported is_accepted : Status

-- Why `audit_project`, `findings_of` or the lookup fails.
pub data AuditError : Type 0 where
  audit_failed no_json bad_format bad_date : AuditError

-- An entry of the report, with the fields that may be missing.
pub record RawVulnerability : Type 0 where
  pub name : String
  pub version : String
  pub id : String
  pub aliases : List String
  pub summary : Option String
  pub description : Option String
  pub fix_versions : List String
  pub published : String
  pub link : Option String

abbrev pub is_cve : String → Bool
is_cve name = starts_with name "CVE-"

-- `cves[0] if cves else advisory`
abbrev pub first_or : String → List String → String
first_or default [] = default
first_or default (s ∷ ss) = s

unfoldable pub canonical_key : String → List String → String
canonical_key advisory aliases = first_or advisory (sort_texts (select is_cve (advisory ∷ aliases)))

unfoldable pub preferred : Finding → Finding → Finding
preferred left right = if starts_with right.advisory "GHSA-" then right else left

abbrev pub or_text : Option String → String → String
or_text none default = default
or_text (some s) default = if str_eq s "" then default else s

-- Two findings stand for one vulnerability: the key of the dictionary `best`.
abbrev pub same_vulnerability : Finding → Finding → Bool
same_vulnerability a b =
    str_eq a.package_name b.package_name
    && str_eq a.version b.version
    && str_eq (canonical_key a.advisory a.aliases) (canonical_key b.advisory b.aliases)

-- The dictionary `best`: each key with its finding, in the order of insertion. The key stays that of
-- the record which came first.
pub record Slot : Type 0 where
  pub key : Finding
  pub best : Finding

unfoldable pub put_best : Finding → List Slot → List Slot
put_best f [] = record { key = f; best = f } ∷ []
put_best f (s ∷ ss) =
    let rest = s ∷ put_best f ss in
    if same_vulnerability s.key f then record s { best = preferred s.best f } ∷ ss else rest

-- `sorted` by the package and the advisory
abbrev pub finding_leb : Finding → Finding → Bool
finding_leb a b =
    if str_eq a.package_name b.package_name
    then text_leb a.advisory b.advisory
    else text_leb a.package_name b.package_name

abbrev pub insert_finding : Finding → List Finding → List Finding
insert_finding f [] = f ∷ []
insert_finding f (g ∷ gs) =
    let rest = g ∷ gs in
    let later = g ∷ insert_finding f gs in if finding_leb f g then f ∷ rest else later

abbrev pub sort_findings : List Finding → List Finding
sort_findings [] = []
sort_findings (f ∷ fs) = insert_finding f (sort_findings fs)

-- The rest of `judge` for a finding that nobody has accepted.
abbrev pub judge_open : Finding → String → ℕ → Status
judge_open finding severity today =
    if is_among blocking_severities severity
    then blocks
    else if ltb (finding.published + grace_days) today
    then blocks
    else reported

abbrev pub covers_finding : Finding → AcceptedRisk → Bool
covers_finding f risk = covers risk f.package_name (identifiers f)

unfoldable pub judge : Finding → String → List AcceptedRisk → ℕ → Status
judge finding severity risks today =
    if any_of (covers_finding finding) risks then is_accepted else judge_open finding severity today

unfoldable pub unused_acceptances : List AcceptedRisk → List Finding → List AcceptedRisk
unused_acceptances risks findings =
    select (λ r. not (any_of (λ f. covers_finding f r) findings)) risks

abbrev pub is_blocking : Status → Bool
is_blocking blocks = true
is_blocking reported = false
is_blocking is_accepted = false

abbrev pub is_nil {ℓ} : {A : Type ℓ} → List A → Bool
is_nil [] = true
is_nil (x ∷ xs) = false

-- `date.fromisoformat`, `none` for a `ValueError`
module _ (from_isoformat : String → Option ℕ) where
  -- `published_date` is that of the first ten characters.
  abbrev pub finding_of : String → RawVulnerability → Result AuditError Finding
  finding_of project raw = elim (from_isoformat (take_text 10 raw.published)) [
    | none ↦ err bad_date
    | some day ↦ ok (record {
      project = project;
      package_name = raw.name;
      version = raw.version;
      advisory = raw.id;
      aliases = raw.aliases;
      summary = or_text raw.summary (or_text raw.description "");
      fix_versions = raw.fix_versions;
      published = day;
      link = or_text raw.link (osv_url ++ raw.id);
    })
  ]

  unfoldable pub gather : String → List RawVulnerability → List Slot → Result AuditError (List Slot)
  gather project [] slots = ok slots
  gather project (raw ∷ raws) slots = elim (finding_of project raw) [
    | err e ↦ err e
    | ok f ↦ gather project raws (put_best f slots)
  ]

  -- `findings_of`, from the vulnerabilities of the report, or `none` where its format has changed.
  unfoldable pub findings_of :
      String → Option (List RawVulnerability) → Result AuditError (List Finding)
  findings_of project none = err bad_format
  findings_of project (some raws) = elim (gather project raws []) [
    | err e ↦ err e
    | ok slots ↦ ok (sort_findings (map (λ (s : Slot). s.best) slots))
  ]

  -- `collect`, with the outcome of `audit_project` for each project.
  unfoldable pub collect :
      (String → Result AuditError (Option (List RawVulnerability)))
      → List String
      → Result AuditError (List Finding)
  collect audit [] = ok []
  collect audit (p ∷ ps) =
      let rest = collect audit ps in
      elim (audit p) [
        | err e ↦ err e
        | ok report ↦ elim (findings_of p report) [
          | err e ↦ err e
          | ok found ↦ elim rest [ err e ↦ err e | ok more ↦ ok (append found more) ]
        ]
      ]

-- What `osv_severity` may raise: the `ValueError` of an answer that is no JSON, which `main`
-- catches, and the errors of the exchange and of JSON of another shape, which it does not.
pub data LookupError : Type 0 where
  bad_json uncaught : LookupError

-- How `main` ends: with an exit code, or with an error that is not caught.
pub data AuditExit : Type 0 where
  exits : ℕ → AuditExit
  raises : AuditExit

-- The judgements of `run`: every finding is looked up, an accepted one too.
unfoldable pub judgements :
    (String → Result LookupError String)
    → List Finding
    → List AcceptedRisk
    → ℕ
    → Result LookupError (List Status)
judgements lookup [] risks today = ok []
judgements lookup (f ∷ fs) risks today =
    let rest = judgements lookup fs risks today in
    elim (lookup f.advisory) [
      | err e ↦ err e
      | ok severity ↦ elim rest [
        | err e ↦ err e
        | ok statuses ↦ ok (judge f severity risks today ∷ statuses)
      ]
    ]

-- The exit code of `run` on the judgements.
unfoldable pub exit_code : List Status → List Finding → List AcceptedRisk → ℕ
exit_code statuses findings risks =
    if any_of is_blocking statuses || not (is_nil (unused_acceptances risks findings)) then 1 else 0

abbrev pub judged_exit :
    Result LookupError (List Status) → List Finding → List AcceptedRisk → AuditExit
judged_exit (err bad_json) findings risks = exits 1
judged_exit (err uncaught) findings risks = raises
judged_exit (ok statuses) findings risks = exits (exit_code statuses findings risks)

-- `run` and the `ValueError` that `main` catches; the lists of `load` come first.
unfoldable pub run :
    List AcceptedRisk × List (ℕ × Problem)
    → Result AuditError (List Finding)
    → (String → Result LookupError String)
    → ℕ
    → AuditExit
run (risks, p ∷ ps) found lookup today = exits 1
run (risks, []) (err e) lookup today = exits 1
run (risks, []) (ok findings) lookup today =
    judged_exit (judgements lookup findings risks today) findings risks
