-- ===== src/Tools/Examples.antt =====
-- The theorems about the scripts at concrete inputs.
use slot.Prelude.{
  String, ◌≡◌, refl, Option, none, some, List, [], ◌∷◌, length, All, ◌↔◌, Result, ok, str_eq,
  if◌then◌else◌, ℕ,
}
use slot.Tools.AcceptedRisks.{
  TomlValue, string, plain_date, Entry, table, accepted, covers, Problem, risk_of, parse,
  parse_entries, check_entry, content_problems, field_problems,
}
use slot.Tools.AcceptedRisks.Deadlines.{IsDecision, Distinct, parse_clean}
use slot.Tools.DependencyAudit.{
  Finding, RawVulnerability, AuditError, LookupError, exits, judgements, run, exit_code, judge,
  unused_acceptances, findings_of, gather, put_best, preferred, canonical_key,
}
use slot.Tools.DependencyAudit.Verdict.{Passes, run_iff}

-- Texts without blanks at their ends.
abbrev strip : String → String
strip s = s

abbrev fields : List (String × TomlValue)
fields =
    ("id", string "CVE-2026-1")
    ∷ ("package", string "starlette")
    ∷ ("reason", string "The parser of ranges is never reached: no route of ours serves a file.")
    ∷ ("owner", string "platform")
    ∷ ("link", string "https://tracker/7")
    ∷ ("added", plain_date 100)
    ∷ ("until", plain_date 180)
    ∷ []

abbrev entries : List Entry
entries = table fields ∷ []

parse_clean_example :
    let risks = (parse strip (accepted entries) 110).0 in
    All (IsDecision strip 110) risks × Distinct risks × (length risks ≡ length entries)
unfolding parse parse_entries check_entry content_problems field_problems
parse_clean_example = parse_clean strip entries 110 refl

raw : RawVulnerability
raw = record {
  name = "starlette";
  version = "1.0";
  id = "GHSA-9";
  aliases = "CVE-2026-1" ∷ [];
  summary = none;
  description = some "a range that never ends";
  fix_versions = [];
  published = "2026-01-05T10:00:00Z";
  link = none;
}

-- The same vulnerability under another name.
again : RawVulnerability
again = record raw { id = "PYSEC-9" }

abbrev dates : String → Option ℕ
dates s = if str_eq s "2026-01-05" then some 90 else none

abbrev found : Result AuditError (List Finding)
found = findings_of dates "booking" (some (raw ∷ again ∷ []))

abbrev finding : Finding
finding = record {
  project = "booking";
  package_name = "starlette";
  version = "1.0";
  advisory = "GHSA-9";
  aliases = "CVE-2026-1" ∷ [];
  summary = "a range that never ends";
  fix_versions = [];
  published = 90;
  link = "https://api.osv.dev/v1/vulns/GHSA-9";
}

found_once : found ≡ ok (finding ∷ [])
unfolding findings_of gather put_best preferred canonical_key raw again
found_once = refl

abbrev audited : Result AuditError (List Finding)
audited = ok (finding ∷ [])

abbrev no_problems : List (ℕ × Problem)
no_problems = []

abbrev rated : String → Result LookupError String
rated advisory = ok "HIGH"

run_iff_example : (run (risk_of fields ∷ [], no_problems) audited rated 110 ≡ exits 0) ↔ (
    (no_problems ≡ [])
    × ((findings : List Finding) × (audited ≡ ok findings)
        × Passes rated (risk_of fields ∷ []) 110 findings))
run_iff_example = run_iff (risk_of fields ∷ []) no_problems audited rated 110

accepted_passes : run (risk_of fields ∷ [], []) audited rated 110 ≡ exits 0
unfolding run judgements exit_code judge covers unused_acceptances
accepted_passes = refl
