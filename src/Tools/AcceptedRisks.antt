-- ===== src/Tools/AcceptedRisks.antt =====
-- tools/accepted_risks.py: the list of accepted security risks.
-- A date is its ordinal, a number of days. `tomllib` is of Python's library: a document is what it
-- returns. So is `str.strip`, a parameter. A problem is a value in place of a text for people, with
-- the position of its entry.
pub mod Deadlines
use Prim.Native.String.{◌++◌}
use text.Mathlib.Text.{starts_with}
use slot.Prelude.{
  ℕ, suc, ◌+◌, ◌-◌, String, Bool, true, false, not, ◌&&◌, ◌||◌, Option, none, some, List, [], ◌∷◌,
  ◌++◌ as append, map, leb, ltb, str_eq, text_length, sort_texts, any_of, select, find_by,
  if◌then◌else◌,
}

-- A value of TOML.
pub data TomlValue : Type 0 where
  string : String → TomlValue
  plain_date : ℕ → TomlValue
  timestamp : TomlValue
  boolean : Bool → TomlValue
  other : TomlValue

-- What stands in the list `accepted`.
pub data Entry : Type 0 where
  table : List (String × TomlValue) → Entry
  no_table : Entry

pub data Document : Type 0 where
  accepted : List Entry → Document
  no_list : Document

pub data Problem : Type 0 where
  unknown_field not_text not_date : String → Problem
  not_boolean not_a_list not_a_table twice : Problem
  short_reason bad_link until_not_after too_long has_expired : Problem

abbrev pub max_days : ℕ
max_days = 90

abbrev pub max_days_without_fix : ℕ
max_days_without_fix = 30

abbrev pub min_reason_chars : ℕ
min_reason_chars = 60

abbrev pub text_fields : List String
text_fields = "id" ∷ "package" ∷ "reason" ∷ "owner" ∷ "link" ∷ []

abbrev pub date_fields : List String
date_fields = "added" ∷ "until" ∷ []

abbrev pub known_fields : List String
known_fields = append text_fields (append date_fields ("no_fix" ∷ []))

pub record AcceptedRisk : Type 0 where
  pub id : String
  pub package_name : String
  pub reason : String
  pub owner : String
  pub added : ℕ
  pub until : ℕ
  pub link : String
  pub no_fix : Bool

abbrev pub is_among : List String → String → Bool
is_among names name = any_of (λ n. str_eq n name) names

-- `AcceptedRisk.covers`
unfoldable pub covers : AcceptedRisk → String → List String → Bool
covers risk package_name identifiers =
    str_eq risk.package_name package_name && is_among identifiers risk.id

abbrev pub get_value : String → List (String × TomlValue) → Option TomlValue
get_value name raw = elim (find_by (λ (f : String × TomlValue). str_eq f.0 name) raw) [
  | none ↦ none
  | some (n, v) ↦ some v
]

-- `raw[name]` at its type; the default is never read once `field_problems` has found nothing.
abbrev pub text_at : String → List (String × TomlValue) → String
text_at name raw = elim (get_value name raw) [
  | none ↦ ""
  | some v ↦ elim v [ string s ↦ s | _ ↦ "" ]
]

abbrev pub date_at : String → List (String × TomlValue) → ℕ
date_at name raw = elim (get_value name raw) [
  | none ↦ 0
  | some v ↦ elim v [ plain_date d ↦ d | _ ↦ 0 ]
]

-- `raw.get("no_fix", False)`
abbrev pub flag_at : String → List (String × TomlValue) → Bool
flag_at name raw = elim (get_value name raw) [
  | none ↦ false
  | some v ↦ elim v [ boolean b ↦ b | _ ↦ false ]
]

abbrev pub is_plain_date : Option TomlValue → Bool
is_plain_date none = false
is_plain_date (some v) = elim v [ plain_date d ↦ true | _ ↦ false ]

abbrev pub is_boolean_or_missing : Option TomlValue → Bool
is_boolean_or_missing none = true
is_boolean_or_missing (some v) = elim v [ boolean b ↦ true | _ ↦ false ]

abbrev pub when_bad : Bool → Problem → List Problem → List Problem
when_bad true p rest = p ∷ rest
when_bad false p rest = rest

abbrev pub risk_of : List (String × TomlValue) → AcceptedRisk
risk_of raw = record {
  id = text_at "id" raw;
  package_name = text_at "package" raw;
  reason = text_at "reason" raw;
  owner = text_at "owner" raw;
  added = date_at "added" raw;
  until = date_at "until" raw;
  link = text_at "link" raw;
  no_fix = flag_at "no_fix" raw;
}

abbrev pub at_position : ℕ → List Problem → List (ℕ × Problem)
at_position position = map (λ p. (position, p))

abbrev pub is_same_advisory : AcceptedRisk → AcceptedRisk → Bool
is_same_advisory a b = str_eq a.id b.id && str_eq a.package_name b.package_name

abbrev pub keep : Option AcceptedRisk → List AcceptedRisk → List AcceptedRisk
keep none risks = risks
keep (some r) risks = r ∷ risks

module _ (strip : String → String) where
  abbrev pub is_filled_text : Option TomlValue → Bool
  is_filled_text none = false
  is_filled_text (some v) = elim v [ string s ↦ not (str_eq (strip s) "") | _ ↦ false ]

  unfoldable pub field_problems : List (String × TomlValue) → List Problem
  field_problems raw =
      let unknown = sort_texts (select (λ n. not (is_among known_fields n)) (map (λ f. f.0) raw)) in
      let texts = select (λ n. not (is_filled_text (get_value n raw))) text_fields in
      let dates = select (λ n. not (is_plain_date (get_value n raw))) date_fields in
      append (map unknown_field unknown) (
        append (map not_text texts) (
          append (map not_date dates)
            (when_bad (not (is_boolean_or_missing (get_value "no_fix" raw))) not_boolean [])))

  -- The problems of a deadline, after the early return.
  abbrev pub deadline_problems : AcceptedRisk → ℕ → List Problem
  deadline_problems risk today =
      let limit = if risk.no_fix then max_days_without_fix else max_days in
      if leb risk.until risk.added
      then until_not_after ∷ []
      else when_bad (ltb limit (risk.until - risk.added)) too_long
          (when_bad (ltb risk.until today) has_expired [])

  unfoldable pub content_problems : AcceptedRisk → ℕ → List Problem
  content_problems risk today =
      when_bad (ltb (text_length (strip risk.reason)) min_reason_chars) short_reason
        (when_bad (not (starts_with risk.link "https://")) bad_link (deadline_problems risk today))

  -- What an entry with well-formed fields adds; `seen` holds the risks before it.
  abbrev pub check_risk : AcceptedRisk → ℕ → List AcceptedRisk → Option AcceptedRisk × List Problem
  check_risk risk today seen =
      if any_of (is_same_advisory risk) seen
      then (none, twice ∷ [])
      else (some risk, content_problems risk today)

  abbrev pub check_fields :
      List Problem
      → List (String × TomlValue)
      → ℕ
      → List AcceptedRisk
      → Option AcceptedRisk × List Problem
  check_fields [] raw today seen = check_risk (risk_of raw) today seen
  check_fields (p ∷ ps) raw today seen = (none, p ∷ ps)

  unfoldable pub check_entry : Entry → ℕ → List AcceptedRisk → Option AcceptedRisk × List Problem
  check_entry no_table today seen = (none, not_a_table ∷ [])
  check_entry (table raw) today seen = check_fields (field_problems raw) raw today seen

  -- The loop of `parse`; `seen` are the risks kept so far, the last first.
  unfoldable pub parse_entries :
      List Entry → ℕ → ℕ → List AcceptedRisk → List AcceptedRisk × List (ℕ × Problem)
  parse_entries [] position today seen = ([], [])
  parse_entries (e ∷ es) position today seen =
      let checked = check_entry e today seen in
      let rest = parse_entries es (suc position) today (keep checked.0 seen) in
      (keep checked.0 rest.0, append (at_position position checked.1) rest.1)

  unfoldable pub parse : Document → ℕ → List AcceptedRisk × List (ℕ × Problem)
  parse no_list today = ([], (0, not_a_list) ∷ [])
  parse (accepted es) today = parse_entries es 1 today []
