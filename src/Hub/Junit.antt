-- ===== src/Hub/Junit.antt =====
-- services/quality-hub/src/quality_hub/junit.py: the reading of a report, and `runs_from_report` of
-- flakiness.py. The XML parser, `float`, `str.split` and `str.isupper` are of libraries and are
-- parameters; a duration is whatever `float` returns.
pub mod Cases
mod Examples
use Prim.Native.String.{◌++◌}
use slot.Prelude.{
  String, Bool, Option, none, some, List, [], ◌∷◌, ◌++◌ as append, map, str_eq, find_by, ℕ,
  if◌then◌else◌, Result, ok, err,
}
use slot.Hub.Flakiness.{CaseStatus, CaseRun}

-- A tree of XML: a tag, the attributes, the children.
mutual
  pub data Element : Type 0 where
    element : String → List (String × String) → Forest → Element

  pub data Forest : Type 0 where
    nil : Forest
    cons : Element → Forest → Forest

-- `Element.iter`: the elements with a tag, in the order of the document.
unfoldable mutual
  pub iter : String → Element → List Element
  iter tag (element t attributes children) =
      let rest = iter_all tag children in
      if str_eq t tag then element t attributes children ∷ rest else rest

  pub iter_all : String → Forest → List Element
  iter_all tag nil = []
  iter_all tag (cons e es) = append (iter tag e) (iter_all tag es)

-- Whether `Element.find` finds a child with the tag.
abbrev pub has_child : String → Forest → Bool
has_child tag nil = Bool.false
has_child tag (cons (element t attributes children) es) =
    let rest = has_child tag es in if str_eq t tag then Bool.true else rest

-- `Element.get`
abbrev pub get_attribute : String → Element → Option String
get_attribute name (element t attributes children) =
    elim (find_by (λ (a : String × String). str_eq a.0 name) attributes) [
      | none ↦ none
      | some (n, v) ↦ some v
    ]

abbrev pub text_or : String → Option String → String
text_or default none = default
text_or default (some s) = s

-- `STATUS_BY_TAG` and `_status_of`: the first tag that is there decides.
unfoldable pub status_of : Element → CaseStatus
status_of (element t attributes children) =
    if has_child "failure" children
    then CaseStatus.failed
    else if has_child "error" children
    then CaseStatus.error
    else if has_child "skipped" children
    then CaseStatus.skipped
    else CaseStatus.passed

-- Why a report cannot be read.
pub data JunitParseError : Type 0 where
  nameless_case bad_xml other_root : JunitParseError

pub record CaseResult (Seconds : Type 0) : Type 0 where
  pub classname : String
  pub name : String
  pub file : String
  pub status : CaseStatus
  pub duration : Seconds

pub record SuiteResult (Seconds : Type 0) : Type 0 where
  pub name : String
  pub cases : List (CaseResult Seconds)
  pub duration : Seconds

pub record Python (Seconds : Type 0) : Type 0 where
  pub fromstring : String → Option Element
  -- `none` for a `ValueError`
  pub float : String → Option Seconds
  -- 0.0
  pub no_time : Seconds
  -- `s.split(".")`
  pub split : String → List String
  -- `s[:1].isupper()`
  pub starts_upper : String → Bool

abbrev pub test_id : {Seconds : Type 0} → CaseResult Seconds → String
test_id c = c.classname ++ "::" ++ c.name

abbrev pub cases_of : {Seconds : Type 0} → List (SuiteResult Seconds) → List (CaseResult Seconds)
cases_of [] = []
cases_of (s ∷ ss) = append s.cases (cases_of ss)

-- What `tuple` of a generator comes to: the first error ends it.
abbrev pub collect :
    {A : Type 0}
    → Result JunitParseError A
    → Result JunitParseError (List A)
    → Result JunitParseError (List A)
collect (err x) rest = err x
collect (ok a) (err x) = err x
collect (ok a) (ok rest) = ok (a ∷ rest)

-- `"/".join`
abbrev pub join_path : List String → String
join_path [] = ""
join_path (p ∷ []) = p
join_path (p ∷ q ∷ ps) = p ++ "/" ++ join_path (q ∷ ps)

abbrev pub source_suffix : String
source_suffix = ".py"

module _ {Seconds : Type 0} (lib : Python Seconds) where
  open lib use {fromstring, float, no_time, split, starts_upper}

  -- The parts before the first that is empty or starts with an upper case letter.
  abbrev pub module_path : List String → List String
  module_path [] = []
  module_path (p ∷ ps) =
      let rest = module_path ps in
      if str_eq p "" then [] else if starts_upper p then [] else p ∷ rest

  unfoldable pub file_from_classname : String → String
  file_from_classname classname = elim (module_path (split classname)) [
    | [] ↦ ""
    | p ∷ ps ↦ join_path (p ∷ ps) ++ source_suffix
  ]

  abbrev pub seconds : Option String → Seconds
  seconds none = no_time
  seconds (some raw) = elim (float raw) [ none ↦ no_time | some s ↦ s ]

  -- `case.get("file") or file_from_classname(classname)`
  abbrev pub file_of : Option String → String → String
  file_of none classname = file_from_classname classname
  file_of (some file) classname = if str_eq file "" then file_from_classname classname else file

  unfoldable pub parse_case : Element → Result JunitParseError (CaseResult Seconds)
  parse_case e =
      let name = text_or "" (get_attribute "name" e) in
      let classname = text_or "" (get_attribute "classname" e) in
      if str_eq name ""
      then err nameless_case
      else ok (record {
        classname = classname;
        name = name;
        file = file_of (get_attribute "file" e) classname;
        status = status_of e;
        duration = seconds (get_attribute "time" e);
      })

  abbrev pub parse_cases : List Element → Result JunitParseError (List (CaseResult Seconds))
  parse_cases [] = ok []
  parse_cases (e ∷ es) = collect (parse_case e) (parse_cases es)

  abbrev pub suite_of :
      Element
      → Result JunitParseError (List (CaseResult Seconds))
      → Result JunitParseError (SuiteResult Seconds)
  suite_of e (err x) = err x
  suite_of e (ok cases) = ok (record {
    name = text_or "" (get_attribute "name" e);
    cases = cases;
    duration = seconds (get_attribute "time" e);
  })

  unfoldable pub parse_suite : Element → Result JunitParseError (SuiteResult Seconds)
  parse_suite e = suite_of e (parse_cases (iter "testcase" e))

  abbrev pub parse_suites : List Element → Result JunitParseError (List (SuiteResult Seconds))
  parse_suites [] = ok []
  parse_suites (e ∷ es) = collect (parse_suite e) (parse_suites es)

  abbrev pub parse_root : Element → Result JunitParseError (List (SuiteResult Seconds))
  parse_root (element t attributes children) =
      if str_eq t "testsuite"
      then parse_suites (element t attributes children ∷ [])
      else if str_eq t "testsuites"
      then parse_suites (iter "testsuite" (element t attributes children))
      else err other_root

  -- What follows the parser.
  abbrev pub parse_read : Option Element → Result JunitParseError (List (SuiteResult Seconds))
  parse_read none = err bad_xml
  parse_read (some root) = parse_root root

  unfoldable pub parse_report : String → Result JunitParseError (List (SuiteResult Seconds))
  parse_report xml = parse_read (fromstring xml)

-- `runs_from_report`, without the duration, which no rule reads.
unfoldable pub runs_from_report :
    {Seconds : Type 0} → List (SuiteResult Seconds) → String → String → ℕ → List CaseRun
runs_from_report suites commit branch attempt =
    map
      (λ c. record {
        test_id = test_id c;
        commit = commit;
        branch = branch;
        attempt = attempt;
        status = c.status;
      })
      (cases_of suites)
