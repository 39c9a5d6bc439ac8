-- ===== src/Hub/Junit/Examples.antt =====
-- The theorem about reports at a concrete input: a suite of two cases, the second of which failed.
use slot.Prelude.{String, ◌≡◌, refl, none, some, [], ◌∷◌, str_eq, if◌then◌else◌, ok}
use slot.Hub.Flakiness.{CaseStatus}
use slot.Hub.Junit.{
  element, Forest, nil, cons, iter, Python, file_from_classname, status_of, parse_case, parse_cases,
  parse_report,
}
use slot.Hub.Junit.Cases.{all_cases, parse_report_flat}

abbrev cases : Forest
cases = cons (element "testcase" (("name", "t1") ∷ ("classname", "tests.test_a.TestA") ∷ []) nil) (
    cons
      (element "testcase" (("name", "t2") ∷ ("classname", "tests.test_a.TestA") ∷ [])
        (cons (element "failure" [] nil) nil))
      nil)

abbrev suites : Forest
suites = cons (element "testsuite" (("name", "pytest") ∷ []) cases) nil

abbrev lib : Python String
lib = record {
  fromstring = λ xml. if str_eq xml "" then none else some (element "testsuites" [] suites);
  float = λ s. some s;
  no_time = "0.0";
  split = λ s. "tests" ∷ "test_a" ∷ "TestA" ∷ [];
  starts_upper = λ s. str_eq s "TestA";
}

parse_report_flat_example :
    all_cases lib (parse_report lib "<testsuites/>")
    ≡ parse_cases lib (iter "testcase" (element "testsuites" [] suites))
unfolding iter
parse_report_flat_example = parse_report_flat lib "<testsuites/>" [] suites refl (refl, refl, tt)

read :
    (parse_cases lib (iter "testcase" (element "testsuites" [] suites)))
    ≡ ok (
        record {
          classname = "tests.test_a.TestA";
          name = "t1";
          file = "tests/test_a.py";
          status = CaseStatus.passed;
          duration = "0.0";
        }
        ∷ record {
          classname = "tests.test_a.TestA";
          name = "t2";
          file = "tests/test_a.py";
          status = CaseStatus.failed;
          duration = "0.0";
        }
        ∷ [])
unfolding iter parse_case status_of file_from_classname
read = refl
