-- ===== src/Hub/Junit/Cases.antt =====
-- Which cases of a report are read.
use slot.Prelude.{
  String, ◌≡◌, refl, List, [], ◌∷◌, ◌++◌, some, Result, ok, err, ◌∙◌, sym, ap, subst,
}
use slot.Hub.Junit.{
  Element, element, Forest, nil, cons, iter, iter_all, JunitParseError, CaseResult, SuiteResult,
  Python, cases_of, parse_case, parse_cases, collect, suite_of, parse_suite, parse_suites,
  parse_read, parse_report,
}

-- Every element of a forest is a suite, with no suite inside.
abbrev pub IsFlat : Forest → Type 0
IsFlat nil = Unit
IsFlat (cons (element t attributes children) es) =
    (t ≡ "testsuite") × (iter_all "testsuite" children ≡ []) × IsFlat es

append-nil : {A : Type 0} (xs : List A) → xs ++ [] ≡ xs
append-nil [] = refl
append-nil (x ∷ xs) = rw (append-nil xs) refl

module _ {Seconds : Type 0} (lib : Python Seconds) where
  -- Two readings one after the other: the first error counts.
  both :
      Result JunitParseError (List (CaseResult Seconds))
      → Result JunitParseError (List (CaseResult Seconds))
      → Result JunitParseError (List (CaseResult Seconds))
  both (err x) r = err x
  both (ok cs) (err x) = err x
  both (ok cs) (ok ds) = ok (cs ++ ds)

  abbrev pub all_cases :
      Result JunitParseError (List (SuiteResult Seconds))
      → Result JunitParseError (List (CaseResult Seconds))
  all_cases (err x) = err x
  all_cases (ok suites) = ok (cases_of suites)

  both-collect :
      (r : Result JunitParseError (CaseResult Seconds))
      (s t : Result JunitParseError (List (CaseResult Seconds)))
      → both (collect r s) t ≡ collect r (both s t)
  unfolding both
  both-collect (err x) s t = refl
  both-collect (ok c) (err x) t = refl
  both-collect (ok c) (ok cs) (err x) = refl
  both-collect (ok c) (ok cs) (ok ds) = refl

  both-nil : (t : Result JunitParseError (List (CaseResult Seconds))) → both (ok []) t ≡ t
  unfolding both
  both-nil (err x) = refl
  both-nil (ok cs) = refl

  parse_cases-append :
      (xs ys : List Element)
      → parse_cases lib (xs ++ ys) ≡ both (parse_cases lib xs) (parse_cases lib ys)
  parse_cases-append [] ys = sym (both-nil (parse_cases lib ys))
  parse_cases-append (x ∷ xs) ys =
      ap (collect (parse_case lib x)) (parse_cases-append xs ys)
      ∙ sym (both-collect (parse_case lib x) (parse_cases lib xs) (parse_cases lib ys))

  all_cases-collect :
      (e : Element) (cases : Result JunitParseError (List (CaseResult Seconds)))
      (rest : Result JunitParseError (List (SuiteResult Seconds)))
      → all_cases (collect (suite_of lib e cases) rest) ≡ both cases (all_cases rest)
  unfolding both
  all_cases-collect e (err x) rest = refl
  all_cases-collect e (ok cs) (err x) = refl
  all_cases-collect e (ok cs) (ok ss) = refl

  flat_cases :
      (es : Forest)
      → IsFlat es
      → all_cases (parse_suites lib (iter_all "testsuite" es))
        ≡ parse_cases lib (iter_all "testcase" es)
  unfolding iter parse_suite
  flat_cases nil h = refl
  flat_cases (cons (element t attributes children) es) (suite, none_below, flat) =
      subst
        (λ t.
          all_cases
            (parse_suites lib (iter_all "testsuite" (cons (element t attributes children) es)))
          ≡ parse_cases lib (iter_all "testcase" (cons (element t attributes children) es)))
        (sym suite)
        (rw none_below (
          all_cases-collect (element "testsuite" attributes children)
            (parse_cases lib (iter_all "testcase" children))
            (parse_suites lib (iter_all "testsuite" es))
          ∙ ap (both (parse_cases lib (iter_all "testcase" children))) (flat_cases es flat)
          ∙ sym (parse_cases-append (iter_all "testcase" children) (iter_all "testcase" es))))

  -- A report whose root is `testsuites`, with nothing under it but suites that hold no suites, gives
  -- every test case of the document once and in its order, or the error that one of them is nameless.
  pub parse_report_flat :
      (xml : String) (attributes : List (String × String)) (es : Forest)
      → lib.fromstring xml ≡ some (element "testsuites" attributes es)
      → IsFlat es
      → all_cases (parse_report lib xml)
        ≡ parse_cases lib (iter "testcase" (element "testsuites" attributes es))
  unfolding parse_report iter
  parse_report_flat xml attributes es read flat =
      ap (λ o. all_cases (parse_read lib o)) read ∙ flat_cases es flat

  nested_suites :
      (outer inner : List (String × String)) (es : Forest)
      → iter_all "testsuite" es ≡ []
      → iter_all "testsuite"
          (cons (element "testsuite" outer (cons (element "testsuite" inner es) nil)) nil)
        ≡ element "testsuite" outer (cons (element "testsuite" inner es) nil)
          ∷ element "testsuite" inner es
          ∷ []
  unfolding iter
  nested_suites outer inner es flat = rw flat refl

  twice :
      (outer inner : Element) (cases : List (CaseResult Seconds))
      → parse_cases lib (iter "testcase" outer) ≡ ok cases
      → parse_cases lib (iter "testcase" inner) ≡ ok cases
      → all_cases (parse_suites lib (outer ∷ inner ∷ [])) ≡ ok (cases ++ cases)
  unfolding parse_suite both
  twice outer inner cases once again =
      all_cases-collect outer (parse_cases lib (iter "testcase" outer))
        (parse_suites lib (inner ∷ []))
      ∙ ap (both (parse_cases lib (iter "testcase" outer)))
          (all_cases-collect inner (parse_cases lib (iter "testcase" inner)) (ok []))
      ∙ ap (λ r. both r (both (parse_cases lib (iter "testcase" inner)) (ok []))) once
      ∙ ap (λ r. both (ok cases) (both r (ok []))) again
      ∙ ap (λ cs. ok (cases ++ cs)) (append-nil cases)

  -- The cases of a suite that stands in another suite are read twice.
  pub parse_report_nested :
      (xml : String) (outer inner : List (String × String)) (attributes : List (String × String))
      (es : Forest) (cases : List (CaseResult Seconds))
      → lib.fromstring xml
        ≡ some (
            element "testsuites" attributes
              (cons (element "testsuite" outer (cons (element "testsuite" inner es) nil)) nil))
      → iter_all "testsuite" es ≡ []
      → parse_cases lib (iter_all "testcase" es) ≡ ok cases
      → all_cases (parse_report lib xml) ≡ ok (cases ++ cases)
  unfolding parse_report iter
  parse_report_nested xml outer inner attributes es cases read flat good =
      let one = element "testsuite" outer (cons (element "testsuite" inner es) nil) in
      ap (λ o. all_cases (parse_read lib o)) read
      ∙ ap (λ suites. all_cases (parse_suites lib suites)) (nested_suites outer inner es flat)
      ∙ twice one (element "testsuite" inner es) cases
          (ap (parse_cases lib) (append-nil (iter_all "testcase" es)) ∙ good) good
