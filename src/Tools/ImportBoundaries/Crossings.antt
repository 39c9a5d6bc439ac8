-- ===== src/Tools/ImportBoundaries/Crossings.antt =====
-- What it takes for a tree to pass the gate: no import crosses a boundary.
use slot.Prelude.{
  ℕ, String, Bool, true, false, not, ◌≡◌, refl, ◌↔◌, ◌&&◌, ◌||◌, inl, inr, Option, none, some, List,
  [], ◌∷◌, ◌++◌, arith, str_eq, all_of, select, Bool-cases, ap, ◌∙◌, sym, Result, ok, err, ◌>>=◌,
  sort_with, all_of-sort_with,
}
use slot.Tools.ImportBoundaries.{
  Node, SourceFile, Entry, Violation, BoundaryError, service_dirs, package_owners, owner_of,
  is_checked, files_of, imported_roots, crossing, root_violations, file_violations, violations_in,
  violations_from, find_violations, main, exit_of, file_leb, entry_leb,
}

and_false : (b : Bool) → (b && false) ≡ false
and_false true = refl
and_false false = refl

all_of-select :
    {A : Type 0} (p q : A → Bool) (xs : List A)
    → all_of p (select q xs) ≡ all_of (λ x. not (q x) || p x) xs
all_of-select p q [] = refl
all_of-select p q (x ∷ xs) = elim (Bool-cases (q x)) [
  | inl hit ↦ rw hit (rw (all_of-select p q xs) refl)
  | inr miss ↦ rw miss (all_of-select p q xs)
]

all_of-cong :
    {A : Type 0} (p q : A → Bool) (xs : List A) → ((x : A) → p x ≡ q x) → all_of p xs ≡ all_of q xs
all_of-cong p q [] h = refl
all_of-cong p q (x ∷ xs) h = ground (arith, h x, all_of-cong p q xs h)

module _ (owners : List (String × String)) where
  -- A root that no service owns, or the service itself.
  abbrev pub is_allowed : String → ℕ × String → Bool
  is_allowed service root = elim (owner_of owners root.1) [
    | none ↦ true
    | some owner ↦ str_eq owner service
  ]

  -- The file is Python, and every root that it imports is allowed.
  abbrev pub may_stay : String → SourceFile → Bool
  may_stay service f = elim f.nodes [
    | none ↦ false
    | some nodes ↦ all_of (is_allowed service) (imported_roots nodes)
  ]

  abbrev pub keeps_to_itself : Entry → Bool
  keeps_to_itself service = all_of (may_stay service.name) (files_of service)

  abbrev pub is_clean : Result BoundaryError (List Violation) → Bool
  is_clean (err e) = false
  is_clean (ok []) = true
  is_clean (ok (v ∷ vs)) = false

  clean_append :
      (vs ws : List Violation) → is_clean (ok (vs ++ ws)) ≡ (is_clean (ok vs) && is_clean (ok ws))
  clean_append [] ws = refl
  clean_append (v ∷ vs) ws = refl

  clean_bind :
      (r s : Result BoundaryError (List Violation))
      → is_clean (r >>= λ here. s >>= λ rest. ok (here ++ rest)) ≡ (is_clean r && is_clean s)
  clean_bind (err e) s = refl
  clean_bind (ok vs) (err e) = sym (and_false (is_clean (ok vs)))
  clean_bind (ok vs) (ok ws) = clean_append vs ws

  root_violations-clean :
      (service path : String) (roots : List (ℕ × String))
      → is_clean (ok (root_violations owners service path roots))
        ≡ all_of (is_allowed service) roots
  root_violations-clean service path [] = refl
  root_violations-clean service path ((line, root) ∷ roots) =
      clean_append (crossing service path line root (owner_of owners root))
        (root_violations owners service path roots)
      ∙ rw (root_violations-clean service path roots) (by_owner (owner_of owners root))
    where
      by_owner :
          (o : Option String)
          → (is_clean (ok (crossing service path line root o)) && all_of (is_allowed service) roots)
            ≡ ((elim o [ none ↦ true | some owner ↦ str_eq owner service ])
                && all_of (is_allowed service) roots)
      by_owner none = refl
      by_owner (some owner) = elim (Bool-cases (str_eq owner service)) [
        | inl own ↦ rw own refl
        | inr foreign ↦ rw foreign refl
      ]

  file_violations-clean :
      (service : String) (f : SourceFile)
      → is_clean (file_violations owners service f.path f.nodes) ≡ may_stay service f
  file_violations-clean service f = by_nodes f.nodes
    where
      by_nodes :
          (nodes : Option (List Node))
          → is_clean (file_violations owners service f.path nodes) ≡ elim nodes [
            | none ↦ false
            | some ns ↦ all_of (is_allowed service) (imported_roots ns)
          ]
      by_nodes none = refl
      by_nodes (some ns) = root_violations-clean service f.path (imported_roots ns)

  violations_in-clean :
      (service : String) (fs : List SourceFile)
      → is_clean (violations_in owners service fs) ≡ all_of (may_stay service) fs
  violations_in-clean service [] = refl
  violations_in-clean service (f ∷ fs) =
      clean_bind (file_violations owners service f.path f.nodes) (violations_in owners service fs)
      ∙ rw (file_violations-clean service f, violations_in-clean service fs) refl

  violations_from-clean :
      (ds : List Entry) → is_clean (violations_from owners ds) ≡ all_of keeps_to_itself ds
  violations_from-clean [] = refl
  violations_from-clean (d ∷ ds) =
      clean_bind (violations_in owners d.name (files_of d)) (violations_from owners ds)
      ∙ rw (violations_in-clean d.name (files_of d), violations_from-clean ds) refl

-- No file that counts, of no directory that is a service, imports what another service owns.
abbrev pub respects_boundaries : List Entry → Bool
respects_boundaries entries =
    all_of
      (λ d.
        not d.is_dir
        || all_of (λ f. not (is_checked f) || may_stay (package_owners entries) d.name f) d.files)
      entries

keeps_to_itself-files :
    (owners : List (String × String)) (d : Entry)
    → keeps_to_itself owners d
      ≡ all_of (λ f. not (is_checked f) || may_stay owners d.name f) d.files
keeps_to_itself-files owners d =
    all_of-select (may_stay owners d.name) is_checked (sort_with file_leb d.files)
    ∙ all_of-sort_with file_leb (λ f. not (is_checked f) || may_stay owners d.name f) d.files

clean_tree :
    (owners : List (String × String)) (entries : List Entry)
    → all_of (keeps_to_itself owners) (service_dirs entries)
      ≡ all_of
          (λ d.
            not d.is_dir || all_of (λ f. not (is_checked f) || may_stay owners d.name f) d.files)
          entries
clean_tree owners entries =
    all_of-sort_with entry_leb (keeps_to_itself owners) (select (λ e. e.is_dir) entries)
    ∙ (all_of-select (keeps_to_itself owners) (λ e. e.is_dir) entries
        ∙ all_of-cong _ _ entries
            (λ d. ap (λ b. not d.is_dir || b) (keeps_to_itself-files owners d)))

exit_clean :
    (entries : List Entry) (r : Result BoundaryError (List Violation))
    → (exit_of r ≡ 0) ↔ (is_clean (package_owners entries) r ≡ true)
exit_clean entries (err e) = ((λ h. absurd (omega (arith, h))), (λ h. absurd (cc h)))
exit_clean entries (ok []) = ((λ h. refl), (λ h. refl))
exit_clean entries (ok (v ∷ vs)) = ((λ h. absurd (omega (arith, h))), (λ h. absurd (cc h)))

-- The script ends with 0 exactly if every Python file of every service, but those of the skipped
-- directories, can be parsed and imports, other than relatively, nothing that another service owns.
pub main_iff : (entries : List Entry) → (main entries ≡ 0) ↔ (respects_boundaries entries ≡ true)
unfolding main find_violations
main_iff entries =
    let owners = package_owners entries in
    let same : is_clean owners (violations_from owners (service_dirs entries))
        ≡ respects_boundaries entries =
      violations_from-clean owners (service_dirs entries) ∙ clean_tree owners entries in
    let (to, from) = exit_clean entries (violations_from owners (service_dirs entries)) in
    ((λ h. sym same ∙ to h), (λ h. from (same ∙ h)))
