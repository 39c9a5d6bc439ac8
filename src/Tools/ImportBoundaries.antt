-- ===== src/Tools/ImportBoundaries.antt =====
-- tools/import_boundaries.py: a service must not import the code of another. The tree of files, the
-- text of a file and its syntax tree are given; the printed lines are left out.
pub mod Crossings
use slot.Prelude.{
  ℕ, String, Bool, true, false, not, ◌&&◌, ◌||◌, Option, none, some, List, [], ◌∷◌, ◌++◌, map,
  str_eq, any_of, select, leb, length, sort_with, text_leb, split_on, if◌then◌else◌, Result, ok,
  err, ◌>>=◌, zero, suc,
}
use slot.Tools.AcceptedRisks.{is_among}

abbrev pub skipped_dirs : List String
skipped_dirs = ".venv" ∷ "mutants" ∷ "__pycache__" ∷ "node_modules" ∷ []

-- A node of the syntax tree, as far as it is looked at: the line with the names of an import, or with
-- the level and the module of an import from one.
pub data Node : Type 0 where
  import_names : ℕ → List String → Node
  import_from : ℕ → ℕ → Option String → Node
  other_node : Node

-- A Python file: the parts of its path below the service, and the nodes of its tree in the order in
-- which `ast.walk` gives them, with `none` for a file that cannot be parsed.
pub record SourceFile : Type 0 where
  pub path : String
  pub parts : List String
  pub nodes : Option (List Node)

-- An entry of `services/`: `src` lists the names below its `src/` with whether each is a directory,
-- and `files` its Python files at any depth.
pub record Entry : Type 0 where
  pub name : String
  pub is_dir : Bool
  pub src : List (String × Bool)
  pub files : List SourceFile

pub record Violation : Type 0 where
  pub path : String
  pub line : ℕ
  pub imported : String
  pub owner : String

-- `ast.parse` of a file that is not Python.
pub data BoundaryError : Type 0 where
  syntax_error : BoundaryError

abbrev pub owned_packages : Entry → List String
owned_packages service = map (λ p. p.0) (select (λ (p : String × Bool). p.1) service.src)

abbrev pub entry_leb : Entry → Entry → Bool
entry_leb d e = text_leb d.name e.name

abbrev pub service_dirs : List Entry → List Entry
service_dirs entries = sort_with entry_leb (select (λ e. e.is_dir) entries)

abbrev pub owned_by : String → List String → List (String × String)
owned_by service packages = map (λ p. (p, service)) packages

-- The items of the dict, in the order in which they are written to it.
abbrev pub owner_items : List Entry → List (String × String)
owner_items [] = []
owner_items (d ∷ ds) = owned_by d.name (owned_packages d) ++ owner_items ds

abbrev pub package_owners : List Entry → List (String × String)
package_owners entries = owner_items (service_dirs entries)

-- `owners.get(root)`: the last item of a package is the one that stays.
abbrev pub owner_of : List (String × String) → String → Option String
owner_of [] root = none
owner_of ((package_name, service) ∷ items) root = elim (owner_of items root) [
  | some s ↦ some s
  | none ↦ if str_eq package_name root then some service else none
]

abbrev pub file_leb : SourceFile → SourceFile → Bool
file_leb f g = text_leb f.path g.path

abbrev pub is_checked : SourceFile → Bool
is_checked f = not (any_of (is_among skipped_dirs) f.parts)

abbrev pub files_of : Entry → List SourceFile
files_of service = select is_checked (sort_with file_leb service.files)

abbrev pub first_part : List String → String
first_part [] = ""
first_part (p ∷ ps) = p

-- `name.split(".")[0]`
abbrev pub root_of : String → String
root_of name = first_part (split_on "." name)

abbrev pub roots_of_node : Node → List (ℕ × String)
roots_of_node (import_names line names) = map (λ n. (line, root_of n)) names
roots_of_node (import_from line level none) = []
roots_of_node (import_from line zero (some name)) =
    if str_eq name "" then [] else (line, root_of name) ∷ []
roots_of_node (import_from line (suc level) (some name)) = []
roots_of_node other_node = []

abbrev pub imported_roots : List Node → List (ℕ × String)
imported_roots [] = []
imported_roots (n ∷ ns) = roots_of_node n ++ imported_roots ns

abbrev pub crossing : String → String → ℕ → String → Option String → List Violation
crossing service path line root none = []
crossing service path line root (some owner) =
    if str_eq owner service
    then []
    else record { path = path; line = line; imported = root; owner = owner } ∷ []

abbrev pub root_violations :
    List (String × String) → String → String → List (ℕ × String) → List Violation
root_violations owners service path [] = []
root_violations owners service path ((line, root) ∷ roots) =
    crossing service path line root (owner_of owners root)
    ++ root_violations owners service path roots

abbrev pub file_violations :
    List (String × String)
    → String
    → String
    → Option (List Node)
    → Result BoundaryError (List Violation)
file_violations owners service path none = err syntax_error
file_violations owners service path (some nodes) =
    ok (root_violations owners service path (imported_roots nodes))

-- The loop over the files of one service, and over the services.
abbrev pub violations_in :
    List (String × String) → String → List SourceFile → Result BoundaryError (List Violation)
violations_in owners service [] = ok []
violations_in owners service (f ∷ fs) = file_violations owners service f.path f.nodes >>= λ here.
    violations_in owners service fs >>= λ rest. ok (here ++ rest)

abbrev pub violations_from :
    List (String × String) → List Entry → Result BoundaryError (List Violation)
violations_from owners [] = ok []
violations_from owners (d ∷ ds) = violations_in owners d.name (files_of d) >>= λ here.
    violations_from owners ds >>= λ rest. ok (here ++ rest)

unfoldable pub find_violations : List Entry → Result BoundaryError (List Violation)
find_violations entries = violations_from (package_owners entries) (service_dirs entries)

-- `main` over a tree: the exit status; an error that is not caught ends the script with 1.
abbrev pub exit_of : Result BoundaryError (List Violation) → ℕ
exit_of (err e) = 1
exit_of (ok []) = 0
exit_of (ok (v ∷ vs)) = 1

unfoldable pub main : List Entry → ℕ
main entries = exit_of (find_violations entries)
