-- ===== src/Tools/EventSchemaDiff.antt =====
-- tools/event_schema_diff.py: what of a new event schema would break a consumer of the old one. A
-- schema has an object of objects as its `properties`, a list of texts as its `required`, and a list
-- as the `enum` of a property; the printed lines are left out, and a problem tells what its text is
-- made from. When two JSON values are equal is a parameter, `same`.
pub mod Compatible
pub mod Releases
use text.Mathlib.Text.{starts_with}
use slot.Prelude.{
  ℕ, String, Bool, true, false, not, ◌&&◌, ◌||◌, Option, none, some, List, [], ◌∷◌, ◌++◌, str_eq,
  any_of, select, find_by, split_on, drop_text, if◌then◌else◌, Result, ok, err, ◌>>=◌, ◌==◌,
}
use slot.Tools.AcceptedRisks.{is_among}

mutual
  pub data Json : Type 0 where
    null_value : Json
    text_value : String → Json
    other_value : String → Json
    array : Items → Json
    object : Members → Json

  pub data Items : Type 0 where
    no_items : Items
    item : Json → Items → Items

  pub data Members : Type 0 where
    no_members : Members
    member : String → Json → Members → Members

pub record Schema : Type 0 where
  pub document : Members
  pub properties : List (String × Members)
  pub required : List String

-- What `resolve` raises where a reference leads through a value that is no object.
pub data SchemaError : Type 0 where
  attribute_error : SchemaError

pub data Problem : Type 0 where
  was_removed : String → Problem
  no_longer_required : String → Problem
  key_changed : String → String → Problem
  values_removed : String → List Json → Problem

abbrev pub shape_keys : List String
shape_keys = "type" ∷ "format" ∷ "const" ∷ "enum" ∷ "items" ∷ []

abbrev pub get_member : String → Members → Option Json
get_member key no_members = none
get_member key (member k v ms) =
    let rest = get_member key ms in if str_eq k key then some v else rest

abbrev pub or_empty : Option Json → Json
or_empty none = object no_members
or_empty (some j) = j

abbrev pub members_of : Json → Members
members_of (object ms) = ms
members_of (text_value s) = no_members
members_of null_value = no_members
members_of (other_value s) = no_members
members_of (array js) = no_members

-- The loop of `resolve` over the parts of the reference, and its last line.
abbrev pub follow : List String → Json → Result SchemaError Members
follow [] target = ok (members_of target)
follow (part ∷ parts) (object ms) = follow parts (or_empty (get_member part ms))
follow (part ∷ parts) (text_value s) = err attribute_error
follow (part ∷ parts) null_value = err attribute_error
follow (part ∷ parts) (other_value s) = err attribute_error
follow (part ∷ parts) (array js) = err attribute_error

-- The parts of a local reference.
abbrev pub local_parts : Option Json → Option (List String)
local_parts none = none
local_parts (some (object ms)) = none
local_parts (some null_value) = none
local_parts (some (other_value s)) = none
local_parts (some (array js)) = none
local_parts (some (text_value reference)) =
    if starts_with reference "#/" then some (split_on "/" (drop_text 2 reference)) else none

abbrev pub resolve : Members → Members → Result SchemaError Members
resolve schema root = elim (local_parts (get_member "$ref" schema)) [
  | none ↦ ok schema
  | some parts ↦ follow parts (object root)
]

abbrev pub pick : List String → Members → Members
pick [] resolved = no_members
pick (key ∷ keys) resolved =
    let rest = pick keys resolved in
    elim (get_member key resolved) [ none ↦ rest | some v ↦ member key v rest ]

unfoldable pub shape : Members → Members → Result SchemaError Members
shape schema root = resolve schema root >>= λ resolved. ok (pick shape_keys resolved)

abbrev pub items_of : Items → List Json
items_of no_items = []
items_of (item j js) = j ∷ items_of js

-- `get("enum", [])`
abbrev pub enum_of : Option Json → List Json
enum_of none = []
enum_of (some (array js)) = items_of js
enum_of (some (text_value s)) = []
enum_of (some null_value) = []
enum_of (some (other_value s)) = []
enum_of (some (object ms)) = []

abbrev pub enum_values : Members → List Json
enum_values s = enum_of (get_member "enum" s)

abbrev pub find_property : String → List (String × Members) → Option (String × Members)
find_property name properties = find_by (λ (p : String × Members). str_eq p.0 name) properties

abbrev pub or_null : Option Json → Json
or_null none = null_value
or_null (some j) = j

module _ (same : Json → Json → Bool) where
  -- `get` answers with None for a key that is not there, which equals the null of a JSON.
  abbrev pub same_value : Option Json → Option Json → Bool
  same_value i j = same (or_null i) (or_null j)

  -- `value in values`
  abbrev pub is_in : List Json → Json → Bool
  is_in values value = any_of (same value) values

  abbrev pub key_problems : String → List String → Members → Members → List Problem
  key_problems name [] was now = []
  key_problems name (key ∷ keys) was now =
      let rest = key_problems name keys was now in
      if str_eq key "enum" || same_value (get_member key was) (get_member key now)
      then rest
      else key_changed name key ∷ rest

  abbrev pub enum_problems : String → List Json → List Problem
  enum_problems name [] = []
  enum_problems name (value ∷ values) = values_removed name (value ∷ values) ∷ []

  abbrev pub removed_values : Members → Members → List Json
  removed_values was now = select (λ v. not (is_in (enum_values now) v)) (enum_values was)

  abbrev pub required_problems : String → Schema → Schema → List Problem
  required_problems name old new =
      if is_among old.required name && not (is_among new.required name)
      then no_longer_required name ∷ []
      else []

  abbrev pub property_problems : String → Schema → Schema → Members → Members → List Problem
  property_problems name old new was now =
      required_problems name old new
      ++ (key_problems name shape_keys was now ++ enum_problems name (removed_values was now))

  -- The body of the loop over the old properties.
  abbrev pub changes_of :
      Schema
      → Schema
      → String
      → Members
      → Option (String × Members)
      → Result SchemaError (List Problem)
  changes_of old new name property none = ok (was_removed name ∷ [])
  changes_of old new name property (some (_, new_property)) = shape property old.document >>= λ was.
      shape new_property new.document >>= λ now. ok (property_problems name old new was now)

  abbrev pub changes_from :
      Schema → Schema → List (String × Members) → Result SchemaError (List Problem)
  changes_from old new [] = ok []
  changes_from old new ((name, property) ∷ properties) =
      changes_of old new name property (find_property name new.properties) >>= λ problems.
      changes_from old new properties >>= λ rest. ok (problems ++ rest)

  unfoldable pub breaking_changes : Schema → Schema → Result SchemaError (List Problem)
  breaking_changes old new = changes_from old new old.properties

  -- `main`: the exit status, for a schema of the base version if it has one; an error that is not
  -- caught ends the script with a status of 1.
  abbrev pub exit_of : Result SchemaError (List Problem) → ℕ
  exit_of (err e) = 1
  exit_of (ok []) = 0
  exit_of (ok (p ∷ ps)) = 1

  abbrev pub main : Option Schema → Schema → ℕ
  main none new = 0
  main (some old) new = exit_of (breaking_changes old new)
