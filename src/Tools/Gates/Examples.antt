-- ===== src/Tools/Gates/Examples.antt =====
-- The gates at concrete inputs: changed paths, two releases of a schema, and a tree of services.
use slot.Tools.EventSchemaDiff.Compatible.{IsCompatible, breaking_changes_none}
use slot.Prelude.{
  String, ◌≡◌, refl, ◌↔◌, subst, Bool, true, false, some, List, [], ◌∷◌, ◌++◌, str_eq, eq_iff, ok,
  sym,
}
use slot.Tools.AcceptedRisks.{is_among}
use slot.Tools.ChangedServices.{affected_services}
use slot.Tools.ChangedServices.Selection.{affected_services_grows}
use slot.Tools.EventSchemaDiff.{
  Json, null_value, text_value, other_value, array, object, Items, no_items, item, Members,
  no_members, member, Schema, shape, breaking_changes, values_removed,
}
use slot.Tools.EventSchemaDiff.Releases.{breaking_changes_trans}
use slot.Tools.ImportBoundaries.{
  Node, import_names, import_from, SourceFile, Entry, find_violations, main,
}
use slot.Tools.ImportBoundaries.Crossings.{respects_boundaries, main_iff}

-- A service, and a document next to it.
abbrev paths : List String
paths = "services/web/src/app.py" ∷ "contracts/auth/token.v1.json" ∷ []

booking_and_web : affected_services paths ≡ "booking" ∷ "web" ∷ []
unfolding affected_services
booking_and_web = refl

pact_provider : affected_services ("contracts/pacts/booking-payments.json" ∷ []) ≡ "payments" ∷ []
unfolding affected_services
pact_provider = refl

unknown_path :
    affected_services ("services/web/src/app.py" ∷ "uv.lock" ∷ [])
    ≡ "booking" ∷ "notifier" ∷ "payments" ∷ "web" ∷ []
unfolding affected_services
unknown_path = refl

web_selected : is_among (affected_services paths) "web" ≡ true
unfolding affected_services
web_selected = refl

affected_services_grows_example :
    is_among (affected_services (("docs/a.md" ∷ []) ++ (paths ++ ("uv.lock" ∷ [])))) "web" ≡ true
affected_services_grows_example =
    affected_services_grows ("docs/a.md" ∷ []) paths ("uv.lock" ∷ []) "web" web_selected

-- Two JSON values are the same if both are null or the same text; nothing else is compared here.
abbrev same : Json → Json → Bool
same (text_value s) (text_value t) = str_eq s t
same (text_value s) null_value = false
same (text_value s) (other_value t) = false
same (text_value s) (array js) = false
same (text_value s) (object ms) = false
same null_value null_value = true
same null_value (text_value t) = false
same null_value (other_value t) = false
same null_value (array t) = false
same null_value (object t) = false
same (other_value s) j = false
same (array js) j = false
same (object ms) j = false

same_trans : (i j k : Json) → same i j ≡ true → same j k ≡ true → same i k ≡ true
same_trans (text_value s) (text_value t) (text_value u) h h' =
    subst (λ x. str_eq x u ≡ true) (sym ((eq_iff s t).0 h)) h'
same_trans (text_value s) (text_value t) null_value h h' = h'
same_trans (text_value s) (text_value t) (other_value u) h h' = h'
same_trans (text_value s) (text_value t) (array u) h h' = h'
same_trans (text_value s) (text_value t) (object u) h h' = h'
same_trans (text_value s) null_value k h h' = absurd (cc h)
same_trans (text_value s) (other_value t) k h h' = absurd (cc h)
same_trans (text_value s) (array t) k h h' = absurd (cc h)
same_trans (text_value s) (object t) k h h' = absurd (cc h)
same_trans null_value null_value k h h' = h'
same_trans null_value (text_value t) k h h' = absurd (cc h)
same_trans null_value (other_value t) k h h' = absurd (cc h)
same_trans null_value (array t) k h h' = absurd (cc h)
same_trans null_value (object t) k h h' = absurd (cc h)
same_trans (other_value s) j k h h' = absurd (cc h)
same_trans (array s) j k h h' = absurd (cc h)
same_trans (object s) j k h h' = absurd (cc h)

abbrev enum_property : Items → Members
enum_property values = member "type" (text_value "string") (member "enum" (array values) no_members)

abbrev schema : List (String × Members) → Schema
schema properties = record {
  document = no_members;
  properties = properties;
  required = "type" ∷ [];
}

abbrev confirmed_only : Items
confirmed_only = item (text_value "confirmed") no_items

abbrev first_release : Schema
first_release = schema (("type", enum_property confirmed_only) ∷ [])

-- A new value of the enum.
abbrev second_release : Schema
second_release =
    schema (("type", enum_property (item (text_value "cancelled") confirmed_only)) ∷ [])

-- A new property.
abbrev third_release : Schema
third_release = schema (
    ("note", no_members)
    ∷ ("type", enum_property (item (text_value "cancelled") confirmed_only))
    ∷ [])

value_added : breaking_changes same first_release second_release ≡ ok []
unfolding breaking_changes shape
value_added = refl

property_added : breaking_changes same second_release third_release ≡ ok []
unfolding breaking_changes shape
property_added = refl

value_taken :
    breaking_changes same second_release first_release
    ≡ ok (values_removed "type" (text_value "cancelled" ∷ []) ∷ [])
unfolding breaking_changes shape
value_taken = refl

breaking_changes_trans_example : breaking_changes same first_release third_release ≡ ok []
breaking_changes_trans_example =
    breaking_changes_trans same same_trans first_release second_release third_release value_added
      property_added

breaking_changes_none_example :
    (breaking_changes same second_release third_release ≡ ok [])
    ↔ IsCompatible same second_release third_release
breaking_changes_none_example = breaking_changes_none same second_release third_release

abbrev file : String → List Node → SourceFile
file path nodes = record { path = path; parts = "src" ∷ path ∷ []; nodes = some nodes }

abbrev booking_service : Entry
booking_service = record {
  name = "booking";
  is_dir = true;
  src = ("booking", true) ∷ [];
  files = file "app.py" (import_names 1 ("booking.domain" ∷ "os" ∷ []) ∷ []) ∷ [];
}

abbrev web_service : Entry
web_service = record {
  name = "web";
  is_dir = true;
  src = ("web", true) ∷ [];
  files = file "app.py" (import_from 3 0 (some "booking.domain") ∷ []) ∷ [];
}

crossing_found :
    find_violations (web_service ∷ booking_service ∷ [])
    ≡ ok (record { path = "app.py"; line = 3; imported = "booking"; owner = "booking" } ∷ [])
unfolding find_violations
crossing_found = refl

main_iff_example :
    (main (web_service ∷ booking_service ∷ []) ≡ 0)
    ↔ (respects_boundaries (web_service ∷ booking_service ∷ []) ≡ true)
main_iff_example = main_iff (web_service ∷ booking_service ∷ [])

-- A package of two services belongs to the later of them: the earlier may not import its own.
abbrev shared_package : List Entry
shared_package =
    record booking_service {
      src = ("common", true) ∷ [];
      files = file "app.py" (import_names 1 ("common" ∷ []) ∷ []) ∷ [];
    }
    ∷ record web_service { src = ("common", true) ∷ []; files = [] }
    ∷ []

own_package_refused :
    find_violations shared_package
    ≡ ok (record { path = "app.py"; line = 1; imported = "common"; owner = "web" } ∷ [])
unfolding find_violations
own_package_refused = refl
