-- ===== src/Tools/EventSchemaDiff/Compatible.antt =====
-- What it takes for a schema to pass the gate.
use slot.Prelude.{
  String, Bool, true, not, ◌≡◌, refl, ◌||◌, inl, inr, Option, none, some, List, [], ◌∷◌, ◌++◌,
  str_eq, all_of, select, All, Bool-cases, ap, ◌∙◌, Result, ok, err, Result-cases, ◌↔◌,
}
use slot.Tools.AcceptedRisks.{is_among}
use slot.Tools.EventSchemaDiff.{
  Json, Members, Schema, SchemaError, Problem, shape_keys, get_member, shape, enum_values,
  find_property, same_value, is_in, key_problems, enum_problems, removed_values, required_problems,
  property_problems, changes_of, changes_from, breaking_changes,
}

abbrev ok_value : Result SchemaError (List Problem) → List Problem
ok_value (ok ps) = ps
ok_value (err e) = []

ok_injective :
    {ps qs : List Problem} → ◌≡◌ {A = Result SchemaError (List Problem)} (ok ps) (ok qs) → ps ≡ qs
ok_injective h = ap ok_value h

module _ (same : Json → Json → Bool) where
  -- Every key that describes a value says the same, and no value of an enum is gone.
  abbrev pub KeepsShape : Members → Members → Type 0
  KeepsShape was now =
      (all_of
          (λ key. str_eq key "enum" || same_value same (get_member key was) (get_member key now))
          shape_keys
        ≡ true)
      × (all_of (is_in same (enum_values now)) (enum_values was) ≡ true)

  -- The new schema has the property, requires it if the old one does, and keeps its shape.
  abbrev pub KeepsProperty : Schema → Schema → String × Members → Type 0
  KeepsProperty old new property =
      (found : String × Members) × (find_property property.0 new.properties ≡ some found)
      × (is_among old.required property.0 ≡ true → is_among new.required property.0 ≡ true)
      × (was : Members) × (now : Members) × (shape property.1 old.document ≡ ok was)
      × (shape found.1 new.document ≡ ok now)
      × KeepsShape was now

  abbrev pub IsCompatible : Schema → Schema → Type 0
  IsCompatible old new = All (KeepsProperty old new) old.properties

  append_none : (xs ys : List Problem) → xs ++ ys ≡ [] → (xs ≡ []) × (ys ≡ [])
  append_none [] ys h = (refl, h)
  append_none (x ∷ xs) ys h = absurd (cc h)

  key_problems_none :
      (name : String) (keys : List String) (was now : Members)
      → key_problems same name keys was now ≡ []
      → all_of
          (λ key. str_eq key "enum" || same_value same (get_member key was) (get_member key now))
          keys
        ≡ true
  key_problems_none name [] was now h = refl
  key_problems_none name (key ∷ keys) was now h =
      elim (Bool-cases
        (str_eq key "enum" || same_value same (get_member key was) (get_member key now))) [
          | inl kept ↦ rw kept (key_problems_none name keys was now (rw kept at h))
          | inr changed ↦ absurd (cc (rw changed at h))
        ]

  none-key_problems :
      (name : String) (keys : List String) (was now : Members)
      → all_of
          (λ key. str_eq key "enum" || same_value same (get_member key was) (get_member key now))
          keys
        ≡ true
      → key_problems same name keys was now ≡ []
  none-key_problems name [] was now h = refl
  none-key_problems name (key ∷ keys) was now h =
      elim (Bool-cases
        (str_eq key "enum" || same_value same (get_member key was) (get_member key now))) [
          | inl kept ↦ rw kept (none-key_problems name keys was now (rw kept at h))
          | inr changed ↦ absurd (cc (rw changed at h))
        ]

  select_none :
      (p : Json → Bool) (xs : List Json) → select (λ v. not (p v)) xs ≡ [] → all_of p xs ≡ true
  select_none p [] h = refl
  select_none p (x ∷ xs) h = elim (Bool-cases (p x)) [
    | inl kept ↦ rw kept (select_none p xs (rw kept at h))
    | inr gone ↦ absurd (cc (rw gone at h))
  ]

  none-select :
      (p : Json → Bool) (xs : List Json) → all_of p xs ≡ true → select (λ v. not (p v)) xs ≡ []
  none-select p [] h = refl
  none-select p (x ∷ xs) h = elim (Bool-cases (p x)) [
    | inl kept ↦ rw kept (none-select p xs (rw kept at h))
    | inr gone ↦ absurd (cc (rw gone at h))
  ]

  enum_problems_none : (name : String) (vs : List Json) → enum_problems same name vs ≡ [] → vs ≡ []
  enum_problems_none name [] h = refl
  enum_problems_none name (v ∷ vs) h = absurd (cc h)

  required_none :
      (name : String) (old new : Schema)
      → required_problems same name old new ≡ []
      → is_among old.required name ≡ true
      → is_among new.required name ≡ true
  required_none name old new h there = elim (Bool-cases (is_among new.required name)) [
    | inl still ↦ still
    | inr gone ↦ absurd (cc (rw (there, gone) at h))
  ]

  none-required :
      (name : String) (old new : Schema)
      → (is_among old.required name ≡ true → is_among new.required name ≡ true)
      → required_problems same name old new ≡ []
  none-required name old new h = elim (Bool-cases (is_among old.required name)) [
    | inl there ↦ rw (there, h there) refl
    | inr absent ↦ rw absent refl
  ]

  property_problems_none :
      (name : String) (old new : Schema) (was now : Members)
      → property_problems same name old new was now ≡ []
      → (is_among old.required name ≡ true → is_among new.required name ≡ true) × KeepsShape was now
  property_problems_none name old new was now h =
      let (none_required, others) = append_none (required_problems same name old new) _ h in
      let (none_keys, none_enum) =
        append_none (key_problems same name shape_keys was now) _ others in
      (
        required_none name old new none_required,
        (
          key_problems_none name shape_keys was now none_keys,
          select_none (is_in same (enum_values now)) (enum_values was)
              (enum_problems_none name (removed_values same was now) none_enum),
        ),
      )

  none-property_problems :
      (name : String) (old new : Schema) (was now : Members)
      → (is_among old.required name ≡ true → is_among new.required name ≡ true)
      → KeepsShape was now
      → property_problems same name old new was now ≡ []
  none-property_problems name old new was now keeps (keys, enum) =
      ap
        (λ xs.
          xs
          ++ (key_problems same name shape_keys was now
              ++ enum_problems same name (removed_values same was now)))
        (none-required name old new keeps)
      ∙ (ap (λ xs. xs ++ enum_problems same name (removed_values same was now))
            (none-key_problems name shape_keys was now keys)
          ∙ ap (enum_problems same name)
              (none-select (is_in same (enum_values now)) (enum_values was) enum))

  changes_of_none :
      (old new : Schema) (name : String) (property : Members) (found : Option (String × Members))
      → changes_of same old new name property found ≡ ok []
      → find_property name new.properties ≡ found
      → KeepsProperty old new (name, property)
  changes_of_none old new name property none h is_found = absurd (cc h)
  changes_of_none old new name property (some q) h is_found =
      elim (Result-cases (shape property old.document)) [
        | inr (e, bad) ↦ absurd (cc (rw bad at h))
        | inl (was, old_shape) ↦ elim (Result-cases (shape q.1 new.document)) [
          | inr (e, bad) ↦ absurd (cc (rw (old_shape, bad) at h))
          | inl (now, new_shape) ↦
              let (required, kept) =
                property_problems_none name old new was now
                  (ok_injective (rw (old_shape, new_shape) at h)) in
              (q, is_found, required, was, now, old_shape, new_shape, kept)
        ]
      ]

  none-changes_of :
      (old new : Schema) (name : String) (property : Members)
      → KeepsProperty old new (name, property)
      → changes_of same old new name property (find_property name new.properties) ≡ ok []
  none-changes_of old new name property (q, found, required, was, now, old_shape, new_shape, kept) =
      rw (found, old_shape, new_shape)
        (ap ok (none-property_problems name old new was now required kept))

  changes_from_none :
      (old new : Schema) (properties : List (String × Members))
      → changes_from same old new properties ≡ ok []
      → All (KeepsProperty old new) properties
  changes_from_none old new [] h = tt
  changes_from_none old new ((name, property) ∷ properties) h =
      elim (Result-cases
        (changes_of same old new name property (find_property name new.properties))) [
          | inr (e, bad) ↦ absurd (cc (rw bad at h))
          | inl (problems, here) ↦ elim (Result-cases (changes_from same old new properties)) [
            | inr (e, bad) ↦ absurd (cc (rw (here, bad) at h))
            | inl (rest, later) ↦
                let (no_problems, no_rest) =
                  append_none problems rest (ok_injective (rw (here, later) at h)) in
                (
                  changes_of_none old new name property _ (here ∙ ap ok no_problems) refl,
                  changes_from_none old new properties (later ∙ ap ok no_rest),
                )
          ]
        ]

  none-changes_from :
      (old new : Schema) (properties : List (String × Members))
      → All (KeepsProperty old new) properties
      → changes_from same old new properties ≡ ok []
  none-changes_from old new [] h = refl
  none-changes_from old new ((name, property) ∷ properties) h =
      rw (none-changes_of old new name property h.0, none-changes_from old new properties h.1) refl

  -- Where enums are lists, a schema passes exactly if every property of the old one is still there,
  -- is required if it was, says the same under every key that describes its values, a missing key
  -- saying as much as a null, and still has every value of its enum.
  pub breaking_changes_none :
      (old new : Schema) → (breaking_changes same old new ≡ ok []) ↔ IsCompatible old new
  unfolding breaking_changes
  breaking_changes_none old new =
      (changes_from_none old new old.properties, none-changes_from old new old.properties)
