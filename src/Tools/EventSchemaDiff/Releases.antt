-- ===== src/Tools/EventSchemaDiff/Releases.antt =====
-- Changes one after another: what each step allows, all of them together allow.
use slot.Prelude.{
  String, Bool, true, ◌≡◌, refl, ◌||◌, inl, inr, Option, some, List, [], ◌∷◌, arith, str_eq, eq_iff,
  all_of, find_by_holds, All-find_by, All-map, Bool-cases, subst, ap, ◌∙◌, sym, Result, ok, err,
}
use slot.Tools.AcceptedRisks.{is_among}
use slot.Tools.EventSchemaDiff.{
  Json, Members, Schema, SchemaError, shape_keys, get_member, enum_values, find_property,
  same_value, is_in, breaking_changes,
}
use slot.Tools.EventSchemaDiff.Compatible.{
  KeepsShape, KeepsProperty, IsCompatible, breaking_changes_none,
}

abbrev members_value : Result SchemaError Members → Members → Members
members_value (ok ms) default = ms
members_value (err e) default = default

module _ (same : Json → Json → Bool)
    (trans : (i j k : Json) → same i j ≡ true → same j k ≡ true → same i k ≡ true) where
  same_value_trans :
      (i j k : Option Json)
      → same_value same i j ≡ true
      → same_value same j k ≡ true
      → same_value same i k ≡ true
  same_value_trans i j k h h' = trans _ _ _ h h'

  keys_trans :
      (keys : List String) (old mid new : Members)
      → all_of
          (λ key. str_eq key "enum" || same_value same (get_member key old) (get_member key mid))
          keys
        ≡ true
      → all_of
          (λ key. str_eq key "enum" || same_value same (get_member key mid) (get_member key new))
          keys
        ≡ true
      → all_of
          (λ key. str_eq key "enum" || same_value same (get_member key old) (get_member key new))
          keys
        ≡ true
  keys_trans [] old mid new h h' = refl
  keys_trans (key ∷ keys) old mid new h h' = ground (
    arith,
    same_value_trans (get_member key old) (get_member key mid) (get_member key new),
    keys_trans keys old mid new,
    h,
    h',
  )

  same_in :
      (v y : Json) (zs : List Json)
      → same v y ≡ true
      → is_in same zs y ≡ true
      → is_in same zs v ≡ true
  same_in v y [] eq k = k
  same_in v y (z ∷ zs) eq k = ground (arith, trans v y z eq, same_in v y zs eq, k)

  is_in_trans :
      (v : Json) (ys zs : List Json)
      → is_in same ys v ≡ true
      → all_of (is_in same zs) ys ≡ true
      → is_in same zs v ≡ true
  is_in_trans v [] zs h h' = absurd (cc h)
  is_in_trans v (y ∷ ys) zs h h' = elim (Bool-cases (same v y)) [
    | inl eq ↦ same_in v y zs eq (ground (arith, h'))
    | inr differ ↦ is_in_trans v ys zs (rw differ at h) (ground (arith, h'))
  ]

  subset_trans :
      (xs ys zs : List Json)
      → all_of (is_in same ys) xs ≡ true
      → all_of (is_in same zs) ys ≡ true
      → all_of (is_in same zs) xs ≡ true
  subset_trans [] ys zs h h' = refl
  subset_trans (x ∷ xs) ys zs h h' =
      ground (arith, is_in_trans x ys zs, subset_trans xs ys zs, h, h')

  KeepsShape-trans :
      (old mid new : Members)
      → KeepsShape same old mid
      → KeepsShape same mid new
      → KeepsShape same old new
  KeepsShape-trans old mid new (keys, values) (keys', values') = (
    keys_trans shape_keys old mid new keys keys',
    subset_trans (enum_values old) (enum_values mid) (enum_values new) values values',
  )

  KeepsProperty-trans :
      (old mid new : Schema) (property : String × Members)
      → IsCompatible same mid new
      → KeepsProperty same old mid property
      → KeepsProperty same old new property
  KeepsProperty-trans old mid new (name, property) later
        (q, found, required, was, now, old_shape, mid_shape, kept) =
      let named : q.0 ≡ name =
        (eq_iff q.0 name).0
          (find_by_holds (λ (p : String × Members). str_eq p.0 name) mid.properties q found) in
      let (r, found', required', was', now', mid_shape', new_shape, kept') =
        All-find_by (KeepsProperty same mid new) (λ (p : String × Members). str_eq p.0 name)
          mid.properties q later found in
      let same_shape : was' ≡ now = ap (λ s. members_value s now) (sym mid_shape' ∙ mid_shape) in
      (
        r,
        subst (λ n. find_property n new.properties ≡ some r) named found',
        λ there.
            subst (λ n. is_among new.required n ≡ true) named
              (required'
                (subst (λ n. is_among mid.required n ≡ true) (sym named) (required there))),
        was,
        now',
        old_shape,
        new_shape,
        KeepsShape-trans was now now' kept (subst (λ m. KeepsShape same m now') same_shape kept'),
      )

  -- If a schema passes against the one before it, and that one against an earlier, then it passes
  -- against the earlier too, where the equality of JSON values is transitive.
  pub breaking_changes_trans :
      (old mid new : Schema)
      → breaking_changes same old mid ≡ ok []
      → breaking_changes same mid new ≡ ok []
      → breaking_changes same old new ≡ ok []
  breaking_changes_trans old mid new h h' = (breaking_changes_none same old new).1 (
      All-map old.properties
        (λ p. KeepsProperty-trans old mid new p ((breaking_changes_none same mid new).0 h'))
        ((breaking_changes_none same old mid).0 h))
