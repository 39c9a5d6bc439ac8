-- ===== src/Prelude/Ordering.antt =====
-- ORDER BY several columns: an insertion sort by a test that says which rows may stand before which.
use mathlib.Core.Path.{◌≡◌, refl}
use mathlib.Core.Logic.{inl, inr}
use mathlib.Core.Bool.{Bool, true, false, ◌||◌, ◌&&◌}
use mathlib.Core.List.{List, [], ◌∷◌}
use native.Mathlib.Omega.{arith}
use slot.Prelude.Tests.{if◌then◌else◌, Bool-cases}
use slot.Prelude.Rows.{any_of, all_of}

module _ {ℓ} {A : Type ℓ} (before : A → A → Bool) where
  abbrev pub insert_with : A → List A → List A
  insert_with x [] = x ∷ []
  insert_with x (y ∷ ys) =
      let rest = y ∷ ys in
      let later = y ∷ insert_with x ys in if before x y then x ∷ rest else later

  abbrev pub sort_with : List A → List A
  sort_with [] = []
  sort_with (x ∷ xs) = insert_with x (sort_with xs)

  abbrev pub IsOrdered : List A → Type 0
  IsOrdered [] = Unit
  IsOrdered (x ∷ xs) = (all_of (before x) xs ≡ true) × IsOrdered xs

  any_of-insert_with :
      (p : A → Bool) (x : A) (xs : List A) → any_of p (insert_with x xs) ≡ (p x || any_of p xs)
  any_of-insert_with p x [] = ground arith
  any_of-insert_with p x (y ∷ ys) = ground (arith, any_of-insert_with p x ys)

  pub any_of-sort_with : (p : A → Bool) (xs : List A) → any_of p (sort_with xs) ≡ any_of p xs
  any_of-sort_with p [] = refl
  any_of-sort_with p (x ∷ xs) =
      ground (arith, any_of-insert_with p x (sort_with xs), any_of-sort_with p xs)

  all_of-insert_with :
      (p : A → Bool) (x : A) (xs : List A) → all_of p (insert_with x xs) ≡ (p x && all_of p xs)
  all_of-insert_with p x [] = ground arith
  all_of-insert_with p x (y ∷ ys) = ground (arith, all_of-insert_with p x ys)

  pub all_of-sort_with : (p : A → Bool) (xs : List A) → all_of p (sort_with xs) ≡ all_of p xs
  all_of-sort_with p [] = refl
  all_of-sort_with p (x ∷ xs) =
      ground (arith, all_of-insert_with p x (sort_with xs), all_of-sort_with p xs)

  module _ (total : (x y : A) → before x y ≡ false → before y x ≡ true)
      (trans : (x y z : A) → before x y ≡ true → before y z ≡ true → before x z ≡ true) where
    before_all :
        (x y : A) (zs : List A)
        → before x y ≡ true
        → all_of (before y) zs ≡ true
        → all_of (before x) zs ≡ true
    before_all x y [] h k = refl
    before_all x y (z ∷ zs) h k = ground (arith, trans x y z, before_all x y zs h)

    insert_with-IsOrdered : (x : A) (xs : List A) → IsOrdered xs → IsOrdered (insert_with x xs)
    insert_with-IsOrdered x [] h = (refl, tt)
    insert_with-IsOrdered x (y ∷ ys) h = elim (Bool-cases (before x y)) [
      | inl first ↦ rw first (ground (arith, first, before_all x y ys first h.0), h)
      | inr later ↦ rw later (
        ground (arith, all_of-insert_with (before y) x ys, total x y later, h.0),
        insert_with-IsOrdered x ys h.1,
      )
    ]

    pub sort_with-IsOrdered : (xs : List A) → IsOrdered (sort_with xs)
    sort_with-IsOrdered [] = tt
    sort_with-IsOrdered (x ∷ xs) = insert_with-IsOrdered x (sort_with xs) (sort_with-IsOrdered xs)
