-- ===== src/Prelude/Sorting.antt =====
-- ORDER BY, as an insertion sort by a numeric key.
use Prim.Native.Nat.{ℕ}
use mathlib.Core.Path.{◌≡◌, refl}
use mathlib.Core.Bool.{Bool, true, ◌||◌, ◌&&◌}
use mathlib.Core.List.{List, [], ◌∷◌}
use native.Mathlib.Omega.{arith}
use slot.Prelude.Tests.{leb, if◌then◌else◌}
use slot.Prelude.Rows.{any_of, all_of}

-- Rows with equal keys keep their order.
abbrev pub insert_by {ℓ} : {A : Type ℓ} → (A → ℕ) → A → List A → List A
insert_by key x [] = x ∷ []
insert_by key x (y ∷ ys) =
    let rest = y ∷ ys in
    let later = y ∷ insert_by key x ys in if leb (key x) (key y) then x ∷ rest else later

abbrev pub sort_by {ℓ} : {A : Type ℓ} → (A → ℕ) → List A → List A
sort_by key [] = []
sort_by key (x ∷ xs) = insert_by key x (sort_by key xs)

abbrev pub IsSorted {ℓ} : {A : Type ℓ} → (A → ℕ) → List A → Type 0
IsSorted key [] = Unit
IsSorted key (x ∷ xs) = (all_of (λ y. leb (key x) (key y)) xs ≡ true) × IsSorted key xs

module _ {ℓ} {A : Type ℓ} where
  all_of-insert_by :
      (p : A → Bool) (key : A → ℕ) (x : A) (xs : List A)
      → all_of p (insert_by key x xs) ≡ (p x && all_of p xs)
  all_of-insert_by p key x [] = ground arith
  all_of-insert_by p key x (y ∷ ys) = ground (arith, all_of-insert_by p key x ys)

  any_of-insert_by :
      (p : A → Bool) (key : A → ℕ) (x : A) (xs : List A)
      → any_of p (insert_by key x xs) ≡ (p x || any_of p xs)
  any_of-insert_by p key x [] = ground arith
  any_of-insert_by p key x (y ∷ ys) = ground (arith, any_of-insert_by p key x ys)

  -- Sorting keeps the answers about all rows and about some row.
  pub all_of-sort_by :
      (p : A → Bool) (key : A → ℕ) (xs : List A) → all_of p (sort_by key xs) ≡ all_of p xs
  all_of-sort_by p key [] = refl
  all_of-sort_by p key (x ∷ xs) =
      ground (arith, all_of-insert_by p key x (sort_by key xs), all_of-sort_by p key xs)

  pub any_of-sort_by :
      (p : A → Bool) (key : A → ℕ) (xs : List A) → any_of p (sort_by key xs) ≡ any_of p xs
  any_of-sort_by p key [] = refl
  any_of-sort_by p key (x ∷ xs) =
      ground (arith, any_of-insert_by p key x (sort_by key xs), any_of-sort_by p key xs)

  all_of_le_trans :
      (key : A → ℕ) (x y : A) (ys : List A)
      → leb (key x) (key y) ≡ true
      → all_of (λ z. leb (key y) (key z)) ys ≡ true
      → all_of (λ z. leb (key x) (key z)) ys ≡ true
  all_of_le_trans key x y [] h k = refl
  all_of_le_trans key x y (z ∷ zs) h k = ground (arith, all_of_le_trans key x y zs h)

  insert_by-IsSorted :
      (key : A → ℕ) (x : A) (xs : List A) → IsSorted key xs → IsSorted key (insert_by key x xs)
  insert_by-IsSorted key x [] h = (refl, tt)
  insert_by-IsSorted key x (y ∷ ys) h = ground (
    arith,
    all_of_le_trans key x y ys,
    all_of-insert_by (λ z. leb (key y) (key z)) key x ys,
    insert_by-IsSorted key x ys h.1,
  )

  pub sort_by-IsSorted : (key : A → ℕ) (xs : List A) → IsSorted key (sort_by key xs)
  sort_by-IsSorted key [] = tt
  sort_by-IsSorted key (x ∷ xs) =
      insert_by-IsSorted key x (sort_by key xs) (sort_by-IsSorted key xs)
