-- ===== src/Prelude/RowLaws.antt =====
-- Laws of the row scans and updates.
use Prim.Native.Nat.{◌≤◌, ◌<◌}
use mathlib.Core.Path.{◌≡◌, refl}
use mathlib.Core.Bool.{Bool, true, false, ◌||◌}
use mathlib.Core.Option.{some}
use mathlib.Core.Logic.{inl, inr}
use mathlib.Core.List.{List, [], ◌∷◌, ◌++◌}
use native.Mathlib.Omega.{arith}
use slot.Prelude.Tests.{if◌then◌else◌, Bool-cases}
use slot.Prelude.Rows.{select, find_by, any_of, count_if, update_where, All, All-map}

module _ {ℓ} {A : Type ℓ} where
  pub count_if-eq-zero : (p : A → Bool) (xs : List A) → any_of p xs ≡ false → count_if p xs ≡ 0
  count_if-eq-zero p [] h = refl
  count_if-eq-zero p (x ∷ xs) h = ground (arith, count_if-eq-zero p xs)

  pub any_of_of-count_if : (p : A → Bool) (xs : List A) → 0 < count_if p xs → any_of p xs ≡ true
  any_of_of-count_if p [] h = absurd (omega arith)
  any_of_of-count_if p (x ∷ xs) h = ground (arith, any_of_of-count_if p xs)

  pub count_if_of-any_of : (p : A → Bool) (xs : List A) → any_of p xs ≡ true → 0 < count_if p xs
  count_if_of-any_of p [] h = cc
  count_if_of-any_of p (x ∷ xs) h = ground (arith, count_if_of-any_of p xs)

  -- An update that turns no further row into one that `q` counts does not raise the count.
  pub count_if-update_where-le :
      (q p : A → Bool) (f : A → A) (xs : List A)
      → ((x : A) → p x ≡ true → q (f x) ≡ true → q x ≡ true)
      → count_if q (update_where p f xs) ≤ count_if q xs
  count_if-update_where-le q p f [] h = omega arith
  count_if-update_where-le q p f (x ∷ xs) h =
      ground (arith, h x, count_if-update_where-le q p f xs h)

  -- An update that does not touch what `q` reads keeps its answers.
  pub any_of-update_where :
      (q p : A → Bool) (f : A → A) (xs : List A)
      → ((x : A) → q (f x) ≡ q x)
      → any_of q (update_where p f xs) ≡ any_of q xs
  any_of-update_where q p f [] h = refl
  any_of-update_where q p f (x ∷ xs) h = ground (arith, h x, any_of-update_where q p f xs h)

  pub All-update_where {κ μ} :
      (P : A → Type κ) (Q : A → Type μ) (p : A → Bool) (f : A → A) (xs : List A)
      → ((x : A) → p x ≡ true → P x → Q (f x))
      → ((x : A) → p x ≡ false → P x → Q x)
      → All P xs
      → All Q (update_where p f xs)
  All-update_where P Q p f [] hit miss h = tt
  All-update_where P Q p f (x ∷ xs) hit miss h =
      (chosen (p x) (hit x) (miss x), All-update_where P Q p f xs hit miss h.1)
    where
      chosen :
          (b : Bool)
          → (b ≡ true → P x → Q (f x))
          → (b ≡ false → P x → Q x)
          → Q (if b then f x else x)
      chosen true t e = t refl h.0
      chosen false t e = e refl h.0

  pub All-both {κ μ} :
      (P : A → Type κ) (Q : A → Type μ) (xs : List A)
      → All P xs
      → All Q xs
      → All (λ x. P x × Q x) xs
  All-both P Q [] h k = tt
  All-both P Q (x ∷ xs) h k = ((h.0, k.0), All-both P Q xs h.1 k.1)

  select_step :
      (p q : A → Bool) (x : A) (xs : List A)
      → any_of q (select p xs) ≡ true
      → any_of q (select p (x ∷ xs)) ≡ true
  select_step p q x xs h = ground arith

  -- A row that passes the test is among those that the query returns.
  pub All-select :
      (p : A → Bool) (q : A → A → Bool) (xs : List A)
      → ((x : A) → q x x ≡ true)
      → All (λ x. p x ≡ true → any_of (q x) (select p xs) ≡ true) xs
  All-select p q [] r = tt
  All-select p q (x ∷ xs) r = (
    λ hit. ground (arith, r x),
    All-map xs (λ y ih hit. select_step p (q y) x xs (ih hit)) (All-select p q xs r),
  )

  -- A row after an update is the update of the row before it.
  pub find_by-update_where :
      (q p : A → Bool) (f : A → A) (xs : List A) (x : A)
      → ((y : A) → q (f y) ≡ q y)
      → find_by q xs ≡ some x
      → find_by q (update_where p f xs) ≡ some (if p x then f x else x)
  find_by-update_where q p f [] x h e = cc
  find_by-update_where q p f (y ∷ ys) x h e = ground (arith, h y, find_by-update_where q p f ys x h)

  pub find_by-any_of :
      (p : A → Bool) (xs : List A) → any_of p xs ≡ true → (x : A) × (find_by p xs ≡ some x)
  find_by-any_of p [] h = absurd (ground arith)
  find_by-any_of p (x ∷ xs) h = elim (Bool-cases (p x)) [
    | inl hit ↦ (x, rw hit refl)
    | inr miss ↦ let (y, found) = find_by-any_of p xs (ground arith) in (y, rw miss found)
  ]

  pub any_of_mono :
      (p q : A → Bool) (xs : List A)
      → ((x : A) → p x ≡ true → q x ≡ true)
      → any_of p xs ≡ true
      → any_of q xs ≡ true
  any_of_mono p q [] h e = absurd (ground arith)
  any_of_mono p q (x ∷ xs) h e = ground (arith, h x, any_of_mono p q xs h)

  pub All-of_none {κ} :
      (P : A → Type κ) (q : A → Bool) (xs : List A)
      → any_of q xs ≡ false
      → All (λ x. q x ≡ true → P x) xs
  All-of_none P q [] h = tt
  All-of_none P q (x ∷ xs) h = ((λ hit. absurd (ground arith)), All-of_none P q xs (ground arith))

  -- Where a test passes once, the row that the query finds is the only one that passes it.
  pub All-unique :
      (q : A → Bool) (xs : List A) (p : A)
      → count_if q xs ≤ 1
      → find_by q xs ≡ some p
      → All (λ x. q x ≡ true → x ≡ p) xs
  All-unique q [] p once found = tt
  All-unique q (x ∷ xs) p once found = elim (Bool-cases (q x)) [
    | inl hit ↦ elim (Bool-cases (any_of q xs)) [
      | inl twice ↦ absurd (ground (arith, count_if_of-any_of q xs))
      | inr no_other ↦ ((λ h. ground arith), All-of_none (λ y. y ≡ p) q xs no_other)
    ]
    | inr miss ↦ ((λ h. absurd (ground arith)), All-unique q xs p (ground arith) (ground arith))
  ]

  pub All-append {κ} : (P : A → Type κ) (xs ys : List A) → All P xs → All P ys → All P (xs ++ ys)
  All-append P [] ys h k = k
  All-append P (x ∷ xs) ys h k = (h.0, All-append P xs ys h.1 k)

  pub any_of-append :
      (p : A → Bool) (xs ys : List A) → any_of p (xs ++ ys) ≡ (any_of p xs || any_of p ys)
  any_of-append p [] ys = refl
  any_of-append p (x ∷ xs) ys = ground (arith, any_of-append p xs ys)
