-- ===== src/Base/Sort.antt =====
-- `ORDER BY` as an insertion sort by a strict test. SQL leaves the order of rows that tie open; here they
-- come in the reverse order of the table.
use mathlib.Core.Path.{◌≡◌, refl}
use mathlib.Core.Logic.{inl, inr}
use mathlib.Core.Bool.{Bool, true, false, ◌||◌}
use mathlib.Core.List.{List, [], ◌∷◌}
use native.Mathlib.Omega.{arith}
use openseer.Base.Tests.{if◌then◌else◌, Bool-cases}
use openseer.Base.Lists.{All, All-imp, any, count_if}

module _ {ℓ} {A : Type ℓ} (before : A → A → Bool) where
  -- `a` goes behind everything that must not come after it.
  unfoldable pub insert_sorted : A → List A → List A
  insert_sorted a [] = a ∷ []
  insert_sorted a (x ∷ xs) = if before a x then a ∷ x ∷ xs else x ∷ insert_sorted a xs

  unfoldable pub sort : List A → List A
  sort [] = []
  sort (x ∷ xs) = insert_sorted x (sort xs)

  -- No later row precedes an earlier one.
  abbrev pub IsSorted : List A → Type 0
  IsSorted [] = Unit
  IsSorted (x ∷ xs) = All (λ y. before y x ≡ false) xs × IsSorted xs

  pub insert_sorted-All {κ} :
      (P : A → Type κ) (a : A) (xs : List A) → P a → All P xs → All P (insert_sorted a xs)
  unfolding insert_sorted
  insert_sorted-All P a [] pa h = (pa, tt)
  insert_sorted-All P a (x ∷ xs) pa h = elim (Bool-cases (before a x)) [
    | inl first ↦ rw first (pa, h)
    | inr later ↦ rw later (h.0, insert_sorted-All P a xs pa h.1)
  ]

  pub sort-All {κ} : (P : A → Type κ) (xs : List A) → All P xs → All P (sort xs)
  unfolding sort
  sort-All P [] h = tt
  sort-All P (x ∷ xs) h = insert_sorted-All P x (sort xs) h.0 (sort-All P xs h.1)

  All-of_insert_sorted {κ} :
      (P : A → Type κ) (a : A) (xs : List A) → All P (insert_sorted a xs) → P a × All P xs
  unfolding insert_sorted
  All-of_insert_sorted P a [] h = h
  All-of_insert_sorted P a (x ∷ xs) h = elim (Bool-cases (before a x)) [
    | inl first ↦ rw first at h
    | inr later ↦
        let h' = rw later at h in
        let (ha, hs) = All-of_insert_sorted P a xs h'.1 in (ha, (h'.0, hs))
  ]

  pub All-of_sort {κ} : (P : A → Type κ) (xs : List A) → All P (sort xs) → All P xs
  unfolding sort
  All-of_sort P [] h = tt
  All-of_sort P (x ∷ xs) h =
      let (hx, hs) = All-of_insert_sorted P x (sort xs) h in (hx, All-of_sort P xs hs)

  pub any-insert_sorted :
      (p : A → Bool) (a : A) (xs : List A) → any p (insert_sorted a xs) ≡ (p a || any p xs)
  unfolding insert_sorted
  any-insert_sorted p a [] = refl
  any-insert_sorted p a (x ∷ xs) = ground (arith, any-insert_sorted p a xs)

  pub any-sort : (p : A → Bool) (xs : List A) → any p (sort xs) ≡ any p xs
  unfolding sort
  any-sort p [] = refl
  any-sort p (x ∷ xs) = ground (arith, any-insert_sorted p x (sort xs), any-sort p xs)

  count_if-insert_sorted :
      (p : A → Bool) (a : A) (xs : List A) → count_if p (insert_sorted a xs) ≡ count_if p (a ∷ xs)
  unfolding insert_sorted
  count_if-insert_sorted p a [] = refl
  count_if-insert_sorted p a (x ∷ xs) = ground (arith, count_if-insert_sorted p a xs)

  pub count_if-sort : (p : A → Bool) (xs : List A) → count_if p (sort xs) ≡ count_if p xs
  unfolding sort
  count_if-sort p [] = refl
  count_if-sort p (x ∷ xs) =
      ground (arith, count_if-insert_sorted p x (sort xs), count_if-sort p xs)

  module _ (asymmetric : (a b : A) → before a b ≡ true → before b a ≡ false)
      (negative : (a b c : A) → before b a ≡ false → before c b ≡ false → before c a ≡ false) where
    insert_sorted-IsSorted : (a : A) (xs : List A) → IsSorted xs → IsSorted (insert_sorted a xs)
    unfolding insert_sorted
    insert_sorted-IsSorted a [] h = (tt, tt)
    insert_sorted-IsSorted a (x ∷ xs) h = elim (Bool-cases (before a x)) [
      | inl first ↦
          let head : before x a ≡ false = asymmetric a x first in
          rw first (
            (
              head,
              All-imp (λ y. before y x ≡ false) (λ y. before y a ≡ false) (λ y. negative a x y head)
                  xs h.0,
            ),
            h,
          )
      | inr later ↦ rw later (
        insert_sorted-All (λ y. before y x ≡ false) a xs later h.0,
        insert_sorted-IsSorted a xs h.1,
      )
    ]

    pub sort-IsSorted : (xs : List A) → IsSorted (sort xs)
    unfolding sort
    sort-IsSorted [] = tt
    sort-IsSorted (x ∷ xs) = insert_sorted-IsSorted x (sort xs) (sort-IsSorted xs)
