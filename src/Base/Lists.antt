-- ===== src/Base/Lists.antt =====
-- Lists measured by native numbers and filtered by Boolean tests.
use Prim.Native.Nat.{ℕ, zero, suc, ◌+◌, ◌≤◌}
use mathlib.Core.Logic.{◌⊎◌, inl, inr}
use mathlib.Core.Path.{subst, ◌≡◌, refl, ap}
use mathlib.Core.Bool.{Bool, true, false, not, ◌&&◌, ◌||◌}
use mathlib.Core.List.{List, [], ◌∷◌, ◌++◌, map, Mem, mem-cons_self, mem-cons_of_mem}
use mathlib.Core.Option.{Option, none, some}
use native.Mathlib.Omega.{arith}
use openseer.Base.Tests.{if◌then◌else◌, Bool-cases}

-- A predicate that holds of every element, by recursion, so that the tactics read and build it.
abbrev pub All {ℓ κ} : {A : Type ℓ} → (A → Type κ) → List A → Type κ
All P [] = Unit
All P (x ∷ xs) = P x × All P xs

module _ {ℓ} {A : Type ℓ} where
  abbrev pub length : List A → ℕ
  length [] = 0
  length (x ∷ xs) = suc (length xs)

  abbrev pub take : ℕ → List A → List A
  take zero xs = []
  take (suc n) [] = []
  take (suc n) (x ∷ xs) = x ∷ take n xs

  abbrev pub filter : (A → Bool) → List A → List A
  filter p [] = []
  filter p (x ∷ xs) = if p x then x ∷ filter p xs else filter p xs

  abbrev pub any : (A → Bool) → List A → Bool
  any p [] = false
  any p (x ∷ xs) = p x || any p xs

  abbrev pub count_if : (A → Bool) → List A → ℕ
  count_if p [] = 0
  count_if p (x ∷ xs) = if p x then suc (count_if p xs) else count_if p xs

  -- The first element that passes the test.
  abbrev pub find : (A → Bool) → List A → Option A
  find p [] = none
  find p (x ∷ xs) = if p x then some x else find p xs

  pub length-append : (xs ys : List A) → length (xs ++ ys) ≡ length xs + length ys
  length-append [] ys = omega arith
  length-append (x ∷ xs) ys = omega (arith, length-append xs ys)

  pub length-filter-le : (p : A → Bool) (xs : List A) → length (filter p xs) ≤ length xs
  length-filter-le p [] = omega arith
  length-filter-le p (x ∷ xs) = ground (arith, length-filter-le p xs)

  pub length-take-le : (n : ℕ) (xs : List A) → length (take n xs) ≤ n
  length-take-le zero xs = omega arith
  length-take-le (suc n) [] = omega arith
  length-take-le (suc n) (x ∷ xs) = omega (arith, length-take-le n xs)

  abbrev pub or_default : A → Option A → A
  or_default d none = d
  or_default d (some a) = a

  pub find_sound : (p : A → Bool) (xs : List A) {a : A} → find p xs ≡ some a → p a ≡ true
  find_sound p [] h = cc
  find_sound p (x ∷ xs) {a} h = ground (arith, find_sound p xs {a = a})

  pub find-Mem : (p : A → Bool) (xs : List A) {a : A} → find p xs ≡ some a → Mem a xs
  find-Mem p [] h = absurd (ground arith)
  find-Mem p (x ∷ xs) {a} h = elim (Bool-cases (p x)) [
    | inl e ↦
        let same : some x ≡ some a = rw e at h in
        subst (λ y. Mem y (x ∷ xs)) (ap (or_default x) same) mem-cons_self
    | inr e ↦ mem-cons_of_mem _ (find-Mem p xs (rw e at h))
  ]

  pub count_if-filter :
      (p q : A → Bool) (xs : List A) → count_if p (filter q xs) ≡ count_if (λ x. q x && p x) xs
  count_if-filter p q [] = refl
  count_if-filter p q (x ∷ xs) = ground (arith, count_if-filter p q xs)

  -- A test splits what another test counts.
  pub count_if-split :
      (p q : A → Bool) (xs : List A)
      → count_if p xs ≡ count_if (λ x. p x && q x) xs + count_if (λ x. p x && not (q x)) xs
  count_if-split p q [] = refl
  count_if-split p q (x ∷ xs) = ground (arith, count_if-split p q xs)

  pub count_if-true : (xs : List A) → count_if (λ x. true) xs ≡ length xs
  count_if-true [] = refl
  count_if-true (x ∷ xs) = ap suc (count_if-true xs)

  pub any-find : (p : A → Bool) (xs : List A) {a : A} → find p xs ≡ some a → any p xs ≡ true
  any-find p [] h = cc
  any-find p (x ∷ xs) {a} h = ground (arith, any-find p xs {a = a})

  pub any-append : (p : A → Bool) (xs ys : List A) → any p (xs ++ ys) ≡ (any p xs || any p ys)
  any-append p [] ys = refl
  any-append p (x ∷ xs) ys = ground (arith, any-append p xs ys)

  pub All-append {κ} : (P : A → Type κ) (xs ys : List A) → All P xs → All P ys → All P (xs ++ ys)
  All-append P [] ys hx hy = hy
  All-append P (x ∷ xs) ys hx hy = (hx.0, All-append P xs ys hx.1 hy)

  pub All-map {κ} :
      (P : A → Type κ) (f : A → A)
      → ((x : A) → P x → P (f x))
      → (xs : List A) → All P xs
      → All P (map f xs)
  All-map P f keep [] h = tt
  All-map P f keep (x ∷ xs) h = (keep x h.0, All-map P f keep xs h.1)

  pub All-of_forall {κ} : (P : A → Type κ) → ((x : A) → P x) → (xs : List A) → All P xs
  All-of_forall P h [] = tt
  All-of_forall P h (x ∷ xs) = (h x, All-of_forall P h xs)

  pub All-imp {κ μ} :
      (P : A → Type κ) (Q : A → Type μ)
      → ((x : A) → P x → Q x)
      → (xs : List A) → All P xs
      → All Q xs
  All-imp P Q f [] h = tt
  All-imp P Q f (x ∷ xs) h = (f x h.0, All-imp P Q f xs h.1)

  pub All-Mem : (xs : List A) → All (λ x. Mem x xs) xs
  All-Mem [] = tt
  All-Mem (x ∷ xs) = (mem-cons_self, All-imp _ _ (λ y h. mem-cons_of_mem x h) xs (All-Mem xs))

  pub All-zip {κ μ ν} :
      (P : A → Type κ) (Q : A → Type μ) (R : A → Type ν)
      → ((x : A) → P x → Q x → R x)
      → (xs : List A) → All P xs
      → All Q xs
      → All R xs
  All-zip P Q R f [] p q = tt
  All-zip P Q R f (x ∷ xs) p q = (f x p.0 q.0, All-zip P Q R f xs p.1 q.1)

  pub any-take-false :
      (p : A → Bool) (n : ℕ) (xs : List A) → any p xs ≡ false → any p (take n xs) ≡ false
  any-take-false p zero xs h = refl
  any-take-false p (suc n) [] h = refl
  any-take-false p (suc n) (x ∷ xs) h = ground (arith, any-take-false p n xs)

  -- What holds of all elements holds of the one that is found.
  pub All-find {κ} :
      (P : A → Type κ) (p : A → Bool) (xs : List A) {a : A} → All P xs → find p xs ≡ some a → P a
  All-find P p [] h e = cc
  All-find P p (x ∷ xs) {a} h e = elim (Bool-cases (p x)) [
    | inl t ↦ subst P (ground arith) h.0
    | inr t ↦ All-find P p xs h.1 (rw t at e)
  ]

  pub All-take {κ} : (P : A → Type κ) (n : ℕ) (xs : List A) → All P xs → All P (take n xs)
  All-take P zero xs h = tt
  All-take P (suc n) [] h = tt
  All-take P (suc n) (x ∷ xs) h = (h.0, All-take P n xs h.1)

  -- What holds of the filtered list, and of all that passes in the list itself.
  pub All-of_filter {κ} :
      (P : A → Type κ) (p : A → Bool) (xs : List A)
      → All P (filter p xs)
      → All (λ x. p x ≡ true → P x) xs
  All-of_filter P p [] h = tt
  All-of_filter P p (x ∷ xs) h = elim (Bool-cases (p x)) [
    | inl t ↦ let h' = rw t at h in ((λ _. h'.0), All-of_filter P p xs h'.1)
    | inr t ↦ ((λ e. absurd (ground arith)), All-of_filter P p xs (rw t at h))
  ]

  pub All-filter {κ} :
      (P : A → Type κ) (p : A → Bool) (xs : List A)
      → All (λ x. p x ≡ true → P x) xs
      → All P (filter p xs)
  All-filter P p [] h = tt
  All-filter P p (x ∷ xs) h = elim (Bool-cases (p x)) [
    | inl t ↦ rw t (h.0 t, All-filter P p xs h.1)
    | inr t ↦ rw t (All-filter P p xs h.1)
  ]

  pub take-cases : (n : ℕ) (xs : List A) → (length (take n xs) ≡ n) ⊎ (take n xs ≡ xs)
  take-cases zero xs = inl refl
  take-cases (suc n) [] = inr refl
  take-cases (suc n) (x ∷ xs) = elim (take-cases n xs) [
    | inl e ↦ inl (ap suc e)
    | inr e ↦ inr (rw e refl)
  ]

module _ {ℓ μ} {A : Type ℓ} {B : Type μ} (f : A → B) where
  pub All-map_of {κ} : (P : B → Type κ) (xs : List A) → All (λ x. P (f x)) xs → All P (map f xs)
  All-map_of P [] h = tt
  All-map_of P (x ∷ xs) h = (h.0, All-map_of P xs h.1)

  pub All-of_map {κ} : (P : B → Type κ) (xs : List A) → All P (map f xs) → All (λ x. P (f x)) xs
  All-of_map P [] h = tt
  All-of_map P (x ∷ xs) h = (h.0, All-of_map P xs h.1)

  pub any-map : (p : B → Bool) (xs : List A) → any p (map f xs) ≡ any (λ x. p (f x)) xs
  any-map p [] = refl
  any-map p (x ∷ xs) = ground (arith, any-map p xs)
