-- ===== src/Store/Results/Uptime/Sums.antt =====
-- What the counts of the uptime queries (internal/app/control-plane/store/sqlc/results.sql.go) add up to.
use openseer.Base.{
  ℕ, ◌+◌, ◌≡◌, refl, sym, ◌∙◌, subst, inl, inr, Bool, true, false, List, [], ◌∷◌, map, arith, ltb,
  if◌then◌else◌, nat_beq_iff, Bool-cases, All, length, filter, any, count_if, string_eq, nat_eq,
  ◌==◌,
}
use openseer.Base.Sort.{insert_sorted, sort}
use openseer.Store.Results.Uptime.{sum_of, group_keys, timeline_of, one_if}

module _ {ℓ} {A : Type ℓ} where
  sum_of_add : (f g : A → ℕ) (xs : List A) → sum_of (λ x. f x + g x) xs ≡ sum_of f xs + sum_of g xs
  sum_of_add f g [] = omega arith
  sum_of_add f g (x ∷ xs) = omega (arith, sum_of_add f g xs)

  sum_of_ext : (f g : A → ℕ) → ((x : A) → f x ≡ g x) → (xs : List A) → sum_of f xs ≡ sum_of g xs
  sum_of_ext f g h [] = refl
  sum_of_ext f g h (x ∷ xs) = omega (arith, h x, sum_of_ext f g h xs)

  sum_of_zero : (xs : List A) → sum_of (λ x. 0) xs ≡ 0
  sum_of_zero [] = refl
  sum_of_zero (x ∷ xs) = omega (arith, sum_of_zero xs)

  sum_of-insert_sorted :
      (before : A → A → Bool) (f : A → ℕ) (a : A) (xs : List A)
      → sum_of f (insert_sorted before a xs) ≡ f a + sum_of f xs
  unfolding insert_sorted
  sum_of-insert_sorted before f a [] = refl
  sum_of-insert_sorted before f a (x ∷ xs) = ground (arith, sum_of-insert_sorted before f a xs)

  sum_of-sort :
      (before : A → A → Bool) (f : A → ℕ) (xs : List A) → sum_of f (sort before xs) ≡ sum_of f xs
  unfolding sort
  sum_of-sort before f [] = refl
  sum_of-sort before f (x ∷ xs) =
      omega (arith, sum_of-insert_sorted before f x (sort before xs), sum_of-sort before f xs)

  sum_of-map {κ} :
      {B : Type κ} (f : B → ℕ) (g : A → B) (xs : List A)
      → sum_of f (map g xs) ≡ sum_of (λ x. f (g x)) xs
  sum_of-map f g [] = refl
  sum_of-map f g (x ∷ xs) = omega (arith, sum_of-map f g xs)

  pub sum_of_one : (xs : List A) → sum_of (λ x. 1) xs ≡ length xs
  sum_of_one [] = refl
  sum_of_one (x ∷ xs) = omega (arith, sum_of_one xs)

  pub sum_of-one_if : (p : A → Bool) (xs : List A) → sum_of (λ x. one_if (p x)) xs ≡ count_if p xs
  sum_of-one_if p [] = refl
  sum_of-one_if p (x ∷ xs) = ground (arith, sum_of-one_if p xs)

abbrev IsDistinct : List ℕ → Type 0
IsDistinct [] = Unit
IsDistinct (k ∷ ks) = (any (λ j. j == k) ks ≡ false) × IsDistinct ks

group_keys-IsDistinct : (keys : List ℕ) → IsDistinct (group_keys keys)
unfolding group_keys
group_keys-IsDistinct [] = tt
group_keys-IsDistinct (k ∷ keys) = elim (Bool-cases (any (λ j. j == k) (group_keys keys))) [
  | inl e ↦ rw e (group_keys-IsDistinct keys)
  | inr e ↦ rw e (e, group_keys-IsDistinct keys)
]

any-group_keys :
    (v : ℕ) (keys : List ℕ) → any (λ j. j == v) (group_keys keys) ≡ any (λ j. j == v) keys
unfolding group_keys
any-group_keys v [] = refl
any-group_keys v (k ∷ keys) = elim (Bool-cases (any (λ j. j == k) (group_keys keys))) [
  | inl e ↦ rw e (elim (Bool-cases (k == v)) [
    | inl f ↦
        let same : any (λ j. j == v) (group_keys keys) ≡ true =
          subst (λ z. any (λ j. j == z) (group_keys keys) ≡ true) ((nat_beq_iff k v).0 f) e in
        rw (f, same) refl
    | inr f ↦ rw f (any-group_keys v keys)
  ])
  | inr e ↦ rw e (ground (arith, any-group_keys v keys))
]

-- The weight of one value falls into the group of its key, and no other.
alone :
    (v w : ℕ) (ks : List ℕ)
    → any (λ j. j == v) ks ≡ false
    → sum_of (λ k. if v == k then w else 0) ks ≡ 0
alone v w [] h = refl
alone v w (k ∷ ks) h = ground (arith, alone v w ks)

in_one :
    (v w : ℕ) (ks : List ℕ)
    → IsDistinct ks
    → any (λ j. j == v) ks ≡ true
    → sum_of (λ k. if v == k then w else 0) ks ≡ w
in_one v w [] d h = absurd (ground arith)
in_one v w (k ∷ ks) d h = elim (Bool-cases (v == k)) [
  | inl e ↦
      let fresh : any (λ j. j == v) ks ≡ false =
        subst (λ z. any (λ j. j == z) ks ≡ false) (sym ((nat_beq_iff v k).0 e)) d.0 in
      rw (e, alone v w ks fresh) (omega arith)
  | inr e ↦ rw e (ground (arith, in_one v w ks d.1))
]

module _ {ℓ} {A : Type ℓ} (key weight : A → ℕ) where
  sum_of_groups :
      (ks : List ℕ)
      → IsDistinct ks
      → (rows : List A) → All (λ x. any (λ j. j == key x) ks ≡ true) rows
      → sum_of (λ k. sum_of weight (filter (λ x. key x == k) rows)) ks ≡ sum_of weight rows
  sum_of_groups ks d [] h = sum_of_zero ks
  sum_of_groups ks d (x ∷ rows) h = omega (
    arith,
    sum_of_ext (λ k. sum_of weight (filter (λ y. key y == k) (x ∷ rows)))
        (λ k. (if key x == k then weight x else 0) + sum_of weight (filter (λ y. key y == k) rows))
        (λ k. ground arith) ks,
    sum_of_add (λ k. if key x == k then weight x else 0)
        (λ k. sum_of weight (filter (λ y. key y == k) rows)) ks,
    in_one (key x) (weight x) ks d h.0,
    sum_of_groups ks d rows h.1,
  )

  has_key :
      (rows : List A) (ks : List ℕ)
      → ((v : ℕ) → any (λ j. j == v) (map key rows) ≡ true → any (λ j. j == v) ks ≡ true)
      → All (λ x. any (λ j. j == key x) ks ≡ true) rows
  has_key [] ks h = tt
  has_key (x ∷ rows) ks h = (
    h (key x) (rw ((nat_beq_iff (key x) (key x)).1 refl) refl),
    has_key rows ks (λ v e. h v (ground arith)),
  )

  -- The groups of all rows add up to the rows.
  pub sum_of-group_keys :
      (before : ℕ → ℕ → Bool) (rows : List A)
      → sum_of
          (λ k. sum_of weight (filter (λ x. key x == k) rows))
          (sort before (group_keys (map key rows)))
        ≡ sum_of weight rows
  sum_of-group_keys before rows =
      sum_of-sort before (λ k. sum_of weight (filter (λ x. key x == k) rows)) _
      ∙ sum_of_groups (group_keys (map key rows)) (group_keys-IsDistinct (map key rows)) rows
          (has_key rows _ (λ v e. any-group_keys v (map key rows) ∙ e))

module _ {ℓ} {A : Type ℓ} (percent : ℕ → ℕ → ℕ) (key total successful : A → ℕ) where
  pub timeline_total :
      (rows : List A)
      → sum_of (λ p. p.total_checks) (timeline_of percent key total successful rows)
        ≡ sum_of total rows
  unfolding timeline_of
  timeline_total rows = sum_of-map _ _ _ ∙ sum_of-group_keys key total (λ a b. ltb a b) rows

  pub timeline_successful :
      (rows : List A)
      → sum_of (λ p. p.successful_checks) (timeline_of percent key total successful rows)
        ≡ sum_of successful rows
  unfolding timeline_of
  timeline_successful rows =
      sum_of-map _ _ _ ∙ sum_of-group_keys key successful (λ a b. ltb a b) rows
