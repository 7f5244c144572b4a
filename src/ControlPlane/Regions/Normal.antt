-- ===== src/ControlPlane/Regions/Normal.antt =====
-- What NormalizeList of internal/pkg/regions/normalize.go returns.
use openseer.Base.{
  String, ◌≡◌, refl, ap, ◌∙◌, inl, inr, false, not, ◌&&◌, List, [], ◌∷◌, arith, Bool-cases, All,
  any, All-of_forall, string_eq, nat_eq, ◌==◌, str_eq_iff, str_eq_self, any_same,
}
use openseer.ControlPlane.Regions.{normalize, normalize_from, normalize_list}

abbrev pub NoRepeats : List String → Type 0
NoRepeats [] = Unit
NoRepeats (x ∷ xs) = (any (λ y. y == x) xs ≡ false) × NoRepeats xs

still_fresh :
    (x : String) (seen xs : List String)
    → any (λ y. y == x) xs ≡ false
    → All (λ r. any (λ s. s == r) seen ≡ false) xs
    → All (λ r. any (λ s. s == r) (x ∷ seen) ≡ false) xs
still_fresh x seen [] d h = tt
still_fresh x seen (y ∷ xs) d h =
    (ground (arith, str_eq_iff x y, str_eq_iff y x), still_fresh x seen xs (ground arith) h.1)

module _ (clean : String → String) where
  any-normalize_from :
      (n : String) (seen regions : List String)
      → any (λ s. s == n) (normalize_from clean seen regions)
        ≡ (not (any (λ s. s == n) seen) && any (λ r. normalize clean r == n) regions)
  unfolding normalize_from
  any-normalize_from n seen [] = ground arith
  any-normalize_from n seen (region ∷ regions) =
      elim (Bool-cases (any (λ s. s == normalize clean region) seen)) [
        | inl e ↦
            rw (e, any-normalize_from n seen regions)
              (ground (arith, any_same (normalize clean region) n seen))
        | inr e ↦
            rw (e, any-normalize_from n (normalize clean region ∷ seen) regions)
              (ground (arith, any_same (normalize clean region) n seen))
      ]

  normalize_from-NoRepeats :
      (seen regions : List String) → NoRepeats (normalize_from clean seen regions)
  unfolding normalize_from
  normalize_from-NoRepeats seen [] = tt
  normalize_from-NoRepeats seen (region ∷ regions) =
      elim (Bool-cases (any (λ s. s == normalize clean region) seen)) [
        | inl e ↦ rw e (normalize_from-NoRepeats seen regions)
        | inr e ↦
            let n = normalize clean region in
            rw e (
              any-normalize_from n (n ∷ seen) regions ∙ rw (str_eq_self n) refl,
              normalize_from-NoRepeats (n ∷ seen) regions,
            )
      ]

  -- A list that is normal already, without repeats.
  normalize_from-normal :
      (seen regions : List String)
      → All (λ r. normalize clean r ≡ r) regions
      → All (λ r. any (λ s. s == r) seen ≡ false) regions
      → NoRepeats regions
      → normalize_from clean seen regions ≡ regions
  unfolding normalize_from
  normalize_from-normal seen [] normal fresh d = refl
  normalize_from-normal seen (region ∷ regions) normal fresh d =
      rw (normal.0, fresh.0, normalize_from)
        (ap (λ xs. region ∷ xs)
          (normalize_from-normal (region ∷ seen) regions normal.1
            (still_fresh region seen regions d.0 fresh.1) d.1))

  -- NormalizeList returns the normal form of each region of its argument, nothing else, and no region
  -- twice.
  pub normalize_list_sound :
      (regions : List String)
      → NoRepeats (normalize_list clean regions)
        × ((n : String)
            → any (λ s. s == n) (normalize_list clean regions)
              ≡ any (λ r. normalize clean r == n) regions)
  unfolding normalize_list
  normalize_list_sound regions =
      (normalize_from-NoRepeats [] regions, (λ n. any-normalize_from n [] regions))

  module _ (idempotent : (s : String) → clean (clean s) ≡ clean s)
      (global : clean "global" ≡ "global") where
    normalize-idempotent : (s : String) → normalize clean (normalize clean s) ≡ normalize clean s
    unfolding normalize
    normalize-idempotent s = elim (Bool-cases (clean s == "")) [
      | inl e ↦ rw (e, global) refl
      | inr e ↦ rw (e, idempotent s) (rw e refl)
    ]

    normalize_from-fixed :
        (seen regions : List String)
        → All (λ r. normalize clean r ≡ r) (normalize_from clean seen regions)
    unfolding normalize_from
    normalize_from-fixed seen [] = tt
    normalize_from-fixed seen (region ∷ regions) =
        elim (Bool-cases (any (λ s. s == normalize clean region) seen)) [
          | inl e ↦ rw e (normalize_from-fixed seen regions)
          | inr e ↦ rw e (
            normalize-idempotent region,
            normalize_from-fixed (normalize clean region ∷ seen) regions,
          )
        ]

    -- Normalizing a list again changes nothing, if trimming and lowercasing twice is the same as once
    -- and leaves "global" alone.
    pub normalize_list-idempotent :
        (regions : List String)
        → normalize_list clean (normalize_list clean regions) ≡ normalize_list clean regions
    unfolding normalize_list
    normalize_list-idempotent regions =
        let out = normalize_from clean [] regions in
        normalize_from-normal [] out (normalize_from-fixed [] regions)
          (All-of_forall _ (λ r. refl) out) (normalize_from-NoRepeats [] regions)
