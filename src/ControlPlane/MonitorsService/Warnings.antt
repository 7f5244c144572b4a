-- ===== src/ControlPlane/MonitorsService/Warnings.antt =====
-- zeroHealthyRegions of internal/app/control-plane/api/monitors/service.go against the table of workers.
use openseer.Base.{
  ℕ, String, ◌≡◌, refl, sym, ap, ◌∙◌, subst, inl, inr, Bool, true, false, not, ◌&&◌, ◌||◌, List, [],
  ◌∷◌, map, arith, if◌then◌else◌, Bool-cases, any, count_if, string_eq, nat_eq, ◌==◌, str_eq_iff,
  any_same,
}
use openseer.ControlPlane.MonitorsService.{healthy_in, warn_from, zero_healthy_regions}
use openseer.Store.Workers.{AppWorker, is_healthy, RegionHealth, regions_of, list_region_health}

same_health :
    (rows : List RegionHealth) (r n : String)
    → (n == r) ≡ true
    → healthy_in rows r ≡ healthy_in rows n
same_health rows r n h = ap (healthy_in rows) (sym ((str_eq_iff n r).0 h))

-- The Boolean part of each step of the loop: `e` says that the region at hand is the one asked for.
module _ (e later open_region seen zero : Bool) where
  skipped_step :
      (e ≡ true → (open_region && not seen) ≡ false)
      → (later && open_region && not seen && zero)
        ≡ ((e || later) && open_region && not seen && zero)
  skipped_step h = ground (arith, Bool-cases e)

  warned_step :
      (e ≡ true → (open_region && not seen && zero) ≡ true)
      → (e || (later && open_region && not (e || seen) && zero))
        ≡ ((e || later) && open_region && not seen && zero)
  warned_step h = ground (arith, Bool-cases e)

  healthy_step :
      (e ≡ true → zero ≡ false)
      → (later && open_region && not (e || seen) && zero)
        ≡ ((e || later) && open_region && not seen && zero)
  healthy_step h = ground (arith, Bool-cases e)

module _ (rows : List RegionHealth) (r : String) where
  closed_region :
      (n : String) (seen : List String) (b : Bool)
      → (n == "global" || any (λ s. s == n) seen) ≡ b
      → (n == r) ≡ true
      → (r == "global" || any (λ s. s == r) seen) ≡ b
  closed_region n seen b h e =
      subst (λ x. (x == "global" || any (λ s. s == x) seen) ≡ b) ((str_eq_iff n r).0 e) h

  any-warn_from :
      (seen regions : List String)
      → any (λ s. s == r) (warn_from rows seen regions) ≡ (
          any (λ s. s == r) regions
          && not (r == "global")
          && not (any (λ s. s == r) seen)
          && healthy_in rows r == 0)
  unfolding warn_from
  any-warn_from seen [] = refl
  any-warn_from seen (n ∷ regions) =
      let later = any (λ s. s == r) regions in
      let seen_r = any (λ s. s == r) seen in
      let zero_r = healthy_in rows r == 0 in
      elim (Bool-cases (n == "global" || any (λ s. s == n) seen)) [
        | inl t ↦
            rw (t, any-warn_from seen regions)
              (skipped_step (n == r) later (not (r == "global")) seen_r zero_r
                (λ e. let h = closed_region n seen true t e in ground arith))
        | inr t ↦ elim (Bool-cases (healthy_in rows n == 0)) [
          | inl z ↦
              rw (t, z, any-warn_from (n ∷ seen) regions)
                (warned_step (n == r) later (not (r == "global")) seen_r zero_r (λ e.
                  let h = closed_region n seen false t e in
                  let k = same_health rows r n e in ground arith))
          | inr z ↦
              rw (t, z, any-warn_from (n ∷ seen) regions)
                (healthy_step (n == r) later (not (r == "global")) seen_r zero_r
                  (λ e. let k = same_health rows r n e in ground arith))
        ]
      ]

any-regions_of :
    (r : String) (workers : List AppWorker)
    → any (λ s. s == r) (regions_of workers) ≡ any (λ w. w.region == r) workers
unfolding regions_of
any-regions_of r [] = refl
any-regions_of r (w ∷ workers) = ground (
  arith,
  any-regions_of r workers,
  str_eq_iff w.region r,
  any_same w.region r (regions_of workers),
)

count_if_none : {A : Type 0} (p : A → Bool) (xs : List A) → (count_if p xs == 0) ≡ not (any p xs)
count_if_none p [] = ground arith
count_if_none p (x ∷ xs) = ground (arith, count_if_none p xs)

module _ (now : ℕ) (workers : List AppWorker) where
  health_row : String → RegionHealth
  health_row r = record {
    region = r;
    healthy_workers = count_if (λ w. w.region == r && is_healthy now w) workers;
  }

  healthy_in-map :
      (r : String) (regions : List String)
      → healthy_in (map health_row regions) r ≡ (
          if any (λ s. s == r) regions
          then count_if (λ w. w.region == r && is_healthy now w) workers
          else 0)
  unfolding healthy_in health_row
  healthy_in-map r [] = refl
  healthy_in-map r (n ∷ regions) = elim (Bool-cases (n == r)) [
    | inl e ↦
        rw e (
          ap (λ x. count_if (λ w. w.region == x && is_healthy now w) workers)
            ((str_eq_iff n r).0 e))
    | inr e ↦ rw e (healthy_in-map r regions)
  ]

  healthy_elsewhere :
      (r : String) (ws : List AppWorker)
      → any (λ w. w.region == r) ws ≡ false
      → any (λ w. w.region == r && is_healthy now w) ws ≡ false
  healthy_elsewhere r [] h = refl
  healthy_elsewhere r (w ∷ ws) h = ground (arith, healthy_elsewhere r ws)

  -- A region is in the warning exactly when it is one of the monitor's regions, is not "global", and no
  -- worker of the region is active and was seen within the last minute.
  pub warned_iff_unhealthy :
      (r : String) (regions : List String)
      → any (λ s. s == r) (zero_healthy_regions (list_region_health now workers) regions) ≡ (
          any (λ s. s == r) regions
          && not (r == "global")
          && not (any (λ w. w.region == r && is_healthy now w) workers))
  unfolding zero_healthy_regions list_region_health health_row
  warned_iff_unhealthy r regions =
      let rows = map health_row (regions_of workers) in
      any-warn_from rows r [] regions
      ∙ rw (healthy_in-map r (regions_of workers), any-regions_of r workers)
          (elim (Bool-cases (any (λ w. w.region == r) workers)) [
            | inl e ↦
                rw e
                  (ground (arith, count_if_none (λ w. w.region == r && is_healthy now w) workers))
            | inr e ↦ rw e (ground (arith, healthy_elsewhere r workers e))
          ])
