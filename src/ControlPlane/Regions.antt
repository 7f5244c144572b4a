-- ===== src/ControlPlane/Regions.antt =====
-- internal/pkg/regions/normalize.go. `clean` stands for strings.ToLower(strings.TrimSpace(s)).
pub mod Normal
use openseer.Base.{String, List, [], ◌∷◌, if◌then◌else◌, any, ◌==◌, nat_eq, string_eq}

unfoldable pub normalize : (String → String) → String → String
normalize clean region = if clean region == "" then "global" else clean region

-- The loop over the regions, with the set of those seen.
unfoldable pub normalize_from : (String → String) → List String → List String → List String
unfolding normalize
normalize_from clean seen [] = []
normalize_from clean seen (region ∷ regions) =
    let n = normalize clean region in
    let repeated = normalize_from clean seen regions in
    let fresh = normalize_from clean (n ∷ seen) regions in
    if any (λ s. s == n) seen then repeated else n ∷ fresh

unfoldable pub normalize_list : (String → String) → List String → List String
unfolding normalize_from
normalize_list clean regions = normalize_from clean [] regions
