-- ===== src/ControlPlane/AuthCache/Removal.antt =====
-- Which entries removeTokenLocked and InvalidateWorker of worker_auth_cache.go drop.
use openseer.Base.{
  String, ◌≡◌, refl, sym, ap, ◌∙◌, inl, inr, Bool, true, false, not, ◌||◌, List, [], ◌∷◌, arith,
  if◌then◌else◌, Bool-cases, Option-cases, any, string_eq, nat_eq, ◌==◌, str_eq_iff,
}
use openseer.Base.Dict.{lookup}
use openseer.ControlPlane.AuthCache.{
  Entry, WorkerAuthCache, enabled, remove_token, remove_tokens, invalidate_worker,
}
use openseer.ControlPlane.AuthCache.History.{IsSound}
use openseer.ControlPlane.AuthCache.Index.{holds, has_hash, indexed, holds-delete}
use openseer.ControlPlane.AuthCache.Preserved.{holds-none}

pub holds-remove_token :
    (v j k : String) (c : WorkerAuthCache)
    → holds v j (remove_token k c).entries ≡ (if k == j then false else holds v j c.entries)
unfolding remove_token
holds-remove_token v j k c = elim (Option-cases (lookup k c.entries)) [
  | inl e ↦ rw (e, remove_token) (ground (arith, holds-none v k j c.entries e))
  | inr (x, e) ↦ rw (e, remove_token) (holds-delete v j k c.entries)
]

holds-remove_tokens :
    (v j : String) (hs : List String) (c : WorkerAuthCache)
    → holds v j (remove_tokens hs c).entries
      ≡ (if any (λ h. h == j) hs then false else holds v j c.entries)
unfolding remove_tokens
holds-remove_tokens v j [] c = refl
holds-remove_tokens v j (k ∷ hs) c =
    holds-remove_tokens v j hs (remove_token k c) ∙ rw (holds-remove_token v j k c) (ground arith)

holds_unique :
    (v w j : String) (es : List (String × Entry))
    → holds v j es ≡ true
    → holds w j es ≡ true
    → (w == v) ≡ true
unfolding holds
holds_unique v w j es hv hw = elim (Option-cases (lookup j es)) [
  | inl e ↦ absurd (ground arith)
  | inr (x, e) ↦ ground (arith, str_eq_iff x.worker_id v, str_eq_iff x.worker_id w, str_eq_iff w v)
]

holds_other :
    (v w j : String) (es : List (String × Entry)) → (w == v) ≡ true → holds w j es ≡ holds v j es
holds_other v w j es e = ap (λ x. holds x j es) ((str_eq_iff w v).0 e)

-- To drop what one worker holds is to drop its entries and no others.
spread :
    (v w j : String) (b : Bool) (es : List (String × Entry))
    → b ≡ holds w j es
    → (if b then false else holds v j es) ≡ (if w == v then false else holds v j es)
spread v w j b es e = rw e (
    ground (
      arith,
      Bool-cases (holds v j es),
      Bool-cases (holds w j es),
      holds_unique v w j es,
      holds_other v w j es,
    ))

-- InvalidateWorker on a sound, enabled cache drops each entry of the worker, and no entry of another.
pub holds-invalidate_worker :
    (v w j : String) (c : WorkerAuthCache)
    → IsSound c
    → (not (enabled c) || w == "") ≡ false
    → holds v j (invalidate_worker w c).entries ≡ (if w == v then false else holds v j c.entries)
unfolding invalidate_worker indexed
holds-invalidate_worker v w j c h g = elim (Option-cases (lookup w c.tokens_by_worker)) [
  | inl e ↦
      rw (g, e, invalidate_worker)
        (spread v w j false c.entries (sym (ap (has_hash j) e) ∙ h.is_indexed.agrees w j))
  | inr (hs, e) ↦
      rw (g, e, invalidate_worker, holds-remove_tokens v j hs c)
        (spread v w j (any (λ k. k == j) hs) c.entries
          (sym (ap (has_hash j) e) ∙ h.is_indexed.agrees w j))
]
