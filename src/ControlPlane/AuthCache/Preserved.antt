-- ===== src/ControlPlane/AuthCache/Preserved.antt =====
-- Every method of worker_auth_cache.go keeps the index of the workers' hashes in step with the entries.
use openseer.Base.{
  ℕ, zero, suc, String, ◌≡◌, refl, sym, ap, ◌∙◌, subst, inl, inr, true, false, not, ◌&&◌, ◌||◌,
  none, some, List, [], ◌∷◌, arith, ltb, if◌then◌else◌, Bool-cases, Option-cases, length, ◌==◌,
  nat_eq, string_eq, str_eq_iff,
}
use openseer.Base.Dict.{lookup, delete}
use openseer.ControlPlane.AuthCache.{
  Entry, WorkerAuthCache, enabled, drop_hash, remove_token, get, prune_expired, oldest_from,
  evict_oldest, shrink, evict, unlink, put, set, remove_tokens, invalidate_worker,
}
use openseer.ControlPlane.AuthCache.Index.{
  names, holds, indexed, IsIndexed, indexed-drop_hash, indexed-add_hash, holds-delete, holds-insert,
}
use openseer.Base.Int.{add_duration}

-- The entry of a hash, whichever way the hash is spelled.
holds_by :
    (v k j : String) (es : List (String × Entry)) {x : Entry}
    → lookup k es ≡ some x
    → (k == j) ≡ true
    → holds v j es ≡ (x.worker_id == v)
unfolding holds
holds_by v k j es {x} e t =
    subst (λ i. names v (lookup i es) ≡ (x.worker_id == v)) ((str_eq_iff k j).0 t) (ap (names v) e)

pub holds-none :
    (v k j : String) (es : List (String × Entry))
    → lookup k es ≡ none
    → (k == j) ≡ true
    → holds v j es ≡ false
unfolding holds
holds-none v k j es e t =
    subst (λ i. names v (lookup i es) ≡ false) ((str_eq_iff k j).0 t) (ap (names v) e)

remove_token-present :
    (k : String) (c : WorkerAuthCache) {x : Entry}
    → lookup k c.entries ≡ some x
    → remove_token k c ≡ (record c {
      entries = delete k c.entries;
      tokens_by_worker = drop_hash x.worker_id k c.tokens_by_worker;
    })
unfolding remove_token
remove_token-present k c e = rw (e, remove_token) refl

removed-IsIndexed :
    (k : String) (c : WorkerAuthCache) {x : Entry}
    → lookup k c.entries ≡ some x
    → IsIndexed c
    → IsIndexed (record c {
      entries = delete k c.entries;
      tokens_by_worker = drop_hash x.worker_id k c.tokens_by_worker;
    })
removed-IsIndexed k c {x} e h = record {
  agrees = λ v j.
      rw
        (
          indexed-drop_hash v j x.worker_id k c.tokens_by_worker,
          holds-delete v j k c.entries,
          h.agrees v j,
        )
        (ground (arith, str_eq_iff k j, str_eq_iff x.worker_id v, holds_by v k j c.entries e));
}

pub remove_token-IsIndexed :
    (k : String) (c : WorkerAuthCache) → IsIndexed c → IsIndexed (remove_token k c)
unfolding remove_token
remove_token-IsIndexed k c h = elim (Option-cases (lookup k c.entries)) [
  | inl e ↦ subst IsIndexed (rw (e, remove_token) refl) h
  | inr (x, e) ↦ subst IsIndexed (sym (remove_token-present k c e)) (removed-IsIndexed k c e h)
]

pub prune_expired-IsIndexed :
    (now : ℕ) (es : List (String × Entry)) (c : WorkerAuthCache)
    → IsIndexed c
    → IsIndexed (prune_expired now es c)
unfolding prune_expired
prune_expired-IsIndexed now [] c h = h
prune_expired-IsIndexed now ((k, e) ∷ es) c h = elim (Bool-cases (ltb e.expires_at now)) [
  | inl t ↦ rw t (prune_expired-IsIndexed now es (remove_token k c) (remove_token-IsIndexed k c h))
  | inr t ↦ rw t (prune_expired-IsIndexed now es c h)
]

evict_oldest-IsIndexed :
    (es : List (String × Entry)) (c : WorkerAuthCache) → IsIndexed c → IsIndexed (evict_oldest es c)
unfolding evict_oldest
evict_oldest-IsIndexed [] c h = h
evict_oldest-IsIndexed ((k, e) ∷ es) c h =
    remove_token-IsIndexed (oldest_from k e.expires_at es) c h

shrink-IsIndexed : (fuel : ℕ) (c : WorkerAuthCache) → IsIndexed c → IsIndexed (shrink fuel c)
unfolding shrink
shrink-IsIndexed zero c h = h
shrink-IsIndexed (suc fuel) c h = elim (Bool-cases (ltb c.max_entries (length c.entries))) [
  | inl t ↦
      rw t (shrink-IsIndexed fuel (evict_oldest c.entries c) (evict_oldest-IsIndexed c.entries c h))
  | inr t ↦ rw t h
]

pub evict-IsIndexed : (now : ℕ) (c : WorkerAuthCache) → IsIndexed c → IsIndexed (evict now c)
unfolding evict
evict-IsIndexed now c h =
    shrink-IsIndexed (length (prune_expired now c.entries c).entries)
      (prune_expired now c.entries c) (prune_expired-IsIndexed now c.entries c h)

pub unlink-entries : (k w : String) (c : WorkerAuthCache) → (unlink k w c).entries ≡ c.entries
unfolding unlink
unlink-entries k w c = elim (Option-cases (lookup k c.entries)) [
  | inl e ↦ rw (e, unlink) refl
  | inr (x, e) ↦ rw (e, unlink) (ground arith)
]

-- Unlinking leaves the hash with no worker but the new one, and moves no other hash.
unlink-indexed :
    (k w v j : String) (c : WorkerAuthCache)
    → IsIndexed c
    → (if w == v && k == j then true else indexed v j (unlink k w c).tokens_by_worker)
      ≡ (if k == j then w == v else holds v j c.entries)
unfolding unlink holds
unlink-indexed k w v j c h = elim (Option-cases (lookup k c.entries)) [
  | inl e ↦
      rw (e, unlink, h.agrees v j)
        (ground (arith, str_eq_iff w v, str_eq_iff k j, holds-none v k j c.entries e))
  | inr (x, e) ↦ elim (Bool-cases (x.worker_id == w)) [
    | inl t ↦
        rw (e, t, unlink, h.agrees v j)
          (ground (
            arith,
            str_eq_iff w v,
            str_eq_iff x.worker_id v,
            str_eq_iff x.worker_id w,
            str_eq_iff k j,
            holds_by v k j c.entries e,
          ))
    | inr t ↦
        rw (e, t, unlink, indexed-drop_hash v j x.worker_id k c.tokens_by_worker, h.agrees v j)
          (ground (
            arith,
            str_eq_iff w v,
            str_eq_iff x.worker_id v,
            str_eq_iff x.worker_id w,
            str_eq_iff k j,
            holds_by v k j c.entries e,
          ))
  ]
]

put-IsIndexed :
    (now : ℕ) (k w : String) (c : WorkerAuthCache) → IsIndexed c → IsIndexed (put now k w c)
unfolding put
put-IsIndexed now k w c h = record {
  agrees = λ v j.
      indexed-add_hash v j w k (unlink k w c).tokens_by_worker
      ∙ unlink-indexed k w v j c h
      ∙ sym (
          holds-insert v j k (record { worker_id = w; expires_at = add_duration now c.ttl })
            (unlink k w c).entries
          ∙ ap (λ es. if k == j then w == v else holds v j es) (unlink-entries k w c));
}

pub set-IsIndexed :
    (now : ℕ) (k w : String) (c : WorkerAuthCache) → IsIndexed c → IsIndexed (set now k w c)
unfolding set
set-IsIndexed now k w c h = elim (Bool-cases (not (enabled c) || k == "" || w == "")) [
  | inl t ↦ rw t h
  | inr t ↦ rw t (evict-IsIndexed now (put now k w c) (put-IsIndexed now k w c h))
]

pub get-IsIndexed :
    (now : ℕ) (k : String) (c : WorkerAuthCache) → IsIndexed c → IsIndexed (get now k c).1
unfolding get
get-IsIndexed now k c h = elim (Bool-cases (not (enabled c) || k == "")) [
  | inl t ↦ rw t h
  | inr t ↦ elim (Option-cases (lookup k c.entries)) [
    | inl e ↦ rw (t, e, get) h
    | inr (x, e) ↦ elim (Bool-cases (ltb x.expires_at now)) [
      | inl l ↦ rw (t, e, l, get) (remove_token-IsIndexed k c h)
      | inr l ↦ rw (t, e, l, get) h
    ]
  ]
]

pub remove_tokens-IsIndexed :
    (hs : List String) (c : WorkerAuthCache) → IsIndexed c → IsIndexed (remove_tokens hs c)
unfolding remove_tokens
remove_tokens-IsIndexed [] c h = h
remove_tokens-IsIndexed (k ∷ hs) c h =
    remove_tokens-IsIndexed hs (remove_token k c) (remove_token-IsIndexed k c h)

pub invalidate_worker-IsIndexed :
    (w : String) (c : WorkerAuthCache) → IsIndexed c → IsIndexed (invalidate_worker w c)
unfolding invalidate_worker
invalidate_worker-IsIndexed w c h = elim (Bool-cases (not (enabled c) || w == "")) [
  | inl t ↦ rw t h
  | inr t ↦ elim (Option-cases (lookup w c.tokens_by_worker)) [
    | inl e ↦ rw (t, e, invalidate_worker) h
    | inr (hs, e) ↦ rw (t, e, invalidate_worker) (remove_tokens-IsIndexed hs c h)
  ]
]
