-- ===== src/ControlPlane/AuthCache/Revocation.antt =====
-- What Get of worker_auth_cache.go can answer about a worker after InvalidateWorker.
use openseer.Base.{
  ℕ, zero, suc, String, ◌≡◌, refl, ap, ◌∙◌, ◌≢◌, inl, inr, true, false, not, ◌||◌, some, List, [],
  ◌∷◌, arith, ltb, if◌then◌else◌, Bool-cases, Option-cases, All, length, string_eq, nat_eq, ◌==◌,
  str_eq_iff, str_eq_self,
}
use openseer.Base.Dict.{lookup}
use openseer.Base.Int.{add_duration}
use openseer.ControlPlane.AuthCache.{
  Entry, WorkerAuthCache, enabled, remove_token, get, prune_expired, oldest_from, evict_oldest,
  shrink, evict, unlink, put, set, remove_tokens, invalidate_worker,
}
use openseer.ControlPlane.AuthCache.History.{
  CacheOp, get_op, set_op, invalidate_op, apply_op, run, IsSound,
}
use openseer.ControlPlane.AuthCache.Index.{holds, holds-insert}
use openseer.ControlPlane.AuthCache.Preserved.{unlink-entries}
use openseer.ControlPlane.AuthCache.Removal.{holds-remove_token, holds-invalidate_worker}

-- The entry of a hash, if there is one, is not the worker's.
abbrev pub IsFreeAt : String → String → WorkerAuthCache → Type 0
IsFreeAt w j c = holds w j c.entries ≡ false

abbrev pub IsFree : String → WorkerAuthCache → Type 0
IsFree w c = (k : String) → IsFreeAt w k c

module _ (w j : String) where
  remove_token-IsFreeAt :
      (k : String) (c : WorkerAuthCache) → IsFreeAt w j c → IsFreeAt w j (remove_token k c)
  remove_token-IsFreeAt k c h = rw (holds-remove_token w j k c, h) (ground arith)

  prune_expired-IsFreeAt :
      (now : ℕ) (es : List (String × Entry)) (c : WorkerAuthCache)
      → IsFreeAt w j c
      → IsFreeAt w j (prune_expired now es c)
  unfolding prune_expired
  prune_expired-IsFreeAt now [] c h = h
  prune_expired-IsFreeAt now ((k, e) ∷ es) c h = elim (Bool-cases (ltb e.expires_at now)) [
    | inl t ↦
        rw (t, prune_expired)
          (prune_expired-IsFreeAt now es (remove_token k c) (remove_token-IsFreeAt k c h))
    | inr t ↦ rw (t, prune_expired) (prune_expired-IsFreeAt now es c h)
  ]

  evict_oldest-IsFreeAt :
      (es : List (String × Entry)) (c : WorkerAuthCache)
      → IsFreeAt w j c
      → IsFreeAt w j (evict_oldest es c)
  unfolding evict_oldest
  evict_oldest-IsFreeAt [] c h = h
  evict_oldest-IsFreeAt ((k, e) ∷ es) c h =
      remove_token-IsFreeAt (oldest_from k e.expires_at es) c h

  shrink-IsFreeAt : (fuel : ℕ) (c : WorkerAuthCache) → IsFreeAt w j c → IsFreeAt w j (shrink fuel c)
  unfolding shrink
  shrink-IsFreeAt zero c h = h
  shrink-IsFreeAt (suc fuel) c h = elim (Bool-cases (ltb c.max_entries (length c.entries))) [
    | inl t ↦
        rw t (shrink-IsFreeAt fuel (evict_oldest c.entries c) (evict_oldest-IsFreeAt c.entries c h))
    | inr t ↦ rw t h
  ]

  put-IsFreeAt :
      (now : ℕ) (k v : String) (c : WorkerAuthCache)
      → w ≢ v
      → IsFreeAt w j c
      → IsFreeAt w j (put now k v c)
  unfolding put
  put-IsFreeAt now k v c ne h =
      holds-insert w j k (record { worker_id = v; expires_at = add_duration now c.ttl })
        (unlink k v c).entries
      ∙ ap (λ es. if k == j then v == w else holds w j es) (unlink-entries k v c)
      ∙ ground (arith, str_eq_iff v w, h)

  remove_tokens-IsFreeAt :
      (hs : List String) (c : WorkerAuthCache) → IsFreeAt w j c → IsFreeAt w j (remove_tokens hs c)
  unfolding remove_tokens
  remove_tokens-IsFreeAt [] c h = h
  remove_tokens-IsFreeAt (k ∷ hs) c h =
      remove_tokens-IsFreeAt hs (remove_token k c) (remove_token-IsFreeAt k c h)

  get-IsFreeAt :
      (now : ℕ) (k : String) (c : WorkerAuthCache) → IsFreeAt w j c → IsFreeAt w j (get now k c).1
  unfolding get
  get-IsFreeAt now k c h = elim (Bool-cases (not (enabled c) || k == "")) [
    | inl t ↦ rw t h
    | inr t ↦ elim (Option-cases (lookup k c.entries)) [
      | inl e ↦ rw (t, e, get) h
      | inr (x, e) ↦ elim (Bool-cases (ltb x.expires_at now)) [
        | inl l ↦ rw (t, e, l, get) (remove_token-IsFreeAt k c h)
        | inr l ↦ rw (t, e, l, get) h
      ]
    ]
  ]

  -- A new entry of another hash.
  put_other-IsFreeAt :
      (now : ℕ) (k v : String) (c : WorkerAuthCache)
      → (k == j) ≡ false
      → IsFreeAt w j c
      → IsFreeAt w j (put now k v c)
  unfolding put
  put_other-IsFreeAt now k v c ne h =
      holds-insert w j k (record { worker_id = v; expires_at = add_duration now c.ttl })
        (unlink k v c).entries
      ∙ ap (λ es. if k == j then v == w else holds w j es) (unlink-entries k v c)
      ∙ rw ne h

  -- Set leaves the hash free of the worker, as its writes do before the eviction.
  evicted-IsFreeAt :
      (now : ℕ) (k v : String) (c : WorkerAuthCache)
      → IsFreeAt w j (put now k v c)
      → IsFreeAt w j c
      → IsFreeAt w j (set now k v c)
  unfolding set evict
  evicted-IsFreeAt now k v c o h = elim (Bool-cases (not (enabled c) || k == "" || v == "")) [
    | inl t ↦ rw t h
    | inr t ↦
        let c' = put now k v c in
        let pruned = prune_expired now c'.entries c' in
        rw t (
          shrink-IsFreeAt (length pruned.entries) pruned
            (prune_expired-IsFreeAt now c'.entries c' o))
  ]

  pub set-IsFreeAt :
      (now : ℕ) (k v : String) (c : WorkerAuthCache)
      → w ≢ v
      → IsFreeAt w j c
      → IsFreeAt w j (set now k v c)
  set-IsFreeAt now k v c o h = evicted-IsFreeAt now k v c (put-IsFreeAt now k v c o h) h

  pub set_other-IsFreeAt :
      (now : ℕ) (k v : String) (c : WorkerAuthCache)
      → (k == j) ≡ false
      → IsFreeAt w j c
      → IsFreeAt w j (set now k v c)
  set_other-IsFreeAt now k v c o h = evicted-IsFreeAt now k v c (put_other-IsFreeAt now k v c o h) h

  pub invalidate_worker-IsFreeAt :
      (v : String) (c : WorkerAuthCache) → IsFreeAt w j c → IsFreeAt w j (invalidate_worker v c)
  unfolding invalidate_worker
  invalidate_worker-IsFreeAt v c h = elim (Bool-cases (not (enabled c) || v == "")) [
    | inl t ↦ rw t h
    | inr t ↦ elim (Option-cases (lookup v c.tokens_by_worker)) [
      | inl e ↦ rw (t, e, invalidate_worker) h
      | inr (hs, e) ↦ rw (t, e, invalidate_worker) (remove_tokens-IsFreeAt hs c h)
    ]
  ]

pub get-IsFree :
    (w : String) (now : ℕ) (k : String) (c : WorkerAuthCache)
    → IsFree w c
    → IsFree w (get now k c).1
get-IsFree w now k c h j = get-IsFreeAt w j now k c (h j)

pub set-IsFree :
    (w : String) (now : ℕ) (k v : String) (c : WorkerAuthCache)
    → w ≢ v
    → IsFree w c
    → IsFree w (set now k v c)
set-IsFree w now k v c o h j = set-IsFreeAt w j now k v c o (h j)

-- An operation that does not cache the worker anew.
abbrev pub IsOther : String → CacheOp → Type 0
IsOther w (get_op now k) = Unit
IsOther w (set_op now k v) = w ≢ v
IsOther w (invalidate_op v) = Unit

apply_op-IsFree :
    (w : String) (op : CacheOp) (c : WorkerAuthCache)
    → IsOther w op
    → IsFree w c
    → IsFree w (apply_op op c)
unfolding apply_op
apply_op-IsFree w (get_op now k) c o h = get-IsFree w now k c h
apply_op-IsFree w (set_op now k v) c o h = set-IsFree w now k v c o h
apply_op-IsFree w (invalidate_op v) c o h = λ j. invalidate_worker-IsFreeAt w j v c (h j)

run-IsFree :
    (w : String) (ops : List CacheOp) (c : WorkerAuthCache)
    → All (IsOther w) ops
    → IsFree w c
    → IsFree w (run ops c)
unfolding run
run-IsFree w [] c o h = h
run-IsFree w (op ∷ ops) c o h = run-IsFree w ops (apply_op op c) o.1 (apply_op-IsFree w op c o.0 h)

-- Get answers with the worker of the entry, and not after the entry expired.
pub get_held :
    (now : ℕ) (k w : String) (c : WorkerAuthCache)
    → (get now k c).0 ≡ some w
    → holds w k c.entries ≡ true
unfolding get holds
get_held now k w c h = elim (Bool-cases (not (enabled c) || k == "")) [
  | inl t ↦ absurd (ground arith)
  | inr t ↦ elim (Option-cases (lookup k c.entries)) [
    | inl e ↦ absurd (ground arith)
    | inr (x, e) ↦ elim (Bool-cases (ltb x.expires_at now)) [
      | inl l ↦ absurd (ground arith)
      | inr l ↦ ground (arith, str_eq_iff x.worker_id w)
    ]
  ]
]

pub invalidated-IsFree :
    (w : String) (c : WorkerAuthCache)
    → IsSound c
    → (not (enabled c) || w == "") ≡ false
    → IsFree w (invalidate_worker w c)
invalidated-IsFree w c h g j = holds-invalidate_worker w w j c h g ∙ rw (str_eq_self w) refl

pub free_unanswered :
    (w : String) (c : WorkerAuthCache)
    → IsFree w c
    → (now : ℕ) (k : String) → (get now k c).0 ≢ some w
free_unanswered w c free now k e =
    let gone = free k in absurd (ground (arith, get_held now k w c e))

-- A sound, enabled cache does not authenticate a worker with any token at any time after
-- InvalidateWorker was called for it, however Get, Set and InvalidateWorker are called after that,
-- as long as Set does not cache a token of that worker again.
pub invalidated_stays_out :
    (w : String) (c : WorkerAuthCache) (ops : List CacheOp)
    → IsSound c
    → (not (enabled c) || w == "") ≡ false
    → All (IsOther w) ops
    → (now : ℕ) (k : String) → (get now k (run ops (invalidate_worker w c))).0 ≢ some w
invalidated_stays_out w c ops h g o =
    free_unanswered w (run ops (invalidate_worker w c))
      (run-IsFree w ops (invalidate_worker w c) o (invalidated-IsFree w c h g))
