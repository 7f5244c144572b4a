-- ===== src/ControlPlane/AuthCache/Limits.antt =====
-- The bound on the entries of worker_auth_cache.go: the eviction loop ends, with the limit met, and no
-- method exceeds it.
use openseer.Base.{
  ℕ, zero, suc, ◌≤◌, ◌<◌, String, ◌≡◌, refl, sym, subst, ◌⊎◌, inl, inr, true, not, ◌||◌, List, [],
  ◌∷◌, arith, ltb, Bool-cases, Option-cases, is_some, length, ◌==◌, nat_eq, string_eq, str_eq_iff,
}
use openseer.Base.Dict.{lookup, length-delete-le, length-delete-lt}
use openseer.ControlPlane.AuthCache.{
  Entry, WorkerAuthCache, enabled, remove_token, get, prune_expired, oldest_from, evict_oldest,
  shrink, evict, put, set, remove_tokens, invalidate_worker,
}

module _ (k : String) (e : Entry) (m : List (String × Entry)) where
  present_here : (j : String) → j ≡ k → is_some (lookup j ((k, e) ∷ m)) ≡ true
  unfolding lookup
  present_here j h = ground (arith, str_eq_iff k j)

  present_below :
      (j : String) → is_some (lookup j m) ≡ true → is_some (lookup j ((k, e) ∷ m)) ≡ true
  unfolding lookup
  present_below j h = ground (arith, str_eq_iff k j)

-- The key found by the scan is the starting one or that of an entry scanned.
oldest_from-cases :
    (k : String) (t : ℕ) (es : List (String × Entry))
    → (oldest_from k t es ≡ k) ⊎ (is_some (lookup (oldest_from k t es) es) ≡ true)
unfolding oldest_from
oldest_from-cases k t [] = inl refl
oldest_from-cases k t ((j, e) ∷ es) = elim (Bool-cases (ltb e.expires_at t)) [
  | inl l ↦ elim (oldest_from-cases j e.expires_at es) [
    | inl h ↦ inr (rw l (present_here j e es (oldest_from j e.expires_at es) h))
    | inr h ↦ inr (rw l (present_below j e es (oldest_from j e.expires_at es) h))
  ]
  | inr l ↦ elim (oldest_from-cases k t es) [
    | inl h ↦ inl (rw l h)
    | inr h ↦ inr (rw l (present_below j e es (oldest_from k t es) h))
  ]
]

-- The oldest entry is one of the entries.
oldest_present :
    (k : String) (e : Entry) (es : List (String × Entry))
    → is_some (lookup (oldest_from k e.expires_at es) ((k, e) ∷ es)) ≡ true
oldest_present k e es = elim (oldest_from-cases k e.expires_at es) [
  | inl h ↦ present_here k e es (oldest_from k e.expires_at es) h
  | inr h ↦ present_below k e es (oldest_from k e.expires_at es) h
]

remove_token-shrinks :
    (k : String) (c : WorkerAuthCache)
    → is_some (lookup k c.entries) ≡ true
    → length (remove_token k c).entries < length c.entries
unfolding remove_token
remove_token-shrinks k c h = elim (Option-cases (lookup k c.entries)) [
  | inl e ↦ absurd (ground arith)
  | inr (x, e) ↦ rw (e, remove_token) (length-delete-lt k c.entries e)
]

pub remove_token-length :
    (k : String) (c : WorkerAuthCache) → length (remove_token k c).entries ≤ length c.entries
unfolding remove_token
remove_token-length k c = elim (Option-cases (lookup k c.entries)) [
  | inl e ↦ rw (e, remove_token) (omega arith)
  | inr (x, e) ↦ rw (e, remove_token) (length-delete-le k c.entries)
]

remove_token-max :
    (k : String) (c : WorkerAuthCache) → (remove_token k c).max_entries ≡ c.max_entries
unfolding remove_token
remove_token-max k c = elim (Option-cases (lookup k c.entries)) [
  | inl e ↦ rw (e, remove_token) refl
  | inr (x, e) ↦ rw (e, remove_token) refl
]

evict_oldest-shrinks :
    (c : WorkerAuthCache) (es : List (String × Entry))
    → c.entries ≡ es
    → 0 < length es
    → length (evict_oldest es c).entries < length es
unfolding evict_oldest
evict_oldest-shrinks c [] e h = absurd (omega arith)
evict_oldest-shrinks c ((k, x) ∷ es) e h =
    subst (λ m. length (remove_token (oldest_from k x.expires_at es) c).entries < length m) e
      (remove_token-shrinks (oldest_from k x.expires_at es) c (
        subst (λ m. is_some (lookup (oldest_from k x.expires_at es) m) ≡ true) (sym e)
          (oldest_present k x es)))

evict_oldest-max :
    (c : WorkerAuthCache) (es : List (String × Entry))
    → (evict_oldest es c).max_entries ≡ c.max_entries
unfolding evict_oldest
evict_oldest-max c [] = refl
evict_oldest-max c ((k, x) ∷ es) = remove_token-max (oldest_from k x.expires_at es) c

abbrev pub Fits : WorkerAuthCache → Type 0
Fits c = length c.entries ≤ c.max_entries

-- One round of fuel for each entry is enough for the loop to end by its own condition.
shrink-Fits : (fuel : ℕ) (c : WorkerAuthCache) → length c.entries ≤ fuel → Fits (shrink fuel c)
unfolding shrink
shrink-Fits zero c h = omega arith
shrink-Fits (suc fuel) c h = elim (Bool-cases (ltb c.max_entries (length c.entries))) [
  | inl t ↦ rw t (
      shrink-Fits fuel (evict_oldest c.entries c)
        (ground (arith, evict_oldest-shrinks c c.entries refl)))
  | inr t ↦ rw t (ground arith)
]

pub evict-Fits : (now : ℕ) (c : WorkerAuthCache) → Fits (evict now c)
unfolding evict
evict-Fits now c =
    shrink-Fits (length (prune_expired now c.entries c).entries) (prune_expired now c.entries c)
      (omega arith)

pub remove_token-Fits : (k : String) (c : WorkerAuthCache) → Fits c → Fits (remove_token k c)
remove_token-Fits k c h = ground (arith, remove_token-length k c, remove_token-max k c)

remove_tokens-Fits : (ks : List String) (c : WorkerAuthCache) → Fits c → Fits (remove_tokens ks c)
unfolding remove_tokens
remove_tokens-Fits [] c h = h
remove_tokens-Fits (k ∷ ks) c h = remove_tokens-Fits ks (remove_token k c) (remove_token-Fits k c h)

pub set-Fits : (now : ℕ) (k w : String) (c : WorkerAuthCache) → Fits c → Fits (set now k w c)
unfolding set
set-Fits now k w c h = elim (Bool-cases (not (enabled c) || k == "" || w == "")) [
  | inl t ↦ rw t h
  | inr t ↦ rw t (evict-Fits now (put now k w c))
]

pub get-Fits : (now : ℕ) (k : String) (c : WorkerAuthCache) → Fits c → Fits (get now k c).1
unfolding get
get-Fits now k c h = elim (Bool-cases (not (enabled c) || k == "")) [
  | inl t ↦ rw t h
  | inr t ↦ elim (Option-cases (lookup k c.entries)) [
    | inl e ↦ rw (t, e, get) h
    | inr (x, e) ↦ elim (Bool-cases (ltb x.expires_at now)) [
      | inl l ↦ rw (t, e, l, get) (remove_token-Fits k c h)
      | inr l ↦ rw (t, e, l, get) h
    ]
  ]
]

pub invalidate_worker-Fits :
    (w : String) (c : WorkerAuthCache) → Fits c → Fits (invalidate_worker w c)
unfolding invalidate_worker
invalidate_worker-Fits w c h = elim (Bool-cases (not (enabled c) || w == "")) [
  | inl t ↦ rw t h
  | inr t ↦ elim (Option-cases (lookup w c.tokens_by_worker)) [
    | inl e ↦ rw (t, e, invalidate_worker) h
    | inr (hs, e) ↦ rw (t, e, invalidate_worker) (remove_tokens-Fits hs c h)
  ]
]
