-- ===== src/ControlPlane/AuthCache.antt =====
-- internal/app/control-plane/middleware/worker_auth_cache.go: worker ids by token hash for a short
-- time, with an index of each worker's hashes. A method takes time.Now(); the mutex serialises the
-- methods. A set of hashes is a list; a map is iterated in the order of its list.
pub mod Index
pub mod Limits
pub mod Preserved
pub mod Removal
pub mod Revocation
pub mod History
use openseer.Base.{
  ℕ, zero, suc, String, Bool, true, false, not, ◌&&◌, ◌||◌, Option, none, some, List, [], ◌∷◌, ◌++◌,
  ltb, if◌then◌else◌, length, filter, any, ◌==◌, nat_eq, string_eq,
}
use openseer.Base.Int.{ℤ, pos, negsuc, positive_or, add_duration}
use openseer.Base.Dict.{lookup, insert, delete}

pub record Entry : Type 0 where
  pub worker_id : String
  pub expires_at : ℕ

pub record WorkerAuthCache : Type 0 where
  pub ttl : ℤ
  pub max_entries : ℕ
  pub entries : List (String × Entry)
  pub tokens_by_worker : List (String × List String)

unfoldable pub new_worker_auth_cache : ℤ → ℤ → WorkerAuthCache
new_worker_auth_cache ttl max_entries = record {
  ttl = ttl;
  max_entries = positive_or max_entries 1;
  entries = [];
  tokens_by_worker = [];
}

abbrev pub is_positive : ℤ → Bool
is_positive (pos zero) = false
is_positive (pos (suc n)) = true
is_positive (negsuc n) = false

-- The receiver is not nil: callers that may hold a nil cache test it first.
abbrev pub enabled : WorkerAuthCache → Bool
enabled c = is_positive c.ttl && ltb 0 c.max_entries

abbrev pub without : String → List String → List String
without k = filter (λ h. not (h == k))

-- The set of a worker after a deletion: the entry goes with its last hash.
abbrev pub store_hashes :
    String → List String → List (String × List String) → List (String × List String)
store_hashes w [] tokens = delete w tokens
store_hashes w (h ∷ hashes) tokens = insert w (h ∷ hashes) tokens

-- delete(hashes, tokenHash), and the set itself once it is empty.
unfoldable pub drop_hash :
    String → String → List (String × List String) → List (String × List String)
drop_hash w k tokens = elim (lookup w tokens) [
  | none ↦ tokens
  | some hashes ↦ store_hashes w (without k hashes) tokens
]

unfoldable pub remove_token : String → WorkerAuthCache → WorkerAuthCache
unfolding drop_hash
remove_token k c = elim (lookup k c.entries) [
  | none ↦ c
  | some e ↦ record c {
    entries = delete k c.entries;
    tokens_by_worker = drop_hash e.worker_id k c.tokens_by_worker;
  }
]

unfoldable pub get : ℕ → String → WorkerAuthCache → Option String × WorkerAuthCache
get now k c = if not (enabled c) || k == "" then (none, c) else (elim (lookup k c.entries) [
  | none ↦ (none, c)
  | some e ↦ if ltb e.expires_at now then (none, remove_token k c) else (some e.worker_id, c)
])

-- The first loop of evictLocked.
unfoldable pub prune_expired : ℕ → List (String × Entry) → WorkerAuthCache → WorkerAuthCache
prune_expired now [] c = c
prune_expired now ((k, e) ∷ rest) c =
    prune_expired now rest (if ltb e.expires_at now then remove_token k c else c)

-- The scan for the oldest entry: the first of those that expire soonest.
unfoldable pub oldest_from : String → ℕ → List (String × Entry) → String
oldest_from k t [] = k
oldest_from k t ((j, e) ∷ rest) =
    oldest_from (if ltb e.expires_at t then j else k)
      (if ltb e.expires_at t then e.expires_at else t) rest

unfoldable pub evict_oldest : List (String × Entry) → WorkerAuthCache → WorkerAuthCache
unfolding oldest_from
evict_oldest [] c = c
evict_oldest ((k, e) ∷ rest) c = remove_token (oldest_from k e.expires_at rest) c

-- The second loop of evictLocked, with one round of fuel for each entry.
unfoldable pub shrink : ℕ → WorkerAuthCache → WorkerAuthCache
unfolding evict_oldest
shrink zero c = c
shrink (suc fuel) c =
    let rest = shrink fuel (evict_oldest c.entries c) in
    if ltb c.max_entries (length c.entries) then rest else c

unfoldable pub evict : ℕ → WorkerAuthCache → WorkerAuthCache
unfolding prune_expired shrink
evict now c = let pruned = prune_expired now c.entries c in shrink (length pruned.entries) pruned

-- "Remove old worker index entry if token hash is reassigned."
unfoldable pub unlink : String → String → WorkerAuthCache → WorkerAuthCache
unlink k w c = elim (lookup k c.entries) [
  | none ↦ c
  | some e ↦
      if e.worker_id == w
      then c
      else record c { tokens_by_worker = drop_hash e.worker_id k c.tokens_by_worker }
]

-- hashes[tokenHash] = struct{}{}, in a set made first if there is none.
abbrev pub add_hash : String → Option (List String) → List String
add_hash k none = k ∷ []
add_hash k (some hashes) = if any (λ h. h == k) hashes then hashes else hashes ++ k ∷ []

-- The writes of Set, before its eviction.
unfoldable pub put : ℕ → String → String → WorkerAuthCache → WorkerAuthCache
unfolding unlink
put now k w c =
    let c' = unlink k w c in
    record c' {
      entries = insert k (record { worker_id = w; expires_at = add_duration now c.ttl }) c'.entries;
      tokens_by_worker = insert w (add_hash k (lookup w c'.tokens_by_worker)) c'.tokens_by_worker;
    }

unfoldable pub set : ℕ → String → String → WorkerAuthCache → WorkerAuthCache
unfolding put evict
set now k w c = if not (enabled c) || k == "" || w == "" then c else evict now (put now k w c)

unfoldable pub remove_tokens : List String → WorkerAuthCache → WorkerAuthCache
remove_tokens [] c = c
remove_tokens (k ∷ hashes) c = remove_tokens hashes (remove_token k c)

unfoldable pub invalidate_worker : String → WorkerAuthCache → WorkerAuthCache
unfolding remove_tokens
invalidate_worker w c =
    if not (enabled c) || w == ""
    then c
    else (elim (lookup w c.tokens_by_worker) [ none ↦ c | some hashes ↦ remove_tokens hashes c ])
