-- ===== src/ControlPlane/AuthCache/History.antt =====
-- The methods of worker_auth_cache.go in any order: what holds of the cache after each history of calls.
use openseer.Base.{ℕ, String, refl, List, [], ◌∷◌, arith}
use openseer.Base.Dict.{lookup}
use openseer.Base.Int.{ℤ}
use openseer.ControlPlane.AuthCache.{
  WorkerAuthCache, new_worker_auth_cache, get, set, invalidate_worker,
}
use openseer.ControlPlane.AuthCache.Index.{holds, indexed, IsIndexed}
use openseer.ControlPlane.AuthCache.Preserved.{
  set-IsIndexed, get-IsIndexed, invalidate_worker-IsIndexed,
}
use openseer.ControlPlane.AuthCache.Limits.{Fits, set-Fits, get-Fits, invalidate_worker-Fits}

pub data CacheOp : Type 0 where
  get_op : ℕ → String → CacheOp
  set_op : ℕ → String → String → CacheOp
  invalidate_op : String → CacheOp

unfoldable pub apply_op : CacheOp → WorkerAuthCache → WorkerAuthCache
unfolding get set invalidate_worker
apply_op (get_op now k) c = (get now k c).1
apply_op (set_op now k w) c = set now k w c
apply_op (invalidate_op w) c = invalidate_worker w c

unfoldable pub run : List CacheOp → WorkerAuthCache → WorkerAuthCache
unfolding apply_op
run [] c = c
run (op ∷ ops) c = run ops (apply_op op c)

pub record IsSound (c : WorkerAuthCache) : Type 0 where
  pub is_indexed : IsIndexed c
  pub fits : Fits c

apply_op-IsSound : (op : CacheOp) (c : WorkerAuthCache) → IsSound c → IsSound (apply_op op c)
unfolding apply_op
apply_op-IsSound (get_op now k) c h = record {
  is_indexed = get-IsIndexed now k c h.is_indexed;
  fits = get-Fits now k c h.fits;
}
apply_op-IsSound (set_op now k w) c h = record {
  is_indexed = set-IsIndexed now k w c h.is_indexed;
  fits = set-Fits now k w c h.fits;
}
apply_op-IsSound (invalidate_op w) c h = record {
  is_indexed = invalidate_worker-IsIndexed w c h.is_indexed;
  fits = invalidate_worker-Fits w c h.fits;
}

-- Whatever calls of Get, Set and InvalidateWorker are made, in whatever order and at whatever times,
-- a cache that is sound stays so: its index lists a hash under a worker exactly when the entry of
-- the hash names the worker, and it holds at most max_entries entries.
pub run-IsSound : (ops : List CacheOp) (c : WorkerAuthCache) → IsSound c → IsSound (run ops c)
unfolding run
run-IsSound [] c h = h
run-IsSound (op ∷ ops) c h = run-IsSound ops (apply_op op c) (apply_op-IsSound op c h)

pub new-IsSound : (ttl max_entries : ℤ) → IsSound (new_worker_auth_cache ttl max_entries)
unfolding new_worker_auth_cache indexed holds lookup
new-IsSound ttl max_entries = record {
  is_indexed = record { agrees = λ w k. refl };
  fits = omega arith;
}
