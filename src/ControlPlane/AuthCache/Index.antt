-- ===== src/ControlPlane/AuthCache/Index.antt =====
-- The index of worker_auth_cache.go always agrees with the entries: tokensByWorker holds a hash under
-- a worker exactly when the entry of that hash names that worker.
use openseer.Base.{
  String, ◌≡◌, ap, subst, inl, inr, Bool, true, false, ◌&&◌, Option, none, some, List, [], ◌∷◌,
  arith, if◌then◌else◌, Bool-cases, Option-cases, any, any-append, string_eq, nat_eq, ◌==◌,
  str_eq_iff, any_same,
}
use openseer.Base.Dict.{lookup, insert, delete, lookup-insert, lookup-delete}
use openseer.ControlPlane.AuthCache.{
  Entry, WorkerAuthCache, without, store_hashes, drop_hash, add_hash,
}

abbrev pub names : String → Option Entry → Bool
names w none = false
names w (some e) = e.worker_id == w

unfoldable pub holds : String → String → List (String × Entry) → Bool
holds w k entries = names w (lookup k entries)

abbrev pub has_hash : String → Option (List String) → Bool
has_hash k none = false
has_hash k (some hashes) = any (λ h. h == k) hashes

unfoldable pub indexed : String → String → List (String × List String) → Bool
indexed w k tokens = has_hash k (lookup w tokens)

pub record IsIndexed (c : WorkerAuthCache) : Type 0 where
  pub agrees : (w k : String) → indexed w k c.tokens_by_worker ≡ holds w k c.entries

any-without :
    (j k : String) (hashes : List String)
    → any (λ h. h == j) (without k hashes) ≡ (if k == j then false else any (λ h. h == j) hashes)
any-without j k [] = ground arith
any-without j k (h ∷ hashes) =
    ground (arith, str_eq_iff h k, str_eq_iff h j, str_eq_iff k j, any-without j k hashes)

has_hash-store :
    (v w j : String) (hashes : List String) (tokens : List (String × List String))
    → has_hash j (lookup v (store_hashes w hashes tokens))
      ≡ (if w == v then any (λ h. h == j) hashes else has_hash j (lookup v tokens))
has_hash-store v w j [] tokens = rw (lookup-delete w v tokens) (ground arith)
has_hash-store v w j (h ∷ hashes) tokens = rw (lookup-insert w v (h ∷ hashes) tokens) (ground arith)

-- The set of one worker, whichever way its name is spelled.
has_hash_same :
    (v j w : String) (tokens : List (String × List String)) (o : Option (List String))
    → lookup w tokens ≡ o
    → (w == v) ≡ true
    → has_hash j (lookup v tokens) ≡ has_hash j o
has_hash_same v j w tokens o h e =
    subst (λ x. has_hash j (lookup x tokens) ≡ has_hash j o) ((str_eq_iff w v).0 e)
      (ap (has_hash j) h)

pub indexed-drop_hash :
    (v j w k : String) (tokens : List (String × List String))
    → indexed v j (drop_hash w k tokens) ≡ (if w == v && k == j then false else indexed v j tokens)
unfolding indexed drop_hash
indexed-drop_hash v j w k tokens = elim (Option-cases (lookup w tokens)) [
  | inl e ↦ rw (e, drop_hash) (ground (arith, has_hash_same v j w tokens none e))
  | inr (hashes, e) ↦
      rw (e, drop_hash, has_hash-store v w j (without k hashes) tokens, any-without j k hashes)
        (ground (arith, has_hash_same v j w tokens (some hashes) e))
]

any-add_hash :
    (j k : String) (o : Option (List String))
    → any (λ h. h == j) (add_hash k o) ≡ (if k == j then true else has_hash j o)
any-add_hash j k none = ground arith
any-add_hash j k (some hashes) = elim (Bool-cases (any (λ h. h == k) hashes)) [
  | inl e ↦ rw e (ground (arith, str_eq_iff k j, any_same k j hashes))
  | inr e ↦ rw (e, any-append (λ h. h == j) hashes (k ∷ [])) (ground arith)
]

pub indexed-add_hash :
    (v j w k : String) (tokens : List (String × List String))
    → indexed v j (insert w (add_hash k (lookup w tokens)) tokens)
      ≡ (if w == v && k == j then true else indexed v j tokens)
unfolding indexed
indexed-add_hash v j w k tokens =
    rw (lookup-insert w v (add_hash k (lookup w tokens)) tokens)
      (ground (arith, any-add_hash j k (lookup w tokens), str_eq_iff w v))

pub holds-delete :
    (w j k : String) (entries : List (String × Entry))
    → holds w j (delete k entries) ≡ (if k == j then false else holds w j entries)
unfolding holds
holds-delete w j k entries = rw (lookup-delete k j entries) (ground arith)

pub holds-insert :
    (w j k : String) (e : Entry) (entries : List (String × Entry))
    → holds w j (insert k e entries) ≡ (if k == j then e.worker_id == w else holds w j entries)
unfolding holds
holds-insert w j k e entries = rw (lookup-insert k j e entries) (ground arith)
