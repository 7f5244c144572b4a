-- ===== src/ControlPlane/Heartbeats/Spacing.antt =====
-- The writes that the tracker lets through, over any sequence of calls.
use openseer.Base.{
  ℕ, suc, ◌+◌, ◌≤◌, String, ◌≡◌, refl, sym, ◌∙◌, subst, inl, inr, Bool, true, false, ◌&&◌, Option,
  none, some, List, [], ◌∷◌, arith, if◌then◌else◌, Bool-cases, string_eq, nat_eq, ◌==◌, str_eq_iff,
  str_eq_self,
}
use openseer.Base.Int.{pos}
use openseer.Base.Dict.{lookup, lookup-insert, lookup-delete}
use openseer.ControlPlane.Heartbeats.{HeartbeatTracker, too_soon, should_update, invalidate}

-- A call of ShouldUpdate at an instant, or of Invalidate.
pub data TrackerCall : Type 0 where
  ask : ℕ → String → TrackerCall
  forget : String → TrackerCall

-- What happens to a worker: the instants at which the tracker lets a heartbeat through, and none for each
-- Invalidate.
unfoldable pub accepted : String → List TrackerCall → HeartbeatTracker → List (Option ℕ)
accepted w [] h = []
accepted w (ask now v ∷ calls) h =
    let (allowed, h') = should_update now v h in
    let rest = accepted w calls h' in if v == w && allowed then some now ∷ rest else rest
accepted w (forget v ∷ calls) h =
    let rest = accepted w calls (invalidate v h) in if v == w then none ∷ rest else rest

abbrev pub NotBefore : ℕ → Option ℕ → List (Option ℕ) → Type 0
NotBefore n none times = Unit
NotBefore n (some last) [] = Unit
NotBefore n (some last) (none ∷ times) = Unit
NotBefore n (some last) (some t ∷ times) = last + n ≤ t

-- Each instant is at least `n` after the one before it, unless the worker was invalidated between them.
abbrev pub Gaps : ℕ → List (Option ℕ) → Type 0
Gaps n [] = Unit
Gaps n (none ∷ times) = Gaps n times
Gaps n (some t ∷ times) = NotBefore n (some t) times × Gaps n times

should_update_other :
    (now : ℕ) (v w : String) (h : HeartbeatTracker) (n : ℕ)
    → h.interval ≡ pos (suc n)
    → (v == w) ≡ false
    → let (allowed, h') = should_update now v h in
      (lookup w h'.last_seen ≡ lookup w h.last_seen) × (h'.interval ≡ pos (suc n))
unfolding should_update
should_update_other now v w h n e d =
    rw e (ground (arith, lookup-insert v w now h.last_seen, str_eq_iff v w))

module _ (n : ℕ) (w : String) where
  note_late :
      (o : Option ℕ) (now : ℕ) (times : List (Option ℕ))
      → too_soon (suc n) now o ≡ false
      → NotBefore (suc n) o (some now ∷ times)
  note_late none now times h = tt
  note_late (some last) now times h = ground arith

  allowed_step :
      (now : ℕ) (h : HeartbeatTracker) (times : List (Option ℕ))
      → h.interval ≡ pos (suc n)
      → (should_update now w h).0 ≡ true
      → let h' = (should_update now w h).1 in
        (lookup w h'.last_seen ≡ some now)
        × (h'.interval ≡ pos (suc n))
        × NotBefore (suc n) (lookup w h.last_seen) (some now ∷ times)
  unfolding should_update
  allowed_step now h times e a = elim (Bool-cases (w == "")) [
    | inl t ↦ absurd (ground arith)
    | inr t ↦ elim (Bool-cases (too_soon (suc n) now (lookup w h.last_seen))) [
      | inl s ↦ absurd (ground arith)
      | inr s ↦
          rw (t, e, s)
            (
              rw (lookup-insert w w now h.last_seen, str_eq_self w) refl,
              refl,
              note_late (lookup w h.last_seen) now times s,
            )
    ]
  ]

  refused_step :
      (now : ℕ) (h : HeartbeatTracker)
      → h.interval ≡ pos (suc n)
      → (should_update now w h).0 ≡ false
      → (should_update now w h).1 ≡ h
  unfolding should_update
  refused_step now h e a = elim (Bool-cases (w == "")) [
    | inl t ↦ ground arith
    | inr t ↦ ground arith
  ]

  -- The claim about the calls that follow, from what they find in the tracker.
  abbrev IsSpaced : HeartbeatTracker → List (Option ℕ) → Type 0
  IsSpaced h times = Gaps (suc n) times × NotBefore (suc n) (lookup w h.last_seen) times

  same_worker :
      (now : ℕ) (h : HeartbeatTracker) (times : List (Option ℕ))
      → h.interval ≡ pos (suc n)
      → (allowed : Bool) → (should_update now w h).0 ≡ allowed
      → IsSpaced (should_update now w h).1 times
      → IsSpaced h (if allowed then some now ∷ times else times)
  same_worker now h times e true a ih =
      let (noted, _, late) = allowed_step now h times e a in
      ((subst (λ o. NotBefore (suc n) o times) noted ih.1, ih.0), late)
  same_worker now h times e false a ih = subst (λ t. IsSpaced t times) (refused_step now h e a) ih

  none_before : (o : Option ℕ) → NotBefore (suc n) o []
  none_before none = tt
  none_before (some last) = tt

  call-IsSpaced :
      (now : ℕ) (v : String) (h : HeartbeatTracker) (times : List (Option ℕ))
      → h.interval ≡ pos (suc n)
      → IsSpaced (should_update now v h).1 times
      → IsSpaced h (if v == w && (should_update now v h).0 then some now ∷ times else times)
  call-IsSpaced now v h times e ih = elim (Bool-cases (v == w)) [
    | inl same ↦
        let v≡w : v ≡ w = (str_eq_iff v w).0 same in
        rw same (
          subst (λ u. IsSpaced h (if (should_update now u h).0 then some now ∷ times else times))
            (sym v≡w)
            (same_worker now h times e (should_update now w h).0 refl
              (subst (λ u. IsSpaced (should_update now u h).1 times) v≡w ih)))
    | inr other ↦
        let (kept, _) = should_update_other now v w h n e other in
        rw other (ih.0, subst (λ o. NotBefore (suc n) o times) kept ih.1)
  ]

  interval_kept :
      (now : ℕ) (v : String) (h : HeartbeatTracker)
      → h.interval ≡ pos (suc n)
      → (should_update now v h).1.interval ≡ pos (suc n)
  unfolding should_update
  interval_kept now v h e = rw e (ground arith)

  invalidate_interval :
      (v : String) (h : HeartbeatTracker)
      → h.interval ≡ pos (suc n)
      → (invalidate v h).interval ≡ pos (suc n)
  unfolding invalidate
  invalidate_interval v h e = elim (Bool-cases (v == "")) [ inl t ↦ rw t e | inr t ↦ rw t e ]

  invalidate_other :
      (v : String) (h : HeartbeatTracker)
      → (v == w) ≡ false
      → lookup w (invalidate v h).last_seen ≡ lookup w h.last_seen
  unfolding invalidate
  invalidate_other v h d = elim (Bool-cases (v == "")) [
    | inl t ↦ rw t refl
    | inr t ↦ rw t (lookup-delete v w h.last_seen ∙ rw d refl)
  ]

  after_forget : (o : Option ℕ) (times : List (Option ℕ)) → NotBefore (suc n) o (none ∷ times)
  after_forget none times = tt
  after_forget (some last) times = tt

  forget-IsSpaced :
      (v : String) (h : HeartbeatTracker) (times : List (Option ℕ))
      → IsSpaced (invalidate v h) times
      → IsSpaced h (if v == w then none ∷ times else times)
  forget-IsSpaced v h times ih = elim (Bool-cases (v == w)) [
    | inl same ↦ rw same (ih.0, after_forget (lookup w h.last_seen) times)
    | inr other ↦
        rw other (ih.0, subst (λ o. NotBefore (suc n) o times) (invalidate_other v h other) ih.1)
  ]

  accepted_from :
      (calls : List TrackerCall) (h : HeartbeatTracker)
      → h.interval ≡ pos (suc n)
      → IsSpaced h (accepted w calls h)
  unfolding accepted
  accepted_from [] h e = (tt, none_before (lookup w h.last_seen))
  accepted_from (ask now v ∷ calls) h e =
      call-IsSpaced now v h _ e
        (accepted_from calls (should_update now v h).1 (interval_kept now v h e))
  accepted_from (forget v ∷ calls) h e =
      forget-IsSpaced v h _ (accepted_from calls (invalidate v h) (invalidate_interval v h e))

  -- With a positive interval, the heartbeats of one worker that the tracker lets through, in any sequence of
  -- calls of ShouldUpdate and Invalidate for any workers, are each at least the interval after the one before,
  -- unless Invalidate was called for the worker between them.
  pub accepted_spaced :
      (calls : List TrackerCall) (h : HeartbeatTracker)
      → h.interval ≡ pos (suc n)
      → Gaps (suc n) (accepted w calls h)
  accepted_spaced calls h e = (accepted_from calls h e).0
