-- ===== src/Commands/Recovery.antt =====
-- internal/pkg/recovery/panic.go: how a goroutine ends that the program wraps. A body changes a state
-- until it returns or panics; the log is left out.
use openseer.Base.{◌≡◌, refl, Option, none, some, arith}

pub data Outcome : Type 0 where
  returned panicked : Outcome

abbrev pub Body {ℓ} : Type ℓ → Type ℓ
Body S = S → Outcome × S

module _ {ℓ} {S : Type ℓ} where
  -- recover() in a deferred function: what was done before a panic stays done.
  unfoldable pub with_recover : Body S → Body S
  with_recover fn s = (returned, (fn s).1)

  -- The loop breaks after the first run, whether it returned or panicked.
  unfoldable pub with_recover_and_restart : Body S → Body S
  with_recover_and_restart fn s = (returned, (fn s).1)

  abbrev pub call_back : Option (Body S) → Outcome → Body S
  call_back on_panic returned s = (returned, s)
  call_back none panicked s = (returned, s)
  call_back (some f) panicked s = f s

  -- onPanic runs in the deferred function, so a panic of its own is not recovered.
  unfoldable pub with_recover_callback : Option (Body S) → Body S → Body S
  with_recover_callback on_panic fn s = let (end, s') = fn s in call_back on_panic end s'

  abbrev Returns : Option (Body S) → Type ℓ
  Returns none = Unit
  Returns (some f) = (s : S) → (f s).0 ≡ returned

  -- A goroutine behind WithRecoverCallback ends without a panic, if its callback does not panic; and when
  -- its body returned, it did what the body did and no more.
  pub callback-Returns :
      (on_panic : Option (Body S)) (fn : Body S) (s : S)
      → Returns on_panic
      → ((with_recover_callback on_panic fn s).0 ≡ returned)
        × ((fn s).0 ≡ returned → (with_recover_callback on_panic fn s).1 ≡ (fn s).1)
  unfolding with_recover_callback
  callback-Returns on_panic fn s h = ends on_panic (fn s).0 (fn s).1 h
    where
      ends :
          (on_panic : Option (Body S)) (end : Outcome) (t : S)
          → Returns on_panic
          → ((call_back on_panic end t).0 ≡ returned)
            × (end ≡ returned → (call_back on_panic end t).1 ≡ t)
      ends on_panic returned t h = (refl, λ e. refl)
      ends none panicked t h = (refl, λ e. refl)
      ends (some f) panicked t h = (h t, λ e. absurd (ground arith))
