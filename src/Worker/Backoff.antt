-- ===== src/Worker/Backoff.antt =====
-- nextPollInterval of internal/app/worker/polling.go.
use native.Mathlib.Nat.{pow-suc, mul_assoc}
use openseer.Base.{
  ℕ, zero, suc, ◌*◌, ◌^◌, ◌≤◌, ◌<◌, ◌≡◌, sym, ap, ◌∙◌, Bool, arith, ltb, if◌then◌else◌,
}
use openseer.Base.Int.{ℤ, pos, negsuc, positive_or}
use openseer.Worker.{Worker, second, at_least, with_polling_config, next_poll_interval}

pub record IsConfigured (w : Worker) : Type 0 where
  pub positive : 0 < w.poll_base_interval
  pub ordered : w.poll_base_interval ≤ w.poll_max_interval

-- WithPollingConfig leaves a positive base interval and a maximum no smaller, whatever it is given.
pub with_polling_config-IsConfigured :
    (base_interval max_interval : ℤ) (w : Worker)
    → IsConfigured (with_polling_config base_interval max_interval w)
unfolding with_polling_config
with_polling_config-IsConfigured base_interval max_interval w = record {
  positive = positive_or-lt base_interval;
  ordered = at_least-le (positive_or base_interval second) max_interval;
}
  where
    positive_or-lt : (x : ℤ) → 0 < positive_or x second
    positive_or-lt (pos zero) = omega arith
    positive_or-lt (pos (suc n)) = omega arith
    positive_or-lt (negsuc n) = omega arith

    at_least-le : (b : ℕ) (x : ℤ) → b ≤ at_least b x
    at_least-le b (pos n) = ground arith
    at_least-le b (negsuc n) = omega arith

pub next_poll_interval-bounds :
    (w : Worker) (current : ℕ) (jobs_received : ℤ) (failed : Bool)
    → IsConfigured w
    → (w.poll_base_interval ≤ next_poll_interval w current jobs_received failed)
      × (next_poll_interval w current jobs_received failed ≤ w.poll_max_interval)
unfolding next_poll_interval
next_poll_interval-bounds w current jobs_received failed c = ground (arith, c.positive, c.ordered)

-- The interval after `n` polls in a row that found no job or failed.
unfoldable pub idle : Worker → Bool → ℕ → ℕ
unfolding next_poll_interval
idle w failed zero = w.poll_base_interval
idle w failed (suc n) = next_poll_interval w (idle w failed n) (pos 0) failed

abbrev pub least : ℕ → ℕ → ℕ
least a b = if ltb b a then b else a

doubles :
    (w : Worker) (failed : Bool) (p x : ℕ)
    → IsConfigured w
    → w.poll_base_interval ≤ p
    → x ≡ least p w.poll_max_interval
    → next_poll_interval w x (pos 0) failed ≡ least (p * 2) w.poll_max_interval
unfolding next_poll_interval
doubles w failed p x c h e = ground (arith, c.positive, c.ordered)

power_step : (b n : ℕ) → b * 2 ^ suc n ≡ b * 2 ^ n * 2
power_step b n = ap (λ p. b * p) (pow-suc 2 n) ∙ sym (mul_assoc b (2 ^ n) 2)

power_grows : (b n : ℕ) → b ≤ b * 2 ^ n
power_grows b zero = omega arith
power_grows b (suc n) = omega (arith, power_grows b n, power_step b n)

-- With a positive base interval and a maximum no smaller, after `n` polls in a row that found no job or
-- failed the agent waits for the base interval times 2 to the n, or for the maximum if that is less.
pub idle_doubles :
    (w : Worker) (failed : Bool) (n : ℕ)
    → IsConfigured w
    → idle w failed n ≡ least (w.poll_base_interval * 2 ^ n) w.poll_max_interval
unfolding idle
idle_doubles w failed zero c = ground (arith, c.positive, c.ordered)
idle_doubles w failed (suc n) c =
    doubles w failed (w.poll_base_interval * 2 ^ n) (idle w failed n) c
      (power_grows w.poll_base_interval n) (idle_doubles w failed n c)
    ∙ ap (λ p. least p w.poll_max_interval) (sym (power_step w.poll_base_interval n))
