-- ===== src/ControlPlane/Scheduler/Timing.antt =====
-- applyJitter and calculateDedupWindow of internal/app/control-plane/scheduler.go. Durations are in
-- nanoseconds; an interval is at most 2^31 ms, so nothing here overflows an int64.
use native.Mathlib.Nat.{mod-lt}
use openseer.Base.{
  ℕ, zero, suc, ◌+◌, ◌-◌, ◌*◌, ◌/◌, ◌%◌, ◌≤◌, ◌<◌, ◌≡◌, Bool, arith, ltb, leb, nat_beq,
  if◌then◌else◌,
}
use openseer.Base.Int.{ℤ, pos, negsuc}

abbrev pub second : ℕ
second = 1_000_000_000

abbrev pub max_jitter_percent : ℕ → ℕ
max_jitter_percent n = if leb n (30 * second) then 1 else 10

-- A positive interval moved by less than `m`; `m` is zero only for an interval without jitter.
abbrev pub shift : ℕ → ℕ → ℕ → ℕ
shift hash zero n = n
shift hash (suc m) n = if nat_beq (hash % 2) 0 then n + hash % suc m else n - hash % suc m

abbrev pub jittered : ℕ → ℕ → ℕ
jittered hash n = if leb n (10 * second) then n else shift hash ((n * max_jitter_percent n) / 100) n

-- `hash` is the 32-bit FNV-1a sum of the monitor's id and seed.
unfoldable pub apply_jitter : ℕ → ℤ → ℤ
apply_jitter hash (pos n) = pos (jittered hash n)
apply_jitter hash (negsuc n) = negsuc n

abbrev pub clamp : ℕ → ℕ
clamp half =
    if ltb half 500_000_000
    then 500_000_000
    else if ltb (60 * second) half
    then 60 * second
    else half

unfoldable pub calculate_dedup_window : ℤ → ℕ
calculate_dedup_window (pos n) = clamp (n / 2)
calculate_dedup_window (negsuc n) = 500_000_000

moved_bounds :
    (even : Bool) (r m n : ℕ)
    → 10 * m ≤ n
    → r < m
    → (9 * n ≤ 10 * (if even then n + r else n - r))
      × (10 * (if even then n + r else n - r) ≤ 11 * n)
moved_bounds even r m n h l = ground arith

shift_bounds :
    (hash m n : ℕ) → 10 * m ≤ n → (9 * n ≤ 10 * shift hash m n) × (10 * shift hash m n ≤ 11 * n)
shift_bounds hash zero n h = omega arith
shift_bounds hash (suc m) n h =
    moved_bounds (nat_beq (hash % 2) 0) (hash % suc m) (suc m) n h (mod-lt hash (omega arith))

-- Jitter moves a positive interval by a tenth of it at most, to either side, whatever the hash.
pub jitter_bounds :
    (hash n j : ℕ) → apply_jitter hash (pos n) ≡ pos j → (9 * n ≤ 10 * j) × (10 * j ≤ 11 * n)
unfolding apply_jitter
jitter_bounds hash n j e =
    let small : 10 * ((n * max_jitter_percent n) / 100) ≤ n = ground arith in
    let b = shift_bounds hash ((n * max_jitter_percent n) / 100) n small in ground arith

-- The window lies between half a second and a minute, for any interval, a negative one too.
pub dedup_bounds :
    (d : ℤ) → (500_000_000 ≤ calculate_dedup_window d) × (calculate_dedup_window d ≤ 60 * second)
unfolding calculate_dedup_window
dedup_bounds (pos n) = ground arith
dedup_bounds (negsuc n) = ground arith
