-- ===== src/Base/Int.antt =====
-- Signed machine integers, as far as the program tests and adds them: `int32` limits and counts, and
-- `time.Duration` in nanoseconds. Instants are native numbers, in nanoseconds since Go's zero time.
use Prim.Native.Nat.{ℕ, zero, suc, ◌+◌, ◌-◌, ◌/◌, ◌%◌, ◌^◌}
use mathlib.Core.Bool.{Bool, true, false}
use openseer.Base.Tests.{ltb, leb, if◌then◌else◌}

-- `negsuc n` is -(n + 1).
pub data ℤ : Type 0 where
  pos : ℕ → ℤ
  negsuc : ℕ → ℤ

-- `if x <= 0 { x = d }` for a positive default `d`: what is left is a positive number.
abbrev pub positive_or : ℤ → ℕ → ℕ
positive_or (pos zero) d = d
positive_or (pos (suc n)) d = suc n
positive_or (negsuc n) d = d

-- `t.Add(d)`. The program moves instants of this century by some days at most, so the
-- truncation of a negative sum at Go's zero time (year 1) is never met.
abbrev pub add_duration : ℕ → ℤ → ℕ
add_duration t (pos n) = t + n
add_duration t (negsuc n) = t - suc n

abbrev pub minus : ℕ → ℤ
minus zero = pos zero
minus (suc n) = negsuc n

-- int32(n) of a number of at least 32 bits: the low 32 bits, read as a signed number.
abbrev pub low_bits : ℕ → ℤ
low_bits m = if ltb m (2 ^ 31) then pos m else negsuc (2 ^ 32 - 1 - m)

abbrev pub to_int32 : ℤ → ℤ
to_int32 (pos n) = low_bits (n % 2 ^ 32)
to_int32 (negsuc n) = low_bits (2 ^ 32 - 1 - n % 2 ^ 32)

-- The difference of two instants in whole milliseconds, towards zero.
abbrev pub millis_between : ℕ → ℕ → ℤ
millis_between earlier later =
    if leb earlier later
    then pos ((later - earlier) / 1_000_000)
    else minus ((earlier - later) / 1_000_000)

-- `a > b` of signed numbers.
abbrev pub exceeds : ℤ → ℤ → Bool
exceeds (pos a) (pos b) = ltb b a
exceeds (pos a) (negsuc b) = true
exceeds (negsuc a) (pos b) = false
exceeds (negsuc a) (negsuc b) = ltb a b
