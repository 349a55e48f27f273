-- ===== src/Std/Duration.antt =====
-- Durations of Go's time package: signed counts of nanoseconds in 64 bits.
use wireproxy_homerun.Prelude.{
  ℤ, pos, negsuc, to_ℕ, ltb, leb, if◌then◌else◌, ℕ, suc, ◌+◌, ◌-◌, ◌*◌, ◌%◌, ◌^◌, ◌<◌, ◌≡◌, Bool,
  true, false, arith,
}

-- The signed value of 64 bits.
unfoldable pub int64 : ℕ → ℤ
int64 bits = if ltb bits (2 ^ 63) then pos bits else negsuc (2 ^ 64 - 1 - bits)

-- time.Duration(n) * time.Second, which wraps around.
unfoldable pub seconds : ℤ → ℤ
unfolding int64
seconds (pos n) = int64 (n * 1_000_000_000 % 2 ^ 64)
seconds (negsuc n) = int64 ((2 ^ 64 - suc n * 1_000_000_000 % 2 ^ 64) % 2 ^ 64)

-- t.Sub(u), for times that are less than 2 ^ 63 nanoseconds apart.
unfoldable pub sub_time : ℕ → ℕ → ℤ
sub_time t u = if leb u t then pos (t - u) else negsuc (u - t - 1)

-- d >= e
unfoldable pub at_least : ℤ → ℤ → Bool
at_least (pos d) (pos e) = leb e d
at_least (pos d) (negsuc e) = true
at_least (negsuc d) (pos e) = false
at_least (negsuc d) (negsuc e) = leb d e

-- How far a duration lies below zero.
abbrev pub below_zero : ℤ → ℕ
below_zero (pos n) = 0
below_zero (negsuc n) = suc n

-- t.Sub(u) >= d, with the two negative terms moved across.
pub at_least-sub_time :
    (t u : ℕ) (d : ℤ) → at_least (sub_time t u) d ≡ leb (u + to_ℕ d) (t + below_zero d)
unfolding at_least sub_time
at_least-sub_time t u (pos n) = ground arith
at_least-sub_time t u (negsuc n) = ground arith

-- A number of seconds below 2 ^ 63 nanoseconds is what it says.
pub seconds_in_range :
    (n : ℕ) → n * 1_000_000_000 < 2 ^ 63 → seconds (pos n) ≡ pos (n * 1_000_000_000)
unfolding seconds int64
seconds_in_range n h = ground arith
