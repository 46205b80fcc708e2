-- ===== src/PyUtil/Timeout.antt =====
-- The milliseconds that a caller of poll() waits.
use python_systemd.Base.{ℕ, ◌+◌, ◌-◌, ◌*◌, ◌/◌, ◌^◌, ◌≤◌, ◌<◌, ◌≡◌, arith}
use python_systemd.Base.Int.{pos}
use python_systemd.PyUtil.{absolute_timeout}

-- For a time ahead of the clock by at most 2^31 - 1 milliseconds, the wait that absolute_timeout
-- gives ends at or after it, and less than a millisecond after it.
pub absolute_timeout_wait :
    (tv_sec tv_nsec t : ℕ)
    → let n : ℕ = tv_sec * 1000000 + tv_nsec / 1000 in
      n < t
      → t < 2 ^ 64 - 1
      → t ≤ n + 2147483647000
      → (msec : ℕ) × (absolute_timeout tv_sec tv_nsec t ≡ pos msec)
        × (t ≤ n + msec * 1000)
        × (n + msec * 1000 < t + 1000)
unfolding absolute_timeout
absolute_timeout_wait tv_sec tv_nsec t ahead t_fits near =
    ((t - (tv_sec * 1000000 + tv_nsec / 1000) + 999) / 1000, ground arith, omega arith, omega arith)

-- For a time more than 2^32 milliseconds ahead and below 2^64 - 1000 microseconds,
-- absolute_timeout gives the wait of a time 2^32 milliseconds nearer.
pub absolute_timeout_wraps :
    (tv_sec tv_nsec t : ℕ)
    → let n : ℕ = tv_sec * 1000000 + tv_nsec / 1000 in
      n + 4294967296000 < t
      → t < 2 ^ 64 - 1000
      → absolute_timeout tv_sec tv_nsec t ≡ absolute_timeout tv_sec tv_nsec (t - 4294967296000)
unfolding absolute_timeout
absolute_timeout_wraps tv_sec tv_nsec t ahead t_fits = ground arith
