-- ===== src/Util/Clock.antt =====
-- Microseconds and `struct timespec`.
use python_systemd.Base.{ℕ, ◌+◌, ◌-◌, ◌*◌, ◌/◌, ◌%◌, ◌^◌, ◌<◌, ◌≡◌, ap, ◌∙◌, arith}
use python_systemd.Base.Int.{pos}
use python_systemd.Util.{timespec_store, timespec_load}

-- timespec_load gives back every 64-bit count of microseconds that timespec_store has stored,
-- infinity included.
pub timespec_load-timespec_store : (u : ℕ) → u < 2 ^ 64 → timespec_load (timespec_store u) ≡ u
unfolding timespec_load timespec_store
timespec_load-timespec_store u h = ground arith

-- A time with less than 10^9 nanoseconds that is below 2^64 - 1 microseconds in all comes back
-- from its count of microseconds, less what is below a microsecond.
pub timespec_store-timespec_load :
    (sec nsec : ℕ)
    → nsec < 1000000000
    → sec * 1000000 + nsec / 1000 < 2 ^ 64 - 1
    → timespec_store (timespec_load (record { tv_sec = pos sec; tv_nsec = pos nsec }))
      ≡ record { tv_sec = pos sec; tv_nsec = pos (nsec / 1000 * 1000) }
unfolding timespec_load timespec_store
timespec_store-timespec_load sec nsec small fits = ap timespec_store loaded ∙ stored
  where
    total : ℕ
    total = sec * 1000000 + nsec / 1000

    loaded : timespec_load (record { tv_sec = pos sec; tv_nsec = pos nsec }) ≡ total
    loaded = ground arith

    stored : timespec_store total ≡ record { tv_sec = pos sec; tv_nsec = pos (nsec / 1000 * 1000) }
    stored =
        rw
          (
            (let e : total / 1000000 ≡ sec = omega arith in e),
            (let e : total % 1000000 ≡ nsec / 1000 = omega arith in e),
          )
          (ground arith)
