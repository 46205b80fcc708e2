-- ===== src/Util.antt =====
-- systemd/util.c: errors, clocks, polling and reading. Parsing stands in Util.Parse.
pub mod Parse
pub mod Clock
pub mod Transfer
use Prim.Native.Nat.{bit_and}
use python_systemd.Base.{
  ℕ, zero, suc, ◌+◌, ◌-◌, ◌*◌, ◌/◌, ◌%◌, ◌^◌, Bool, true, false, ◌&&◌, ◌||◌, not, Option, none,
  some, List, [], ◌∷◌, ◌++◌, length, ltb, leb, ◌==◌, if◌then◌else◌,
}
use python_systemd.Base.Int.{ℤ, pos, negsuc, neg, is_neg, pos_part, eqb_ℤ}
use python_systemd.Base.Word.{u64, u32}
use python_systemd.Base.Buffer.{◌>>=◌, ◌>>◌, assert}

abbrev pub eintr : ℕ
eintr = 4

abbrev pub ebadf : ℕ
ebadf = 9

abbrev pub eagain : ℕ
eagain = 11

abbrev pub einval : ℕ
einval = 22

abbrev pub erange : ℕ
erange = 34

-- USEC_INFINITY, TIME_T_MAX, USEC_PER_SEC, NSEC_PER_USEC
abbrev pub usec_infinity : ℕ
usec_infinity = 2 ^ 64 - 1

abbrev pub time_t_max : ℕ
time_t_max = 2 ^ 63 - 1

abbrev pub usec_per_sec : ℕ
usec_per_sec = 1000000

abbrev pub nsec_per_usec : ℕ
nsec_per_usec = 1000

-- `sysconf` is what sysconf(_SC_PAGESIZE) gives; the result is also what the static `pgsz` keeps.
unfoldable pub page_size : (pgsz : ℕ) (sysconf : ℤ) → Option ℕ
page_size pgsz sysconf =
    if ltb 0 pgsz then some pgsz else (assert (ltb 0 (pos_part sysconf)) >> some (pos_part sysconf))

pub record Timespec : Type 0 where
  pub tv_sec : ℤ
  pub tv_nsec : ℤ

unfoldable pub timespec_store : ℕ → Timespec
timespec_store u =
    if u == usec_infinity || leb time_t_max (u / usec_per_sec)
    then (record { tv_sec = negsuc 0; tv_nsec = negsuc 0 })
    else (record {
      tv_sec = pos (u / usec_per_sec);
      tv_nsec = pos (u % usec_per_sec * nsec_per_usec);
    })

unfoldable pub timespec_load : Timespec → ℕ
timespec_load ts =
    let sec = pos_part ts.tv_sec in
    let nsec = pos_part ts.tv_nsec in
    if is_neg ts.tv_sec || is_neg ts.tv_nsec
    then usec_infinity
    else (if ltb ((2 ^ 64 - 1 - nsec / nsec_per_usec) / usec_per_sec) sec
        then usec_infinity
        else u64 (sec * usec_per_sec + nsec / nsec_per_usec))

-- `clock_gettime` is what the clock tells.
unfoldable pub now : (clock_gettime : Timespec) → ℕ
now clock_gettime = timespec_load clock_gettime

pub record Pollfd : Type 0 where
  pub fd : ℤ
  pub events : ℕ
  pub revents : ℕ

-- What the system call `ppoll` answers: its result, `errno`, and the array with its `revents`.
pub record Polled : Type 0 where
  pub result : ℤ
  pub errno : ℕ
  pub fds : List Pollfd

-- Whether the loop over the array meets POLLNVAL before `n` entries with events are seen.
unfoldable pub sees_pollnval : List Pollfd → ℕ → Bool
sees_pollnval [] n = false
sees_pollnval (p ∷ fds) n =
    let skipped = sees_pollnval fds n in
    let counted = sees_pollnval fds (n - 1) in
    if n == 0
    then false
    else (if p.revents == 0
        then skipped
        else (if bit_and p.revents 0x20 == 0 then counted else true))

module _ (ppoll : List Pollfd → Option Timespec → Polled) where
  unfoldable pub ppoll_usec : List Pollfd → ℕ → ℤ × List Pollfd
  ppoll_usec [] timeout = (pos 0, [])
  ppoll_usec (p ∷ fds) timeout =
      let wait = if timeout == usec_infinity then none else some (timespec_store timeout) in
      let polled = ppoll (p ∷ fds) wait in
      let n = pos_part polled.result in
      let answer =
        if is_neg polled.result
        then neg (pos polled.errno)
        else (if n == 0
            then pos 0
            else (if sees_pollnval polled.fds n then neg (pos ebadf) else polled.result)) in
      (answer, polled.fds)

  abbrev pub first_revents : List Pollfd → ℤ
  first_revents [] = pos 0
  first_revents (p ∷ fds) = pos p.revents

  unfoldable pub fd_wait_for_event : ℤ → ℕ → ℕ → ℤ
  fd_wait_for_event fd event timeout =
      let asked : Pollfd = record { fd = fd; events = event; revents = 0 } in
      let r = ppoll_usec (asked ∷ []) timeout in
      if is_neg r.0 || pos_part r.0 == 0 then r.0 else first_revents r.1

-- What one call of `read` gives: some bytes, or an error.
pub data Read : Type 0 where
  got : List ℕ → Read
  failed : ℕ → Read

-- The loop on the answers that `read` gives in turn, with `p` the bytes read so far; `none` when
-- the answers end before the loop does. Waiting for the descriptor only delays the next answer.
unfoldable pub loop_read :
    List Read → (nbytes : ℕ) (do_poll : Bool) (p : List ℕ) → Option (ℤ × List ℕ)
loop_read [] nbytes do_poll p = if nbytes == 0 then some (pos (length p), p) else none
loop_read (got bytes ∷ reads) nbytes do_poll p =
    let k = length bytes in
    let rest = loop_read reads (nbytes - k) do_poll (p ++ bytes) in
    if nbytes == 0
    then some (pos (length p), p)
    else (if k == 0 then some (pos (length p), p) else rest)
loop_read (failed errno ∷ reads) nbytes do_poll p =
    let rest = loop_read reads nbytes do_poll p in
    if nbytes == 0
    then some (pos (length p), p)
    else (if errno == eintr || (errno == eagain && do_poll)
        then rest
        else (if ltb 0 (length p) then some (pos (length p), p) else some (neg (pos errno), p)))

-- `close` is the result of `close_nointr`; a wrong descriptor fails the assertion.
unfoldable pub safe_close : (close : ℤ → ℤ) → ℤ → Option ℤ
safe_close close fd =
    if is_neg fd
    then some (negsuc 0)
    else (assert (not (eqb_ℤ (close fd) (neg (pos ebadf)))) >> some (negsuc 0))

-- ALIGN_TO on 64 bits.
unfoldable pub align_to : ℕ → ℕ → ℕ
align_to l ali = bit_and (u64 (l + ali + 2 ^ 64 - 1)) (2 ^ 64 - 1 - u64 (ali + 2 ^ 64 - 1))
