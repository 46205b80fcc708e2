-- ===== src/Daemon.antt =====
-- systemd/_daemon.c. libsystemd is a parameter, and so are the arguments once Python has parsed
-- them; integers of Python are ℤ.
pub mod Names
pub mod Arguments
pub mod Address
use python_systemd.Base.{
  ℕ, zero, suc, ◌+◌, ◌-◌, ◌*◌, ◌/◌, ◌%◌, ◌^◌, Bool, true, false, not, ◌&&◌, ◌||◌, Option, none,
  some, List, [], ◌∷◌, length, ltb, leb, ◌==◌, if◌then◌else◌,
}
use python_systemd.Base.Int.{ℤ, pos, negsuc, neg, is_neg, pos_part, neg_part, eqb_ℤ, ltb_ℤ}
use python_systemd.Base.Word.{u16, u32}
use python_systemd.Util.{einval}
use python_systemd.Util.Parse.{System, Result, ok, error, Sockaddr, in4, in6, parse_sockaddr}
use python_systemd.PyUtil.{
  Outcome, returns, raises, and_then, Exception, python, overflow_error, set_error,
}

abbrev pub enosys : ℕ
enosys = 38

-- The functions of libsystemd, and which of them the build found (the HAVE_ macros).
pub record Systemd : Type 0 where
  pub sd_booted : ℤ
  pub sd_notify : Bool → List ℕ → ℤ
  pub sd_pid_notify : ℕ → Bool → List ℕ → ℤ
  pub sd_pid_notify_with_fds : ℕ → Bool → List ℕ → List ℤ → ℤ
  pub sd_listen_fds : Bool → ℤ
  pub sd_listen_fds_with_names : Bool → ℤ × List (List ℕ)
  pub sd_is_fifo : ℤ → Option (List ℕ) → ℤ
  pub sd_is_mq : ℤ → Option (List ℕ) → ℤ
  pub sd_is_socket : ℤ → ℤ → ℤ → ℤ → ℤ
  pub sd_is_socket_inet : ℤ → ℤ → ℤ → ℤ → ℕ → ℤ
  pub sd_is_socket_sockaddr : ℤ → ℤ → Sockaddr → ℤ → ℤ
  pub sd_is_socket_unix : ℤ → ℤ → ℤ → Option (List ℕ) → ℤ
  pub have_pid_notify : Bool
  pub have_pid_notify_with_fds : Bool
  pub have_listen_fds_with_names : Bool
  pub have_is_socket_sockaddr : Bool

-- `set_error` followed by a return of NULL, which without an exception is an error of its own.
abbrev pub gives_null : {A : Type 0} → ℤ → Bool → Outcome A
gives_null r with_message = and_then (set_error r with_message) λ n. raises python

-- PyBool_FromLong on a result that is not an error.
abbrev pub to_bool : ℤ → Outcome Bool
to_bool r = and_then (set_error r false) λ n. returns (not (n == 0))

-- The cast of a 64-bit `long` to `int` keeps a value just when it lies in these bounds.
abbrev pub fits_int : ℤ → Bool
fits_int (pos n) = ltb n (2 ^ 31)
fits_int (negsuc n) = ltb n (2 ^ 31)

-- The descriptors, as the loop of `notify` stores them; an item that is no Python integer, or none
-- of 64 bits, is `none`.
unfoldable pub fd_array : List (Option ℤ) → Outcome (List ℤ)
fd_array [] = returns []
fd_array (none ∷ items) = raises python
fd_array (some value ∷ items) =
    let rest = and_then (fd_array items) λ arr. returns (value ∷ arr) in
    if fits_int value then rest else raises overflow_error

-- The `i < r` first names; the other places of the tuple stay NULL.
unfoldable pub name_places : ℕ → List (List ℕ) → List (Option (List ℕ))
name_places zero names = []
name_places (suc r) [] = none ∷ name_places r []
name_places (suc r) (name ∷ names) = some name ∷ name_places r names

-- `addr.in6.sin6_flowinfo = flowinfo`
unfoldable pub set_flowinfo : Sockaddr → ℤ → Outcome Sockaddr
set_flowinfo addr (pos zero) = returns addr
set_flowinfo (in4 port address) flowinfo = gives_null (neg (pos einval)) true
set_flowinfo (in6 port old address scope_id) flowinfo =
    returns (in6 port (u32 (pos_part flowinfo + 2 ^ 32 - neg_part flowinfo)) address scope_id)

abbrev pub parsed_address : Result Sockaddr → Outcome Sockaddr
parsed_address (error e) = gives_null (neg (pos e)) true
parsed_address (ok addr) = returns addr

module _ (sd : Systemd) where
  unfoldable pub booted : Outcome Bool
  booted = to_bool sd.sd_booted

  unfoldable pub notify_without : Bool → List ℕ → ℕ → Outcome Bool
  notify_without unset msg pid =
      if pid == 0
      then to_bool (sd.sd_notify unset msg)
      else (if sd.have_pid_notify
          then to_bool (sd.sd_pid_notify pid unset msg)
          else gives_null (neg (pos enosys)) false)

  unfoldable pub notify_fds : Bool → List ℕ → ℕ → List ℤ → Outcome Bool
  notify_fds unset msg pid arr =
      if sd.have_pid_notify_with_fds
      then to_bool (sd.sd_pid_notify_with_fds pid unset msg arr)
      else gives_null (neg (pos enosys)) false

  -- `fds` may be absent, and may be an object that has no length, such as None.
  unfoldable pub notify : List ℕ → Bool → ℤ → Option (Option (List (Option ℤ))) → Outcome Bool
  notify msg unset (negsuc n) fds = raises overflow_error
  notify msg unset (pos pid) none = notify_without unset msg pid
  notify msg unset (pos pid) (some none) = raises python
  notify msg unset (pos pid) (some (some fds)) = and_then (fd_array fds) (notify_fds unset msg pid)

  unfoldable pub listen_fds : Bool → Outcome ℕ
  listen_fds unset = set_error (sd.sd_listen_fds unset) false

  unfoldable pub listen_fds_with_names : Bool → Outcome (ℕ × List (Option (List ℕ)))
  listen_fds_with_names unset =
      let r = sd.sd_listen_fds_with_names unset in
      if sd.have_listen_fds_with_names
      then and_then (set_error r.0 false) (λ n. returns (n, name_places n r.1))
      else gives_null (neg (pos enosys)) false

  unfoldable pub is_fifo : ℤ → Option (List ℕ) → Outcome Bool
  is_fifo fd path = to_bool (sd.sd_is_fifo fd path)

  unfoldable pub is_mq : ℤ → Option (List ℕ) → Outcome Bool
  is_mq fd path = to_bool (sd.sd_is_mq fd path)

  unfoldable pub is_socket : ℤ → ℤ → ℤ → ℤ → Outcome Bool
  is_socket fd family type listening = to_bool (sd.sd_is_socket fd family type listening)

  unfoldable pub is_socket_inet : ℤ → ℤ → ℤ → ℤ → ℤ → Outcome Bool
  is_socket_inet fd family type listening port =
      if is_neg port || ltb 0xffff (pos_part port)
      then gives_null (neg (pos einval)) true
      else to_bool (sd.sd_is_socket_inet fd family type listening (u16 (pos_part port)))

  unfoldable pub is_socket_sockaddr : System → ℤ → List ℕ → ℤ → ℤ → ℤ → Outcome Bool
  is_socket_sockaddr sys fd address type flowinfo listening =
      and_then (parsed_address (parse_sockaddr sys address)) λ addr.
        and_then (set_flowinfo addr flowinfo) λ addr.
          if sd.have_is_socket_sockaddr
          then to_bool (sd.sd_is_socket_sockaddr fd type addr listening)
          else gives_null (neg (pos enosys)) false

  unfoldable pub is_socket_unix : ℤ → ℤ → ℤ → Option (List ℕ) → Outcome Bool
  is_socket_unix fd type listening path = to_bool (sd.sd_is_socket_unix fd type listening path)
