-- ===== src/Daemon/Arguments.antt =====
-- What reaches libsystemd.
use python_systemd.Base.{
  ℕ, suc, ◌%◌, ◌≤◌, ◌≡◌, refl, ap, ◌∙◌, Bool, true, false, ◌&&◌, some, List, [], ◌∷◌, map, ltb, leb,
  not, ◌==◌, ◌⊎◌, inl, inr, Bool-cases, arith, if◌then◌else◌, ◌^◌,
}
use python_systemd.Base.Int.{ℤ, pos, negsuc, pos_part, neg_part}
use python_systemd.Util.Parse.{System, ok, in4, parse_sockaddr}
use python_systemd.PyUtil.{
  Outcome, returns, raises, and_then, overflow_error, memory_error, os_error, value_error,
  error_exception, set_error,
}
use python_systemd.Daemon.{
  Systemd, fits_int, fd_array, notify, notify_fds, to_bool, is_socket_inet, is_socket_sockaddr,
  set_flowinfo,
}

-- Whether all are integers of 32 bits.
abbrev pub all_fit : List ℤ → Bool
all_fit [] = true
all_fit (v ∷ vs) = ltb (pos_part v) 2147483648 && leb (neg_part v) 2147483648 && all_fit vs

fits_int-range : (v : ℤ) → fits_int v ≡ (ltb (pos_part v) 2147483648 && leb (neg_part v) 2147483648)
fits_int-range (pos n) = ground arith
fits_int-range (negsuc n) = ground arith

-- The array holds all descriptors, in order, or a descriptor is out of the range of `int`.
fd_array_lem :
    (vs : List ℤ)
    → fd_array (map some vs) ≡ (if all_fit vs then returns vs else raises overflow_error)
unfolding fd_array
fd_array_lem [] = refl
fd_array_lem (v ∷ vs) = elim (Bool-cases (fits_int v)) [
  | inl fits ↦ rw (← fits_int-range v, fits, fd_array_lem vs) (tail (all_fit vs))
  | inr big ↦ rw (← fits_int-range v, big) refl
]
  where
    tail :
        (b : Bool)
        → and_then (if b then returns vs else raises overflow_error) (λ arr. returns (v ∷ arr))
          ≡ (if b then returns (v ∷ vs) else raises overflow_error)
    tail true = refl
    tail false = refl

-- What a caller gets for a result of libsystemd: whether it is not 0, or an exception.
abbrev pub answer_of : ℤ → Outcome Bool
answer_of (pos n) = returns (not (n == 0))
answer_of (negsuc n) = raises (if suc n == 12 then memory_error else os_error (suc n))

pub to_bool-answer_of : (r : ℤ) → to_bool r ≡ answer_of r
unfolding set_error error_exception
to_bool-answer_of (pos n) = refl
to_bool-answer_of (negsuc n) = ground arith

module _ (sd : Systemd) where
  -- Without the function there is an OSError, with ENOSYS.
  abbrev pub handed : Bool → List ℕ → ℕ → List ℤ → Outcome Bool
  handed unset msg pid vs =
      if sd.have_pid_notify_with_fds
      then answer_of (sd.sd_pid_notify_with_fds pid unset msg vs)
      else raises (os_error 38)

  notify_fds-handed :
      (unset : Bool) (msg : List ℕ) (pid : ℕ) (vs : List ℤ)
      → notify_fds sd unset msg pid vs ≡ handed unset msg pid vs
  unfolding notify_fds set_error error_exception
  notify_fds-handed unset msg pid vs =
      ap (λ (o : Outcome Bool). if sd.have_pid_notify_with_fds then o else raises (os_error 38))
        (to_bool-answer_of (sd.sd_pid_notify_with_fds pid unset msg vs))

  -- With a pid that is not negative, notify hands descriptors that all lie in the range of int
  -- to sd_pid_notify_with_fds unchanged and in order, with the pid, the flag and the message,
  -- and gives False for 0, True for a positive result, MemoryError for -ENOMEM and OSError
  -- with the number of another negative one; where the build lacks the function it raises
  -- OSError with ENOSYS. It raises OverflowError when a descriptor does not fit, and for a
  -- negative pid.
  pub notify_descriptors :
      (msg : List ℕ) (unset : Bool) (pid : ℕ) (vs : List ℤ)
      → (notify sd msg unset (pos pid) (some (some (map some vs))) ≡ (
          if all_fit vs
          then (if sd.have_pid_notify_with_fds
              then answer_of (sd.sd_pid_notify_with_fds pid unset msg vs)
              else raises (os_error 38))
          else raises overflow_error))
        × (notify sd msg unset (negsuc pid) (some (some (map some vs))) ≡ raises overflow_error)
  unfolding notify
  notify_descriptors msg unset pid vs = (
    ap (λ (o : Outcome (List ℤ)). and_then o (notify_fds sd unset msg pid)) (fd_array_lem vs)
        ∙ sent (all_fit vs),
    refl,
  )
    where
      sent :
          (b : Bool)
          → and_then (if b then returns vs else raises overflow_error) (notify_fds sd unset msg pid)
            ≡ (if b then handed unset msg pid vs else raises overflow_error)
      sent true = notify_fds-handed unset msg pid vs
      sent false = refl

  -- is_socket_inet raises ValueError, or the port is one of 0 to 65535 and reaches libsystemd
  -- unchanged.
  pub is_socket_inet_port :
      (fd family type listening : ℤ) (port : ℤ)
      → (is_socket_inet sd fd family type listening port ≡ raises value_error)
        ⊎ ((p : ℕ) × (port ≡ pos p)
            × (p ≤ 65535)
            × (is_socket_inet sd fd family type listening port
                ≡ to_bool (sd.sd_is_socket_inet fd family type listening p)))
  unfolding is_socket_inet set_error error_exception
  is_socket_inet_port fd family type listening (negsuc n) = inl refl
  is_socket_inet_port fd family type listening (pos p) = elim (Bool-cases (ltb 0xffff p)) [
    | inl big ↦ inl (rw big refl)
    | inr small ↦ inr (
      p,
      refl,
      ground (arith, small),
      rw (small, (let e : p % 2 ^ 16 ≡ p = ground (arith, small) in e)) refl,
    )
  ]

  -- A positive flowinfo with a text that is an IPv4 address raises ValueError, whatever
  -- libsystemd is.
  pub is_socket_sockaddr_flowinfo :
      (sys : System) (fd : ℤ) (address : List ℕ) (type listening : ℤ) (flowinfo : ℕ) (port : ℕ)
      (host : List ℕ)
      → parse_sockaddr sys address ≡ ok (in4 port host)
      → is_socket_sockaddr sd sys fd address type (pos (suc flowinfo)) listening
        ≡ raises value_error
  unfolding is_socket_sockaddr set_flowinfo set_error error_exception
  is_socket_sockaddr_flowinfo sys fd address type listening flowinfo port host parsed =
      rw parsed refl
