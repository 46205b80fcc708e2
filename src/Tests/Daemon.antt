-- ===== src/Tests/Daemon.antt =====
-- Calls of systemd/_daemon.c with a libsystemd that agrees to everything.
use python_systemd.Base.{
  ◌==◌, ◌||◌, ltb, arith, ◌++◌, ◌+◌, ◌*◌, ◌/◌, ◌%◌, length, replicate, ◌≡◌, refl, true, some, List,
  [], ◌∷◌, map, if◌then◌else◌,
}
use python_systemd.Base.Int.{ℤ, pos, negsuc}
use python_systemd.PyUtil.{raises, value_error, overflow_error, os_error}
use python_systemd.Daemon.{is_socket_sockaddr, Systemd, notify, to_bool}
use python_systemd.Util.Parse.{System, ok, in4, in6, htobe16, safe_atou}
use python_systemd.Daemon.Address.{is_socket_sockaddr-in6, is_socket_sockaddr-host}
use python_systemd.Tests.Util.{small_system, eight-is_number}
use python_systemd.Daemon.Arguments.{all_fit, answer_of, notify_descriptors}

abbrev agreeing : Systemd
agreeing = record {
  sd_booted = pos 1;
  sd_notify = λ unset msg. pos 1;
  sd_pid_notify = λ pid unset msg. pos 1;
  sd_pid_notify_with_fds = λ pid unset msg fds. pos 1;
  sd_listen_fds = λ unset. pos 1;
  sd_listen_fds_with_names = λ unset. (pos 0, []);
  sd_is_fifo = λ fd path. pos 1;
  sd_is_mq = λ fd path. pos 1;
  sd_is_socket = λ fd family type listening. pos 1;
  sd_is_socket_inet = λ fd family type listening port. pos 1;
  sd_is_socket_sockaddr = λ fd type addr listening. pos 1;
  sd_is_socket_unix = λ fd type listening path. pos 1;
  have_pid_notify = true;
  have_pid_notify_with_fds = true;
  have_listen_fds_with_names = true;
  have_is_socket_sockaddr = true;
}

abbrev some_fds : List ℤ
some_fds = pos 3 ∷ pos 4294967296 ∷ []

notify_descriptors_example :
    (notify agreeing [] true (pos 7) (some (some (map some some_fds))) ≡ (
      if all_fit some_fds
      then (if agreeing.have_pid_notify_with_fds
          then answer_of (agreeing.sd_pid_notify_with_fds 7 true [] some_fds)
          else raises (os_error 38))
      else raises overflow_error))
    × (notify agreeing [] true (negsuc 7) (some (some (map some some_fds))) ≡ raises overflow_error)
notify_descriptors_example = notify_descriptors agreeing [] true 7 some_fds

is_socket_sockaddr-in6_example :
    is_socket_sockaddr agreeing small_system
      (pos 3)
      (91 ∷ ((58 ∷ 58 ∷ []) ++ (93 ∷ (58 ∷ (56 ∷ [])))))
      (pos 0)
      (pos 7)
      (negsuc 0)
    ≡ (if 8 == 0 || ltb 0xffff 8
        then raises value_error
        else to_bool (
            agreeing.sd_is_socket_sockaddr
              (pos 3)
              (pos 0)
              (in6 (htobe16 8) 7 (small_system.inet_pton_in6 (58 ∷ 58 ∷ [])).address 0)
              (negsuc 0)))
is_socket_sockaddr-in6_example =
    is_socket_sockaddr-in6 agreeing small_system (pos 3) (pos 0) (negsuc 0) (58 ∷ 58 ∷ []) (56 ∷ [])
      8 7 refl (refl, (refl, tt)) refl eight-is_number (omega arith)

-- A text of one character is an IPv4 address, and any other one the name of interface 3.
abbrev short_hosts : System
short_hosts = record small_system {
  inet_pton_in = λ s. record {
    result = if length s == 1 then pos 1 else pos 0;
    errno = 0;
    address = 127 ∷ 0 ∷ 0 ∷ 1 ∷ [];
  };
}

eight-is_short : safe_atou short_hosts (56 ∷ []) ≡ ok 8
unfolding safe_atou
eight-is_short = refl

is_socket_sockaddr-host_example :
    (is_socket_sockaddr agreeing short_hosts
        (pos 3)
        (97 ∷ ([] ++ (58 ∷ (56 ∷ []))))
        (pos 0)
        (pos 0)
        (negsuc 0)
      ≡ (if 8 == 0 || ltb 0xffff 8
          then raises value_error
          else answer_of (
              agreeing.sd_is_socket_sockaddr
                (pos 3)
                (pos 0)
                (in4 (8 % 256 * 256 + 8 / 256) (short_hosts.inet_pton_in (97 ∷ [])).address)
                (negsuc 0))))
    × (is_socket_sockaddr agreeing short_hosts
          (pos 3)
          (97 ∷ ([] ++ (58 ∷ (56 ∷ []))))
          (pos 0)
          (pos 6)
          (negsuc 0)
        ≡ raises value_error)
    × (is_socket_sockaddr agreeing short_hosts
          (pos 3)
          (108 ∷ ((111 ∷ []) ++ (58 ∷ (56 ∷ []))))
          (pos 0)
          (pos 0)
          (negsuc 0)
        ≡ (if 8 == 0 || ltb 0xffff 8
            then raises value_error
            else answer_of (
                agreeing.sd_is_socket_sockaddr
                  (pos 3)
                  (pos 0)
                  (in6 (8 % 256 * 256 + 8 / 256) 0 (replicate 16 0) 3)
                  (negsuc 0))))
is_socket_sockaddr-host_example =
    is_socket_sockaddr-host agreeing short_hosts (pos 3) (pos 0) (negsuc 0) 97 108 [] (111 ∷ [])
      (56 ∷ []) 8 2 5 refl eight-is_short (refl, tt) refl refl (refl, (refl, tt)) refl refl
      (omega arith) refl
