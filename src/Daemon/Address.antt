-- ===== src/Daemon/Address.antt =====
-- Addresses in text on their way through is_socket_sockaddr of systemd/_daemon.c to libsystemd.
use python_systemd.Base.{
  ℕ, zero, suc, ◌+◌, ◌-◌, ◌*◌, ◌/◌, ◌%◌, ◌∙◌, replicate, length, ◌^◌, ◌<◌, ◌≡◌, refl, ap, true,
  false, ◌||◌, List, ◌∷◌, ◌++◌, ltb, ◌==◌, if◌then◌else◌, arith, Bool-cases, inl, inr,
}
use python_systemd.Base.Int.{ℤ, pos}
use python_systemd.Base.Word.{u32}
use python_systemd.Util.Parse.{
  System, Result, ok, error, Sockaddr, in4, in6, in6addr_any, htobe16, safe_atou, assign_address,
  parse_sockaddr,
}
use python_systemd.Util.Parse.Laws.{Lacks, parse_sockaddr-bracket, parse_sockaddr-host}
use python_systemd.PyUtil.{returns, raises, value_error, set_error, error_exception}
use python_systemd.Daemon.Arguments.{answer_of, to_bool-answer_of}
use python_systemd.Daemon.{Systemd, to_bool, set_flowinfo, is_socket_sockaddr}

-- On an IPv6 address `flowinfo` is stored, 0 included.
set_flowinfo-in6 :
    (port scope_id flowinfo : ℕ) (address : List ℕ)
    → flowinfo < 2 ^ 31
    → set_flowinfo (in6 port 0 address scope_id) (pos flowinfo)
      ≡ returns (in6 port flowinfo address scope_id)
unfolding set_flowinfo
set_flowinfo-in6 port scope_id zero address h = refl
set_flowinfo-in6 port scope_id (suc f) address h =
    ap (λ (t : ℕ). returns (in6 port t address scope_id))
      (let e : u32 (suc f + 2 ^ 32 - 0) ≡ suc f = omega arith in e)

module _ (sd : Systemd) (sys : System) where
  -- For an address without ']' that inet_pton knows, a text that safe_atou reads as u, and a
  -- flowinfo of 0 to 2^31 - 1, is_socket_sockaddr on "[address]:text" hands libsystemd that
  -- IPv6 address with port u and that flowinfo where u is 1 to 65535, and raises ValueError
  -- else, where the build has sd_is_socket_sockaddr.
  pub is_socket_sockaddr-in6 :
      (fd type listening : ℤ) (n e : List ℕ) (u flowinfo : ℕ)
      → sd.have_is_socket_sockaddr ≡ true
      → Lacks 93 n
      → (sys.inet_pton_in6 n).result ≡ pos 1
      → safe_atou sys e ≡ ok u
      → flowinfo < 2 ^ 31
      → is_socket_sockaddr sd sys fd (91 ∷ (n ++ (93 ∷ (58 ∷ e)))) type (pos flowinfo) listening ≡ (
          if u == 0 || ltb 0xffff u
          then raises value_error
          else to_bool (
              sd.sd_is_socket_sockaddr fd type
                (in6 (htobe16 u) flowinfo (sys.inet_pton_in6 n).address 0)
                listening))
  unfolding is_socket_sockaddr set_error error_exception
  is_socket_sockaddr-in6 fd type listening n e u flowinfo have lacks known parsed fits =
      rw (parse_sockaddr-bracket sys n e u lacks known parsed)
        (elim (Bool-cases (u == 0 || ltb 0xffff u)) [
          | inl bad ↦ rw bad refl
          | inr good ↦
              rw
                (
                  good,
                  set_flowinfo-in6 (htobe16 u) 0 flowinfo (sys.inet_pton_in6 n).address fits,
                  have,
                )
                refl
        ])

  assign_address-in4 :
      (s : List ℕ) (u : ℕ)
      → (sys.inet_pton_in s).result ≡ pos 1
      → assign_address sys s u ≡ ok (in4 (u % 256 * 256 + u / 256) (sys.inet_pton_in s).address)
  unfolding assign_address
  assign_address-in4 s u known = rw known refl

  assign_address-interface :
      (s : List ℕ) (u idx : ℕ)
      → (sys.inet_pton_in s).result ≡ pos 0
      → length s < 16
      → sys.if_nametoindex s ≡ suc idx
      → assign_address sys s u ≡ ok (in6 (u % 256 * 256 + u / 256) 0 in6addr_any (suc idx))
  unfolding assign_address
  assign_address-interface s u idx unknown short named = rw (unknown, named) (ground (arith, short))

  -- What follows the parsing of an address with a port, without a flowinfo and with one.
  after_port :
      (fd type listening : ℤ) (address : List ℕ) (u : ℕ) (addr : Sockaddr)
      → sd.have_is_socket_sockaddr ≡ true
      → parse_sockaddr sys address ≡ (if u == 0 || ltb 0xffff u then error 22 else ok addr)
      → is_socket_sockaddr sd sys fd address type (pos 0) listening ≡ (
          if u == 0 || ltb 0xffff u
          then raises value_error
          else answer_of (sd.sd_is_socket_sockaddr fd type addr listening))
  unfolding is_socket_sockaddr set_flowinfo set_error error_exception
  after_port fd type listening address u addr have parsed =
      rw parsed (elim (Bool-cases (u == 0 || ltb 0xffff u)) [
        | inl bad ↦ rw bad refl
        | inr good ↦
            rw (good, have) (to_bool-answer_of (sd.sd_is_socket_sockaddr fd type addr listening))
      ])

  in4_with_flowinfo :
      (fd type listening : ℤ) (address : List ℕ) (u flowinfo port : ℕ) (host : List ℕ)
      → parse_sockaddr sys address
        ≡ (if u == 0 || ltb 0xffff u then error 22 else ok (in4 port host))
      → is_socket_sockaddr sd sys fd address type (pos (suc flowinfo)) listening
        ≡ raises value_error
  unfolding is_socket_sockaddr set_flowinfo set_error error_exception
  in4_with_flowinfo fd type listening address u flowinfo port host parsed =
      rw parsed (elim (Bool-cases (u == 0 || ltb 0xffff u)) [
        | inl bad ↦ rw bad refl
        | inr good ↦ rw good refl
      ])

  -- Where the build has sd_is_socket_sockaddr and safe_atou reads a text as u: for a host, not
  -- empty, without ':' and without '[' at its beginning, that inet_pton knows as an IPv4
  -- address, is_socket_sockaddr on "host:text" hands libsystemd that address with the two
  -- bytes of the port u in network order, and raises ValueError where a positive flowinfo is
  -- given; for such a name of fewer than 16 characters that inet_pton does not know and
  -- if_nametoindex does, it hands libsystemd, without a flowinfo, the IPv6 address of zeros
  -- with that port and the index of the interface. A port that is not 1 to 65535 raises
  -- ValueError, and a negative result of libsystemd the exception of its number.
  pub is_socket_sockaddr-host :
      (fd type listening : ℤ) (c d : ℕ) (host name e : List ℕ) (u idx flowinfo : ℕ)
      → sd.have_is_socket_sockaddr ≡ true
      → safe_atou sys e ≡ ok u
      → Lacks 58 (c ∷ host)
      → (c == 91) ≡ false
      → (sys.inet_pton_in (c ∷ host)).result ≡ pos 1
      → Lacks 58 (d ∷ name)
      → (d == 91) ≡ false
      → (sys.inet_pton_in (d ∷ name)).result ≡ pos 0
      → length (d ∷ name) < 16
      → sys.if_nametoindex (d ∷ name) ≡ suc idx
      → (is_socket_sockaddr sd sys fd (c ∷ (host ++ (58 ∷ e))) type (pos 0) listening ≡ (
          if u == 0 || ltb 0xffff u
          then raises value_error
          else answer_of (
              sd.sd_is_socket_sockaddr fd type
                (in4 (u % 256 * 256 + u / 256) (sys.inet_pton_in (c ∷ host)).address)
                listening)))
        × (is_socket_sockaddr sd sys fd (c ∷ (host ++ (58 ∷ e))) type (pos (suc flowinfo)) listening
            ≡ raises value_error)
        × (is_socket_sockaddr sd sys fd (d ∷ (name ++ (58 ∷ e))) type (pos 0) listening ≡ (
            if u == 0 || ltb 0xffff u
            then raises value_error
            else answer_of (
                sd.sd_is_socket_sockaddr fd type
                  (in6 (u % 256 * 256 + u / 256) 0 (replicate 16 0) (suc idx))
                  listening)))
  is_socket_sockaddr-host fd type listening c d host name e u idx flowinfo have parsed lacks plain
        known lacks' plain' unknown short named =
      (
        after_port fd type listening _ u _ have (
            parse_sockaddr-host sys c host e u lacks plain parsed
            ∙ branch (assign_address-in4 (c ∷ host) u known)),
        in4_with_flowinfo fd type listening _ u flowinfo _ _ (
            parse_sockaddr-host sys c host e u lacks plain parsed
            ∙ branch (assign_address-in4 (c ∷ host) u known)),
        after_port fd type listening _ u _ have (
            parse_sockaddr-host sys d name e u lacks' plain' parsed
            ∙ branch (assign_address-interface (d ∷ name) u idx unknown short named)),
      )
    where
      branch :
          {r : Result Sockaddr} {a : Sockaddr}
          → r ≡ ok a
          → (if u == 0 || ltb 0xffff u then error 22 else r)
            ≡ (if u == 0 || ltb 0xffff u then error 22 else ok a)
      branch h = ap (λ (r : Result Sockaddr). if u == 0 || ltb 0xffff u then error 22 else r) h
