-- ===== src/Util/Parse.antt =====
-- The parsers of systemd/util.c. The C library and the kernel are parameters.
pub mod Laws
use python_systemd.Base.{
  ℕ, ◌+◌, ◌-◌, ◌*◌, ◌/◌, ◌%◌, ◌^◌, Bool, true, false, ◌&&◌, ◌||◌, Option, none, some, List, [], ◌∷◌,
  length, ltb, leb, ◌==◌, if◌then◌else◌,
}
use python_systemd.Base.Int.{ℤ, pos, neg, is_neg, pos_part}
use python_systemd.Base.Word.{u16, u32}
use python_systemd.Util.{einval, erange}

-- '0' '9' 'a' 'f' 'A' 'F' are 48 57 97 102 65 70.
unfoldable pub unhexchar : ℕ → ℤ
unhexchar c =
    if leb 48 c && leb c 57
    then pos (c - 48)
    else (if leb 97 c && leb c 102
        then pos (c - 97 + 10)
        else (if leb 65 c && leb c 70 then pos (c - 65 + 10) else neg (pos einval)))

-- A C function that returns 0 and a value, or the negative of an error number.
pub data Result (A : Type 0) : Type 0 where
  ok : A → Result A
  error : ℕ → Result A

-- strtoul(s, &x, 0): the number, `errno`, and what follows at `x`.
pub record Strtoul : Type 0 where
  pub value : ℕ
  pub errno : ℕ
  pub rest : List ℕ

-- inet_pton: its result, `errno`, and the address.
pub record Pton : Type 0 where
  pub result : ℤ
  pub errno : ℕ
  pub address : List ℕ

-- `access_if_inet6` is the result of access("/proc/net/if_inet6", F_OK).
pub record System : Type 0 where
  pub strtoul : List ℕ → Strtoul
  pub inet_pton_in : List ℕ → Pton
  pub inet_pton_in6 : List ℕ → Pton
  pub if_nametoindex : List ℕ → ℕ
  pub access_if_inet6 : ℤ

-- The union of `struct sockaddr_in` and `struct sockaddr_in6` as it is filled from zeros, the port
-- in network order.
pub data Sockaddr : Type 0 where
  in4 : (port : ℕ) (address : List ℕ) → Sockaddr
  in6 : (port flowinfo : ℕ) (address : List ℕ) (scope_id : ℕ) → Sockaddr

abbrev pub htobe16 : ℕ → ℕ
htobe16 x = x % 256 * 256 + x / 256

abbrev pub in_addr_any : List ℕ
in_addr_any = 0 ∷ 0 ∷ 0 ∷ 0 ∷ []

abbrev pub in6addr_any : List ℕ
in6addr_any = 0 ∷ 0 ∷ 0 ∷ 0 ∷ 0 ∷ 0 ∷ 0 ∷ 0 ∷ 0 ∷ 0 ∷ 0 ∷ 0 ∷ 0 ∷ 0 ∷ 0 ∷ 0 ∷ []

-- IF_NAMESIZE
abbrev pub if_namesize : ℕ
if_namesize = 16

abbrev pub starts_with : ℕ → List ℕ → Bool
starts_with c [] = false
starts_with c (x ∷ s) = x == c

abbrev pub is_empty : List ℕ → Bool
is_empty [] = true
is_empty (x ∷ s) = false

-- strchr: the text before the first `c`, and the text behind it.
abbrev pub prepend : ℕ → Option (List ℕ × List ℕ) → Option (List ℕ × List ℕ)
prepend x none = none
prepend x (some (before, behind)) = some (x ∷ before, behind)

unfoldable pub split_char : ℕ → List ℕ → Option (List ℕ × List ℕ)
split_char c [] = none
split_char c (x ∷ s) =
    let later = prepend x (split_char c s) in if x == c then some ([], s) else later

-- A parsed port must be one of 1 to 65535.
abbrev pub with_port : Result ℕ → (ℕ → Result Sockaddr) → Result Sockaddr
with_port (error e) f = error e
with_port (ok u) f = if u == 0 || ltb 0xffff u then error einval else f u

module _ (sys : System) where
  unfoldable pub safe_atou : List ℕ → Result ℕ
  safe_atou s =
      let parsed = sys.strtoul s in
      let l = parsed.value in
      if ltb 0 parsed.errno
      then error parsed.errno
      else (if length parsed.rest == length s || ltb 0 (length parsed.rest)
          then error einval
          else (if starts_with 45 s
              then error erange
              else (if u32 l == l then ok (u32 l) else error erange)))

  unfoldable pub socket_ipv6_is_supported : Bool
  socket_ipv6_is_supported =
      if is_neg sys.access_if_inet6 || ltb 0 (pos_part sys.access_if_inet6) then false else true

  unfoldable pub assign_address : List ℕ → ℕ → Result Sockaddr
  assign_address s port =
      let r = sys.inet_pton_in s in
      let idx = sys.if_nametoindex s in
      if is_neg r.result
      then error r.errno
      else (if ltb 0 (pos_part r.result)
          then ok (in4 (htobe16 port) r.address)
          else (if ltb (if_namesize - 1) (length s)
              then error einval
              else (if idx == 0 then error einval else ok (in6 (htobe16 port) 0 in6addr_any idx))))

  -- What follows the address in brackets.
  unfoldable pub bracket_port : List ℕ → List ℕ → Result Sockaddr
  bracket_port address [] = ok (in6 0 0 address 0)
  bracket_port address (c ∷ e) =
      let port = with_port (safe_atou e) λ u. ok (in6 (htobe16 (u16 u)) 0 address 0) in
      if c == 58 then port else error einval

  unfoldable pub parse_bracket : Option (List ℕ × List ℕ) → Result Sockaddr
  parse_bracket none = error einval
  parse_bracket (some (n, e)) =
      let r = sys.inet_pton_in6 n in
      if is_neg r.result || pos_part r.result == 0
      then (if ltb 0 r.errno then error r.errno else error einval)
      else bracket_port r.address e

  any_address : ℕ → Result Sockaddr
  any_address u =
      if socket_ipv6_is_supported
      then ok (in6 (htobe16 (u16 u)) 0 in6addr_any 0)
      else ok (in4 (htobe16 (u16 u)) in_addr_any)

  unfoldable pub just_port : List ℕ → Result ℕ → Result Sockaddr
  unfolding any_address
  just_port s (error e) = assign_address s 0
  just_port s (ok u) = with_port (ok u) any_address

  unfoldable pub parse_plain : List ℕ → Option (List ℕ × List ℕ) → Result Sockaddr
  parse_plain s (some (n, e)) = with_port (safe_atou e) λ u. assign_address n (u16 u)
  parse_plain s none = just_port s (safe_atou s)

  unfoldable pub parse_sockaddr : List ℕ → Result Sockaddr
  parse_sockaddr [] = parse_plain [] none
  parse_sockaddr (c ∷ s) =
      if c == 91
      then parse_bracket (split_char 93 s)
      else parse_plain (c ∷ s) (split_char 58 (c ∷ s))
