-- ===== src/Util/Parse/Laws.antt =====
-- What the parsers accept.
use python_systemd.Base.{
  ℕ, ◌<◌, ◌≡◌, refl, ap, false, none, some, List, [], ◌∷◌, ◌++◌, length, ltb, ◌==◌, ◌||◌,
  Bool-cases, inl, inr, if◌then◌else◌, ◌^◌, arith,
}
use python_systemd.Base.Word.{u16}
use python_systemd.Util.Parse.{
  System, Result, ok, error, Sockaddr, in6, htobe16, split_char, prepend, safe_atou, assign_address,
  with_port, parse_sockaddr, parse_bracket, parse_plain, bracket_port, starts_with,
}
use python_systemd.Base.Int.{pos}

-- A text without the character `c`.
abbrev pub Lacks : ℕ → List ℕ → Type 0
Lacks c [] = Unit
Lacks c (x ∷ s) = ((x == c) ≡ false) × Lacks c s

pub split_char-append :
    (c : ℕ) (before behind : List ℕ)
    → Lacks c before
    → split_char c (before ++ (c ∷ behind)) ≡ some (before, behind)
unfolding split_char
split_char-append c [] behind h = ground arith
split_char-append c (x ∷ before) behind h =
    rw (h.0) (ap (prepend x) (split_char-append c before behind h.1))

pub split_char-Lacks : (c : ℕ) (s : List ℕ) → Lacks c s → split_char c s ≡ none
unfolding split_char
split_char-Lacks c [] h = refl
split_char-Lacks c (x ∷ s) h = rw h.0 (ap (prepend x) (split_char-Lacks c s h.1))

-- A port that passes the test fits 16 bits.
port_guard :
    (u : ℕ) (f : ℕ → Result Sockaddr)
    → with_port (ok u) (λ v. f (u16 v)) ≡ (if u == 0 || ltb 0xffff u then error 22 else f u)
port_guard u f = elim (Bool-cases (u == 0 || ltb 0xffff u)) [
  | inl bad ↦ rw bad refl
  | inr good ↦ rw good (ap f (let e : u16 u ≡ u = ground (arith, good) in e))
]

module _ (sys : System) where
  -- When safe_atou accepts a text as u, strtoul has read the whole of it as u without an error,
  -- the text has no leading '-', and u fits 32 bits.
  pub safe_atou_ok :
      (s : List ℕ) (u : ℕ)
      → safe_atou sys s ≡ ok u
      → ((sys.strtoul s).errno ≡ 0)
        × (length (sys.strtoul s).rest ≡ 0)
        × (starts_with 45 s ≡ false)
        × ((sys.strtoul s).value ≡ u)
        × (u < 2 ^ 32)
  unfolding safe_atou
  safe_atou_ok s u h = ground (arith, h)

  -- For an address without ']' that inet_pton knows and a text that safe_atou reads as u,
  -- parse_sockaddr gives "[address]:text" that IPv6 address with port u where u is 1 to 65535,
  -- and -EINVAL else.
  pub parse_sockaddr-bracket :
      (n e : List ℕ) (u : ℕ)
      → Lacks 93 n
      → (sys.inet_pton_in6 n).result ≡ pos 1
      → safe_atou sys e ≡ ok u
      → parse_sockaddr sys (91 ∷ (n ++ (93 ∷ (58 ∷ e)))) ≡ (
          if u == 0 || ltb 0xffff u
          then error 22
          else ok (in6 (htobe16 u) 0 (sys.inet_pton_in6 n).address 0))
  unfolding parse_sockaddr parse_bracket bracket_port
  parse_sockaddr-bracket n e u h known parsed =
      rw (split_char-append 93 n (58 ∷ e) h, known, parsed)
        (port_guard u λ v. ok (in6 (htobe16 v) 0 (sys.inet_pton_in6 n).address 0))

  -- For a non-empty host without ':' that does not begin with '[' and a text that safe_atou
  -- reads as u, parse_sockaddr gives "host:text" the address of the host with port u where u
  -- is 1 to 65535, and -EINVAL else.
  pub parse_sockaddr-host :
      (c : ℕ) (n e : List ℕ) (u : ℕ)
      → Lacks 58 (c ∷ n)
      → (c == 91) ≡ false
      → safe_atou sys e ≡ ok u
      → parse_sockaddr sys (c ∷ (n ++ (58 ∷ e)))
        ≡ (if u == 0 || ltb 0xffff u then error 22 else assign_address sys (c ∷ n) u)
  unfolding parse_sockaddr parse_plain
  parse_sockaddr-host c n e u h plain parsed =
      rw (plain, split_char-append 58 (c ∷ n) e h, parsed)
        (port_guard u (assign_address sys (c ∷ n)))
