-- ===== src/Tests/Util.antt =====
-- Clocks, reading, and parsing.
use python_systemd.Base.{
  ℕ, ◌+◌, ◌-◌, ◌*◌, ◌/◌, ◌≤◌, ◌<◌, ◌≡◌, refl, true, some, List, [], ◌∷◌, ◌++◌, length, ◌==◌,
  if◌then◌else◌, arith,
}
use python_systemd.Base.Int.{pos, neg}
use python_systemd.Util.{Read, got, failed, loop_read}
use python_systemd.Util.Transfer.{received, followed_by, IsPatient, loop_read_full, loop_read_short}
use python_systemd.Util.Parse.{
  System, Strtoul, ok, in4, htobe16, safe_atou, assign_address, parse_sockaddr, split_char,
  parse_plain,
}
use python_systemd.PyUtil.{absolute_timeout}
use python_systemd.PyUtil.Timeout.{absolute_timeout_wait, absolute_timeout_wraps}

abbrev some_reads : List Read
some_reads = got (1 ∷ 2 ∷ []) ∷ failed 4 ∷ failed 11 ∷ got (3 ∷ []) ∷ []

some_reads-IsPatient : IsPatient true some_reads
some_reads-IsPatient = (omega arith, (refl, (refl, (omega arith, tt))))

loop_read_full_example :
    loop_read (followed_by some_reads (got (4 ∷ []) ∷ got (5 ∷ []) ∷ [])) 4 true []
    ≡ some (pos 4, received some_reads ++ (4 ∷ []))
loop_read_full_example =
    loop_read_full some_reads (4 ∷ []) (got (5 ∷ []) ∷ []) 4 true some_reads-IsPatient (omega arith)
      refl

loop_read_short_example :
    (loop_read (followed_by some_reads (got [] ∷ [])) 8 true []
      ≡ some (pos (length (received some_reads)), received some_reads))
    × (loop_read (followed_by some_reads (failed 5 ∷ [])) 8 true []
        ≡ some (
          if length (received some_reads) == 0
              then neg (pos 5)
              else pos (length (received some_reads)),
          received some_reads,
        ))
loop_read_short_example =
    loop_read_short some_reads [] 5 8 true some_reads-IsPatient (omega arith) refl

-- One digit is a number, any address is known, and interface 3 has any name.
abbrev one_digit : List ℕ → Strtoul
one_digit [] = record { value = 0; errno = 0; rest = [] }
one_digit (c ∷ s) = record { value = c - 48; errno = 0; rest = s }

abbrev pub small_system : System
small_system = record {
  strtoul = one_digit;
  inet_pton_in = λ s. record { result = pos 1; errno = 0; address = 127 ∷ 0 ∷ 0 ∷ 1 ∷ [] };
  inet_pton_in6 = λ s. record { result = pos 1; errno = 0; address = 1 ∷ 2 ∷ [] };
  if_nametoindex = λ s. 3;
  access_if_inet6 = pos 0;
}

pub eight-is_number : safe_atou small_system (56 ∷ []) ≡ ok 8
unfolding safe_atou
eight-is_number = refl

absolute_timeout_wait_example :
    (msec : ℕ) × (absolute_timeout 5 7000 6000000 ≡ pos msec)
    × (6000000 ≤ 5 * 1000000 + 7000 / 1000 + msec * 1000)
    × (5 * 1000000 + 7000 / 1000 + msec * 1000 < 6000000 + 1000)
absolute_timeout_wait_example =
    absolute_timeout_wait 5 7000 6000000 (omega arith) (omega arith) (omega arith)

absolute_timeout_wraps_example :
    absolute_timeout 5 7000 9000000000000 ≡ absolute_timeout 5 7000 (9000000000000 - 4294967296000)
absolute_timeout_wraps_example =
    absolute_timeout_wraps 5 7000 9000000000000 (omega arith) (omega arith)

-- What a descriptor of Daemon's tests is an address of.
pub address-is_in4 :
    parse_sockaddr small_system (104 ∷ 105 ∷ 58 ∷ 56 ∷ [])
    ≡ ok (in4 (htobe16 8) (127 ∷ 0 ∷ 0 ∷ 1 ∷ []))
unfolding parse_sockaddr split_char parse_plain safe_atou assign_address
address-is_in4 = refl
