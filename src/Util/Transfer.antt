-- ===== src/Util/Transfer.antt =====
-- Reading a whole buffer through interruptions.
use mathlib.Core.List.{append_assoc, append-nil}
use python_systemd.Base.{
  ℕ, ◌+◌, ◌-◌, ◌<◌, ◌≡◌, refl, sym, ap, ap₂, ◌∙◌, Bool, true, some, List, ◌∷◌, [], ◌++◌, length,
  arith, ◌==◌, ◌||◌, ◌&&◌, length-append, lt→ltb, if◌then◌else◌,
}
use python_systemd.Base.Int.{pos, neg}
use python_systemd.Util.{Read, got, failed, loop_read, eintr, eagain}

-- The errors after which the loop reads again.
abbrev pub is_retried : Bool → ℕ → Bool
is_retried do_poll errno = errno == eintr || (errno == eagain && do_poll)

-- Answers that bring the loop on: bytes, or an error after which it reads again.
abbrev pub IsPatient : Bool → List Read → Type 0
IsPatient do_poll [] = Unit
IsPatient do_poll (got bytes ∷ reads) = (0 < length bytes) × IsPatient do_poll reads
IsPatient do_poll (failed errno ∷ reads) =
    (is_retried do_poll errno ≡ true) × IsPatient do_poll reads

abbrev pub received : List Read → List ℕ
received [] = []
received (got bytes ∷ reads) = bytes ++ received reads
received (failed errno ∷ reads) = received reads

abbrev pub followed_by : List Read → List Read → List Read
followed_by [] more = more
followed_by (r ∷ reads) more = r ∷ followed_by reads more

pos_test : (n : ℕ) → 0 < n → (n == 0) ≡ Bool.false
pos_test n h = ground arith

-- The loop takes in what arrives while there is room, and goes on with the room that is left.
loop_read-followed_by :
    (reads more : List Read) (nbytes : ℕ) (do_poll : Bool) (p : List ℕ)
    → IsPatient do_poll reads
    → length (received reads) < nbytes
    → loop_read (followed_by reads more) nbytes do_poll p
      ≡ loop_read more (nbytes - length (received reads)) do_poll (p ++ received reads)
unfolding loop_read
loop_read-followed_by [] more nbytes do_poll p h room =
    ap₂ (λ (n : ℕ) (q : List ℕ). loop_read more n do_poll q) (omega arith) (sym (append-nil p))
loop_read-followed_by (got bytes ∷ reads) more nbytes do_poll p h room =
    rw (pos_test nbytes (omega arith), pos_test (length bytes) h.0)
      (loop_read-followed_by reads more (nbytes - length bytes) do_poll (p ++ bytes) h.1
          (omega (arith, length-append bytes (received reads)))
        ∙ ap₂ (λ (n : ℕ) (q : List ℕ). loop_read more n do_poll q)
            (omega (arith, length-append bytes (received reads)))
            (append_assoc p bytes (received reads)))
loop_read-followed_by (failed errno ∷ reads) more nbytes do_poll p h room =
    rw (pos_test nbytes (omega arith), h.0)
      (loop_read-followed_by reads more nbytes do_poll p h.1 room)

no_room :
    (more : List Read) (do_poll : Bool) (p : List ℕ)
    → loop_read more 0 do_poll p ≡ some (pos (length p), p)
unfolding loop_read
no_room [] do_poll p = refl
no_room (got bytes ∷ more) do_poll p = refl
no_room (failed errno ∷ more) do_poll p = refl

last_chunk :
    (bytes : List ℕ) (more : List Read) (n : ℕ) (do_poll : Bool) (p : List ℕ)
    → 0 < length bytes
    → length bytes ≡ n
    → loop_read (got bytes ∷ more) n do_poll p ≡ some (pos (length (p ++ bytes)), p ++ bytes)
unfolding loop_read
last_chunk bytes more n do_poll p some_bytes e =
    rw (pos_test n (omega arith), pos_test (length bytes) some_bytes)
      (ap (λ (left : ℕ). loop_read more left do_poll (p ++ bytes)) (omega arith)
        ∙ no_room more do_poll (p ++ bytes))

at_eof :
    (more : List Read) (n : ℕ) (do_poll : Bool) (p : List ℕ)
    → 0 < n
    → loop_read (got [] ∷ more) n do_poll p ≡ some (pos (length p), p)
unfolding loop_read
at_eof more n do_poll p left = rw (pos_test n left) refl

at_error :
    (more : List Read) (errno n : ℕ) (do_poll : Bool) (p : List ℕ)
    → is_retried do_poll errno ≡ Bool.false
    → 0 < n
    → loop_read (failed errno ∷ more) n do_poll p
      ≡ some (if length p == 0 then neg (pos errno) else pos (length p), p)
unfolding loop_read
at_error more errno n do_poll [] fatal left = rw (pos_test n left, fatal) refl
at_error more errno n do_poll (b ∷ p) fatal left =
    rw
      (
        pos_test n left,
        fatal,
        pos_test (length (b ∷ p)) (omega arith),
        lt→ltb 0 (length (b ∷ p)) (omega arith),
      )
      refl

-- When answers of read that are bytes or retried errors, the last of them bytes, hold nbytes
-- bytes in all, loop_read ends with those bytes and their number, whatever interrupted it.
pub loop_read_full :
    (reads : List Read) (bytes : List ℕ) (more : List Read) (nbytes : ℕ) (do_poll : Bool)
    → IsPatient do_poll reads
    → 0 < length bytes
    → length (received reads) + length bytes ≡ nbytes
    → loop_read (followed_by reads (got bytes ∷ more)) nbytes do_poll []
      ≡ some (pos nbytes, received reads ++ bytes)
loop_read_full reads bytes more nbytes do_poll h some_bytes fills =
    loop_read-followed_by reads (got bytes ∷ more) nbytes do_poll [] h (omega arith)
    ∙ last_chunk bytes more (nbytes - length (received reads)) do_poll (received reads) some_bytes
        (omega arith)
    ∙ ap (λ (n : ℕ). some (pos n, received reads ++ bytes))
        (omega (arith, length-append (received reads) bytes))

-- The end of the file ends loop_read with the bytes read so far; an error that is not retried
-- does so too when there are such bytes, and is the result when there are none.
pub loop_read_short :
    (reads more : List Read) (errno nbytes : ℕ) (do_poll : Bool)
    → IsPatient do_poll reads
    → length (received reads) < nbytes
    → is_retried do_poll errno ≡ Bool.false
    → (loop_read (followed_by reads (got [] ∷ more)) nbytes do_poll []
        ≡ some (pos (length (received reads)), received reads))
      × (loop_read (followed_by reads (failed errno ∷ more)) nbytes do_poll []
          ≡ some (
            if length (received reads) == 0 then neg (pos errno) else pos (length (received reads)),
            received reads,
          ))
loop_read_short reads more errno nbytes do_poll h room fatal = (
  loop_read-followed_by reads (got [] ∷ more) nbytes do_poll [] h room
      ∙ at_eof more (nbytes - length (received reads)) do_poll (received reads) (omega arith),
  loop_read-followed_by reads (failed errno ∷ more) nbytes do_poll [] h room
      ∙ at_error more errno (nbytes - length (received reads)) do_poll (received reads) fatal
          (omega arith),
)
