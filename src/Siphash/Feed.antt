-- ===== src/Siphash/Feed.antt =====
-- SipHash one byte at a time: the reference against which the chunked code of
-- systemd/siphash24.c is checked. A byte goes to the padding, and the eighth one completes a
-- word, which is taken in at once.
use python_systemd.Base.{
  ℕ, ◌+◌, ◌*◌, ◌%◌, ◌^◌, ◌<◌, ◌≡◌, refl, List, [], ◌∷◌, ◌++◌, ◌==◌, if◌then◌else◌,
}
use python_systemd.Base.Word.{u64}
use python_systemd.Siphash.{Siphash, absorb, sipround}

abbrev pub IsBytes : List ℕ → Type 0
IsBytes [] = Unit
IsBytes (b ∷ bytes) = (b < 256) × IsBytes bytes

-- The padding holds the bytes of the last incomplete word and nothing above them.
pub record IsState (s : Siphash) : Type 0 where
  pub fits : s.padding < 2 ^ (s.inlen % 8 * 8)
  pub counted : s.inlen < 2 ^ 64

-- The vector of a state with another padding and another count.
abbrev pub with_pending : Siphash → ℕ → ℕ → Siphash
with_pending s padding inlen = record s { padding = padding; inlen = inlen }

unfoldable pub feed_byte : ℕ → Siphash → Siphash
feed_byte b s =
    let left = s.inlen % 8 in
    let m = s.padding + b * 2 ^ (left * 8) in
    let n = u64 (s.inlen + 1) in
    if left == 7 then with_pending (absorb m s) 0 n else with_pending s m n

abbrev pub feed : List ℕ → Siphash → Siphash
feed [] s = s
feed (b ∷ bytes) s = feed bytes (feed_byte b s)

pub feed-append : (xs ys : List ℕ) (s : Siphash) → feed (xs ++ ys) s ≡ feed ys (feed xs s)
feed-append [] ys s = refl
feed-append (x ∷ xs) ys s = feed-append xs ys (feed_byte x s)

pub sipround-pending :
    (s : Siphash) (p n : ℕ) → sipround (with_pending s p n) ≡ with_pending (sipround s) p n
unfolding sipround
sipround-pending s p n = refl

-- A word changes the vector only, and depends on it only.
pub absorb-pending :
    (m : ℕ) (s : Siphash) (p n : ℕ) → absorb m (with_pending s p n) ≡ with_pending (absorb m s) p n
unfolding absorb sipround
absorb-pending m s p n = refl

pub IsBytes-append : (xs ys : List ℕ) → IsBytes (xs ++ ys) → IsBytes xs × IsBytes ys
IsBytes-append [] ys h = (tt, h)
IsBytes-append (x ∷ xs) ys h = let rest = IsBytes-append xs ys h.1 in ((h.0, rest.0), rest.1)
