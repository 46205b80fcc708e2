-- ===== src/Siphash/Compress.antt =====
-- `siphash24_compress` against the bytewise reference: it reads nothing past the end of its
-- buffer, and its result does not depend on how the input is cut into chunks.
use python_systemd.Base.{
  ℕ, ◌+◌, ◌-◌, ◌*◌, ◌%◌, ◌^◌, ◌<◌, ◌≡◌, refl, ◌∙◌, sym, ap, ap₂, subst, some, List, [], ◌∷◌, ◌++◌,
  length, take, arith, ltb, lt→ltb, true, false, Bool-cases, inl, inr,
}
use python_systemd.Base.Buffer.{◌>>=◌}
use python_systemd.Base.Word.{u64}
use python_systemd.Base.Bits.{bit_and-seven}
use python_systemd.Siphash.{
  Siphash, absorb, fill_padding, tail_padding, compress_words, compress_rest, compress_filled,
  siphash24_compress,
}
use python_systemd.Siphash.Feed.{
  IsBytes, IsState, feed, with_pending, absorb-pending, feed-append, IsBytes-append,
}
use python_systemd.Siphash.Fill.{after_fill, fill_padding-IsFilled, fill_padding-feed, feed-IsState}
use python_systemd.Siphash.Words.{
  le_value, fill_padding-value, tail_padding-value, unaligned_read_le64-value,
}

-- Fewer than eight bytes make no word.
compress_words-short :
    (bytes : List ℕ) (s : Siphash)
    → length bytes < 8
    → compress_words (length bytes) bytes s ≡ some (bytes, s)
unfolding compress_words
compress_words-short (b0 ∷ b1 ∷ b2 ∷ b3 ∷ b4 ∷ b5 ∷ b6 ∷ b7 ∷ rest) s h = absurd (omega arith)
compress_words-short _ s h = refl

pub feed-short :
    (bytes : List ℕ) (s : Siphash) (n : ℕ)
    → length bytes < 8
    → n % 8 ≡ 0
    → n < 2 ^ 64
    → IsBytes bytes
    → feed bytes (with_pending s 0 n) ≡ with_pending s (le_value bytes) (u64 (n + length bytes))
feed-short bytes s n h e hn hb =
    fill_padding-feed bytes s 0 0 n (omega arith) e hn (omega arith) hb
    ∙ rw
        (
          fill_padding-value bytes 0 0 (omega arith) (omega arith) hb,
          lt→ltb (0 + length bytes) 8 (omega arith),
        )
        (ap (λ (p : ℕ). with_pending s p (u64 (n + length bytes))) (omega arith))

pub feed-word :
    (w : List ℕ) (s : Siphash) (n : ℕ)
    → length w ≡ 8
    → n % 8 ≡ 0
    → n < 2 ^ 64
    → IsBytes w
    → feed w (with_pending s 0 n) ≡ with_pending (absorb (le_value w) s) 0 (u64 (n + 8))
feed-word w s n full e hn hb =
    fill_padding-feed w s 0 0 n (omega arith) e hn (omega arith) hb
    ∙ rw (
      fill_padding-value w 0 0 (omega arith) (omega arith) hb,
      full,
      let k : 0 + le_value w * 2 ^ (0 * 8) ≡ le_value w = omega arith in k,
    )

compress_rest-word :
    (b0 b1 b2 b3 b4 b5 b6 b7 : ℕ) (rest : List ℕ) (s : Siphash) (n : ℕ)
    → let w = b0 ∷ b1 ∷ b2 ∷ b3 ∷ b4 ∷ b5 ∷ b6 ∷ b7 ∷ [] in
      compress_rest (w ++ rest) (with_pending s 0 n)
      ≡ compress_rest rest (with_pending (absorb (le_value w) s) 0 n)
unfolding compress_rest compress_words
compress_rest-word b0 b1 b2 b3 b4 b5 b6 b7 rest s n =
    let w : List ℕ = b0 ∷ b1 ∷ b2 ∷ b3 ∷ b4 ∷ b5 ∷ b6 ∷ b7 ∷ [] in
    rw (
      lt→ltb (n % 8) (length (w ++ rest)) (omega arith),
      unaligned_read_le64-value b0 b1 b2 b3 b4 b5 b6 b7 rest,
      absorb-pending (le_value w) s 0 n,
    )

take_all : (bytes : List ℕ) → take (length bytes) bytes ≡ bytes
take_all [] = refl
take_all (b ∷ bytes) = ap (λ (t : List ℕ). b ∷ t) (take_all bytes)

tail_padding-all :
    (bytes : List ℕ) → IsBytes bytes → tail_padding (length bytes) bytes 0 ≡ some (le_value bytes)
tail_padding-all bytes hb =
    ap (λ (t : ℕ). tail_padding (length bytes) bytes t) (zero_times (length bytes))
    ∙ tail_padding-value (length bytes) bytes 0 (omega arith) hb
    ∙ ap₂ (λ (p : ℕ) (t : List ℕ). some (p + le_value t)) (sym (zero_times (length bytes)))
        (take_all bytes)
    ∙ ap some (omega arith)
  where
    zero_times : (k : ℕ) → 0 ≡ 0 * 2 ^ (k * 8)
    zero_times k = omega arith

compress_rest-short :
    (bytes : List ℕ) (s : Siphash) (n : ℕ)
    → n % 8 ≡ length bytes
    → IsBytes bytes
    → compress_rest bytes (with_pending s 0 n) ≡ some (with_pending s (le_value bytes) n)
unfolding compress_rest
compress_rest-short bytes s n e hb = rw (
  e,
  compress_words-short bytes (with_pending s 0 n) (omega arith),
  bit_and-seven n,
  e,
  tail_padding-all bytes hb,
)

compress_rest-feed_short :
    (bytes : List ℕ) (s : Siphash) (n total : ℕ)
    → length bytes < 8
    → n % 8 ≡ 0
    → n < 2 ^ 64
    → total ≡ u64 (n + length bytes)
    → IsBytes bytes
    → compress_rest bytes (with_pending s 0 total) ≡ some (feed bytes (with_pending s 0 n))
compress_rest-feed_short bytes s n total h e hn t hb =
    rw (feed-short bytes s n h e hn hb, ← t) (compress_rest-short bytes s total (omega arith) hb)

-- From a word boundary on, the loop over words and the switch do what the reference does.
compress_rest-feed :
    (bytes : List ℕ) (s : Siphash) (n total : ℕ)
    → n % 8 ≡ 0
    → n < 2 ^ 64
    → total ≡ u64 (n + length bytes)
    → IsBytes bytes
    → compress_rest bytes (with_pending s 0 total) ≡ some (feed bytes (with_pending s 0 n))
compress_rest-feed (b0 ∷ b1 ∷ b2 ∷ b3 ∷ b4 ∷ b5 ∷ b6 ∷ b7 ∷ rest) s n total e hn t hb =
    let w : List ℕ = b0 ∷ b1 ∷ b2 ∷ b3 ∷ b4 ∷ b5 ∷ b6 ∷ b7 ∷ [] in
    let parts = IsBytes-append w rest hb in
    compress_rest-word b0 b1 b2 b3 b4 b5 b6 b7 rest s total
    ∙ compress_rest-feed rest (absorb (le_value w) s) (u64 (n + 8)) total (omega arith)
        (omega arith) (omega arith) parts.1
    ∙ ap (λ (t : Siphash). some (feed rest t)) (sym (feed-word w s n refl e hn parts.0))
compress_rest-feed bytes s n total e hn t hb =
    compress_rest-feed_short bytes s n total (omega arith) e hn t hb

full_padding :
    (bytes : List ℕ) (p : ℕ) (s : Siphash) (total whole : ℕ)
    → whole % 8 ≡ 0
    → whole < 2 ^ 64
    → total ≡ u64 (whole + length bytes)
    → IsBytes bytes
    → compress_rest bytes (record (absorb p (with_pending s s.padding total)) { padding = 0 })
      ≡ some (feed bytes (with_pending (absorb p s) 0 whole))
full_padding bytes p s total whole e hw t hb =
    rw (absorb-pending p s s.padding total)
      (compress_rest-feed bytes (absorb p s) whole total e hw t hb)

-- What follows the fill loop is what the reference does after it.
compress_filled-feed :
    (r : List ℕ × ℕ × ℕ) (s : Siphash) (total whole : ℕ)
    → whole % 8 ≡ 0
    → whole < 2 ^ 64
    → (ltb r.1 8 ≡ false → total ≡ u64 (whole + length r.0))
    → IsBytes r.0
    → (ltb r.1 8 ≡ true → r.0 ≡ [])
    → compress_filled r (with_pending s s.padding total) ≡ some (after_fill s total whole r)
unfolding compress_filled
compress_filled-feed ([], left, p) s total whole e hw t hb stop = elim (Bool-cases (ltb left 8)) [
  | inl low ↦ rw low
  | inr full ↦ rw full (full_padding [] p s total whole e hw (t full) tt)
]
compress_filled-feed (b ∷ bytes, left, p) s total whole e hw t hb stop =
    elim (Bool-cases (ltb left 8)) [
      | inl low ↦ cc (stop low)
      | inr full ↦ rw full (full_padding (b ∷ bytes) p s total whole e hw (t full) hb)
    ]

no_padding : (s : Siphash) → s.inlen % 8 ≡ 0 → s.padding < 2 ^ (s.inlen % 8 * 8) → s.padding ≡ 0
no_padding s e h =
    let h' : s.padding < 2 ^ (0 * 8) = subst (λ (t : ℕ). s.padding < 2 ^ (t * 8)) e h in omega arith

-- From a state that agrees with its length, siphash24_compress takes in a buffer of bytes
-- exactly as feeding its bytes one at a time does, and reads no byte past the end of the buffer.
pub siphash24_compress-feed :
    (bytes : List ℕ) (s : Siphash)
    → IsState s
    → IsBytes bytes
    → siphash24_compress bytes s ≡ some (feed bytes s)
unfolding siphash24_compress
siphash24_compress-feed bytes s valid hb =
    rw (bit_and-seven s.inlen) (elim (Bool-cases (ltb 0 (s.inlen % 8))) [
      | inl pending ↦
          let filled = fill_padding-IsFilled bytes (s.inlen % 8) s.padding (omega arith) hb in
          rw
            (
              pending,
              fill_padding-feed bytes s (s.inlen % 8) s.padding s.inlen (omega arith) refl
                  valid.counted valid.fits hb,
            )
            (compress_filled-feed (fill_padding bytes (s.inlen % 8) s.padding) s
              (u64 (s.inlen + length bytes)) (u64 (s.inlen + (8 - s.inlen % 8))) (omega arith)
              (omega arith) (λ e. omega (arith, filled.taken e)) filled.bytes_left filled.used_up)
      | inr aligned ↦
          let boundary : s.inlen % 8 ≡ 0 = ground arith in
          let empty : s.padding ≡ 0 = no_padding s boundary valid.fits in
          rw aligned (
            ap (λ (p : ℕ). compress_rest bytes (with_pending s p (u64 (s.inlen + length bytes))))
              empty
            ∙ compress_rest-feed bytes s s.inlen (u64 (s.inlen + length bytes)) boundary
                valid.counted refl hb
            ∙ ap (λ (p : ℕ). some (feed bytes (with_pending s p s.inlen))) (sym empty))
    ])

-- From a state that agrees with its length, compressing a message of bytes in one call is the
-- same as compressing it in two calls, wherever it is cut.
pub siphash24_compress-append :
    (xs ys : List ℕ) (s : Siphash)
    → IsState s
    → IsBytes (xs ++ ys)
    → siphash24_compress (xs ++ ys) s ≡ (siphash24_compress xs s >>= siphash24_compress ys)
siphash24_compress-append xs ys s valid hb =
    let parts = IsBytes-append xs ys hb in
    rw (siphash24_compress-feed xs s valid parts.0) (
      siphash24_compress-feed (xs ++ ys) s valid hb
      ∙ ap some (feed-append xs ys s)
      ∙ sym (siphash24_compress-feed ys (feed xs s) (feed-IsState xs s valid parts.0) parts.1))
