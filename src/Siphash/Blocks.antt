-- ===== src/Siphash/Blocks.antt =====
-- The hash of systemd/siphash24.c block by block: what feeding bytes one at a time comes to, in the
-- steps of the code.
use Prim.Native.Nat.{bit_xor}
use python_systemd.Base.{
  ℕ, ◌+◌, ◌*◌, ◌%◌, ◌^◌, ◌<◌, ◌≡◌, refl, ◌∙◌, ap, some, List, [], ◌∷◌, ◌++◌, length, arith,
}
use python_systemd.Base.Word.{u64, ◌<<<◌}
use python_systemd.Base.Bits.{bit_or-disjoint}
use python_systemd.Siphash.{
  Siphash, absorb, sipround, siphash24_init, siphash24_finalize, siphash24,
}
use python_systemd.Siphash.Feed.{
  IsBytes, feed, with_pending, sipround-pending, absorb-pending, IsBytes-append,
}
use python_systemd.Siphash.Words.{le_value, unaligned_read_le64-value}
use python_systemd.Siphash.Compress.{feed-word, feed-short, siphash24_compress-feed}
use python_systemd.Siphash.Bounds.{IsVector, sipround-IsVector, absorb-IsVector, xor_fits}

abbrev pub block_words : List ℕ → ℕ → Siphash → Siphash
block_words (b0 ∷ b1 ∷ b2 ∷ b3 ∷ b4 ∷ b5 ∷ b6 ∷ b7 ∷ rest) total s =
    block_words rest total (absorb (le_value (b0 ∷ b1 ∷ b2 ∷ b3 ∷ b4 ∷ b5 ∷ b6 ∷ b7 ∷ [])) s)
block_words bytes total s = absorb (le_value bytes + total % 256 * 2 ^ 56) s

abbrev pub last_rounds : Siphash → ℕ
last_rounds s =
    let s' = sipround (sipround (sipround (sipround (record s { v2 = bit_xor s.v2 0xff })))) in
    bit_xor (bit_xor (bit_xor s'.v0 s'.v1) s'.v2) s'.v3

-- The start vector for the two halves of a key, with nothing counted.
abbrev pub start_state : ℕ → ℕ → Siphash
start_state k0 k1 = record {
  v0 = bit_xor 0x736f6d6570736575 k0;
  v1 = bit_xor 0x646f72616e646f6d k1;
  v2 = bit_xor 0x6c7967656e657261 k0;
  v3 = bit_xor 0x7465646279746573 k1;
  padding = 0;
  inlen = 0;
}

abbrev pub block_hash : List ℕ → ℕ → ℕ → ℕ
block_hash bytes k0 k1 = last_rounds (block_words bytes (length bytes) (start_state k0 k1))

rounds-pending :
    (s : Siphash) (p n : ℕ)
    → sipround (sipround (sipround (sipround (with_pending s p n))))
      ≡ with_pending (sipround (sipround (sipround (sipround s)))) p n
rounds-pending s p n =
    ap (λ (t : Siphash). sipround (sipround (sipround t))) (sipround-pending s p n)
    ∙ ap (λ (t : Siphash). sipround (sipround t)) (sipround-pending (sipround s) p n)
    ∙ ap sipround (sipround-pending (sipround (sipround s)) p n)
    ∙ sipround-pending (sipround (sipround (sipround s))) p n

last_rounds-pending : (s : Siphash) (p n : ℕ) → last_rounds (with_pending s p n) ≡ last_rounds s
last_rounds-pending s p n =
    ap (λ (t : Siphash). bit_xor (bit_xor (bit_xor t.v0 t.v1) t.v2) t.v3)
      (rounds-pending (record s { v2 = bit_xor s.v2 0xff }) p n)

le_value-lt : (bytes : List ℕ) → length bytes < 8 → IsBytes bytes → le_value bytes < 2 ^ 56
le_value-lt (b0 ∷ b1 ∷ b2 ∷ b3 ∷ b4 ∷ b5 ∷ b6 ∷ b7 ∷ rest) h hb = absurd (omega arith)
le_value-lt _ h hb = omega arith

finalize-words :
    (bytes : List ℕ) (s : Siphash) (n total : ℕ)
    → length bytes < 8
    → total % 256 ≡ n % 256
    → IsBytes bytes
    → siphash24_finalize (with_pending s (le_value bytes) n)
      ≡ last_rounds (absorb (le_value bytes + total % 256 * 2 ^ 56) s)
unfolding siphash24_finalize
finalize-words bytes s n total h e hb =
    rw
      (
        let k : u64 (n <<< 56) ≡ total % 256 * 2 ^ 56 = omega arith in k,
        bit_or-disjoint 56 (le_value bytes) (total % 256) (le_value-lt bytes h hb),
        let k : total % 256 * 2 ^ 56 + le_value bytes ≡ le_value bytes + total % 256 * 2 ^ 56 =
              omega arith in
            k,
        absorb-pending (le_value bytes + total % 256 * 2 ^ 56) s (le_value bytes) n,
      )
      (last_rounds-pending (absorb (le_value bytes + total % 256 * 2 ^ 56) s) (le_value bytes) n)

finalize-words_short :
    (bytes : List ℕ) (s : Siphash) (n total : ℕ)
    → length bytes < 8
    → n % 8 ≡ 0
    → n < 2 ^ 64
    → total % 2 ^ 64 ≡ (n + length bytes) % 2 ^ 64
    → IsBytes bytes
    → siphash24_finalize (feed bytes (with_pending s 0 n))
      ≡ last_rounds (absorb (le_value bytes + total % 256 * 2 ^ 56) s)
finalize-words_short bytes s n total h e hn t hb =
    rw (feed-short bytes s n h e hn hb)
      (finalize-words bytes s (u64 (n + length bytes)) total h (omega arith) hb)

finalize-feed :
    (bytes : List ℕ) (s : Siphash) (n total : ℕ)
    → n % 8 ≡ 0
    → n < 2 ^ 64
    → total % 2 ^ 64 ≡ (n + length bytes) % 2 ^ 64
    → IsBytes bytes
    → siphash24_finalize (feed bytes (with_pending s 0 n)) ≡ last_rounds (block_words bytes total s)
finalize-feed (b0 ∷ b1 ∷ b2 ∷ b3 ∷ b4 ∷ b5 ∷ b6 ∷ b7 ∷ rest) s n total e hn t hb =
    let w : List ℕ = b0 ∷ b1 ∷ b2 ∷ b3 ∷ b4 ∷ b5 ∷ b6 ∷ b7 ∷ [] in
    let parts = IsBytes-append w rest hb in
    ap (λ (t : Siphash). siphash24_finalize (feed rest t)) (feed-word w s n refl e hn parts.0)
    ∙ finalize-feed rest (absorb (le_value w) s) (u64 (n + 8)) total (omega arith) (omega arith)
        (omega arith) parts.1
finalize-feed bytes s n total e hn t hb =
    finalize-words_short bytes s n total (omega arith) e hn t hb

siphash24_init-start :
    (lo hi : List ℕ)
    → length lo ≡ 8
    → length hi ≡ 8
    → siphash24_init (lo ++ hi) ≡ some (start_state (le_value lo) (le_value hi))
unfolding siphash24_init
siphash24_init-start (a0 ∷ a1 ∷ a2 ∷ a3 ∷ a4 ∷ a5 ∷ a6 ∷ a7 ∷ [])
      (b0 ∷ b1 ∷ b2 ∷ b3 ∷ b4 ∷ b5 ∷ b6 ∷ b7 ∷ []) hl hh =
    rw (
      unaligned_read_le64-value a0 a1 a2 a3 a4 a5 a6 a7
          (b0 ∷ b1 ∷ b2 ∷ b3 ∷ b4 ∷ b5 ∷ b6 ∷ b7 ∷ []),
      unaligned_read_le64-value b0 b1 b2 b3 b4 b5 b6 b7 [],
    )
siphash24_init-start _ _ hl hh = absurd (omega arith)

pub siphash24-eq-block_hash :
    (bytes : List ℕ) (lo hi : List ℕ)
    → length lo ≡ 8
    → length hi ≡ 8
    → IsBytes bytes
    → siphash24 bytes (lo ++ hi) ≡ some (block_hash bytes (le_value lo) (le_value hi))
unfolding siphash24
siphash24-eq-block_hash bytes lo hi hl hh hb =
    let start : Siphash = start_state (le_value lo) (le_value hi) in
    rw
      (
        siphash24_init-start lo hi hl hh,
        siphash24_compress-feed bytes start (record { fits = omega arith; counted = omega arith })
            hb,
      )
      (ap some (finalize-feed bytes start 0 (length bytes) refl (omega arith) (omega arith) hb))

-- The hash is a 64-bit number.
block_words-IsVector :
    (bytes : List ℕ) (total : ℕ) (s : Siphash)
    → IsBytes bytes
    → IsVector s
    → IsVector (block_words bytes total s)
block_words-IsVector (b0 ∷ b1 ∷ b2 ∷ b3 ∷ b4 ∷ b5 ∷ b6 ∷ b7 ∷ rest) total s hb v =
    block_words-IsVector rest total _ hb.1.1.1.1.1.1.1.1 (absorb-IsVector _ s (omega arith) v)
block_words-IsVector _ total s hb v = absorb-IsVector _ s (omega arith) v

last_rounds-lt : (s : Siphash) → IsVector s → last_rounds s < 2 ^ 64
last_rounds-lt s v =
    let mixed : IsVector (record s { v2 = bit_xor s.v2 0xff }) = record {
      v0_fits = v.v0_fits;
      v1_fits = v.v1_fits;
      v2_fits = xor_fits s.v2 0xff v.v2_fits (omega arith);
      v3_fits = v.v3_fits;
    } in
    let r =
      sipround-IsVector _ (sipround-IsVector _ (sipround-IsVector _ (sipround-IsVector _ mixed))) in
    xor_fits _ _ (xor_fits _ _ (xor_fits _ _ r.v0_fits r.v1_fits) r.v2_fits) r.v3_fits

start_state-IsVector : (k0 k1 : ℕ) → k0 < 2 ^ 64 → k1 < 2 ^ 64 → IsVector (start_state k0 k1)
start_state-IsVector k0 k1 h0 h1 = record {
  v0_fits = xor_fits _ k0 (omega arith) h0;
  v1_fits = xor_fits _ k1 (omega arith) h1;
  v2_fits = xor_fits _ k0 (omega arith) h0;
  v3_fits = xor_fits _ k1 (omega arith) h1;
}

word_value-lt : (w : List ℕ) → length w ≡ 8 → IsBytes w → le_value w < 2 ^ 64
word_value-lt (b0 ∷ b1 ∷ b2 ∷ b3 ∷ b4 ∷ b5 ∷ b6 ∷ b7 ∷ []) h hb = omega arith
word_value-lt _ h hb = absurd (omega arith)

-- For a message of bytes and a key of sixteen bytes siphash24 returns, and the hash fits 64
-- bits.
pub siphash24_returns :
    (bytes lo hi : List ℕ)
    → length lo ≡ 8
    → length hi ≡ 8
    → IsBytes bytes
    → IsBytes lo
    → IsBytes hi
    → (h : ℕ) × (siphash24 bytes (lo ++ hi) ≡ some h) × (h < 2 ^ 64)
siphash24_returns bytes lo hi hl hh hb hlo hhi = (
  block_hash bytes (le_value lo) (le_value hi),
  siphash24-eq-block_hash bytes lo hi hl hh hb,
  last_rounds-lt _ (
      block_words-IsVector bytes (length bytes) _ hb
        (start_state-IsVector _ _ (word_value-lt lo hl hlo) (word_value-lt hi hh hhi))),
)
