-- ===== src/Siphash/Paper.antt =====
-- SipHash-2-4 as its authors describe it, on words of 64 bits and a vector of four: systemd/siphash24.c
-- is compared with it.
use Prim.Native.Nat.{bit_or, bit_xor}
use python_systemd.Base.{
  ℕ, ◌+◌, ◌-◌, ◌*◌, ◌/◌, ◌%◌, ◌^◌, ◌≡◌, refl, ◌∙◌, ap, some, List, [], ◌∷◌, ◌++◌, length,
}
use python_systemd.Siphash.{Siphash, rotate_left, absorb, sipround, siphash24}
use python_systemd.Siphash.Feed.{IsBytes}
use python_systemd.Siphash.Words.{le_value}
use python_systemd.Siphash.Blocks.{block_words, last_rounds, start_state, siphash24-eq-block_hash}

pub record Vector : Type 0 where
  pub v0 : ℕ
  pub v1 : ℕ
  pub v2 : ℕ
  pub v3 : ℕ

-- Addition and rotation of 64-bit words.
abbrev pub add64 : ℕ → ℕ → ℕ
add64 a b = (a + b) % 18446744073709551616

abbrev pub rotl64 : ℕ → ℕ → ℕ
rotl64 x b = bit_or (x * 2 ^ b % 18446744073709551616) (x / 2 ^ (64 - b))

-- SipRound, in the half rounds of the paper's figure.
abbrev pub half_round : ℕ → ℕ → Vector → Vector
half_round s t v =
    let a = add64 v.v0 v.v1 in
    let c = add64 v.v2 v.v3 in
    record {
      v0 = rotl64 a 32;
      v1 = bit_xor (rotl64 v.v1 s) a;
      v2 = c;
      v3 = bit_xor (rotl64 v.v3 t) c;
    }

-- The vector with v0 and v2 changed over, as the second half of a round takes it.
abbrev pub crossed : Vector → Vector
crossed v = record { v0 = v.v2; v1 = v.v1; v2 = v.v0; v3 = v.v3 }

abbrev pub paper_round : Vector → Vector
paper_round v = crossed (half_round 17 21 (crossed (half_round 13 16 v)))

-- Two compression rounds for a word, four at the end.
abbrev pub paper_absorb : ℕ → Vector → Vector
paper_absorb m v =
    let w = paper_round (paper_round (record v { v3 = bit_xor v.v3 m })) in
    record w { v0 = bit_xor w.v0 m }

abbrev pub paper_finish : Vector → ℕ
paper_finish v =
    let w =
      paper_round (paper_round (paper_round (paper_round (record v { v2 = bit_xor v.v2 255 })))) in
    bit_xor (bit_xor (bit_xor w.v0 w.v1) w.v2) w.v3

-- Little-endian words; the last holds the remaining bytes below the length modulo 256.
abbrev pub paper_words : List ℕ → ℕ → Vector → Vector
paper_words (b0 ∷ b1 ∷ b2 ∷ b3 ∷ b4 ∷ b5 ∷ b6 ∷ b7 ∷ rest) total v =
    paper_words rest total (paper_absorb (le_value (b0 ∷ b1 ∷ b2 ∷ b3 ∷ b4 ∷ b5 ∷ b6 ∷ b7 ∷ [])) v)
paper_words bytes total v = paper_absorb (le_value bytes + total % 256 * 2 ^ 56) v

-- "somepseudorandomlygeneratedbytes"
abbrev pub paper_start : ℕ → ℕ → Vector
paper_start k0 k1 = record {
  v0 = bit_xor 0x736f6d6570736575 k0;
  v1 = bit_xor 0x646f72616e646f6d k1;
  v2 = bit_xor 0x6c7967656e657261 k0;
  v3 = bit_xor 0x7465646279746573 k1;
}

abbrev pub paper_hash : List ℕ → ℕ → ℕ → ℕ
paper_hash bytes k0 k1 = paper_finish (paper_words bytes (length bytes) (paper_start k0 k1))

-- The vector of a state.
abbrev vector : Siphash → Vector
vector s = record { v0 = s.v0; v1 = s.v1; v2 = s.v2; v3 = s.v3 }

vector-sipround : (s : Siphash) → vector (sipround s) ≡ paper_round (vector s)
unfolding sipround rotate_left
vector-sipround s = refl

vector-absorb : (m : ℕ) (s : Siphash) → vector (absorb m s) ≡ paper_absorb m (vector s)
unfolding absorb
vector-absorb m s =
    let keyed : Siphash = record s { v3 = bit_xor s.v3 m } in
    ap (λ (v : Vector). record v { v0 = bit_xor v.v0 m })
      (vector-sipround (sipround keyed) ∙ ap paper_round (vector-sipround keyed))

vector-block_words :
    (bytes : List ℕ) (total : ℕ) (s : Siphash)
    → vector (block_words bytes total s) ≡ paper_words bytes total (vector s)
vector-block_words (b0 ∷ b1 ∷ b2 ∷ b3 ∷ b4 ∷ b5 ∷ b6 ∷ b7 ∷ rest) total s =
    let m : ℕ = le_value (b0 ∷ b1 ∷ b2 ∷ b3 ∷ b4 ∷ b5 ∷ b6 ∷ b7 ∷ []) in
    vector-block_words rest total (absorb m s) ∙ ap (paper_words rest total) (vector-absorb m s)
vector-block_words bytes total s = vector-absorb (le_value bytes + total % 256 * 2 ^ 56) s

four_rounds :
    (s : Siphash)
    → vector (sipround (sipround (sipround (sipround s))))
      ≡ paper_round (paper_round (paper_round (paper_round (vector s))))
four_rounds s =
    vector-sipround (sipround (sipround (sipround s)))
    ∙ ap paper_round (vector-sipround (sipround (sipround s)))
    ∙ ap (λ (v : Vector). paper_round (paper_round v)) (vector-sipround (sipround s))
    ∙ ap (λ (v : Vector). paper_round (paper_round (paper_round v))) (vector-sipround s)

last_rounds-paper_finish : (s : Siphash) → last_rounds s ≡ paper_finish (vector s)
last_rounds-paper_finish s =
    ap (λ (w : Vector). bit_xor (bit_xor (bit_xor w.v0 w.v1) w.v2) w.v3)
      (four_rounds (record s { v2 = bit_xor s.v2 0xff }))

-- For every message of bytes and every key of two eight-byte halves, siphash24 returns the hash
-- that the SipHash-2-4 paper defines, written out with its rounds, rotations and constants,
-- under the little-endian values of the halves.
pub siphash24-eq-paper_hash :
    (bytes : List ℕ) (lo hi : List ℕ)
    → length lo ≡ 8
    → length hi ≡ 8
    → IsBytes bytes
    → siphash24 bytes (lo ++ hi) ≡ some (paper_hash bytes (le_value lo) (le_value hi))
siphash24-eq-paper_hash bytes lo hi hl hh hb =
    let start : Siphash = start_state (le_value lo) (le_value hi) in
    siphash24-eq-block_hash bytes lo hi hl hh hb
    ∙ ap some (
        last_rounds-paper_finish (block_words bytes (length bytes) start)
        ∙ ap paper_finish (vector-block_words bytes (length bytes) start))
