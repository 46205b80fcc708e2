-- ===== src/Siphash.antt =====
-- SipHash-2-4: systemd/siphash24.c and systemd/siphash24.h. A `uint64_t` is a number below
-- 2 ^ 64, and an input buffer with its length is a list of bytes. `none` is a read past the end
-- of the buffer.
pub mod Feed
pub mod Fill
pub mod Words
pub mod Compress
pub mod Blocks
pub mod Paper
pub mod Bounds
pub mod Program
mod Tests
use Prim.Native.Nat.{bit_or, bit_xor, bit_and}
use python_systemd.Base.{
  ℕ, zero, suc, ◌+◌, ◌-◌, ◌*◌, ◌%◌, ◌^◌, Bool, Option, none, some, List, [], ◌∷◌, length, get_elem?,
  ltb, ◌==◌, ◌&&◌, if◌then◌else◌, drop,
}
use python_systemd.Base.Buffer.{◌>>=◌}
use python_systemd.Base.Word.{u64, u8, ◌<<<◌, ◌>>>◌}

-- struct siphash
pub record Siphash : Type 0 where
  pub v0 : ℕ
  pub v1 : ℕ
  pub v2 : ℕ
  pub v3 : ℕ
  pub padding : ℕ
  pub inlen : ℕ

-- The machine is little-endian or `le64toh` makes it so: byte i has the weight 2 ^ (8 * i).
pub unaligned_read_le64 : List ℕ → Option ℕ
unaligned_read_le64 (b0 ∷ b1 ∷ b2 ∷ b3 ∷ b4 ∷ b5 ∷ b6 ∷ b7 ∷ rest) = some (
    b0
    + b1 * 2 ^ 8
    + b2 * 2 ^ 16
    + b3 * 2 ^ 24
    + b4 * 2 ^ 32
    + b5 * 2 ^ 40
    + b6 * 2 ^ 48
    + b7 * 2 ^ 56)
unaligned_read_le64 _ = none

pub rotate_left : ℕ → ℕ → ℕ
rotate_left x b = bit_or (u64 (x <<< b)) (x >>> (64 - b))

pub sipround : Siphash → Siphash
sipround s =
    let v0 = u64 (s.v0 + s.v1) in
    let v1 = rotate_left s.v1 13 in
    let v1 = bit_xor v1 v0 in
    let v0 = rotate_left v0 32 in
    let v2 = u64 (s.v2 + s.v3) in
    let v3 = rotate_left s.v3 16 in
    let v3 = bit_xor v3 v2 in
    let v0 = u64 (v0 + v3) in
    let v3 = rotate_left v3 21 in
    let v3 = bit_xor v3 v0 in
    let v2 = u64 (v2 + v1) in
    let v1 = rotate_left v1 17 in
    let v1 = bit_xor v1 v2 in
    let v2 = rotate_left v2 32 in record s { v0 = v0; v1 = v1; v2 = v2; v3 = v3 }

pub siphash24_init : List ℕ → Option Siphash
siphash24_init k = do
  k0 ← unaligned_read_le64 k
  k1 ← unaligned_read_le64 (drop 8 k)
  some (record {
    v0 = bit_xor 0x736f6d6570736575 k0;
    v1 = bit_xor 0x646f72616e646f6d k1;
    v2 = bit_xor 0x6c7967656e657261 k0;
    v3 = bit_xor 0x7465646279746573 k1;
    padding = 0;
    inlen = 0;
  })

-- v3 ^= m; two rounds; v0 ^= m
pub absorb : ℕ → Siphash → Siphash
absorb m s =
    let s = record s { v3 = bit_xor s.v3 m } in
    let s = sipround (sipround s) in record s { v0 = bit_xor s.v0 m }

-- The loop that fills the padding: the bytes left, the fill level and the padding.
pub fill_padding : List ℕ → ℕ → ℕ → List ℕ × ℕ × ℕ
fill_padding [] left padding = ([], left, padding)
fill_padding (b ∷ bytes) left padding =
    if ltb left 8
    then fill_padding bytes (left + 1) (bit_or padding (b <<< left * 8))
    else (b ∷ bytes, left, padding)

-- The loop over whole words, `tail` bytes before the end of the buffer.
pub compress_words : ℕ → List ℕ → Siphash → Option (List ℕ × Siphash)
compress_words tail (b0 ∷ b1 ∷ b2 ∷ b3 ∷ b4 ∷ b5 ∷ b6 ∷ b7 ∷ rest) s =
    let bytes = b0 ∷ b1 ∷ b2 ∷ b3 ∷ b4 ∷ b5 ∷ b6 ∷ b7 ∷ rest in
    if ltb tail (length bytes)
    then (unaligned_read_le64 bytes >>= λ m. compress_words tail rest (absorb m s))
    else some (bytes, s)
compress_words tail bytes s = if ltb tail (length bytes) then none else some (bytes, s)

-- The switch whose cases fall through from in[left - 1] down to in[0].
pub tail_padding : ℕ → List ℕ → ℕ → Option ℕ
tail_padding zero bytes padding = some padding
tail_padding (suc i) bytes padding =
    get_elem? bytes i >>= λ b. tail_padding i bytes (bit_or padding (b <<< i * 8))

-- From `end -= state->inlen % sizeof(uint64_t)` to the end of the function.
pub compress_rest : List ℕ → Siphash → Option Siphash
compress_rest bytes s = do
  (rest, s) ← compress_words (s.inlen % 8) bytes s
  padding ← tail_padding (bit_and s.inlen 7) rest s.padding
  some (record s { padding = padding })

-- What follows the fill loop: the early return, or the full padding taken as a word.
pub compress_filled : List ℕ × ℕ × ℕ → Siphash → Option Siphash
compress_filled ([], left, padding) s =
    if ltb left 8
    then some (record s { padding = padding })
    else compress_rest [] (record (absorb padding s) { padding = 0 })
compress_filled (b ∷ bytes, left, padding) s =
    compress_rest (b ∷ bytes) (record (absorb padding s) { padding = 0 })

pub siphash24_compress : List ℕ → Siphash → Option Siphash
siphash24_compress bytes s =
    let left = bit_and s.inlen 7 in
    let s' = record s { inlen = u64 (s.inlen + length bytes) } in
    if ltb 0 left
    then compress_filled (fill_padding bytes left s.padding) s'
    else compress_rest bytes s'

pub siphash24_finalize : Siphash → ℕ
siphash24_finalize s =
    let b = bit_or s.padding (u64 (s.inlen <<< 56)) in
    let s = absorb b s in
    let s = record s { v2 = bit_xor s.v2 0xff } in
    let s = sipround (sipround (sipround (sipround s))) in
    bit_xor (bit_xor (bit_xor s.v0 s.v1) s.v2) s.v3

pub siphash24 : List ℕ → List ℕ → Option ℕ
siphash24 bytes k = do
  s ← siphash24_init k
  s ← siphash24_compress bytes s
  some (siphash24_finalize s)
