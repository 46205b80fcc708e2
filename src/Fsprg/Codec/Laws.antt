-- ===== src/Fsprg/Codec/Laws.antt =====
-- What is written is read back.
use Prim.Native.Nat.{bit_or}
use native.Mathlib.Nat.{one-le-pow}
use python_systemd.Base.{
  ℕ, zero, suc, ◌+◌, ◌-◌, ◌*◌, ◌/◌, ◌%◌, ◌^◌, ◌≤◌, ◌<◌, ◌≡◌, refl, ◌∙◌, ap, ap₂, true, some, List,
  [], ◌∷◌, ◌++◌, length, replicate, arith, le→leb, ==_iff,
}
use python_systemd.Base.Bits.{bit_and-byte, bit_or-fields, pow-add}
use python_systemd.Base.Word.{u16, ◌>>>◌}
use python_systemd.Fsprg.Gcrypt.{Gcrypt, IsFormat, IsBytes, be_value, be_value_from}
use python_systemd.Fsprg.Codec.{
  isvalid_secpar, store_secpar, read_secpar, uint64_export, uint64_import, mpi_export, mpi_import,
}

-- read_secpar gives back every valid security parameter that store_secpar has written, whatever
-- follows.
pub read_secpar-store_secpar :
    (secpar : ℕ) (rest : List ℕ)
    → isvalid_secpar secpar ≡ true
    → read_secpar (store_secpar secpar ++ rest) ≡ some secpar
unfolding read_secpar store_secpar isvalid_secpar
read_secpar-store_secpar secpar rest valid = ground (
  arith,
  bit_and-byte (u16 (secpar / 16 + 2 ^ 16 - 1) >>> 8),
  bit_and-byte (u16 (secpar / 16 + 2 ^ 16 - 1) >>> 0),
  bit_or-fields 8 (u16 (secpar / 16 + 2 ^ 16 - 1) / 2 ^ 8 % 256)
      (u16 (secpar / 16 + 2 ^ 16 - 1) % 256),
)

next_byte : (k q b : ℕ) → b < 256 → bit_or (q * 2 ^ (k + 8)) (b * 2 ^ k) ≡ (q * 256 + b) * 2 ^ k
next_byte k q b h =
    bit_or-fields (k + 8) q (b * 2 ^ k) (grind (arith, pow-add k 8, one-le-pow k 2 (omega arith)))
    ∙ omega (arith, ap (λ (t : ℕ). q * t) (pow-add k 8))

uint64_value :
    (b0 b1 b2 b3 b4 b5 b6 b7 : ℕ)
    → let bytes = b0 ∷ b1 ∷ b2 ∷ b3 ∷ b4 ∷ b5 ∷ b6 ∷ b7 ∷ [] in
      IsBytes bytes → uint64_import bytes ≡ some (be_value bytes)
unfolding uint64_import
uint64_value b0 b1 b2 b3 b4 b5 b6 b7 h =
    let q1 : ℕ = b0 * 256 + b1 in
    let q2 : ℕ = q1 * 256 + b2 in
    let q3 : ℕ = q2 * 256 + b3 in
    let q4 : ℕ = q3 * 256 + b4 in
    let q5 : ℕ = q4 * 256 + b5 in
    let q6 : ℕ = q5 * 256 + b6 in
    rw
      (
        next_byte 48 b0 b1 h.1.0,
        next_byte 40 q1 b2 h.1.1.0,
        next_byte 32 q2 b3 h.1.1.1.0,
        next_byte 24 q3 b4 h.1.1.1.1.0,
        next_byte 16 q4 b5 h.1.1.1.1.1.0,
        next_byte 8 q5 b6 h.1.1.1.1.1.1.0,
        next_byte 0 q6 b7 h.1.1.1.1.1.1.1.0,
      )
      (ap some (omega arith))

uint64_export-IsBytes : (x : ℕ) → IsBytes (uint64_export x)
unfolding uint64_export
uint64_export-IsBytes x = simp bit_and-byte (omega arith)

uint64_export-value : (x : ℕ) → be_value (uint64_export x) ≡ x % 2 ^ 64
unfolding uint64_export
uint64_export-value x = simp bit_and-byte (omega arith)

-- uint64_import gives back every number below 2^64 that uint64_export has written.
pub uint64_import-uint64_export : (x : ℕ) → x < 2 ^ 64 → uint64_import (uint64_export x) ≡ some x
unfolding uint64_export
uint64_import-uint64_export x h =
    uint64_value _ _ _ _ _ _ _ _ (unfold uint64_export in uint64_export-IsBytes x)
    ∙ ap some (uint64_export-value x ∙ omega arith)

eq_cons : {a b : ℕ} {xs ys : List ℕ} → a ≡ b → xs ≡ ys → a ∷ xs ≡ b ∷ ys
eq_cons p q = ap₂ ◌∷◌ p q

-- Any eight bytes are read by uint64_import as a number below 2^64 that uint64_export writes as
-- the same bytes.
pub uint64_export-uint64_import :
    (bytes : List ℕ)
    → length bytes ≡ 8
    → IsBytes bytes
    → (x : ℕ) × (uint64_import bytes ≡ some x) × (x < 2 ^ 64) × (uint64_export x ≡ bytes)
unfolding uint64_export
uint64_export-uint64_import (b0 ∷ b1 ∷ b2 ∷ b3 ∷ b4 ∷ b5 ∷ b6 ∷ b7 ∷ []) e h = (
  be_value (b0 ∷ b1 ∷ b2 ∷ b3 ∷ b4 ∷ b5 ∷ b6 ∷ b7 ∷ []),
  uint64_value b0 b1 b2 b3 b4 b5 b6 b7 h,
  omega arith,
  simp bit_and-byte (
      eq_cons (omega arith) (
        eq_cons (omega arith) (
          eq_cons (omega arith) (
            eq_cons (omega arith) (
              eq_cons (omega arith)
                (eq_cons (omega arith) (eq_cons (omega arith) (eq_cons (omega arith) refl)))))))),
)
uint64_export-uint64_import _ e h = absurd (omega arith)

be_value-zeros :
    (k acc : ℕ) (bytes : List ℕ) → be_value_from 0 (replicate k 0 ++ bytes) ≡ be_value bytes
be_value-zeros zero acc bytes = refl
be_value-zeros (suc k) acc bytes = be_value-zeros k acc bytes

zeros-length : (k : ℕ) (bytes : List ℕ) → length (replicate k 0 ++ bytes) ≡ k + length bytes
zeros-length zero bytes = omega arith
zeros-length (suc k) bytes = omega (arith, zeros-length k bytes)

zeros-IsBytes : (k : ℕ) (bytes : List ℕ) → IsBytes bytes → IsBytes (replicate k 0 ++ bytes)
zeros-IsBytes zero bytes h = h
zeros-IsBytes (suc k) bytes h = (omega arith, zeros-IsBytes k bytes h)

-- The weight of the leading byte.
place_above : (n : ℕ) → 2 ^ (8 * suc n) ≡ 256 * 2 ^ (8 * n)
place_above n =
    ap (λ (t : ℕ). 2 ^ t) (let e : 8 * suc n ≡ 8 + 8 * n = omega arith in e) ∙ pow-add 8 (8 * n)

-- The leading byte bounds the value.
pub be_value-bounds :
    (acc : ℕ) (bytes : List ℕ)
    → IsBytes bytes
    → (acc * 2 ^ (8 * length bytes) ≤ be_value_from acc bytes)
      × (be_value_from acc bytes < (acc + 1) * 2 ^ (8 * length bytes))
be_value-bounds acc [] h = omega arith
be_value-bounds acc (b ∷ bytes) h =
    let place : ℕ = 2 ^ (8 * length bytes) in
    let above : 2 ^ (8 * suc (length bytes)) ≡ 256 * place = place_above (length bytes) in
    let small : b * place ≤ 255 * place = grind (arith, h.0) in
    let rest = be_value-bounds (acc * 256 + b) bytes h.1 in
    rw above (omega (arith, rest.0, rest.1, small), omega (arith, rest.0, rest.1, small))

-- The bytes of `x` in a buffer of `buflen` bytes.
pub record IsWritten (g : Gcrypt) (buflen x : ℕ) (bytes : List ℕ) : Type 0 where
  pub written : mpi_export g buflen x ≡ some bytes
  pub filled : length bytes ≡ buflen
  pub all_bytes : IsBytes bytes
  pub value : be_value bytes ≡ x

module _ (g : Gcrypt) (format : IsFormat g) where
  pub mpi_export-IsWritten :
      (buflen x : ℕ) → x < 2 ^ (8 * buflen) → (bytes : List ℕ) × IsWritten g buflen x bytes
  unfolding mpi_export
  mpi_export-IsWritten buflen x h = (
    bytes,
    record {
      written = rw (le→leb len buflen fits, format.print_length x, (==_iff len len).1 refl);
      filled =
          omega (arith, fits, zeros-length (buflen - len) (g.mpi_print x), format.print_length x);
      all_bytes = zeros-IsBytes (buflen - len) (g.mpi_print x) (format.print-IsBytes x);
      value = be_value-zeros (buflen - len) 0 (g.mpi_print x) ∙ format.print_law x;
    },
  )
    where
      len : ℕ
      len = (g.mpi_get_nbits x + 7) / 8

      fits : len ≤ buflen
      fits = omega (arith, format.nbits_law x (8 * buflen) h)

      bytes : List ℕ
      bytes = replicate (buflen - len) 0 ++ g.mpi_print x

  pub mpi_import-value :
      (bytes : List ℕ) → IsBytes bytes → mpi_import g bytes ≡ some (be_value bytes)
  unfolding mpi_import
  mpi_import-value bytes h = rw (format.scan_law bytes h, le→leb _ _ fits)
    where
      fits : (g.mpi_get_nbits (be_value bytes) + 7) / 8 ≤ length bytes
      fits = omega (
        arith,
        format.nbits_law (be_value bytes) (8 * length bytes)
            (omega (arith, be_value-bounds 0 bytes h)),
      )

  -- Where libgcrypt writes and reads numbers in its unsigned format as documented, a number
  -- below 256^buflen is written to exactly buflen bytes by mpi_export and read back by
  -- mpi_import.
  pub mpi_import-mpi_export :
      (buflen x : ℕ)
      → x < 2 ^ (8 * buflen)
      → (bytes : List ℕ) × (mpi_export g buflen x ≡ some bytes)
        × (length bytes ≡ buflen)
        × (mpi_import g bytes ≡ some x)
  mpi_import-mpi_export buflen x h =
      let (bytes, e) = mpi_export-IsWritten buflen x h in
      (bytes, e.written, e.filled, mpi_import-value bytes e.all_bytes ∙ ap some e.value)
