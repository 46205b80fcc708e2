-- ===== src/Fsprg/Codec.antt =====
-- How systemd/fsprg.c writes numbers into keys and states.
pub mod Laws
use Prim.Native.Nat.{bit_and, bit_or}
use python_systemd.Base.{
  ℕ, zero, suc, ◌+◌, ◌-◌, ◌*◌, ◌/◌, ◌%◌, ◌^◌, ◌≡◌, Bool, ◌&&◌, Option, none, some, List, [], ◌∷◌,
  ◌++◌, length, replicate, ltb, leb, ◌==◌, if◌then◌else◌,
}
use python_systemd.Base.Word.{u16, u64, ◌<<<◌, ◌>>>◌}
use python_systemd.Base.Buffer.{◌>>=◌, ◌>>◌, assert}
use python_systemd.Fsprg.Gcrypt.{Gcrypt}

-- ISVALID_SECPAR
unfoldable pub isvalid_secpar : ℕ → Bool
isvalid_secpar secpar = secpar % 16 == 0 && (leb 16 secpar && leb secpar 16384)

-- secpar / 16 - 1 is taken in `int` and stored in 16 bits.
unfoldable pub store_secpar : ℕ → List ℕ
store_secpar secpar =
    let secpar = u16 (secpar / 16 + 2 ^ 16 - 1) in
    bit_and (secpar >>> 8) 0xff ∷ bit_and (secpar >>> 0) 0xff ∷ []

unfoldable pub read_secpar : List ℕ → Option ℕ
read_secpar (b0 ∷ b1 ∷ rest) =
    let secpar = u16 (bit_or (b0 <<< 8) (b1 <<< 0)) in some (u16 (16 * (secpar + 1)))
read_secpar _ = none

unfoldable pub uint64_export : ℕ → List ℕ
uint64_export x =
    bit_and (x >>> 56) 0xff
    ∷ bit_and (x >>> 48) 0xff
    ∷ bit_and (x >>> 40) 0xff
    ∷ bit_and (x >>> 32) 0xff
    ∷ bit_and (x >>> 24) 0xff
    ∷ bit_and (x >>> 16) 0xff
    ∷ bit_and (x >>> 8) 0xff
    ∷ bit_and (x >>> 0) 0xff
    ∷ []

-- Fails on a buffer that has not eight bytes.
unfoldable pub uint64_import : List ℕ → Option ℕ
uint64_import (b0 ∷ b1 ∷ b2 ∷ b3 ∷ b4 ∷ b5 ∷ b6 ∷ b7 ∷ []) =
    let b01 = bit_or (b0 <<< 56) (b1 <<< 48) in
    let b02 = bit_or b01 (b2 <<< 40) in
    let b03 = bit_or b02 (b3 <<< 32) in
    let b04 = bit_or b03 (b4 <<< 24) in
    let b05 = bit_or b04 (b5 <<< 16) in
    let b06 = bit_or b05 (b6 <<< 8) in some (bit_or b06 (b7 <<< 0))
uint64_import _ = none

module _ (g : Gcrypt) where
  -- What is written to a buffer of `buflen` bytes: zeros, and the bytes of `x` at the end.
  unfoldable pub mpi_export : ℕ → ℕ → Option (List ℕ)
  mpi_export buflen x = do
    let len = (g.mpi_get_nbits x + 7) / 8
    assert (leb len buflen)
    let written = g.mpi_print x
    assert (length written == len)
    some (replicate (buflen - len) 0 ++ written)

  unfoldable pub mpi_import : List ℕ → Option ℕ
  mpi_import bytes = do
    let h = g.mpi_scan bytes
    assert (leb ((g.mpi_get_nbits h + 7) / 8) (length bytes))
    some h
