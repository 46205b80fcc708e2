-- ===== src/Siphash/Words.antt =====
-- Whole words and the last bytes of a buffer: the two ways in which siphash24.c collects bytes
-- into a word give the little-endian value of the bytes.
use Prim.Native.Nat.{bit_or}
use native.Mathlib.Nat.{one-le-pow}
use native.Mathlib.Numerals.{add-one}
use python_systemd.Base.{
  ℕ, zero, suc, ◌+◌, ◌*◌, ◌^◌, ◌<◌, ◌≤◌, ◌≡◌, refl, ◌∙◌, ap, ap₂, some, List, [], ◌∷◌, length, take,
  get_elem?, arith, lt→ltb,
}
use python_systemd.Base.Word.{◌<<<◌}
use python_systemd.Base.Bits.{bit_or-fields, pow-add}
use python_systemd.Siphash.{fill_padding, tail_padding, unaligned_read_le64}
use python_systemd.Siphash.Feed.{IsBytes}
use python_systemd.Siphash.Fill.{or_byte, byte_weight}

abbrev pub le_value : List ℕ → ℕ
le_value [] = 0
le_value (b ∷ bytes) = b + 256 * le_value bytes

shift_byte : (left x : ℕ) → x * 2 ^ ((left + 1) * 8) ≡ 256 * x * 2 ^ (left * 8)
shift_byte left x = omega (
  arith,
  ap (λ (t : ℕ). x * 2 ^ t) (let e : (left + 1) * 8 ≡ left * 8 + 8 = omega arith in e),
  ap (λ (t : ℕ). x * t) (pow-add (left * 8) 8),
)

-- Upwards, as in the fill loop.
pub fill_padding-value :
    (bytes : List ℕ) (left p : ℕ)
    → left + length bytes ≤ 8
    → p < 2 ^ (left * 8)
    → IsBytes bytes
    → fill_padding bytes left p ≡ ([], left + length bytes, p + le_value bytes * 2 ^ (left * 8))
unfolding fill_padding
fill_padding-value [] left p room hp hb = ap₂ (λ (l v : ℕ). ([], l, v)) (omega arith) (omega arith)
fill_padding-value (b ∷ bytes) left p room hp hb =
    rw (lt→ltb left 8 (omega arith), or_byte left p b hp)
      (fill_padding-value bytes (left + 1) (p + b * 2 ^ (left * 8)) (omega arith)
          (byte_weight left p b hb.0 hp) hb.1
        ∙ ap₂ (λ (l v : ℕ). ([], l, v)) (omega arith)
            (omega (arith, shift_byte left (le_value bytes))))

take-value :
    (i : ℕ) (bytes : List ℕ) (b : ℕ)
    → get_elem? bytes i ≡ some b
    → le_value (take (suc i) bytes) ≡ le_value (take i bytes) + b * 2 ^ (i * 8)
take-value i [] b e = cc
take-value zero (x ∷ bytes) b e = ground arith
take-value (suc i) (x ∷ bytes) b e =
    omega
      (arith, take-value i bytes b e, shift_byte i b, ap (λ (t : ℕ). b * 2 ^ (t * 8)) (add-one i))

get_byte :
    (i : ℕ) (bytes : List ℕ)
    → i < length bytes
    → IsBytes bytes
    → (b : ℕ) × (get_elem? bytes i ≡ some b) × (b < 256)
get_byte i [] h hb = absurd (omega arith)
get_byte zero (x ∷ bytes) h hb = (x, refl, hb.0)
get_byte (suc i) (x ∷ bytes) h hb = get_byte i bytes (omega arith) hb.1

-- A byte below the places that are taken.
place_above : (i : ℕ) → 2 ^ (suc i * 8) ≡ 256 * 2 ^ (i * 8)
place_above i = omega (
  arith,
  ap (λ (t : ℕ). 2 ^ t) (let e : suc i * 8 ≡ i * 8 + 8 = omega arith in e),
  pow-add (i * 8) 8,
)

or_below :
    (i q b : ℕ) → b < 256 → bit_or (q * 2 ^ (suc i * 8)) (b <<< i * 8) ≡ (q * 256 + b) * 2 ^ (i * 8)
or_below i q b hb =
    bit_or-fields (suc i * 8) q (b * 2 ^ (i * 8))
      (grind (arith, place_above i, one-le-pow (i * 8) 2 (omega arith)))
    ∙ omega (arith, ap (λ (t : ℕ). q * t) (place_above i))

-- Downwards, as in the switch.
pub tail_padding-value :
    (k : ℕ) (bytes : List ℕ) (q : ℕ)
    → k ≤ length bytes
    → IsBytes bytes
    → tail_padding k bytes (q * 2 ^ (k * 8)) ≡ some (q * 2 ^ (k * 8) + le_value (take k bytes))
unfolding tail_padding
tail_padding-value zero bytes q h hb = ap some (omega arith)
tail_padding-value (suc i) bytes q h hb =
    let (b, found, small) = get_byte i bytes (omega arith) hb in
    rw (found, or_below i q b small)
      (tail_padding-value i bytes (q * 256 + b) (omega arith) hb
        ∙ ap some (
            omega (
              arith,
              take-value i bytes b found,
              shift_byte i q,
              ap (λ (t : ℕ). q * 2 ^ (t * 8)) (add-one i),
            )))

-- A word that is read at once has the same value.
pub unaligned_read_le64-value :
    (b0 b1 b2 b3 b4 b5 b6 b7 : ℕ) (rest : List ℕ)
    → unaligned_read_le64 (b0 ∷ b1 ∷ b2 ∷ b3 ∷ b4 ∷ b5 ∷ b6 ∷ b7 ∷ rest)
      ≡ some (le_value (b0 ∷ b1 ∷ b2 ∷ b3 ∷ b4 ∷ b5 ∷ b6 ∷ b7 ∷ []))
unfolding unaligned_read_le64
unaligned_read_le64-value b0 b1 b2 b3 b4 b5 b6 b7 rest = ap some (omega arith)
