-- ===== src/Fsprg/Random/Masks.antt =====
-- What the masks of systemd/fsprg.c on the first and the last byte of a buffer achieve.
use Prim.Native.Nat.{bit_or}
use python_systemd.Base.{
  ℕ, ◌+◌, ◌-◌, ◌*◌, ◌/◌, ◌%◌, ◌^◌, ◌≤◌, ◌<◌, ◌≡◌, refl, sym, ◌∙◌, ap, true, Bool, some, List, [],
  ◌∷◌, length, get_elem?, set, length-set, arith, ◌==◌,
}
use python_systemd.Base.Bits.{all_below_sound}
use python_systemd.Base.Buffer.{◌>>=◌}
use python_systemd.Fsprg.Gcrypt.{IsBytes, be_value, be_value_from}
use python_systemd.Fsprg.Codec.Laws.{be_value-bounds}
use python_systemd.Fsprg.Random.{update_at}

abbrev sets_upper : ℕ → Bool
sets_upper b = bit_or b 0xc0 == b % 64 + 192

abbrev sets_lower : ℕ → Bool
sets_lower b = bit_or b 0x03 == b / 4 * 4 + 3

upper_bits : (b : ℕ) → b < 256 → bit_or b 0xc0 ≡ b % 64 + 192
upper_bits b h =
    let checked : sets_upper b ≡ true = all_below_sound 256 sets_upper b refl h in ground arith

lower_bits : (b : ℕ) → b < 256 → bit_or b 0x03 ≡ b / 4 * 4 + 3
lower_bits b h =
    let checked : sets_lower b ≡ true = all_below_sound 256 sets_lower b refl h in ground arith

-- The number of a buffer with its two upper and its two lower bits set.
abbrev pub start_of : List ℕ → ℕ
start_of [] = 0
start_of (b ∷ buf) = be_value ((b % 64 + 192) ∷ buf) / 4 * 4 + 3

-- The last byte is the value modulo 256, and the rest does not depend on it.
last_byte :
    (acc x : ℕ) (xs : List ℕ)
    → IsBytes (x ∷ xs)
    → (q : ℕ) × (b : ℕ) × (get_elem? (x ∷ xs) (length xs) ≡ some b)
      × (b < 256)
      × (be_value_from acc (x ∷ xs) ≡ q * 256 + b)
      × ((v : ℕ)
          → v < 256
          → (be_value_from acc (set (x ∷ xs) (length xs) v) ≡ q * 256 + v)
            × IsBytes (set (x ∷ xs) (length xs) v))
last_byte acc x [] h = (acc, x, refl, h.0, refl, λ v hv. (refl, (hv, tt)))
last_byte acc x (y ∷ ys) h =
    let (q, b, found, small, value, other) = last_byte (acc * 256 + x) y ys h.1 in
    (q, b, found, small, value, λ v hv. ((other v hv).0, (h.0, (other v hv).1)))

-- Two upper and two lower bits are set, and the buffer keeps its length.
pub record IsMasked (n : ℕ) (buf out : List ℕ) : Type 0 where
  pub updates :
      (update_at 0 (λ b. bit_or b 0xc0) buf >>= update_at (n - 1) (λ b. bit_or b 0x03)) ≡ some out
  pub out_bytes : IsBytes out
  pub out_length : length out ≡ n
  pub odd_odd : be_value out % 4 ≡ 3
  pub high : 0xc0 * 2 ^ (8 * (n - 1)) ≤ be_value out
  pub number : be_value out ≡ start_of buf

pub masked :
    (n : ℕ) (buf : List ℕ)
    → length buf ≡ n
    → 0 < n
    → IsBytes buf
    → (out : List ℕ) × IsMasked n buf out
unfolding update_at
masked n [] e h hb = absurd (omega arith)
masked n (x ∷ xs) e h hb =
    let top = upper_bits x hb.0 in
    let (q, b, found, small, value, other) =
      last_byte 0 (bit_or x 0xc0) xs (omega (arith, top), hb.1) in
    let low = lower_bits b small in
    let done = other (bit_or b 0x03) (omega (arith, low)) in
    let last : n - 1 ≡ length xs = omega arith in
    let bound = be_value-bounds (0 * 256 + bit_or x 0xc0) xs hb.1 in
    let scaled : 0xc0 * 2 ^ (8 * length xs) ≤ bit_or x 0xc0 * 2 ^ (8 * length xs) =
      grind (arith, (let k : 0xc0 ≤ bit_or x 0xc0 = omega (arith, top) in k)) in
    (
      set (bit_or x 0xc0 ∷ xs) (length xs) (bit_or b 0x03),
      record {
        updates = rw (last, found);
        out_bytes = done.1;
        out_length = length-set (bit_or x 0xc0 ∷ xs) (length xs) (bit_or b 0x03) ∙ e;
        odd_odd = rw done.0 (omega (arith, low));
        high = rw (last, done.0) (omega (arith, scaled, bound.0, value, low));
        number = rw done.0 (
            let raised : be_value ((x % 64 + 192) ∷ xs) ≡ q * 256 + b =
              ap (λ (t : ℕ). be_value (t ∷ xs)) (sym top) ∙ value in
            omega (arith, raised, low));
      },
    )
