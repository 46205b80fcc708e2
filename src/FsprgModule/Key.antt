-- ===== src/FsprgModule/Key.antt =====
-- The text of a key that `setup_key` prints, and what `seek` reads of it.
use python_systemd.Base.{
  ℕ, suc, ◌+◌, ◌/◌, ◌%◌, ◌<◌, ◌≡◌, refl, ap, sym, ◌∙◌, false, ◌&&◌, some, List, [], ◌∷◌, ◌++◌,
  length, ltb, ◌==◌, Bool-cases, inl, inr, arith,
}
use python_systemd.Base.Int.{pos}
use python_systemd.Fsprg.Gcrypt.{IsBytes}
use python_systemd.Util.Parse.{unhexchar}
use python_systemd.FsprgModule.{
  seed_byte, parse_seed, key_result, parse_verification_key, hex_digit, hex_byte, hex_number,
  seed_text, key_text,
}

unhexchar-hex_digit : (d : ℕ) → d < 16 → unhexchar (hex_digit d) ≡ pos d
unfolding unhexchar
unhexchar-hex_digit d h = ground arith

hex_digit-is_not_dash : (d : ℕ) → d < 16 → (hex_digit d == 45) ≡ false
hex_digit-is_not_dash d h = ground arith

seed_byte-hex_byte : (b : ℕ) (k : List ℕ) → b < 256 → seed_byte (hex_byte b ++ k) ≡ some (b, k)
unfolding seed_byte
seed_byte-hex_byte b k h =
    rw
      (
        hex_digit-is_not_dash (b / 16) (omega arith),
        unhexchar-hex_digit (b / 16) (omega arith),
        unhexchar-hex_digit (b % 16) (omega arith),
      )
      (ap (λ (v : ℕ). some (v, k)) (omega arith))

seed_byte-dash : (k : List ℕ) → seed_byte (45 ∷ k) ≡ seed_byte k
unfolding seed_byte
seed_byte-dash k = refl

dash_step : (c : ℕ) (k : List ℕ) → parse_seed (suc c) (45 ∷ k) ≡ parse_seed (suc c) k
unfolding parse_seed
dash_step c k = rw (seed_byte-dash k) refl

seed_step :
    (b : ℕ) (text seed rest : List ℕ)
    → b < 256
    → parse_seed (length seed) text ≡ some (seed, rest)
    → parse_seed (suc (length seed)) (hex_byte b ++ text) ≡ some (b ∷ seed, rest)
unfolding parse_seed
seed_step b text seed rest h e = rw (seed_byte-hex_byte b text h, e) refl

-- The loop of parse_verification_key reads back the bytes that the loop of setup_key prints with
-- a dash before every third one, and stops behind them.
pub parse_seed-seed_text :
    (i : ℕ) (seed rest : List ℕ)
    → IsBytes seed
    → parse_seed (length seed) (seed_text i seed ++ rest) ≡ some (seed, rest)
unfolding parse_seed seed_text
parse_seed-seed_text i [] rest h = refl
parse_seed-seed_text i (b ∷ seed) rest h = elim (Bool-cases (ltb 0 i && i % 3 == 0)) [
  | inl dash ↦ rw dash (
      dash_step (length seed) (hex_byte b ++ (seed_text (i + 1) seed ++ rest))
      ∙ seed_step b (seed_text (i + 1) seed ++ rest) seed rest h.0
          (parse_seed-seed_text (i + 1) seed rest h.1))
  | inr no_dash ↦ rw no_dash (
      seed_step b (seed_text (i + 1) seed ++ rest) seed rest h.0
        (parse_seed-seed_text (i + 1) seed rest h.1))
]

-- A key text that setup_key prints for a seed of 12 bytes comes to seek as the first of these
-- bytes alone, where sscanf reads two fields from the numbers.
pub parse_verification_key-key_text :
    (sscanf : List ℕ → ℕ) (b : ℕ) (seed : List ℕ) (n interval : ℕ)
    → IsBytes (b ∷ seed)
    → length (b ∷ seed) ≡ 12
    → sscanf (hex_number 15 n ++ (45 ∷ (hex_number 15 interval ++ (10 ∷ [])))) ≡ 2
    → parse_verification_key sscanf (key_text (b ∷ seed) n interval) ≡ b
unfolding parse_verification_key key_text key_result
parse_verification_key-key_text sscanf b seed n interval h twelve two =
    ap (key_result sscanf) (
      ap (λ (len : ℕ). parse_seed len (key_text (b ∷ seed) n interval)) (sym twelve)
      ∙ parse_seed-seed_text 0 (b ∷ seed) _ h)
    ∙ rw two refl
