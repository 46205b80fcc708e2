-- ===== src/Siphash/Tests.antt =====
-- The message and the key of systemd/_siphash24.c, and a state in the middle of a word.
use python_systemd.Base.{ℕ, take, drop, ◌++◌, arith, ◌≡◌, refl, some, List, [], ◌∷◌}
use python_systemd.Base.Buffer.{◌>>=◌}
use python_systemd.Siphash.Feed.{IsBytes, IsState}
use python_systemd.Siphash.Words.{le_value}
use python_systemd.Siphash.Compress.{siphash24_compress-append}
use python_systemd.Siphash.Paper.{paper_hash, siphash24-eq-paper_hash}
use python_systemd.Siphash.Program.{count_up, count_key, generate_siphash24}
use python_systemd.Siphash.{
  Siphash, siphash24, siphash24_init, siphash24_compress, siphash24_finalize, absorb, sipround,
  rotate_left, unaligned_read_le64, fill_padding, compress_words, tail_padding, compress_rest,
  compress_filled,
}

-- The test vector that the authors of SipHash publish.
paper_vector :
    paper_hash count_up (le_value (take 8 count_key)) (le_value (drop 8 count_key))
    ≡ 0xa129ca6149be45e5
paper_vector = refl

-- What systemd/_siphash24.c prints is the value of the paper.
siphash24_vector :
    generate_siphash24 (λ (n : ℕ) (out : List ℕ). n ∷ out) [] ≡ some (0xa129ca6149be45e5 ∷ [])
unfolding generate_siphash24 siphash24 siphash24_init siphash24_compress siphash24_finalize absorb
    sipround rotate_left unaligned_read_le64 fill_padding compress_words tail_padding compress_rest
    compress_filled
siphash24_vector = refl

count_up-IsBytes : IsBytes count_up
count_up-IsBytes = omega arith

abbrev some_state : Siphash
some_state = record { v0 = 1; v1 = 2; v2 = 3; v3 = 4; padding = 0x0504; inlen = 10 }

some_state-IsState : IsState some_state
some_state-IsState = record { fits = omega arith; counted = omega arith }

siphash24-eq-paper_hash_example :
    siphash24 count_up (take 8 count_key ++ drop 8 count_key)
    ≡ some (paper_hash count_up (le_value (take 8 count_key)) (le_value (drop 8 count_key)))
siphash24-eq-paper_hash_example =
    siphash24-eq-paper_hash count_up (take 8 count_key) (drop 8 count_key) refl refl
      count_up-IsBytes

siphash24_compress-append_example :
    siphash24_compress (take 9 count_up ++ drop 9 count_up) some_state
    ≡ (siphash24_compress (take 9 count_up) some_state >>= siphash24_compress (drop 9 count_up))
siphash24_compress-append_example =
    siphash24_compress-append (take 9 count_up) (drop 9 count_up) some_state some_state-IsState
      count_up-IsBytes
