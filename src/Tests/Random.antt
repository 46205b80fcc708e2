-- ===== src/Tests/Random.antt =====
-- Pseudorandom bytes and primes.
use python_systemd.Base.{
  ℕ, ◌+◌, ◌-◌, ◌*◌, ◌%◌, ◌^◌, ◌≤◌, ◌≡◌, refl, some, List, [], ◌∷◌, length, take, arith,
}
use python_systemd.Fsprg.Gcrypt.{IsBytes}
use python_systemd.Fsprg.Random.{det_randomize, genprime3mod4, putc_word}
use python_systemd.Base.Buffer.{read_at}
use python_systemd.Fsprg.Random.Bytes.{det_randomize_prefix}
use python_systemd.Fsprg.Random.Primes.{IsFirst, IsPrime, genprime3mod4_lem}
use python_systemd.Tests.Software.{
  be_bytes, count, no_divisor, software, software-IsArithmetic, software-IsDigest,
  software-IsFormat,
}

abbrev some_seed : List ℕ
some_seed = 3 ∷ 1 ∷ 4 ∷ []

det_randomize_prefix_example :
    (long : List ℕ) × (det_randomize software 100 some_seed 1 ≡ some long)
    × (length long ≡ 100)
    × IsBytes long
    × (det_randomize software 40 some_seed 1 ≡ some (take 40 long))
det_randomize_prefix_example =
    det_randomize_prefix software software-IsDigest 40 100 some_seed 1 (omega arith)

candidate_buf : det_randomize software 1 some_seed 1 ≡ some (0 ∷ [])
unfolding det_randomize putc_word read_at be_bytes count
candidate_buf = refl

candidate-IsPrime : IsPrime software (195 + 4 * 1)
unfolding no_divisor
candidate-IsPrime = refl

genprime3mod4_lem_example :
    (p : ℕ) × (genprime3mod4 software 10 8 some_seed 1 ≡ some p)
    × IsFirst software 195 1 p
    × (p % 4 ≡ 3)
    × (3 * 2 ^ (8 - 2) ≤ p)
genprime3mod4_lem_example =
    genprime3mod4_lem software software-IsArithmetic software-IsFormat software-IsDigest 8 some_seed
      1 10 1 (0 ∷ []) refl (omega arith) candidate_buf (omega arith) candidate-IsPrime
