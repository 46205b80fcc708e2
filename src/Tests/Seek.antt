-- ===== src/Tests/Seek.antt =====
-- The key of the primes 7 and 11.
use native.Mathlib.Nat.{mod-lt}
use python_systemd.Base.Bits.{all_below_sound}
use python_systemd.Base.{
  ℕ, Bool, ◌==◌, ==_iff, ◌*◌, ◌/◌, ◌%◌, ◌^◌, ◌<◌, ◌≡◌, refl, ◌∙◌, sym, true, none, some, List,
  length, ◌∷◌, replicate, arith,
}
use python_systemd.Base.Mod.{pow-mod}
use python_systemd.Base.Buffer.{◌>>=◌, read_at}
use python_systemd.Fsprg.Codec.{isvalid_secpar, mpi_import}
use python_systemd.Fsprg.Number.Exponents.{IsKeyPrime}
use python_systemd.Fsprg.Random.{
  gensquare, genprime3mod4, next_prime, det_randomize, putc_word, update_at,
}
use python_systemd.Fsprg.Scheme.{
  seek, gen_mk, gen_state0, get_key, get_epoch, rnd_gen_p, rnd_gen_q, rnd_gen_x, seed_or,
  mskinbytes, mpkinbytes, stateinbytes,
}
use python_systemd.Fsprg.Scheme.Evolve.{evolve_times}
use python_systemd.Fsprg.Scheme.Sealing.{gen_mk-seek}
use python_systemd.Tests.Software.{
  indexed, indexed-IsDigest, computing-IsArithmetic, computing-IsFormat, computing-IsSize,
  no_divisor, be_bytes, count, software,
}

-- Fermat's theorem from its residues.
by_residue : (p y : ℕ) → ((y % p) ^ p % p ≡ y % p) → y ^ p % p ≡ y % p
by_residue p y e = sym (pow-mod y p p) ∙ e

abbrev keeps_residue : ℕ → ℕ → Bool
keeps_residue p r = r ^ p % p == r

fermat_of :
    (p : ℕ) → 0 < p → ((r : ℕ) → r < p → keeps_residue p r ≡ true) → (y : ℕ) → y ^ p % p ≡ y % p
fermat_of p h checked y = by_residue p y ((==_iff _ _).0 (checked (y % p) (mod-lt y h)))

seven-IsKeyPrime : IsKeyPrime 7
seven-IsKeyPrime = record {
  above = omega arith;
  is_3_mod_4 = refl;
  fermat = fermat_of 7 (omega arith) (λ r. all_below_sound 7 (keeps_residue 7) r refl);
}

eleven-IsKeyPrime : IsKeyPrime 11
eleven-IsKeyPrime = record {
  above = omega arith;
  is_3_mod_4 = refl;
  fermat = fermat_of 11 (omega arith) (λ r. all_below_sound 11 (keeps_residue 11) r refl);
}

abbrev long_seed : List ℕ
long_seed = 0 ∷ 5 ∷ replicate 22 7

long_seed-square : gensquare software 77 long_seed rnd_gen_x 16 ≡ some 25
unfolding gensquare det_randomize putc_word update_at read_at mpi_import be_bytes count
long_seed-square = refl

valid_16 : isvalid_secpar 16 ≡ true
unfolding isvalid_secpar
valid_16 = refl

abbrev key_bytes : List ℕ
key_bytes = replicate 12 1

prime_211 : genprime3mod4 indexed 3 (16 / 2) (seed_or key_bytes none) rnd_gen_p ≡ some 211
unfolding genprime3mod4 next_prime det_randomize putc_word update_at read_at mpi_import be_bytes
    count no_divisor
prime_211 = refl

prime_227 : genprime3mod4 indexed 3 (16 / 2) (seed_or key_bytes none) rnd_gen_q ≡ some 227
unfolding genprime3mod4 next_prime det_randomize putc_word update_at read_at mpi_import be_bytes
    count no_divisor
prime_227 = refl

indexed-square :
    gensquare indexed (211 * 227) key_bytes rnd_gen_x 16 ≡ some (12288 * 12288 % (211 * 227))
unfolding gensquare det_randomize putc_word update_at read_at mpi_import be_bytes count
indexed-square = refl

msk_room : mskinbytes 16 ≡ some (length {A = ℕ} (replicate 4 9))
unfolding mskinbytes isvalid_secpar
msk_room = refl

mpk_room : mpkinbytes 16 ≡ some (length {A = ℕ} (replicate 4 9))
unfolding mpkinbytes isvalid_secpar
mpk_room = refl

state_room : stateinbytes 16 ≡ some (length {A = ℕ} (replicate 14 9))
unfolding stateinbytes isvalid_secpar
state_room = refl

gen_mk-seek_example :
    (msk : List ℕ) × (mpk : List ℕ) × (s : List ℕ) × (t : List ℕ) × (gen_mk indexed 3 key_bytes
        (some (replicate 4 9))
        (some (replicate 4 9))
        none
        16
      ≡ some (some msk, some mpk))
    × (seek indexed (replicate 14 9) 1000000 msk key_bytes ≡ some s)
    × ((gen_state0 indexed (replicate 14 9) mpk key_bytes >>= evolve_times indexed 1000000)
        ≡ some t)
    × (get_epoch s ≡ get_epoch t)
    × ((keylen idx : ℕ) → get_key indexed s keylen idx ≡ get_key indexed t keylen idx)
gen_mk-seek_example =
    gen_mk-seek indexed (computing-IsArithmetic _) (computing-IsFormat _) (computing-IsSize _)
      indexed-IsDigest 16 valid_16 3 key_bytes none 211 227 prime_211 prime_227 (omega arith)
      (omega arith)
      (fermat_of 211 (omega arith) (λ r. all_below_sound 211 (keeps_residue 211) r refl))
      (fermat_of 227 (omega arith) (λ r. all_below_sound 227 (keeps_residue 227) r refl))
      (156, refl) (replicate 4 9) (replicate 4 9) (replicate 14 9) (replicate 14 9) key_bytes
      (12288 * 12288 % (211 * 227)) 1000000 msk_room mpk_room state_room state_room indexed-square
      (omega arith)
