-- ===== src/Fsprg/Scheme/Sealing.antt =====
-- The keys of FSPRG_GenMK in use: the private one to seek, the public one to evolve.
use native.Mathlib.Nat.{pow-le-pow_right}
use python_systemd.Base.{
  ℕ, ◌+◌, ◌-◌, ◌*◌, ◌/◌, ◌%◌, ◌^◌, ◌≤◌, ◌<◌, ◌≡◌, ◌∙◌, ap, ap₂, sym, subst, true, Option, some,
  List, ◌++◌, length, arith,
}
use python_systemd.Base.Cut.{cut_two, cut_three, cut_four}
use python_systemd.Base.Buffer.{◌>>=◌, ◌>>◌, assert}
use python_systemd.Fsprg.Gcrypt.{Gcrypt, IsArithmetic, IsFormat, IsDigest, IsSize}
use python_systemd.Fsprg.Codec.{isvalid_secpar}
use python_systemd.Fsprg.Random.{genprime3mod4, gensquare}
use python_systemd.Fsprg.Number.Crt.{Invertible}
use python_systemd.Fsprg.Number.Exponents.{IsKeyPrime}
use python_systemd.Fsprg.Scheme.{
  gen_mk, seed_or, rnd_gen_p, rnd_gen_q, rnd_gen_x, seek, gen_state0, get_key, get_epoch,
  mskinbytes, mpkinbytes, stateinbytes,
}
use python_systemd.Fsprg.Scheme.Evolve.{evolve_times}
use python_systemd.Fsprg.Scheme.Agree.{seek-gen_state0}
use python_systemd.Fsprg.Scheme.Keys.{gen_mk-AreKeys, widths}

key_prime :
    (secpar p : ℕ)
    → isvalid_secpar secpar ≡ true
    → p % 4 ≡ 3
    → 3 * 2 ^ (secpar / 2 - 2) ≤ p
    → ((y : ℕ) → y ^ p % p ≡ y % p)
    → IsKeyPrime p
key_prime secpar p valid odd high fermat =
    let (_, _, big, _, _, _, _) = widths secpar valid in
    let room =
      pow-le-pow_right {n = 2} (omega arith) {i = 6} {j = secpar / 2 - 2} (omega (arith, big)) in
    record { above = omega (arith, room, high); is_3_mod_4 = odd; fermat = fermat }

-- What `stateinbytes` and the like tell of memory that has this size.
room_sizes :
    (secpar : ℕ)
    → isvalid_secpar secpar ≡ true
    → (2 * (secpar / 2) / 8 ≡ secpar / 2 / 8 + secpar / 2 / 8)
      × (2 * secpar / 8 ≡ secpar / 8 + secpar / 8)
unfolding isvalid_secpar
room_sizes secpar h = ground arith

asserted_size :
    (secpar size n : ℕ)
    → isvalid_secpar secpar ≡ true
    → (assert (isvalid_secpar secpar) >> some size) ≡ some n
    → size ≡ n
asserted_size secpar size n valid e = ground (arith, valid)

module _ (g : Gcrypt) (numbers : IsArithmetic g) (format : IsFormat g) (size : IsSize g)
    (digest : IsDigest g) (secpar : ℕ) (valid : isvalid_secpar secpar ≡ true) (tries : ℕ)
    (random : List ℕ) (key_seed : Option (List ℕ)) (p q : ℕ)
    (found_p : genprime3mod4 g tries (secpar / 2) (seed_or random key_seed) rnd_gen_p ≡ some p)
    (found_q : genprime3mod4 g tries (secpar / 2) (seed_or random key_seed) rnd_gen_q ≡ some q)
    (p_fits : p < 2 ^ (secpar / 2)) (q_fits : q < 2 ^ (secpar / 2))
    (fermat_p : (y : ℕ) → y ^ p % p ≡ y % p) (fermat_q : (y : ℕ) → y ^ q % q ≡ y % q)
    (inverse : Invertible p q) where
  gen_mk-seek_fields :
      (a b c d e rest rest' : List ℕ)
      → length a ≡ 2
      → length b ≡ secpar / 2 / 8
      → length c ≡ secpar / 2 / 8
      → length d ≡ 2
      → length e ≡ secpar / 8
      → (seed m n o r more u v w more' : List ℕ) (x epoch : ℕ) → length m ≡ 2
      → length n ≡ secpar / 8
      → length o ≡ secpar / 8
      → length r ≡ 8
      → length u ≡ 2 + secpar / 8
      → length v ≡ secpar / 8
      → length w ≡ 8
      → gensquare g (p * q) seed rnd_gen_x secpar ≡ some x
      → epoch < 2 ^ 63
      → (msk : List ℕ) × (mpk : List ℕ) × (s : List ℕ) × (t : List ℕ) × (gen_mk g tries random
            (some (a ++ (b ++ (c ++ rest))))
            (some (d ++ (e ++ rest')))
            key_seed
            secpar
          ≡ some (some msk, some mpk))
        × (seek g (m ++ (n ++ (o ++ (r ++ more)))) epoch msk seed ≡ some s)
        × ((gen_state0 g (u ++ (v ++ (w ++ more'))) mpk seed >>= evolve_times g epoch) ≡ some t)
        × (get_epoch s ≡ get_epoch t)
        × ((keylen idx : ℕ) → get_key g s keylen idx ≡ get_key g t keylen idx)
  gen_mk-seek_fields a b c d e rest rest' la lb lc ld le seed m n o r more u v w more' x epoch lm ln
        lo lr lu lv lw square fits =
      let (p_bytes, q_bytes, n_bytes, made, keys) =
        gen_mk-AreKeys g numbers format size digest secpar valid tries random key_seed p q found_p
          found_q p_fits q_fits a b c d e rest rest' la lb lc ld le in
      let prime_p = key_prime secpar p valid keys.p_search.0 keys.p_search.1 fermat_p in
      let prime_q = key_prime secpar q valid keys.q_search.0 keys.q_search.1 fermat_q in
      let (s, t, sought, ran, epochs, same) =
        seek-gen_state0 g numbers format secpar valid p_bytes q_bytes n_bytes rest rest'
          keys.p-IsBytes keys.q-IsBytes keys.n-IsBytes keys.p_length keys.q_length keys.n_length
          (keys.n_value ∙ sym (ap₂ ◌*◌ keys.p_value keys.q_value))
          (subst IsKeyPrime (sym keys.p_value) prime_p)
          (subst IsKeyPrime (sym keys.q_value) prime_q) (rw (keys.p_value, keys.q_value) inverse)
          seed m n o r more u v w more' x epoch lm ln lo lr lu lv lw
          (ap (λ (k : ℕ). gensquare g k seed rnd_gen_x secpar) keys.n_value ∙ square) fits in
      (_, _, s, t, made, sought, ran, epochs, same)

  -- Where the searches of FSPRG_GenMK find p and q of half the key's size that satisfy
  -- Fermat's theorem, p invertible modulo q, and gensquare makes a residue of the seed:
  -- FSPRG_GenMK, FSPRG_Seek with the private key, and FSPRG_GenState0 with the public key and
  -- k calls of FSPRG_Evolve all succeed in memory of the sizes that FSPRG_mskinbytes and the
  -- like tell, and the two states of epoch k below 2^63 have the same FSPRG_GetEpoch and the
  -- same FSPRG_GetKey for every length and index.
  pub gen_mk-seek :
      (msk_memory mpk_memory sought_memory evolved_memory seed : List ℕ) (x epoch : ℕ)
      → mskinbytes secpar ≡ some (length msk_memory)
      → mpkinbytes secpar ≡ some (length mpk_memory)
      → stateinbytes secpar ≡ some (length sought_memory)
      → stateinbytes secpar ≡ some (length evolved_memory)
      → gensquare g (p * q) seed rnd_gen_x secpar ≡ some x
      → epoch < 2 ^ 63
      → (msk : List ℕ) × (mpk : List ℕ) × (s : List ℕ) × (t : List ℕ) × (gen_mk g tries random
            (some msk_memory)
            (some mpk_memory)
            key_seed
            secpar
          ≡ some (some msk, some mpk))
        × (seek g sought_memory epoch msk seed ≡ some s)
        × ((gen_state0 g evolved_memory mpk seed >>= evolve_times g epoch) ≡ some t)
        × (get_epoch s ≡ get_epoch t)
        × ((keylen idx : ℕ) → get_key g s keylen idx ≡ get_key g t keylen idx)
  unfolding mskinbytes mpkinbytes stateinbytes
  gen_mk-seek msk_memory mpk_memory sought_memory evolved_memory seed x epoch msk_room mpk_room
        sought_room evolved_room square fits =
      let sizes = room_sizes secpar valid in
      let (a, b, c, rest, is_msk, la, lb, lc) =
        cut_three 2 (secpar / 2 / 8) (secpar / 2 / 8) msk_memory
          (omega (arith, asserted_size secpar _ _ valid msk_room, sizes)) in
      let (d, e, rest', is_mpk, ld, le) =
        cut_two 2 (secpar / 8) mpk_memory
          (omega (arith, asserted_size secpar _ _ valid mpk_room, sizes)) in
      let (m, n, o, r, more, is_sought, lm, ln, lo, lr) =
        cut_four 2 (secpar / 8) (secpar / 8) 8 sought_memory
          (omega (arith, asserted_size secpar _ _ valid sought_room, sizes)) in
      let (u, v, w, more', is_evolved, lu, lv, lw) =
        cut_three (2 + secpar / 8) (secpar / 8) 8 evolved_memory
          (omega (arith, asserted_size secpar _ _ valid evolved_room, sizes)) in
      rw (is_msk, is_mpk, is_sought, is_evolved)
        (gen_mk-seek_fields a b c d e rest rest' la lb lc ld le seed m n o r more u v w more' x
          epoch lm ln lo lr lu lv lw square fits)
