-- ===== src/Fsprg/Scheme/Seek.antt =====
-- FSPRG_Seek makes the state of an epoch from the private key.
use native.Mathlib.Nat.{mod-lt, mul-pos, mul-lt-mul_of_pos_left, mul-lt-mul_of_pos_right}
use python_systemd.Base.{
  ℕ, ◌+◌, ◌*◌, ◌/◌, ◌%◌, ◌^◌, ◌<◌, ◌≡◌, refl, ◌∙◌, ap, subst, true, Option, some, List, [], ◌++◌,
  length, arith,
}
use python_systemd.Base.Mod.{pow_add}
use python_systemd.Base.Buffer.{
  ◌>>=◌, read_at, read_at-field, read_at-second, write_at-field, write_at-second, write_at-third,
}
use python_systemd.Fsprg.Gcrypt.{Gcrypt, IsArithmetic, IsFormat, IsBytes, be_value}
use python_systemd.Fsprg.Codec.{isvalid_secpar, store_secpar, uint64_export, mpi_import}
use python_systemd.Fsprg.Codec.Laws.{
  mpi_export-IsWritten, mpi_import-value, be_value-bounds, read_secpar-store_secpar,
}
use python_systemd.Fsprg.Random.{gensquare}
use python_systemd.Fsprg.Number.{crt_decompose}
use python_systemd.Fsprg.Number.Crt.{Invertible}
use python_systemd.Fsprg.Number.TwoPow.{twopowmodphi_lem}
use python_systemd.Fsprg.Number.Exponents.{IsKeyPrime, crt_compose-power}
use python_systemd.Fsprg.Scheme.{seek, rnd_gen_x}
use python_systemd.Fsprg.Scheme.State.{
  Holds, state_bytes, offsets, store_secpar-length, uint64_export-length,
}

-- The private key: parameter, both primes, and what follows.
abbrev pub msk_bytes : ℕ → List ℕ → List ℕ → List ℕ → List ℕ
msk_bytes secpar p_bytes q_bytes more = store_secpar secpar ++ (p_bytes ++ (q_bytes ++ more))

pub half_offsets :
    (secpar : ℕ)
    → isvalid_secpar secpar ≡ true
    → (0 * (secpar / 2) / 8 ≡ 0)
      × (1 * (secpar / 2) / 8 ≡ secpar / 2 / 8)
      × (secpar / 8 ≡ secpar / 2 / 8 + secpar / 2 / 8)
unfolding isvalid_secpar
half_offsets secpar h = ground arith

pub product_fits : (a b k : ℕ) → a < 2 ^ k → b < 2 ^ k → 0 < b → a * b < 2 ^ (k + k)
product_fits a b k ha hb positive = omega (
  arith,
  pow_add 2 k k,
  mul-lt-mul_of_pos_right ha positive,
  mul-lt-mul_of_pos_left hb (let e : 0 < 2 ^ k = omega arith in e),
)

module _ (g : Gcrypt) (numbers : IsArithmetic g) (format : IsFormat g) (secpar : ℕ)
    (valid : isvalid_secpar secpar ≡ true) (p_bytes q_bytes more : List ℕ)
    (p-IsBytes : IsBytes p_bytes) (q-IsBytes : IsBytes q_bytes)
    (p_length : length p_bytes ≡ secpar / 2 / 8) (q_length : length q_bytes ≡ secpar / 2 / 8) where
  read_p :
      (read_at (2 + 0 * (secpar / 2) / 8) (secpar / 2 / 8) (msk_bytes secpar p_bytes q_bytes more)
        >>= mpi_import g)
      ≡ some (be_value p_bytes)
  read_p =
      ap (λ (t : Option (List ℕ)). t >>= mpi_import g)
        (read_at-field (store_secpar secpar) p_bytes (q_bytes ++ more) _ _
          (omega (arith, half_offsets secpar valid, store_secpar-length secpar))
          (omega (arith, p_length)))
      ∙ mpi_import-value g format p_bytes p-IsBytes

  read_q :
      (read_at (2 + 1 * (secpar / 2) / 8) (secpar / 2 / 8) (msk_bytes secpar p_bytes q_bytes more)
        >>= mpi_import g)
      ≡ some (be_value q_bytes)
  read_q =
      ap (λ (t : Option (List ℕ)). t >>= mpi_import g)
        (read_at-second (store_secpar secpar) p_bytes q_bytes more _ _
          (omega (arith, half_offsets secpar valid, store_secpar-length secpar, p_length))
          (omega (arith, q_length)))
      ∙ mpi_import-value g format q_bytes q-IsBytes

  modulus_fits : 0 < be_value q_bytes → be_value p_bytes * be_value q_bytes < 2 ^ (8 * (secpar / 8))
  modulus_fits positive =
      subst (λ (t : ℕ). be_value p_bytes * be_value q_bytes < 2 ^ t)
        (omega (arith, half_offsets secpar valid))
        (product_fits (be_value p_bytes) (be_value q_bytes) (8 * (secpar / 2 / 8))
          (subst (λ (t : ℕ). be_value p_bytes < 2 ^ (8 * t)) p_length
            (omega (arith, be_value-bounds 0 p_bytes p-IsBytes)))
          (subst (λ (t : ℕ). be_value q_bytes < 2 ^ (8 * t)) q_length
            (omega (arith, be_value-bounds 0 q_bytes q-IsBytes)))
          positive)

  module _ (prime_p : IsKeyPrime (be_value p_bytes)) (prime_q : IsKeyPrime (be_value q_bytes))
      (inverse : Invertible (be_value p_bytes) (be_value q_bytes)) where
    -- FSPRG_Seek succeeds in memory that has room, and gives a well-formed state of the epoch whose
    -- residue is x squared that many times, for the x that gensquare makes.
    pub seek-Holds :
        (seed a b c d rest : List ℕ) (x epoch : ℕ)
        → length a ≡ 2
        → length b ≡ secpar / 8
        → length c ≡ secpar / 8
        → length d ≡ 8
        → gensquare g (be_value p_bytes * be_value q_bytes) seed rnd_gen_x secpar ≡ some x
        → epoch < 2 ^ 63
        → (state : List ℕ) × (seek g
              (a ++ (b ++ (c ++ (d ++ rest))))
              epoch
              (msk_bytes secpar p_bytes q_bytes more)
              seed
            ≡ some state)
          × Holds secpar
              (be_value p_bytes * be_value q_bytes)
              (x ^ 2 ^ epoch % (be_value p_bytes * be_value q_bytes))
              epoch
              state
    unfolding seek crt_decompose
    seek-Holds seed a b c d rest x epoch la lb lc ld square fits =
        let p : ℕ = be_value p_bytes in
        let q : ℕ = be_value q_bytes in
        let residue : ℕ = x ^ 2 ^ epoch % (p * q) in
        let big : 0 < p * q =
          mul-pos (omega (arith, prime_p.above)) (omega (arith, prime_q.above)) in
        let room = modulus_fits (omega (arith, prime_q.above)) in
        let below : residue < p * q = mod-lt (x ^ 2 ^ epoch) big in
        let (n_bytes, n) = mpi_export-IsWritten g format (secpar / 8) (p * q) room in
        let (x_bytes, r) =
          mpi_export-IsWritten g format (secpar / 8) residue (omega (arith, room, below)) in
        let at = store_secpar-length secpar in
        let widths = offsets secpar valid in
        (
          state_bytes secpar n_bytes x_bytes epoch rest,
          rw
              (
                read_secpar-store_secpar secpar (p_bytes ++ (q_bytes ++ more)) valid,
                read_p,
                read_q,
                numbers.mul_law p q,
                square,
                twopowmodphi_lem g numbers epoch p (omega (arith, prime_p.above)) fits,
                twopowmodphi_lem g numbers epoch q (omega (arith, prime_q.above)) fits,
                crt_compose-power g numbers p q prime_p prime_q inverse x epoch,
                write_at-field [] a (store_secpar secpar) (b ++ (c ++ (d ++ rest))) 0 refl
                    (omega (arith, at, la)),
                n.written,
                write_at-field (store_secpar secpar) b n_bytes (c ++ (d ++ rest))
                    (2 + 0 * secpar / 8) (omega (arith, at, widths)) (omega (arith, n.filled, lb)),
                r.written,
                write_at-second (store_secpar secpar) n_bytes c (d ++ rest) x_bytes
                    (2 + 1 * secpar / 8) (omega (arith, at, widths, n.filled))
                    (omega (arith, r.filled, lc)),
              )
              (write_at-third (store_secpar secpar) n_bytes x_bytes d rest (uint64_export epoch)
                (2 + 2 * secpar / 8) (omega (arith, at, widths, n.filled, r.filled))
                (omega (arith, ld, uint64_export-length epoch))),
          record {
            n_bytes = n_bytes;
            x_bytes = x_bytes;
            rest = rest;
            layout = refl;
            valid = valid;
            n_length = n.filled;
            x_length = r.filled;
            n-IsBytes = n.all_bytes;
            x-IsBytes = r.all_bytes;
            n_value = n.value;
            x_value = r.value;
            epoch_fits = omega arith;
          },
        )
