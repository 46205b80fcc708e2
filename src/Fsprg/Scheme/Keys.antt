-- ===== src/Fsprg/Scheme/Keys.antt =====
-- FSPRG_GenMK makes a key pair.
use native.Mathlib.Nat.{mul-le-mul}
use python_systemd.Base.{
  ℕ, ◌+◌, ◌-◌, ◌*◌, ◌/◌, ◌%◌, ◌^◌, ◌≤◌, ◌<◌, ◌≡◌, refl, ◌∙◌, ap, sym, subst, true, Option, some,
  List, [], ◌++◌, length, ==_iff, arith,
}
use python_systemd.Base.Mod.{pow_add}
use python_systemd.Base.Word.{u16}
use python_systemd.Base.Buffer.{write_at-field, write_at-second}
use python_systemd.Fsprg.Gcrypt.{
  Gcrypt, IsArithmetic, IsFormat, IsDigest, IsSize, IsBytes, be_value,
}
use python_systemd.Fsprg.Codec.{isvalid_secpar, store_secpar}
use python_systemd.Fsprg.Codec.Laws.{mpi_export-IsWritten}
use python_systemd.Fsprg.Random.{genprime3mod4}
use python_systemd.Fsprg.Random.Primes.{IsPrime}
use python_systemd.Fsprg.Random.Found.{genprime3mod4-returns}
use python_systemd.Fsprg.Scheme.{gen_mk, seed_or, rnd_gen_p, rnd_gen_q}
use python_systemd.Fsprg.Scheme.State.{store_secpar-length}
use python_systemd.Fsprg.Scheme.Setup.{mpk_bytes}
use python_systemd.Fsprg.Scheme.Seek.{msk_bytes, half_offsets, product_fits}

pub widths :
    (secpar : ℕ)
    → isvalid_secpar secpar ≡ true
    → (secpar / 2 % 8 ≡ 0)
      × (0 < secpar / 2)
      × (8 ≤ secpar / 2)
      × (secpar / 2 + secpar / 2 ≡ secpar)
      × (8 * (secpar / 2 / 8) ≡ secpar / 2)
      × (8 * (secpar / 8) ≡ secpar)
      × (u16 secpar ≡ secpar)
unfolding isvalid_secpar
widths secpar h = ground arith

-- Two numbers with their two upper bits set have a product of full size.
product-full :
    (h a b : ℕ) → 2 ≤ h → 3 * 2 ^ (h - 2) ≤ a → 3 * 2 ^ (h - 2) ≤ b → 2 ^ (h + h - 1) ≤ a * b
product-full h a b big ha hb =
    let k : ℕ = h - 2 in
    let size : 2 ^ (h + h - 1) ≡ 8 * (2 ^ k * 2 ^ k) =
      ap (λ (t : ℕ). 2 ^ t) (let e : h + h - 1 ≡ 3 + (k + k) = omega arith in e)
      ∙ pow_add 2 3 (k + k)
      ∙ ap (λ (t : ℕ). 8 * t) (pow_add 2 k k) in
    omega (arith, size, mul-le-mul ha hb)

-- A private key of p and q, a public key of their product, and both are primes as the search leaves them.
pub record AreKeys (g : Gcrypt) (secpar p q : ℕ) (p_bytes q_bytes n_bytes : List ℕ) : Type 0 where
  pub p_length : length p_bytes ≡ secpar / 2 / 8
  pub q_length : length q_bytes ≡ secpar / 2 / 8
  pub n_length : length n_bytes ≡ secpar / 8
  pub p-IsBytes : IsBytes p_bytes
  pub q-IsBytes : IsBytes q_bytes
  pub n-IsBytes : IsBytes n_bytes
  pub p_value : be_value p_bytes ≡ p
  pub q_value : be_value q_bytes ≡ q
  pub n_value : be_value n_bytes ≡ p * q
  pub p_search : (p % 4 ≡ 3) × (3 * 2 ^ (secpar / 2 - 2) ≤ p) × IsPrime g p
  pub q_search : (q % 4 ≡ 3) × (3 * 2 ^ (secpar / 2 - 2) ≤ q) × IsPrime g q

module _ (g : Gcrypt) (numbers : IsArithmetic g) (format : IsFormat g) (size : IsSize g)
    (digest : IsDigest g) (secpar : ℕ) (valid : isvalid_secpar secpar ≡ true) (tries : ℕ)
    (random : List ℕ) (seed : Option (List ℕ)) (p q : ℕ)
    (found_p : genprime3mod4 g tries (secpar / 2) (seed_or random seed) rnd_gen_p ≡ some p)
    (found_q : genprime3mod4 g tries (secpar / 2) (seed_or random seed) rnd_gen_q ≡ some q)
    (p_fits : p < 2 ^ (secpar / 2)) (q_fits : q < 2 ^ (secpar / 2)) where
  searched :
      ((p % 4 ≡ 3) × (3 * 2 ^ (secpar / 2 - 2) ≤ p) × IsPrime g p)
      × ((q % 4 ≡ 3) × (3 * 2 ^ (secpar / 2 - 2) ≤ q) × IsPrime g q)
  searched =
      let (whole, positive, _, _, _, _, _) = widths secpar valid in
      (
        genprime3mod4-returns g numbers format digest (secpar / 2) (seed_or random seed) rnd_gen_p
            tries p whole positive found_p,
        genprime3mod4-returns g numbers format digest (secpar / 2) (seed_or random seed) rnd_gen_q
            tries q whole positive found_q,
      )

  product_size : (p * q < 2 ^ secpar) × (g.mpi_get_nbits (p * q) ≡ secpar)
  product_size =
      let (_, _, big, twice, _, _, _) = widths secpar valid in
      let below : p * q < 2 ^ secpar =
        subst (λ (t : ℕ). p * q < 2 ^ t) twice
          (product_fits p q (secpar / 2) p_fits q_fits (omega (arith, searched.1.0))) in
      let above =
        size.nbits_least (p * q) (secpar / 2 + secpar / 2 - 1)
          (product-full (secpar / 2) p q (omega (arith, big)) searched.0.1 searched.1.1) in
      (below, omega (arith, above, twice, big, format.nbits_law (p * q) secpar below))

  -- When the searches find p and q of half the size, FSPRG_GenMK succeeds in memory that has room, and
  -- the keys that it writes hold p, q and their product.
  pub gen_mk-AreKeys :
      (a b c d e rest rest' : List ℕ)
      → length a ≡ 2
      → length b ≡ secpar / 2 / 8
      → length c ≡ secpar / 2 / 8
      → length d ≡ 2
      → length e ≡ secpar / 8
      → (p_bytes : List ℕ) × (q_bytes : List ℕ) × (n_bytes : List ℕ) × (gen_mk g tries random
            (some (a ++ (b ++ (c ++ rest))))
            (some (d ++ (e ++ rest')))
            seed
            secpar
          ≡ some
              (some (msk_bytes secpar p_bytes q_bytes rest), some (mpk_bytes secpar n_bytes rest')))
        × AreKeys g secpar p q p_bytes q_bytes n_bytes
  unfolding gen_mk
  gen_mk-AreKeys a b c d e rest rest' la lb lc ld le =
      let (_, _, _, _, half, whole, fits16) = widths secpar valid in
      let at = store_secpar-length secpar in
      let places = half_offsets secpar valid in
      let (p_bytes, wp) =
        mpi_export-IsWritten g format (secpar / 2 / 8) p
          (subst (λ (t : ℕ). p < 2 ^ t) (sym half) p_fits) in
      let (q_bytes, wq) =
        mpi_export-IsWritten g format (secpar / 2 / 8) q
          (subst (λ (t : ℕ). q < 2 ^ t) (sym half) q_fits) in
      let (n_bytes, wn) =
        mpi_export-IsWritten g format (secpar / 8) (p * q)
          (subst (λ (t : ℕ). p * q < 2 ^ t) (sym whole) product_size.0) in
      (
        p_bytes,
        q_bytes,
        n_bytes,
        rw
            (
              valid,
              fits16,
              found_p,
              found_q,
              write_at-field [] a (store_secpar secpar) (b ++ (c ++ rest)) 0 refl
                  (omega (arith, at, la)),
              wp.written,
              write_at-field (store_secpar secpar) b p_bytes (c ++ rest) (2 + 0 * (secpar / 2) / 8)
                  (omega (arith, at, places)) (omega (arith, wp.filled, lb)),
              wq.written,
              write_at-second (store_secpar secpar) p_bytes c rest q_bytes
                  (2 + 1 * (secpar / 2) / 8) (omega (arith, at, places, wp.filled))
                  (omega (arith, wq.filled, lc)),
              numbers.mul_law p q,
              (==_iff (g.mpi_get_nbits (p * q)) secpar).1 product_size.1,
              write_at-field [] d (store_secpar secpar) (e ++ rest') 0 refl (omega (arith, at, ld)),
              wn.written,
              write_at-field (store_secpar secpar) e n_bytes rest' 2 (omega (arith, at))
                  (omega (arith, wn.filled, le)),
            )
            refl,
        record {
          p_length = wp.filled;
          q_length = wq.filled;
          n_length = wn.filled;
          p-IsBytes = wp.all_bytes;
          q-IsBytes = wq.all_bytes;
          n-IsBytes = wn.all_bytes;
          p_value = wp.value;
          q_value = wq.value;
          n_value = wn.value;
          p_search = searched.0;
          q_search = searched.1;
        },
      )
