-- ===== src/Fsprg/Scheme/Setup.antt =====
-- FSPRG_GenState0 makes the state of epoch 0.
use mathlib.Core.List.{append_assoc}
use python_systemd.Base.{
  ℕ, ◌+◌, ◌*◌, ◌/◌, ◌^◌, ◌<◌, ◌≡◌, refl, ◌∙◌, ap, sym, subst, true, Option, some, List, [], ◌++◌,
  length, length-append, replicate, arith,
}
use python_systemd.Base.Buffer.{◌>>=◌, read_at, read_at-field, write_at-field, write_at-second}
use python_systemd.Fsprg.Gcrypt.{Gcrypt, IsArithmetic, IsFormat, IsBytes, be_value}
use python_systemd.Fsprg.Codec.{isvalid_secpar, store_secpar, uint64_export, mpi_import}
use python_systemd.Fsprg.Codec.Laws.{
  mpi_export-IsWritten, mpi_import-value, be_value-bounds, read_secpar-store_secpar,
}
use python_systemd.Fsprg.Random.{gensquare}
use python_systemd.Fsprg.Random.Squares.{gensquare_lem}
use python_systemd.Fsprg.Scheme.{gen_state0, rnd_gen_x}
use python_systemd.Fsprg.Scheme.State.{Holds, offsets, store_secpar-length}

epoch_zero : replicate 8 0 ≡ uint64_export 0
unfolding uint64_export
epoch_zero = refl

-- The public key of `n`: parameter, modulus, and what follows.
abbrev pub mpk_bytes : ℕ → List ℕ → List ℕ → List ℕ
mpk_bytes secpar n_bytes more = store_secpar secpar ++ (n_bytes ++ more)

module _ (g : Gcrypt) (numbers : IsArithmetic g) (format : IsFormat g) (secpar : ℕ)
    (valid : isvalid_secpar secpar ≡ true) (n_bytes more : List ℕ) (n-IsBytes : IsBytes n_bytes)
    (n_length : length n_bytes ≡ secpar / 8) where
  read_n :
      (read_at 2 (secpar / 8) (mpk_bytes secpar n_bytes more) >>= mpi_import g)
      ≡ some (be_value n_bytes)
  read_n =
      ap (λ (t : Option (List ℕ)). t >>= mpi_import g)
        (read_at-field (store_secpar secpar) n_bytes more _ _
          (omega (arith, store_secpar-length secpar)) (omega (arith, n_length)))
      ∙ mpi_import-value g format n_bytes n-IsBytes

  read_header :
      read_at 0 (2 + secpar / 8) (mpk_bytes secpar n_bytes more)
      ≡ some (store_secpar secpar ++ n_bytes)
  read_header =
      ap (read_at 0 (2 + secpar / 8)) (sym (append_assoc (store_secpar secpar) n_bytes more))
      ∙ read_at-field [] (store_secpar secpar ++ n_bytes) more _ _ refl (
          omega (
            arith,
            length-append (store_secpar secpar) n_bytes,
            store_secpar-length secpar,
            n_length,
          ))

  -- From a public key of a positive modulus and a seed from which gensquare makes the residue
  -- x, FSPRG_GenState0 fills memory that has room for a state with a well-formed state of x at
  -- epoch 0, whatever the memory holds, and leaves what lies behind.
  pub gen_state0-Holds :
      (seed a b c rest : List ℕ) (x : ℕ)
      → length a ≡ 2 + secpar / 8
      → length b ≡ secpar / 8
      → length c ≡ 8
      → gensquare g (be_value n_bytes) seed rnd_gen_x secpar ≡ some x
      → 0 < be_value n_bytes
      → (state : List ℕ) × (gen_state0 g
            (a ++ (b ++ (c ++ rest)))
            (mpk_bytes secpar n_bytes more)
            seed
          ≡ some state)
        × Holds secpar (be_value n_bytes) x 0 state
  unfolding gen_state0
  gen_state0-Holds seed a b c rest x la lb lc square positive =
      let (y, _, _, below) =
        gensquare_lem g numbers (be_value n_bytes) seed rnd_gen_x secpar x positive square in
      let fits : x < 2 ^ (8 * (secpar / 8)) =
        subst (λ (t : ℕ). x < 2 ^ (8 * t)) n_length
          (omega (arith, be_value-bounds 0 n_bytes n-IsBytes)) in
      let (x_bytes, e) = mpi_export-IsWritten g format (secpar / 8) x fits in
      let header : List ℕ = store_secpar secpar ++ n_bytes in
      let header_length : length header ≡ 2 + secpar / 8 = omega (
        arith,
        length-append (store_secpar secpar) n_bytes,
        store_secpar-length secpar,
        n_length,
      ) in
      (
        header ++ (x_bytes ++ (replicate 8 0 ++ rest)),
        rw
            (
              read_secpar-store_secpar secpar (n_bytes ++ more) valid,
              read_n,
              square,
              read_header,
              write_at-field [] a header (b ++ (c ++ rest)) 0 refl (omega arith),
              e.written,
              write_at-field header b x_bytes (c ++ rest) (2 + 1 * secpar / 8)
                  (omega (arith, offsets secpar valid)) (omega (arith, e.filled)),
            )
            (write_at-second header x_bytes c rest (replicate 8 0) (2 + 2 * secpar / 8)
              (omega (arith, offsets secpar valid, e.filled)) (sym lc)),
        record {
          n_bytes = n_bytes;
          x_bytes = x_bytes;
          rest = rest;
          layout =
              append_assoc (store_secpar secpar) n_bytes (x_bytes ++ (replicate 8 0 ++ rest))
              ∙ ap (λ (t : List ℕ). store_secpar secpar ++ (n_bytes ++ (x_bytes ++ (t ++ rest))))
                  epoch_zero;
          valid = valid;
          n_length = n_length;
          x_length = e.filled;
          n-IsBytes = n-IsBytes;
          x-IsBytes = e.all_bytes;
          n_value = refl;
          x_value = e.value;
          epoch_fits = omega arith;
        },
      )
