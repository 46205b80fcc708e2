-- ===== src/Fsprg/Scheme/Epochs.antt =====
-- The states of all epochs.
use python_systemd.Base.{
  ℕ, ◌+◌, ◌/◌, ◌%◌, ◌^◌, ◌<◌, ◌≡◌, ◌∙◌, ap, true, Option, some, List, ◌++◌, length, arith,
}
use python_systemd.Base.Buffer.{◌>>=◌}
use python_systemd.Fsprg.Gcrypt.{Gcrypt, IsArithmetic, IsFormat, IsBytes, be_value}
use python_systemd.Fsprg.Codec.{isvalid_secpar}
use python_systemd.Fsprg.Random.{gensquare}
use python_systemd.Fsprg.Random.Squares.{gensquare_lem}
use python_systemd.Fsprg.Scheme.{gen_state0, get_epoch, rnd_gen_x}
use python_systemd.Fsprg.Scheme.State.{Holds}
use python_systemd.Fsprg.Scheme.Setup.{mpk_bytes, gen_state0-Holds}
use python_systemd.Fsprg.Scheme.Evolve.{evolve_times, evolve_times-Holds}

module _ (g : Gcrypt) (numbers : IsArithmetic g) (format : IsFormat g) (secpar : ℕ)
    (valid : isvalid_secpar secpar ≡ true) (n_bytes more : List ℕ) (n-IsBytes : IsBytes n_bytes)
    (n_length : length n_bytes ≡ secpar / 8) where
  -- From a public key of a positive modulus n and a seed from which gensquare makes the
  -- residue x, FSPRG_GenState0 and k calls of FSPRG_Evolve, k below 2^64, succeed in memory
  -- that has room for a state: it holds x ^ 2 ^ k mod n, and FSPRG_GetEpoch gives k.
  pub gen_state0-evolve_times :
      (seed a b c rest : List ℕ) (x k : ℕ)
      → length a ≡ 2 + secpar / 8
      → length b ≡ secpar / 8
      → length c ≡ 8
      → gensquare g (be_value n_bytes) seed rnd_gen_x secpar ≡ some x
      → 0 < be_value n_bytes
      → k < 2 ^ 64
      → (state : List ℕ) × ((gen_state0 g
              (a ++ (b ++ (c ++ rest)))
              (mpk_bytes secpar n_bytes more)
              seed
            >>= evolve_times g k)
          ≡ some state)
        × Holds secpar (be_value n_bytes) (x ^ 2 ^ k % be_value n_bytes) (0 + k) state
        × (get_epoch state ≡ some (0 + k))
  gen_state0-evolve_times seed a b c rest x k la lb lc square positive fits =
      let (first, made, holds) =
        gen_state0-Holds g numbers format secpar valid n_bytes more n-IsBytes n_length seed a b c
          rest x la lb lc square positive in
      let (y, _, _, below) =
        gensquare_lem g numbers (be_value n_bytes) seed rnd_gen_x secpar x positive square in
      let (last, ran, ends, told) =
        evolve_times-Holds g numbers format k secpar (be_value n_bytes) x 0 first holds below
          (omega arith) in
      (last, ap (λ (t : Option (List ℕ)). t >>= evolve_times g k) made ∙ ran, ends, told)
