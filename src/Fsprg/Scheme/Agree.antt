-- ===== src/Fsprg/Scheme/Agree.antt =====
-- Seeking and evolving make states of the same keys.
use mathlib.Core.List.{append_assoc}
use native.Mathlib.Nat.{mul-pos}
use python_systemd.Base.{
  ℕ, ◌+◌, ◌*◌, ◌/◌, ◌%◌, ◌^◌, ◌<◌, ◌≡◌, refl, ◌∙◌, ap, ap₂, sym, subst, true, some, List, [], ◌∷◌,
  ◌++◌, length, length-append, arith,
}
use python_systemd.Base.Buffer.{◌>>=◌, read_at, read_at-field}
use python_systemd.Fsprg.Gcrypt.{Gcrypt, IsArithmetic, IsFormat, IsBytes, be_value, be_value_from}
use python_systemd.Fsprg.Codec.{isvalid_secpar, store_secpar, uint64_export}
use python_systemd.Fsprg.Random.{gensquare, det_randomize}
use python_systemd.Fsprg.Number.Crt.{Invertible}
use python_systemd.Fsprg.Number.Exponents.{IsKeyPrime}
use python_systemd.Fsprg.Scheme.{seek, gen_state0, get_key, get_epoch, rnd_gen_x}
use python_systemd.Fsprg.Scheme.State.{
  Holds, state_bytes, offsets, store_secpar-length, uint64_export-length, holds-secpar,
  holds-get_epoch,
}
use python_systemd.Fsprg.Scheme.Setup.{mpk_bytes}
use python_systemd.Fsprg.Scheme.Evolve.{evolve_times}
use python_systemd.Fsprg.Scheme.Epochs.{gen_state0-evolve_times}
use python_systemd.Fsprg.Scheme.Seek.{msk_bytes, seek-Holds}

-- As many bytes of the same value are the same bytes.
be_value-injective :
    (acc acc' : ℕ) (xs ys : List ℕ)
    → IsBytes xs
    → IsBytes ys
    → length xs ≡ length ys
    → be_value_from acc xs ≡ be_value_from acc' ys
    → (acc ≡ acc') × (xs ≡ ys)
be_value-injective acc acc' [] [] hx hy len e = (e, refl)
be_value-injective acc acc' [] (y ∷ ys) hx hy len e = absurd (omega arith)
be_value-injective acc acc' (x ∷ xs) [] hx hy len e = absurd (omega arith)
be_value-injective acc acc' (x ∷ xs) (y ∷ ys) hx hy len e =
    let (heads, tails) =
      be_value-injective (acc * 256 + x) (acc' * 256 + y) xs ys hx.1 hy.1 (omega arith) e in
    (omega (arith, heads, hx.0, hy.0), ap₂ ◌∷◌ (omega (arith, heads, hx.0, hy.0)) tails)

-- What FSPRG_GetKey reads as its seed.
abbrev key_seed : List ℕ → List ℕ → ℕ → List ℕ
key_seed n_bytes x_bytes epoch = n_bytes ++ (x_bytes ++ uint64_export epoch)

module _ (g : Gcrypt) (secpar n x epoch : ℕ) where
  get_key-key_seed :
      (state : List ℕ) (holds : Holds secpar n x epoch state) (keylen idx : ℕ)
      → get_key g state keylen idx
        ≡ det_randomize g keylen (key_seed holds.n_bytes holds.x_bytes epoch) idx
  unfolding get_key
  get_key-key_seed state holds keylen idx =
      rw
        (
          holds-secpar secpar n x epoch state holds,
          ap (read_at 2 (2 * secpar / 8 + 8)) (holds.layout ∙ grouped),
          read,
        )
        refl
    where
      grouped :
          state_bytes secpar holds.n_bytes holds.x_bytes epoch holds.rest
          ≡ store_secpar secpar ++ (key_seed holds.n_bytes holds.x_bytes epoch ++ holds.rest)
      grouped =
          ap (λ (t : List ℕ). store_secpar secpar ++ t)
            (ap (λ (t : List ℕ). holds.n_bytes ++ t)
                (sym (append_assoc holds.x_bytes (uint64_export epoch) holds.rest))
              ∙ sym (append_assoc holds.n_bytes (holds.x_bytes ++ uint64_export epoch) holds.rest))

      read :
          read_at 2
            (2 * secpar / 8 + 8)
            (store_secpar secpar ++ (key_seed holds.n_bytes holds.x_bytes epoch ++ holds.rest))
          ≡ some (key_seed holds.n_bytes holds.x_bytes epoch)
      read =
          read_at-field (store_secpar secpar) (key_seed holds.n_bytes holds.x_bytes epoch)
            holds.rest _ _ (omega (arith, store_secpar-length secpar))
            (omega (
              arith,
              offsets secpar holds.valid,
              holds.n_length,
              holds.x_length,
              uint64_export-length epoch,
              length-append holds.n_bytes (holds.x_bytes ++ uint64_export epoch),
              length-append holds.x_bytes (uint64_export epoch),
            ))

  -- States that hold the same numbers give the same keys.
  pub same-get_key :
      (s t : List ℕ) (hs : Holds secpar n x epoch s) (ht : Holds secpar n x epoch t)
      (keylen idx : ℕ)
      → get_key g s keylen idx ≡ get_key g t keylen idx
  same-get_key s t hs ht keylen idx =
      get_key-key_seed s hs keylen idx
      ∙ ap₂ (λ (u v : List ℕ). det_randomize g keylen (key_seed u v epoch) idx)
          (be_value-injective 0 0 hs.n_bytes ht.n_bytes hs.n-IsBytes ht.n-IsBytes
            (hs.n_length ∙ sym ht.n_length) (hs.n_value ∙ sym ht.n_value)).1
          (be_value-injective 0 0 hs.x_bytes ht.x_bytes hs.x-IsBytes ht.x-IsBytes
            (hs.x_length ∙ sym ht.x_length) (hs.x_value ∙ sym ht.x_value)).1
      ∙ sym (get_key-key_seed t ht keylen idx)

module _ (g : Gcrypt) (numbers : IsArithmetic g) (format : IsFormat g) (secpar : ℕ)
    (valid : isvalid_secpar secpar ≡ true) (p_bytes q_bytes n_bytes more more' : List ℕ)
    (p-IsBytes : IsBytes p_bytes) (q-IsBytes : IsBytes q_bytes) (n-IsBytes : IsBytes n_bytes)
    (p_length : length p_bytes ≡ secpar / 2 / 8) (q_length : length q_bytes ≡ secpar / 2 / 8)
    (n_length : length n_bytes ≡ secpar / 8)
    (product : be_value n_bytes ≡ be_value p_bytes * be_value q_bytes)
    (prime_p : IsKeyPrime (be_value p_bytes)) (prime_q : IsKeyPrime (be_value q_bytes))
    (inverse : Invertible (be_value p_bytes) (be_value q_bytes)) where
  -- For keys in memory whose primes exceed 3, are 3 modulo 4, satisfy Fermat's theorem and are
  -- invertible one modulo the other, FSPRG_Seek to an epoch below 2^63 gives a state of the
  -- same epoch and the same keys as FSPRG_GenState0 and as many calls of FSPRG_Evolve, in any
  -- memory that has room.
  pub seek-gen_state0 :
      (seed a b c d rest e f h rest' : List ℕ) (x epoch : ℕ)
      → length a ≡ 2
      → length b ≡ secpar / 8
      → length c ≡ secpar / 8
      → length d ≡ 8
      → length e ≡ 2 + secpar / 8
      → length f ≡ secpar / 8
      → length h ≡ 8
      → gensquare g (be_value n_bytes) seed rnd_gen_x secpar ≡ some x
      → epoch < 2 ^ 63
      → (s : List ℕ) × (t : List ℕ) × (seek g
            (a ++ (b ++ (c ++ (d ++ rest))))
            epoch
            (msk_bytes secpar p_bytes q_bytes more)
            seed
          ≡ some s)
        × ((gen_state0 g (e ++ (f ++ (h ++ rest'))) (mpk_bytes secpar n_bytes more') seed
              >>= evolve_times g epoch)
            ≡ some t)
        × (get_epoch s ≡ get_epoch t)
        × ((keylen idx : ℕ) → get_key g s keylen idx ≡ get_key g t keylen idx)
  seek-gen_state0 seed a b c d rest e f h rest' x epoch la lb lc ld le lf lh square fits =
      let n : ℕ = be_value n_bytes in
      let (s, sought, there) =
        seek-Holds g numbers format secpar valid p_bytes q_bytes more p-IsBytes q-IsBytes p_length
          q_length prime_p prime_q inverse seed a b c d rest x epoch la lb lc ld
          (ap (λ (m : ℕ). gensquare g m seed rnd_gen_x secpar) (sym product) ∙ square) fits in
      let there : Holds secpar n (x ^ 2 ^ epoch % n) epoch s =
        subst (λ (m : ℕ). Holds secpar m (x ^ 2 ^ epoch % m) epoch s) (sym product) there in
      let (t, ran, here, told) =
        gen_state0-evolve_times g numbers format secpar valid n_bytes more' n-IsBytes n_length seed
          e f h rest' x epoch le lf lh square (subst (λ (m : ℕ). 0 < m) (sym product) positive)
          (omega arith) in
      let here : Holds secpar n (x ^ 2 ^ epoch % n) epoch t =
        subst (λ (k : ℕ). Holds secpar n (x ^ 2 ^ epoch % n) k t) (omega arith) here in
      (
        s,
        t,
        sought,
        ran,
        holds-get_epoch secpar n _ epoch s there ∙ sym (holds-get_epoch secpar n _ epoch t here),
        λ keylen idx. same-get_key g secpar n (x ^ 2 ^ epoch % n) epoch s t there here keylen idx,
      )
    where
      positive : 0 < be_value p_bytes * be_value q_bytes
      positive = mul-pos (omega (arith, prime_p.above)) (omega (arith, prime_q.above))
