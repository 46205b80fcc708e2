-- ===== src/Fsprg/Scheme.antt =====
-- The functions FSPRG_* of systemd/fsprg.c on the memory of keys and states.
-- `initialize_libgcrypt` sets libgcrypt up and has no other effect, so it has no counterpart.
pub mod State
pub mod Evolve
pub mod Setup
pub mod Epochs
pub mod Seek
pub mod Agree
pub mod Keys
pub mod Sealing
use python_systemd.Base.{
  ℕ, ◌+◌, ◌*◌, ◌/◌, Bool, true, false, Option, none, some, List, [], ◌∷◌, ◌++◌, length, replicate,
  ◌==◌, ltb,
}
use python_systemd.Base.Word.{u16, u64}
use python_systemd.Base.Buffer.{◌>>=◌, ◌>>◌, assert, read_at, write_at}
use python_systemd.Fsprg.Gcrypt.{Gcrypt}
use python_systemd.Fsprg.Codec.{
  isvalid_secpar, store_secpar, read_secpar, uint64_export, uint64_import, mpi_export, mpi_import,
}
use python_systemd.Fsprg.Random.{det_randomize, genprime3mod4, gensquare}
use python_systemd.Fsprg.Number.{twopowmodphi, crt_decompose, crt_compose}

-- RND_GEN_P, RND_GEN_Q, RND_GEN_X, FSPRG_RECOMMENDED_SECPAR, FSPRG_RECOMMENDED_SEEDLEN
abbrev pub rnd_gen_p : ℕ
rnd_gen_p = 1

abbrev pub rnd_gen_q : ℕ
rnd_gen_q = 2

abbrev pub rnd_gen_x : ℕ
rnd_gen_x = 3

abbrev pub recommended_secpar : ℕ
recommended_secpar = 1536

abbrev pub recommended_seedlen : ℕ
recommended_seedlen = 96 / 8

unfoldable pub mskinbytes : ℕ → Option ℕ
mskinbytes secpar = assert (isvalid_secpar secpar) >> some (2 + 2 * (secpar / 2) / 8)

unfoldable pub mpkinbytes : ℕ → Option ℕ
mpkinbytes secpar = assert (isvalid_secpar secpar) >> some (2 + secpar / 8)

unfoldable pub stateinbytes : ℕ → Option ℕ
stateinbytes secpar = assert (isvalid_secpar secpar) >> some (2 + 2 * secpar / 8 + 8)

-- A pointer argument that may be NULL.
abbrev pub on_memory : Option (List ℕ) → (List ℕ → Option (List ℕ)) → Option (Option (List ℕ))
on_memory none f = some none
on_memory (some buf) f = f buf >>= λ out. some (some out)

-- `iseed` where there is no seed.
abbrev pub seed_or : List ℕ → Option (List ℕ) → List ℕ
seed_or random none = random
seed_or random (some seed) = seed

module _ (g : Gcrypt) where
  -- `random` is what `gcry_randomize` gives where there is no seed; `tries` bounds each prime search.
  unfoldable pub gen_mk :
      ℕ
      → List ℕ
      → Option (List ℕ)
      → Option (List ℕ)
      → Option (List ℕ)
      → ℕ
      → Option (Option (List ℕ) × Option (List ℕ))
  gen_mk tries random msk mpk seed secpar = do
    assert (isvalid_secpar secpar)
    let secpar = u16 secpar
    let seed = seed_or random seed
    p ← genprime3mod4 g tries (secpar / 2) seed rnd_gen_p
    q ← genprime3mod4 g tries (secpar / 2) seed rnd_gen_q
    msk ← on_memory msk λ buf. do
      buf ← write_at 0 (store_secpar secpar) buf
      p_bytes ← mpi_export g (secpar / 2 / 8) p
      buf ← write_at (2 + 0 * (secpar / 2) / 8) p_bytes buf
      q_bytes ← mpi_export g (secpar / 2 / 8) q
      write_at (2 + 1 * (secpar / 2) / 8) q_bytes buf
    mpk ← on_memory mpk λ buf. do
      let n = g.mpi_mul p q
      assert (g.mpi_get_nbits n == secpar)
      buf ← write_at 0 (store_secpar secpar) buf
      n_bytes ← mpi_export g (secpar / 8) n
      write_at 2 n_bytes buf
    some (msk, mpk)

  unfoldable pub gen_state0 : List ℕ → List ℕ → List ℕ → Option (List ℕ)
  gen_state0 state mpk seed = do
    secpar ← read_secpar mpk
    n ← read_at 2 (secpar / 8) mpk >>= mpi_import g
    x ← gensquare g n seed rnd_gen_x secpar
    header ← read_at 0 (2 + secpar / 8) mpk
    state ← write_at 0 header state
    x_bytes ← mpi_export g (secpar / 8) x
    state ← write_at (2 + 1 * secpar / 8) x_bytes state
    write_at (2 + 2 * secpar / 8) (replicate 8 0) state

  unfoldable pub evolve : List ℕ → Option (List ℕ)
  evolve state = do
    secpar ← read_secpar state
    n ← read_at (2 + 0 * secpar / 8) (secpar / 8) state >>= mpi_import g
    x ← read_at (2 + 1 * secpar / 8) (secpar / 8) state >>= mpi_import g
    epoch ← read_at (2 + 2 * secpar / 8) 8 state >>= uint64_import
    let x = g.mpi_mulm x x n
    let epoch = u64 (epoch + 1)
    x_bytes ← mpi_export g (secpar / 8) x
    state ← write_at (2 + 1 * secpar / 8) x_bytes state
    write_at (2 + 2 * secpar / 8) (uint64_export epoch) state

  unfoldable pub seek : List ℕ → ℕ → List ℕ → List ℕ → Option (List ℕ)
  seek state epoch msk seed = do
    secpar ← read_secpar msk
    p ← read_at (2 + 0 * (secpar / 2) / 8) (secpar / 2 / 8) msk >>= mpi_import g
    q ← read_at (2 + 1 * (secpar / 2) / 8) (secpar / 2 / 8) msk >>= mpi_import g
    let n = g.mpi_mul p q
    x ← gensquare g n seed rnd_gen_x secpar
    let xp = (crt_decompose g x p q).0
    let xq = (crt_decompose g x p q).1
    kp ← twopowmodphi g epoch p
    kq ← twopowmodphi g epoch q
    let xp = g.mpi_powm xp kp p
    let xq = g.mpi_powm xq kq q
    let xm = crt_compose g xp xq p q
    state ← write_at 0 (store_secpar secpar) state
    n_bytes ← mpi_export g (secpar / 8) n
    state ← write_at (2 + 0 * secpar / 8) n_bytes state
    xm_bytes ← mpi_export g (secpar / 8) xm
    state ← write_at (2 + 1 * secpar / 8) xm_bytes state
    write_at (2 + 2 * secpar / 8) (uint64_export epoch) state

  unfoldable pub get_key : List ℕ → ℕ → ℕ → Option (List ℕ)
  get_key state keylen idx = do
    secpar ← read_secpar state
    seed ← read_at 2 (2 * secpar / 8 + 8) state
    det_randomize g keylen seed idx

unfoldable pub get_epoch : List ℕ → Option ℕ
get_epoch state = do
  secpar ← read_secpar state
  bytes ← read_at (2 + 2 * secpar / 8) 8 state
  uint64_import bytes
