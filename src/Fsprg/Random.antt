-- ===== src/Fsprg/Random.antt =====
-- Pseudorandom bytes, primes and squares of systemd/fsprg.c.
pub mod Bytes
pub mod Masks
pub mod Primes
pub mod Found
pub mod Squares
use Prim.Native.Nat.{bit_and, bit_or}
use python_systemd.Base.{
  ℕ, zero, suc, ◌+◌, ◌-◌, ◌/◌, ◌%◌, Bool, Option, none, some, List, [], ◌∷◌, ◌++◌, length,
  get_elem?, set, ltb, ◌==◌, if◌then◌else◌,
}
use python_systemd.Base.Word.{u32, ◌>>>◌}
use python_systemd.Base.Buffer.{◌>>=◌, ◌>>◌, assert, read_at}
use python_systemd.Fsprg.Gcrypt.{Gcrypt}
use python_systemd.Fsprg.Codec.{mpi_import}

-- The four `gcry_md_putc` of a counter.
unfoldable pub putc_word : ℕ → List ℕ
putc_word x =
    bit_and (x >>> 24) 0xff
    ∷ bit_and (x >>> 16) 0xff
    ∷ bit_and (x >>> 8) 0xff
    ∷ bit_and (x >>> 0) 0xff
    ∷ []

-- buf[i] = f(buf[i])
unfoldable pub update_at : ℕ → (ℕ → ℕ) → List ℕ → Option (List ℕ)
update_at i f buf = get_elem? buf i >>= λ b. some (set buf i (f b))

module _ (g : Gcrypt) where
  -- The loop of `det_randomize`: `hd` is what the copied digest has taken in. `none` without fuel.
  pub det_blocks : ℕ → List ℕ → ℕ → ℕ → Option (List ℕ)
  det_blocks zero hd ctr buflen = none
  det_blocks (suc fuel) hd ctr buflen =
      let digest = g.md_hash (hd ++ putc_word ctr) in
      let cpylen = if ltb buflen g.md_get_algo_dlen then buflen else g.md_get_algo_dlen in
      let more = read_at 0 cpylen digest >>= λ block.
      det_blocks fuel hd (u32 (ctr + 1)) (buflen - cpylen) >>= λ bytes. some (block ++ bytes) in
      if buflen == 0 then some [] else more

  unfoldable pub det_randomize : ℕ → List ℕ → ℕ → Option (List ℕ)
  unfolding det_blocks
  det_randomize buflen seed idx = det_blocks (suc buflen) (seed ++ putc_word idx) 0 buflen

  -- `while (gcry_prime_check(p, 0)) gcry_mpi_add_ui(p, p, 4);` for at most `tries` candidates.
  unfoldable pub next_prime : ℕ → ℕ → Option ℕ
  next_prime zero p = none
  next_prime (suc tries) p =
      let more = next_prime tries (g.mpi_add p 4) in if g.prime_check p then some p else more

  unfoldable pub genprime3mod4 : ℕ → ℕ → List ℕ → ℕ → Option ℕ
  unfolding update_at
  genprime3mod4 tries bits seed idx = do
    let buflen = bits / 8
    assert (bits % 8 == 0)
    assert (ltb 0 buflen)
    buf ← det_randomize buflen seed idx
    buf ← update_at 0 (λ b. bit_or b 0xc0) buf
    buf ← update_at (buflen - 1) (λ b. bit_or b 0x03) buf
    p ← mpi_import g buf
    next_prime tries p

  unfoldable pub gensquare : ℕ → List ℕ → ℕ → ℕ → Option ℕ
  unfolding update_at
  gensquare n seed idx secpar = do
    buf ← det_randomize (secpar / 8) seed idx
    buf ← update_at 0 (λ b. bit_and b 0x7f) buf
    x ← mpi_import g buf
    assert (ltb x n)
    some (g.mpi_mulm x x n)
