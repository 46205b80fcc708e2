-- ===== src/Fsprg/Number.antt =====
-- Exponents and residues of systemd/fsprg.c.
pub mod TwoPow
pub mod Crt
pub mod Exponents
use Prim.Native.Nat.{bit_and}
use python_systemd.Base.{ℕ, zero, suc, ◌+◌, ◌^◌, Option, none, some, ltb, leb, ◌==◌, if◌then◌else◌}
use python_systemd.Base.Word.{u64, ◌<<<◌}
use python_systemd.Base.Buffer.{◌>>=◌}
use python_systemd.Fsprg.Gcrypt.{Gcrypt}

-- `for (n = 0; (1ULL << n) <= m; n++)`, with `left` shift counts to go below 64. C leaves a shift
-- by 64 undefined: `none`.
pub count_bits : ℕ → ℕ → ℕ → Option ℕ
count_bits zero n m = none
count_bits (suc left) n m =
    let more = count_bits left (n + 1) m in if leb (1 <<< n) m then more else some n

module _ (g : Gcrypt) where
  -- One round of the loop, after `n--`.
  pub square_and_multiply : ℕ → ℕ → ℕ → ℕ → ℕ
  square_and_multiply phi m n r =
      let square = g.mpi_mulm r r phi in
      let twice = g.mpi_add square square in
      if bit_and m (u64 (1 <<< n)) == 0
      then square
      else (if leb phi twice then g.mpi_sub twice phi else twice)

  pub power_loop : ℕ → ℕ → ℕ → ℕ → ℕ
  power_loop phi m zero r = r
  power_loop phi m (suc n) r = power_loop phi m n (square_and_multiply phi m n r)

  unfoldable pub twopowmodphi : ℕ → ℕ → Option ℕ
  twopowmodphi m p =
      let phi = g.mpi_sub p 1 in count_bits 64 0 m >>= λ n. some (power_loop phi m n 1)

  unfoldable pub crt_decompose : ℕ → ℕ → ℕ → ℕ × ℕ
  crt_decompose x p q = (g.mpi_mod x p, g.mpi_mod x q)

  unfoldable pub crt_compose : ℕ → ℕ → ℕ → ℕ → ℕ
  crt_compose xp xq p q =
      let a = g.mpi_subm xq xp q in
      let u = g.mpi_invm p q in let a = g.mpi_mulm a u q in let x = g.mpi_mul p a in g.mpi_add x xp
