-- ===== src/Fsprg/Gcrypt.antt =====
-- What systemd/fsprg.c uses of libgcrypt: multi-precision integers and SHA-256. An MPI stands as
-- its value; the sources assert that it is not negative.
use python_systemd.Base.{
  ℕ, ◌+◌, ◌-◌, ◌*◌, ◌/◌, ◌%◌, ◌^◌, ◌≤◌, ◌<◌, ◌≡◌, Bool, List, [], ◌∷◌, length,
}

-- Big-endian bytes, as in GCRYMPI_FMT_USG.
abbrev pub be_value_from : ℕ → List ℕ → ℕ
be_value_from acc [] = acc
be_value_from acc (b ∷ bytes) = be_value_from (acc * 256 + b) bytes

abbrev pub be_value : List ℕ → ℕ
be_value bytes = be_value_from 0 bytes

abbrev pub IsBytes : List ℕ → Type 0
IsBytes [] = Unit
IsBytes (b ∷ bytes) = (b < 256) × IsBytes bytes

-- The operations. `prime_check p` is `gcry_prime_check(p, 0) == 0`.
pub record Gcrypt : Type 0 where
  pub mpi_get_nbits : ℕ → ℕ
  pub mpi_print : ℕ → List ℕ
  pub mpi_scan : List ℕ → ℕ
  pub mpi_add : ℕ → ℕ → ℕ
  pub mpi_sub : ℕ → ℕ → ℕ
  pub mpi_mul : ℕ → ℕ → ℕ
  pub mpi_mod : ℕ → ℕ → ℕ
  pub mpi_mulm : ℕ → ℕ → ℕ → ℕ
  pub mpi_subm : ℕ → ℕ → ℕ → ℕ
  pub mpi_powm : ℕ → ℕ → ℕ → ℕ
  pub mpi_invm : ℕ → ℕ → ℕ
  pub prime_check : ℕ → Bool
  pub md_get_algo_dlen : ℕ
  pub md_hash : List ℕ → List ℕ

-- The integers compute what the manual of libgcrypt says.
pub record IsArithmetic (g : Gcrypt) : Type 0 where
  pub add_law : (u v : ℕ) → g.mpi_add u v ≡ u + v
  pub sub_law : (u v : ℕ) → v ≤ u → g.mpi_sub u v ≡ u - v
  pub mul_law : (u v : ℕ) → g.mpi_mul u v ≡ u * v
  pub mod_law : (u m : ℕ) → 0 < m → g.mpi_mod u m ≡ u % m
  pub mulm_law : (u v m : ℕ) → 0 < m → g.mpi_mulm u v m ≡ u * v % m
  pub subm_law : (u v m : ℕ) → 0 < m → g.mpi_subm u v m ≡ (u + (m - v % m)) % m
  pub powm_law : (b e m : ℕ) → 0 < m → g.mpi_powm b e m ≡ b ^ e % m
  pub invm_law : (a v m : ℕ) → 1 < m → a * v % m ≡ 1 → a * g.mpi_invm a m % m ≡ 1

-- Reading gives the value of the bytes, and printing gives the shortest bytes of a value.
pub record IsFormat (g : Gcrypt) : Type 0 where
  pub scan_law : (bytes : List ℕ) → IsBytes bytes → g.mpi_scan bytes ≡ be_value bytes
  pub print-IsBytes : (x : ℕ) → IsBytes (g.mpi_print x)
  pub print_law : (x : ℕ) → be_value (g.mpi_print x) ≡ x
  pub print_length : (x : ℕ) → length (g.mpi_print x) ≡ (g.mpi_get_nbits x + 7) / 8
  pub nbits_law : (x k : ℕ) → x < 2 ^ k → g.mpi_get_nbits x ≤ k

-- `gcry_mpi_get_nbits` is the number of bits that are required, and not more than it is.
pub record IsSize (g : Gcrypt) : Type 0 where
  pub nbits_least : (x k : ℕ) → 2 ^ k ≤ x → k < g.mpi_get_nbits x

-- A SHA-256 digest has 32 bytes.
pub record IsDigest (g : Gcrypt) : Type 0 where
  pub dlen_law : g.md_get_algo_dlen ≡ 32
  pub digest_length : (bytes : List ℕ) → length (g.md_hash bytes) ≡ 32
  pub digest-IsBytes : (bytes : List ℕ) → IsBytes (g.md_hash bytes)
