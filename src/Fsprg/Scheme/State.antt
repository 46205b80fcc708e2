-- ===== src/Fsprg/Scheme/State.antt =====
-- The memory of a state: security parameter, modulus, residue and epoch.
use python_systemd.Base.{
  ℕ, ◌+◌, ◌*◌, ◌/◌, ◌^◌, ◌<◌, ◌≡◌, refl, ◌∙◌, ap, true, Option, some, List, ◌++◌, length, arith,
}
use python_systemd.Base.Buffer.{◌>>=◌, read_at, read_at-field, read_at-second, read_at-third}
use python_systemd.Fsprg.Gcrypt.{Gcrypt, IsFormat, IsBytes, be_value}
use python_systemd.Fsprg.Codec.{
  isvalid_secpar, store_secpar, read_secpar, uint64_export, uint64_import, mpi_import,
}
use python_systemd.Fsprg.Codec.Laws.{
  read_secpar-store_secpar, uint64_import-uint64_export, mpi_import-value,
}
use python_systemd.Fsprg.Scheme.{get_epoch}

-- The bytes of a state.
abbrev pub state_bytes : ℕ → List ℕ → List ℕ → ℕ → List ℕ → List ℕ
state_bytes secpar n_bytes x_bytes epoch rest =
    store_secpar secpar ++ (n_bytes ++ (x_bytes ++ (uint64_export epoch ++ rest)))

-- `state` holds residue `x` of modulus `n` at `epoch`.
pub record Holds (secpar n x epoch : ℕ) (state : List ℕ) : Type 0 where
  pub n_bytes : List ℕ
  pub x_bytes : List ℕ
  pub rest : List ℕ
  pub layout : state ≡ state_bytes secpar n_bytes x_bytes epoch rest
  pub valid : isvalid_secpar secpar ≡ true
  pub n_length : length n_bytes ≡ secpar / 8
  pub x_length : length x_bytes ≡ secpar / 8
  pub n-IsBytes : IsBytes n_bytes
  pub x-IsBytes : IsBytes x_bytes
  pub n_value : be_value n_bytes ≡ n
  pub x_value : be_value x_bytes ≡ x
  pub epoch_fits : epoch < 2 ^ 64

pub offsets :
    (secpar : ℕ)
    → isvalid_secpar secpar ≡ true
    → (0 * secpar / 8 ≡ 0)
      × (1 * secpar / 8 ≡ secpar / 8)
      × (2 * secpar / 8 ≡ secpar / 8 + secpar / 8)
unfolding isvalid_secpar
offsets secpar h = ground arith

pub store_secpar-length : (secpar : ℕ) → length (store_secpar secpar) ≡ 2
unfolding store_secpar
store_secpar-length secpar = refl

pub uint64_export-length : (x : ℕ) → length (uint64_export x) ≡ 8
unfolding uint64_export
uint64_export-length x = refl

module _ (secpar n x epoch : ℕ) (state : List ℕ) (holds : Holds secpar n x epoch state) where
  pub holds-secpar : read_secpar state ≡ some secpar
  holds-secpar = ap read_secpar holds.layout ∙ read_secpar-store_secpar secpar _ holds.valid

  pub holds-n :
      (g : Gcrypt)
      → IsFormat g
      → (read_at (2 + 0 * secpar / 8) (secpar / 8) state >>= mpi_import g) ≡ some n
  holds-n g format =
      ap (λ (t : Option (List ℕ)). t >>= mpi_import g)
        (ap (read_at (2 + 0 * secpar / 8) (secpar / 8)) holds.layout
          ∙ read_at-field (store_secpar secpar) holds.n_bytes _ _ _
              (omega (arith, offsets secpar holds.valid, store_secpar-length secpar))
              (omega (arith, holds.n_length)))
      ∙ mpi_import-value g format holds.n_bytes holds.n-IsBytes
      ∙ ap some holds.n_value

  pub holds-x :
      (g : Gcrypt)
      → IsFormat g
      → (read_at (2 + 1 * secpar / 8) (secpar / 8) state >>= mpi_import g) ≡ some x
  holds-x g format =
      ap (λ (t : Option (List ℕ)). t >>= mpi_import g)
        (ap (read_at (2 + 1 * secpar / 8) (secpar / 8)) holds.layout
          ∙ read_at-second (store_secpar secpar) holds.n_bytes holds.x_bytes _ _ _
              (omega
                (arith, offsets secpar holds.valid, store_secpar-length secpar, holds.n_length))
              (omega (arith, holds.x_length)))
      ∙ mpi_import-value g format holds.x_bytes holds.x-IsBytes
      ∙ ap some holds.x_value

  pub holds-epoch : (read_at (2 + 2 * secpar / 8) 8 state >>= uint64_import) ≡ some epoch
  holds-epoch =
      ap (λ (t : Option (List ℕ)). t >>= uint64_import)
        (ap (read_at (2 + 2 * secpar / 8) 8) holds.layout
          ∙ read_at-third (store_secpar secpar) holds.n_bytes holds.x_bytes (uint64_export epoch)
              holds.rest _ _
              (omega (
                arith,
                offsets secpar holds.valid,
                store_secpar-length secpar,
                holds.n_length,
                holds.x_length,
              ))
              (omega (arith, uint64_export-length epoch)))
      ∙ uint64_import-uint64_export epoch holds.epoch_fits

  pub holds-get_epoch : get_epoch state ≡ some epoch
  unfolding get_epoch
  holds-get_epoch = rw holds-secpar holds-epoch
