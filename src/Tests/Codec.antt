-- ===== src/Tests/Codec.antt =====
-- Numbers in keys and states, and the residues of systemd/fsprg.c.
use python_systemd.Base.{ℕ, List, length, ◌-◌, ◌%◌, ◌^◌, ◌≡◌, refl, true, some, none, arith}
use python_systemd.Fsprg.Codec.{isvalid_secpar, mpi_import, mpi_export}
use python_systemd.Fsprg.Codec.Laws.{mpi_import-mpi_export}
use python_systemd.Fsprg.Number.{twopowmodphi, crt_decompose, crt_compose}
use python_systemd.Fsprg.Number.TwoPow.{twopowmodphi_lem, twopowmodphi-overflow}
use python_systemd.Fsprg.Number.Crt.{crt_compose-crt_decompose}
use python_systemd.Tests.Software.{software, software-IsFormat, software-IsArithmetic}

recommended-is_valid : isvalid_secpar 1536 ≡ true
unfolding isvalid_secpar
recommended-is_valid = refl

mpi_import-mpi_export_example :
    (bytes : List ℕ) × (mpi_export software 4 0x1234 ≡ some bytes)
    × (length bytes ≡ 4)
    × (mpi_import software bytes ≡ some 0x1234)
mpi_import-mpi_export_example =
    mpi_import-mpi_export software software-IsFormat 4 0x1234 (omega arith)

twopowmodphi_lem_example : twopowmodphi software 1000 23 ≡ some (2 ^ 1000 % (23 - 1))
twopowmodphi_lem_example =
    twopowmodphi_lem software software-IsArithmetic 1000 23 (omega arith) (omega arith)

twopowmodphi-overflow_example : twopowmodphi software (2 ^ 63) 23 ≡ none
twopowmodphi-overflow_example = twopowmodphi-overflow software (2 ^ 63) 23 (omega arith)

crt_compose-crt_decompose_example :
    let (xp, xq) = crt_decompose software 100 7 23 in crt_compose software xp xq 7 23 ≡ 100
crt_compose-crt_decompose_example =
    crt_compose-crt_decompose software software-IsArithmetic 7 23 (omega arith) (omega arith)
      (10, refl) 100 (omega arith)
