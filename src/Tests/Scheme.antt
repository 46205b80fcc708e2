-- ===== src/Tests/Scheme.antt =====
-- A small state.
use python_systemd.Base.{ℕ, ◌≡◌, refl, some, List, [], ◌∷◌, arith}
use python_systemd.Base.{replicate, true}
use python_systemd.Base.Buffer.{read_at}
use python_systemd.Fsprg.Codec.{isvalid_secpar, store_secpar, uint64_export}
use python_systemd.Fsprg.Codec.{mpi_import}
use python_systemd.Fsprg.Random.{gensquare, det_randomize, putc_word, update_at}
use python_systemd.Fsprg.Scheme.{rnd_gen_x}
use python_systemd.Fsprg.Scheme.State.{Holds}
use python_systemd.Tests.Software.{be_bytes, count, software}

-- Residue 2 modulo 21 at epoch 0, and a byte behind the state.
abbrev pub some_state : List ℕ
some_state = 0 ∷ 0 ∷ 0 ∷ 21 ∷ 0 ∷ 2 ∷ 0 ∷ 0 ∷ 0 ∷ 0 ∷ 0 ∷ 0 ∷ 0 ∷ 0 ∷ 99 ∷ []

some_state-Holds : Holds 16 21 2 0 some_state
unfolding isvalid_secpar store_secpar uint64_export
some_state-Holds = record {
  n_bytes = 0 ∷ 21 ∷ [];
  x_bytes = 0 ∷ 2 ∷ [];
  rest = 99 ∷ [];
  layout = refl;
  valid = refl;
  n_length = refl;
  x_length = refl;
  n-IsBytes = omega arith;
  x-IsBytes = omega arith;
  n_value = refl;
  x_value = refl;
  epoch_fits = omega arith;
}

abbrev long_seed : List ℕ
long_seed = 0 ∷ 5 ∷ replicate 22 7

long_seed-square : gensquare software 21 long_seed rnd_gen_x 16 ≡ some 4
unfolding gensquare det_randomize putc_word update_at read_at mpi_import be_bytes count
long_seed-square = refl

valid_16 : isvalid_secpar 16 ≡ true
unfolding isvalid_secpar
valid_16 = refl
