-- ===== src/Siphash/Program.antt =====
-- generate_siphash24 of systemd/_siphash24.c.
use python_systemd.Base.{ℕ, Option, some, List, [], ◌∷◌}
use python_systemd.Base.Buffer.{◌>>=◌}
use python_systemd.Siphash.{siphash24}

-- The arrays `in` and `key`.
abbrev pub count_up : List ℕ
count_up = 0 ∷ 1 ∷ 2 ∷ 3 ∷ 4 ∷ 5 ∷ 6 ∷ 7 ∷ 8 ∷ 9 ∷ 10 ∷ 11 ∷ 12 ∷ 13 ∷ 14 ∷ []

abbrev pub count_key : List ℕ
count_key = 0 ∷ 1 ∷ 2 ∷ 3 ∷ 4 ∷ 5 ∷ 6 ∷ 7 ∷ 8 ∷ 9 ∷ 10 ∷ 11 ∷ 12 ∷ 13 ∷ 14 ∷ 15 ∷ []

-- `printf` prints a number in the format "0x%" PRIx64 "\n" onto the output `W`.
unfoldable pub generate_siphash24 : {W : Type 0} → (printf : ℕ → W → W) → W → Option W
generate_siphash24 printf output = siphash24 count_up count_key >>= λ out. some (printf out output)
