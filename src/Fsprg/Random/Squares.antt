-- ===== src/Fsprg/Random/Squares.antt =====
-- `gensquare` gives a square modulo n.
use Prim.Native.Nat.{bit_and}
use native.Mathlib.Nat.{mod-lt}
use python_systemd.Base.{
  ℕ, ◌*◌, ◌/◌, ◌%◌, ◌<◌, ◌≡◌, refl, ◌∙◌, sym, Bool, true, false, some, List, ltb, ltb→lt, arith,
}
use python_systemd.Base.Buffer.{◌>>◌, assert, >>=-some}
use python_systemd.Fsprg.Gcrypt.{Gcrypt, IsArithmetic}
use python_systemd.Fsprg.Codec.{mpi_import}
use python_systemd.Fsprg.Random.{update_at, det_randomize, gensquare}

asserted : (c : Bool) (v x : ℕ) → (assert c >> some v) ≡ some x → (c ≡ true) × (v ≡ x)
asserted true v x e = (refl, ground arith)
asserted false v x e = absurd (ground arith)

module _ (g : Gcrypt) (numbers : IsArithmetic g) where
  -- Whatever gensquare gives for a positive modulus is the square, modulo it, of a number below
  -- it.
  pub gensquare_lem :
      (n : ℕ) (seed : List ℕ) (idx secpar x : ℕ)
      → 0 < n
      → gensquare g n seed idx secpar ≡ some x
      → (y : ℕ) × (y < n) × (x ≡ y * y % n) × (x < n)
  unfolding gensquare
  gensquare_lem n seed idx secpar x h e =
      let (buf, made, e) = >>=-some (det_randomize g (secpar / 8) seed idx) _ e in
      let (buf', masked, e) = >>=-some (update_at 0 (λ b. bit_and b 0x7f) buf) _ e in
      let (y, read, e) = >>=-some (mpi_import g buf') _ e in
      let (below, value) = asserted (ltb y n) (g.mpi_mulm y y n) x e in
      let square : x ≡ y * y % n = sym value ∙ numbers.mulm_law y y n h in
      (y, ltb→lt y n below, square, omega (arith, mod-lt (y * y) h, square))
