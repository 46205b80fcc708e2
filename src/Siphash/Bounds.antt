-- ===== src/Siphash/Bounds.antt =====
-- The widths of siphash24.c: every operation on the vector stays within 64 bits.
use Prim.Native.Nat.{bit_xor}
use python_systemd.Base.{ℕ, ◌+◌, ◌-◌, ◌^◌, ◌<◌, arith}
use python_systemd.Base.Word.{u64, ◌<<<◌, ◌>>>◌}
use python_systemd.Base.Bits.{bit_or-lt, bit_xor-lt}
use python_systemd.Siphash.{Siphash, rotate_left, sipround, absorb}

pub record IsVector (s : Siphash) : Type 0 where
  pub v0_fits : s.v0 < 2 ^ 64
  pub v1_fits : s.v1 < 2 ^ 64
  pub v2_fits : s.v2 < 2 ^ 64
  pub v3_fits : s.v3 < 2 ^ 64

pub rotate_left-lt : (x b : ℕ) → x < 2 ^ 64 → rotate_left x b < 2 ^ 64
unfolding rotate_left
rotate_left-lt x b h = bit_or-lt 64 (u64 (x <<< b)) (x >>> (64 - b)) (omega arith) (omega arith)

pub xor_fits : (a b : ℕ) → a < 2 ^ 64 → b < 2 ^ 64 → bit_xor a b < 2 ^ 64
xor_fits a b = bit_xor-lt 64 a b

pub sipround-IsVector : (s : Siphash) → IsVector s → IsVector (sipround s)
unfolding sipround
sipround-IsVector s v =
    let a0 : u64 (s.v0 + s.v1) < 2 ^ 64 = omega arith in
    let a2 : u64 (s.v2 + s.v3) < 2 ^ 64 = omega arith in
    let b1 = xor_fits _ _ (rotate_left-lt s.v1 13 v.v1_fits) a0 in
    let b3 = xor_fits _ _ (rotate_left-lt s.v3 16 v.v3_fits) a2 in
    record {
      v0_fits = omega arith;
      v1_fits = xor_fits _ _ (rotate_left-lt _ 17 b1) (omega arith);
      v2_fits = rotate_left-lt _ 32 (omega arith);
      v3_fits = xor_fits _ _ (rotate_left-lt _ 21 b3) (omega arith);
    }

pub absorb-IsVector : (m : ℕ) (s : Siphash) → m < 2 ^ 64 → IsVector s → IsVector (absorb m s)
unfolding absorb
absorb-IsVector m s h v =
    let s1 = record s { v3 = bit_xor s.v3 m } in
    let v1 : IsVector s1 = record {
      v0_fits = v.v0_fits;
      v1_fits = v.v1_fits;
      v2_fits = v.v2_fits;
      v3_fits = xor_fits s.v3 m v.v3_fits h;
    } in
    let v2 = sipround-IsVector _ (sipround-IsVector s1 v1) in
    record {
      v0_fits = xor_fits _ m v2.v0_fits h;
      v1_fits = v2.v1_fits;
      v2_fits = v2.v2_fits;
      v3_fits = v2.v3_fits;
    }
