-- ===== src/Base/Mod.antt =====
-- Remainders of products and powers.
use mathlib.Core.Path.{◌≡◌, ap, sym, ◌∙◌}
use Prim.Native.Nat.{ℕ, zero, suc, ◌+◌, ◌*◌, ◌/◌, ◌%◌, ◌^◌}
use native.Mathlib.Nat.{div-add-mod, add-mul-mod_self_left, pow-suc, pow-zero, mul_comm}
use native.Mathlib.Omega.{arith}

-- A factor may be reduced first.
pub mod-mul : (a b m : ℕ) → a % m * b % m ≡ a * b % m
mod-mul a b m = sym (
    ap (λ (t : ℕ). t % m) (omega (arith, ap (λ (t : ℕ). t * b) (div-add-mod a m)))
    ∙ add-mul-mod_self_left (a % m * b) m (a / m * b))

pub mul-mod : (a b m : ℕ) → a * (b % m) % m ≡ a * b % m
mul-mod a b m =
    ap (λ (t : ℕ). t % m) (mul_comm a (b % m))
    ∙ mod-mul b a m
    ∙ ap (λ (t : ℕ). t % m) (mul_comm b a)

pub pow_add : (x a b : ℕ) → x ^ (a + b) ≡ x ^ a * x ^ b
pow_add x a zero = omega (
  arith,
  ap (λ (t : ℕ). x ^ a * t) (pow-zero x),
  ap (λ (t : ℕ). x ^ t) (let e : a + zero ≡ a = omega arith in e),
)
pow_add x a (suc b) = omega (
  arith,
  ap (λ (t : ℕ). x ^ t) (let e : a + suc b ≡ suc (a + b) = omega arith in e),
  pow-suc x (a + b),
  ap (λ (t : ℕ). x ^ a * t) (pow-suc x b),
  ap (λ (t : ℕ). t * x) (pow_add x a b),
)

pub pow-mod : (x k m : ℕ) → (x % m) ^ k % m ≡ x ^ k % m
pow-mod x zero m = ap (λ (t : ℕ). t % m) (pow-zero (x % m) ∙ sym (pow-zero x))
pow-mod x (suc k) m =
    ap (λ (t : ℕ). t % m) (pow-suc (x % m) k)
    ∙ mul-mod ((x % m) ^ k) x m
    ∙ sym (mod-mul ((x % m) ^ k) x m)
    ∙ ap (λ (t : ℕ). t * x % m) (pow-mod x k m)
    ∙ mod-mul (x ^ k) x m
    ∙ ap (λ (t : ℕ). t % m) (sym (pow-suc x k))
