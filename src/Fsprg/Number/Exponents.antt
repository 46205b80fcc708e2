-- ===== src/Fsprg/Number/Exponents.antt =====
-- Exponents modulo p - 1, and the residue that `FSPRG_Seek` computes from them.
use native.Mathlib.Nat.{pow-suc, pow-zero, div-add-mod, mod-lt, add-mul-mod_self_left, mul-pos}
use python_systemd.Base.{
  ℕ, zero, suc, ◌+◌, ◌-◌, ◌*◌, ◌/◌, ◌%◌, ◌^◌, ◌<◌, ◌≡◌, ◌≢◌, refl, ◌∙◌, sym, ap, ap₂, arith,
}
use python_systemd.Base.Mod.{mod-mul, pow_add, pow-mod}
use python_systemd.Fsprg.Gcrypt.{Gcrypt, IsArithmetic}
use python_systemd.Fsprg.Number.{crt_decompose, crt_compose}
use python_systemd.Fsprg.Number.Crt.{Invertible, crt_compose-crt_decompose}

-- What is used of the primes of a key: their size, and the little theorem of Fermat.
pub record IsKeyPrime (p : ℕ) : Type 0 where
  pub above : 3 < p
  pub is_3_mod_4 : p % 4 ≡ 3
  pub fermat : (y : ℕ) → y ^ p % p ≡ y % p

-- An odd number above 1 divides no power of 2.
odd-not-divides : (k m c : ℕ) → 2 ^ m ≢ (2 * k + 3) * c
odd-not-divides k zero c e = elim-c c (sym (pow-zero 2) ∙ e)
  where
    elim-c : (c : ℕ) → 1 ≢ (2 * k + 3) * c
    elim-c zero e = absurd (omega arith)
    elim-c (suc c) e = absurd (omega arith)
odd-not-divides k (suc m) c e =
    odd-not-divides k m (c / 2) (halved (c / 2) (c % 2) (omega arith) (omega arith))
  where
    halved : (h b : ℕ) → b < 2 → c ≡ 2 * h + b → 2 ^ m ≡ (2 * k + 3) * h
    halved h zero l d = omega (arith, pow-suc 2 m, e, ap (λ (t : ℕ). (2 * k + 3) * t) d)
    halved h (suc zero) l d =
        absurd (omega (arith, pow-suc 2 m, e, ap (λ (t : ℕ). (2 * k + 3) * t) d))
    halved h (suc (suc b)) l d = absurd (omega arith)

-- So no power of 2 is a multiple of p - 1.
two_pow-mod-positive : (p m : ℕ) → IsKeyPrime p → 0 < 2 ^ m % (p - 1)
two_pow-mod-positive p m prime = positive (2 ^ m % (p - 1)) refl
  where
    shape : p - 1 ≡ 2 * (2 * ((p - 7) / 4) + 3)
    shape = omega (arith, prime.above, prime.is_3_mod_4)

    positive : (r : ℕ) → r ≡ 2 ^ m % (p - 1) → 0 < r
    positive (suc r) e = omega arith
    positive zero e = absurd (
        odd-not-divides ((p - 7) / 4) m (2 * (2 ^ m / (p - 1)))
          (omega (arith, div-add-mod (2 ^ m) (p - 1), ap (λ (t : ℕ). t * (2 ^ m / (p - 1))) shape)))

module _ (p : ℕ) (prime : IsKeyPrime p) where
  -- Multiples of p - 1 in an exponent do not count.
  drop-multiples : (y r t : ℕ) → y ^ ((p - 1) * t + suc r) % p ≡ y ^ suc r % p
  drop-multiples y r zero = ap (λ (e : ℕ). y ^ e % p) (omega arith)
  drop-multiples y r (suc t) =
      ap (λ (e : ℕ). y ^ e % p)
        (let e : (p - 1) * suc t + suc r ≡ p + ((p - 1) * t + r) = omega (arith, prime.above) in e)
      ∙ ap (λ (z : ℕ). z % p) (pow_add y p ((p - 1) * t + r))
      ∙ sym (mod-mul (y ^ p) (y ^ ((p - 1) * t + r)) p)
      ∙ ap (λ (z : ℕ). z * y ^ ((p - 1) * t + r) % p) (prime.fermat y)
      ∙ mod-mul y (y ^ ((p - 1) * t + r)) p
      ∙ ap (λ (z : ℕ). z % p) (omega (arith, pow-suc y ((p - 1) * t + r)))
      ∙ ap (λ (e : ℕ). y ^ e % p)
          (let e : suc ((p - 1) * t + r) ≡ (p - 1) * t + suc r = omega arith in e)
      ∙ drop-multiples y r t

  reduce-exponent : (y m : ℕ) → y ^ (2 ^ m % (p - 1)) % p ≡ y ^ 2 ^ m % p
  reduce-exponent y m = reduced (2 ^ m % (p - 1)) refl (two_pow-mod-positive p m prime)
    where
      reduced : (r : ℕ) → r ≡ 2 ^ m % (p - 1) → 0 < r → y ^ r % p ≡ y ^ 2 ^ m % p
      reduced zero e h = absurd (omega arith)
      reduced (suc r) e h =
          sym (drop-multiples y r (2 ^ m / (p - 1)))
          ∙ ap (λ (t : ℕ). y ^ t % p) (omega (arith, div-add-mod (2 ^ m) (p - 1)))

mod-product : (a p q : ℕ) → a % (p * q) % p ≡ a % p
mod-product a p q =
    sym (add-mul-mod_self_left (a % (p * q)) p (q * (a / (p * q))))
    ∙ ap (λ (t : ℕ). t % p) (omega (arith, div-add-mod a (p * q)))

module _ (g : Gcrypt) (numbers : IsArithmetic g) (p q : ℕ) (p-IsKeyPrime : IsKeyPrime p)
    (q-IsKeyPrime : IsKeyPrime q) (inverse : Invertible p q) where
  power_residue :
      (r : ℕ)
      → IsKeyPrime r
      → (x m : ℕ) → g.mpi_powm (g.mpi_mod x r) (2 ^ m % (r - 1)) r ≡ x ^ 2 ^ m % r
  power_residue r prime x m =
      ap (λ (t : ℕ). g.mpi_powm t (2 ^ m % (r - 1)) r)
        (numbers.mod_law x r (omega (arith, prime.above)))
      ∙ numbers.powm_law (x % r) (2 ^ m % (r - 1)) r (omega (arith, prime.above))
      ∙ pow-mod x (2 ^ m % (r - 1)) r
      ∙ reduce-exponent r prime x m

  -- The residue of FSPRG_Seek is the one that repeated squaring gives.
  pub crt_compose-power :
      (x m : ℕ)
      → crt_compose g
          (g.mpi_powm (g.mpi_mod x p) (2 ^ m % (p - 1)) p)
          (g.mpi_powm (g.mpi_mod x q) (2 ^ m % (q - 1)) q)
          p
          q
        ≡ x ^ 2 ^ m % (p * q)
  unfolding crt_decompose
  crt_compose-power x m =
      let z : ℕ = x ^ 2 ^ m % (p * q) in
      ap₂ (λ (s t : ℕ). crt_compose g s t p q)
        (power_residue p p-IsKeyPrime x m
          ∙ sym (
              numbers.mod_law z p (omega (arith, p-IsKeyPrime.above))
              ∙ mod-product (x ^ 2 ^ m) p q))
        (power_residue q q-IsKeyPrime x m
          ∙ sym (
              numbers.mod_law z q (omega (arith, q-IsKeyPrime.above))
              ∙ ap (λ (t : ℕ). x ^ 2 ^ m % t % q) (omega arith)
              ∙ mod-product (x ^ 2 ^ m) q p))
      ∙ crt_compose-crt_decompose g numbers p q (omega (arith, p-IsKeyPrime.above))
          (omega (arith, q-IsKeyPrime.above)) inverse z
          (mod-lt (x ^ 2 ^ m)
            (mul-pos (omega (arith, p-IsKeyPrime.above)) (omega (arith, q-IsKeyPrime.above))))
