-- ===== src/Base/Bits.antt =====
-- Bit operations at variables: the law for the lowest binary digit, and what it gives for
-- disjoint fields. The native operations stand for `bitwise`, a recursion on digits with fuel.
use Prim.Native.Nat.{
  ℕ, zero, suc, ◌+◌, ◌-◌, ◌*◌, ◌/◌, ◌%◌, ◌^◌, ◌≤◌, ◌<◌, min, max, digits, bitwise, bit_and, bit_or,
  bit_xor, bit_and-bitwise, bit_or-bitwise, bit_xor-bitwise, differ,
}
use mathlib.Core.Path.{◌≡◌, refl, ap, subst, ◌∙◌}
use mathlib.Core.Bool.{Bool, true, false}
use native.Mathlib.Nat.{add-zero, pow-suc, one-le-pow}
use native.Mathlib.Omega.{arith}
use python_systemd.Base.Tests.{if◌then◌else◌}

abbrev more_fuel : ℕ → ℕ → ℕ
more_fuel zero fuel = fuel
more_fuel (suc spare) fuel = suc (more_fuel spare fuel)

more_fuel-add : (spare fuel : ℕ) → more_fuel spare fuel ≡ spare + fuel
more_fuel-add zero fuel = omega arith
more_fuel-add (suc spare) fuel = omega (arith, more_fuel-add spare fuel)

module _ (z : ℕ → ℕ) (f : ℕ → ℕ → ℕ) where
  -- One more unit of fuel than the number needs changes nothing, and so do any number of them.
  digits-once : (a b fuel : ℕ) → a ≤ fuel → digits z f (suc fuel) a b ≡ digits z f fuel a b
  digits-once zero b zero enough = refl
  digits-once zero b (suc fuel) enough = refl
  digits-once (suc a) b zero enough = absurd (omega arith)
  digits-once (suc a) b (suc fuel) enough = rw (digits-once (suc a / 2) (b / 2) fuel (omega arith))

  digits-spare :
      (spare a b fuel : ℕ) → a ≤ fuel → digits z f (more_fuel spare fuel) a b ≡ digits z f fuel a b
  digits-spare zero a b fuel enough = refl
  digits-spare (suc spare) a b fuel enough =
      digits-once a b (more_fuel spare fuel) (omega (arith, more_fuel-add spare fuel))
      ∙ digits-spare spare a b fuel enough

  digits-lowest :
      (a b : ℕ)
      → bitwise z f (suc a) b ≡ bitwise z f (suc a / 2) (b / 2) * 2 + f (suc a % 2) (b % 2)
  digits-lowest a b =
      let half : ℕ = suc a / 2 in
      let whole : more_fuel (a - half) half ≡ a = omega (arith, more_fuel-add (a - half) half) in
      ap (λ (rest : ℕ). rest * 2 + f (suc a % 2) (b % 2))
        (subst (λ (fuel : ℕ). digits z f fuel half (b / 2) ≡ digits z f half half (b / 2)) whole
          (digits-spare (a - half) half (b / 2) half (omega arith)))

pub bit_or-lowest : (a b : ℕ) → bit_or a b ≡ bit_or (a / 2) (b / 2) * 2 + max (a % 2) (b % 2)
bit_or-lowest zero b = simp bit_or-bitwise (omega arith)
bit_or-lowest (suc a) b = simp bit_or-bitwise (digits-lowest (λ y. y) max a b)

pub bit_and-lowest : (a b : ℕ) → bit_and a b ≡ bit_and (a / 2) (b / 2) * 2 + min (a % 2) (b % 2)
bit_and-lowest zero b = simp bit_and-bitwise (omega arith)
bit_and-lowest (suc a) b = simp bit_and-bitwise (digits-lowest (λ y. 0) min a b)

pub zero-bit_or : (b : ℕ) → bit_or 0 b ≡ b
zero-bit_or b = simp bit_or-bitwise

-- A low field and a field above it do not overlap, so that `|` is their sum.
pub bit_or-disjoint : (k r q : ℕ) → r < 2 ^ k → bit_or r (q * 2 ^ k) ≡ q * 2 ^ k + r
bit_or-disjoint zero zero q fits = rw zero-bit_or (omega arith)
bit_or-disjoint zero (suc r) q fits = absurd (omega arith)
bit_or-disjoint (suc k) r q fits = ground (
  arith,
  bit_or-lowest r (q * 2 ^ suc k),
  ap (λ (t : ℕ). q * t) (pow-suc 2 k),
  pow-suc 2 k,
  bit_or-disjoint k (r / 2) q (omega (arith, pow-suc 2 k)),
)

bit_or-nothing : (a bound : ℕ) → a ≤ bound → bit_or a 0 ≡ a
bit_or-nothing zero bound within = zero-bit_or 0
bit_or-nothing (suc a) zero within = absurd (omega arith)
bit_or-nothing (suc a) (suc bound) within =
    omega (arith, bit_or-nothing (suc a / 2) bound (omega arith), bit_or-lowest (suc a) 0)

pub bit_or-zero : (a : ℕ) → bit_or a 0 ≡ a
bit_or-zero a = bit_or-nothing a a (omega arith)

bit_and-nothing : (a bound : ℕ) → a ≤ bound → bit_and a 0 ≡ 0
bit_and-nothing zero bound within = refl
bit_and-nothing (suc a) zero within = absurd (omega arith)
bit_and-nothing (suc a) (suc bound) within =
    omega (arith, bit_and-nothing (suc a / 2) bound (omega arith), bit_and-lowest (suc a) 0)

-- The same with the upper field on the left.
pub bit_or-fields : (k q r : ℕ) → r < 2 ^ k → bit_or (q * 2 ^ k) r ≡ q * 2 ^ k + r
bit_or-fields zero q zero fits = omega (arith, bit_or-zero (q * 2 ^ 0))
bit_or-fields zero q (suc r) fits = absurd (omega arith)
bit_or-fields (suc k) q r fits = ground (
  arith,
  bit_or-lowest (q * 2 ^ suc k) r,
  ap (λ (t : ℕ). q * t) (pow-suc 2 k),
  pow-suc 2 k,
  bit_or-fields k q (r / 2) (omega (arith, pow-suc 2 k)),
)

-- A mask of `k` ones keeps the remainder by `2 ^ k`.
bit_and-ones_split : (k q r : ℕ) → r < 2 ^ k → bit_and (q * 2 ^ k + r) (2 ^ k - 1) ≡ r
bit_and-ones_split zero q r fits =
    omega (arith, bit_and-nothing (q * 2 ^ 0 + r) (q * 2 ^ 0 + r) (omega arith))
bit_and-ones_split (suc k) q r fits = ground (
  arith,
  bit_and-lowest (q * 2 ^ suc k + r) (2 ^ suc k - 1),
  ap (λ (t : ℕ). q * t) (pow-suc 2 k),
  pow-suc 2 k,
  one-le-pow k 2,
  bit_and-ones_split k q (r / 2) (omega (arith, pow-suc 2 k)),
)

pub bit_and-ones : (k a : ℕ) → bit_and a (2 ^ k - 1) ≡ a % 2 ^ k
bit_and-ones k a = ground (arith, one-le-pow k 2, bit_and-ones_split k (a / 2 ^ k) (a % 2 ^ k))

-- Instances at the masks that the sources use.
pub bit_and-seven : (a : ℕ) → bit_and a 7 ≡ a % 8
bit_and-seven a = bit_and-ones 3 a

pub bit_and-byte : (a : ℕ) → bit_and a 0xff ≡ a % 256
bit_and-byte a = bit_and-ones 8 a

pub bit_xor-lowest : (a b : ℕ) → bit_xor a b ≡ bit_xor (a / 2) (b / 2) * 2 + differ (a % 2) (b % 2)
bit_xor-lowest zero zero = refl
bit_xor-lowest zero (suc b) = simp bit_xor-bitwise (omega arith)
bit_xor-lowest (suc a) b = simp bit_xor-bitwise (digits-lowest (λ y. y) differ a b)

differ-le : (a b : ℕ) → a < 2 → b < 2 → differ a b < 2
differ-le zero b h k = k
differ-le (suc a) zero h k = h
differ-le (suc a) (suc b) h k = differ-le a b (omega arith) (omega arith)

-- The operations stay within the width of their arguments.
pub bit_or-lt : (k a b : ℕ) → a < 2 ^ k → b < 2 ^ k → bit_or a b < 2 ^ k
bit_or-lt zero zero b ha hb = rw zero-bit_or hb
bit_or-lt zero (suc a) b ha hb = absurd (omega arith)
bit_or-lt (suc k) a b ha hb = omega (
  arith,
  bit_or-lowest a b,
  pow-suc 2 k,
  bit_or-lt k (a / 2) (b / 2) (omega (arith, pow-suc 2 k)) (omega (arith, pow-suc 2 k)),
)

pub bit_xor-lt : (k a b : ℕ) → a < 2 ^ k → b < 2 ^ k → bit_xor a b < 2 ^ k
bit_xor-lt zero zero zero ha hb = omega arith
bit_xor-lt zero zero (suc b) ha hb = absurd (omega arith)
bit_xor-lt zero (suc a) b ha hb = absurd (omega arith)
bit_xor-lt (suc k) a b ha hb = omega (
  arith,
  bit_xor-lowest a b,
  pow-suc 2 k,
  differ-le (a % 2) (b % 2) (omega arith) (omega arith),
  bit_xor-lt k (a / 2) (b / 2) (omega (arith, pow-suc 2 k)) (omega (arith, pow-suc 2 k)),
)

pub pow-add : (a b : ℕ) → 2 ^ (a + b) ≡ 2 ^ a * 2 ^ b
pow-add a zero = omega (arith, ap (λ (t : ℕ). 2 ^ t) (add-zero a))
pow-add a (suc b) = omega (
  arith,
  ap (λ (t : ℕ). 2 ^ t) (let e : a + suc b ≡ suc (a + b) = omega arith in e),
  pow-suc 2 (a + b),
  ap (λ (t : ℕ). 2 ^ a * t) (pow-suc 2 b),
  ap (λ (t : ℕ). t * 2) (pow-add a b),
)

-- Over a small range every value is checked by evaluation.
abbrev pub all_below : ℕ → (ℕ → Bool) → Bool
all_below zero test = true
all_below (suc n) test = let lower = all_below n test in if test n then lower else false

pub all_below_sound :
    (n : ℕ) (test : ℕ → Bool) (x : ℕ) → all_below n test ≡ true → x < n → test x ≡ true
all_below_sound n test x checked below = go n checked below
  where
    go : (m : ℕ) → all_below m test ≡ true → x < m → test x ≡ true
    go zero checked below = absurd (omega arith)
    go (suc m) checked below = ground (arith, go m)
