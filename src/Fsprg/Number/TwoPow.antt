-- ===== src/Fsprg/Number/TwoPow.antt =====
-- `twopowmodphi` computes 2^m modulo p - 1, for exponents below 2^63; beyond, it shifts by 64.
use Prim.Native.Nat.{bit_and}
use native.Mathlib.Nat.{
  pow-suc, one-le-pow, mod-eq_of_lt, mod-eq-sub-mod, mod-lt, div-eq_of_lt, div-div-eq-div-mul,
  pow-le-pow_right,
}
use python_systemd.Base.{
  ℕ, zero, suc, ◌+◌, ◌-◌, ◌*◌, ◌/◌, ◌%◌, ◌^◌, ◌≤◌, ◌<◌, ◌≡◌, refl, ◌∙◌, sym, ap, inl, inr, true,
  false, some, none, arith, leb, le→leb, leb→le, ◌==◌, ==_iff, Bool-cases, if◌then◌else◌,
}
use python_systemd.Base.Word.{u64, ◌<<<◌}
use python_systemd.Base.Bits.{bit_and-lowest, bit_and-ones}
use python_systemd.Base.Mod.{mod-mul, mul-mod, pow_add}
use python_systemd.Fsprg.Gcrypt.{Gcrypt, IsArithmetic}
use python_systemd.Fsprg.Number.{count_bits, square_and_multiply, power_loop, twopowmodphi}

-- The bit that `m & (1 << n)` tests.
bit_and-two_pow : (n m : ℕ) → bit_and m (2 ^ n) ≡ m / 2 ^ n % 2 * 2 ^ n
bit_and-two_pow zero m = omega (arith, bit_and-ones 1 m)
bit_and-two_pow (suc n) m =
    bit_and-lowest m (2 ^ suc n)
    ∙ omega (
      arith,
      pow-suc 2 n,
      ap (λ (t : ℕ). bit_and (m / 2) t)
          (let e : 2 ^ suc n / 2 ≡ 2 ^ n = omega (arith, pow-suc 2 n) in e),
      bit_and-two_pow n (m / 2),
      ap (λ (t : ℕ). t % 2 * 2 ^ n)
          (let e : m / 2 / 2 ^ n ≡ m / 2 ^ suc n =
              div-div-eq-div-mul m 2 (2 ^ n) ∙ ap (λ (t : ℕ). m / t) (omega (arith, pow-suc 2 n)) in
            e),
      ap (λ (t : ℕ). m / 2 ^ suc n % 2 * t) (pow-suc 2 n),
    )

-- The search for the number of bits.
count_bits-found :
    (left n m : ℕ)
    → m < 2 ^ (n + left)
    → (k : ℕ) × (count_bits (suc left) n m ≡ some k) × (m < 2 ^ k) × (k ≤ n + left)
unfolding count_bits
count_bits-found zero n m h = elim (Bool-cases (leb (1 <<< n) m)) [
  | inl more ↦ absurd (
      let same : 2 ^ (n + 0) ≡ 2 ^ n = ap (λ (t : ℕ). 2 ^ t) (omega arith) in
      omega (arith, leb→le (1 <<< n) m more))
  | inr done ↦ (n, rw done, ground arith, omega arith)
]
count_bits-found (suc left) n m h = elim (Bool-cases (leb (1 <<< n) m)) [
  | inl more ↦
      let next : n + suc left ≡ n + 1 + left = omega arith in
      let (k, found, above, within) = count_bits-found left (n + 1) m (rw next at h) in
      (k, rw more found, above, omega arith)
  | inr done ↦ (n, rw done, ground arith, omega arith)
]

count_bits-none : (left n m : ℕ) → 2 ^ (n + left) ≤ 2 * m → count_bits left n m ≡ none
unfolding count_bits
count_bits-none zero n m h = refl
count_bits-none (suc left) n m h =
    let next : n + suc left ≡ n + 1 + left = omega arith in
    rw (le→leb (1 <<< n) m low) (count_bits-none left (n + 1) m (rw next at h))
  where
    wider : 2 ^ suc n ≤ 2 ^ (n + suc left)
    wider = pow-le-pow_right (omega arith) (omega arith)

    low : (1 <<< n) ≤ m
    low = omega (arith, wider, pow-suc 2 n)

-- The lowest of the bits of m / 2^n, and the others.
halves : (n m : ℕ) → m / 2 ^ n ≡ 2 * (m / 2 ^ suc n) + m / 2 ^ n % 2
halves n m = omega (arith, div-div-eq-div-mul m (2 ^ n) 2, ap (λ (t : ℕ). m / t) (pow-suc 2 n))

one_bit : (n : ℕ) → n < 64 → u64 (1 <<< n) ≡ 2 ^ n
one_bit n h =
    ap (λ (t : ℕ). t % 2 ^ 64) (let e : (1 <<< n) ≡ 2 ^ n = omega arith in e)
    ∙ mod-eq_of_lt (omega (arith, below))
  where
    below : 2 ^ n ≤ 2 ^ 63
    below = pow-le-pow_right (omega arith) {j = 63} (omega arith)

bit_clear : (n m : ℕ) → m / 2 ^ n % 2 ≡ 0 → (bit_and m (2 ^ n) == 0) ≡ true
bit_clear n m e = (==_iff _ 0).1 (bit_and-two_pow n m ∙ rw e (omega arith))

bit_set : (n m : ℕ) → m / 2 ^ n % 2 ≡ 1 → (bit_and m (2 ^ n) == 0) ≡ false
bit_set n m e =
    let value : bit_and m (2 ^ n) ≡ 2 ^ n = bit_and-two_pow n m ∙ rw e (omega arith) in
    let pos = one-le-pow n 2 (omega arith) in rw value (ground arith)

module _ (g : Gcrypt) (numbers : IsArithmetic g) (phi m : ℕ) (big : 1 < phi) where
  square-double : (e r : ℕ) → r ≡ 2 ^ e % phi → r * r % phi ≡ 2 ^ (2 * e) % phi
  square-double e r h = rw h (
      mod-mul (2 ^ e) (2 ^ e % phi) phi
      ∙ mul-mod (2 ^ e) (2 ^ e) phi
      ∙ ap (λ (t : ℕ). t % phi) (sym (pow_add 2 e e) ∙ ap (λ (t : ℕ). 2 ^ t) (omega arith)))

  -- Doubling with one conditional subtraction is reduced.
  reduce_twice :
      (s : ℕ) → s < phi → (if leb phi (s + s) then g.mpi_sub (s + s) phi else s + s) ≡ (s + s) % phi
  reduce_twice s h = elim (Bool-cases (leb phi (s + s))) [
    | inl over ↦
        let le = leb→le phi (s + s) over in
        rw (over, numbers.sub_law (s + s) phi le)
          (sym (mod-eq-sub-mod le ∙ mod-eq_of_lt (omega (arith, le))))
    | inr under ↦ rw under (sym (mod-eq_of_lt (ground arith)))
  ]

  -- One round doubles the exponent and adds the next bit of `m`.
  square_and_multiply-power :
      (n r : ℕ)
      → n < 64
      → r ≡ 2 ^ (m / 2 ^ suc n) % phi
      → square_and_multiply g phi m n r ≡ 2 ^ (m / 2 ^ n) % phi
  unfolding square_and_multiply
  square_and_multiply-power n r h e =
      rw
        (
          one_bit n h,
          numbers.mulm_law r r phi (omega arith),
          numbers.add_law (r * r % phi) (r * r % phi),
        )
        (elim (Bool-cases (m / 2 ^ n % 2 == 0)) [
          | inl clear ↦
              let even : m / 2 ^ n % 2 ≡ 0 = (==_iff _ 0).0 clear in
              rw (bit_clear n m even)
                (squared ∙ ap (λ (t : ℕ). 2 ^ t % phi) (omega (arith, halves n m, even)))
          | inr more ↦
              let odd : m / 2 ^ n % 2 ≡ 1 = ground arith in
              rw (bit_set n m odd) (
                reduce_twice (r * r % phi) (mod-lt (r * r) (omega arith))
                ∙ doubled
                ∙ ap (λ (t : ℕ). 2 ^ t % phi) (omega (arith, halves n m, odd)))
        ])
    where
      squared : r * r % phi ≡ 2 ^ (2 * (m / 2 ^ suc n)) % phi
      squared = square-double (m / 2 ^ suc n) r e

      doubled : (r * r % phi + r * r % phi) % phi ≡ 2 ^ suc (2 * (m / 2 ^ suc n)) % phi
      doubled =
          ap (λ (t : ℕ). t % phi) (omega (arith, squared))
          ∙ mod-mul (2 ^ (2 * (m / 2 ^ suc n))) 2 phi
          ∙ ap (λ (t : ℕ). t % phi) (sym (pow-suc 2 (2 * (m / 2 ^ suc n))))

  power_loop-power :
      (n r : ℕ) → n ≤ 64 → r ≡ 2 ^ (m / 2 ^ n) % phi → power_loop g phi m n r ≡ 2 ^ m % phi
  unfolding power_loop
  power_loop-power zero r h e = e ∙ ap (λ (t : ℕ). 2 ^ t % phi) (omega arith)
  power_loop-power (suc n) r h e =
      power_loop-power n (square_and_multiply g phi m n r) (omega arith)
        (square_and_multiply-power n r h e)

module _ (g : Gcrypt) (numbers : IsArithmetic g) where
  -- For p above 2 and an exponent m below 2^63, twopowmodphi gives 2^m mod (p - 1).
  pub twopowmodphi_lem :
      (m p : ℕ) → 2 < p → m < 2 ^ 63 → twopowmodphi g m p ≡ some (2 ^ m % (p - 1))
  unfolding twopowmodphi
  twopowmodphi_lem m p hp hm =
      let (n, counted, above, within) = count_bits-found 63 0 m hm in
      rw (counted, numbers.sub_law p 1 (omega arith))
        (ap some
          (power_loop-power g numbers (p - 1) m (omega arith) n 1 (omega arith) (start n above)))
    where
      start : (n : ℕ) → m < 2 ^ n → 1 ≡ 2 ^ (m / 2 ^ n) % (p - 1)
      start n above =
          sym (mod-eq_of_lt (omega arith))
          ∙ ap (λ (t : ℕ). 2 ^ t % (p - 1)) (sym (div-eq_of_lt above))

module _ (g : Gcrypt) where
  -- For an exponent of 2^63 or more the bit count of twopowmodphi shifts by 64, which C leaves
  -- undefined.
  pub twopowmodphi-overflow : (m p : ℕ) → 2 ^ 63 ≤ m → twopowmodphi g m p ≡ none
  unfolding twopowmodphi
  twopowmodphi-overflow m p h = rw (count_bits-none 64 0 m (omega arith))
