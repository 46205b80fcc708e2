-- ===== src/Fsprg/Random/Found.antt =====
-- What a search for a prime has found when it returns.
use python_systemd.Base.{
  ℕ, zero, suc, ◌+◌, ◌-◌, ◌*◌, ◌%◌, ◌^◌, ◌≤◌, ◌<◌, ◌≡◌, ◌∙◌, sym, some, List, arith, Bool-cases,
  inl, inr,
}
use python_systemd.Fsprg.Gcrypt.{Gcrypt, IsArithmetic, IsFormat, IsDigest}
use python_systemd.Fsprg.Random.{next_prime, genprime3mod4}
use python_systemd.Fsprg.Random.Primes.{IsPrime, genprime3mod4-IsStart}

module _ (g : Gcrypt) (numbers : IsArithmetic g) where
  next_prime-returns :
      (tries start p : ℕ)
      → next_prime g tries start ≡ some p
      → (i : ℕ) × (p ≡ start + 4 * i) × IsPrime g p
  unfolding next_prime
  next_prime-returns zero start p e = absurd (ground arith)
  next_prime-returns (suc tries) start p e = elim (Bool-cases (g.prime_check start)) [
    | inl here ↦ (0, ground (arith, here), ground (arith, here))
    | inr further ↦
        let (i, at, prime) =
          next_prime-returns tries (start + 4) p (rw (further, numbers.add_law start 4) at e) in
        (suc i, omega (arith, at), prime)
  ]

module _ (g : Gcrypt) (numbers : IsArithmetic g) (format : IsFormat g) (digest : IsDigest g) where
  pub genprime3mod4-returns :
      (bits : ℕ) (seed : List ℕ) (idx tries p : ℕ)
      → bits % 8 ≡ 0
      → 0 < bits
      → genprime3mod4 g tries bits seed idx ≡ some p
      → (p % 4 ≡ 3) × (3 * 2 ^ (bits - 2) ≤ p) × IsPrime g p
  genprime3mod4-returns bits seed idx tries p whole positive found =
      let (start, s) = genprime3mod4-IsStart g format digest bits seed idx whole positive in
      let (i, at, prime) =
        next_prime-returns g numbers tries start p (sym (s.searches tries) ∙ found) in
      (omega (arith, at, s.three_mod_four), omega (arith, at, s.upper_two), prime)
