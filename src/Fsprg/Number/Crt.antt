-- ===== src/Fsprg/Number/Crt.antt =====
-- `CRT_decompose` and `CRT_compose`: the Chinese remainder theorem for the two primes of a key.
use native.Mathlib.Nat.{
  div-add-mod, add-mul-mod_self_left, mul-add-mod_self_left, mod-add-mod, mod-eq_of_lt, mod-lt,
  div-lt_iff_lt-mul, mul-le-mul_left, mod-mod,
}
use python_systemd.Base.{ℕ, ◌+◌, ◌-◌, ◌*◌, ◌/◌, ◌%◌, ◌≤◌, ◌<◌, ◌≡◌, ◌∙◌, sym, ap, arith}
use python_systemd.Base.Mod.{mod-mul, mul-mod}
use python_systemd.Fsprg.Gcrypt.{Gcrypt, IsArithmetic}
use python_systemd.Fsprg.Number.{crt_decompose, crt_compose}

-- Taking a residue away again.
sub-residue : (y r q : ℕ) → 0 < q → ((y + r) % q + (q - r % q)) % q ≡ y % q
sub-residue y r q h =
    mod-add-mod (y + r) q (q - r % q)
    ∙ ap (λ (t : ℕ). t % q) (omega (arith, div-add-mod r q, mod-lt r h))
    ∙ add-mul-mod_self_left y q (r / q + 1)

-- p is invertible modulo q.
abbrev pub Invertible : ℕ → ℕ → Type 0
Invertible p q = (v : ℕ) × (p * v % q ≡ 1)

module _ (g : Gcrypt) (numbers : IsArithmetic g) (p q : ℕ) (hp : 0 < p) (hq : 1 < q)
    (inverse : Invertible p q) where
  -- Division by p modulo q.
  divide : (k : ℕ) → p * k % q * g.mpi_invm p q % q ≡ k % q
  divide k =
      let u : ℕ = g.mpi_invm p q in
      mod-mul (p * k) u q
      ∙ ap (λ (t : ℕ). t % q) (omega arith)
      ∙ sym (mod-mul (p * u) k q)
      ∙ ap (λ (t : ℕ). t * k % q) (numbers.invm_law p inverse.0 q hq inverse.1)
      ∙ ap (λ (t : ℕ). t % q) (omega arith)

  compose_sum :
      (xp xq : ℕ)
      → crt_compose g xp xq p q ≡ p * ((xq + (q - xp % q)) % q * g.mpi_invm p q % q) + xp
  unfolding crt_compose
  compose_sum xp xq =
      let d : ℕ = (xq + (q - xp % q)) % q in
      let u : ℕ = g.mpi_invm p q in
      numbers.add_law _ xp
      ∙ ap (λ (t : ℕ). t + xp)
          (numbers.mul_law p _
            ∙ ap (λ (t : ℕ). p * t)
                (numbers.mulm_law _ u q (omega arith)
                  ∙ ap (λ (t : ℕ). t * u % q) (numbers.subm_law xq xp q (omega arith))))

  -- Multiplying by p takes the division back.
  multiply : (d : ℕ) → p * (d * g.mpi_invm p q % q) % q ≡ d % q
  multiply d =
      let u : ℕ = g.mpi_invm p q in
      mul-mod p (d * u) q
      ∙ ap (λ (t : ℕ). t % q) (omega arith)
      ∙ sym (mod-mul (p * u) d q)
      ∙ ap (λ (t : ℕ). t * d % q) (numbers.invm_law p inverse.0 q hq inverse.1)
      ∙ ap (λ (t : ℕ). t % q) (omega arith)

  -- For p > 0 invertible modulo q > 1, CRT_compose gives back any number below p * q from the
  -- residues that CRT_decompose takes.
  pub crt_compose-crt_decompose :
      (x : ℕ) → x < p * q → let (xp, xq) = crt_decompose g x p q in crt_compose g xp xq p q ≡ x
  unfolding crt_decompose
  crt_compose-crt_decompose x h =
      rw (numbers.mod_law x p hp, numbers.mod_law x q (omega arith))
        (compose_sum (x % p) (x % q)
          ∙ ap (λ (t : ℕ). p * (t * g.mpi_invm p q % q) + x % p) residue
          ∙ ap (λ (t : ℕ). p * t + x % p) (divide (x / p) ∙ mod-eq_of_lt quotient)
          ∙ div-add-mod x p)
    where
      residue : (x % q + (q - x % p % q)) % q ≡ p * (x / p) % q
      residue =
          ap (λ (t : ℕ). (t % q + (q - x % p % q)) % q) (sym (div-add-mod x p))
          ∙ sub-residue (p * (x / p)) (x % p) q (omega arith)

      quotient : x / p < q
      quotient = (div-lt_iff_lt-mul hp).1 (omega arith)

  -- For p > 0 invertible modulo q > 1 and residues below p and q, CRT_compose gives a number
  -- below p * q with these residues.
  pub crt_compose_lem :
      (xp xq : ℕ)
      → xp < p
      → xq < q
      → let x = crt_compose g xp xq p q in (x < p * q) × (x % p ≡ xp) × (x % q ≡ xq)
  crt_compose_lem xp xq hxp hxq =
      let d : ℕ = (xq + (q - xp % q)) % q in
      let a : ℕ = d * g.mpi_invm p q % q in
      let below : a < q = mod-lt (d * g.mpi_invm p q) (omega arith) in
      let room : p * (a + 1) ≤ p * q = mul-le-mul_left p (omega arith) in
      rw (compose_sum xp xq) (
        omega (arith, room),
        mul-add-mod_self_left p a xp ∙ mod-eq_of_lt hxp,
        sym (mod-add-mod (p * a) q xp)
            ∙ ap (λ (t : ℕ). (t + xp) % q) (multiply d ∙ mod-mod (xq + (q - xp % q)) q)
            ∙ mod-add-mod (xq + (q - xp % q)) q xp
            ∙ ap (λ (t : ℕ). t % q)
                (omega (arith, div-add-mod xp q, mod-lt xp (let z : 0 < q = omega arith in z)))
            ∙ add-mul-mod_self_left xq q (xp / q + 1)
            ∙ mod-eq_of_lt hxq,
      )
