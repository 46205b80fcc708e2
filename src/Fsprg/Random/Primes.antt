-- ===== src/Fsprg/Random/Primes.antt =====
-- `genprime3mod4` of systemd/fsprg.c: where its search begins, and what it finds.
use Prim.Native.Nat.{bit_or}
use python_systemd.Base.{
  ℕ, zero, suc, ◌+◌, ◌-◌, ◌*◌, ◌/◌, ◌%◌, ◌^◌, ◌≤◌, ◌<◌, ◌≡◌, sym, subst, ◌∙◌, ap, inl, inr, true,
  false, Option, none, some, List, [], length, arith, lt→ltb, ==_iff, Bool-cases,
}
use python_systemd.Base.Bits.{pow-add}
use python_systemd.Base.Buffer.{◌>>=◌, >>=-assoc}
use python_systemd.Fsprg.Gcrypt.{Gcrypt, IsDigest, IsArithmetic, IsFormat, be_value}
use python_systemd.Fsprg.Codec.{mpi_import}
use python_systemd.Fsprg.Codec.Laws.{be_value-bounds, mpi_import-value}
use python_systemd.Fsprg.Random.{update_at, det_randomize, next_prime, genprime3mod4}
use python_systemd.Fsprg.Random.Bytes.{det_randomize_prefix}
use python_systemd.Fsprg.Random.Masks.{start_of, IsMasked, masked}

step_four : (p k : ℕ) → p + 4 + 4 * k ≡ p + 4 * suc k
step_four p k = omega arith

module _ (g : Gcrypt) where
  abbrev pub IsPrime : ℕ → Type 0
  IsPrime p = g.prime_check p ≡ true

  -- Where the search begins for a given seed.
  pub record IsStart (bits : ℕ) (seed : List ℕ) (idx start : ℕ) : Type 0 where
    pub searches : (tries : ℕ) → genprime3mod4 g tries bits seed idx ≡ next_prime g tries start
    pub three_mod_four : start % 4 ≡ 3
    pub upper_two : 3 * 2 ^ (bits - 2) ≤ start
    pub in_size : start < 2 ^ bits

  -- `p` is found: a candidate that passes, and none before it does.
  pub record IsFirst (start k p : ℕ) : Type 0 where
    pub index : ℕ
    pub reached : index ≤ k
    pub at_index : p ≡ start + 4 * index
    pub prime : IsPrime p
    pub earlier : (i : ℕ) → i < index → g.prime_check (start + 4 * i) ≡ false

  all_earlier :
      (p j : ℕ)
      → g.prime_check p ≡ false
      → ((i : ℕ) → i < j → g.prime_check (p + 4 + 4 * i) ≡ false)
      → (i : ℕ) → i < suc j
      → g.prime_check (p + 4 * i) ≡ false
  all_earlier p j h rest zero lt = rw (let e : p + 4 * 0 ≡ p = omega arith in e) h
  all_earlier p j h rest (suc i) lt = rw (← step_four p i) (rest i (omega arith))

  IsFirst-suc :
      {start k p : ℕ}
      → g.prime_check start ≡ false
      → IsFirst (start + 4) k p
      → IsFirst start (suc k) p
  IsFirst-suc {start} h f = record {
    index = suc f.index;
    reached = omega (arith, f.reached);
    at_index = omega (arith, f.at_index);
    prime = f.prime;
    earlier = all_earlier start f.index h f.earlier;
  }

module _ (g : Gcrypt) (numbers : IsArithmetic g) where
  -- The search goes through p, p + 4, p + 8, ... and stops at the first prime.
  next_prime-IsFirst :
      (tries k p : ℕ)
      → k < tries
      → IsPrime g (p + 4 * k)
      → (r : ℕ) × (next_prime g tries p ≡ some r) × IsFirst g p k r
  unfolding next_prime
  next_prime-IsFirst zero k p h prime = absurd (omega arith)
  next_prime-IsFirst (suc tries) zero p h prime =
      let here : IsPrime g p = rw (let e : p ≡ p + 4 * 0 = omega arith in e) prime in
      (
        p,
        rw here,
        record {
          index = 0;
          reached = omega arith;
          at_index = omega arith;
          prime = here;
          earlier = λ i lt. absurd (omega arith);
        },
      )
  next_prime-IsFirst (suc tries) (suc k) p h prime = elim (Bool-cases (g.prime_check p)) [
    | inl here ↦ (
      p,
      rw here,
      record {
        index = 0;
        reached = omega arith;
        at_index = omega arith;
        prime = here;
        earlier = λ i lt. absurd (omega arith);
      },
    )
    | inr further ↦
        let (r, found, first) =
          next_prime-IsFirst tries k (p + 4) (omega arith) (rw (step_four p k) prime) in
        (r, rw (further, numbers.add_law p 4) found, IsFirst-suc g further first)
  ]

module _ (g : Gcrypt) (format : IsFormat g) (law : IsDigest g) where
  IsMasked-IsStart :
      (bits : ℕ) (seed : List ℕ) (idx : ℕ) (buf out : List ℕ)
      → bits % 8 ≡ 0
      → 0 < bits
      → det_randomize g (bits / 8) seed idx ≡ some buf
      → IsMasked (bits / 8) buf out
      → IsStart g bits seed idx (be_value out)
  unfolding genprime3mod4
  IsMasked-IsStart bits seed idx buf out e h made m = record {
    searches = λ tries.
        rw ((==_iff _ _).1 e, lt→ltb 0 (bits / 8) (omega arith), made)
          (>>=-assoc (update_at 0 (λ b. bit_or b 0xc0) buf)
              (update_at (bits / 8 - 1) (λ b. bit_or b 0x03))
              (λ buf'. mpi_import g buf' >>= next_prime g tries)
            ∙ rw (m.updates, mpi_import-value g format out m.out_bytes));
    three_mod_four = m.odd_odd;
    upper_two = omega (arith, m.high, exponent);
    in_size = rw exact (omega (arith, (be_value-bounds 0 out m.out_bytes).1, m.out_length));
  }
    where
      exact : 2 ^ bits ≡ 2 ^ (8 * length out)
      exact = ap (λ (t : ℕ). 2 ^ t) (omega (arith, m.out_length))

      exponent : 2 ^ (bits - 2) ≡ 64 * 2 ^ (8 * (bits / 8 - 1))
      exponent =
          ap (λ (t : ℕ). 2 ^ t) (let k : bits - 2 ≡ 6 + 8 * (bits / 8 - 1) = omega arith in k)
          ∙ pow-add 6 (8 * (bits / 8 - 1))

  -- For a positive bit size that is a multiple of 8, genprime3mod4 searches from a number of
  -- that size that is 3 modulo 4 and has its two upper bits set.
  pub genprime3mod4-IsStart :
      (bits : ℕ) (seed : List ℕ) (idx : ℕ)
      → bits % 8 ≡ 0
      → 0 < bits
      → (start : ℕ) × IsStart g bits seed idx start
  genprime3mod4-IsStart bits seed idx e h =
      let (buf, made, full, bytes, _) =
        det_randomize_prefix g law (bits / 8) (bits / 8) seed idx (omega arith) in
      let (out, m) = masked (bits / 8) buf full (omega arith) bytes in
      (be_value out, IsMasked-IsStart bits seed idx buf out e h made m)

  -- The search begins at the number of the pseudorandom buffer with these bits set.
  start_of-IsStart :
      (bits : ℕ) (seed : List ℕ) (idx : ℕ) (buf : List ℕ)
      → bits % 8 ≡ 0
      → 0 < bits
      → det_randomize g (bits / 8) seed idx ≡ some buf
      → IsStart g bits seed idx (start_of buf)
  start_of-IsStart bits seed idx buf e h made =
      let (buf', made', full, bytes, _) =
        det_randomize_prefix g law (bits / 8) (bits / 8) seed idx (omega arith) in
      let same : buf' ≡ buf =
        ap (λ (o : Option (List ℕ)). elim o [ none ↦ [] | some b ↦ b ]) (sym made' ∙ made) in
      let (out, m) = masked (bits / 8) buf' full (omega arith) bytes in
      subst (IsStart g bits seed idx) (m.number ∙ ap start_of same)
        (IsMasked-IsStart bits seed idx buf' out e h made' m)

module _ (g : Gcrypt) (numbers : IsArithmetic g) (format : IsFormat g) (law : IsDigest g) where
  -- For a positive number of bits that is a multiple of 8, with start the number of the bytes
  -- of det_randomize with their two upper and their two lower bits set, if one of the
  -- candidates start + 4 i that are tried passes the test, genprime3mod4 returns the first
  -- that does; it is 3 modulo 4 and at least 3 * 2^(bits - 2).
  pub genprime3mod4_lem :
      (bits : ℕ) (seed : List ℕ) (idx tries k : ℕ) (buf : List ℕ)
      → bits % 8 ≡ 0
      → 0 < bits
      → det_randomize g (bits / 8) seed idx ≡ some buf
      → k < tries
      → IsPrime g (start_of buf + 4 * k)
      → (p : ℕ) × (genprime3mod4 g tries bits seed idx ≡ some p)
        × IsFirst g (start_of buf) k p
        × (p % 4 ≡ 3)
        × (3 * 2 ^ (bits - 2) ≤ p)
  genprime3mod4_lem bits seed idx tries k buf e h made lt prime =
      let s = start_of-IsStart g format law bits seed idx buf e h made in
      let (p, found, first) = next_prime-IsFirst g numbers tries k (start_of buf) lt prime in
      (
        p,
        s.searches tries ∙ found,
        first,
        omega (arith, first.at_index, s.three_mod_four),
        omega (arith, first.at_index, s.upper_two),
      )
