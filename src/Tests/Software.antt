-- ===== src/Tests/Software.antt =====
-- A concrete Gcrypt, on which the theorems about systemd/fsprg.c are applied: the arithmetic of the
-- manual, and a digest that is not SHA-256.
use native.Mathlib.Nat.{pow-suc, pow-zero, pow-le-pow_right, mod-lt}
use native.Mathlib.Decide.{dec_lt}
use python_systemd.Base.Mod.{mul-mod}
use python_systemd.Base.{
  ℕ, zero, suc, ◌+◌, ◌-◌, ◌*◌, ◌/◌, ◌%◌, ◌^◌, ◌≤◌, ◌<◌, ◌≡◌, refl, ap, ◌∙◌, Bool, true, false, not,
  ◌&&◌, List, [], ◌∷◌, ◌++◌, length, ◌==◌, Bool-cases, inl, inr, arith, if◌then◌else◌,
  length-append, ==_iff,
}
use python_systemd.Base.Bits.{pow-add}
use python_systemd.Fsprg.Gcrypt.{
  Gcrypt, IsArithmetic, IsFormat, IsDigest, IsSize, IsBytes, be_value, be_value_from,
}

unfoldable pub count : ℕ → ℕ → ℕ
count zero x = 0
count (suc left) x = let rest = count left (x / 2) in if x == 0 then 0 else suc rest

count-above : (left x : ℕ) → x ≤ left → x < 2 ^ count left x
unfolding count
count-above zero x h = omega (arith, pow-zero 2)
count-above (suc left) x h =
    let half = count-above left (x / 2) (omega arith) in
    elim (Bool-cases (x == 0)) [
      | inl none_left ↦
          rw none_left (let e : x ≡ 0 = (==_iff x 0).0 none_left in omega (arith, e, pow-zero 2))
      | inr more ↦ rw (more, pow-suc 2 (count left (x / 2))) (omega (arith, half))
    ]

count-least : (left x k : ℕ) → x < 2 ^ k → count left x ≤ k
unfolding count
count-least zero x k h = omega arith
count-least (suc left) x zero h = let e : x ≡ 0 = omega (arith, pow-zero 2) in rw (e) (omega arith)
count-least (suc left) x (suc k) h =
    let half = count-least left (x / 2) k (omega (arith, pow-suc 2 k)) in
    elim (Bool-cases (x == 0)) [
      | inl none_left ↦ rw none_left (omega arith)
      | inr more ↦ rw more (omega (arith, half))
    ]

count-most : (x k : ℕ) → 2 ^ k ≤ x → k < count x x
count-most x k h = elim (dec_lt k (count x x)) [
  | yes below ↦ below
  | no above ↦ absurd (
      let wide = pow-le-pow_right {n = 2} (omega arith) {i = count x x} {j = k} (omega arith) in
      omega (arith, count-above x x (omega arith), wide))
]

unfoldable pub be_bytes : ℕ → ℕ → List ℕ
be_bytes zero x = []
be_bytes (suc n) x = be_bytes n (x / 256) ++ (x % 256 ∷ [])

be_bytes-length : (n x : ℕ) → length (be_bytes n x) ≡ n
unfolding be_bytes
be_bytes-length zero x = refl
be_bytes-length (suc n) x =
    omega (arith, length-append (be_bytes n (x / 256)) (x % 256 ∷ []), be_bytes-length n (x / 256))

snoc-IsBytes : (bytes : List ℕ) (b : ℕ) → IsBytes bytes → b < 256 → IsBytes (bytes ++ (b ∷ []))
snoc-IsBytes [] b h hb = (hb, tt)
snoc-IsBytes (x ∷ bytes) b h hb = (h.0, snoc-IsBytes bytes b h.1 hb)

be_bytes-IsBytes : (n x : ℕ) → IsBytes (be_bytes n x)
unfolding be_bytes
be_bytes-IsBytes zero x = tt
be_bytes-IsBytes (suc n) x =
    snoc-IsBytes (be_bytes n (x / 256)) (x % 256) (be_bytes-IsBytes n (x / 256)) (omega arith)

be_value-snoc :
    (acc : ℕ) (bytes : List ℕ) (b : ℕ)
    → be_value_from acc (bytes ++ (b ∷ [])) ≡ be_value_from acc bytes * 256 + b
be_value-snoc acc [] b = refl
be_value-snoc acc (x ∷ bytes) b = be_value-snoc (acc * 256 + x) bytes b

be_bytes-value : (n x : ℕ) → x < 2 ^ (8 * n) → be_value (be_bytes n x) ≡ x
unfolding be_bytes
be_bytes-value zero x h =
    omega (arith, ap (λ (t : ℕ). 2 ^ t) (let e : 8 * 0 ≡ 0 = omega arith in e), pow-zero 2)
be_bytes-value (suc n) x h =
    let place : 2 ^ (8 * suc n) ≡ 256 * 2 ^ (8 * n) =
      ap (λ (t : ℕ). 2 ^ t) (let e : 8 * suc n ≡ 8 + 8 * n = omega arith in e)
      ∙ pow-add 8 (8 * n) in
    be_value-snoc 0 (be_bytes n (x / 256)) (x % 256)
    ∙ ap (λ (v : ℕ). v * 256 + x % 256) (be_bytes-value n (x / 256) (omega (arith, place)))
    ∙ omega arith

unfoldable pub inverse_below : ℕ → ℕ → ℕ → ℕ
inverse_below a m zero = 0
inverse_below a m (suc v) = let rest = inverse_below a m v in if a * v % m == 1 then v else rest

earlier : (a m n v : ℕ) → v < suc n → a * v % m ≡ 1 → (a * n % m == 1) ≡ false → v < n
earlier a m n v h e other = elim (Bool-cases (v == n)) [
  | inl same ↦
      let moved : a * v % m ≡ a * n % m = ap (λ (t : ℕ). a * t % m) ((==_iff v n).0 same) in
      ground (arith, moved)
  | inr apart ↦ ground (arith, apart)
]

inverse_below-found : (a m n v : ℕ) → v < n → a * v % m ≡ 1 → a * inverse_below a m n % m ≡ 1
unfolding inverse_below
inverse_below-found a m zero v h e = absurd (omega arith)
inverse_below-found a m (suc n) v h e =
    let found = inverse_below-found a m n v in
    elim (Bool-cases (a * n % m == 1)) [
      | inl here ↦ rw here ((==_iff (a * n % m) 1).0 here)
      | inr other ↦ rw other (found (earlier a m n v h e other) e)
    ]

residue-inverse : (a v m : ℕ) → 1 < m → a * v % m ≡ 1 → a * inverse_below a m m % m ≡ 1
residue-inverse a v m h e =
    inverse_below-found a m m (v % m) (mod-lt v (omega arith)) (mul-mod a v m ∙ e)

-- Whether none of 2, ..., d + 1 divides `p`.
unfoldable pub no_divisor : ℕ → ℕ → Bool
no_divisor p zero = true
no_divisor p (suc d) = not (p % (d + 2) == 0) && no_divisor p d

size-fits : (x : ℕ) → x < 2 ^ (8 * ((count x x + 7) / 8))
size-fits x =
    let more =
      pow-le-pow_right {n = 2} (omega arith) {i = count x x} {j = 8 * ((count x x + 7) / 8)}
        (omega arith) in
    omega (arith, count-above x x (omega arith), more)

-- With any digest.
abbrev pub computing : (List ℕ → List ℕ) → Gcrypt
computing hash = record {
  mpi_get_nbits = λ x. count x x;
  mpi_print = λ x. be_bytes ((count x x + 7) / 8) x;
  mpi_scan = be_value;
  mpi_add = λ u v. u + v;
  mpi_sub = λ u v. u - v;
  mpi_mul = λ u v. u * v;
  mpi_mod = λ u m. u % m;
  mpi_mulm = λ u v m. u * v % m;
  mpi_subm = λ u v m. (u + (m - v % m)) % m;
  mpi_powm = λ b e m. b ^ e % m;
  mpi_invm = λ a m. inverse_below a m m;
  prime_check = λ p. no_divisor p (p - 2);
  md_get_algo_dlen = 32;
  md_hash = hash;
}

pub computing-IsArithmetic : (hash : List ℕ → List ℕ) → IsArithmetic (computing hash)
computing-IsArithmetic hash = record {
  add_law = λ u v. refl;
  sub_law = λ u v h. refl;
  mul_law = λ u v. refl;
  mod_law = λ u m h. refl;
  mulm_law = λ u v m h. refl;
  subm_law = λ u v m h. refl;
  powm_law = λ b e m h. refl;
  invm_law = residue-inverse;
}

pub computing-IsFormat : (hash : List ℕ → List ℕ) → IsFormat (computing hash)
computing-IsFormat hash = record {
  scan_law = λ bytes h. refl;
  print-IsBytes = λ x. be_bytes-IsBytes _ x;
  print_law = λ x. be_bytes-value _ x (size-fits x);
  print_length = λ x. be_bytes-length _ x;
  nbits_law = λ x k h. count-least x x k h;
}

pub computing-IsSize : (hash : List ℕ → List ℕ) → IsSize (computing hash)
computing-IsSize hash = record { nbits_least = λ x k h. count-most x k h }

-- The digest of the bytes as a number.
abbrev pub software : Gcrypt
software = computing λ bytes. be_bytes 32 (be_value bytes)

pub software-IsArithmetic : IsArithmetic software
software-IsArithmetic = computing-IsArithmetic _

pub software-IsFormat : IsFormat software
software-IsFormat = computing-IsFormat _

pub software-IsDigest : IsDigest software
software-IsDigest = record {
  dlen_law = refl;
  digest_length = λ bytes. be_bytes-length 32 _;
  digest-IsBytes = λ bytes. be_bytes-IsBytes 32 _;
}

-- A digest whose first byte tells the index that FSPRG hashes.
abbrev pub indexed : Gcrypt
indexed = computing λ bytes. be_bytes 32 (be_value bytes * (16 * 256 ^ 27))

pub indexed-IsDigest : IsDigest indexed
indexed-IsDigest = record {
  dlen_law = refl;
  digest_length = λ bytes. be_bytes-length 32 _;
  digest-IsBytes = λ bytes. be_bytes-IsBytes 32 _;
}
