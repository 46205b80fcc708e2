-- ===== src/Reader/Move/Skip.antt =====
-- Directions and distances.
use python_systemd.Base.{
  ℕ, zero, suc, ◌+◌, ◌<◌, ◌^◌, ◌≡◌, refl, sym, ap, ◌∙◌, false, Option, some, arith, ◌==◌,
}
use python_systemd.Base.Int.{ℤ, pos, negsuc, eqb_ℤ}
use python_systemd.PyUtil.{checked, py_bool}
use python_systemd.Reader.{SdJournal}
use python_systemd.Reader.Move.{move, next, previous, move_back, least_int64, neg_int64}

-- Skipping one entry is going to the next, and to the previous one.
pub record IsSkip {H : Type 0} (sd : SdJournal H) : Type 0 where
  pub next_one : (j : H) → sd.next_skip 1 j ≡ sd.next j
  pub previous_one : (j : H) → sd.previous_skip 1 j ≡ sd.previous j

module _ {H : Type 0} (sd : SdJournal H) (law : IsSkip sd) where
  move-pos : (n : ℕ) (j : H) → move sd (pos (suc n)) j ≡ sd.next_skip (suc n) j
  unfolding move
  move-pos zero j = sym (law.next_one j)
  move-pos (suc n) j = rw (let e : (suc (suc n) == 1) ≡ false = ground arith in e) refl

  move-negsuc : (n : ℕ) (j : H) → move sd (negsuc n) j ≡ sd.previous_skip (suc n) j
  unfolding move
  move-negsuc zero j = sym (law.previous_one j)
  move-negsuc (suc n) j =
      rw
        (
          (let e : (suc n == 0) ≡ false = ground arith in e),
          (let e : suc n + 1 ≡ suc (suc n) = omega arith in e),
        )
        refl

  next-pos :
      (n : ℕ) (j : H) → next sd (pos (suc n)) j ≡ checked false py_bool (sd.next_skip (suc n) j)
  unfolding next
  next-pos n j =
      rw
        (
          (let e : eqb_ℤ (pos (suc n)) (pos 0) ≡ false = ground arith in e),
          (let e : eqb_ℤ (pos (suc n)) least_int64 ≡ false = ground arith in e),
        )
        (ap (checked false py_bool) (move-pos n j))

  next-negsuc :
      (n : ℕ) (j : H)
      → suc n < 2 ^ 63
      → next sd (negsuc n) j ≡ checked false py_bool (sd.previous_skip (suc n) j)
  unfolding next
  next-negsuc n j fits =
      rw
        (
          (let e : eqb_ℤ (negsuc n) (pos 0) ≡ false = ground arith in e),
          (let e : eqb_ℤ (negsuc n) least_int64 ≡ false = ground (arith, fits) in e),
        )
        (ap (checked false py_bool) (move-negsuc n j))

  -- Where skipping one entry is a single move, _next by n and _previous by -n go n entries
  -- forward, _next by -n and _previous by n go n entries back, for n from 1 to 2^63 - 1.
  pub next-previous :
      (n : ℕ) (j : H)
      → suc n < 2 ^ 63
      → (next sd (pos (suc n)) j ≡ checked false py_bool (sd.next_skip (suc n) j))
        × (previous sd (negsuc n) j ≡ checked false py_bool (sd.next_skip (suc n) j))
        × (next sd (negsuc n) j ≡ checked false py_bool (sd.previous_skip (suc n) j))
        × (previous sd (pos (suc n)) j ≡ checked false py_bool (sd.previous_skip (suc n) j))
  unfolding previous
  next-previous n j fits = (
    next-pos n j,
    ap (λ (z : Option ℤ). move_back sd z j)
          (let e : neg_int64 (negsuc n) ≡ some (pos (suc n)) = ground arith in e)
        ∙ next-pos n j,
    next-negsuc n j fits,
    ap (λ (z : Option ℤ). move_back sd z j)
          (let e : neg_int64 (pos (suc n)) ≡ some (negsuc n) = ground arith in e)
        ∙ next-negsuc n j fits,
  )
