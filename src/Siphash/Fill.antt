-- ===== src/Siphash/Fill.antt =====
-- The loop of `siphash24_compress` that fills the padding, against the bytewise reference.
use Prim.Native.Nat.{bit_or}
use native.Mathlib.Nat.{one-le-pow}
use python_systemd.Base.{
  ℕ, suc, ◌+◌, ◌-◌, ◌*◌, ◌%◌, ◌^◌, ◌<◌, ◌≤◌, ◌≡◌, refl, ◌∙◌, ap, inl, inr, true, false, List, [],
  ◌∷◌, length, arith, ltb, ◌==◌, if◌then◌else◌, Bool-cases, lt→ltb, ==_iff,
}
use python_systemd.Base.Word.{u64, ◌<<<◌}
use python_systemd.Base.Bits.{bit_or-disjoint, pow-add}
use python_systemd.Siphash.{Siphash, absorb, fill_padding}
use python_systemd.Siphash.Feed.{IsBytes, IsState, with_pending, feed, feed_byte, absorb-pending}

-- What the reference has done when the fill loop has left `rest` at level `left`.
abbrev pub after_fill : Siphash → ℕ → ℕ → List ℕ × ℕ × ℕ → Siphash
after_fill s partial whole (rest, left, padding) =
    if ltb left 8
    then with_pending s padding partial
    else feed rest (with_pending (absorb padding s) 0 whole)

pub byte_weight :
    (left p b : ℕ) → b < 256 → p < 2 ^ (left * 8) → p + b * 2 ^ (left * 8) < 2 ^ ((left + 1) * 8)
byte_weight left p b hb hp = grind (
  arith,
  ap (λ (t : ℕ). 2 ^ t) (let e : (left + 1) * 8 ≡ left * 8 + 8 = omega arith in e),
  pow-add (left * 8) 8,
)

-- One byte below the last place of a word.
feed_byte-below :
    (s : Siphash) (b left p n : ℕ)
    → n % 8 ≡ left
    → left < 7
    → feed_byte b (with_pending s p n) ≡ with_pending s (p + b * 2 ^ (left * 8)) (u64 (n + 1))
unfolding feed_byte
feed_byte-below s b left p n e h = rw e (ground arith)

-- The byte that completes a word.
feed_byte-last :
    (s : Siphash) (b p n : ℕ)
    → n % 8 ≡ 7
    → feed_byte b (with_pending s p n) ≡ with_pending (absorb (p + b * 2 ^ 56) s) 0 (u64 (n + 1))
unfolding feed_byte
feed_byte-last s b p n e =
    rw e
      (ap (λ (t : Siphash). with_pending t 0 (u64 (n + 1))) (absorb-pending (p + b * 2 ^ 56) s p n))

fill_padding-full : (bytes : List ℕ) (p : ℕ) → fill_padding bytes 8 p ≡ (bytes, 8, p)
unfolding fill_padding
fill_padding-full [] p = refl
fill_padding-full (b ∷ bytes) p = refl

-- The padding takes a byte by `|`; the places do not overlap, so the reference's sum is the same.
pub or_byte :
    (left p b : ℕ) → p < 2 ^ (left * 8) → bit_or p (b <<< left * 8) ≡ p + b * 2 ^ (left * 8)
or_byte left p b h = omega (arith, bit_or-disjoint (left * 8) p b h)

-- From level `left` below 8 the loop does what the reference does.
pub fill_padding-feed :
    (bytes : List ℕ) (s : Siphash) (left p n : ℕ)
    → left < 8
    → n % 8 ≡ left
    → n < 2 ^ 64
    → p < 2 ^ (left * 8)
    → IsBytes bytes
    → feed bytes (with_pending s p n)
      ≡ after_fill s (u64 (n + length bytes)) (u64 (n + (8 - left))) (fill_padding bytes left p)
unfolding fill_padding
fill_padding-feed [] s left p n low e hn hp hb =
    rw (lt→ltb left 8 low) (ap (with_pending s p) (omega arith))
fill_padding-feed (b ∷ bytes) s left p n low e hn hp hb = elim (Bool-cases (left == 7)) [
  | inl last ↦
      let seven : left ≡ 7 = (==_iff left 7).0 last in
      rw (
        lt→ltb left 8 low,
        or_byte left p b hp,
        seven,
        fill_padding-full bytes,
        feed_byte-last s b p n (e ∙ seven),
      )
  | inr below ↦
      let low' : left < 7 = ground arith in
      rw
        (
          lt→ltb left 8 low,
          or_byte left p b hp,
          feed_byte-below s b left p n e low',
          let k : u64 (n + suc (length bytes)) ≡ u64 (u64 (n + 1) + length bytes) = omega arith in
              k,
          let k : u64 (n + (8 - left)) ≡ u64 (u64 (n + 1) + (8 - (left + 1))) = omega arith in k,
        )
        (fill_padding-feed bytes s (left + 1) (p + b * 2 ^ (left * 8)) (u64 (n + 1)) (omega arith)
          (omega arith) (omega arith) (byte_weight left p b hb.0 hp) hb.1)
]

-- How the fill loop stops: out of bytes below the eighth place, or at it.
pub record IsFilled (bytes : List ℕ) (left : ℕ) (r : List ℕ × ℕ × ℕ) : Type 0 where
  pub bytes_left : IsBytes r.0
  pub used_up : ltb r.1 8 ≡ true → r.0 ≡ []
  pub taken : ltb r.1 8 ≡ false → length r.0 + 8 ≡ length bytes + left

pub fill_padding-IsFilled :
    (bytes : List ℕ) (left p : ℕ)
    → left ≤ 8
    → IsBytes bytes
    → IsFilled bytes left (fill_padding bytes left p)
unfolding fill_padding
fill_padding-IsFilled [] left p h hb = record {
  bytes_left = tt;
  used_up = λ _. refl;
  taken = λ e. ground arith;
}
fill_padding-IsFilled (b ∷ bytes) left p h hb = elim (Bool-cases (ltb left 8)) [
  | inl low ↦
      let rest =
        fill_padding-IsFilled bytes (left + 1) (bit_or p (b <<< left * 8)) (ground arith) hb.1 in
      rw low (record {
        bytes_left = rest.bytes_left;
        used_up = rest.used_up;
        taken = λ e. omega (arith, rest.taken e);
      })
  | inr full ↦ rw full (record { bytes_left = hb; used_up = λ e. cc; taken = λ e. ground arith })
]

-- A byte keeps the padding within the places that the count leaves for it.
pub feed_byte-IsState : (b : ℕ) (s : Siphash) → b < 256 → IsState s → IsState (feed_byte b s)
feed_byte-IsState b s hb valid = elim (Bool-cases (s.inlen % 8 == 7)) [
  | inl last ↦
      rw (feed_byte-last s b s.padding s.inlen ((==_iff _ 7).0 last))
        (record { fits = one-le-pow _ 2 (omega arith); counted = omega arith })
  | inr below ↦
      rw (feed_byte-below s b (s.inlen % 8) s.padding s.inlen refl (ground arith)) (record {
        fits =
            rw (let e : u64 (s.inlen + 1) % 8 ≡ s.inlen % 8 + 1 = ground arith in e)
              (byte_weight (s.inlen % 8) s.padding b hb valid.fits);
        counted = omega arith;
      })
]

pub feed-IsState :
    (bytes : List ℕ) (s : Siphash) → IsState s → IsBytes bytes → IsState (feed bytes s)
feed-IsState [] s valid hb = valid
feed-IsState (b ∷ bytes) s valid hb =
    feed-IsState bytes (feed_byte b s) (feed_byte-IsState b s hb.0 valid) hb.1
