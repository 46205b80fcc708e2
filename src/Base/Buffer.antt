-- ===== src/Base/Buffer.antt =====
-- Memory of the C sources as lists of bytes, and computations that may stop: `none` is a failed
-- assertion, an access out of bounds or another step that C leaves undefined.
use Prim.Native.Nat.{ℕ, ◌+◌, ◌≤◌}
use mathlib.Core.Path.{◌≡◌, refl, ap, sym, ◌∙◌}
use mathlib.Core.Bool.{Bool, true, false}
use mathlib.Core.Option.{Option, none, some}
use mathlib.Core.List.{List, [], ◌∷◌, ◌++◌, append_assoc}
use native.Mathlib.Omega.{arith}
use python_systemd.Base.Tests.{leb, if◌then◌else◌}
use python_systemd.Base.Lists.{length, take, drop, length-append, take-append-drop}

infixl 5 ◌>>=◌ ◌>>◌
abbrev pub ◌>>=◌ : {A B : Type 0} → Option A → (A → Option B) → Option B
none >>= f = none
some a >>= f = f a

abbrev pub ◌>>◌ : {B : Type 0} → Option (Unit {0}) → Option B → Option B
m >> k = m >>= λ _. k

pub >>=-assoc :
    {A B C : Type 0} (m : Option A) (f : A → Option B) (g : B → Option C)
    → (m >>= λ a. f a >>= g) ≡ ((m >>= f) >>= g)
>>=-assoc none f g = refl
>>=-assoc (some a) f g = refl

-- assert(e)
abbrev pub assert : Bool → Option (Unit {0})
assert true = some tt
assert false = none

-- The `len` bytes at `buf + off`.
unfoldable pub read_at : ℕ → ℕ → List ℕ → Option (List ℕ)
read_at off len buf = if leb (off + len) (length buf) then some (take len (drop off buf)) else none

-- memcpy(buf + off, bytes, length)
unfoldable pub write_at : ℕ → List ℕ → List ℕ → Option (List ℕ)
write_at off bytes buf =
    if leb (off + length bytes) (length buf)
    then some (take off buf ++ (bytes ++ drop (off + length bytes) buf))
    else none

pub drop-append : (xs ys : List ℕ) → drop (length xs) (xs ++ ys) ≡ ys
drop-append [] ys = refl
drop-append (x ∷ xs) ys = drop-append xs ys

pub take-append : (xs ys : List ℕ) → take (length xs) (xs ++ ys) ≡ xs
take-append [] ys = refl
take-append (x ∷ xs) ys = ap (λ (t : List ℕ). x ∷ t) (take-append xs ys)

-- A field that stands between two others is read back, and written over.
pub read_at-field :
    (xs field ys : List ℕ) (off len : ℕ)
    → off ≡ length xs
    → len ≡ length field
    → read_at off len (xs ++ (field ++ ys)) ≡ some field
unfolding read_at
read_at-field xs field ys off len e f =
    rw (e, f, drop-append xs (field ++ ys), take-append field ys, fits)
  where
    fits : leb (length xs + length field) (length (xs ++ (field ++ ys))) ≡ true
    fits = ground (arith, length-append xs (field ++ ys), length-append field ys)

drop-two : (xs field ys : List ℕ) → drop (length xs + length field) (xs ++ (field ++ ys)) ≡ ys
drop-two xs field ys =
    ap (λ (t : ℕ). drop t (xs ++ (field ++ ys))) (omega (arith, length-append xs field))
    ∙ ap (λ (t : List ℕ). drop (length (xs ++ field)) t) (sym (append_assoc xs field ys))
    ∙ drop-append (xs ++ field) ys

pub write_at-field :
    (xs field new ys : List ℕ) (off : ℕ)
    → off ≡ length xs
    → length new ≡ length field
    → write_at off new (xs ++ (field ++ ys)) ≡ some (xs ++ (new ++ ys))
unfolding write_at
write_at-field xs field new ys off e f =
    rw (e, f, drop-two xs field ys, take-append xs (field ++ ys), fits)
  where
    fits : leb (length xs + length field) (length (xs ++ (field ++ ys))) ≡ true
    fits = ground (arith, length-append xs (field ++ ys), length-append field ys)

-- The same behind two and three other fields.
module _ (a b c d : List ℕ) where
  pub read_at-second :
      (off len : ℕ)
      → off ≡ length a + length b
      → len ≡ length c
      → read_at off len (a ++ (b ++ (c ++ d))) ≡ some c
  read_at-second off len e f =
      ap (read_at off len) (sym (append_assoc a b (c ++ d)))
      ∙ read_at-field (a ++ b) c d off len (omega (arith, length-append a b)) f

  pub write_at-second :
      (new : List ℕ) (off : ℕ)
      → off ≡ length a + length b
      → length new ≡ length c
      → write_at off new (a ++ (b ++ (c ++ d))) ≡ some (a ++ (b ++ (new ++ d)))
  write_at-second new off e f =
      ap (write_at off new) (sym (append_assoc a b (c ++ d)))
      ∙ write_at-field (a ++ b) c new d off (omega (arith, length-append a b)) f
      ∙ ap some (append_assoc a b (new ++ d))

module _ (a b c d e : List ℕ) where
  pub read_at-third :
      (off len : ℕ)
      → off ≡ length a + length b + length c
      → len ≡ length d
      → read_at off len (a ++ (b ++ (c ++ (d ++ e)))) ≡ some d
  read_at-third off len p q =
      ap (read_at off len) (sym (append_assoc a b (c ++ (d ++ e))))
      ∙ read_at-second (a ++ b) c d e off len (omega (arith, length-append a b)) q

  pub write_at-third :
      (new : List ℕ) (off : ℕ)
      → off ≡ length a + length b + length c
      → length new ≡ length d
      → write_at off new (a ++ (b ++ (c ++ (d ++ e)))) ≡ some (a ++ (b ++ (c ++ (new ++ e))))
  write_at-third new off p q =
      ap (write_at off new) (sym (append_assoc a b (c ++ (d ++ e))))
      ∙ write_at-second (a ++ b) c d e new off (omega (arith, length-append a b)) q
      ∙ ap some (append_assoc a b (c ++ (new ++ e)))

-- A buffer that is long enough has a field of any length at its start.
pub split_at : (n : ℕ) (buf : List ℕ) → n ≤ length buf → take n buf ++ drop n buf ≡ buf
split_at n buf h = take-append-drop n buf

-- A computation that returns has returned from its first step.
pub >>=-some :
    {A B : Type 0} (m : Option A) (f : A → Option B) {b : B}
    → (m >>= f) ≡ some b
    → (a : A) × (m ≡ some a) × (f a ≡ some b)
>>=-some none f e = absurd (ground arith)
>>=-some (some a) f e = (a, refl, e)
