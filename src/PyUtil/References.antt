-- ===== src/PyUtil/References.antt =====
-- Reference counts of Python objects, and cleanup_Py_DECREFp of systemd/pyutil.c. An object is a
-- number.
use python_systemd.Base.{
  ℕ, ◌+◌, ◌-◌, ◌<◌, ◌≡◌, refl, true, false, Option, none, some, List, [], ◌∷◌, ◌++◌, ◌==◌, ==_iff,
  if◌then◌else◌, arith, Bool-cases, inl, inr,
}
use python_systemd.Base.Buffer.{◌>>=◌}

abbrev pub Counts : Type 0
Counts = ℕ → ℕ

-- One for the object itself.
abbrev pub unit_at : ℕ → ℕ → ℕ
unit_at o p = if p == o then 1 else 0

abbrev pub occurrences : ℕ → List ℕ → ℕ
occurrences p [] = 0
occurrences p (o ∷ objects) = unit_at o p + occurrences p objects

-- Py_INCREF; a new object has one reference.
unfoldable pub incref : ℕ → Counts → Counts
incref o c p = c p + unit_at o p

-- Py_DECREF; `none` is a reference that was not held.
unfoldable pub decref : ℕ → Counts → Option Counts
decref o c = if c o == 0 then none else some (λ p. c p - unit_at o p)

-- The argument points to NULL, or to an object.
unfoldable pub cleanup_decref : Option ℕ → Counts → Option Counts
cleanup_decref none c = some c
cleanup_decref (some o) c = decref o c

unfoldable pub decref_all : List ℕ → Counts → Option Counts
decref_all [] c = some c
decref_all (o ∷ objects) c = decref o c >>= decref_all objects

pub occurrences-append :
    (p : ℕ) (xs ys : List ℕ) → occurrences p (xs ++ ys) ≡ occurrences p xs + occurrences p ys
occurrences-append p [] ys = omega arith
occurrences-append p (x ∷ xs) ys = omega (arith, occurrences-append p xs ys)

pub unit_at_self : (o : ℕ) → unit_at o o ≡ 1
unit_at_self o = rw ((==_iff o o).1 refl) refl

pub decref-counts :
    (o : ℕ) (c : Counts)
    → 0 < c o
    → (d : Counts) × (decref o c ≡ some d) × ((p : ℕ) → c p ≡ d p + unit_at o p)
unfolding decref
decref-counts o c h =
    (λ p. c p - unit_at o p, rw (let e : (c o == 0) ≡ false = ground arith in e) refl, counted)
  where
    counted : (p : ℕ) → c p ≡ c p - unit_at o p + unit_at o p
    counted p = elim (Bool-cases (p == o)) [
      | inl here ↦ let e : p ≡ o = (==_iff p o).0 here in rw here (rw e (omega arith))
      | inr there ↦ rw there (omega arith)
    ]

-- Releasing what is held, with its repetitions.
pub decref_all-counts :
    (objects : List ℕ) (c : Counts)
    → ((p : ℕ) → (k : ℕ) × (c p ≡ k + occurrences p objects))
    → (d : Counts) × (decref_all objects c ≡ some d) × ((p : ℕ) → c p ≡ d p + occurrences p objects)
unfolding decref_all
decref_all-counts [] c h = (c, refl, λ p. omega arith)
decref_all-counts (o ∷ objects) c h =
    let (k, e) = h o in
    let (d, first, counted) = decref-counts o c (omega (arith, e, unit_at_self o)) in
    let (d', rest, left) =
      decref_all-counts objects d (λ p. let (k, e) = h p in (k, omega (arith, e, counted p))) in
    (d', rw first rest, λ p. omega (arith, counted p, left p))

-- Releasing a list, a dictionary or a module, which releases its items when it goes.
unfoldable pub release_container : (o : ℕ) → (items : List ℕ) → Counts → Option Counts
release_container o items c =
    decref o c >>= λ d. let gone = decref_all items d in if d o == 0 then gone else some d

-- Where the one reference to the container is released, its items are too.
pub release_container-counts :
    (o : ℕ) (items : List ℕ) (b c : Counts)
    → c o ≡ 1
    → ((p : ℕ) → c p ≡ b p + unit_at o p + occurrences p items)
    → (d : Counts) × (release_container o items c ≡ some d) × ((p : ℕ) → d p ≡ b p)
unfolding release_container
release_container-counts o items b c alone h =
    let (d, first, left) = decref-counts o c (omega (arith, alone)) in
    let (e, second, over) = decref_all-counts items d (λ p. (b p, omega (arith, h p, left p))) in
    let gone : (d o == 0) ≡ true =
      (==_iff (d o) 0).1 (omega (arith, alone, left o, unit_at_self o)) in
    (e, rw (first, gone, second) refl, λ p. omega (arith, h p, left p, over p))
