-- ===== src/Reader/Entry/References/Balance.antt =====
-- The references that a dictionary of an entry holds, slot by slot.
use python_systemd.Base.{
  ℕ, ◌+◌, ◌≤◌, ◌<◌, ◌≡◌, refl, ap, false, some, List, [], ◌∷◌, ◌==◌, arith, Bool-cases, inl, inr,
}
use native.Mathlib.Decide.{dec_lt}
use python_systemd.Base.Bytes.{eq_bytes}
use python_systemd.PyUtil.References.{unit_at, unit_at_self, occurrences}
use python_systemd.Reader.Entry.References.{Held, value_of, list_of, Slot, find, replace, append}

abbrev pub held_references : ℕ → Held → ℕ
held_references p (value_of o) = unit_at o p
held_references p (list_of l items) = unit_at l p + occurrences p items

-- How many references to `p` the dictionary holds, with its lists.
abbrev pub references : ℕ → List Slot → ℕ
references p [] = 0
references p (slot ∷ dict) = unit_at slot.key p + held_references p slot.held + references p dict

-- Objects from `n` on are not in the dictionary.
abbrev pub IsBelow : ℕ → List Slot → Type 0
IsBelow n dict = (p : ℕ) → n ≤ p → references p dict ≡ 0

-- A list is held once, and does not hold itself.
abbrev pub IsAlone : Held → List Slot → Type 0
IsAlone (value_of o) dict = Unit
IsAlone (list_of l items) dict = occurrences l items + references l dict ≡ 0

abbrev pub AreAlone : List Slot → Type 0
AreAlone [] = Unit
AreAlone (slot ∷ dict) = IsAlone slot.held dict × AreAlone dict

pub references-append :
    (p : ℕ) (dict : List Slot) (slot : Slot)
    → references p (append dict slot)
      ≡ references p dict + (unit_at slot.key p + held_references p slot.held)
references-append p [] slot = omega arith
references-append p (other ∷ dict) slot = omega (arith, references-append p dict slot)

-- What is held for a key gives way to what replaces it.
pub references-replace :
    (p : ℕ) (k : List ℕ) (h h' : Held) (dict : List Slot)
    → find k dict ≡ some h
    → references p (replace k h' dict) + held_references p h
      ≡ references p dict + held_references p h'
unfolding find replace
references-replace p k h h' [] e = absurd (ground arith)
references-replace p k h h' (slot ∷ dict) e = elim (Bool-cases (eq_bytes slot.text k)) [
  | inl here ↦
      let same : slot.held ≡ h = ground (arith, here) in
      rw here (omega (arith, ap (held_references p) same))
  | inr there ↦
      let further : find k dict ≡ some h = ground (arith, there) in
      rw there (omega (arith, references-replace p k h h' dict further))
]

tail-IsBelow : (n : ℕ) (slot : Slot) (dict : List Slot) → IsBelow n (slot ∷ dict) → IsBelow n dict
tail-IsBelow n slot dict below p h = omega (arith, below p h)

-- A list of the dictionary is an object of it.
list-below :
    (n l : ℕ) (items : List ℕ) (slot : Slot) (dict : List Slot)
    → slot.held ≡ list_of l items
    → IsBelow n (slot ∷ dict)
    → l < n
list-below n l items slot dict e below = elim (dec_lt l n) [
  | yes h ↦ h
  | no h ↦ absurd (omega (arith, below l (omega arith), ap (held_references l) e, unit_at_self l))
]

-- Adding references to objects from `n` on leaves the lists alone.
IsAlone-more :
    (n : ℕ) (slot : Slot) (held : Held) (dict dict' : List Slot)
    → slot.held ≡ held
    → IsBelow n (slot ∷ dict)
    → ((p : ℕ) → p < n → references p dict' ≡ references p dict)
    → IsAlone held dict
    → IsAlone held dict'
IsAlone-more n slot (value_of o) dict dict' e below more h = tt
IsAlone-more n slot (list_of l items) dict dict' e below more h =
    omega (arith, more l (list-below n l items slot dict e below))

pub AreAlone-append :
    (n : ℕ) (dict : List Slot) (slot : Slot) (o : ℕ)
    → slot.held ≡ value_of o
    → n ≤ slot.key
    → n ≤ o
    → IsBelow n dict
    → AreAlone dict
    → AreAlone (append dict slot)
AreAlone-append n [] slot o e hk ho below alone = (rw e tt, tt)
AreAlone-append n (other ∷ dict) slot o e hk ho below alone = (
  IsAlone-more n other other.held dict (append dict slot) refl below (λ p h. same p h) alone.0,
  AreAlone-append n dict slot o e hk ho (tail-IsBelow n other dict below) alone.1,
)
  where
    away : (x p : ℕ) → n ≤ x → p < n → unit_at x p ≡ 0
    away x p hx hp = rw (let e : (p == x) ≡ false = ground arith in e) refl

    same : (p : ℕ) → p < n → references p (append dict slot) ≡ references p dict
    same p h = omega (
      arith,
      references-append p dict slot,
      ap (held_references p) e,
      away slot.key p hk h,
      away o p ho h,
    )

pub AreAlone-replace :
    (n : ℕ) (k : List ℕ) (h h' : Held) (dict : List Slot)
    → find k dict ≡ some h
    → ((p : ℕ) → p < n → held_references p h' ≡ held_references p h)
    → ((rest : List Slot) → IsBelow n rest → IsAlone h rest → IsAlone h' rest)
    → IsBelow n dict
    → AreAlone dict
    → AreAlone (replace k h' dict)
unfolding find replace
AreAlone-replace n k h h' [] e same keep below alone = tt
AreAlone-replace n k h h' (slot ∷ dict) e same keep below alone =
    elim (Bool-cases (eq_bytes slot.text k)) [
      | inl here ↦
          let held : slot.held ≡ h = ground (arith, here) in
          rw here (keep dict (tail-IsBelow n slot dict below) (rw (← held) alone.0), alone.1)
      | inr there ↦
          let further : find k dict ≡ some h = ground (arith, there) in
          rw there (
            IsAlone-more n slot slot.held dict (replace k h' dict) refl below
                (λ p q. omega (arith, references-replace p k h h' dict further, same p q)) alone.0,
            AreAlone-replace n k h h' dict further same keep (tail-IsBelow n slot dict below)
                alone.1,
          )
    ]
