-- ===== src/Reader/Entry/References/Stored.antt =====
-- One field more in the dictionary, and the references that it takes.
use python_systemd.Base.{
  ℕ, suc, ◌+◌, ◌<◌, ◌≡◌, refl, false, Option, none, some, List, [], ◌∷◌, ◌++◌, ◌==◌, arith,
}
use native.Mathlib.Decide.{dec_lt}
use python_systemd.PyUtil.References.{
  Counts, incref, cleanup_decref, decref-counts, unit_at, unit_at_self, occurrences-append,
}
use python_systemd.Reader.Entry.References.{
  Held, value_of, list_of, Slot, find, replace, append, store,
}
use python_systemd.Reader.Entry.References.Balance.{
  held_references, references, IsBelow, AreAlone, references-append, references-replace,
  AreAlone-append, AreAlone-replace,
}

apart : (o p : ℕ) → o < p → unit_at o p ≡ 0
apart o p h = rw (let e : (p == o) ≡ false = ground arith in e) refl

apart' : (o p : ℕ) → p < o → unit_at o p ≡ 0
apart' o p h = rw (let e : (p == o) ≡ false = ground arith in e) refl

-- What is found is an object of the dictionary.
found-below :
    (n p : ℕ) (k : List ℕ) (h : Held) (dict : List Slot)
    → find k dict ≡ some h
    → IsBelow n dict
    → 0 < held_references p h
    → p < n
found-below n p k h dict e below positive = elim (dec_lt p n) [
  | yes small ↦ small
  | no large ↦ absurd (
      omega (
        arith,
        below p (omega arith),
        references-replace p k h (value_of (suc p)) dict e,
        apart' (suc p) p (omega arith),
        positive,
      ))
]

-- The dictionary holds the new objects as the counts say, while `key` and `value` are held besides.
pub record IsStored (text : List ℕ) (n : ℕ) (found : Option Held) (dict : List Slot) (c : Counts)
    : Type 0 where
  pub dict' : List Slot
  pub counts' : Counts
  pub stores : store text n (n + 1) found dict c (n + 2) ≡ some (dict', counts')
  pub counted : (p : ℕ) → counts' p ≡ references p dict' + (unit_at n p + unit_at (n + 1) p)
  pub below : IsBelow (n + 3) dict'
  pub alone : AreAlone dict'

pub store-IsStored :
    (text : List ℕ) (n : ℕ) (found : Option Held) (dict : List Slot) (c : Counts)
    → find text dict ≡ found
    → ((p : ℕ) → c p ≡ references p dict + (unit_at n p + unit_at (n + 1) p))
    → IsBelow n dict
    → AreAlone dict
    → IsStored text n found dict c
unfolding store incref cleanup_decref
store-IsStored text n none dict c e counted below alone =
    let slot : Slot = record { text = text; key = n; held = value_of (n + 1) } in
    record {
      dict' = append dict slot;
      counts' = incref (n + 1) (incref n c);
      stores = refl;
      counted = λ p. omega (arith, counted p, references-append p dict slot);
      below = λ p h. omega (
        arith,
        references-append p dict slot,
        below p (omega arith),
        apart n p (omega arith),
        apart (n + 1) p (omega arith),
      );
      alone = AreAlone-append n dict slot (n + 1) refl (omega arith) (omega arith) below alone;
    }
store-IsStored text n (some (list_of l items)) dict c e counted below alone =
    let grown : Held = list_of l (items ++ ((n + 1) ∷ [])) in
    let small : l < n =
      found-below n l text (list_of l items) dict e below (omega (arith, unit_at_self l)) in
    record {
      dict' = replace text grown dict;
      counts' = incref (n + 1) c;
      stores = refl;
      counted = λ p. omega (
        arith,
        counted p,
        references-replace p text (list_of l items) grown dict e,
        occurrences-append p items ((n + 1) ∷ []),
      );
      below = λ p h. omega (
        arith,
        references-replace p text (list_of l items) grown dict e,
        occurrences-append p items ((n + 1) ∷ []),
        below p (omega arith),
        apart (n + 1) p (omega arith),
      );
      alone =
          AreAlone-replace n text (list_of l items) grown dict e
            (λ p h.
              omega
                (arith, occurrences-append p items ((n + 1) ∷ []), apart' (n + 1) p (omega arith)))
            (λ rest b a.
              omega (
                arith,
                a,
                occurrences-append l items ((n + 1) ∷ []),
                apart' (n + 1) l (omega arith),
              ))
            below alone;
    }
store-IsStored text n (some (value_of cur)) dict c e counted below alone =
    let held : Held = list_of (n + 2) (cur ∷ (n + 1) ∷ []) in
    let small : cur < n =
      found-below n cur text (value_of cur) dict e below (omega (arith, unit_at_self cur)) in
    let c1 : Counts = incref (n + 2) (incref (n + 1) (incref cur (incref (n + 2) c))) in
    let (c2, first, counted2) = decref-counts cur c1 (omega (arith, unit_at_self cur)) in
    let (c3, second, counted3) =
      decref-counts (n + 2) c2 (omega (arith, counted2 (n + 2), unit_at_self (n + 2))) in
    record {
      dict' = replace text held dict;
      counts' = c3;
      stores = rw (first, second) refl;
      counted = λ p. omega (
        arith,
        counted p,
        counted2 p,
        counted3 p,
        references-replace p text (value_of cur) held dict e,
      );
      below = λ p h. omega (
        arith,
        references-replace p text (value_of cur) held dict e,
        below p (omega arith),
        apart cur p (omega arith),
        apart (n + 1) p (omega arith),
        apart (n + 2) p (omega arith),
      );
      alone =
          AreAlone-replace n text (value_of cur) held dict e
            (λ p h. omega (arith, apart' (n + 1) p (omega arith), apart' (n + 2) p (omega arith)))
            (λ rest b a. omega (
              arith,
              b (n + 2) (omega arith),
              apart cur (n + 2) (omega arith),
              apart (n + 1) (n + 2) (omega arith),
            ))
            below alone;
    }
