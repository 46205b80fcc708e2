-- ===== src/Base/Cut.antt =====
-- Memory with room for fields of given sizes is those fields and what lies behind.
use Prim.Native.Nat.{ℕ, ◌+◌, ◌≤◌}
use mathlib.Core.Path.{◌≡◌, ap, sym, ◌∙◌}
use mathlib.Core.List.{List, ◌++◌}
use native.Mathlib.Omega.{arith}
use python_systemd.Base.Lists.{length, take, drop, length-append, take-append-drop, length-drop}

cut :
    (i : ℕ) (mem : List ℕ)
    → i ≤ length mem
    → (a : List ℕ) × (rest : List ℕ) × (mem ≡ a ++ rest) × (length a ≡ i)
cut i mem h =
    let whole = take-append-drop i mem in
    (
      take i mem,
      drop i mem,
      sym whole,
      omega (arith, ap length whole, length-append (take i mem) (drop i mem), length-drop i mem),
    )

pub cut_two :
    (i j : ℕ) (mem : List ℕ)
    → i + j ≤ length mem
    → (a : List ℕ) × (b : List ℕ) × (rest : List ℕ) × (mem ≡ a ++ (b ++ rest))
      × (length a ≡ i)
      × (length b ≡ j)
cut_two i j mem h =
    let (a, behind, whole, la) = cut i mem (omega arith) in
    let (b, rest, more, lb) =
      cut j behind (omega (arith, ap length whole, length-append a behind, la)) in
    (a, b, rest, whole ∙ ap (λ (t : List ℕ). a ++ t) more, la, lb)

pub cut_three :
    (i j k : ℕ) (mem : List ℕ)
    → i + j + k ≤ length mem
    → (a : List ℕ) × (b : List ℕ) × (c : List ℕ) × (rest : List ℕ) × (mem ≡ a ++ (b ++ (c ++ rest)))
      × (length a ≡ i)
      × (length b ≡ j)
      × (length c ≡ k)
cut_three i j k mem h =
    let (a, behind, whole, la) = cut i mem (omega arith) in
    let (b, c, rest, more, lb, lc) =
      cut_two j k behind (omega (arith, ap length whole, length-append a behind, la)) in
    (a, b, c, rest, whole ∙ ap (λ (t : List ℕ). a ++ t) more, la, lb, lc)

pub cut_four :
    (i j k l : ℕ) (mem : List ℕ)
    → i + j + k + l ≤ length mem
    → (a : List ℕ) × (b : List ℕ) × (c : List ℕ) × (d : List ℕ) × (rest : List ℕ) × (mem
        ≡ a ++ (b ++ (c ++ (d ++ rest))))
      × (length a ≡ i)
      × (length b ≡ j)
      × (length c ≡ k)
      × (length d ≡ l)
cut_four i j k l mem h =
    let (a, behind, whole, la) = cut i mem (omega arith) in
    let (b, c, d, rest, more, lb, lc, ld) =
      cut_three j k l behind (omega (arith, ap length whole, length-append a behind, la)) in
    (a, b, c, d, rest, whole ∙ ap (λ (t : List ℕ). a ++ t) more, la, lb, lc, ld)
