-- ===== src/Login/References.antt =====
-- The references of the list that the functions of systemd/login.c make.
use python_systemd.Base.{
  ℕ, ◌+◌, ◌≡◌, refl, Bool, true, false, Option, none, some, List, [], ◌∷◌, arith,
}
use python_systemd.Base.Buffer.{◌>>=◌}
use python_systemd.PyUtil.References.{
  Counts, incref, release_container, release_container-counts, unit_at, unit_at_self, occurrences,
}

-- PyList_SetItem takes over the reference to a new object; where one cannot be made, Py_DECREF(ans)
-- releases the list, and with it the items.
unfoldable pub fill_references :
    (ans : ℕ)
    → (made : List (Option ℕ)) → (items : List ℕ) → Counts
    → Option (Bool × List ℕ × Counts)
fill_references ans [] items c = some (true, items, c)
fill_references ans (none ∷ made) items c =
    release_container ans items c >>= λ c. some (false, [], c)
fill_references ans (some s ∷ made) items c = fill_references ans made (s ∷ items) (incref s c)

-- PyList_New makes `ans`.
unfoldable pub list_references :
    (ans : ℕ) → List (Option ℕ) → Counts → Option (Bool × List ℕ × Counts)
list_references ans made c = fill_references ans made [] (incref ans c)

-- The objects are not the list.
abbrev pub AreOther : ℕ → List (Option ℕ) → Type 0
AreOther ans [] = Unit
AreOther ans (none ∷ made) = AreOther ans made
AreOther ans (some s ∷ made) = (unit_at s ans ≡ 0) × AreOther ans made

-- The caller holds the list with its items, or nothing.
abbrev pub IsListed : ℕ → Counts → Bool × List ℕ × Counts → Type 0
IsListed ans c (true, items, d) = (p : ℕ) → d p ≡ c p + unit_at ans p + occurrences p items
IsListed ans c (false, items, d) = (p : ℕ) → d p ≡ c p

fill_references-IsListed :
    (ans : ℕ) (made : List (Option ℕ)) (items : List ℕ) (c d : Counts)
    → c ans ≡ 0
    → occurrences ans items ≡ 0
    → AreOther ans made
    → ((p : ℕ) → d p ≡ c p + unit_at ans p + occurrences p items)
    → (r : Bool × List ℕ × Counts) × (fill_references ans made items d ≡ some r) × IsListed ans c r
unfolding fill_references incref
fill_references-IsListed ans [] items c d fresh alone others h = ((true, items, d), refl, h)
fill_references-IsListed ans (none ∷ made) items c d fresh alone others h =
    let (e, released, left) =
      release_container-counts ans items c d (omega (arith, h ans, fresh, alone, unit_at_self ans))
        h in
    ((false, [], e), rw released refl, left)
fill_references-IsListed ans (some s ∷ made) items c d fresh alone others h =
    fill_references-IsListed ans made (s ∷ items) c (incref s d) fresh (omega (arith, others.0))
      others.1 (λ p. omega (arith, h p))

-- Where the list is a new object and not one of its items, the functions that list seats,
-- sessions, machines and users end with one reference to the list and one to each item, or, when
-- an item cannot be made, with the counts there were before.
pub list_references-IsListed :
    (ans : ℕ) (made : List (Option ℕ)) (c : Counts)
    → c ans ≡ 0
    → AreOther ans made
    → (r : Bool × List ℕ × Counts) × (list_references ans made c ≡ some r) × IsListed ans c r
unfolding list_references incref
list_references-IsListed ans made c fresh others =
    fill_references-IsListed ans made [] c (incref ans c) fresh refl others (λ p. omega arith)
