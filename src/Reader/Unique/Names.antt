-- ===== src/Reader/Unique/Names.antt =====
-- The set that `enumerate_fields` returns.
use python_systemd.Base.{
  ℕ, suc, ◌≡◌, refl, ◌∙◌, ap, true, false, ◌||◌, Option, some, List, [], ◌∷◌, ◌++◌, arith,
}
use python_systemd.Base.Int.{ℤ, pos, eqb_ℤ}
use python_systemd.Base.Bytes.{elem, elem-set_add, set_add, IsDistinct, set_add-IsDistinct}
use python_systemd.PyUtil.{Outcome, returns, set_error}
use python_systemd.Reader.{SdJournal}
use python_systemd.Reader.Unique.{field_names, enumerate_fields}

-- Each answer is a positive number with a text that decodes to the name beside it.
abbrev pub HaveNames : (List ℕ → Option (List ℕ)) → List (ℤ × List ℕ) → List (List ℕ) → Type 0
HaveNames decode [] [] = Unit
HaveNames decode [] (v ∷ names) = ⊥
HaveNames decode (a ∷ answers) [] = ⊥
HaveNames decode ((r, field) ∷ answers) (v ∷ names) =
    ((n : ℕ) × (r ≡ pos (suc n)) × (decode field ≡ some v)) × HaveNames decode answers names

field_names-HaveNames :
    (decode : List ℕ → Option (List ℕ)) (answers more : List (ℤ × List ℕ)) (last : List ℕ)
    (names held : List (List ℕ))
    → HaveNames decode answers names
    → IsDistinct held
    → (set : List (List ℕ)) × (field_names decode (answers ++ ((pos 0, last) ∷ more)) held
        ≡ some (returns set))
      × IsDistinct set
      × ((v : List ℕ) → elem v set ≡ (elem v held || elem v names))
unfolding field_names elem set_error
field_names-HaveNames decode [] more last [] held h d = (held, refl, d, λ v. ground arith)
field_names-HaveNames decode [] more last (v ∷ names) held h d = absurd h
field_names-HaveNames decode (a ∷ answers) more last [] held h d = absurd h
field_names-HaveNames decode ((r, field) ∷ answers) more last (w ∷ names) held h d =
    let (n, positive, decoded) = h.0 in
    let (set, run, distinct, has) =
      field_names-HaveNames decode answers more last names (set_add w held) h.1
        (set_add-IsDistinct w held d) in
    (
      set,
      rw (positive, decoded, (let e : eqb_ℤ (pos (suc n)) (pos 0) ≡ false = ground arith in e)) run,
      distinct,
      λ v. has v ∙ ground (arith, elem-set_add v w held),
    )

module _ {H : Type 0} (sd : SdJournal H) (decode : List ℕ → Option (List ℕ)) where
  -- Where the build has sd_journal_enumerate_fields and its answers are texts that can be
  -- decoded up to a zero, the loop of enumerate_fields ends there with a set without
  -- repetition whose elements are the names before it.
  pub enumerate_fields_lem :
      (j j' : H) (answers more : List (ℤ × List ℕ)) (last : List ℕ) (names : List (List ℕ))
      → sd.have_enumerate_fields ≡ true
      → sd.enumerate_fields j ≡ (answers ++ ((pos 0, last) ∷ more), j')
      → HaveNames decode answers names
      → (set : List (List ℕ)) × (enumerate_fields sd decode j ≡ (some (returns set), j'))
        × IsDistinct set
        × ((v : List ℕ) → elem v set ≡ elem v names)
  unfolding enumerate_fields elem
  enumerate_fields_lem j j' answers more last names have visited h =
      let (set, run, distinct, has) =
        field_names-HaveNames decode answers more last names [] h tt in
      (
        set,
        rw (have, visited) (ap (λ (o : Option (Outcome (List (List ℕ)))). (o, j')) run),
        distinct,
        has,
      )
