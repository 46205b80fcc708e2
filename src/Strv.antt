-- ===== src/Strv.antt =====
-- systemd/strv.c: a vector of strings in memory is a list of pointers, `none` for NULL. Releasing
-- gives the pointers that are passed to `free`, in turn.
pub mod Release
use python_systemd.Base.{ℕ, Option, none, some, List, [], ◌∷◌, ◌++◌}

-- `for (k = l; *k; k++) free(*k);`; `none` is a read behind a vector without a NULL.
unfoldable pub free_strings : List (Option ℕ) → Option (List ℕ)
free_strings [] = none
free_strings (none ∷ l) = some []
free_strings (some p ∷ l) =
    let rest = free_strings l in elim rest [ none ↦ none | some freed ↦ some (p ∷ freed) ]

abbrev pub first_null : List (Option ℕ) → List (Option ℕ)
first_null [] = []
first_null (p ∷ l) = none ∷ l

abbrev pub cleared : List (Option ℕ) → Option (List ℕ) → Option (List ℕ × List (Option ℕ))
cleared l none = none
cleared l (some freed) = some (freed, first_null l)

-- The argument may be NULL.
unfoldable pub strv_clear : Option (List (Option ℕ)) → Option (List ℕ × List (Option ℕ))
strv_clear none = some ([], [])
strv_clear (some l) = cleared l (free_strings l)

-- The vector itself, `v` where it is not NULL, is released behind its strings.
abbrev pub and_vector : ℕ → Option (List ℕ × List (Option ℕ)) → Option (List ℕ)
and_vector v none = none
and_vector v (some (freed, l)) = some (freed ++ (v ∷ []))

unfoldable pub strv_free : Option (ℕ × List (Option ℕ)) → Option (List ℕ)
strv_free none = some []
strv_free (some (v, l)) = and_vector v (strv_clear (some l))
