-- ===== src/Strv/Release.antt =====
-- What is released, and how often.
use python_systemd.Base.{ℕ, ◌≡◌, refl, Option, none, some, List, [], ◌∷◌, ◌++◌, map}
use python_systemd.Strv.{free_strings, strv_clear, strv_free}

pub free_strings-map :
    (ps : List ℕ) (more : List (Option ℕ)) → free_strings (map some ps ++ (none ∷ more)) ≡ some ps
unfolding free_strings
free_strings-map [] more = refl
free_strings-map (p ∷ ps) more = rw (free_strings-map ps more) refl

-- strv_free releases each string before the first NULL of a vector once, in order, and then the
-- vector, and nothing behind the NULL.
pub strv_free_lem :
    (v : ℕ) (ps : List ℕ) (more : List (Option ℕ))
    → strv_free (some (v, map some ps ++ (none ∷ more))) ≡ some (ps ++ (v ∷ []))
unfolding strv_free strv_clear
strv_free_lem v ps more = rw (free_strings-map ps more) refl
