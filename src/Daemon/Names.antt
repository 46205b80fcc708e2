-- ===== src/Daemon/Names.antt =====
-- The names that sd_listen_fds_with_names allocates, and how listen_fds_with_names and free_names of
-- systemd/_daemon.c release them.
use python_systemd.Base.{
  ℕ, zero, suc, ◌+◌, ◌≡◌, refl, Bool, true, false, ◌&&◌, Option, none, some, List, [], ◌∷◌, ◌++◌,
  map, length, if◌then◌else◌, Bool-cases, inl, inr,
}
use python_systemd.Base.Buffer.{◌>>=◌}
use python_systemd.Strv.{free_strings}
use python_systemd.Strv.Release.{free_strings-map}

-- A vector is NULL, or its own address with the pointers in it.
unfoldable pub free_names : Option (ℕ × List (Option ℕ)) → Option (List ℕ)
free_names none = some []
free_names (some (names, strings)) = free_strings strings >>= λ freed. some (freed ++ (names ∷ []))

abbrev pub strings_of : Option (ℕ × List (Option ℕ)) → List (Option ℕ)
strings_of none = []
strings_of (some (names, strings)) = strings

-- Which PyTuple_SetItem succeed, by the index.
module _ (sets : ℕ → Bool) where
  -- The loop from `i` on, with `r - i` and the strings from there; `none` is a read behind the vector.
  unfoldable pub fill_tuple : (left i : ℕ) → List (Option ℕ) → Option Bool
  fill_tuple zero i strings = some true
  fill_tuple (suc left) i [] = none
  fill_tuple (suc left) i (none ∷ strings) = some true
  fill_tuple (suc left) i (some s ∷ strings) =
      let rest = fill_tuple left (suc i) strings in if sets (1 + i) then rest else some false

  -- Whether PyTuple_New and long_FromLong succeed is given; the result is whether there is a tuple, and
  -- what has been freed.
  unfoldable pub fill_and_free :
      (new_tuple from_long : Bool) → (r : ℕ) → Option (ℕ × List (Option ℕ)) → Option (Bool × List ℕ)
  fill_and_free false from_long r names = some (false, [])
  fill_and_free true false r names = some (false, [])
  fill_and_free true true r names =
      let filled = fill_tuple r 0 (strings_of names) >>= λ full.
      free_names names >>= λ freed. some (full, freed) in
      if sets 0 then filled else some (false, [])

  -- The items from `i` on.
  abbrev pub sets_all : (left i : ℕ) → Bool
  sets_all zero i = true
  sets_all (suc left) i = sets (1 + i) && sets_all left (suc i)

  fill_tuple-sets_all :
      (ps : List ℕ) (i : ℕ) (more : List (Option ℕ))
      → fill_tuple (length ps) i (map some ps ++ (none ∷ more)) ≡ some (sets_all (length ps) i)
  unfolding fill_tuple
  fill_tuple-sets_all [] i more = refl
  fill_tuple-sets_all (p ∷ ps) i more = elim (Bool-cases (sets (1 + i))) [
    | inl good ↦ rw good (fill_tuple-sets_all ps (suc i) more)
    | inr bad ↦ rw bad refl
  ]

  -- For the names that sd_listen_fds_with_names gives, ended by NULL, listen_fds_with_names
  -- frees each name once and then the vector, whether the tuple can be filled or not; it frees
  -- nothing when it cannot make the tuple or its first item.
  pub fill_and_free_lem :
      (new_tuple from_long : Bool) (names : ℕ) (ps : List ℕ) (more : List (Option ℕ))
      → fill_and_free new_tuple from_long (length ps) (some (names, map some ps ++ (none ∷ more)))
        ≡ (if new_tuple && from_long && sets 0
            then some (sets_all (length ps) 0, ps ++ (names ∷ []))
            else some (false, []))
  unfolding fill_and_free free_names
  fill_and_free_lem true true names ps more =
      rw (fill_tuple-sets_all ps 0 more, free_strings-map ps more) refl
  fill_and_free_lem true false names ps more = refl
  fill_and_free_lem false from_long names ps more = refl
