-- ===== src/Reader/Convert/References.antt =====
-- The references that strv_converter and intlist_converter of systemd/_reader.c take on the items of
-- a sequence.
use python_systemd.Base.{
  ℕ, ◌+◌, ◌≡◌, refl, Bool, true, false, ◌&&◌, Option, none, some, List, [], ◌∷◌, if◌then◌else◌,
  arith, Bool-cases, inl, inr,
}
use python_systemd.Base.Buffer.{◌>>=◌}
use python_systemd.PyUtil.References.{
  Counts, incref, cleanup_decref, decref-counts, unit_at, unit_at_self, occurrences,
}

-- An item of the sequence, and the object that PyUnicode_FSConverter stores for it with a reference
-- of its own, `none` where it raises.
pub record Item : Type 0 where
  pub object : ℕ
  pub bytes : Option ℕ

-- PyUnicode_FSConverter in str_converter
abbrev pub convert_into : Option ℕ → Counts → Counts
convert_into none c = c
convert_into (some b) c = incref b c

abbrev pub is_some : Option ℕ → Bool
is_some none = false
is_some (some b) = true

-- The loop of strv_converter: PySequence_ITEM gives a new reference, and `bytes` is released at the
-- end of each round. The result tells whether all items are converted.
unfoldable pub strv_references : List Item → Counts → Option (Bool × Counts)
strv_references [] c = some (true, c)
strv_references (item ∷ items) c =
    cleanup_decref item.bytes (convert_into item.bytes (incref item.object c)) >>= λ c.
    let rest = strv_references items c in if is_some item.bytes then rest else some (false, c)

-- The loop of intlist_converter; each item comes with whether long_as_fd takes it.
unfoldable pub intlist_references : List (ℕ × Bool) → Counts → Option (Bool × Counts)
intlist_references [] c = some (true, c)
intlist_references ((item, fits) ∷ items) c =
    let c = incref item c in
    let rest = intlist_references items c in if fits then rest else some (false, c)

-- The items up to the first that is not converted, that one included.
abbrev pub visited : List Item → List ℕ
visited [] = []
visited (item ∷ items) = item.object ∷ (if is_some item.bytes then visited items else [])

abbrev pub visited_numbers : List (ℕ × Bool) → List ℕ
visited_numbers [] = []
visited_numbers ((item, fits) ∷ items) = item ∷ (if fits then visited_numbers items else [])

abbrev pub all_convert : List Item → Bool
all_convert [] = true
all_convert (item ∷ items) = is_some item.bytes && all_convert items

abbrev pub all_fit : List (ℕ × Bool) → Bool
all_fit [] = true
all_fit ((item, fits) ∷ items) = fits && all_fit items

-- A converted item leaves one reference to itself, and none to its bytes.
round :
    (o : ℕ) (b : Option ℕ) (c : Counts)
    → (d : Counts) × (cleanup_decref b (convert_into b (incref o c)) ≡ some d)
      × ((p : ℕ) → d p ≡ c p + unit_at o p)
unfolding cleanup_decref incref
round o none c = (incref o c, refl, λ p. refl)
round o (some b) c =
    let (d, released, counted) =
      decref-counts b (incref b (incref o c)) (omega (arith, unit_at_self b)) in
    (d, released, λ p. omega (arith, counted p))

strv_references-visited :
    (items : List Item) (c : Counts)
    → (d : Counts) × (strv_references items c ≡ some (all_convert items, d))
      × ((p : ℕ) → d p ≡ c p + occurrences p (visited items))
unfolding strv_references
strv_references-visited [] c = (c, refl, λ p. omega arith)
strv_references-visited (item ∷ items) c =
    let (d, released, counted) = round item.object item.bytes c in
    let (last, run, total) = strv_references-visited items d in
    elim (Bool-cases (is_some item.bytes)) [
      | inl good ↦ (last, rw (released, good) run, λ p. rw good (omega (arith, counted p, total p)))
      | inr bad ↦ (d, rw (released, bad) refl, λ p. rw bad (omega (arith, counted p)))
    ]

intlist_references-visited :
    (items : List (ℕ × Bool)) (c : Counts)
    → (d : Counts) × (intlist_references items c ≡ some (all_fit items, d))
      × ((p : ℕ) → d p ≡ c p + occurrences p (visited_numbers items))
unfolding intlist_references incref
intlist_references-visited [] c = (c, refl, λ p. omega arith)
intlist_references-visited ((item, true) ∷ items) c =
    let (last, run, total) = intlist_references-visited items (incref item c) in
    (last, run, λ p. omega (arith, total p))
intlist_references-visited ((item, false) ∷ items) c = (incref item c, refl, λ p. omega arith)

-- strv_converter and intlist_converter leave one reference more to each item of the sequence
-- that they have looked at, up to the first that cannot be converted, and none more to the bytes
-- objects that are made of them.
pub references-visited :
    (items : List Item) (numbers : List (ℕ × Bool)) (c : Counts)
    → ((d : Counts) × (strv_references items c ≡ some (all_convert items, d))
        × ((p : ℕ) → d p ≡ c p + occurrences p (visited items)))
      × ((d : Counts) × (intlist_references numbers c ≡ some (all_fit numbers, d))
          × ((p : ℕ) → d p ≡ c p + occurrences p (visited_numbers numbers)))
references-visited items numbers c =
    (strv_references-visited items c, intlist_references-visited numbers c)
