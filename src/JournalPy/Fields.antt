-- ===== src/JournalPy/Fields.antt =====
-- Dictionaries of a Reader, and their conversion.
use python_systemd.Base.{
  ℕ, ◌≡◌, refl, subst, ◌∙◌, ap, Option, none, some, List, [], ◌∷◌, map, if◌then◌else◌, arith,
  Bool-cases, inl, inr,
}
use python_systemd.Base.Bytes.{eq_bytes, eq_bytes_iff, eq_bytes_sound}
use python_systemd.PyUtil.{Outcome, returns}
use python_systemd.JournalPy.{
  Raw, Values, single, several, Fields, put, convert_field, convert_list, convert_values,
  convert_entry,
}

-- `d.get(key)`
unfoldable pub get_field : {A : Type 0} → List ℕ → Fields A → Option (Values A)
get_field k [] = none
get_field k ((j, v) ∷ d) = let rest = get_field k d in if eq_bytes j k then some v else rest

pub get_field-put :
    {A : Type 0} (k j : List ℕ) (v : Values A) (d : Fields A)
    → get_field j (put k v d) ≡ (if eq_bytes k j then some v else get_field j d)
unfolding get_field put
get_field-put k j v [] = ground arith
get_field-put k j v ((i, w) ∷ d) =
    ground (arith, get_field-put k j v d, eq_bytes_iff i k, eq_bytes_iff i j, eq_bytes_iff k j)

-- A key occurs once.
abbrev pub AreDistinct : {A : Type 0} → Fields A → Type 0
AreDistinct [] = Unit
AreDistinct ((k, v) ∷ d) = (get_field k d ≡ none) × AreDistinct d

pub put-AreDistinct :
    {A : Type 0} (k : List ℕ) (v : Values A) (d : Fields A)
    → AreDistinct d
    → AreDistinct (put k v d)
unfolding put get_field
put-AreDistinct k v [] h = (refl, tt)
put-AreDistinct k v ((j, w) ∷ d) (fresh, h) = elim (Bool-cases (eq_bytes j k)) [
  | inl same ↦ rw same (fresh, h)
  | inr other ↦ rw other (
    ground (arith, get_field-put k j v d, eq_bytes_iff j k, eq_bytes_iff k j, fresh),
    put-AreDistinct k v d h,
  )
]

abbrev pub map_values : {A B : Type 0} → (A → B) → Values A → Values B
map_values f (single v) = single (f v)
map_values f (several vs) = several (map f vs)

abbrev pub mapped : {A B : Type 0} → (A → B) → Option (Values A) → Option (Values B)
mapped f none = none
mapped f (some v) = some (map_values f v)

abbrev pub or_else : {A : Type 0} → Option A → Option A → Option A
or_else none b = b
or_else (some a) b = some a

module _ {V : Type 0} (convert : List ℕ → Raw → Outcome V) (unconverted : Raw → V)
    (shown : List ℕ → Raw → V)
    (converts : (key : List ℕ) (value : Raw)
      → convert_field convert unconverted key value ≡ returns (shown key value)) where
  convert_list-map :
      (key : List ℕ) (values : List Raw)
      → convert_list convert unconverted key values ≡ returns (map (shown key) values)
  unfolding convert_list
  convert_list-map key [] = refl
  convert_list-map key (value ∷ values) = rw (converts key value, convert_list-map key values) refl

  convert_values-map_values :
      (key : List ℕ) (values : Values Raw)
      → convert_values convert unconverted key values ≡ returns (map_values (shown key) values)
  convert_values-map_values key (single value) = rw (converts key value) refl
  convert_values-map_values key (several values) = rw (convert_list-map key values) refl

  joined :
      (k : List ℕ) (v : Values Raw) (key : List ℕ) (entry : Fields Raw) (result : Fields V)
      → get_field k entry ≡ none
      → or_else
          (mapped (shown key) (get_field key entry))
          (get_field key (put k (map_values (shown k) v) result))
        ≡ or_else
            (mapped (shown key) (if eq_bytes k key then some v else get_field key entry))
            (get_field key result)
  joined k v key entry result fresh = elim (Bool-cases (eq_bytes k key)) [
    | inl same ↦
        let e : k ≡ key = eq_bytes_sound k key same in
        let gone : get_field key entry ≡ none =
          subst (λ (j : List ℕ). get_field j entry ≡ none) e fresh in
        rw (get_field-put k key (map_values (shown k) v) result, same, gone)
          (ap (λ (j : List ℕ). some (map_values (shown j) v)) e)
    | inr other ↦ rw (get_field-put k key (map_values (shown k) v) result, other) refl
  ]

  -- A key has what `shown` makes of its values.
  pub convert_entry-get_field :
      (entry : Fields Raw) (result : Fields V)
      → AreDistinct entry
      → (d : Fields V) × (convert_entry convert unconverted entry result ≡ returns d)
        × ((key : List ℕ)
            → get_field key d
              ≡ or_else (mapped (shown key) (get_field key entry)) (get_field key result))
  unfolding convert_entry get_field
  convert_entry-get_field [] result h = (result, refl, λ key. refl)
  convert_entry-get_field ((k, v) ∷ entry) result (fresh, h) =
      let (d, run, held) =
        convert_entry-get_field entry (put k (map_values (shown k) v) result) h in
      (
        d,
        rw (convert_values-map_values k v) run,
        λ key. held key ∙ joined k v key entry result fresh,
      )
