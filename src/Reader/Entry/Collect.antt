-- ===== src/Reader/Entry/Collect.antt =====
-- The dictionary of an entry holds the values of each key.
use mathlib.Core.List.{append_assoc, append-nil}
use python_systemd.Base.{
  ℕ, ◌≡◌, refl, sym, ◌∙◌, ap, Option, none, some, List, [], ◌∷◌, ◌++◌, if◌then◌else◌, inl, inr,
  Bool-cases,
}
use python_systemd.Base.Bytes.{eq_bytes}
use python_systemd.Util.Parse.{split_char}
use python_systemd.Util.Parse.Laws.{Lacks, split_char-append, split_char-Lacks}
use python_systemd.PyUtil.{Outcome, returns, raises, and_then, field_error}
use python_systemd.Reader.{SdJournal}
use python_systemd.Reader.Entry.{
  Entry, one, many, Dict, lookup, joined, add_value, extract, extracted, decoded, collect, get_all,
}
use python_systemd.Reader.Entry.Dict.{lookup-add_value}

-- The values of `key` among keys and values, in order.
abbrev pub values_of : List ℕ → List (List ℕ × List ℕ) → List (List ℕ)
values_of key [] = []
values_of key ((k, v) ∷ pairs) =
    if eq_bytes k key then v ∷ values_of key pairs else values_of key pairs

-- No entry for no value, the value itself for one, a list for more.
abbrev pub entry_of : List (List ℕ) → Option Entry
entry_of [] = none
entry_of (v ∷ []) = some (one v)
entry_of (v ∷ w ∷ values) = some (many (v ∷ w ∷ values))

-- What is held after more values for the key have come.
abbrev extended : Option Entry → List (List ℕ) → Option Entry
extended held [] = held
extended held (v ∷ values) = extended (some (joined held v)) values

extended-many :
    (held values : List (List ℕ))
    → extended (some (many held)) values ≡ some (many (held ++ values))
extended-many held [] = ap (λ (t : List (List ℕ)). some (many t)) (sym (append-nil held))
extended-many held (v ∷ values) =
    extended-many (held ++ (v ∷ [])) values
    ∙ ap (λ (t : List (List ℕ)). some (many t)) (append_assoc held (v ∷ []) values)

extended-eq-entry_of : (values : List (List ℕ)) → extended none values ≡ entry_of values
extended-eq-entry_of [] = refl
extended-eq-entry_of (v ∷ []) = refl
extended-eq-entry_of (v ∷ w ∷ values) = extended-many (v ∷ w ∷ []) values

module _ (decode : List ℕ → Option (List ℕ)) where
  -- `msg` is the field `key` with `value`: its name in bytes has no '=', and decodes to `key`.
  pub record IsField (msg key value : List ℕ) : Type 0 where
    pub name : List ℕ
    pub no_delimiter : Lacks 61 name
    pub message : msg ≡ name ++ (61 ∷ value)
    pub decodes : decode name ≡ some key

  -- Each message is the field beside it.
  abbrev pub AreFields : List (List ℕ) → List (List ℕ × List ℕ) → Type 0
  AreFields [] [] = Unit
  AreFields [] (p ∷ pairs) = ⊥
  AreFields (msg ∷ fields) [] = ⊥
  AreFields (msg ∷ fields) ((key, value) ∷ pairs) = IsField msg key value × AreFields fields pairs

  extract-IsField :
      (msg key value : List ℕ) → IsField msg key value → extract decode msg ≡ returns (key, value)
  unfolding extract
  extract-IsField msg key value f =
      ap (λ (t : List ℕ). extracted decode (split_char 61 t)) f.message
      ∙ ap (extracted decode) (split_char-append 61 f.name value f.no_delimiter)
      ∙ ap (decoded decode f.name value) f.decodes

  collect-AreFields :
      (fields : List (List ℕ)) (pairs : List (List ℕ × List ℕ)) (dict : Dict)
      → AreFields fields pairs
      → (d : Dict) × (collect decode fields dict ≡ returns d)
        × ((key : List ℕ) → lookup key d ≡ extended (lookup key dict) (values_of key pairs))
  unfolding collect
  collect-AreFields [] [] dict h = (dict, refl, λ key. refl)
  collect-AreFields [] (p ∷ pairs) dict h = absurd h
  collect-AreFields (msg ∷ fields) [] dict h = absurd h
  collect-AreFields (msg ∷ fields) ((k, v) ∷ pairs) dict h =
      let (d, run, held) = collect-AreFields fields pairs (add_value k v dict) h.1 in
      (d, rw (extract-IsField msg k v h.0) run, λ key. held key ∙ after k v key dict pairs)
    where
      after :
          (k v key : List ℕ) (dict : Dict) (pairs : List (List ℕ × List ℕ))
          → extended (lookup key (add_value k v dict)) (values_of key pairs)
            ≡ extended
                (lookup key dict)
                (if eq_bytes k key then v ∷ values_of key pairs else values_of key pairs)
      after k v key dict pairs = elim (Bool-cases (eq_bytes k key)) [
        | inl same ↦ rw (lookup-add_value k key v dict, same) refl
        | inr other ↦ rw (lookup-add_value k key v dict, other) refl
      ]

  -- An entry whose fields are good up to one without '='.
  collect-field_error :
      (good more : List (List ℕ)) (pairs : List (List ℕ × List ℕ)) (bad : List ℕ) (dict : Dict)
      → AreFields good pairs
      → split_char 61 bad ≡ none
      → collect decode (good ++ (bad ∷ more)) dict ≡ raises field_error
  unfolding collect extract
  collect-field_error [] more pairs bad dict h e = rw e refl
  collect-field_error (msg ∷ good) more [] bad dict h e = absurd h
  collect-field_error (msg ∷ good) more ((k, v) ∷ pairs) bad dict h e =
      ap
        (λ (o : Outcome (List ℕ × List ℕ)).
          and_then o λ p. collect decode (good ++ (bad ∷ more)) (add_value p.0 p.1 dict))
        (extract-IsField msg k v h.0)
      ∙ collect-field_error good more pairs bad (add_value k v dict) h.1 e

module _ {H : Type 0} (sd : SdJournal H) (decode : List ℕ → Option (List ℕ)) where
  -- Where the fields of an entry are decodable names before the first '=' with their values,
  -- _get_all returns a dictionary that holds for each key the values of that key in their
  -- order: nothing for none, the value itself for one, a list for more.
  pub get_all_lem :
      (j j' : H) (fields : List (List ℕ)) (pairs : List (List ℕ × List ℕ))
      → sd.foreach_data j ≡ (fields, j')
      → AreFields decode fields pairs
      → (dict : Dict) × (get_all sd decode j ≡ (returns dict, j'))
        × ((key : List ℕ) → lookup key dict ≡ entry_of (values_of key pairs))
  unfolding get_all lookup
  get_all_lem j j' fields pairs e h =
      let (dict, run, held) = collect-AreFields decode fields pairs [] h in
      (
        dict,
        rw e (ap (λ (o : Outcome Dict). (o, j')) run),
        λ key. held key ∙ extended-eq-entry_of (values_of key pairs),
      )

  -- When a field without '=' comes after good ones, _get_all raises OSError whatever follows.
  pub get_all-field_error :
      (j j' : H) (good more : List (List ℕ)) (pairs : List (List ℕ × List ℕ)) (bad : List ℕ)
      → sd.foreach_data j ≡ (good ++ (bad ∷ more), j')
      → AreFields decode good pairs
      → Lacks 61 bad
      → get_all sd decode j ≡ (raises field_error, j')
  unfolding get_all
  get_all-field_error j j' good more pairs bad e h lacks = rw e (
      ap (λ (o : Outcome Dict). (o, j'))
        (collect-field_error decode good more pairs bad [] h (split_char-Lacks 61 bad lacks)))
