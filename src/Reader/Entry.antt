-- ===== src/Reader/Entry.antt =====
-- The fields of a journal entry: extract, Reader_get and Reader_get_all of systemd/_reader.c.
pub mod Dict
pub mod Collect
pub mod References
use python_systemd.Base.{
  ℕ, Bool, true, false, Option, none, some, List, [], ◌∷◌, ◌++◌, ◌==◌, if◌then◌else◌,
}
use python_systemd.Base.Int.{ℤ, neg, pos, eqb_ℤ}
use python_systemd.Base.Bytes.{eq_bytes}
use python_systemd.Util.Parse.{split_char}
use python_systemd.PyUtil.{
  Outcome, returns, raises, and_then, set_error, Exception, field_error, key_error, python,
}
use python_systemd.Reader.{SdJournal}

abbrev pub enoent : ℕ
enoent = 2

-- What a dictionary holds for a key: one bytes object, or a list of them.
pub data Entry : Type 0 where
  one : List ℕ → Entry
  many : List (List ℕ) → Entry

-- A Python dictionary, in the order of insertion.
abbrev pub Dict : Type 0
Dict = List (List ℕ × Entry)

-- PyDict_Contains, PyDict_GetItem
unfoldable pub lookup : List ℕ → Dict → Option Entry
lookup k [] = none
lookup k ((j, e) ∷ dict) = let rest = lookup k dict in if eq_bytes j k then some e else rest

-- PyDict_SetItem, and a change of the list that the dictionary holds.
unfoldable pub set_item : List ℕ → Entry → Dict → Dict
set_item k e [] = (k, e) ∷ []
set_item k e ((j, f) ∷ dict) =
    let rest = set_item k e dict in if eq_bytes j k then (j, e) ∷ dict else (j, f) ∷ rest

-- The value beside those that came before it for the same key.
abbrev pub joined : Option Entry → List ℕ → Entry
joined none value = one value
joined (some (one cur_value)) value = many (cur_value ∷ value ∷ [])
joined (some (many cur_values)) value = many (cur_values ++ (value ∷ []))

unfoldable pub add_value : List ℕ → List ℕ → Dict → Dict
add_value key value dict = set_item key (joined (lookup key dict) value) dict

-- `decode` is what unicode_FromStringAndSize makes of a text; `none` is an error that it raises.
module _ (decode : List ℕ → Option (List ℕ)) where
  abbrev pub decoded : List ℕ → List ℕ → Option (List ℕ) → Outcome (List ℕ × List ℕ)
  decoded k v none = raises python
  decoded k v (some key) = returns (key, v)

  abbrev pub extracted : Option (List ℕ × List ℕ) → Outcome (List ℕ × List ℕ)
  extracted none = raises field_error
  extracted (some (k, v)) = decoded k v (decode k)

  -- `extract` with both pointers.
  unfoldable pub extract : List ℕ → Outcome (List ℕ × List ℕ)
  extract msg = extracted (split_char 61 msg)

  -- The loop of Reader_get_all.
  unfoldable pub collect : List (List ℕ) → Dict → Outcome Dict
  collect [] dict = returns dict
  collect (msg ∷ fields) dict = and_then (extract msg) λ p. collect fields (add_value p.0 p.1 dict)

-- `extract` without `key`.
abbrev pub only_value : Option (List ℕ × List ℕ) → Outcome (List ℕ)
only_value none = raises field_error
only_value (some (k, v)) = returns v

unfoldable pub extract_value : List ℕ → Outcome (List ℕ)
extract_value msg = only_value (split_char 61 msg)

module _ {H : Type 0} (sd : SdJournal H) where
  unfoldable pub get : List ℕ → H → Outcome (List ℕ) × H
  get field j =
      let (r, msg, j) = sd.get_data field j in
      if eqb_ℤ r (neg (pos enoent))
      then (raises (key_error field), j)
      else (and_then (set_error r true) (λ n. extract_value msg), j)

  unfoldable pub get_all : (decode : List ℕ → Option (List ℕ)) → H → Outcome Dict × H
  get_all decode j = let (fields, j) = sd.foreach_data j in (collect decode fields [], j)
