-- ===== src/Reader/Entry/References.antt =====
-- The references of Reader_get_all of systemd/_reader.c: which objects the dictionary of an entry
-- holds, and with how many references.
pub mod Balance
pub mod Stored
pub mod Kept
use python_systemd.Base.{ℕ, ◌+◌, Option, none, some, List, [], ◌∷◌, ◌++◌, ◌==◌, if◌then◌else◌}
use python_systemd.Base.Buffer.{◌>>=◌}
use python_systemd.Base.Bytes.{eq_bytes}
use python_systemd.PyUtil.{Outcome, returns, raises}
use python_systemd.PyUtil.References.{Counts, incref, decref, cleanup_decref, release_container}
use python_systemd.Reader.Entry.{extract}

-- What the dictionary holds for a key: a bytes object, or a list object with its items.
pub data Held : Type 0 where
  value_of : ℕ → Held
  list_of : ℕ → List ℕ → Held

-- A key with its text and its object.
pub record Slot : Type 0 where
  pub text : List ℕ
  pub key : ℕ
  pub held : Held

-- PyDict_GetItem borrows.
unfoldable pub find : List ℕ → List Slot → Option Held
find k [] = none
find k (slot ∷ dict) =
    let rest = find k dict in if eq_bytes slot.text k then some slot.held else rest

-- The value of a key that is there, or the items of its list, become these.
unfoldable pub replace : List ℕ → Held → List Slot → List Slot
replace k h [] = []
replace k h (slot ∷ dict) =
    let rest = replace k h dict in
    if eq_bytes slot.text k then record slot { held = h } ∷ dict else slot ∷ rest

-- PyDict_SetItem on a new key stands behind the others.
abbrev pub append : List Slot → Slot → List Slot
append dict slot = dict ++ (slot ∷ [])

-- The dictionary, the counts, and the number of the next object.
pub record Owned : Type 0 where
  pub dict : List Slot
  pub counts : Counts
  pub fresh : ℕ

-- The body of the loop after `extract`, by what the dictionary has for the key: `key` and `value` are
-- new objects.
unfoldable pub store :
    (text : List ℕ)
    → (key value : ℕ) → Option Held
    → List Slot
    → Counts
    → (tmp_list : ℕ) → Option (List Slot × Counts)
store text key value none dict c tmp_list = some (
  append dict (record { text = text; key = key; held = value_of value }),
  incref value (incref key c),
)
store text key value (some (list_of l items)) dict c tmp_list =
    some (replace text (list_of l (items ++ (value ∷ []))) dict, incref value c)
store text key value (some (value_of cur_value)) dict c tmp_list =
    let c = incref value (incref cur_value (incref tmp_list c)) in
    decref cur_value (incref tmp_list c) >>= λ c. cleanup_decref (some tmp_list) c >>= λ c.
    some (replace text (list_of tmp_list (cur_value ∷ value ∷ [])) dict, c)

-- One round: `extract` makes `key` and `value`, which are released at its end.
unfoldable pub add_field : List ℕ → Owned → Option Owned
add_field text s =
    let key = s.fresh in
    let value = s.fresh + 1 in
    store text key value (find text s.dict) s.dict (incref value (incref key s.counts))
      (s.fresh + 2)
    >>= λ p. cleanup_decref (some value) p.1 >>= λ c. cleanup_decref (some key) c >>= λ c.
        some (record { dict = p.0; counts = c; fresh = s.fresh + 3 })

-- Releasing the dictionary: each key, and each value; a list that goes releases its items.
unfoldable pub release_held : Held → Counts → Option Counts
release_held (value_of o) c = decref o c
release_held (list_of l items) c = release_container l items c

unfoldable pub release_dict : List Slot → Counts → Option Counts
release_dict [] c = some c
release_dict (slot ∷ dict) c =
    decref slot.key c >>= λ c. release_held slot.held c >>= release_dict dict

-- What is held at the end: the dictionary, or nothing after an error.
abbrev pub with_dict : List Slot → Counts → Option (Option (List Slot) × Counts)
with_dict dict c = some (some dict, c)

module _ (decode : List ℕ → Option (List ℕ)) where
  abbrev pub after_extract :
      Outcome (List ℕ × List ℕ)
      → (List ℕ → Option (Option (List Slot) × Counts))
      → Option (Option (List Slot) × Counts)
      → Option (Option (List Slot) × Counts)
  after_extract (returns (text, value)) go error = go text
  after_extract (raises e) go error = error

  unfoldable pub hold_fields : List (List ℕ) → Owned → Option (Option (List Slot) × Counts)
  hold_fields [] s = with_dict s.dict s.counts
  hold_fields (msg ∷ fields) s =
      after_extract (extract decode msg) (λ text. add_field text s >>= hold_fields fields)
        (release_dict s.dict s.counts >>= λ c. some (none, c))

  -- The whole call, from counts that are all 0.
  unfoldable pub hold_all : List (List ℕ) → Option (Option (List Slot) × Counts)
  hold_all fields = hold_fields fields (record { dict = []; counts = λ p. 0; fresh = 0 })
