-- ===== src/JournalPy.antt =====
-- systemd/journal.py: the class Reader on `_Reader` of systemd/_reader.c, and `send` on `sendv` of
-- systemd/_journal.c. A text is the list of its code points.
pub mod Fields
pub mod Stamps
pub mod Iteration
pub mod Sending
use python_systemd.Base.{
  ℕ, zero, suc, Bool, true, false, Option, none, some, List, [], ◌∷◌, ◌++◌, map, if◌then◌else◌,
}
use python_systemd.Base.Int.{ℤ, pos, neg}
use python_systemd.Base.Buffer.{◌>>=◌}
use python_systemd.Base.Bytes.{eq_bytes}
use python_systemd.Base.Text.{codes}
use python_systemd.PyUtil.{Exception, value_error, Outcome, returns, raises, and_then}
use python_systemd.Reader.{SdJournal}
use python_systemd.Reader.Entry.{Entry, one, many, Dict, get_all}
use python_systemd.Reader.Methods.{get_realtime, get_monotonic, get_cursor}
use python_systemd.Reader.Move.{next}
use python_systemd.Journal.{Item, text, bytes, sendv}

-- What an entry holds before its conversion.
pub data Raw : Type 0 where
  raw_bytes : List ℕ → Raw
  realtime : ℕ → Raw
  monotonic : ℕ × List ℕ → Raw
  cursor : List ℕ → Raw

-- A value, or a list of values, under a key.
pub data Values (A : Type 0) : Type 0 where
  single : A → Values A
  several : List A → Values A

abbrev pub Fields : Type 0 → Type 0
Fields A = List (List ℕ × Values A)

-- `d[key] = value`
unfoldable pub put : {A : Type 0} → List ℕ → Values A → Fields A → Fields A
put k v [] = (k, v) ∷ []
put k v ((j, w) ∷ d) = let rest = put k v d in if eq_bytes j k then (j, v) ∷ d else (j, w) ∷ rest

abbrev pub raw_values : Entry → Values Raw
raw_values (one value) = single (raw_bytes value)
raw_values (many values) = several (map raw_bytes values)

abbrev pub raw_fields : Dict → Fields Raw
raw_fields [] = []
raw_fields ((k, e) ∷ dict) = (k, raw_values e) ∷ raw_fields dict

-- The three assignments of get_next.
unfoldable pub stamped : Dict → ℕ → ℕ × List ℕ → List ℕ → Fields Raw
stamped dict t m c = put (codes "__CURSOR") (single (cursor c)) (
    put (codes "__MONOTONIC_TIMESTAMP") (single (monotonic m))
      (put (codes "__REALTIME_TIMESTAMP") (single (realtime t)) (raw_fields dict)))

abbrev pub is_value_error : Exception → Bool
is_value_error value_error = true
is_value_error e = false

-- A call on a journal, and what follows with its result.
abbrev pub call : {A B H : Type 0} → Outcome A × H → (A → H → Outcome B × H) → Outcome B × H
call (returns a, j) f = f a j
call (raises e, j) f = (raises e, j)

-- `convert` is `self.converters.get(key, bytes.decode)` on a value, `unconverted` the value as it is.
-- An exception that is a ValueError is given as that one.
module _ {V : Type 0} (convert : List ℕ → Raw → Outcome V) (unconverted : Raw → V) where
  abbrev pub unless_value_error : Raw → Outcome V → Outcome V
  unless_value_error value (returns v) = returns v
  unless_value_error value (raises e) =
      if is_value_error e then returns (unconverted value) else raises e

  unfoldable pub convert_field : List ℕ → Raw → Outcome V
  convert_field key value = unless_value_error value (convert key value)

  unfoldable pub convert_list : List ℕ → List Raw → Outcome (List V)
  convert_list key [] = returns []
  convert_list key (value ∷ values) =
      and_then (convert_field key value)
        λ v. and_then (convert_list key values) λ vs. returns (v ∷ vs)

  abbrev pub convert_values : List ℕ → Values Raw → Outcome (Values V)
  convert_values key (single value) = and_then (convert_field key value) λ v. returns (single v)
  convert_values key (several values) =
      and_then (convert_list key values) λ vs. returns (several vs)

  -- The loop of _convert_entry, with `result` so far.
  unfoldable pub convert_entry : Fields Raw → (result : Fields V) → Outcome (Fields V)
  convert_entry [] result = returns result
  convert_entry ((key, value) ∷ entry) result =
      and_then (convert_values key value) λ v. convert_entry entry (put key v result)

  module _ {H : Type 0} (sd : SdJournal H) (decode : List ℕ → Option (List ℕ)) where
    -- `if entry:` and what follows
    abbrev pub with_entry : Dict → H → Outcome (Fields V) × H
    with_entry [] j = (returns [], j)
    with_entry (item ∷ dict) j = call (get_realtime sd j) λ t j. call (get_monotonic sd j) λ m j.
        call (get_cursor sd decode j) λ c j. (convert_entry (stamped (item ∷ dict) t m c) [], j)

    abbrev pub when_found : Bool → H → Outcome (Fields V) × H
    when_found true j = call (get_all sd decode j) with_entry
    when_found false j = (returns [], j)

    unfoldable pub get_next : (skip : ℤ) → H → Outcome (Fields V) × H
    get_next skip j = call (next sd skip j) when_found

    unfoldable pub get_previous : (skip : ℤ) → H → Outcome (Fields V) × H
    get_previous skip j = get_next (neg skip) j

    -- `none` is StopIteration.
    abbrev pub unless_empty : Fields V → H → Outcome (Option (Fields V)) × H
    unless_empty [] j = (returns none, j)
    unless_empty (item ∷ ans) j = (returns (some (item ∷ ans)), j)

    -- `__next__`
    unfoldable pub next_entry : H → Outcome (Option (Fields V)) × H
    next_entry j = call (get_next (pos 1) j) unless_empty

    abbrev pub cons_entry :
        Fields V → Outcome (List (Fields V)) × H → Option (Outcome (List (Fields V)) × H)
    cons_entry ans (r, j) = some (and_then r (λ entries. returns (ans ∷ entries)), j)

    -- A loop `for entry in reader` that collects the entries; `none` is a want of fuel.
    abbrev pub go_on :
        (H → Option (Outcome (List (Fields V)) × H))
        → Outcome (Option (Fields V)) × H
        → Option (Outcome (List (Fields V)) × H)
    go_on rest (raises e, j) = some (raises e, j)
    go_on rest (returns none, j) = some (returns [], j)
    go_on rest (returns (some ans), j) = rest j >>= cons_entry ans

    unfoldable pub for_each : (fuel : ℕ) → H → Option (Outcome (List (Fields V)) × H)
    for_each zero j = none
    for_each (suc fuel) j = go_on (for_each fuel) (next_entry j)

-- A keyword argument of `send`: bytes, a text, or something else with its `str`.
pub data Argument : Type 0 where
  bytes_of : List ℕ → Argument
  str_of : List ℕ → Argument
  other_of : List ℕ → Argument

-- The stack frame of the caller: CODE_FILE, CODE_LINE, CODE_FUNC.
pub record Code : Type 0 where
  pub file : Option (List ℕ)
  pub line : Option ℤ
  pub func : Option (List ℕ)

-- `format_d` is what '{:d}' makes of an integer.
abbrev pub formatted : (format_d : ℤ → List ℕ) → Option ℤ → Option (List ℕ)
formatted format_d none = none
formatted format_d (some line) = some (format_d line)

-- `if CODE_LINE is CODE_FILE is CODE_FUNC is None`
unfoldable pub code_or : (caller code : Code) → Code
code_or caller code = elim code.line [
  | some line ↦ code
  | none ↦ elim code.file [
    | some file ↦ code
    | none ↦ elim code.func [ some func ↦ code | none ↦ caller ]
  ]
]

-- `encode` is UTF-8.
module _ (encode : List ℕ → Option (List ℕ)) (format_d : ℤ → List ℕ) where
  abbrev pub encoded_line : List ℕ → Option (List ℕ) → Outcome Item
  encoded_line value none = raises value_error
  encoded_line value (some field) = returns (bytes (field ++ codes "=" ++ value))

  unfoldable pub make_line : List ℕ → Argument → Outcome Item
  make_line field (bytes_of value) = encoded_line value (encode field)
  make_line field (str_of value) = returns (text (encode (field ++ codes "=" ++ value)))
  make_line field (other_of value) = returns (text (encode (field ++ codes "=" ++ value)))

  unfoldable pub make_lines : List (List ℕ × Argument) → Outcome (List Item)
  make_lines [] = returns []
  make_lines ((field, value) ∷ kwargs) =
      and_then (make_line field value)
        λ item. and_then (make_lines kwargs) λ items. returns (item ∷ items)

  -- `args.append(name + value)` for a value that is not None.
  abbrev pub line_of : List ℕ → Option (List ℕ) → List Item
  line_of name none = []
  line_of name (some value) = text (encode (name ++ value)) ∷ []

  unfoldable pub code_lines : Code → List Item
  code_lines code =
      line_of (codes "CODE_FILE=") code.file
      ++ line_of (codes "CODE_LINE=") (formatted format_d code.line)
      ++ line_of (codes "CODE_FUNC=") code.func

  unfoldable pub send_args :
      (message : List ℕ)
      → (message_id : Option (List ℕ)) → (caller code : Code) → List (List ℕ × Argument)
      → Outcome (List Item)
  send_args message message_id caller code kwargs = and_then (make_lines kwargs) λ lines. returns (
      line_of (codes "MESSAGE=") (some message)
      ++ line_of (codes "MESSAGE_ID=") message_id
      ++ code_lines (code_or caller code)
      ++ lines)

  module _ {J : Type 0} (sd_journal_sendv : List (List ℕ) → J → ℤ × J) where
    abbrev pub sends : J → Outcome (List Item) → Outcome (Unit {0}) × J
    sends j (raises e) = (raises e, j)
    sends j (returns args) = sendv sd_journal_sendv args j

    unfoldable pub send :
        (message : List ℕ)
        → (message_id : Option (List ℕ)) → (caller code : Code) → List (List ℕ × Argument)
        → J
        → Outcome (Unit {0}) × J
    send message message_id caller code kwargs j =
        sends j (send_args message message_id caller code kwargs)
