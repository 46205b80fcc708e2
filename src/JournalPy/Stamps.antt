-- ===== src/JournalPy/Stamps.antt =====
-- An entry before its conversion: what get_next finds and adds.
use python_systemd.Base.{
  ℕ, ◌≡◌, refl, sym, subst, Option, none, some, List, [], ◌∷◌, if◌then◌else◌, Bool-cases, inl, inr,
}
use python_systemd.Base.Bytes.{eq_bytes}
use python_systemd.Base.Text.{codes}
use python_systemd.PyUtil.{Outcome, returns, raises, and_then}
use python_systemd.Reader.Entry.{Entry, Dict, lookup, set_item, joined, add_value, extract, collect}
use python_systemd.Reader.Entry.Collect.{values_of, entry_of}
use python_systemd.JournalPy.{
  Raw, realtime, monotonic, cursor, Values, single, Fields, put, raw_values, raw_fields, stamped,
}
use python_systemd.JournalPy.Fields.{get_field, get_field-put, AreDistinct, put-AreDistinct}

-- An entry of the journal: its fields, which are `first` and `more` by name and value, its times, and
-- its cursor in bytes and as a text.
pub record Stored : Type 0 where
  pub fields : List (List ℕ)
  pub first : List ℕ × List ℕ
  pub more : List (List ℕ × List ℕ)
  pub time : ℕ
  pub boot_time : ℕ × List ℕ
  pub position : List ℕ
  pub position_text : List ℕ

abbrev pub raw_entry : Option Entry → Option (Values Raw)
raw_entry none = none
raw_entry (some e) = some (raw_values e)

-- What a key has before the conversion.
abbrev pub field_of : Stored → List ℕ → Option (Values Raw)
field_of e key =
    if eq_bytes (codes "__CURSOR") key
    then some (single (cursor e.position_text))
    else (if eq_bytes (codes "__MONOTONIC_TIMESTAMP") key
        then some (single (monotonic e.boot_time))
        else (if eq_bytes (codes "__REALTIME_TIMESTAMP") key
            then some (single (realtime e.time))
            else raw_entry (entry_of (values_of key (e.first ∷ e.more)))))

raw_fields-set_item :
    (k : List ℕ) (e : Entry) (dict : Dict)
    → raw_fields (set_item k e dict) ≡ put k (raw_values e) (raw_fields dict)
unfolding set_item put
raw_fields-set_item k e [] = refl
raw_fields-set_item k e ((j, f) ∷ dict) = elim (Bool-cases (eq_bytes j k)) [
  | inl same ↦ rw same refl
  | inr other ↦ rw (other, raw_fields-set_item k e dict) refl
]

get_field-raw_fields :
    (key : List ℕ) (dict : Dict) → get_field key (raw_fields dict) ≡ raw_entry (lookup key dict)
unfolding get_field lookup
get_field-raw_fields key [] = refl
get_field-raw_fields key ((j, e) ∷ dict) = elim (Bool-cases (eq_bytes j key)) [
  | inl same ↦ rw same refl
  | inr other ↦ rw other (get_field-raw_fields key dict)
]

-- The dictionary that _get_all makes has each key once.
abbrev pub HasDistinct : Outcome Dict → Type 0
HasDistinct (returns dict) = AreDistinct (raw_fields dict)
HasDistinct (raises e) = Unit

pub collect-HasDistinct :
    (decode : List ℕ → Option (List ℕ)) (fields : List (List ℕ)) (dict : Dict)
    → AreDistinct (raw_fields dict)
    → HasDistinct (collect decode fields dict)
unfolding collect add_value
collect-HasDistinct decode [] dict h = h
collect-HasDistinct decode (msg ∷ fields) dict h =
    split (extract decode msg) (collect-HasDistinct decode fields)
  where
    split :
        (x : Outcome (List ℕ × List ℕ))
        → ((dict : Dict) → AreDistinct (raw_fields dict) → HasDistinct (collect decode fields dict))
        → HasDistinct (and_then x (λ p. collect decode fields (add_value p.0 p.1 dict)))
    split (returns (key, value)) further = further (add_value key value dict) (
        subst AreDistinct (sym (raw_fields-set_item key (joined (lookup key dict) value) dict))
          (put-AreDistinct key (raw_values (joined (lookup key dict) value)) (raw_fields dict) h))
    split (raises x) further = tt

pub stamped-field_of :
    (e : Stored) (dict : Dict)
    → AreDistinct (raw_fields dict)
    → ((key : List ℕ) → lookup key dict ≡ entry_of (values_of key (e.first ∷ e.more)))
    → AreDistinct (stamped dict e.time e.boot_time e.position_text)
      × ((key : List ℕ)
          → get_field key (stamped dict e.time e.boot_time e.position_text) ≡ field_of e key)
unfolding stamped
stamped-field_of e dict h held =
    let with_time : Fields Raw =
      put (codes "__REALTIME_TIMESTAMP") (single (realtime e.time)) (raw_fields dict) in
    let with_times : Fields Raw =
      put (codes "__MONOTONIC_TIMESTAMP") (single (monotonic e.boot_time)) with_time in
    (
      put-AreDistinct (codes "__CURSOR") (single (cursor e.position_text)) with_times (
          put-AreDistinct (codes "__MONOTONIC_TIMESTAMP") (single (monotonic e.boot_time)) with_time
            (put-AreDistinct (codes "__REALTIME_TIMESTAMP") (single (realtime e.time))
              (raw_fields dict) h)),
      λ key.
          rw
            (
              get_field-put (codes "__CURSOR") key (single (cursor e.position_text)) with_times,
              get_field-put (codes "__MONOTONIC_TIMESTAMP") key (single (monotonic e.boot_time))
                  with_time,
              get_field-put (codes "__REALTIME_TIMESTAMP") key (single (realtime e.time))
                  (raw_fields dict),
              get_field-raw_fields key dict,
              held key,
            )
            refl,
    )
