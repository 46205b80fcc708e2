-- ===== src/Reader/Unique.antt =====
-- Sets of values and of names: Reader_query_unique and Reader_enumerate_fields of
-- systemd/_reader.c. A Python set is a list of its elements.
pub mod Sets
pub mod Names
use python_systemd.Base.{
  ℕ, Bool, true, false, Option, none, some, List, [], ◌∷◌, ◌==◌, if◌then◌else◌,
}
use python_systemd.Base.Int.{ℤ, pos, neg, eqb_ℤ}
use python_systemd.Base.Bytes.{set_add}
use python_systemd.Util.{einval}
use python_systemd.Util.Parse.{split_char}
use python_systemd.PyUtil.{Outcome, returns, raises, and_then, set_error, python}
use python_systemd.Daemon.{enosys, gives_null}
use python_systemd.Reader.{SdJournal}

-- The value behind the delimiter of one message of SD_JOURNAL_FOREACH_UNIQUE.
abbrev pub unique_value : Option (List ℕ × List ℕ) → Outcome (List ℕ)
unique_value none = gives_null (neg (pos einval)) true
unique_value (some (field, value)) = returns value

unfoldable pub unique_values : List (List ℕ) → List (List ℕ) → Outcome (List (List ℕ))
unique_values [] value_set = returns value_set
unique_values (uniq ∷ items) value_set =
    and_then (unique_value (split_char 61 uniq))
      λ value. unique_values items (set_add value value_set)

-- `decode` is PyUnicode_FromString.
module _ (decode : List ℕ → Option (List ℕ)) where
  abbrev pub named : List (List ℕ) → Option (List ℕ) → Outcome (List (List ℕ))
  named value_set none = raises python
  named value_set (some name) = returns (set_add name value_set)

  abbrev pub continued :
      Outcome (List (List ℕ))
      → (List (List ℕ) → Option (Outcome (List (List ℕ))))
      → Option (Outcome (List (List ℕ)))
  continued (raises e) loop = some (raises e)
  continued (returns value_set) loop = loop value_set

  -- The loop over the answers of sd_journal_enumerate_fields, in turn; `none` when they end before
  -- the loop does.
  unfoldable pub field_names : List (ℤ × List ℕ) → List (List ℕ) → Option (Outcome (List (List ℕ)))
  field_names [] value_set = none
  field_names ((r, field) ∷ answers) value_set =
      let added = and_then (set_error r true) λ n. named value_set (decode field) in
      let more = continued added (field_names answers) in
      if eqb_ℤ r (pos 0) then some (returns value_set) else more

module _ {H : Type 0} (sd : SdJournal H) (decode : List ℕ → Option (List ℕ)) where
  -- The key that is made of the query is not used, but an error in it is raised.
  abbrev pub query_key : List ℕ → Option (List ℕ) → Outcome (Unit {0})
  query_key query none = raises python
  query_key query (some key) = returns tt

  abbrev pub after_query : H → Outcome (Unit {0}) → Outcome (List (List ℕ)) × H
  after_query j (raises e) = (raises e, j)
  after_query j (returns u) = let (items, j) = sd.foreach_unique j in (unique_values items [], j)

  unfoldable pub query_unique : List ℕ → H → Outcome (List (List ℕ)) × H
  query_unique query j =
      let (r, j) = sd.query_unique query j in
      after_query j (and_then (set_error r true) λ n. query_key query (decode query))

  unfoldable pub enumerate_fields : H → Option (Outcome (List (List ℕ))) × H
  enumerate_fields j =
      let (answers, j') = sd.enumerate_fields j in
      if sd.have_enumerate_fields
      then (field_names decode answers [], j')
      else (some (gives_null (neg (pos enosys)) false), j)
