-- ===== src/Reader/Catalog.antt =====
-- Catalog entries: Reader_get_catalog and get_catalog of systemd/_reader.c.
use python_systemd.Base.{
  ℕ, ◌-◌, true, false, Option, none, some, List, [], ◌∷◌, length, drop, ltb, if◌then◌else◌,
}
use python_systemd.Base.Int.{ℤ, pos, neg, eqb_ℤ}
use python_systemd.PyUtil.{
  Outcome, returns, raises, and_then, set_error, python, key_format, index_error, abort,
}
use python_systemd.Daemon.{gives_null}
use python_systemd.Reader.{SdJournal}
use python_systemd.Reader.Entry.{enoent}
use python_systemd.Reader.Move.{Id128}

-- "MESSAGE_ID"
abbrev pub message_id : List ℕ
message_id = 77 ∷ 69 ∷ 83 ∷ 83 ∷ 65 ∷ 71 ∷ 69 ∷ 95 ∷ 73 ∷ 68 ∷ []

-- sizeof("MESSAGE_ID"), the NUL included
abbrev pub sizeof_message_id : ℕ
sizeof_message_id = 11

-- unicode_FromString
abbrev pub as_text : Option (List ℕ) → Outcome (List ℕ)
as_text none = raises python
as_text (some text) = returns text

-- What is raised when there is no catalog entry, from what sd_journal_get_data gives.
unfoldable pub no_catalog : ℤ → List ℕ → Outcome (List ℕ)
no_catalog r mid =
    if eqb_ℤ r (pos 0)
    then (if ltb sizeof_message_id (length mid)
        then raises (key_format (length mid - sizeof_message_id) (drop sizeof_message_id mid))
        else raises abort)
    else (if eqb_ℤ r (neg (pos enoent)) then raises index_error else gives_null r false)

module _ (decode : List ℕ → Option (List ℕ)) where
  abbrev pub catalog_text : ℤ → List ℕ → Outcome (List ℕ)
  catalog_text r msg = and_then (set_error r false) λ n. as_text (decode msg)

  module _ {H : Type 0} (sd : SdJournal H) where
    unfoldable pub reader_get_catalog : H → Outcome (List ℕ) × H
    reader_get_catalog j =
        let (r, msg, j) = sd.get_catalog j in
        let (found, mid, j') = sd.get_data message_id j in
        if eqb_ℤ r (neg (pos enoent)) then (no_catalog found mid, j') else (catalog_text r msg, j)

  -- The function of the module; `catalog` is sd_journal_get_catalog_for_message_id.
  unfoldable pub get_catalog : Id128 → (catalog : List ℕ → ℤ × List ℕ) → List ℕ → Outcome (List ℕ)
  get_catalog ids catalog id =
      and_then (set_error (ids.from_string id).0 true) λ n.
        catalog_text (catalog ((ids.from_string id).1)).0 ((catalog ((ids.from_string id).1)).1)
