-- ===== src/JournalPy/Iteration.antt =====
-- The entries that a Reader gives one after the other.
use python_systemd.Base.{ℕ, ◌≡◌, Option, some, List, [], ◌∷◌}
use python_systemd.Base.Int.{pos}
use python_systemd.PyUtil.{Outcome, returns}
use python_systemd.Reader.{SdJournal}
use python_systemd.Reader.Entry.Collect.{AreFields}
use python_systemd.Reader.Methods.{get_cursor}
use python_systemd.Reader.Move.{next}
use python_systemd.JournalPy.{Raw, Fields, convert_field}
use python_systemd.JournalPy.Fields.{get_field, mapped}
use python_systemd.JournalPy.Stamps.{Stored, field_of}

module _ {H : Type 0} (sd : SdJournal H) (decode : List ℕ → Option (List ℕ)) where
  -- The journal at an entry that can be read.
  pub record IsAt (j : H) (e : Stored) : Type 0 where
    pub foreach_data : sd.foreach_data j ≡ (e.fields, j)
    pub good : AreFields decode e.fields (e.first ∷ e.more)
    pub time : sd.get_realtime_usec j ≡ (pos 0, e.time, j)
    pub boot_time : sd.get_monotonic_usec j ≡ (pos 0, e.boot_time, j)
    pub position : sd.get_cursor j ≡ (pos 0, e.position, j)
    pub decodes : decode e.position ≡ some e.position_text

  -- These entries lie ahead, up to the end of the journal.
  abbrev pub AreAhead : H → List Stored → H → Type 0
  AreAhead j [] last = sd.next j ≡ (pos 0, last)
  AreAhead j (e ∷ entries) last =
      (j' : H) × (sd.next j ≡ (pos 1, j')) × IsAt j' e × AreAhead j' entries last

  module _ {V : Type 0} (convert : List ℕ → Raw → Outcome V) (unconverted : Raw → V)
      (shown : List ℕ → Raw → V)
      (converts : (key : List ℕ) (value : Raw)
        → convert_field convert unconverted key value ≡ returns (shown key value)) where
    -- Each dictionary has what is shown of the fields of its entry, and of its times and cursor.
    abbrev pub AreShown : List Stored → List (Fields V) → Type 0
    AreShown [] [] = Unit
    AreShown [] (d ∷ ds) = ⊥
    AreShown (e ∷ entries) [] = ⊥
    AreShown (e ∷ entries) (d ∷ ds) =
        ((key : List ℕ) → get_field key d ≡ mapped (shown key) (field_of e key))
        × AreShown entries ds

    abbrev pub Describes : Stored → Fields V → Type 0
    Describes e d = (key : List ℕ) → get_field key d ≡ mapped (shown key) (field_of e key)

    abbrev pub ShownAs : H → Stored → Outcome (Fields V) × H → Type 0
    ShownAs j e r = (d : Fields V) × (r ≡ (returns d, j)) × Describes e d
