-- ===== src/Reader.antt =====
-- systemd/_reader.c, by what the functions do: `Convert` the conversion of arguments and the opening
-- of a journal, `Entry` the fields of an entry, `Unique` sets of values and names, `Move` the
-- position in the journal, `Catalog` the catalog, `Methods` the other methods.
pub mod Convert
pub mod Entry
pub mod Unique
pub mod Move
pub mod Catalog
pub mod Methods
pub mod Closing
pub mod Lifetime
use python_systemd.Base.{ℕ, Bool, List}
use python_systemd.Base.Int.{ℤ}

-- The functions of sd-journal on a journal handle `H`: the pointer that a Reader keeps in `j`, with
-- what it points to, and `null` for NULL. Each gives its result, what it stores through a pointer,
-- and the handle after it. `foreach_data` and `foreach_unique` are what the macros
-- SD_JOURNAL_FOREACH_DATA and SD_JOURNAL_FOREACH_UNIQUE go through, `enumerate_fields` the answers
-- of sd_journal_enumerate_fields after sd_journal_restart_fields.
pub record SdJournal (H : Type 0) : Type 0 where
  pub null : H
  pub is_null : H → Bool
  pub get_fd : H → ℤ × H
  pub reliable_fd : H → ℤ × H
  pub get_events : H → ℤ × H
  pub get_timeout : H → ℤ × ℕ × H
  pub get_usage : H → ℤ × ℕ × H
  pub next : H → ℤ × H
  pub previous : H → ℤ × H
  pub next_skip : ℕ → H → ℤ × H
  pub previous_skip : ℕ → H → ℤ × H
  pub get_data : List ℕ → H → ℤ × List ℕ × H
  pub foreach_data : H → List (List ℕ) × H
  pub get_realtime_usec : H → ℤ × ℕ × H
  pub get_monotonic_usec : H → ℤ × (ℕ × List ℕ) × H
  pub add_match : List ℕ → H → ℤ × H
  pub add_disjunction : H → ℤ × H
  pub add_conjunction : H → ℤ × H
  pub flush_matches : H → H
  pub seek_head : H → ℤ × H
  pub seek_tail : H → ℤ × H
  pub seek_realtime_usec : ℕ → H → ℤ × H
  pub seek_monotonic_usec : List ℕ → ℕ → H → ℤ × H
  pub process : H → ℤ × H
  pub wait : ℕ → H → ℤ × H
  pub seek_cursor : List ℕ → H → ℤ × H
  pub get_cursor : H → ℤ × List ℕ × H
  pub test_cursor : List ℕ → H → ℤ × H
  pub query_unique : List ℕ → H → ℤ × H
  pub foreach_unique : H → List (List ℕ) × H
  pub enumerate_fields : H → List (ℤ × List ℕ) × H
  pub has_runtime_files : H → ℤ × H
  pub has_persistent_files : H → ℤ × H
  pub get_catalog : H → ℤ × List ℕ × H
  pub get_data_threshold : H → ℤ × ℕ × H
  pub set_data_threshold : ℕ → H → ℤ × H
  pub have_enumerate_fields : Bool
