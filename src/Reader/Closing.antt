-- ===== src/Reader/Closing.antt =====
-- A Reader over its life: its methods as data, and the calls of a program one after another. What a
-- method returns is forgotten here; `none` is a loop that has not ended.
pub mod Null
pub mod Refused
pub mod Runs
use python_systemd.Base.{ℕ, Bool, true, false, Option, none, some, List, [], ◌∷◌}
use python_systemd.Base.Int.{ℤ}
use python_systemd.PyUtil.{Outcome, returns, raises}
use python_systemd.Reader.{SdJournal}
use python_systemd.Reader.Convert.{Object}
use python_systemd.Reader.Entry
use python_systemd.Reader.Unique
use python_systemd.Reader.Move
use python_systemd.Reader.Move.{Id128}
use python_systemd.Reader.Catalog
use python_systemd.Reader.Methods

pub data Method : Type 0 where
  close exit enter get_closed flush_matches get_all : Method
  fileno reliable_fd get_events get_timeout get_timeout_ms get_usage get_realtime get_monotonic :
      Method
  add_disjunction add_conjunction seek_head seek_tail process get_cursor : Method
  enumerate_fields has_runtime_files has_persistent_files get_catalog get_data_threshold : Method
  next previous : ℤ → Method
  get add_match seek_cursor test_cursor query_unique : List ℕ → Method
  seek_realtime : ℕ → Method
  seek_monotonic : ℕ → Option (List ℕ) → Method
  wait : Option ℤ → Method
  set_data_threshold : Option Object → Method

-- What the methods read beside the journal: identifiers, texts, the clock, uninitialised memory.
pub record Context : Type 0 where
  pub ids : Id128
  pub decode : List ℕ → Option (List ℕ)
  pub tv_sec : ℕ
  pub tv_nsec : ℕ
  pub memory : ℤ

abbrev pub forget : {A : Type 0} → Outcome A → Outcome (Unit {0})
forget (returns a) = returns tt
forget (raises e) = raises e

abbrev pub ended : {A H : Type 0} → Outcome A × H → Option (Outcome (Unit {0})) × H
ended (o, j) = (some (forget o), j)

abbrev pub ended_loop : {A H : Type 0} → Option (Outcome A) × H → Option (Outcome (Unit {0})) × H
ended_loop (none, j) = (none, j)
ended_loop (some o, j) = (some (forget o), j)

module _ {H : Type 0} (sd : SdJournal H) (c : Context) where
  unfoldable pub run : Method → H → Option (Outcome (Unit {0})) × H
  run close j = ended (Methods.close sd j)
  run exit j = ended (Methods.exit sd j)
  run enter j = ended (Methods.enter sd j)
  run get_closed j = ended (Methods.get_closed sd j)
  run flush_matches j = ended (Methods.flush_matches sd j)
  run get_all j = ended (Entry.get_all sd c.decode j)
  run fileno j = ended (Methods.fileno sd j)
  run reliable_fd j = ended (Methods.reliable_fd sd j)
  run get_events j = ended (Methods.get_events sd j)
  run get_timeout j = ended (Methods.get_timeout sd j)
  run get_timeout_ms j = ended (Methods.get_timeout_ms sd c.tv_sec c.tv_nsec j)
  run get_usage j = ended (Methods.get_usage sd j)
  run get_realtime j = ended (Methods.get_realtime sd j)
  run get_monotonic j = ended (Methods.get_monotonic sd j)
  run add_disjunction j = ended (Methods.add_disjunction sd j)
  run add_conjunction j = ended (Methods.add_conjunction sd j)
  run seek_head j = ended (Move.seek_head sd j)
  run seek_tail j = ended (Move.seek_tail sd j)
  run process j = ended (Methods.process sd j)
  run get_cursor j = ended (Methods.get_cursor sd c.decode j)
  run enumerate_fields j = ended_loop (Unique.enumerate_fields sd c.decode j)
  run has_runtime_files j = ended (Methods.has_runtime_files sd j)
  run has_persistent_files j = ended (Methods.has_persistent_files sd j)
  run get_catalog j = ended (Catalog.reader_get_catalog c.decode sd j)
  run get_data_threshold j = ended (Methods.get_data_threshold sd j)
  run (next skip) j = ended (Move.next sd skip j)
  run (previous skip) j = ended (Move.previous sd skip j)
  run (get field) j = ended (Entry.get sd field j)
  run (add_match match) j = ended (Methods.add_match sd match j)
  run (seek_cursor cursor) j = ended (Move.seek_cursor sd cursor j)
  run (test_cursor cursor) j = ended (Methods.test_cursor sd cursor j)
  run (query_unique query) j = ended (Unique.query_unique sd c.decode query j)
  run (seek_realtime timestamp) j = ended (Move.seek_realtime sd timestamp j)
  run (seek_monotonic timestamp bootid) j = ended (Move.seek_monotonic sd c.ids timestamp bootid j)
  run (wait timeout) j = ended (Methods.wait sd c.memory timeout j)
  run (set_data_threshold value) j = ended (Methods.set_data_threshold sd value j)

  -- The calls in turn, whatever they raise: the handle at the end.
  unfoldable pub run_all : List Method → H → H
  run_all [] j = j
  run_all (m ∷ methods) j = run_all methods (run m j).1
