-- ===== src/Tests/Modules.antt =====
-- Modules that are imported, with names that are refused.
use python_systemd.Base.{ℕ, ◌≡◌, refl, Bool, true, false, Option, none, some, List, [], ◌∷◌, not}
use python_systemd.Base.Int.{pos}
use Prim.Native.String.{String}
use text.Mathlib.Text.{◌==◌ as str_eq}
use python_systemd.PyUtil.References.{Counts}
use python_systemd.Modules.{
  Constants, Imported, version_entry, reader_entries, daemon_entries, id_entries, init_reader,
  init_login, init_daemon, init_journal, init_id128,
}
use python_systemd.Modules.Counted.{adds_all, leaked}
use python_systemd.Modules.Made.{IsModule}
use python_systemd.Modules.Imports.{IsOnce, login_entries, init_reader-IsModule, inits-IsModule}

abbrev no_counts : Counts
no_counts p = 0

abbrev some_constants : Constants
some_constants = record {
  nop = pos 0;
  append = pos 1;
  invalidate = pos 2;
  local_only = pos 1;
  runtime_only = pos 2;
  system = pos 4;
  current_user = pos 8;
  os_root = pos 16;
  listen_fds_start = pos 3;
  version = "235";
}

abbrev some_ids : List (String × Option ℕ)
some_ids =
    ("SD_MESSAGE_BACKTRACE", some 4) ∷ ("Monotonic", some 5) ∷ ("SD_MESSAGE_BOOTCHART", none) ∷ []

-- A dictionary without room for one name.
abbrev refuses : String → Bool
refuses name = not (str_eq name "Monotonic")

init_reader-IsModule_example :
    (r : Imported × Bool × ℕ) × (init_reader refuses true true some_constants 0 1 2
        (false, 0)
        no_counts
      ≡ some r)
    × IsModule
        (adds_all refuses (reader_entries some_constants 1 2))
        0
        (reader_entries some_constants 1 2)
        (leaked refuses (reader_entries some_constants 1 2))
        no_counts
        r.0
    × IsOnce (r.1, r.2)
init_reader-IsModule_example =
    init_reader-IsModule refuses true true some_constants 0 1 2 (false, 0) no_counts refl refl refl
      refl

inits-IsModule_example :
    ((r : Imported) × (init_login refuses true true some_constants 0 3 no_counts ≡ some r)
      × IsModule
          (adds_all refuses (login_entries some_constants 3))
          0
          (login_entries some_constants 3)
          []
          no_counts
          r)
    × ((r : Imported) × (init_daemon refuses true some_constants 0 no_counts ≡ some r)
        × IsModule
            (adds_all refuses (daemon_entries some_constants))
            0
            (daemon_entries some_constants)
            []
            no_counts
            r)
    × ((r : Imported) × (init_journal refuses true some_constants 0 no_counts ≡ some r)
        × IsModule
            (adds_all refuses (version_entry some_constants ∷ []))
            0
            (version_entry some_constants ∷ [])
            []
            no_counts
            r)
    × ((r : Imported) × (init_id128 refuses true some_constants some_ids 0 no_counts ≡ some r)
        × IsModule
            (adds_all refuses (id_entries some_constants some_ids))
            0
            (id_entries some_constants some_ids)
            (leaked refuses (id_entries some_constants some_ids))
            no_counts
            r)
inits-IsModule_example =
    inits-IsModule refuses true true some_constants some_ids 0 3 no_counts refl refl refl
