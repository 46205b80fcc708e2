-- ===== src/Modules.antt =====
-- The functions PyInit_* of systemd/_reader.c, login.c, _daemon.c, _journal.c, id128.c, _fsprg.c and
-- _siphash24.c: what a module gets, and which references are left when it cannot be made.
pub mod Counted
pub mod Made
pub mod Imports
use python_systemd.Base.{
  ℕ, suc, ◌+◌, Bool, true, false, ◌&&◌, Option, none, some, List, [], ◌∷◌, ◌++◌, map, ◌==◌,
  if◌then◌else◌,
}
use python_systemd.Base.Int.{ℤ}
use Prim.Native.String.{String}
use python_systemd.Base.Buffer.{◌>>=◌}
use python_systemd.PyUtil.References.{Counts, incref, decref, release_container}

-- A call that adds to a module: PyModule_AddIntConstant, PyModule_AddStringConstant,
-- PyModule_AddObject on a reference that is held before all calls, and add_id, which makes its object
-- first, `none` where that fails.
pub data Entry : Type 0 where
  int_constant : String → ℤ → Entry
  string_constant : String → String → Entry
  held_object : String → ℕ → Entry
  new_object : String → Option ℕ → Entry

abbrev pub name_of : Entry → String
name_of (int_constant name value) = name
name_of (string_constant name value) = name
name_of (held_object name o) = name
name_of (new_object name o) = name

-- The object that a module owns by an entry.
abbrev pub object_of : Entry → List ℕ
object_of (int_constant name value) = []
object_of (string_constant name value) = []
object_of (held_object name o) = o ∷ []
object_of (new_object name none) = []
object_of (new_object name (some o)) = o ∷ []

abbrev pub objects : List Entry → List ℕ
objects [] = []
objects (e ∷ entries) = object_of e ++ objects entries

-- The references that are new when the call for an entry begins.
abbrev pub make : Entry → Counts → Counts
make (new_object name (some o)) c = incref o c
make e c = c

abbrev pub is_made : Entry → Bool
is_made (new_object name none) = false
is_made e = true

-- The values of SD_JOURNAL_* and SD_LISTEN_FDS_START, and PACKAGE_VERSION.
pub record Constants : Type 0 where
  pub nop : ℤ
  pub append : ℤ
  pub invalidate : ℤ
  pub local_only : ℤ
  pub runtime_only : ℤ
  pub system : ℤ
  pub current_user : ℤ
  pub os_root : ℤ
  pub listen_fds_start : ℤ
  pub version : String

abbrev pub version_entry : Constants → Entry
version_entry k = string_constant "__version__" k.version

abbrev pub reader_entries : Constants → (reader_type monotonic_type : ℕ) → List Entry
reader_entries k reader_type monotonic_type =
    held_object "_Reader" reader_type
    ∷ held_object "Monotonic" monotonic_type
    ∷ int_constant "NOP" k.nop
    ∷ int_constant "APPEND" k.append
    ∷ int_constant "INVALIDATE" k.invalidate
    ∷ int_constant "LOCAL_ONLY" k.local_only
    ∷ int_constant "RUNTIME_ONLY" k.runtime_only
    ∷ int_constant "SYSTEM" k.system
    ∷ int_constant "SYSTEM_ONLY" k.system
    ∷ int_constant "CURRENT_USER" k.current_user
    ∷ int_constant "OS_ROOT" k.os_root
    ∷ version_entry k
    ∷ []

abbrev pub daemon_entries : Constants → List Entry
daemon_entries k = int_constant "LISTEN_FDS_START" k.listen_fds_start ∷ version_entry k ∷ []

-- The calls of add_id, by name and the UUID object if it can be made.
abbrev pub id_entries : Constants → List (String × Option ℕ) → List Entry
id_entries k ids = map (λ (i : String × Option ℕ). new_object i.0 i.1) ids ++ (version_entry k ∷ [])

-- The module of a call, `none` for NULL, and the counts after it.
abbrev pub Imported : Type 0
Imported = Option (List Entry) × Counts

-- `initialized` is the static variable; the number counts the calls of PyStructSequence_InitType.
unfoldable pub init_monotonic : Bool × ℕ → Bool × ℕ
init_monotonic (false, n) = (true, suc n)
init_monotonic (true, n) = (true, n)

unfoldable pub init_fsprg : (created : Bool) → (m : ℕ) → Counts → Imported
init_fsprg created m c = if created then (some [], incref m c) else (none, c)

unfoldable pub init_siphash24 : (created : Bool) → (m : ℕ) → Counts → Imported
init_siphash24 created m c = if created then (some [], incref m c) else (none, c)

-- Whether the dictionary of a module takes an entry of a name.
module _ (accepts : String → Bool) where
  abbrev pub takes : Entry → Bool
  takes e = is_made e && accepts (name_of e)

  -- The calls, joined by `||`.
  unfoldable pub add_all : List Entry → (done : List Entry) → Counts → Bool × List Entry × Counts
  add_all [] done c = (true, done, c)
  add_all (e ∷ entries) done c =
      let rest = add_all entries (done ++ (e ∷ [])) (make e c) in
      if takes e then rest else (false, done, make e c)

  -- Py_DECREF(m), and NULL.
  unfoldable pub give_up : (m : ℕ) → (done : List Entry) → Counts → Option Imported
  give_up m done c = release_container m (objects done) c >>= λ c. some (none, c)

  abbrev pub finish : (m : ℕ) → Bool × List Entry × Counts → Option Imported
  finish m (true, done, c) = some (some done, c)
  finish m (false, done, c) = give_up m done c

  -- PyModule_Create, with `created` for its success, and the calls that follow.
  unfoldable pub create_with :
      (created : Bool) → (m : ℕ) → List Entry → Counts → Counts → Option Imported
  create_with created m entries held c =
      if created then finish m (add_all entries [] (incref m held)) else some (none, c)

  unfoldable pub init_reader :
      (ready created : Bool)
      → Constants
      → (m reader_type monotonic_type : ℕ) → Bool × ℕ
      → Counts
      → Option (Imported × Bool × ℕ)
  init_reader ready created k m reader_type monotonic_type initialized c =
      if ready && created
      then (create_with created m (reader_entries k reader_type monotonic_type)
            (incref monotonic_type (incref reader_type c)) c
          >>= λ r. let i = init_monotonic initialized in some (r, i.0, i.1))
      else some ((none, c), initialized.0, initialized.1)

  abbrev pub then_monitor : (m monitor_type : ℕ) → Bool × List Entry × Counts → Option Imported
  then_monitor m monitor_type (true, done, c) = some (some done, c)
  then_monitor m monitor_type (false, done, c) = decref monitor_type c >>= give_up m done

  -- The type is counted once the version has been added, and released where it is not taken.
  abbrev pub then_version : (m monitor_type : ℕ) → Bool × List Entry × Counts → Option Imported
  then_version m monitor_type (true, done, c) =
      then_monitor m monitor_type
        (add_all (held_object "Monitor" monitor_type ∷ []) done (incref monitor_type c))
  then_version m monitor_type (false, done, c) = give_up m done c

  unfoldable pub init_login :
      (ready created : Bool) → Constants → (m monitor_type : ℕ) → Counts → Option Imported
  init_login ready created k m monitor_type c =
      if ready && created
      then then_version m monitor_type (add_all (version_entry k ∷ []) [] (incref m c))
      else some (none, c)

  unfoldable pub init_daemon : (created : Bool) → Constants → (m : ℕ) → Counts → Option Imported
  init_daemon created k m c = create_with created m (daemon_entries k) c c

  unfoldable pub init_journal : (created : Bool) → Constants → (m : ℕ) → Counts → Option Imported
  init_journal created k m c = create_with created m (version_entry k ∷ []) c c

  unfoldable pub init_id128 :
      (created : Bool) → Constants → List (String × Option ℕ) → (m : ℕ) → Counts → Option Imported
  init_id128 created k ids m c = create_with created m (id_entries k ids) c c
