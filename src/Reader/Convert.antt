-- ===== src/Reader/Convert.antt =====
-- The conversion of arguments and Reader_init of systemd/_reader.c.
pub mod Lists
pub mod References
pub mod Open
use python_systemd.Base.{ℕ, Bool, true, false, Option, none, some, List, [], ◌∷◌, if◌then◌else◌}
use python_systemd.Base.Int.{ℤ, pos, negsuc, neg}
use python_systemd.PyUtil.{
  Outcome, returns, raises, and_then, set_error, Exception, python, system_error, type_error,
  value_error, overflow_error,
}
use python_systemd.Daemon.{enosys, fits_int}

-- A Python object that is not None: an integer, `none` when it does not fit `long`, or another
-- object, with what PyUnicode_FSConverter makes of it.
pub data Object : Type 0 where
  integer : Option ℤ → Object
  other : Option (List ℕ) → Object

unfoldable pub str_converter : Object → Outcome (List ℕ)
str_converter (integer z) = raises type_error
str_converter (other none) = raises python
str_converter (other (some text)) = returns text

-- An argument as it is passed, and as the converter leaves it: None becomes NULL.
pub data Argument (A : Type 0) : Type 0 where
  absent : Argument A
  passed_none : Argument A
  passed : A → Argument A

unfoldable pub null_converter : {A : Type 0} → Argument A → Option A
null_converter absent = none
null_converter passed_none = none
null_converter (passed a) = some a

unfoldable pub long_as_fd : Object → Outcome ℤ
long_as_fd (integer none) = raises python
long_as_fd (integer (some num)) = if fits_int num then returns num else raises overflow_error
long_as_fd (other text) = raises python

-- The loops of the converters over a sequence.
unfoldable pub strv_items : List Object → Outcome (List (List ℕ))
strv_items [] = returns []
strv_items (item ∷ items) =
    and_then (str_converter item) λ s. and_then (strv_items items) λ strv. returns (s ∷ strv)

unfoldable pub int_items : List Object → Outcome (List ℤ)
int_items [] = returns []
int_items (item ∷ items) =
    and_then (long_as_fd item) λ fd. and_then (int_items items) λ fds. returns (fd ∷ fds)

-- The `files` argument: a sequence, or an object that is none, on which PySequence_GetItem raises.
pub data Files : Type 0 where
  sequence : List Object → Files
  no_sequence : Files

unfoldable pub strv_converter : Files → Outcome (List (List ℕ))
strv_converter (sequence items) = strv_items items
strv_converter no_sequence = raises python

unfoldable pub intlist_converter : Files → Outcome (List ℤ)
intlist_converter (sequence items) = int_items items
intlist_converter no_sequence = raises python

-- The functions of sd-journal that open a journal: the result and, where they write it, the handle.
-- The flags tell which of them the build found.
pub record Opener (H : Type 0) : Type 0 where
  pub open_default : ℕ → ℤ × Option H
  pub open_directory : List ℕ → ℕ → ℤ × Option H
  pub open_directory_fd : ℤ → ℕ → ℤ × Option H
  pub open_files : List (List ℕ) → ℕ → ℤ × Option H
  pub open_files_fd : List ℤ → ℕ → ℤ × Option H
  pub open_namespace : List ℕ → ℕ → ℤ × Option H
  pub have_open_files : Bool
  pub have_open_directory_fd : Bool
  pub have_open_namespace : Bool

module _ {H : Type 0} (o : Opener H) where
  abbrev pub unsupported : ℤ × Option H
  unsupported = (neg (pos enosys), none)

  abbrev pub written : H → Option H → H
  written j none = j
  written j (some j') = j'

  -- `return set_error(r, NULL, "Opening the journal failed")`; with an exception already pending, a
  -- result that is no error is a SystemError.
  abbrev pub opened : Bool → H → ℤ × Option H → Outcome (Unit {0}) × H
  opened pending j (r, h) = (
    and_then (set_error r true) (λ n. if pending then raises system_error else returns tt),
    written j h,
  )

  abbrev pub with_argument :
      {A : Type 0} → Bool → H → Outcome A → (A → ℤ × Option H) → Outcome (Unit {0}) × H
  with_argument pending j (raises e) f = (raises e, j)
  with_argument pending j (returns a) f = opened pending j (f a)

  unfoldable pub open_path : ℕ → H → Object → Outcome (Unit {0}) × H
  open_path flags j (integer z) =
      with_argument false j (long_as_fd (integer z))
        λ fd. if o.have_open_directory_fd then o.open_directory_fd fd flags else unsupported
  open_path flags j (other text) =
      with_argument false j (str_converter (other text)) λ path. o.open_directory path flags

  abbrev pub open_strv : Bool → ℕ → H → Files → Outcome (Unit {0}) × H
  open_strv pending flags j files =
      with_argument pending j (strv_converter files)
        λ strv. if o.have_open_files then o.open_files strv flags else unsupported

  -- The first item decides what the items are; without one, PySequence_GetItem has raised.
  unfoldable pub open_files : ℕ → H → Files → Outcome (Unit {0}) × H
  open_files flags j (sequence (integer z ∷ items)) =
      with_argument false j (intlist_converter (sequence (integer z ∷ items)))
        λ fds. if o.have_open_directory_fd then o.open_files_fd fds flags else unsupported
  open_files flags j (sequence (other text ∷ items)) =
      open_strv false flags j (sequence (other text ∷ items))
  open_files flags j (sequence []) = open_strv true flags j (sequence [])
  open_files flags j no_sequence = open_strv true flags j no_sequence

  unfoldable pub open_namespace : ℕ → H → Object → Outcome (Unit {0}) × H
  open_namespace flags j namespace =
      if o.have_open_namespace
      then with_argument false j (str_converter namespace) (λ ns. o.open_namespace ns flags)
      else opened false j unsupported

  unfoldable pub init_with :
      ℕ → Option Object → Option Files → Option Object → H → Outcome (Unit {0}) × H
  init_with flags (some path) (some files) namespace j = (raises value_error, j)
  init_with flags (some path) none namespace j = open_path flags j path
  init_with flags none (some files) namespace j = open_files flags j files
  init_with flags none none (some namespace) j = open_namespace flags j namespace
  init_with flags none none none j = opened false j (o.open_default flags)

  -- Reader_init, on a Reader whose pointer is `j`.
  unfoldable pub init :
      ℕ → Argument Object → Argument Files → Argument Object → H → Outcome (Unit {0}) × H
  init flags path files namespace j =
      init_with flags (null_converter path) (null_converter files) (null_converter namespace) j
