-- ===== src/PyUtil.antt =====
-- systemd/pyutil.c, and the Python objects and exceptions that the modules use.
pub mod Timeout
pub mod References
use python_systemd.Base.{
  ℕ, ◌+◌, ◌-◌, ◌*◌, ◌/◌, ◌%◌, ◌^◌, Bool, true, false, not, ◌&&◌, ◌||◌, Option, none, some, List, [],
  ◌∷◌, ltb, leb, ◌==◌, if◌then◌else◌,
}
use python_systemd.Base.Int.{ℤ, pos, negsuc, neg, is_neg, eqb_ℤ}
use python_systemd.Base.Word.{u32, u64}
use python_systemd.Util.{einval}

-- The exceptions that the C code raises itself; `os_error` carries the error number, `field_error` is
-- an OSError with a text, `key_error` carries its key, `key_format` the precision and the bytes of a
-- KeyError whose text PyErr_Format makes from "%.*s", `system_error` is what the interpreter raises
-- when a result and a pending exception do not agree, `abort` is a failed assertion or a step that C
-- leaves undefined, and `python` stands for one that a call into Python has raised.
pub data Exception : Type 0 where
  value_error : Exception
  type_error : Exception
  memory_error : Exception
  overflow_error : Exception
  os_error : ℕ → Exception
  field_error : Exception
  key_error : List ℕ → Exception
  key_format : (precision : ℕ) → List ℕ → Exception
  index_error : Exception
  attribute_error : Exception
  system_error : Exception
  abort : Exception
  python : Exception

-- What a function of a module gives its caller.
pub data Outcome (A : Type 0) : Type 0 where
  returns : A → Outcome A
  raises : Exception → Outcome A

abbrev pub and_then : {A B : Type 0} → Outcome A → (A → Outcome B) → Outcome B
and_then (returns a) f = f a
and_then (raises e) f = raises e

abbrev pub enomem : ℕ
enomem = 12

-- What is raised for the error number `e`; `with_message` tells if there is an `invalid_message`.
unfoldable pub error_exception : ℕ → Bool → Exception
error_exception e with_message =
    if e == einval && with_message
    then value_error
    else (if e == enomem then memory_error else os_error e)

unfoldable pub set_error : ℤ → Bool → Outcome ℕ
set_error (pos r) with_message = returns r
set_error (negsuc n) with_message = raises (error_exception (n + 1) with_message)

-- `if (set_error(r, NULL, message) < 0) return NULL;` and what is returned then.
abbrev pub checked : {H B : Type 0} → Bool → (ℕ → B) → ℤ × H → Outcome B × H
checked with_message f (r, j) = (and_then (set_error r with_message) (λ n. returns (f n)), j)

abbrev pub checked_out : {H A B : Type 0} → (A → B) → ℤ × A × H → Outcome B × H
checked_out f (r, a, j) = (and_then (set_error r false) (λ n. returns (f a)), j)

-- Py_RETURN_NONE, PyBool_FromLong
abbrev pub nothing : ℕ → Unit {0}
nothing n = tt

abbrev pub py_bool : ℕ → Bool
py_bool n = not (n == 0)

-- The cast to `int`.
abbrev pub to_int : ℕ → ℤ
to_int n = let n = u32 n in if ltb n (2 ^ 31) then pos n else negsuc (2 ^ 32 - n - 1)

-- `tv_sec` and `tv_nsec` are what CLOCK_MONOTONIC tells.
unfoldable pub absolute_timeout : (tv_sec tv_nsec t : ℕ) → ℤ
absolute_timeout tv_sec tv_nsec t =
    let n = u64 (tv_sec * 1000000 + tv_nsec / 1000) in
    if t == 2 ^ 64 - 1
    then negsuc 0
    else (if ltb n t then to_int (u64 (t - n + 999) / 1000) else pos 0)

-- A Python object where Unicode_FSConverter takes one; `convert` is PyUnicode_FSConverter. `none` in
-- the result is the NULL that stands for no path.
pub data PyObject : Type 0 where
  null : PyObject
  py_none : PyObject
  object : ℕ → PyObject

unfoldable pub unicode_fs_converter :
    (convert : PyObject → Outcome (Option (List ℕ))) → PyObject → Outcome (Option (List ℕ))
unicode_fs_converter convert null = convert null
unicode_fs_converter convert py_none = returns none
unicode_fs_converter convert (object o) = convert (object o)
