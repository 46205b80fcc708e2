-- ===== src/Id128.antt =====
-- systemd/id128.c: 128-bit identifiers as UUID objects.
pub mod Specific
use python_systemd.Base.{ℕ, ◌+◌, Bool, true, List, [], ◌∷◌, length, ◌==◌, if◌then◌else◌}
use python_systemd.Base.Int.{ℤ, pos, negsuc, neg}
use python_systemd.PyUtil.{
  Outcome, returns, raises, and_then, set_error, os_error, python, system_error,
}
use python_systemd.Daemon.{enosys}

-- The functions of sd-id128: a result and the bytes of an id.
pub record SdId128 : Type 0 where
  pub randomize : ℤ × List ℕ
  pub get_machine : ℤ × List ℕ
  pub get_boot : ℤ × List ℕ
  pub get_machine_app_specific : List ℕ → ℤ × List ℕ
  pub have_get_machine_app_specific : Bool

-- sizeof(sd_id128_t)
abbrev pub sizeof_id : ℕ
sizeof_id = 16

-- The attribute `bytes` of an argument: there is none, it has no buffer, or the bytes of its buffer.
pub data Attribute : Type 0 where
  no_attribute : Attribute
  no_buffer : Attribute
  buffer : List ℕ → Attribute

-- `uuid` is the import of uuid.UUID and its call with the argument `bytes`.
module _ {U : Type 0} (uuid : List ℕ → Outcome U) where
  unfoldable pub make_uuid : List ℕ → Outcome U
  make_uuid id = uuid id

  -- The body of the macro `helper`.
  unfoldable pub helper : ℤ × List ℕ → Outcome U
  helper (negsuc n, id) = raises (os_error (n + 1))
  helper (pos r, id) = make_uuid id

  -- PyModule_AddObject puts the object into the dictionary of the module.
  unfoldable pub add_id : List ℕ → List ℕ → List (List ℕ × U) → Outcome (List (List ℕ × U))
  add_id name id m = and_then (make_uuid id) λ obj. returns ((name, obj) ∷ m)

  -- The `||` of the calls of add_id in PyInit_id128.
  unfoldable pub add_ids : List (List ℕ × List ℕ) → List (List ℕ × U) → Outcome (List (List ℕ × U))
  add_ids [] m = returns m
  add_ids ((name, id) ∷ ids) m = and_then (add_id name id m) λ m. add_ids ids m

  module _ (sd : SdId128) where
    unfoldable pub randomize : Outcome U
    randomize = helper sd.randomize

    unfoldable pub get_machine : Outcome U
    get_machine = helper sd.get_machine

    unfoldable pub get_boot : Outcome U
    get_boot = helper sd.get_boot

    -- A NULL without an exception makes the interpreter raise SystemError.
    unfoldable pub app_specific : Attribute → Outcome U
    app_specific no_attribute = raises python
    app_specific no_buffer = raises python
    app_specific (buffer bytes) =
        if length bytes == sizeof_id
        then helper (sd.get_machine_app_specific bytes)
        else raises system_error

    abbrev pub unsupported : Attribute → Outcome U
    unsupported no_attribute = raises python
    unsupported no_buffer = and_then (set_error (neg (pos enosys)) true) λ n. raises system_error
    unsupported (buffer bytes) =
        and_then (set_error (neg (pos enosys)) true) λ n. raises system_error

    unfoldable pub get_machine_app_specific : Attribute → Outcome U
    get_machine_app_specific attribute =
        if sd.have_get_machine_app_specific then app_specific attribute else unsupported attribute
