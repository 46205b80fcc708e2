-- ===== src/Reader/Methods.antt =====
-- The other methods of systemd/_reader.c.
use python_systemd.Base.{
  ℕ, ◌-◌, ◌^◌, Bool, true, false, Option, none, some, List, length, ltb, ◌==◌, if◌then◌else◌,
}
use python_systemd.Base.Int.{ℤ, pos, negsuc, neg}
use python_systemd.PyUtil.{
  Outcome, returns, raises, and_then, set_error, python, type_error, attribute_error,
  absolute_timeout,
}
use python_systemd.Daemon.{enosys, gives_null}
use python_systemd.Reader.{SdJournal}
use python_systemd.PyUtil.{checked, checked_out, nothing, py_bool}
use python_systemd.Reader.Convert.{Object, integer, other}
use python_systemd.Reader.Catalog.{as_text}

abbrev pub enobufs : ℕ
enobufs = 105

-- The conversion of `int64_t` and `long` to 64 bits without a sign.
abbrev pub to_u64 : ℤ → ℕ
to_u64 (pos n) = n
to_u64 (negsuc n) = 2 ^ 64 - 1 - n

abbrev pub unless_infinite : ℕ → Option ℕ
unless_infinite t = if t == 2 ^ 64 - 1 then none else some t

module _ {H : Type 0} (sd : SdJournal H) where
  unfoldable pub fileno : H → Outcome ℕ × H
  fileno j = checked false (λ fd. fd) (sd.get_fd j)

  unfoldable pub reliable_fd : H → Outcome Bool × H
  reliable_fd j = checked false py_bool (sd.reliable_fd j)

  unfoldable pub get_events : H → Outcome ℕ × H
  get_events j = checked false (λ r. r) (sd.get_events j)

  unfoldable pub get_timeout : H → Outcome (Option ℕ) × H
  get_timeout j = checked_out unless_infinite (sd.get_timeout j)

  unfoldable pub get_timeout_ms : (tv_sec tv_nsec : ℕ) → H → Outcome ℤ × H
  get_timeout_ms tv_sec tv_nsec j = checked_out (absolute_timeout tv_sec tv_nsec) (sd.get_timeout j)

  -- sd_journal_close releases what the pointer points to.
  unfoldable pub close : H → Outcome (Unit {0}) × H
  close j = (returns tt, sd.null)

  unfoldable pub get_usage : H → Outcome ℕ × H
  get_usage j = checked_out (λ bytes. bytes) (sd.get_usage j)

  unfoldable pub enter : H → Outcome (Unit {0}) × H
  enter j = (returns tt, j)

  unfoldable pub exit : H → Outcome (Unit {0}) × H
  exit j = close j

  unfoldable pub get_realtime : H → Outcome ℕ × H
  get_realtime j = checked_out (λ timestamp. timestamp) (sd.get_realtime_usec j)

  unfoldable pub get_monotonic : H → Outcome (ℕ × List ℕ) × H
  get_monotonic j = checked_out (λ p. p) (sd.get_monotonic_usec j)

  unfoldable pub add_match : List ℕ → H → Outcome (Unit {0}) × H
  add_match match j =
      if ltb (2 ^ 31 - 1) (length match)
      then (gives_null (neg (pos enobufs)) false, j)
      else checked true nothing (sd.add_match match j)

  unfoldable pub add_disjunction : H → Outcome (Unit {0}) × H
  add_disjunction j = checked false nothing (sd.add_disjunction j)

  unfoldable pub add_conjunction : H → Outcome (Unit {0}) × H
  add_conjunction j = checked false nothing (sd.add_conjunction j)

  unfoldable pub flush_matches : H → Outcome (Unit {0}) × H
  flush_matches j = (returns tt, sd.flush_matches j)

  unfoldable pub process : H → Outcome ℕ × H
  process j = checked false (λ r. r) (sd.process j)

  -- Without an argument, `timeout` is what the memory holds.
  unfoldable pub wait : (memory : ℤ) → Option ℤ → H → Outcome ℕ × H
  wait memory none j = checked false (λ r. r) (sd.wait (to_u64 memory) j)
  wait memory (some timeout) j = checked false (λ r. r) (sd.wait (to_u64 timeout) j)

  unfoldable pub get_cursor : (decode : List ℕ → Option (List ℕ)) → H → Outcome (List ℕ) × H
  get_cursor decode j =
      let (r, cursor, j) = sd.get_cursor j in
      (and_then (set_error r false) (λ n. as_text (decode cursor)), j)

  unfoldable pub test_cursor : List ℕ → H → Outcome Bool × H
  test_cursor cursor j = checked false py_bool (sd.test_cursor cursor j)

  unfoldable pub has_runtime_files : H → Outcome Bool × H
  has_runtime_files j =
      if sd.have_enumerate_fields
      then checked false py_bool (sd.has_runtime_files j)
      else (gives_null (neg (pos enosys)) false, j)

  unfoldable pub has_persistent_files : H → Outcome Bool × H
  has_persistent_files j =
      if sd.have_enumerate_fields
      then checked false py_bool (sd.has_persistent_files j)
      else (gives_null (neg (pos enosys)) false, j)

  unfoldable pub get_data_threshold : H → Outcome ℕ × H
  get_data_threshold j = checked_out (λ cvalue. cvalue) (sd.get_data_threshold j)

  -- Where the integer does not fit `long`, the conversion gives -1 and leaves an exception pending.
  abbrev pub stored : Bool → ℤ × H → Outcome (Unit {0}) × H
  stored pending (r, j) =
      (and_then (set_error r false) (λ n. if pending then raises python else returns tt), j)

  -- A value that is deleted is `none`.
  unfoldable pub set_data_threshold : Option Object → H → Outcome (Unit {0}) × H
  set_data_threshold none j = (raises attribute_error, j)
  set_data_threshold (some (other text)) j = (raises type_error, j)
  set_data_threshold (some (integer none)) j =
      stored true (sd.set_data_threshold (to_u64 (negsuc 0)) j)
  set_data_threshold (some (integer (some value))) j =
      stored false (sd.set_data_threshold (to_u64 value) j)

  unfoldable pub get_closed : H → Outcome Bool × H
  get_closed j = (returns (sd.is_null j), j)
