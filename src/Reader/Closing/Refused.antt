-- ===== src/Reader/Closing/Refused.antt =====
-- Which methods a closed Reader refuses.
use python_systemd.Base.{
  ℕ, ◌+◌, ◌-◌, ◌^◌, ◌==◌, length, ltb, ◌≡◌, refl, Bool, true, false, Option, none, some, List,
  if◌then◌else◌, inl, inr, Bool-cases,
}
use python_systemd.Base.Int.{ℤ, pos, negsuc, eqb_ℤ}
use python_systemd.PyUtil.{Exception, Outcome, returns, raises, set_error, absolute_timeout}
use python_systemd.Reader.{SdJournal}
use python_systemd.PyUtil.{checked, checked_out, py_bool, nothing}
use python_systemd.Reader.Convert.{Object, integer, other}
use python_systemd.Reader.Entry
use python_systemd.Reader.Unique
use python_systemd.Reader.Move
use python_systemd.Reader.Catalog
use python_systemd.Reader.Methods
use python_systemd.Reader.Closing.{Method, Context, ended, ended_loop, run}
use python_systemd.Reader.Closing.Null.{IsNullSafe}

-- The calls that do not need a journal.
abbrev pub works_closed : Method → Bool
works_closed Method.close = true
works_closed Method.exit = true
works_closed Method.enter = true
works_closed Method.get_closed = true
works_closed Method.flush_matches = true
works_closed Method.get_all = true
works_closed _ = false

-- On a closed Reader a call raises and leaves it closed.
abbrev Refused : {H : Type 0} → H → Option (Outcome (Unit {0})) × H → Type 0
Refused j r = (e : Exception) × (r ≡ (some (raises e), j))

module _ {H : Type 0} (sd : SdJournal H) (s : IsNullSafe sd) (c : Context) where
  checked_null :
      {B : Type 0} (with_message : Bool) (f : ℕ → B) (r : ℤ × H)
      → r ≡ (negsuc 21, sd.null)
      → Refused sd.null (ended (checked with_message f r))
  unfolding set_error
  checked_null with_message f r e = rw e (_, refl)

  checked_out_null :
      {A B : Type 0} (f : A → B) (r : ℤ × A × H)
      → (a : A) × (r ≡ (negsuc 21, a, sd.null))
      → Refused sd.null (ended (checked_out f r))
  unfolding set_error
  checked_out_null f r (a, e) = rw e (_, refl)

  either_null :
      {B : Type 0} (b : Bool) (x y : Outcome B × H)
      → Refused sd.null (ended x)
      → Refused sd.null (ended y)
      → Refused sd.null (ended (if b then x else y))
  either_null true x y hx hy = hx
  either_null false x y hx hy = hy

  move_null : (skip : ℤ) → Move.move sd skip sd.null ≡ (negsuc 21, sd.null)
  unfolding Move.move
  move_null (pos n) = elim (Bool-cases (n == 1)) [
    | inl y ↦ rw y s.next_null
    | inr z ↦ rw z (s.next_skip_null n)
  ]
  move_null (negsuc n) = elim (Bool-cases (n == 0)) [
    | inl y ↦ rw y s.previous_null
    | inr z ↦ rw z (s.previous_skip_null (n + 1))
  ]

  next_null : (skip : ℤ) → Refused sd.null (ended (Move.next sd skip sd.null))
  unfolding Move.next
  next_null skip =
      either_null (eqb_ℤ skip (pos 0)) _ _ (_, refl)
        (either_null (eqb_ℤ skip Move.least_int64) _ _ (_, refl)
          (checked_null false py_bool _ (move_null skip)))

  back_null : (skip : Option ℤ) → Refused sd.null (ended (Move.move_back sd skip sd.null))
  back_null none = (_, refl)
  back_null (some skip) = next_null skip

  cursor_null : Refused sd.null (ended (Methods.get_cursor sd c.decode sd.null))
  unfolding Methods.get_cursor set_error
  cursor_null = let (a, e) = s.get_cursor_null in rw e (_, refl)

  fields_null : Refused sd.null (ended_loop (Unique.enumerate_fields sd c.decode sd.null))
  unfolding Unique.enumerate_fields Unique.field_names set_error
  fields_null =
      let (a, e) = s.enumerate_fields_null in
      elim (Bool-cases sd.have_enumerate_fields) [
        | inl y ↦ rw (y, e) (_, refl)
        | inr z ↦ rw z (_, refl)
      ]

  catalog_null : Refused sd.null (ended (Catalog.reader_get_catalog c.decode sd sd.null))
  unfolding Catalog.reader_get_catalog set_error
  catalog_null = let (a, e) = s.get_catalog_null in rw e (_, refl)

  get_null : (field : List ℕ) → Refused sd.null (ended (Entry.get sd field sd.null))
  unfolding Entry.get set_error
  get_null field = let (a, e) = s.get_data_null field in rw e (_, refl)

  match_null : (match : List ℕ) → Refused sd.null (ended (Methods.add_match sd match sd.null))
  unfolding Methods.add_match set_error
  match_null match =
      either_null (ltb (2 ^ 31 - 1) (length match)) _ _ (_, refl)
        (checked_null true nothing _ (s.add_match_null match))

  query_null :
      (query : List ℕ) → Refused sd.null (ended (Unique.query_unique sd c.decode query sd.null))
  unfolding Unique.query_unique set_error
  query_null query = rw (s.query_unique_null query) (_, refl)

  in_boot_null :
      (t : ℕ) (id : Outcome (List ℕ)) → Refused sd.null (ended (Move.seek_in_boot sd t sd.null id))
  in_boot_null t (raises e) = (e, refl)
  in_boot_null t (returns id) = checked_null false nothing _ (s.seek_monotonic_usec_null id t)

  monotonic_null :
      (t : ℕ) (bootid : Option (List ℕ))
      → Refused sd.null (ended (Move.seek_monotonic sd c.ids t bootid sd.null))
  unfolding Move.seek_monotonic
  monotonic_null t bootid = in_boot_null t _

  wait_null :
      (timeout : Option ℤ) → Refused sd.null (ended (Methods.wait sd c.memory timeout sd.null))
  unfolding Methods.wait
  wait_null none = checked_null false _ _ (s.wait_null _)
  wait_null (some t) = checked_null false _ _ (s.wait_null _)

  threshold_null :
      (value : Option Object)
      → Refused sd.null (ended (Methods.set_data_threshold sd value sd.null))
  unfolding Methods.set_data_threshold set_error
  threshold_null none = (_, refl)
  threshold_null (some (other text)) = (_, refl)
  threshold_null (some (integer none)) = rw (s.set_data_threshold_null _) (_, refl)
  threshold_null (some (integer (some value))) = rw (s.set_data_threshold_null _) (_, refl)

  -- A Reader without a journal refuses every method that needs one, and goes on without.
  pub run_null : (m : Method) → works_closed m ≡ false → Refused sd.null (run sd c m sd.null)
  unfolding run Methods.fileno Methods.reliable_fd Methods.get_events Methods.add_disjunction
      Methods.add_conjunction Move.seek_head Move.seek_tail Methods.process Methods.get_timeout
      Methods.get_timeout_ms Methods.get_usage Methods.get_realtime Methods.get_monotonic
      Methods.get_data_threshold Methods.has_runtime_files Methods.has_persistent_files
      Move.previous Move.seek_cursor Methods.test_cursor Move.seek_realtime set_error
  run_null Method.close h = cc
  run_null Method.exit h = cc
  run_null Method.enter h = cc
  run_null Method.get_closed h = cc
  run_null Method.flush_matches h = cc
  run_null Method.get_all h = cc
  run_null Method.fileno h = checked_null false _ _ (s.get_fd_null)
  run_null Method.reliable_fd h = checked_null false _ _ (s.reliable_fd_null)
  run_null Method.get_events h = checked_null false _ _ (s.get_events_null)
  run_null Method.add_disjunction h = checked_null false _ _ (s.add_disjunction_null)
  run_null Method.add_conjunction h = checked_null false _ _ (s.add_conjunction_null)
  run_null Method.seek_head h = checked_null false _ _ (s.seek_head_null)
  run_null Method.seek_tail h = checked_null false _ _ (s.seek_tail_null)
  run_null Method.process h = checked_null false _ _ (s.process_null)
  run_null Method.get_timeout h = checked_out_null Methods.unless_infinite _ s.get_timeout_null
  run_null Method.get_timeout_ms h =
      checked_out_null (absolute_timeout c.tv_sec c.tv_nsec) _ s.get_timeout_null
  run_null Method.get_usage h = checked_out_null (λ x. x) _ s.get_usage_null
  run_null Method.get_realtime h = checked_out_null (λ x. x) _ s.get_realtime_usec_null
  run_null Method.get_monotonic h = checked_out_null (λ x. x) _ s.get_monotonic_usec_null
  run_null Method.get_data_threshold h = checked_out_null (λ x. x) _ s.get_data_threshold_null
  run_null Method.get_cursor h = cursor_null
  run_null Method.enumerate_fields h = fields_null
  run_null Method.has_runtime_files h =
      either_null sd.have_enumerate_fields _ _
        (checked_null false py_bool _ s.has_runtime_files_null) (_, refl)
  run_null Method.has_persistent_files h =
      either_null sd.have_enumerate_fields _ _
        (checked_null false py_bool _ s.has_persistent_files_null) (_, refl)
  run_null Method.get_catalog h = catalog_null
  run_null (Method.next skip) h = next_null skip
  run_null (Method.previous skip) h = back_null (Move.neg_int64 skip)
  run_null (Method.get field) h = get_null field
  run_null (Method.add_match match) h = match_null match
  run_null (Method.seek_cursor cursor) h = checked_null true nothing _ (s.seek_cursor_null cursor)
  run_null (Method.test_cursor cursor) h = checked_null false py_bool _ (s.test_cursor_null cursor)
  run_null (Method.query_unique query) h = query_null query
  run_null (Method.seek_realtime t) h = checked_null false nothing _ (s.seek_realtime_usec_null t)
  run_null (Method.seek_monotonic t bootid) h = monotonic_null t bootid
  run_null (Method.wait timeout) h = wait_null timeout
  run_null (Method.set_data_threshold value) h = threshold_null value
