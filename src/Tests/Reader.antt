-- ===== src/Tests/Reader.antt =====
-- A journal of numbered entries: the handle is a position, or `none` for NULL.
pub mod Calls
pub mod Opening
use python_systemd.Base.{ℕ, ◌+◌, ◌-◌, true, false, Option, none, some, List, [], ◌∷◌, ◌≡◌, refl}
use python_systemd.Base.Int.{ℤ, pos, negsuc}
use python_systemd.Reader.{SdJournal}
use python_systemd.Reader.Closing.Null.{IsNullSafe}
use python_systemd.Reader.Move.Skip.{IsSkip}

abbrev Handle : Type 0
Handle = Option ℕ

abbrev status : (ℕ → ℕ × ℕ) → Handle → ℤ × Handle
status f none = (negsuc 21, none)
status f (some i) = (pos (f i).0, some (f i).1)

abbrev stored : {A : Type 0} → A → Handle → ℤ × A × Handle
stored a none = (negsuc 21, a, none)
stored a (some i) = (pos 0, a, some i)

abbrev found : List (List ℕ) → Handle → List (List ℕ) × Handle
found items none = ([], none)
found items (some i) = (items, some i)

abbrev answers : Handle → List (ℤ × List ℕ) × Handle
answers none = ((negsuc 21, []) ∷ [], none)
answers (some i) = ((pos 1, 65 ∷ []) ∷ (pos 0, []) ∷ [], some i)

abbrev no_entry : Handle → ℤ × List ℕ × Handle
no_entry none = (negsuc 21, [], none)
no_entry (some i) = (negsuc 1, [], some i)

abbrev stays : Handle → ℤ × Handle
stays = status λ i. (0, i)

-- "A=1", "B=2", "A=3"
abbrev pub some_fields : List (List ℕ)
some_fields = (65 ∷ 61 ∷ 49 ∷ []) ∷ (66 ∷ 61 ∷ 50 ∷ []) ∷ (65 ∷ 61 ∷ 51 ∷ []) ∷ []

-- "A=1", "A=2", "A=1"
abbrev pub some_messages : List (List ℕ)
some_messages = (65 ∷ 61 ∷ 49 ∷ []) ∷ (65 ∷ 61 ∷ 50 ∷ []) ∷ (65 ∷ 61 ∷ 49 ∷ []) ∷ []

-- "MESSAGE_ID=" and no more
abbrev pub bare_id : List ℕ
bare_id = 77 ∷ 69 ∷ 83 ∷ 83 ∷ 65 ∷ 71 ∷ 69 ∷ 95 ∷ 73 ∷ 68 ∷ 61 ∷ []

abbrev pub numbered : SdJournal (Option ℕ)
numbered = record {
  null = none;
  is_null = λ j. elim j [ none ↦ true | some i ↦ false ];
  get_fd = stays;
  reliable_fd = stays;
  get_events = stays;
  get_timeout = stored 5;
  get_usage = stored 5;
  next = status λ i. (1, i + 1);
  previous = status λ i. (1, i - 1);
  next_skip = λ n. status λ i. (n, i + n);
  previous_skip = λ n. status λ i. (n, i - n);
  get_data = λ field. stored bare_id;
  foreach_data = found some_fields;
  get_realtime_usec = stored 5;
  get_monotonic_usec = stored (5, []);
  add_match = λ match. stays;
  add_disjunction = stays;
  add_conjunction = stays;
  flush_matches = λ j. j;
  seek_head = status λ i. (0, 0);
  seek_tail = stays;
  seek_realtime_usec = λ t. stays;
  seek_monotonic_usec = λ id t. stays;
  process = stays;
  wait = λ t. stays;
  seek_cursor = λ cursor. stays;
  get_cursor = stored [];
  test_cursor = λ cursor. stays;
  query_unique = λ query. stays;
  foreach_unique = found some_messages;
  enumerate_fields = answers;
  has_runtime_files = stays;
  has_persistent_files = stays;
  get_catalog = no_entry;
  get_data_threshold = stored 5;
  set_data_threshold = λ n. stays;
  have_enumerate_fields = true;
}

pub numbered-IsNullSafe : IsNullSafe numbered
numbered-IsNullSafe = record {
  get_fd_null = refl;
  reliable_fd_null = refl;
  get_events_null = refl;
  next_null = refl;
  previous_null = refl;
  add_disjunction_null = refl;
  add_conjunction_null = refl;
  seek_head_null = refl;
  seek_tail_null = refl;
  process_null = refl;
  has_runtime_files_null = refl;
  has_persistent_files_null = refl;
  next_skip_null = λ n. refl;
  previous_skip_null = λ n. refl;
  add_match_null = λ match. refl;
  seek_realtime_usec_null = λ t. refl;
  wait_null = λ t. refl;
  seek_cursor_null = λ cursor. refl;
  test_cursor_null = λ cursor. refl;
  query_unique_null = λ query. refl;
  set_data_threshold_null = λ n. refl;
  seek_monotonic_usec_null = λ id t. refl;
  get_timeout_null = (5, refl);
  get_usage_null = (5, refl);
  get_realtime_usec_null = (5, refl);
  get_cursor_null = ([], refl);
  get_data_threshold_null = (5, refl);
  get_catalog_null = ([], refl);
  get_monotonic_usec_null = ((5, []), refl);
  get_data_null = λ field. (bare_id, refl);
  enumerate_fields_null = ([], refl);
  foreach_data_null = refl;
  flush_matches_null = refl;
  is_null_null = refl;
}

pub numbered-IsSkip : IsSkip numbered
numbered-IsSkip = record { next_one = one_next; previous_one = one_previous }
  where
    one_next : (j : Handle) → numbered.next_skip 1 j ≡ numbered.next j
    one_next none = refl
    one_next (some i) = refl

    one_previous : (j : Handle) → numbered.previous_skip 1 j ≡ numbered.previous j
    one_previous none = refl
    one_previous (some i) = refl
