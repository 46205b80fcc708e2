-- ===== src/Reader/Closing/Null.antt =====
-- sd-journal on NULL, as its manual states it: the functions that return a number return -EINVAL and
-- store what they will, the loops find nothing, the others do nothing.
use python_systemd.Base.{ℕ, ◌≡◌, true, List, [], ◌∷◌}
use python_systemd.Base.Int.{negsuc}
use python_systemd.Reader.{SdJournal}

pub record IsNullSafe {H : Type 0} (sd : SdJournal H) : Type 0 where
  pub get_fd_null : sd.get_fd sd.null ≡ (negsuc 21, sd.null)
  pub reliable_fd_null : sd.reliable_fd sd.null ≡ (negsuc 21, sd.null)
  pub get_events_null : sd.get_events sd.null ≡ (negsuc 21, sd.null)
  pub next_null : sd.next sd.null ≡ (negsuc 21, sd.null)
  pub previous_null : sd.previous sd.null ≡ (negsuc 21, sd.null)
  pub add_disjunction_null : sd.add_disjunction sd.null ≡ (negsuc 21, sd.null)
  pub add_conjunction_null : sd.add_conjunction sd.null ≡ (negsuc 21, sd.null)
  pub seek_head_null : sd.seek_head sd.null ≡ (negsuc 21, sd.null)
  pub seek_tail_null : sd.seek_tail sd.null ≡ (negsuc 21, sd.null)
  pub process_null : sd.process sd.null ≡ (negsuc 21, sd.null)
  pub has_runtime_files_null : sd.has_runtime_files sd.null ≡ (negsuc 21, sd.null)
  pub has_persistent_files_null : sd.has_persistent_files sd.null ≡ (negsuc 21, sd.null)
  pub next_skip_null : (n : ℕ) → sd.next_skip n sd.null ≡ (negsuc 21, sd.null)
  pub previous_skip_null : (n : ℕ) → sd.previous_skip n sd.null ≡ (negsuc 21, sd.null)
  pub add_match_null : (match : List ℕ) → sd.add_match match sd.null ≡ (negsuc 21, sd.null)
  pub seek_realtime_usec_null : (t : ℕ) → sd.seek_realtime_usec t sd.null ≡ (negsuc 21, sd.null)
  pub wait_null : (t : ℕ) → sd.wait t sd.null ≡ (negsuc 21, sd.null)
  pub seek_cursor_null : (cursor : List ℕ) → sd.seek_cursor cursor sd.null ≡ (negsuc 21, sd.null)
  pub test_cursor_null : (cursor : List ℕ) → sd.test_cursor cursor sd.null ≡ (negsuc 21, sd.null)
  pub query_unique_null : (query : List ℕ) → sd.query_unique query sd.null ≡ (negsuc 21, sd.null)
  pub set_data_threshold_null : (n : ℕ) → sd.set_data_threshold n sd.null ≡ (negsuc 21, sd.null)
  pub seek_monotonic_usec_null :
      (id : List ℕ) (t : ℕ) → sd.seek_monotonic_usec id t sd.null ≡ (negsuc 21, sd.null)
  pub get_timeout_null : (a : ℕ) × (sd.get_timeout sd.null ≡ (negsuc 21, a, sd.null))
  pub get_usage_null : (a : ℕ) × (sd.get_usage sd.null ≡ (negsuc 21, a, sd.null))
  pub get_realtime_usec_null : (a : ℕ) × (sd.get_realtime_usec sd.null ≡ (negsuc 21, a, sd.null))
  pub get_cursor_null : (a : List ℕ) × (sd.get_cursor sd.null ≡ (negsuc 21, a, sd.null))
  pub get_data_threshold_null : (a : ℕ) × (sd.get_data_threshold sd.null ≡ (negsuc 21, a, sd.null))
  pub get_catalog_null : (a : List ℕ) × (sd.get_catalog sd.null ≡ (negsuc 21, a, sd.null))
  pub get_monotonic_usec_null :
      (a : ℕ × List ℕ) × (sd.get_monotonic_usec sd.null ≡ (negsuc 21, a, sd.null))
  pub get_data_null :
      (field : List ℕ) → (a : List ℕ) × (sd.get_data field sd.null ≡ (negsuc 21, a, sd.null))
  pub enumerate_fields_null :
      (a : List ℕ) × (sd.enumerate_fields sd.null ≡ ((negsuc 21, a) ∷ [], sd.null))
  pub foreach_data_null : sd.foreach_data sd.null ≡ ([], sd.null)
  pub flush_matches_null : sd.flush_matches sd.null ≡ sd.null
  pub is_null_null : sd.is_null sd.null ≡ true
