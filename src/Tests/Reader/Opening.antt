-- ===== src/Tests/Reader/Opening.antt =====
-- Arguments of `_Reader`, and the other modules on libsystemd.
use python_systemd.Base.{
  ℕ, ◌≡◌, refl, true, Option, none, some, List, [], ◌∷◌, ◌++◌, map, length, if◌then◌else◌,
}
use python_systemd.Base.Int.{ℤ, pos}
use python_systemd.PyUtil.{Outcome, returns, raises, type_error, overflow_error}
use python_systemd.Reader.Convert.{Opener, absent, passed, sequence, integer, other, init}
use python_systemd.Reader.Convert.Lists.{numbers, texts}
use python_systemd.Reader.Convert.Open.{open_outcome, init_files_lem}
use python_systemd.Daemon.Arguments.{all_fit}
use python_systemd.Login.{listing}
use python_systemd.Login.Names.{listing_lem}
use python_systemd.Id128.{
  SdId128, buffer, sizeof_id, make_uuid, app_specific, helper, get_machine_app_specific,
}
use python_systemd.Id128.Specific.{app_specific-returns}

-- Every call opens the journal at its first entry.
abbrev opener : Opener (Option ℕ)
opener = record {
  open_default = λ flags. (pos 0, some (some 0));
  open_directory = λ path flags. (pos 0, some (some 0));
  open_directory_fd = λ fd flags. (pos 0, some (some 0));
  open_files = λ files flags. (pos 0, some (some 0));
  open_files_fd = λ fds flags. (pos 0, some (some 0));
  open_namespace = λ ns flags. (pos 0, some (some 0));
  have_open_files = true;
  have_open_directory_fd = true;
  have_open_namespace = true;
}

abbrev some_texts : List (List ℕ)
some_texts = (47 ∷ []) ∷ (46 ∷ []) ∷ []

init_files_lem_example :
    (init opener 0 absent (passed (sequence (texts some_texts))) absent none
      ≡ open_outcome none (opener.open_files some_texts 0))
    × (init opener 0 absent
          (passed (sequence (texts some_texts ++ (integer (some (pos 3)) ∷ (other none ∷ [])))))
          absent
          none
        ≡ (raises type_error, none))
    × (init opener 0 absent (passed (sequence (numbers (pos 3 ∷ pos 4 ∷ [])))) absent none ≡ (
        if all_fit (pos 3 ∷ pos 4 ∷ [])
        then open_outcome none (opener.open_files_fd (pos 3 ∷ pos 4 ∷ []) 0)
        else (raises overflow_error, none)))
init_files_lem_example =
    init_files_lem opener 0 absent none (47 ∷ []) ((46 ∷ []) ∷ []) (pos 3) (pos 4 ∷ [])
      (some (pos 3)) (other none ∷ []) refl refl

abbrev keep : List ℕ → Option (List ℕ)
keep name = some name

listing_lem_example :
    listing keep (pos (length some_texts), some_texts) ≡ some (returns (map some some_texts))
listing_lem_example = listing_lem keep some_texts some_texts (refl, (refl, tt))

-- The journal keeps what it is sent.
abbrev keeps : List (List ℕ) → List (List (List ℕ)) → ℤ × List (List (List ℕ))
keeps iov sent = (pos 0, iov ∷ sent)

abbrev some_ids : SdId128
some_ids = record {
  randomize = (pos 0, []);
  get_machine = (pos 0, []);
  get_boot = (pos 0, []);
  get_machine_app_specific = λ app. (pos 0, app);
  have_get_machine_app_specific = true;
}

abbrev uuid_of : List ℕ → Outcome (List ℕ)
uuid_of id = returns id

abbrev app_id : List ℕ
app_id = 1 ∷ 2 ∷ 3 ∷ 4 ∷ 5 ∷ 6 ∷ 7 ∷ 8 ∷ 9 ∷ 10 ∷ 11 ∷ 12 ∷ 13 ∷ 14 ∷ 15 ∷ 16 ∷ []

app_id-returned : get_machine_app_specific uuid_of some_ids (buffer app_id) ≡ returns app_id
unfolding get_machine_app_specific app_specific helper make_uuid
app_id-returned = refl

app_specific-returns_example :
    (bytes : List ℕ) × (n : ℕ) × (buffer app_id ≡ buffer bytes)
    × (length bytes ≡ sizeof_id)
    × ((some_ids.get_machine_app_specific bytes).0 ≡ pos n)
    × (make_uuid uuid_of (some_ids.get_machine_app_specific bytes).1 ≡ returns app_id)
app_specific-returns_example =
    app_specific-returns uuid_of some_ids (buffer app_id) app_id app_id-returned
