-- ===== src/Tests/References.antt =====
-- References and pointers at concrete inputs.
use python_systemd.Base.{
  ℕ, ◌+◌, ◌≡◌, refl, Bool, true, false, none, some, List, [], ◌∷◌, length, ◌==◌, not,
}
use python_systemd.Base.Int.{pos, negsuc}
use python_systemd.PyUtil.References.{Counts, occurrences}
use python_systemd.Reader.Entry.{collect}
use python_systemd.Reader.Entry.References.{hold_all}
use python_systemd.Reader.Entry.References.Kept.{IsResult, hold_all-IsResult}
use python_systemd.Reader.Convert.References.{
  Item, strv_references, intlist_references, visited, visited_numbers, all_convert, all_fit,
  references-visited,
}
use python_systemd.Reader.Lifetime.{
  Call, opens, uses, closes, life, run, step, dealloc, use_pointer, open_into, close_pointer,
  sd_close, remove,
}
use python_systemd.Reader.Lifetime.Leaks.{overwritten}
use python_systemd.Login.Lifetime.{monitor_life, lives_lem}
use python_systemd.Login.References.{list_references, IsListed, list_references-IsListed}
use python_systemd.Journal.References.{
  Argument, unicode, bytes_argument, other_argument, sendv_references, sendv_references-same,
}
use python_systemd.Daemon.Names.{fill_and_free, fill_and_free_lem}

abbrev no_counts : Counts
no_counts p = 0

-- Two fields with one name, and then one without a delimiter.
hold_all-IsResult_example :
    IsResult
      (hold_all (λ text. some text) ((65 ∷ 61 ∷ 49 ∷ []) ∷ (65 ∷ 61 ∷ 51 ∷ []) ∷ (120 ∷ []) ∷ []))
      (collect (λ text. some text) ((65 ∷ 61 ∷ 49 ∷ []) ∷ (65 ∷ 61 ∷ 51 ∷ []) ∷ (120 ∷ []) ∷ []) [])
hold_all-IsResult_example =
    hold_all-IsResult (λ text. some text)
      ((65 ∷ 61 ∷ 49 ∷ []) ∷ (65 ∷ 61 ∷ 51 ∷ []) ∷ (120 ∷ []) ∷ [])

-- The second journal takes the place of the first.
abbrev some_calls : List Call
some_calls = opens (pos 0) ∷ uses ∷ opens (negsuc 1) ∷ opens (pos 0) ∷ closes ∷ uses ∷ closes ∷ []

lives_lem_example :
    (left : List ℕ) × (life some_calls ≡ some left)
    × (monitor_life some_calls ≡ some left)
    × (length left ≡ overwritten false some_calls)
lives_lem_example = lives_lem some_calls

one_lost : life some_calls ≡ some (0 ∷ [])
unfolding life run step dealloc use_pointer open_into close_pointer sd_close remove
one_lost = refl

abbrev some_items : List Item
some_items =
    record { object = 0; bytes = some 1 }
    ∷ record { object = 2; bytes = none }
    ∷ record { object = 3; bytes = some 4 }
    ∷ []

references-visited_example :
    ((d : Counts) × (strv_references some_items no_counts ≡ some (all_convert some_items, d))
      × ((p : ℕ) → d p ≡ no_counts p + occurrences p (visited some_items)))
    × ((d : Counts) × (intlist_references ((5, true) ∷ []) no_counts
          ≡ some (all_fit ((5, true) ∷ []), d))
        × ((p : ℕ) → d p ≡ no_counts p + occurrences p (visited_numbers ((5, true) ∷ []))))
references-visited_example = references-visited some_items ((5, true) ∷ []) no_counts

abbrev some_arguments : List Argument
some_arguments = unicode (some 0) ∷ bytes_argument ∷ unicode (some 1) ∷ other_argument ∷ []

sendv_references-same_example :
    (d : Counts) × (sendv_references some_arguments no_counts ≡ some d)
    × ((p : ℕ) → d p ≡ no_counts p)
sendv_references-same_example = sendv_references-same some_arguments no_counts

list_references-IsListed_example :
    (r : Bool × List ℕ × Counts) × (list_references 0 (some 1 ∷ some 2 ∷ none ∷ []) no_counts
      ≡ some r)
    × IsListed 0 no_counts r
list_references-IsListed_example =
    list_references-IsListed 0 (some 1 ∷ some 2 ∷ none ∷ []) no_counts refl (refl, (refl, tt))

fill_and_free_lem_example :
    fill_and_free (λ i. not (i == 2)) true true 2 (some (9, some 7 ∷ some 8 ∷ none ∷ []))
    ≡ some (false, 7 ∷ 8 ∷ 9 ∷ [])
fill_and_free_lem_example = fill_and_free_lem (λ i. not (i == 2)) true true 9 (7 ∷ 8 ∷ []) []
