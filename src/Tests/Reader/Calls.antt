-- ===== src/Tests/Reader/Calls.antt =====
-- Methods on the numbered journal.
use python_systemd.Base.{ℕ, ◌≡◌, refl, false, Option, none, some, List, [], ◌∷◌, ◌++◌, arith}
use python_systemd.Base.Int.{pos, negsuc}
use python_systemd.Base.Bytes.{elem, IsDistinct}
use python_systemd.PyUtil.{Exception, returns, raises, field_error, checked, py_bool}
use python_systemd.Reader.Entry.{Dict, lookup, get_all}
use python_systemd.Reader.Entry.Collect.{
  values_of, entry_of, AreFields, get_all_lem, get_all-field_error,
}
use python_systemd.Reader.Unique.{query_unique, enumerate_fields}
use python_systemd.Reader.Unique.Names.{enumerate_fields_lem}
use python_systemd.Reader.Unique.Sets.{HaveValues, query_unique_lem}
use python_systemd.Reader.Move.{next, previous}
use python_systemd.Reader.Move.Skip.{next-previous}
use python_systemd.Reader.Closing.{Context, Method, run, run_all}
use python_systemd.Reader.Closing.Runs.{run_all-close_lem}
use python_systemd.Reader.{SdJournal}
use python_systemd.Tests.Reader.{
  numbered, numbered-IsNullSafe, numbered-IsSkip, some_fields, some_messages,
}

abbrev decode : List ℕ → Option (List ℕ)
decode text = some text

abbrev some_pairs : List (List ℕ × List ℕ)
some_pairs = (65 ∷ [], 49 ∷ []) ∷ (66 ∷ [], 50 ∷ []) ∷ (65 ∷ [], 51 ∷ []) ∷ []

some_fields-AreFields : AreFields decode some_fields some_pairs
some_fields-AreFields = (
  record { name = 65 ∷ []; no_delimiter = (refl, tt); message = refl; decodes = refl },
  (
    record { name = 66 ∷ []; no_delimiter = (refl, tt); message = refl; decodes = refl },
    (record { name = 65 ∷ []; no_delimiter = (refl, tt); message = refl; decodes = refl }, tt),
  ),
)

get_all_lem_example :
    (dict : Dict) × (get_all numbered decode (some 0) ≡ (returns dict, some 0))
    × ((key : List ℕ) → lookup key dict ≡ entry_of (values_of key some_pairs))
get_all_lem_example =
    get_all_lem numbered decode (some 0) (some 0) some_fields some_pairs refl some_fields-AreFields

-- The numbered journal with a field "x" after the others.
abbrev broken : SdJournal (Option ℕ)
broken = record numbered { foreach_data = λ j. (some_fields ++ ((120 ∷ []) ∷ []), j) }

get_all-field_error_example : get_all broken decode (some 0) ≡ (raises field_error, some 0)
get_all-field_error_example =
    get_all-field_error broken decode (some 0) (some 0) some_fields [] some_pairs (120 ∷ []) refl
      some_fields-AreFields (refl, tt)

abbrev message_values : List (List ℕ)
message_values = (49 ∷ []) ∷ (50 ∷ []) ∷ (49 ∷ []) ∷ []

some_messages-HaveValues : HaveValues some_messages message_values
some_messages-HaveValues =
    ((65 ∷ [], (refl, tt), refl), ((65 ∷ [], (refl, tt), refl), ((65 ∷ [], (refl, tt), refl), tt)))

query_unique_lem_example :
    (set : List (List ℕ)) × (query_unique numbered decode (65 ∷ []) (some 0)
      ≡ (returns set, some 0))
    × IsDistinct set
    × ((v : List ℕ) → elem v set ≡ elem v message_values)
query_unique_lem_example =
    query_unique_lem numbered decode (65 ∷ []) (65 ∷ []) 0 (some 0) (some 0) (some 0) some_messages
      message_values refl refl refl some_messages-HaveValues

enumerate_fields_lem_example :
    (set : List (List ℕ)) × (enumerate_fields numbered decode (some 0)
      ≡ (some (returns set), some 0))
    × IsDistinct set
    × ((v : List ℕ) → elem v set ≡ elem v ((65 ∷ []) ∷ []))
enumerate_fields_lem_example =
    enumerate_fields_lem numbered decode (some 0) (some 0) ((pos 1, 65 ∷ []) ∷ []) [] []
      ((65 ∷ []) ∷ []) refl refl ((0, refl, refl), tt)

next-previous_example :
    (next numbered (pos 3) (some 7) ≡ checked false py_bool (numbered.next_skip 3 (some 7)))
    × (previous numbered (negsuc 2) (some 7)
        ≡ checked false py_bool (numbered.next_skip 3 (some 7)))
    × (next numbered (negsuc 2) (some 7)
        ≡ checked false py_bool (numbered.previous_skip 3 (some 7)))
    × (previous numbered (pos 3) (some 7)
        ≡ checked false py_bool (numbered.previous_skip 3 (some 7)))
next-previous_example = next-previous numbered numbered-IsSkip 2 (some 7) (omega arith)

abbrev some_context : Context
some_context = record {
  ids = record { from_string = λ text. (pos 0, text); get_boot = (pos 0, []) };
  decode = decode;
  tv_sec = 1;
  tv_nsec = 2;
  memory = negsuc 0;
}

run_all-close_lem_example :
    (run_all numbered some_context
        ((Method.next (pos 1) ∷ []) ++ (Method.close ∷ (Method.exit ∷ Method.get_all ∷ [])))
        (some 0)
      ≡ none)
    × ((e : Exception) × (run numbered some_context (Method.next (pos 1)) (
            run_all numbered some_context
              ((Method.next (pos 1) ∷ []) ++ (Method.close ∷ (Method.exit ∷ Method.get_all ∷ [])))
              (some 0))
          ≡ (
            some (raises e),
            run_all numbered some_context
                ((Method.next (pos 1) ∷ []) ++ (Method.close ∷ (Method.exit ∷ Method.get_all ∷ [])))
                (some 0),
          )))
run_all-close_lem_example =
    run_all-close_lem numbered numbered-IsNullSafe some_context (Method.next (pos 1) ∷ [])
      (Method.exit ∷ Method.get_all ∷ []) (some 0) (Method.next (pos 1)) refl
