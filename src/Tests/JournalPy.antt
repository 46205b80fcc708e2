-- ===== src/Tests/JournalPy.antt =====
-- Entries that are sent and read in Python.
use python_systemd.Base.{
  ℕ, ◌≡◌, refl, Option, none, some, List, [], ◌∷◌, ◌++◌, ◌+◌, ◌==◌, if◌then◌else◌, ap, ap₂, sym,
  subst,
}
use python_systemd.Base.Int.{ℤ, pos}
use python_systemd.Base.Text.{codes}
use python_systemd.Util.Parse.Laws.{Lacks}
use python_systemd.PyUtil.{Outcome, returns, raises, value_error}
use python_systemd.Journal.{send_iov}
use python_systemd.Reader.{SdJournal}
use python_systemd.Reader.Entry.{Dict, lookup, get_all}
use python_systemd.Reader.Entry.Collect.{values_of, entry_of}
use python_systemd.JournalPy.{
  Raw, raw_bytes, Argument, bytes_of, str_of, other_of, Code, code_or, send,
}
use python_systemd.JournalPy.Stamps.{Stored}
use python_systemd.JournalPy.Sending.{IsUtf8, AreLines, fields_of, send-get_all}
use python_systemd.Tests.Reader.{numbered, some_fields}

abbrev same_text : List ℕ → Option (List ℕ)
same_text t = some t

same_some : (a x : List ℕ) → same_text a ≡ some x → a ≡ x
same_some a x e = ap (λ (o : Option (List ℕ)). elim o [ none ↦ [] | some t ↦ t ]) e

same_text-IsUtf8 : IsUtf8 same_text same_text
same_text-IsUtf8 = record {
  append = λ a b x y e f. ap some (ap₂ ◌++◌ (same_some a x e) (same_some b y f));
  equals = refl;
  lacks = λ a x h e. subst (Lacks 61) (same_some a x e) h;
  decodes = λ a x e. sym e;
}

-- Two entries behind the beginning.
abbrev two_entries : SdJournal (Option ℕ)
two_entries = record numbered {
  next = λ j. (elim j [
    | none ↦ (pos 0, none)
    | some n ↦ (if n == 2 then (pos 0, some 2) else (pos 1, some (n + 1)))
  ]);
  foreach_data = λ j. (some_fields, j);
  get_realtime_usec = λ j. (pos 0, 5, j);
  get_monotonic_usec = λ j. (pos 0, (5, []), j);
  get_cursor = λ j. (pos 0, 99 ∷ [], j);
}

abbrev some_entry : Stored
some_entry = record {
  fields = some_fields;
  first = (codes "A", codes "1");
  more = (codes "B", codes "2") ∷ (codes "A", codes "3") ∷ [];
  time = 5;
  boot_time = (5, []);
  position = 99 ∷ [];
  position_text = 99 ∷ [];
}

-- No bytes can be converted.
abbrev keeps_bytes : List ℕ → Raw → Outcome Raw
keeps_bytes key (raw_bytes b) = raises value_error
keeps_bytes key value = returns value

abbrev same_value : List ℕ → Raw → Raw
same_value key value = value

-- The journal is the list of what has been sent.
abbrev keeps_entry : List (List ℕ) → List (List (List ℕ)) → ℤ × List (List (List ℕ))
keeps_entry fields journal = (pos 0, fields ∷ journal)

abbrev no_code : Code
no_code = record { file = none; line = none; func = none }

abbrev some_code : Code
some_code = record { file = some (codes "a.py"); line = some (pos 7); func = none }

abbrev some_kwargs : List (List ℕ × Argument)
some_kwargs =
    (codes "FIELD2", str_of (codes "x"))
    ∷ (codes "BINARY", bytes_of (222 ∷ 173 ∷ []))
    ∷ (codes "N", other_of (codes "5"))
    ∷ []

abbrev some_pairs : List (List ℕ × List ℕ)
some_pairs =
    (codes "MESSAGE", codes "hello")
    ∷ (codes "CODE_FILE", codes "a.py")
    ∷ (codes "CODE_LINE", codes "7")
    ∷ (codes "FIELD2", codes "x")
    ∷ (codes "BINARY", 222 ∷ 173 ∷ [])
    ∷ (codes "N", codes "5")
    ∷ []

some_lines-AreLines :
    AreLines same_text
      (fields_of (λ z. codes "7") (codes "hello") none (code_or some_code no_code) some_kwargs)
      some_pairs
unfolding code_or
some_lines-AreLines = (
  (refl, (refl, (refl, (refl, (refl, (refl, (refl, (refl, tt))))))), (codes "MESSAGE", refl), refl),
  (
    (
      refl,
      (refl, (refl, (refl, (refl, (refl, (refl, (refl, (refl, (refl, tt))))))))),
      (codes "CODE_FILE", refl),
      refl,
    ),
    (
      (
        refl,
        (refl, (refl, (refl, (refl, (refl, (refl, (refl, (refl, (refl, tt))))))))),
        (codes "CODE_LINE", refl),
        refl,
      ),
      (
        (refl, (refl, (refl, (refl, (refl, (refl, (refl, tt)))))), (codes "FIELD2", refl), refl),
        (
          (refl, (refl, (refl, (refl, (refl, (refl, (refl, tt)))))), (codes "BINARY", refl), refl),
          ((refl, (refl, tt), (codes "N", refl), refl), tt),
        ),
      ),
    ),
  ),
)

send-get_all_example :
    (fields : List (List ℕ)) × (send same_text
        (λ z. codes "7")
        keeps_entry
        (codes "hello")
        none
        some_code
        no_code
        some_kwargs
        []
      ≡ send_iov keeps_entry [] (returns fields))
    × ((j j' : Option ℕ)
        → two_entries.foreach_data j ≡ (fields, j')
        → (dict : Dict) × (get_all two_entries same_text j ≡ (returns dict, j'))
          × ((key : List ℕ) → lookup key dict ≡ entry_of (values_of key some_pairs)))
send-get_all_example =
    send-get_all same_text same_text same_text-IsUtf8 (λ z. codes "7") keeps_entry two_entries
      (codes "hello") none some_code no_code some_kwargs some_pairs [] some_lines-AreLines
