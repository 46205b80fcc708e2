-- ===== src/Reader/Unique/Sets.antt =====
-- The set that `query_unique` returns.
use python_systemd.Base.{ℕ, ◌≡◌, refl, ◌∙◌, ap, ◌||◌, Option, some, List, [], ◌∷◌, ◌++◌, arith}
use python_systemd.Base.Int.{pos}
use python_systemd.Base.Bytes.{elem, elem-set_add, set_add, IsDistinct, set_add-IsDistinct}
use python_systemd.Util.Parse.{split_char}
use python_systemd.Util.Parse.Laws.{Lacks, split_char-append}
use python_systemd.PyUtil.{Outcome, returns, and_then, set_error}
use python_systemd.Reader.{SdJournal}
use python_systemd.Reader.Unique.{unique_value, unique_values, query_unique}

-- Each message is a field name without '=', the delimiter and the value beside it.
abbrev pub HaveValues : List (List ℕ) → List (List ℕ) → Type 0
HaveValues [] [] = Unit
HaveValues [] (v ∷ values) = ⊥
HaveValues (uniq ∷ items) [] = ⊥
HaveValues (uniq ∷ items) (v ∷ values) =
    ((name : List ℕ) × Lacks 61 name × (uniq ≡ name ++ (61 ∷ v))) × HaveValues items values

unique_values-HaveValues :
    (items values held : List (List ℕ))
    → HaveValues items values
    → IsDistinct held
    → (set : List (List ℕ)) × (unique_values items held ≡ returns set)
      × IsDistinct set
      × ((v : List ℕ) → elem v set ≡ (elem v held || elem v values))
unfolding unique_values elem
unique_values-HaveValues [] [] held h d = (held, refl, d, λ v. ground arith)
unique_values-HaveValues [] (v ∷ values) held h d = absurd h
unique_values-HaveValues (uniq ∷ items) [] held h d = absurd h
unique_values-HaveValues (uniq ∷ items) (w ∷ values) held h d =
    let (name, lacks, message) = h.0 in
    let (set, run, distinct, has) =
      unique_values-HaveValues items values (set_add w held) h.1 (set_add-IsDistinct w held d) in
    (
      set,
      ap
            (λ (o : Option (List ℕ × List ℕ)).
              and_then (unique_value o) λ value. unique_values items (set_add value held))
            (ap (split_char 61) message ∙ split_char-append 61 name w lacks)
          ∙ run,
      distinct,
      λ v. has v ∙ ground (arith, elem-set_add v w held),
    )

module _ {H : Type 0} (sd : SdJournal H) (decode : List ℕ → Option (List ℕ)) where
  -- Where sd-journal accepts the query, its text can be decoded, and the messages are names
  -- and values, query_unique returns a set without repetition whose elements are the values
  -- found.
  pub query_unique_lem :
      (query key : List ℕ) (r : ℕ) (j j' j'' : H) (items values : List (List ℕ))
      → sd.query_unique query j ≡ (pos r, j')
      → decode query ≡ some key
      → sd.foreach_unique j' ≡ (items, j'')
      → HaveValues items values
      → (set : List (List ℕ)) × (query_unique sd decode query j ≡ (returns set, j''))
        × IsDistinct set
        × ((v : List ℕ) → elem v set ≡ elem v values)
  unfolding query_unique set_error elem
  query_unique_lem query key r j j' j'' items values asked decoded visited h =
      let (set, run, distinct, has) = unique_values-HaveValues items values [] h tt in
      (
        set,
        rw (asked, decoded, visited) (ap (λ (o : Outcome (List (List ℕ))). (o, j'')) run),
        distinct,
        has,
      )
