-- ===== src/JournalPy/Sending.antt =====
-- What `send` writes to the journal, and what a Reader reads from it.
use mathlib.Core.List.{append_assoc}
use python_systemd.Base.{ℕ, ◌≡◌, refl, sym, ◌∙◌, ap, Option, none, some, List, [], ◌∷◌, ◌++◌}
use python_systemd.Base.Int.{ℤ}
use python_systemd.Base.Text.{codes}
use python_systemd.Util.Parse.Laws.{Lacks}
use python_systemd.PyUtil.{Outcome, returns, raises, and_then}
use python_systemd.Journal.{Item, text, bytes, encoded, fill_iov, send_iov, sendv}
use python_systemd.Reader.{SdJournal}
use python_systemd.Reader.Entry.{Dict, lookup, get_all}
use python_systemd.Reader.Entry.Collect.{AreFields, values_of, entry_of, get_all_lem}
use python_systemd.JournalPy.{
  Argument, bytes_of, str_of, other_of, Code, make_line, make_lines, line_of, formatted, code_or,
  code_lines, send_args, sends, send,
}

-- UTF-8 on texts: one after the other, '=' as itself and nothing else as '=', and back.
pub record IsUtf8 (encode decode : List ℕ → Option (List ℕ)) : Type 0 where
  pub append :
      (a b x y : List ℕ) → encode a ≡ some x → encode b ≡ some y → encode (a ++ b) ≡ some (x ++ y)
  pub equals : encode (codes "=") ≡ some (codes "=")
  pub lacks : (a x : List ℕ) → Lacks 61 a → encode a ≡ some x → Lacks 61 x
  pub decodes : (a x : List ℕ) → encode a ≡ some x → decode x ≡ some a

-- The fields of a call, by name and value, in the order of `args`.
abbrev pub optional : List ℕ → Option (List ℕ) → List (List ℕ × Argument) → List (List ℕ × Argument)
optional name none rest = rest
optional name (some value) rest = (name, str_of value) ∷ rest

abbrev pub fields_of :
    (format_d : ℤ → List ℕ)
    → (message : List ℕ) → (message_id : Option (List ℕ)) → Code
    → List (List ℕ × Argument)
    → List (List ℕ × Argument)
fields_of format_d message message_id code kwargs =
    (codes "MESSAGE", str_of message)
    ∷ optional (codes "MESSAGE_ID") message_id (
        optional (codes "CODE_FILE") code.file (
          optional (codes "CODE_LINE") (formatted format_d code.line)
            (optional (codes "CODE_FUNC") code.func kwargs)))

module _ (encode : List ℕ → Option (List ℕ)) where
  -- A value of an argument in bytes.
  abbrev pub IsValue : Argument → List ℕ → Type 0
  IsValue (bytes_of b) value = b ≡ value
  IsValue (str_of t) value = encode t ≡ some value
  IsValue (other_of t) value = encode t ≡ some value

  -- Names without '=' that can be encoded, and the values.
  abbrev pub AreLines : List (List ℕ × Argument) → List (List ℕ × List ℕ) → Type 0
  AreLines [] [] = Unit
  AreLines [] (p ∷ pairs) = ⊥
  AreLines (line ∷ lines) [] = ⊥
  AreLines ((field, argument) ∷ lines) ((key, value) ∷ pairs) =
      ((field ≡ key)
        × Lacks 61 field
        × ((name : List ℕ) × (encode field ≡ some name))
        × IsValue argument value)
      × AreLines lines pairs

  module _ (decode : List ℕ → Option (List ℕ)) (utf8 : IsUtf8 encode decode) where
    line_encode :
        (field t name value : List ℕ)
        → encode field ≡ some name
        → encode t ≡ some value
        → encode (field ++ codes "=" ++ t) ≡ some (name ++ (61 ∷ value))
    line_encode field t name value e f =
        utf8.append (field ++ codes "=") t (name ++ codes "=") value
          (utf8.append field (codes "=") name (codes "=") e utf8.equals) f
        ∙ ap some (append_assoc name (codes "=") value)

    make_line-encoded :
        (format_d : ℤ → List ℕ) (field : List ℕ) (argument : Argument) (name value : List ℕ)
        → encode field ≡ some name
        → IsValue argument value
        → (item : Item) × (make_line encode format_d field argument ≡ returns item)
          × (encoded item ≡ returns (name ++ (61 ∷ value)))
    unfolding make_line encoded
    make_line-encoded format_d field (bytes_of b) name value e same = (
      bytes (name ++ codes "=" ++ b),
      rw e refl,
      ap returns (append_assoc name (codes "=") b ∙ ap (λ v. name ++ (61 ∷ v)) same),
    )
    make_line-encoded format_d field (str_of t) name value e f = (
      text (encode (field ++ codes "=" ++ t)),
      refl,
      rw (line_encode field t name value e f) refl,
    )
    make_line-encoded format_d field (other_of t) name value e f = (
      text (encode (field ++ codes "=" ++ t)),
      refl,
      rw (line_encode field t name value e f) refl,
    )

    make_lines-AreFields :
        (format_d : ℤ → List ℕ) (lines : List (List ℕ × Argument)) (pairs : List (List ℕ × List ℕ))
        → AreLines lines pairs
        → (items : List Item) × (fields : List (List ℕ)) × (make_lines encode format_d lines
            ≡ returns items)
          × (fill_iov items ≡ returns fields)
          × AreFields decode fields pairs
    unfolding make_lines fill_iov
    make_lines-AreFields format_d [] [] h = ([], [], refl, refl, tt)
    make_lines-AreFields format_d [] (p ∷ pairs) h = absurd h
    make_lines-AreFields format_d (line ∷ lines) [] h = absurd h
    make_lines-AreFields format_d ((field, argument) ∷ lines) ((key, value) ∷ pairs)
          ((same, no_equals, (name, e), v), h) =
        let (item, made, filled) = make_line-encoded format_d field argument name value e v in
        let (items, fields, made_all, filled_all, good) =
          make_lines-AreFields format_d lines pairs h in
        (
          item ∷ items,
          (name ++ (61 ∷ value)) ∷ fields,
          rw (made, made_all) refl,
          rw (filled, filled_all) refl,
          (
            record {
              name = name;
              no_delimiter = utf8.lacks field name no_equals e;
              message = refl;
              decodes = utf8.decodes field name e ∙ ap some same;
            },
            good,
          ),
        )

  -- What stands before the keyword arguments.
  abbrev before : List Item → Outcome (List Item) → Outcome (List Item)
  before items lines = and_then lines λ lines. returns (items ++ lines)

  before-before :
      (xs ys : List Item) (o : Outcome (List Item)) → before xs (before ys o) ≡ before (xs ++ ys) o
  before-before xs ys (returns lines) = ap returns (sym (append_assoc xs ys lines))
  before-before xs ys (raises e) = refl

  before_five :
      (m i f l u : List Item) (o : Outcome (List Item))
      → before m (before i (before f (before l (before u o))))
        ≡ before (m ++ (i ++ (f ++ l ++ u))) o
  before_five m i f l u o =
      ap (λ o. before m (before i o)) (before-before f l (before u o) ∙ before-before (f ++ l) u o)
      ∙ ap (before m) (before-before i (f ++ l ++ u) o)
      ∙ before-before m (i ++ (f ++ l ++ u)) o

  make_lines-optional :
      (format_d : ℤ → List ℕ) (name : List ℕ) (o : Option (List ℕ))
      (rest : List (List ℕ × Argument))
      → make_lines encode format_d (optional name o rest)
        ≡ before (line_of encode format_d (name ++ codes "=") o) (make_lines encode format_d rest)
  unfolding make_lines make_line
  make_lines-optional format_d name none rest = same (make_lines encode format_d rest)
    where
      same : (o : Outcome (List Item)) → o ≡ before [] o
      same (returns items) = refl
      same (raises e) = refl
  make_lines-optional format_d name (some value) rest = refl

  send_args-fields_of :
      (format_d : ℤ → List ℕ) (message : List ℕ) (message_id : Option (List ℕ)) (caller code : Code)
      (kwargs : List (List ℕ × Argument))
      → send_args encode format_d message message_id caller code kwargs
        ≡ make_lines encode format_d
            (fields_of format_d message message_id (code_or caller code) kwargs)
  unfolding send_args code_lines make_lines make_line
  send_args-fields_of format_d message message_id caller code kwargs =
      let c : Code = code_or caller code in
      let m : List Item = line_of encode format_d (codes "MESSAGE=") (some message) in
      let i : List Item = line_of encode format_d (codes "MESSAGE_ID=") message_id in
      let f : List Item = line_of encode format_d (codes "CODE_FILE=") c.file in
      let l : List Item =
        line_of encode format_d (codes "CODE_LINE=") (formatted format_d c.line) in
      let u : List Item = line_of encode format_d (codes "CODE_FUNC=") c.func in
      let rest_func : List (List ℕ × Argument) = optional (codes "CODE_FUNC") c.func kwargs in
      let rest_line : List (List ℕ × Argument) =
        optional (codes "CODE_LINE") (formatted format_d c.line) rest_func in
      sym (
        ap (before m) (
          make_lines-optional format_d (codes "MESSAGE_ID") message_id
            (optional (codes "CODE_FILE") c.file rest_line)
          ∙ ap (before i) (
              make_lines-optional format_d (codes "CODE_FILE") c.file rest_line
              ∙ ap (before f) (
                  make_lines-optional format_d (codes "CODE_LINE") (formatted format_d c.line)
                    rest_func
                  ∙ ap (before l)
                      (make_lines-optional format_d (codes "CODE_FUNC") c.func kwargs))))
        ∙ before_five m i f l u (make_lines encode format_d kwargs))

module _ {J H : Type 0} (encode decode : List ℕ → Option (List ℕ))
    (utf8 : IsUtf8 encode decode) where
  -- Where texts are encoded and decoded as UTF-8, for names without '=' and for names and
  -- texts that can be encoded, send of journal.py hands one entry to the journal, and where an
  -- entry of a journal has the same fields, _get_all of a Reader finds under each name the
  -- values that were sent with it, in order.
  pub send-get_all :
      (format_d : ℤ → List ℕ) (sd_journal_sendv : List (List ℕ) → J → ℤ × J) (sd : SdJournal H)
      (message : List ℕ) (message_id : Option (List ℕ)) (caller code : Code)
      (kwargs : List (List ℕ × Argument)) (pairs : List (List ℕ × List ℕ)) (journal : J)
      → AreLines encode (fields_of format_d message message_id (code_or caller code) kwargs) pairs
      → (fields : List (List ℕ)) × (send encode format_d sd_journal_sendv message message_id caller
            code kwargs journal
          ≡ send_iov sd_journal_sendv journal (returns fields))
        × ((j j' : H)
            → sd.foreach_data j ≡ (fields, j')
            → (dict : Dict) × (get_all sd decode j ≡ (returns dict, j'))
              × ((key : List ℕ) → lookup key dict ≡ entry_of (values_of key pairs)))
  unfolding send sendv
  send-get_all format_d sd_journal_sendv sd message message_id caller code kwargs pairs journal h =
      let (items, fields, made, filled, good) =
        make_lines-AreFields encode decode utf8 format_d
          (fields_of format_d message message_id (code_or caller code) kwargs) pairs h in
      (
        fields,
        ap (sends encode format_d sd_journal_sendv journal)
              (send_args-fields_of encode format_d message message_id caller code kwargs ∙ made)
            ∙ ap (send_iov sd_journal_sendv journal) filled,
        λ j j' e. get_all_lem sd decode j j' fields pairs e good,
      )
