-- ===== src/Journal/Sent.antt =====
-- What sendv hands to the journal.
use python_systemd.Base.{ℕ, suc, List, some}
use python_systemd.Base.Int.{ℤ, pos, negsuc}
use python_systemd.PyUtil.{Outcome, returns, raises, os_error}
use python_systemd.Journal.{Item, text, bytes}

-- A field of an entry as an argument: a text with its encoding, or bytes.
pub data Field : Type 0 where
  as_text : List ℕ → Field
  as_bytes : List ℕ → Field

abbrev pub item_of : Field → Item
item_of (as_text s) = text (some s)
item_of (as_bytes s) = bytes s

abbrev pub content : Field → List ℕ
content (as_text s) = s
content (as_bytes s) = s

-- What a caller gets for a result of the journal: None, or the error number in an exception.
abbrev pub sent_outcome : ℤ → Outcome (Unit {0})
sent_outcome (pos n) = returns tt
sent_outcome (negsuc n) = raises (os_error (suc n))
