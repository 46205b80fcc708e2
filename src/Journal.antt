-- ===== src/Journal.antt =====
-- systemd/_journal.c: entries and streams for the journal.
pub mod Sent
pub mod References
use python_systemd.Base.{ℕ, ◌+◌, Option, none, some, List, [], ◌∷◌}
use python_systemd.Base.Int.{ℤ, pos, negsuc}
use python_systemd.PyUtil.{Outcome, returns, raises, and_then, os_error, python, type_error}

-- An argument of sendv: a text, with its UTF-8 encoding if there is one, bytes, or something else.
pub data Item : Type 0 where
  text : Option (List ℕ) → Item
  bytes : List ℕ → Item
  neither : Item

-- PyUnicode_AsEncodedString, PyBytes_AsStringAndSize
unfoldable pub encoded : Item → Outcome (List ℕ)
encoded (text none) = raises python
encoded (text (some utf8)) = returns utf8
encoded (bytes s) = returns s
encoded neither = raises type_error

-- The loop over the arguments.
unfoldable pub fill_iov : List Item → Outcome (List (List ℕ))
fill_iov [] = returns []
fill_iov (item ∷ args) =
    and_then (encoded item) λ s. and_then (fill_iov args) λ iov. returns (s ∷ iov)

-- The outcome of a call that gives an error number below 0.
abbrev pub io_result : ℤ → Outcome ℕ
io_result (pos r) = returns r
io_result (negsuc n) = raises (os_error (n + 1))

-- `sd_journal_sendv` works on the journal `J`.
module _ {J : Type 0} (sd_journal_sendv : List (List ℕ) → J → ℤ × J) where
  abbrev pub send_iov : J → Outcome (List (List ℕ)) → Outcome (Unit {0}) × J
  send_iov j (raises e) = (raises e, j)
  send_iov j (returns iov) =
      let (r, j') = sd_journal_sendv iov j in (and_then (io_result r) λ n. returns tt, j')

  unfoldable pub sendv : List Item → J → Outcome (Unit {0}) × J
  sendv args j = send_iov j (fill_iov args)

-- After PyArg_ParseTuple.
unfoldable pub stream_fd :
    (sd_journal_stream_fd : List ℕ → ℤ → ℤ → ℤ) → List ℕ → (priority level_prefix : ℤ) → Outcome ℕ
stream_fd sd_journal_stream_fd identifier priority level_prefix =
    io_result (sd_journal_stream_fd identifier priority level_prefix)
