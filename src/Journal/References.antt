-- ===== src/Journal/References.antt =====
-- The references that journal_sendv of systemd/_journal.c takes on the texts that it encodes.
use python_systemd.Base.{ℕ, ◌+◌, ◌≡◌, Bool, true, false, Option, none, some, List, [], ◌∷◌, arith}
use python_systemd.PyUtil.References.{Counts, incref, decref_all, decref_all-counts, occurrences}

-- An argument: a text, with the object of its encoding unless that fails; bytes; something else.
pub data Argument : Type 0 where
  unicode : Option ℕ → Argument
  bytes_argument : Argument
  other_argument : Argument

-- The loop: the array `encoded` so far without its NULLs, and whether the arguments are all taken.
unfoldable pub encode_references : List Argument → List ℕ → Counts → Bool × List ℕ × Counts
encode_references [] encoded c = (true, encoded, c)
encode_references (unicode none ∷ args) encoded c = (false, encoded, c)
encode_references (unicode (some o) ∷ args) encoded c =
    encode_references args (o ∷ encoded) (incref o c)
encode_references (bytes_argument ∷ args) encoded c = encode_references args encoded c
encode_references (other_argument ∷ args) encoded c = (false, encoded, c)

-- `out:` releases what has been encoded, on every path.
unfoldable pub sendv_references : List Argument → Counts → Option Counts
sendv_references args c =
    let (taken, encoded, c) = encode_references args [] c in decref_all encoded c

encode_references-counts :
    (args : List Argument) (encoded : List ℕ) (c d : Counts)
    → ((p : ℕ) → d p ≡ c p + occurrences p encoded)
    → (p : ℕ)
    → (encode_references args encoded d).2 p
      ≡ c p + occurrences p (encode_references args encoded d).1
unfolding encode_references incref
encode_references-counts [] encoded c d h p = h p
encode_references-counts (unicode none ∷ args) encoded c d h p = h p
encode_references-counts (unicode (some o) ∷ args) encoded c d h p =
    encode_references-counts args (o ∷ encoded) c (incref o d) (λ p. omega (arith, h p)) p
encode_references-counts (bytes_argument ∷ args) encoded c d h p =
    encode_references-counts args encoded c d h p
encode_references-counts (other_argument ∷ args) encoded c d h p = h p

-- On any arguments sendv releases the objects that it has encoded, on its error paths too: the
-- counts of all objects are in the end what they were, and no reference is released that is not
-- held.
pub sendv_references-same :
    (args : List Argument) (c : Counts)
    → (d : Counts) × (sendv_references args c ≡ some d) × ((p : ℕ) → d p ≡ c p)
unfolding sendv_references
sendv_references-same args c =
    let r = encode_references args [] c in
    let counted = encode_references-counts args [] c c (λ p. omega arith) in
    let (d, released, left) = decref_all-counts r.1 r.2 (λ p. (c p, counted p)) in
    (d, released, λ p. omega (arith, counted p, left p))
