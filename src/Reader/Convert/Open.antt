-- ===== src/Reader/Convert/Open.antt =====
-- Files of a Reader: Reader_init of systemd/_reader.c on a list of names or of descriptors.
use python_systemd.Base.{
  ℕ, suc, ◌≡◌, refl, Bool, true, false, Option, none, some, List, ◌∷◌, ◌++◌, ◌==◌, if◌then◌else◌,
  arith,
}
use python_systemd.Base.Int.{ℤ, pos, negsuc}
use python_systemd.PyUtil.{
  Outcome, returns, raises, value_error, memory_error, os_error, type_error, overflow_error,
  set_error, error_exception,
}
use python_systemd.Daemon.Arguments.{all_fit}
use python_systemd.Reader.Convert.{
  Object, Argument, integer, absent, passed, sequence, Opener, null_converter, strv_converter,
  intlist_converter, opened, with_argument, unsupported, open_files, init_with, init,
}
use python_systemd.Reader.Convert.Lists.{
  numbers, texts, int_items-numbers, strv_items-texts, strv_items-integer,
}

-- What the caller of __init__ gets for the result of sd-journal, and the pointer after it.
abbrev pub open_outcome : {H : Type 0} → H → ℤ × Option H → Outcome (Unit {0}) × H
open_outcome j (pos r, none) = (returns tt, j)
open_outcome j (pos r, some j') = (returns tt, j')
open_outcome j (negsuc n, none) = (
  raises (
      if suc n == 22
      then value_error
      else (if suc n == 12 then memory_error else os_error (suc n))),
  j,
)
open_outcome j (negsuc n, some j') = (
  raises (
      if suc n == 22
      then value_error
      else (if suc n == 12 then memory_error else os_error (suc n))),
  j',
)

module _ {H : Type 0} (o : Opener H) where
  opened-open_outcome : (j : H) (r : ℤ × Option H) → opened o false j r ≡ open_outcome j r
  unfolding set_error error_exception
  opened-open_outcome j (pos r, none) = refl
  opened-open_outcome j (pos r, some j') = refl
  opened-open_outcome j (negsuc n, none) = ground arith
  opened-open_outcome j (negsuc n, some j') = ground arith

  -- Where the build has sd_journal_open_files and sd_journal_open_files_fd, a Reader without a
  -- path, for a list of texts, not empty, opens exactly these names in their order, and one
  -- for a list of integers, not empty, opens exactly these descriptors; the caller gets
  -- ValueError for -EINVAL, MemoryError for -ENOMEM, OSError for another negative result, and
  -- the pointer is the one that sd-journal stores, if it stores one. A list with an integer
  -- behind texts raises TypeError and opens nothing, as one with an integer outside the 32
  -- bits of int raises OverflowError.
  pub init_files_lem :
      (flags : ℕ) (namespace : Argument Object) (j : H) (s : List ℕ) (ss : List (List ℕ)) (z : ℤ)
      (zs : List ℤ) (number : Option ℤ) (more : List Object)
      → o.have_open_files ≡ true
      → o.have_open_directory_fd ≡ true
      → (init o flags absent (passed (sequence (texts (s ∷ ss)))) namespace j
          ≡ open_outcome j (o.open_files (s ∷ ss) flags))
        × (init o flags absent
              (passed (sequence (texts (s ∷ ss) ++ (integer number ∷ more))))
              namespace
              j
            ≡ (raises type_error, j))
        × (init o flags absent (passed (sequence (numbers (z ∷ zs)))) namespace j ≡ (
            if all_fit (z ∷ zs)
            then open_outcome j (o.open_files_fd (z ∷ zs) flags)
            else (raises overflow_error, j)))
  unfolding init init_with null_converter open_files strv_converter intlist_converter
  init_files_lem flags namespace j s ss z zs number more have have_fd = (
    rw (strv_items-texts (s ∷ ss), have) (opened-open_outcome j (o.open_files (s ∷ ss) flags)),
    rw (strv_items-integer (s ∷ ss) number more) refl,
    rw (int_items-numbers (z ∷ zs)) (by_range (all_fit (z ∷ zs))),
  )
    where
      by_range :
          (b : Bool)
          → with_argument o false j
              (if b then returns (z ∷ zs) else raises overflow_error)
              (λ fds. if o.have_open_directory_fd then o.open_files_fd fds flags else unsupported o)
            ≡ (if b
                then open_outcome j (o.open_files_fd (z ∷ zs) flags)
                else (raises overflow_error, j))
      by_range true = rw have_fd (opened-open_outcome j (o.open_files_fd (z ∷ zs) flags))
      by_range false = refl
