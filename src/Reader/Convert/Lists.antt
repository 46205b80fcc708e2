-- ===== src/Reader/Convert/Lists.antt =====
-- What the converters make of sequences.
use python_systemd.Base.{ℕ, ◌≡◌, refl, Option, some, List, [], ◌∷◌, ◌++◌, arith, if◌then◌else◌}
use python_systemd.Base.Int.{ℤ}
use python_systemd.PyUtil.{returns, raises, overflow_error, type_error}
use python_systemd.Daemon.Arguments.{all_fit}
use python_systemd.Reader.Convert.{
  Object, integer, other, sequence, strv_items, int_items, strv_converter, intlist_converter,
  long_as_fd, str_converter,
}

abbrev pub numbers : List ℤ → List Object
numbers [] = []
numbers (z ∷ zs) = integer (some z) ∷ numbers zs

abbrev pub texts : List (List ℕ) → List Object
texts [] = []
texts (s ∷ ss) = other (some s) ∷ texts ss

pub int_items-numbers :
    (zs : List ℤ)
    → int_items (numbers zs) ≡ (if all_fit zs then returns zs else raises overflow_error)
unfolding int_items long_as_fd
int_items-numbers [] = refl
int_items-numbers (z ∷ zs) = ground (arith, int_items-numbers zs)

pub strv_items-texts : (ss : List (List ℕ)) → strv_items (texts ss) ≡ returns ss
unfolding strv_items str_converter
strv_items-texts [] = refl
strv_items-texts (s ∷ ss) = ground (arith, strv_items-texts ss)

pub strv_items-integer :
    (ss : List (List ℕ)) (z : Option ℤ) (more : List Object)
    → strv_items (texts ss ++ (integer z ∷ more)) ≡ raises type_error
unfolding strv_items str_converter
strv_items-integer [] z more = refl
strv_items-integer (s ∷ ss) z more = ground (arith, strv_items-integer ss z more)

-- A list of integers becomes the array of descriptors when all fit int and raises OverflowError
-- else; a list of texts becomes these texts in order, and raises TypeError when an integer comes
-- behind them.
pub converters_lem :
    (zs : List ℤ) (ss : List (List ℕ)) (z : Option ℤ) (more : List Object)
    → (intlist_converter (sequence (numbers zs))
        ≡ (if all_fit zs then returns zs else raises overflow_error))
      × (strv_converter (sequence (texts ss)) ≡ returns ss)
      × (strv_converter (sequence (texts ss ++ (integer z ∷ more))) ≡ raises type_error)
unfolding strv_converter intlist_converter strv_items str_converter
converters_lem zs ss z more =
    (int_items-numbers zs, strv_items-texts ss, strv_items-integer ss z more)
