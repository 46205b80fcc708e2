-- ===== src/FsprgModule/Memory.antt =====
-- The array of a state and the Python list that fills it.
use python_systemd.Base.{
  ℕ, ◌%◌, ◌^◌, ◌<◌, ◌≡◌, refl, ap, Bool, true, false, ◌||◌, not, Option, some, none, List, [], ◌∷◌,
  length, map, arith,
}
use python_systemd.Base.Int.{ℤ, pos}
use python_systemd.Base.Buffer.{◌>>=◌}
use python_systemd.PyUtil.{Outcome, returns, and_then}
use python_systemd.Fsprg.Gcrypt.{Gcrypt, IsBytes}
use python_systemd.Fsprg.Scheme
use python_systemd.FsprgModule.{
  load_state, is_unsigned_long, item_byte, on_state, evolve, get_epoch,
}

-- The list that the functions give for a state, as they take it.
abbrev pub to_items : List ℕ → List (Option ℤ)
to_items [] = []
to_items (b ∷ bytes) = some (pos b) ∷ to_items bytes

byte_in_range : (b : ℕ) → b < 256 → is_unsigned_long (pos b) ≡ true
byte_in_range b h = ground arith

or_false : (p : Bool) → (p || not true) ≡ p
or_false true = refl
or_false false = refl

load_state-to_items :
    (bytes memory : List ℕ) (pending : Bool)
    → IsBytes bytes
    → length bytes ≡ length memory
    → load_state (to_items bytes) memory pending ≡ some (returns (bytes, pending))
unfolding load_state
load_state-to_items [] [] pending h e = refl
load_state-to_items [] (m ∷ memory) pending h e = absurd (omega arith)
load_state-to_items (b ∷ bytes) [] pending h e = absurd (omega arith)
load_state-to_items (b ∷ bytes) (m ∷ memory) pending h e =
    rw
      (
        byte_in_range b h.0,
        or_false pending,
        load_state-to_items bytes memory pending h.1 (omega arith),
      )
      (ap (λ (v : ℕ). some (returns (v ∷ bytes, pending)))
        (let e : b % 2 ^ 8 ≡ b = omega arith in e))

-- On a list of as many bytes as the state array has, the Python functions evolve and get_epoch
-- give what FSPRG_Evolve and FSPRG_GetEpoch give on these bytes.
pub evolve-to_items :
    (g : Gcrypt) (memory bytes : List ℕ)
    → IsBytes bytes
    → length bytes ≡ length memory
    → (evolve g memory (to_items bytes) ≡ (Scheme.evolve g bytes >>= λ next. some (returns next)))
      × (get_epoch g memory (to_items bytes)
          ≡ (Scheme.get_epoch bytes >>= λ epoch. some (returns epoch)))
unfolding evolve get_epoch
evolve-to_items g memory bytes h e = (
  ap (on_state (Scheme.evolve g)) (load_state-to_items bytes memory false h e),
  ap (on_state Scheme.get_epoch) (load_state-to_items bytes memory false h e),
)

-- A list of integers that is longer than the state array is written behind the end of the array.
pub load_state_overflow :
    (items : List ℤ) (memory : List ℕ) (pending : Bool)
    → length memory < length items
    → load_state (map some items) memory pending ≡ none
unfolding load_state
load_state_overflow [] memory pending h = absurd (omega arith)
load_state_overflow (v ∷ items) [] pending h = refl
load_state_overflow (v ∷ items) (b ∷ memory) pending h =
    ap
      (λ (o : Option (Outcome (List ℕ × Bool))).
        o >>= λ o. some (and_then o λ r. returns (item_byte v ∷ r.0, r.1)))
      (load_state_overflow items memory (pending || not (is_unsigned_long v)) (omega arith))
