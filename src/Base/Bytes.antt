-- ===== src/Base/Bytes.antt =====
-- Texts as lists of bytes: equality, membership, and sets without an order.
use Prim.Native.Nat.{ℕ}
use mathlib.Core.Path.{◌≡◌, refl}
use mathlib.Core.Logic.{◌↔◌}
use mathlib.Core.Bool.{Bool, true, false, ◌&&◌, ◌||◌}
use mathlib.Core.List.{List, [], ◌∷◌}
use native.Mathlib.Omega.{arith}
use python_systemd.Base.Tests.{◌==◌, if◌then◌else◌}

unfoldable pub eq_bytes : List ℕ → List ℕ → Bool
eq_bytes [] [] = true
eq_bytes [] (b ∷ t) = false
eq_bytes (a ∷ s) [] = false
eq_bytes (a ∷ s) (b ∷ t) = a == b && eq_bytes s t

pub eq_bytes_sound : (s t : List ℕ) → eq_bytes s t ≡ true → s ≡ t
unfolding eq_bytes
eq_bytes_sound [] [] e = refl
eq_bytes_sound [] (b ∷ t) e = absurd (ground arith)
eq_bytes_sound (a ∷ s) [] e = absurd (ground arith)
eq_bytes_sound (a ∷ s) (b ∷ t) e = ground (arith, eq_bytes_sound s t)

pub eq_bytes_refl : (s : List ℕ) → eq_bytes s s ≡ true
unfolding eq_bytes
eq_bytes_refl [] = refl
eq_bytes_refl (a ∷ s) = ground (arith, eq_bytes_refl s)

pub eq_bytes_iff : (s t : List ℕ) → (eq_bytes s t ≡ true) ↔ (s ≡ t)
eq_bytes_iff s t = (eq_bytes_sound s t, λ e. rw e (eq_bytes_refl t))

unfoldable pub elem : List ℕ → List (List ℕ) → Bool
elem v [] = false
elem v (w ∷ set) = eq_bytes w v || elem v set

-- PySet_Add
unfoldable pub set_add : List ℕ → List (List ℕ) → List (List ℕ)
set_add v set = if elem v set then set else v ∷ set

-- No element stands twice.
abbrev pub IsDistinct : List (List ℕ) → Type 0
IsDistinct [] = Unit
IsDistinct (v ∷ set) = (elem v set ≡ false) × IsDistinct set

pub set_add-IsDistinct :
    (v : List ℕ) (set : List (List ℕ)) → IsDistinct set → IsDistinct (set_add v set)
unfolding set_add
set_add-IsDistinct v set h = ground arith

pub elem-set_add :
    (v w : List ℕ) (set : List (List ℕ)) → elem v (set_add w set) ≡ (eq_bytes w v || elem v set)
unfolding set_add elem
elem-set_add v w set = ground (arith, eq_bytes_iff w v)
