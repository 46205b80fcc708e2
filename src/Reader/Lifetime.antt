-- ===== src/Reader/Lifetime.antt =====
-- The pointer of a Reader and the journals that are open: Reader_init, Reader_close, Reader_dealloc
-- of systemd/_reader.c, over the life of an object.
pub mod Leaks
use python_systemd.Base.{
  ℕ, zero, suc, ◌+◌, Bool, true, false, Option, none, some, List, [], ◌∷◌, ◌==◌, if◌then◌else◌,
}
use python_systemd.Base.Int.{ℤ, pos, negsuc}
use python_systemd.Base.Buffer.{◌>>=◌}

-- `live` are the journals that are open, by number, `made` how many there have been.
pub record Life : Type 0 where
  pub pointer : Option ℕ
  pub live : List ℕ
  pub made : ℕ

-- What PyType_GenericNew leaves.
abbrev pub new_life : Life
new_life = record { pointer = none; live = []; made = 0 }

-- sd_journal_close, which takes NULL; `none` is a journal that is not open.
unfoldable pub remove : ℕ → List ℕ → Option (List ℕ)
remove h [] = none
remove h (i ∷ live) =
    let rest = remove h live >>= λ live. some (i ∷ live) in if i == h then some live else rest

unfoldable pub sd_close : Option ℕ → List ℕ → Option (List ℕ)
sd_close none live = some live
sd_close (some h) live = remove h live

-- `sd_journal_open(&self->j, flags)` and the like, which make a journal just when the result is no
-- error.
unfoldable pub open_into : ℤ → Life → Life
open_into (negsuc n) s = s
open_into (pos r) s = record { pointer = some s.made; live = s.made ∷ s.live; made = suc s.made }

unfoldable pub close_pointer : Life → Option Life
close_pointer s =
    sd_close s.pointer s.live >>= λ live. some (record s { pointer = none; live = live })

-- What is open when the object is gone.
unfoldable pub dealloc : Life → Option (List ℕ)
dealloc s = sd_close s.pointer s.live

abbrev pub is_live : ℕ → List ℕ → Bool
is_live h [] = false
is_live h (i ∷ live) = let rest = is_live h live in if i == h then true else rest

-- A method that hands its pointer to sd-journal, which takes NULL.
unfoldable pub use_pointer : Option ℕ → Life → Option Life
use_pointer none s = some s
use_pointer (some h) s = if is_live h s.live then some s else none

-- `opens` is a call of __init__ with the result of sd-journal, `uses` one of another method.
pub data Call : Type 0 where
  opens : ℤ → Call
  uses : Call
  closes : Call

unfoldable pub step : Call → Life → Option Life
step (opens r) s = some (open_into r s)
step uses s = use_pointer s.pointer s
step closes s = close_pointer s

unfoldable pub run : List Call → Life → Option Life
run [] s = some s
run (c ∷ calls) s = step c s >>= run calls

-- The whole life of an object.
unfoldable pub life : List Call → Option (List ℕ)
life calls = run calls new_life >>= dealloc
