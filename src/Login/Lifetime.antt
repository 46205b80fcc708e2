-- ===== src/Login/Lifetime.antt =====
-- The pointer of a Monitor and the monitors that are open: Monitor_init, Monitor_close,
-- Monitor_dealloc of systemd/login.c, beside the Reader.
use python_systemd.Base.{
  ℕ, suc, ◌≡◌, refl, ◌∙◌, ap, false, Option, none, some, List, [], ◌∷◌, length,
}
use python_systemd.Base.Int.{ℤ, pos, negsuc}
use python_systemd.Base.Buffer.{◌>>=◌}
use python_systemd.Reader.Lifetime.{
  Life, new_life, sd_close, use_pointer, open_into, close_pointer, Call, opens, uses, closes, step,
  run, dealloc, life,
}
use python_systemd.Reader.Lifetime.Leaks.{overwritten, life_lem}

-- sd_login_monitor_new, which stores a monitor just when the result is no error.
unfoldable pub new_into : ℤ → Life → Life
new_into (negsuc n) s = s
new_into (pos r) s = record { pointer = some s.made; live = s.made ∷ s.live; made = suc s.made }

-- sd_login_monitor_unref takes NULL, as sd_journal_close does.
unfoldable pub monitor_unset : Life → Option Life
monitor_unset s =
    sd_close s.pointer s.live >>= λ live. some (record s { pointer = none; live = live })

unfoldable pub monitor_dealloc : Life → Option (List ℕ)
monitor_dealloc s = sd_close s.pointer s.live

unfoldable pub monitor_step : Call → Life → Option Life
monitor_step (opens r) s = some (new_into r s)
monitor_step uses s = use_pointer s.pointer s
monitor_step closes s = monitor_unset s

unfoldable pub monitor_run : List Call → Life → Option Life
monitor_run [] s = some s
monitor_run (c ∷ calls) s = monitor_step c s >>= monitor_run calls

unfoldable pub monitor_life : List Call → Option (List ℕ)
monitor_life calls = monitor_run calls new_life >>= monitor_dealloc

same_step : (c : Call) (s : Life) → monitor_step c s ≡ step c s
unfolding monitor_step step new_into open_into monitor_unset close_pointer
same_step (opens (pos r)) s = refl
same_step (opens (negsuc n)) s = refl
same_step uses s = refl
same_step closes s = refl

same_bind :
    (calls : List Call)
    → ((s : Life) → monitor_run calls s ≡ run calls s)
    → (o : Option Life) → o >>= monitor_run calls ≡ o >>= run calls
same_bind calls h none = refl
same_bind calls h (some s) = h s

same_run : (calls : List Call) (s : Life) → monitor_run calls s ≡ run calls s
unfolding monitor_run run
same_run [] s = refl
same_run (c ∷ calls) s =
    ap (λ (o : Option Life). o >>= monitor_run calls) (same_step c s)
    ∙ same_bind calls (same_run calls) (step c s)

-- Over any calls of __init__, of close and of other methods, with any results of sd-journal and
-- of sd-login, up to the deallocation, a Reader and a Monitor use and release nothing that is
-- not open, and leave open as many journals and monitors as successful calls of __init__ have
-- overwritten ones that were still held.
pub lives_lem :
    (calls : List Call)
    → (left : List ℕ) × (life calls ≡ some left)
      × (monitor_life calls ≡ some left)
      × (length left ≡ overwritten false calls)
unfolding life monitor_life dealloc monitor_dealloc
lives_lem calls =
    let (left, lives, counted) = life_lem calls in
    (
      left,
      lives,
      ap (λ (o : Option Life). o >>= monitor_dealloc) (same_run calls new_life) ∙ lives,
      counted,
    )
