-- ===== src/Login.antt =====
-- systemd/login.c: the lists of seats, sessions, machines and users, and the login monitor.
pub mod Lifetime
pub mod Names
pub mod References
use python_systemd.Base.{
  ℕ, zero, suc, ◌^◌, Bool, true, false, Option, none, some, List, [], ◌∷◌, get_elem?, set,
  replicate,
}
use python_systemd.Base.Int.{ℤ, pos, negsuc}
use python_systemd.Base.Buffer.{◌>>=◌}
use python_systemd.PyUtil.{
  Outcome, returns, raises, and_then, set_error, os_error, python, checked, checked_out,
  absolute_timeout,
}
use python_systemd.Reader.Methods.{unless_infinite}

-- The functions of sd-login: a result, and an array for a result that is no error.
pub record SdLogin : Type 0 where
  pub get_seats : ℤ × List (List ℕ)
  pub get_sessions : ℤ × List (List ℕ)
  pub get_machine_names : ℤ × List (List ℕ)
  pub get_uids : ℤ × List ℕ

-- A conversion that returns NULL has raised.
abbrev pub converted : {B C : Type 0} → Option B → (B → Option (Outcome C)) → Option (Outcome C)
converted none f = some (raises python)
converted (some b) f = f b

-- `for (r--; r >= 0; r--)`: PyList_SetItem at `r` for each element; `none` is a read behind the
-- array.
unfoldable pub fill_list :
    {A B : Type 0}
    → (convert : A → Option B) → (list : List A) → (r : ℕ) → (ans : List (Option B))
    → Option (Outcome (List (Option B)))
fill_list convert list zero ans = some (returns ans)
fill_list convert list (suc r) ans = get_elem? list r >>= λ a.
    converted (convert a) λ b. fill_list convert list r (set ans r (some b))

-- The body of the macro `helper`, and of `uids`; the places of a new list hold NULL.
unfoldable pub listing :
    {A B : Type 0} → (convert : A → Option B) → ℤ × List A → Option (Outcome (List (Option B)))
listing convert (negsuc n, list) = some (raises (os_error (suc n)))
listing convert (pos r, list) = fill_list convert list r (replicate r none)

module _ (sd : SdLogin) (decode : List ℕ → Option (List ℕ)) where
  unfoldable pub seats : Option (Outcome (List (Option (List ℕ))))
  seats = listing decode sd.get_seats

  unfoldable pub sessions : Option (Outcome (List (Option (List ℕ))))
  sessions = listing decode sd.get_sessions

  unfoldable pub machine_names : Option (Outcome (List (Option (List ℕ))))
  machine_names = listing decode sd.get_machine_names

  unfoldable pub uids : Option (Outcome (List (Option ℕ)))
  uids = listing some sd.get_uids

-- The login monitor: a handle `H` for the pointer of a Monitor with what it points to, `null` for
-- NULL.
pub record SdMonitor (H : Type 0) : Type 0 where
  pub null : H
  pub new : Option (List ℕ) → ℤ × Option H
  pub get_fd : H → ℤ × H
  pub get_events : H → ℤ × H
  pub get_timeout : H → ℤ × ℕ × H
  pub flush : H → H

module _ {H : Type 0} (sd : SdMonitor H) where
  abbrev pub held : H → Option H → H
  held monitor none = monitor
  held monitor (some monitor') = monitor'

  unfoldable pub monitor_init : Option (List ℕ) → H → Outcome ℕ × H
  monitor_init category monitor =
      let (r, monitor') = sd.new category in (set_error r true, held monitor monitor')

  unfoldable pub monitor_fileno : H → Outcome ℕ × H
  monitor_fileno monitor = checked false (λ fd. fd) (sd.get_fd monitor)

  unfoldable pub monitor_get_events : H → Outcome ℕ × H
  monitor_get_events monitor = checked false (λ r. r) (sd.get_events monitor)

  unfoldable pub monitor_get_timeout : H → Outcome (Option ℕ) × H
  monitor_get_timeout monitor = checked_out unless_infinite (sd.get_timeout monitor)

  unfoldable pub monitor_get_timeout_ms : (tv_sec tv_nsec : ℕ) → H → Outcome ℤ × H
  monitor_get_timeout_ms tv_sec tv_nsec monitor =
      checked_out (absolute_timeout tv_sec tv_nsec) (sd.get_timeout monitor)

  -- sd_login_monitor_unref releases what the pointer points to.
  unfoldable pub monitor_close : H → Outcome (Unit {0}) × H
  monitor_close monitor = (returns tt, sd.null)

  unfoldable pub monitor_flush : H → Outcome (Unit {0}) × H
  monitor_flush monitor = (returns tt, sd.flush monitor)

  unfoldable pub monitor_enter : H → Outcome (Unit {0}) × H
  monitor_enter monitor = (returns tt, monitor)

  unfoldable pub monitor_exit : H → Outcome (Unit {0}) × H
  monitor_exit monitor = monitor_close monitor
