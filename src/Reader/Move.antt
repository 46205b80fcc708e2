-- ===== src/Reader/Move.antt =====
-- Reader_next, Reader_previous and the seeking methods of systemd/_reader.c.
pub mod Skip
use python_systemd.Base.{
  ℕ, zero, suc, ◌+◌, ◌-◌, ◌%◌, ◌^◌, Bool, true, false, Option, none, some, List, ◌==◌,
  if◌then◌else◌,
}
use python_systemd.Base.Int.{ℤ, pos, negsuc, neg, eqb_ℤ, pos_part, neg_part}
use python_systemd.Base.Word.{u64}
use python_systemd.PyUtil.{Outcome, returns, raises, and_then, set_error, value_error, abort}
use python_systemd.Reader.{SdJournal}
use python_systemd.PyUtil.{checked, nothing, py_bool}

-- The least number of `int64_t`, whose negation C leaves undefined.
abbrev pub least_int64 : ℤ
least_int64 = neg (pos (2 ^ 63))

abbrev pub neg_int64 : ℤ → Option ℤ
neg_int64 z = if eqb_ℤ z least_int64 then none else some (neg z)

-- What sd_id128_from_string and sd_id128_get_boot give.
pub record Id128 : Type 0 where
  pub from_string : List ℕ → ℤ × List ℕ
  pub get_boot : ℤ × List ℕ

module _ {H : Type 0} (sd : SdJournal H) where
  -- The four calls among which the sign and the size of `skip` choose, for a `skip`
  -- that can be negated.
  unfoldable pub move : ℤ → H → ℤ × H
  move (pos n) j = if n == 1 then sd.next j else sd.next_skip n j
  move (negsuc n) j = if n == 0 then sd.previous j else sd.previous_skip (n + 1) j

  unfoldable pub next : ℤ → H → Outcome Bool × H
  next skip j =
      if eqb_ℤ skip (pos 0)
      then (raises value_error, j)
      else (if eqb_ℤ skip least_int64
          then (raises abort, j)
          else checked false py_bool (move skip j))

  abbrev pub move_back : Option ℤ → H → Outcome Bool × H
  move_back none j = (raises abort, j)
  move_back (some skip) j = next skip j

  -- It calls the method `_next`.
  unfoldable pub previous : ℤ → H → Outcome Bool × H
  previous skip j = move_back (neg_int64 skip) j

  unfoldable pub seek_head : H → Outcome (Unit {0}) × H
  seek_head j = checked false nothing (sd.seek_head j)

  unfoldable pub seek_tail : H → Outcome (Unit {0}) × H
  seek_tail j = checked false nothing (sd.seek_tail j)

  unfoldable pub seek_realtime : ℕ → H → Outcome (Unit {0}) × H
  seek_realtime timestamp j = checked false nothing (sd.seek_realtime_usec timestamp j)

  abbrev pub found_boot : Id128 → Option (List ℕ) → Outcome (List ℕ)
  found_boot ids none = and_then (set_error ids.get_boot.0 false) λ n. returns (ids.get_boot.1)
  found_boot ids (some bootid) =
      and_then (set_error (ids.from_string bootid).0 true) λ n. returns ((ids.from_string bootid).1)

  abbrev pub seek_in_boot : ℕ → H → Outcome (List ℕ) → Outcome (Unit {0}) × H
  seek_in_boot timestamp j (raises e) = (raises e, j)
  seek_in_boot timestamp j (returns id) =
      checked false nothing (sd.seek_monotonic_usec id timestamp j)

  unfoldable pub seek_monotonic : Id128 → ℕ → Option (List ℕ) → H → Outcome (Unit {0}) × H
  seek_monotonic ids timestamp bootid j = seek_in_boot timestamp j (found_boot ids bootid)

  unfoldable pub seek_cursor : List ℕ → H → Outcome (Unit {0}) × H
  seek_cursor cursor j = checked true nothing (sd.seek_cursor cursor j)
