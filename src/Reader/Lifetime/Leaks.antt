-- ===== src/Reader/Lifetime/Leaks.antt =====
-- No journal is used or closed when it is not open, and which are never closed.
use python_systemd.Base.{
  ℕ, suc, ◌+◌, ◌≡◌, refl, ◌∙◌, ap, Bool, true, false, Option, none, some, List, [], ◌∷◌, length,
  ◌==◌, ==_iff, if◌then◌else◌, arith,
}
use python_systemd.Base.Int.{pos, negsuc}
use python_systemd.Base.Buffer.{◌>>=◌}
use python_systemd.Reader.Lifetime.{
  Life, remove, sd_close, open_into, close_pointer, dealloc, use_pointer, Call, opens, uses, closes,
  step, run, life,
}

-- The pointer is NULL, or the journal that was opened last, which is open.
abbrev pub IsHeld : Option ℕ → List ℕ → Type 0
IsHeld none live = Unit
IsHeld (some h) live = (rest : List ℕ) × (live ≡ h ∷ rest)

abbrev pub holds : Option ℕ → ℕ
holds none = 0
holds (some h) = 1

-- How many journals are opened over one that the object still holds.
abbrev pub overwritten : Bool → List Call → ℕ
overwritten held [] = 0
overwritten held (opens (negsuc n) ∷ calls) = overwritten held calls
overwritten held (opens (pos r) ∷ calls) = (if held then 1 else 0) + overwritten true calls
overwritten held (uses ∷ calls) = overwritten held calls
overwritten held (closes ∷ calls) = overwritten false calls

abbrev pub is_held : Option ℕ → Bool
is_held none = false
is_held (some h) = true

same : (h : ℕ) → (h == h) ≡ true
same h = (==_iff h h).1 refl

sd_close-IsHeld :
    (p : Option ℕ) (live : List ℕ)
    → IsHeld p live
    → (left : List ℕ) × (sd_close p live ≡ some left) × (length live ≡ holds p + length left)
unfolding sd_close remove
sd_close-IsHeld none live h = (live, refl, omega arith)
sd_close-IsHeld (some p) live (rest, e) = (rest, rw (e, same p) refl, omega (arith, ap length e))

-- A step succeeds, keeps what the pointer is, and loses no journal but by opening over one.
record IsAdvance (c : Call) (p : Option ℕ) (live : List ℕ) (made : ℕ) : Type 0 where
  after : Life
  runs : step c (record { pointer = p; live = live; made = made }) ≡ some after
  held : IsHeld after.pointer after.live
  lost :
      (calls : List Call)
      → length after.live + overwritten (is_held after.pointer) calls + holds p
        ≡ length live + overwritten (is_held p) (c ∷ calls) + holds after.pointer

step-IsAdvance :
    (c : Call) (p : Option ℕ) (live : List ℕ) (made : ℕ) → IsHeld p live → IsAdvance c p live made
unfolding step open_into use_pointer close_pointer
step-IsAdvance (opens (negsuc n)) p live made h = record {
  after = record { pointer = p; live = live; made = made };
  runs = refl;
  held = h;
  lost = λ calls. refl;
}
step-IsAdvance (opens (pos r)) none live made h = record {
  after = record { pointer = some made; live = made ∷ live; made = suc made };
  runs = refl;
  held = (live, refl);
  lost = λ calls. omega arith;
}
step-IsAdvance (opens (pos r)) (some p) live made h = record {
  after = record { pointer = some made; live = made ∷ live; made = suc made };
  runs = refl;
  held = (live, refl);
  lost = λ calls. omega arith;
}
step-IsAdvance uses none live made h = record {
  after = record { pointer = none; live = live; made = made };
  runs = refl;
  held = h;
  lost = λ calls. refl;
}
step-IsAdvance uses (some p) live made (rest, e) = record {
  after = record { pointer = some p; live = live; made = made };
  runs = rw (e, same p) refl;
  held = (rest, e);
  lost = λ calls. refl;
}
step-IsAdvance closes p live made h =
    let (left, closed, counted) = sd_close-IsHeld p live h in
    record {
      after = record { pointer = none; live = left; made = made };
      runs = rw closed refl;
      held = tt;
      lost = λ calls. omega (arith, counted);
    }

-- Every sequence of calls succeeds.
run-IsHeld :
    (calls : List Call) (p : Option ℕ) (live : List ℕ) (made : ℕ)
    → IsHeld p live
    → (s : Life) × (run calls (record { pointer = p; live = live; made = made }) ≡ some s)
      × IsHeld s.pointer s.live
      × (length s.live + holds p ≡ length live + overwritten (is_held p) calls + holds s.pointer)
unfolding run
run-IsHeld [] p live made h =
    (record { pointer = p; live = live; made = made }, refl, h, omega arith)
run-IsHeld (c ∷ calls) p live made h =
    let first = step-IsAdvance c p live made h in
    let (s, runs, held, counted) =
      run-IsHeld calls first.after.pointer first.after.live first.after.made first.held in
    (
      s,
      ap (λ (o : Option Life). o >>= run calls) first.runs ∙ runs,
      held,
      omega (arith, counted, first.lost calls),
    )

-- Over any calls a Reader uses and closes nothing that is not open, and leaves open what an __init__ has
-- overwritten.
pub life_lem :
    (calls : List Call)
    → (left : List ℕ) × (life calls ≡ some left) × (length left ≡ overwritten false calls)
unfolding life dealloc
life_lem calls =
    let (s, runs, held, counted) = run-IsHeld calls none [] 0 tt in
    let (left, closed, rest) = sd_close-IsHeld s.pointer s.live held in
    (left, ap (λ (o : Option Life). o >>= dealloc) runs ∙ closed, omega (arith, counted, rest))
