-- ===== src/Modules/Made.antt =====
-- A module that has been made, or what is left of it.
use python_systemd.Base.{
  ℕ, ◌+◌, ◌≡◌, refl, Bool, true, false, ◌&&◌, none, some, List, [], if◌then◌else◌, arith, inl, inr,
}
use Prim.Native.String.{String}
use python_systemd.PyUtil.References.{
  Counts, incref, release_container-counts, unit_at, unit_at_self, occurrences,
}
use python_systemd.Modules.{Entry, objects, give_up, create_with, Imported}
use python_systemd.Modules.Counted.{held, adds_all, leaked, add_all-counts}

-- A module with all entries, which own their objects, just when Python agrees to every step; else NULL
-- with references to `lost` left.
abbrev pub IsModule : Bool → (m : ℕ) → List Entry → (lost : List ℕ) → Counts → Imported → Type 0
IsModule agreed m entries lost c (some done, d) =
    (agreed ≡ true)
    × (done ≡ entries)
    × ((p : ℕ) → d p ≡ c p + unit_at m p + occurrences p (objects entries))
IsModule agreed m entries lost c (none, d) =
    (agreed ≡ false) × ((p : ℕ) → d p ≡ c p + occurrences p lost)

module _ (accepts : String → Bool) where
  pub give_up-counts :
      (m : ℕ) (done : List Entry) (b c : Counts)
      → c m ≡ 1
      → ((p : ℕ) → c p ≡ b p + unit_at m p + occurrences p (objects done))
      → (d : Counts) × (give_up accepts m done c ≡ some (none, d)) × ((p : ℕ) → d p ≡ b p)
  unfolding give_up
  give_up-counts m done b c alone h =
      let (d, run, left) = release_container-counts m (objects done) b c alone h in
      (d, rw run refl, left)

  pub create_with-IsModule :
      (m : ℕ) (entries : List Entry) (hc c : Counts)
      → c m ≡ 0
      → occurrences m (objects entries) ≡ 0
      → ((p : ℕ) → hc p ≡ c p + occurrences p (held entries))
      → (r : Imported) × (create_with accepts true m entries hc c ≡ some r)
        × IsModule (adds_all accepts entries) m entries (leaked accepts entries) c r
  unfolding create_with incref
  create_with-IsModule m entries hc c fresh other h =
      elim (add_all-counts accepts entries [] (λ p. c p + unit_at m p) (incref m hc)
        (λ p. omega (arith, h p))) [
          | inl a ↦ ((some entries, a.counts), rw a.run refl, (a.all, refl, a.counted))
          | inr r ↦
              let (d, run, left) =
                give_up-counts m r.added (λ p. c p + occurrences p (leaked accepts entries))
                  r.counts (omega (arith, r.counted m, r.within m, fresh, other, unit_at_self m))
                  (λ p. omega (arith, r.counted p)) in
              ((none, d), rw r.run run, (r.all, left))
        ]

  -- Modules whose references are all made by the calls.
  pub create_plain-IsModule :
      (created : Bool) (m : ℕ) (entries : List Entry) (c : Counts)
      → c m ≡ 0
      → occurrences m (objects entries) ≡ 0
      → ((p : ℕ) → occurrences p (held entries) ≡ 0)
      → (r : Imported) × (create_with accepts created m entries c c ≡ some r)
        × IsModule
            (created && adds_all accepts entries)
            m
            entries
            (if created then leaked accepts entries else [])
            c
            r
  unfolding create_with
  create_plain-IsModule true m entries c fresh other h =
      create_with-IsModule m entries c c fresh other (λ p. omega (arith, h p))
  create_plain-IsModule false m entries c fresh other h =
      ((none, c), refl, (refl, λ p. omega arith))
