-- ===== src/Modules/Imports.antt =====
-- Modules that cannot be made release what they hold, or leak it.
use python_systemd.Base.{
  ℕ, suc, ◌≡◌, refl, subst, ap, Bool, true, false, ◌&&◌, Option, none, some, List, [], ◌∷◌,
  if◌then◌else◌, arith, Bool-cases, inl, inr,
}
use python_systemd.Base.Buffer.{◌>>=◌}
use Prim.Native.String.{String}
use python_systemd.PyUtil.References.{
  Counts, incref, decref-counts, unit_at, unit_at_self, occurrences,
}
use python_systemd.Modules.{
  Entry, held_object, objects, Constants, version_entry, reader_entries, daemon_entries, id_entries,
  add_all, create_with, Imported, init_reader, init_monotonic, init_login, init_daemon,
  init_journal, init_id128,
}
use python_systemd.Modules.Counted.{held, adds_all, leaked}
use python_systemd.Modules.Made.{
  IsModule, give_up-counts, create_with-IsModule, create_plain-IsModule,
}

-- PyStructSequence_InitType has been called once, or not at all.
abbrev pub IsOnce : Bool × ℕ → Type 0
IsOnce (initialized, n) = n ≡ (if initialized then 1 else 0)

init_monotonic-IsOnce : (s : Bool × ℕ) → IsOnce s → IsOnce (init_monotonic s)
unfolding init_monotonic
init_monotonic-IsOnce (false, n) h = ap suc h
init_monotonic-IsOnce (true, n) h = h

abbrev pub login_entries : Constants → (monitor_type : ℕ) → List Entry
login_entries k monitor_type = version_entry k ∷ held_object "Monitor" monitor_type ∷ []

if_same : (b : Bool) (l : List ℕ) → (if b then l else l) ≡ l
if_same true l = refl
if_same false l = refl

module _ (accepts : String → Bool) where
  -- Where nothing can leak.
  loses_nothing :
      (created : Bool) (m : ℕ) (entries : List Entry) (c : Counts)
      → leaked accepts entries ≡ []
      → (r : Imported) × (create_with accepts created m entries c c ≡ some r)
        × IsModule
            (created && adds_all accepts entries)
            m
            entries
            (if created then leaked accepts entries else [])
            c
            r
      → (r : Imported) × (create_with accepts created m entries c c ≡ some r)
        × IsModule (created && adds_all accepts entries) m entries [] c r
  loses_nothing true m entries c none_lost (r, run, good) = (
    r,
    run,
    subst (λ (lost : List ℕ). IsModule (adds_all accepts entries) m entries lost c r) none_lost
        good,
  )
  loses_nothing false m entries c none_lost found = found

  held_ids :
      (k : Constants) (ids : List (String × Option ℕ)) (p : ℕ)
      → occurrences p (held (id_entries k ids)) ≡ 0
  held_ids k [] p = refl
  held_ids k (i ∷ ids) p = held_ids k ids p

  -- Where the module is a new object that is neither of the types, and whatever fails,
  -- PyInit__reader gives the module with its entries, which own the two types, or NULL; then
  -- one reference is left to each type whose entry has not been added, where PyModule_Create
  -- has made a module, and none to the module. It keeps the static variable true to the number
  -- of calls of PyStructSequence_InitType, which is one or none.
  pub init_reader-IsModule :
      (ready created : Bool) (k : Constants) (m reader_type monotonic_type : ℕ) (s : Bool × ℕ)
      (c : Counts)
      → c m ≡ 0
      → unit_at reader_type m ≡ 0
      → unit_at monotonic_type m ≡ 0
      → IsOnce s
      → (r : Imported × Bool × ℕ) × (init_reader accepts ready created k m reader_type
            monotonic_type s c
          ≡ some r)
        × IsModule
            (ready && created && adds_all accepts (reader_entries k reader_type monotonic_type))
            m
            (reader_entries k reader_type monotonic_type)
            (if ready && created
              then leaked accepts (reader_entries k reader_type monotonic_type)
              else [])
            c
            r.0
        × IsOnce (r.1, r.2)
  unfolding init_reader incref
  init_reader-IsModule true true k m reader_type monotonic_type s c fresh apart_reader
        apart_monotonic once =
      let entries : List Entry = reader_entries k reader_type monotonic_type in
      let held : Counts = incref monotonic_type (incref reader_type c) in
      let (r, run, good) =
        create_with-IsModule accepts m entries held c fresh
          (omega (arith, apart_reader, apart_monotonic)) (λ p. omega arith) in
      let i = init_monotonic s in
      (
        (r, i.0, i.1),
        ap (λ (o : Option Imported). o >>= λ r. some (r, i.0, i.1)) run,
        good,
        init_monotonic-IsOnce s once,
      )
  init_reader-IsModule true false k m reader_type monotonic_type s c fresh apart_reader
        apart_monotonic once =
      (((none, c), s.0, s.1), refl, (refl, λ p. omega arith), once)
  init_reader-IsModule false created k m reader_type monotonic_type s c fresh apart_reader
        apart_monotonic once =
      (((none, c), s.0, s.1), refl, (refl, λ p. omega arith), once)

  init_login-IsModule :
      (ready created : Bool) (k : Constants) (m monitor_type : ℕ) (c : Counts)
      → c m ≡ 0
      → unit_at monitor_type m ≡ 0
      → (r : Imported) × (init_login accepts ready created k m monitor_type c ≡ some r)
        × IsModule
            (ready && created && adds_all accepts (login_entries k monitor_type))
            m
            (login_entries k monitor_type)
            []
            c
            r
  unfolding init_login add_all incref
  init_login-IsModule true true k m monitor_type c fresh apart =
      elim (Bool-cases (accepts "__version__")) [
        | inl version ↦ elim (Bool-cases (accepts "Monitor")) [
          | inl monitor ↦ (
            (some (login_entries k monitor_type), incref monitor_type (incref m c)),
            rw (version, monitor) refl,
            rw (version, monitor) (refl, refl, λ p. omega arith),
          )
          | inr no_monitor ↦
              let (d, released, counted) =
                decref-counts monitor_type (incref monitor_type (incref m c))
                  (omega (arith, unit_at_self monitor_type)) in
              let (e, run, left) =
                give_up-counts accepts m (version_entry k ∷ []) c d
                  (omega (arith, counted m, fresh, apart, unit_at_self m))
                  (λ p. omega (arith, counted p)) in
              (
                (none, e),
                rw (version, no_monitor, released) run,
                rw (version, no_monitor) (refl, λ p. omega (arith, left p)),
              )
        ]
        | inr no_version ↦
            let (e, run, left) =
              give_up-counts accepts m [] c (incref m c) (omega (arith, fresh, unit_at_self m))
                (λ p. omega arith) in
            ((none, e), rw no_version run, rw no_version (refl, λ p. omega (arith, left p)))
      ]
  init_login-IsModule true false k m monitor_type c fresh apart =
      ((none, c), refl, (refl, λ p. omega arith))
  init_login-IsModule false created k m monitor_type c fresh apart =
      ((none, c), refl, (refl, λ p. omega arith))

  -- Where the module is a new object and not one of those that it gets, and whatever fails,
  -- PyInit_login, PyInit__daemon and PyInit__journal give the module with all its entries, or
  -- NULL with no reference left; PyInit_id128 does so but for the UUID object that a module
  -- refuses, which keeps its reference.
  pub inits-IsModule :
      (ready created : Bool) (k : Constants) (ids : List (String × Option ℕ)) (m monitor_type : ℕ)
      (c : Counts)
      → c m ≡ 0
      → unit_at monitor_type m ≡ 0
      → occurrences m (objects (id_entries k ids)) ≡ 0
      → ((r : Imported) × (init_login accepts ready created k m monitor_type c ≡ some r)
          × IsModule
              (ready && created && adds_all accepts (login_entries k monitor_type))
              m
              (login_entries k monitor_type)
              []
              c
              r)
        × ((r : Imported) × (init_daemon accepts created k m c ≡ some r)
            × IsModule (created && adds_all accepts (daemon_entries k)) m (daemon_entries k) [] c r)
        × ((r : Imported) × (init_journal accepts created k m c ≡ some r)
            × IsModule
                (created && adds_all accepts (version_entry k ∷ []))
                m
                (version_entry k ∷ [])
                []
                c
                r)
        × ((r : Imported) × (init_id128 accepts created k ids m c ≡ some r)
            × IsModule
                (created && adds_all accepts (id_entries k ids))
                m
                (id_entries k ids)
                (if created then leaked accepts (id_entries k ids) else [])
                c
                r)
  unfolding init_daemon init_journal init_id128
  inits-IsModule ready created k ids m monitor_type c fresh apart other = (
    init_login-IsModule ready created k m monitor_type c fresh apart,
    loses_nothing created m (daemon_entries k) c
        (let h = if_same (accepts "__version__") [] in
          rw h (if_same (accepts "LISTEN_FDS_START") []))
        (create_plain-IsModule accepts created m (daemon_entries k) c fresh refl (λ p. refl)),
    loses_nothing created m (version_entry k ∷ []) c (if_same (accepts "__version__") [])
        (create_plain-IsModule accepts created m (version_entry k ∷ []) c fresh refl (λ p. refl)),
    create_plain-IsModule accepts created m (id_entries k ids) c fresh other (held_ids k ids),
  )
