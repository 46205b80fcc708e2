-- ===== src/Modules/Counted.antt =====
-- The references behind a chain of calls that add to a module.
use python_systemd.Base.{
  ℕ, ◌+◌, ◌≤◌, ◌≡◌, refl, sym, ◌∙◌, ap, Bool, true, false, ◌&&◌, none, some, List, [], ◌∷◌, ◌++◌,
  if◌then◌else◌, arith, Bool-cases, ◌⊎◌, inl, inr,
}
use mathlib.Core.List.{append-nil, append_assoc}
use Prim.Native.String.{String}
use python_systemd.PyUtil.References.{Counts, incref, occurrences, occurrences-append}
use python_systemd.Modules.{
  Entry, int_constant, string_constant, held_object, new_object, object_of, objects, make, takes,
  add_all,
}

abbrev pub held_of : Entry → List ℕ
held_of (held_object name o) = o ∷ []
held_of e = []

-- The references that are held before the calls.
abbrev pub held : List Entry → List ℕ
held [] = []
held (e ∷ entries) = held_of e ++ held entries

abbrev pub adds_all : (String → Bool) → List Entry → Bool
adds_all accepts [] = true
adds_all accepts (e ∷ entries) = takes accepts e && adds_all accepts entries

-- What nobody releases: the object of the entry that is refused, and what is held for the entries
-- behind it.
abbrev pub leaked : (String → Bool) → List Entry → List ℕ
leaked accepts [] = []
leaked accepts (e ∷ entries) =
    if takes accepts e then leaked accepts entries else object_of e ++ held entries

objects-append :
    (p : ℕ) (xs ys : List Entry)
    → occurrences p (objects (xs ++ ys)) ≡ occurrences p (objects xs) + occurrences p (objects ys)
objects-append p [] ys = omega arith
objects-append p (x ∷ xs) ys = omega (
  arith,
  occurrences-append p (object_of x) (objects (xs ++ ys)),
  occurrences-append p (object_of x) (objects xs),
  objects-append p xs ys,
)

make-counts :
    (e : Entry) (c : Counts) (p : ℕ)
    → make e c p + occurrences p (held_of e) ≡ c p + occurrences p (object_of e)
unfolding incref
make-counts (int_constant name value) c p = refl
make-counts (string_constant name value) c p = refl
make-counts (held_object name o) c p = refl
make-counts (new_object name none) c p = refl
make-counts (new_object name (some o)) c p = omega arith

held_of-within : (e : Entry) (p : ℕ) → occurrences p (held_of e) ≤ occurrences p (object_of e)
held_of-within (int_constant name value) p = omega arith
held_of-within (string_constant name value) p = omega arith
held_of-within (held_object name o) p = omega arith
held_of-within (new_object name o) p = omega arith

held-within :
    (entries : List Entry) (p : ℕ) → occurrences p (held entries) ≤ occurrences p (objects entries)
held-within [] p = omega arith
held-within (e ∷ entries) p = omega (
  arith,
  occurrences-append p (held_of e) (held entries),
  occurrences-append p (object_of e) (objects entries),
  held_of-within e p,
  held-within entries p,
)

module _ (accepts : String → Bool) where
  pub record IsAdded (entries done : List Entry) (b c : Counts) : Type 0 where
    pub counts : Counts
    pub run : add_all accepts entries done c ≡ (true, done ++ entries, counts)
    pub all : adds_all accepts entries ≡ true
    pub counted : (p : ℕ) → counts p ≡ b p + occurrences p (objects (done ++ entries))

  pub record IsRefused (entries done : List Entry) (b c : Counts) : Type 0 where
    pub added : List Entry
    pub counts : Counts
    pub run : add_all accepts entries done c ≡ (false, added, counts)
    pub all : adds_all accepts entries ≡ false
    pub counted :
        (p : ℕ)
        → counts p ≡ b p + occurrences p (objects added) + occurrences p (leaked accepts entries)
    pub within :
        (p : ℕ)
        → occurrences p (objects added) + occurrences p (leaked accepts entries)
          ≤ occurrences p (objects done) + occurrences p (objects entries)

  pub add_all-counts :
      (entries done : List Entry) (b c : Counts)
      → ((p : ℕ) → c p ≡ b p + occurrences p (objects done) + occurrences p (held entries))
      → IsAdded entries done b c ⊎ IsRefused entries done b c
  unfolding add_all
  add_all-counts [] done b c h = inl (record {
    counts = c;
    run = ap (λ l. (true, l, c)) (sym (append-nil done));
    all = refl;
    counted = λ p. omega (arith, h p, objects-append p done []);
  })
  add_all-counts (e ∷ entries) done b c h = elim (Bool-cases (takes accepts e)) [
    | inl taken ↦ elim (add_all-counts entries (done ++ (e ∷ [])) b (make e c) next) [
      | inl a ↦ inl (record {
        counts = a.counts;
        run = rw taken (a.run ∙ ap (λ l. (true, l, a.counts)) (append_assoc done (e ∷ []) entries));
        all = rw taken a.all;
        counted = λ p.
            a.counted p
            ∙ ap (λ l. b p + occurrences p (objects l)) (append_assoc done (e ∷ []) entries);
      })
      | inr r ↦ inr (record {
        added = r.added;
        counts = r.counts;
        run = rw taken r.run;
        all = rw taken r.all;
        counted = λ p. rw taken (r.counted p);
        within = λ p. rw taken (omega (arith, r.within p, one p, both p));
      })
    ]
    | inr refused ↦ inr (record {
      added = done;
      counts = make e c;
      run = rw refused refl;
      all = rw refused refl;
      counted = λ p. rw refused (omega (arith, h p, make-counts e c p, held_both p, lost p));
      within = λ p. rw refused (omega (arith, lost p, both p, held-within entries p));
    })
  ]
    where
      one :
          (p : ℕ)
          → occurrences p (objects (done ++ (e ∷ [])))
            ≡ occurrences p (objects done) + occurrences p (object_of e)
      one p = omega (arith, objects-append p done (e ∷ []), occurrences-append p (object_of e) [])

      both :
          (p : ℕ)
          → occurrences p (objects (e ∷ entries))
            ≡ occurrences p (object_of e) + occurrences p (objects entries)
      both p = occurrences-append p (object_of e) (objects entries)

      held_both :
          (p : ℕ)
          → occurrences p (held (e ∷ entries))
            ≡ occurrences p (held_of e) + occurrences p (held entries)
      held_both p = occurrences-append p (held_of e) (held entries)

      lost :
          (p : ℕ)
          → occurrences p (object_of e ++ held entries)
            ≡ occurrences p (object_of e) + occurrences p (held entries)
      lost p = occurrences-append p (object_of e) (held entries)

      next :
          (p : ℕ)
          → make e c p
            ≡ b p + occurrences p (objects (done ++ (e ∷ []))) + occurrences p (held entries)
      next p = omega (arith, h p, make-counts e c p, held_both p, one p)
