-- ===== src/Reader/Entry/References/Kept.antt =====
-- Reader_get_all leaves each object with the references that its dictionary holds.
use python_systemd.Base.{
  ℕ, ◌+◌, ◌≡◌, refl, Bool, true, false, Option, none, some, List, [], ◌∷◌, arith,
}
use python_systemd.Base.Buffer.{◌>>=◌}
use python_systemd.PyUtil.{Outcome, returns, raises, and_then}
use python_systemd.PyUtil.References.{
  Counts, incref, cleanup_decref, decref-counts, release_container-counts, unit_at_self,
}
use python_systemd.Reader.Entry.{Dict, extract, add_value, collect}
use python_systemd.Reader.Entry.References.{
  Held, value_of, list_of, Slot, find, Owned, add_field, release_held, release_dict, after_extract,
  hold_fields, hold_all,
}
use python_systemd.Reader.Entry.References.Balance.{
  held_references, references, IsBelow, IsAlone, AreAlone,
}
use python_systemd.Reader.Entry.References.Stored.{store-IsStored}

-- The counts are the references of the dictionary, whose objects have been made.
pub record IsOwned (s : Owned) : Type 0 where
  pub counted : (p : ℕ) → s.counts p ≡ references p s.dict
  pub below : IsBelow s.fresh s.dict
  pub alone : AreAlone s.dict

record IsRound (text : List ℕ) (s : Owned) : Type 0 where
  after : Owned
  adds : add_field text s ≡ some after
  owned : IsOwned after

add_field-IsRound : (text : List ℕ) (s : Owned) → IsOwned s → IsRound text s
unfolding add_field incref cleanup_decref
add_field-IsRound text s o =
    let n : ℕ = s.fresh in
    let c : Counts = incref (n + 1) (incref n s.counts) in
    let r =
      store-IsStored text n (find text s.dict) s.dict c refl (λ p. omega (arith, o.counted p))
        o.below o.alone in
    let (d, first, counted1) =
      decref-counts (n + 1) r.counts' (omega (arith, r.counted (n + 1), unit_at_self (n + 1))) in
    let (e, second, counted2) =
      decref-counts n d (omega (arith, r.counted n, counted1 n, unit_at_self n)) in
    record {
      after = record { dict = r.dict'; counts = e; fresh = n + 3 };
      adds = rw (r.stores, first, second) refl;
      owned = record {
        counted = λ p. omega (arith, r.counted p, counted1 p, counted2 p);
        below = r.below;
        alone = r.alone;
      };
    }

-- Releasing what is held for a key.
release_held-references :
    (held : Held) (c : Counts) (rest : List Slot)
    → ((p : ℕ) → c p ≡ held_references p held + references p rest)
    → IsAlone held rest
    → (d : Counts) × (release_held held c ≡ some d) × ((p : ℕ) → d p ≡ references p rest)
unfolding release_held
release_held-references (value_of o) c rest counted alone =
    let (d, released, left) = decref-counts o c (omega (arith, counted o, unit_at_self o)) in
    (d, released, λ p. omega (arith, counted p, left p))
release_held-references (list_of l items) c rest counted alone =
    release_container-counts l items (λ p. references p rest) c
      (omega (arith, counted l, unit_at_self l, alone)) (λ p. omega (arith, counted p))

release_dict-references :
    (dict : List Slot) (c : Counts)
    → ((p : ℕ) → c p ≡ references p dict)
    → AreAlone dict
    → (d : Counts) × (release_dict dict c ≡ some d) × ((p : ℕ) → d p ≡ 0)
unfolding release_dict
release_dict-references [] c counted alone = (c, refl, λ p. counted p)
release_dict-references (slot ∷ dict) c counted alone =
    let (d, first, left) =
      decref-counts slot.key c (omega (arith, counted slot.key, unit_at_self slot.key)) in
    let (e, second, over) =
      release_held-references slot.held d dict (λ p. omega (arith, counted p, left p)) alone.0 in
    let (f, third, zero_left) = release_dict-references dict e over alone.1 in
    (f, rw (first, second) third, zero_left)

-- What the call leaves: a dictionary and its references, or none at all.
abbrev pub AreBalanced : Option (List Slot) × Counts → Type 0
AreBalanced (none, c) = (p : ℕ) → c p ≡ 0
AreBalanced (some dict, c) = (p : ℕ) → c p ≡ references p dict

abbrev pub is_dict : Option (List Slot) → Bool
is_dict none = false
is_dict (some dict) = true

abbrev pub succeeds : Outcome Dict → Bool
succeeds (returns dict) = true
succeeds (raises e) = false

-- The result of the call: balanced, and NULL just when it raises.
abbrev pub IsResult : Option (Option (List Slot) × Counts) → Outcome Dict → Type 0
IsResult run o =
    (r : Option (List Slot) × Counts) × (run ≡ some r) × AreBalanced r × (is_dict r.0 ≡ succeeds o)

hold_fields-IsResult :
    (decode : List ℕ → Option (List ℕ)) (fields : List (List ℕ)) (s : Owned) (collected : Dict)
    → IsOwned s
    → IsResult (hold_fields decode fields s) (collect decode fields collected)
unfolding hold_fields collect
hold_fields-IsResult decode [] s collected o = ((some s.dict, s.counts), refl, o.counted, refl)
hold_fields-IsResult decode (msg ∷ fields) s collected o =
    split (extract decode msg) (λ t c o. hold_fields-IsResult decode fields t c o)
  where
    split :
        (x : Outcome (List ℕ × List ℕ))
        → ((t : Owned) (c : Dict)
            → IsOwned t
            → IsResult (hold_fields decode fields t) (collect decode fields c))
        → IsResult
            (after_extract decode x
              (λ text. add_field text s >>= hold_fields decode fields)
              (release_dict s.dict s.counts >>= λ c. some (none, c)))
            (and_then x λ p. collect decode fields (add_value p.0 p.1 collected))
    split (returns (text, value)) further =
        let round = add_field-IsRound text s o in
        let (r, run, balanced, shape) =
          further round.after (add_value text value collected) round.owned in
        (r, rw round.adds run, balanced, shape)
    split (raises x) further =
        let (d, released, nothing) = release_dict-references s.dict s.counts o.counted o.alone in
        ((none, d), rw released refl, nothing, refl)

-- On the fields of any entry, Reader_get_all releases no reference that it does not hold, and
-- leaves each object with as many references as its dictionary has to it, or every object with
-- none and no dictionary just when it raises.
pub hold_all-IsResult :
    (decode : List ℕ → Option (List ℕ)) (fields : List (List ℕ))
    → IsResult (hold_all decode fields) (collect decode fields [])
unfolding hold_all
hold_all-IsResult decode fields =
    hold_fields-IsResult decode fields _ []
      (record { counted = λ p. refl; below = λ p h. refl; alone = tt })
