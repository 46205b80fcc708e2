-- ===== src/Reader/Closing/Runs.antt =====
-- A closed Reader stays closed.
use python_systemd.Base.{
  ◌≡◌, refl, ◌∙◌, ap, sym, subst, true, false, Option, some, List, [], ◌∷◌, ◌++◌, inl, inr,
  Bool-cases,
}
use python_systemd.PyUtil.{Exception, Outcome, raises}
use python_systemd.Reader.{SdJournal}
use python_systemd.Reader.Entry
use python_systemd.Reader.Methods
use python_systemd.Reader.Closing.{Method, Context, run, run_all}
use python_systemd.Reader.Closing.Null.{IsNullSafe}
use python_systemd.Reader.Closing.Refused.{works_closed, run_null}

module _ {H : Type 0} (sd : SdJournal H) (s : IsNullSafe sd) (c : Context) where
  -- A call that works on a closed Reader leaves it closed.
  works_closed-null : (m : Method) → works_closed m ≡ true → (run sd c m sd.null).1 ≡ sd.null
  unfolding run Methods.close Methods.exit Methods.enter Methods.get_closed Methods.flush_matches
      Entry.get_all
  works_closed-null Method.close h = refl
  works_closed-null Method.exit h = refl
  works_closed-null Method.enter h = refl
  works_closed-null Method.get_closed h = refl
  works_closed-null Method.flush_matches h = s.flush_matches_null
  works_closed-null Method.get_all h = rw s.foreach_data_null refl
  works_closed-null _ h = cc

  run_all-null : (methods : List Method) → run_all sd c methods sd.null ≡ sd.null
  unfolding run_all
  run_all-null [] = refl
  run_all-null (m ∷ methods) =
      ap (run_all sd c methods) (elim (Bool-cases (works_closed m)) [
        | inl works ↦ works_closed-null m works
        | inr refused ↦
            let (e, r) = run_null sd s c m refused in
            ap (λ (x : Option (Outcome (Unit {0})) × H). x.1) r
      ])
      ∙ run_all-null methods

  run_all-close :
      (before after : List Method) (j : H)
      → run_all sd c (before ++ (Method.close ∷ after)) j ≡ sd.null
  unfolding run_all run Methods.close
  run_all-close [] after j = run_all-null after
  run_all-close (m ∷ before) after j = run_all-close before after (run sd c m j).1

  -- Whatever methods a Reader has run, after close it stays closed through any further calls,
  -- and then every method that needs the journal raises and leaves it closed, where sd-journal
  -- refuses NULL as it documents.
  pub run_all-close_lem :
      (before after : List Method) (j : H) (m : Method)
      → works_closed m ≡ false
      → let j' = run_all sd c (before ++ (Method.close ∷ after)) j in
        (j' ≡ sd.null) × ((e : Exception) × (run sd c m j' ≡ (some (raises e), j')))
  run_all-close_lem before after j m h =
      let closed = run_all-close before after j in
      let (e, refused) = run_null sd s c m h in
      (closed, (e, subst (λ (i : H). run sd c m i ≡ (some (raises e), i)) (sym closed) refused))
