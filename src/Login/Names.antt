-- ===== src/Login/Names.antt =====
-- The lists hold what sd-login gives, in its order.
use mathlib.Core.List.{append_assoc, map-append, append-nil}
use python_systemd.Base.{
  ℕ, zero, suc, ◌≤◌, ◌<◌, ◌≡◌, refl, sym, ◌∙◌, ap, ap₂, Option, none, some, List, [], ◌∷◌, ◌++◌,
  map, length, get_elem?, set, take, drop, replicate, arith, length-set, length-replicate,
}
use python_systemd.Base.Int.{pos}
use python_systemd.PyUtil.{returns}
use python_systemd.Login.{fill_list, listing}

take-suc :
    {A : Type 0} (xs : List A) (r : ℕ) (x : A)
    → get_elem? xs r ≡ some x
    → take (suc r) xs ≡ take r xs ++ (x ∷ [])
take-suc [] r x e = absurd (ground arith)
take-suc (y ∷ xs) zero x e = ground arith
take-suc (y ∷ xs) (suc r) x e = ap (λ (t : List _). y ∷ t) (take-suc xs r x e)

drop-set :
    {A : Type 0} (xs : List A) (r : ℕ) (v : A)
    → r < length xs
    → drop r (set xs r v) ≡ v ∷ drop (suc r) xs
drop-set [] r v h = absurd (omega arith)
drop-set (x ∷ xs) zero v h = refl
drop-set (x ∷ xs) (suc r) v h = drop-set xs r v (omega arith)

module _ {A B : Type 0} (convert : A → Option B) where
  -- Each element converts to the one beside it.
  abbrev pub AllConvert : List A → List B → Type 0
  AllConvert [] [] = Unit
  AllConvert [] (b ∷ bs) = ⊥
  AllConvert (a ∷ list) [] = ⊥
  AllConvert (a ∷ list) (b ∷ bs) = (convert a ≡ some b) × AllConvert list bs

  convert-at :
      (list : List A) (bs : List B) (r : ℕ)
      → AllConvert list bs
      → r < length list
      → (a : A) × (b : B) × (get_elem? list r ≡ some a)
        × (convert a ≡ some b)
        × (get_elem? bs r ≡ some b)
  convert-at [] [] r h lt = absurd (omega arith)
  convert-at [] (b ∷ bs) r h lt = absurd h
  convert-at (a ∷ list) [] r h lt = absurd h
  convert-at (a ∷ list) (b ∷ bs) zero h lt = (a, b, refl, h.0, refl)
  convert-at (a ∷ list) (b ∷ bs) (suc r) h lt = convert-at list bs r h.1 (omega arith)

  lengths-eq : (list : List A) (bs : List B) → AllConvert list bs → length list ≡ length bs
  lengths-eq [] [] h = refl
  lengths-eq [] (b ∷ bs) h = absurd h
  lengths-eq (a ∷ list) [] h = absurd h
  lengths-eq (a ∷ list) (b ∷ bs) h = ap suc (lengths-eq list bs h.1)

  fill_list-AllConvert :
      (list : List A) (bs : List B) (r : ℕ) (ans : List (Option B))
      → AllConvert list bs
      → r ≤ length list
      → r ≤ length ans
      → fill_list convert list r ans ≡ some (returns (map some (take r bs) ++ drop r ans))
  unfolding fill_list
  fill_list-AllConvert list bs zero ans h p q = refl
  fill_list-AllConvert list bs (suc r) ans h p q =
      let (a, b, found, made, beside) = convert-at list bs r h (omega arith) in
      rw (found, made)
        (fill_list-AllConvert list bs r (set ans r (some b)) h (omega arith)
            (omega (arith, length-set ans r (some b)))
          ∙ ap (λ (t : List (Option B)). some (returns t))
              (ap (λ (t : List (Option B)). map some (take r bs) ++ t)
                  (drop-set ans r (some b) (omega arith))
                ∙ sym (append_assoc (map some (take r bs)) (some b ∷ []) (drop (suc r) ans))
                ∙ ap (λ (t : List (Option B)). t ++ drop (suc r) ans)
                    (sym (map-append some (take r bs) (b ∷ []))
                      ∙ ap (map some) (sym (take-suc bs r b beside)))))

  take-all : (bs : List B) → take (length bs) bs ≡ bs
  take-all [] = refl
  take-all (b ∷ bs) = ap (λ (t : List B). b ∷ t) (take-all bs)

  drop-all : (n : ℕ) → drop n (replicate {A = Option B} n none) ≡ []
  drop-all zero = refl
  drop-all (suc n) = drop-all n

  -- The list that the loop fills from its end holds what sd-login gives, converted, in the
  -- order of the array, when every element can be converted.
  pub listing_lem :
      (list : List A) (bs : List B)
      → AllConvert list bs
      → listing convert (pos (length list), list) ≡ some (returns (map some bs))
  unfolding listing
  listing_lem list bs h =
      fill_list-AllConvert list bs (length list) (replicate (length list) none) h (omega arith)
        (omega (arith, length-replicate {A = Option B} (length list) none))
      ∙ ap₂ (λ (s t : List (Option B)). some (returns (s ++ t)))
          (ap (map some) (ap (λ (n : ℕ). take n bs) (lengths-eq list bs h) ∙ take-all bs))
          (drop-all (length list))
      ∙ ap (λ (t : List (Option B)). some (returns t)) (append-nil (map some bs))
