-- ===== src/Fsprg/Random/Bytes.antt =====
-- `det_randomize` ends, fills its buffer, and gives a prefix of one stream of bytes.
use python_systemd.Base.{
  ℕ, zero, suc, ◌+◌, ◌-◌, ◌≤◌, ◌<◌, ◌≡◌, refl, ◌∙◌, sym, ap, inl, inr, some, List, [], ◌∷◌, ◌++◌,
  length, take, arith, ltb, le→leb, ◌==◌, ==_iff, Bool-cases, length-append, length-take,
}
use python_systemd.Base.Word.{u32}
use mathlib.Core.List.{append-nil}
use python_systemd.Base.Buffer.{◌>>=◌, read_at, take-append}
use python_systemd.Fsprg.Gcrypt.{Gcrypt, IsDigest, IsBytes}
use python_systemd.Fsprg.Random.{putc_word, det_blocks, det_randomize}

take-append_le : (n : ℕ) (xs ys : List ℕ) → n ≤ length xs → take n (xs ++ ys) ≡ take n xs
take-append_le zero xs ys h = refl
take-append_le (suc n) [] ys h = absurd (omega arith)
take-append_le (suc n) (x ∷ xs) ys h =
    ap (λ (t : List ℕ). x ∷ t) (take-append_le n xs ys (omega arith))

take-append_more :
    (n : ℕ) (xs ys : List ℕ) → length xs ≤ n → take n (xs ++ ys) ≡ xs ++ take (n - length xs) ys
take-append_more n [] ys h = ap (λ (t : ℕ). take t ys) (omega arith)
take-append_more zero (x ∷ xs) ys h = absurd (omega arith)
take-append_more (suc n) (x ∷ xs) ys h =
    rw (let e : suc n - suc (length xs) ≡ n - length xs = omega arith in e)
      (ap (λ (t : List ℕ). x ∷ t) (take-append_more n xs ys (omega arith)))

take-take : (n m : ℕ) (xs : List ℕ) → n ≤ m → take n (take m xs) ≡ take n xs
take-take zero m xs h = refl
take-take (suc n) zero xs h = absurd (omega arith)
take-take (suc n) (suc m) [] h = refl
take-take (suc n) (suc m) (x ∷ xs) h = ap (λ (t : List ℕ). x ∷ t) (take-take n m xs (omega arith))

take-IsBytes : (n : ℕ) (xs : List ℕ) → IsBytes xs → IsBytes (take n xs)
take-IsBytes zero xs h = tt
take-IsBytes (suc n) [] h = tt
take-IsBytes (suc n) (x ∷ xs) h = (h.0, take-IsBytes n xs h.1)

append-IsBytes : (xs ys : List ℕ) → IsBytes xs → IsBytes ys → IsBytes (xs ++ ys)
append-IsBytes [] ys h k = k
append-IsBytes (x ∷ xs) ys h k = (h.0, append-IsBytes xs ys h.1 k)

module _ (g : Gcrypt) where
  digest : List ℕ → ℕ → List ℕ
  digest hd ctr = g.md_hash (hd ++ putc_word ctr)

  -- The blocks one after another, without the cut at the end of the buffer.
  stream : ℕ → List ℕ → ℕ → List ℕ
  stream zero hd ctr = []
  stream (suc k) hd ctr = digest hd ctr ++ stream k hd (u32 (ctr + 1))

take_whole : (d : List ℕ) → take (length d) d ≡ d
take_whole d = ap (take (length d)) (sym (append-nil d)) ∙ take-append d []

take_after :
    (n : ℕ) (d xs ys : List ℕ)
    → take (n - length d) xs ≡ take (n - length d) ys
    → take n (d ++ xs) ≡ take n (d ++ ys)
take_after n [] xs ys h = rw (let e : n ≡ n - 0 = omega arith in e) h
take_after zero (x ∷ d) xs ys h = refl
take_after (suc n) (x ∷ d) xs ys h =
    ap (λ (t : List ℕ). x ∷ t)
      (take_after n d xs ys
        (rw (let e : suc n - suc (length d) ≡ n - length d = omega arith in e) at h))

-- The last block is cut, any other is taken whole.
cut_last :
    (n : ℕ) (d rest : List ℕ) → n ≤ length d → take n d ++ take (n - n) rest ≡ take n (d ++ rest)
cut_last n d rest h =
    rw (let e : n - n ≡ 0 = omega arith in e)
      (append-nil (take n d) ∙ sym (take-append_le n d rest h))

cut_inner :
    (n k : ℕ) (d rest : List ℕ)
    → length d ≡ k
    → k ≤ n
    → take k d ++ take (n - k) rest ≡ take n (d ++ rest)
cut_inner n k d rest e h =
    rw (← e) (rw (take_whole d) (sym (take-append_more n d rest (omega arith))))

module _ (g : Gcrypt) (law : IsDigest g) where
  stream-length : (k : ℕ) (hd : List ℕ) (ctr : ℕ) → k ≤ length (stream g k hd ctr)
  unfolding stream digest
  stream-length zero hd ctr = omega arith
  stream-length (suc k) hd ctr = omega (
    arith,
    length-append (digest g hd ctr) (stream g k hd (u32 (ctr + 1))),
    law.digest_length (hd ++ putc_word ctr),
    stream-length k hd (u32 (ctr + 1)),
  )

  stream-IsBytes : (k : ℕ) (hd : List ℕ) (ctr : ℕ) → IsBytes (stream g k hd ctr)
  unfolding stream digest
  stream-IsBytes zero hd ctr = tt
  stream-IsBytes (suc k) hd ctr =
      append-IsBytes _ _ (law.digest-IsBytes _) (stream-IsBytes k hd (u32 (ctr + 1)))

  read_block :
      (c : ℕ) (hd : List ℕ) (ctr : ℕ)
      → c ≤ 32
      → read_at 0 c (digest g hd ctr) ≡ some (take c (digest g hd ctr))
  unfolding read_at digest
  read_block c hd ctr h =
      rw (law.digest_length (hd ++ putc_word ctr), le→leb (0 + c) 32 (omega arith))

  -- One round, given what the loop does with the bytes that are left.
  round-stream :
      (fuel : ℕ) (hd : List ℕ) (ctr buflen c : ℕ)
      → c ≤ 32
      → det_blocks g fuel hd (u32 (ctr + 1)) (buflen - c)
        ≡ some (take (buflen - c) (stream g fuel hd (u32 (ctr + 1))))
      → take c (digest g hd ctr) ++ take (buflen - c) (stream g fuel hd (u32 (ctr + 1)))
        ≡ take buflen (stream g (suc fuel) hd ctr)
      → (read_at 0 c (digest g hd ctr) >>= λ block.
          det_blocks g fuel hd (u32 (ctr + 1)) (buflen - c) >>= λ bytes. some (block ++ bytes))
        ≡ some (take buflen (stream g (suc fuel) hd ctr))
  round-stream fuel hd ctr buflen c small rest cut =
      rw (read_block c hd ctr small, rest) (ap some cut)

  -- With fuel for more rounds than there are bytes to fill, the loop gives the start of the stream.
  det_blocks-stream :
      (fuel : ℕ) (hd : List ℕ) (ctr buflen : ℕ)
      → buflen < fuel
      → det_blocks g fuel hd ctr buflen ≡ some (take buflen (stream g fuel hd ctr))
  unfolding det_blocks stream digest
  det_blocks-stream zero hd ctr buflen h = absurd (omega arith)
  det_blocks-stream (suc fuel) hd ctr buflen h = elim (Bool-cases (buflen == 0)) [
    | inl done ↦ rw ((==_iff buflen 0).0 done)
    | inr left ↦
        rw (left, law.dlen_law)
          (elim (Bool-cases (ltb buflen 32)) [
            | inl part ↦ rw part (
                round-stream fuel hd ctr buflen buflen (ground arith)
                  (det_blocks-stream fuel hd (u32 (ctr + 1)) (buflen - buflen) (ground arith))
                  (cut_last buflen _ _ (ground (arith, law.digest_length (hd ++ putc_word ctr)))))
            | inr whole ↦ rw whole (
                round-stream fuel hd ctr buflen 32 (omega arith)
                  (det_blocks-stream fuel hd (u32 (ctr + 1)) (buflen - 32) (ground arith))
                  (cut_inner buflen 32 _ _ (law.digest_length (hd ++ putc_word ctr))
                    (ground arith)))
          ])
  ]

  stream-more :
      (n k m : ℕ) (hd : List ℕ) (ctr : ℕ)
      → n ≤ k
      → k ≤ m
      → take n (stream g k hd ctr) ≡ take n (stream g m hd ctr)
  unfolding stream digest
  stream-more n zero m hd ctr h hk = rw (let e : n ≡ 0 = omega arith in e)
  stream-more n (suc k) zero hd ctr h hk = absurd (omega arith)
  stream-more n (suc k) (suc m) hd ctr h hk = take_after n (digest g hd ctr) _ _ (
      stream-more (n - length (digest g hd ctr)) k m hd (u32 (ctr + 1))
        (omega (arith, law.digest_length (hd ++ putc_word ctr))) (omega arith))

  -- det_randomize fills a buffer of any length with bytes, and a shorter buffer for the same
  -- seed and index holds the first bytes of a longer one.
  pub det_randomize_prefix :
      (n m : ℕ) (seed : List ℕ) (idx : ℕ)
      → n ≤ m
      → (long : List ℕ) × (det_randomize g m seed idx ≡ some long)
        × (length long ≡ m)
        × IsBytes long
        × (det_randomize g n seed idx ≡ some (take n long))
  unfolding det_randomize
  det_randomize_prefix n m seed idx h =
      let hd : List ℕ = seed ++ putc_word idx in
      (
        take m (stream g (suc m) hd 0),
        det_blocks-stream (suc m) hd 0 m (omega arith),
        omega (arith, length-take m (stream g (suc m) hd 0), stream-length (suc m) hd 0),
        take-IsBytes m _ (stream-IsBytes (suc m) hd 0),
        det_blocks-stream (suc n) hd 0 n (omega arith)
            ∙ ap some (
                stream-more n (suc n) (suc m) hd 0 (omega arith) (omega arith)
                ∙ sym (take-take n m _ h)),
      )
