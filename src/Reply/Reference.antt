-- ===== src/Reply/Reference.antt =====
-- The same reading a byte at a time: the reference for the filter, with no buffers.
use nginx_upstream_module.Common.{
  ℕ, ◌+◌, ◌-◌, ◌<◌, ◌≡◌, refl, Option, none, some, [], ◌∷◌, ◌++◌, Bytes, length, ◌==◌,
  if◌then◌else◌, append-nil, arith, ◌∙◌, length-append, ap, append_assoc, List,
}
use nginx_upstream_module.Reply.Filter.{Codecs, Delivery, tp_read_payload, deliver}

-- In the five bytes of a length, or in a reply with so many bytes to come.
pub data Phase : Type 0 where
  header : Bytes → Phase
  body : Bytes → ℕ → Phase

module _ (c : Codecs) where
  unfoldable pub after_header : Delivery → Bytes → Option (Phase × Delivery)
  after_header d mem = elim (tp_read_payload c mem) [
    | none ↦ none
    | some size ↦
        if size == 5 then some (header [], deliver c d mem) else some (body mem (size - 5), d)
  ]

  unfoldable pub step : Phase → Delivery → ℕ → Option (Phase × Delivery)
  step (header got) d x =
      if length got == 4
      then after_header d (got ++ (x ∷ []))
      else some (header (got ++ (x ∷ [])), d)
  step (body cache rest) d x =
      if rest == 1
      then some (header [], deliver c d (cache ++ (x ∷ [])))
      else some (body (cache ++ (x ∷ [])) (rest - 1), d)

  unfoldable pub reads : Phase → Delivery → Bytes → Option (Phase × Delivery)
  reads p d [] = some (p, d)
  reads p d (x ∷ xs) = elim (step p d x) [ none ↦ none | some (p', d') ↦ reads p' d' xs ]

  -- Reply after reply.
  abbrev pub deliver_all : Delivery → List Bytes → Delivery
  deliver_all d [] = d
  deliver_all d (r ∷ rs) = deliver_all (deliver c d r) rs

  -- What is read behind an outcome.
  abbrev pub resume : Option (Phase × Delivery) → Bytes → Option (Phase × Delivery)
  resume none ys = none
  resume (some (p, d)) ys = reads p d ys

  reads-resume :
      (x : ℕ) (xs : Bytes) (p : Phase) (d : Delivery) → reads p d (x ∷ xs) ≡ resume (step p d x) xs
  unfolding reads
  reads-resume x xs p d = go (step p d x)
    where
      go :
          (o : Option (Phase × Delivery))
          → (elim o [ none ↦ none | some (p', d') ↦ reads p' d' xs ]) ≡ resume o xs
      go none = refl
      go (some (p', d')) = refl

  -- Reading goes on where it stopped.
  pub reads-append :
      (xs ys : Bytes) (p : Phase) (d : Delivery) → reads p d (xs ++ ys) ≡ resume (reads p d xs) ys
  reads-append [] ys p d = unfold reads in refl
  reads-append (x ∷ xs) ys p d =
      rw (reads-resume x (xs ++ ys) p d, reads-resume x xs p d)
        (go (step p d x) (λ p' d'. reads-append xs ys p' d'))
    where
      go :
          (o : Option (Phase × Delivery))
          → ((p' : Phase) (d' : Delivery) → reads p' d' (xs ++ ys) ≡ resume (reads p' d' xs) ys)
          → resume o (xs ++ ys) ≡ resume (resume o xs) ys
      go none k = refl
      go (some (p', d')) k = k p' d'

  pub reads_part_header :
      (xs got : Bytes) (d : Delivery)
      → length got + length xs < 5
      → reads (header got) d xs ≡ some (header (got ++ xs), d)
  unfolding reads step
  reads_part_header [] got d h = rw append-nil
  reads_part_header (x ∷ xs) got d h = ground (
    arith,
    reads_part_header xs (got ++ (x ∷ [])) d,
    length-append got (x ∷ []),
    append_assoc got (x ∷ []) xs,
  )

  resume-nil : (o : Option (Phase × Delivery)) → resume o [] ≡ o
  unfolding reads
  resume-nil none = refl
  resume-nil (some (p, d)) = refl

  step_last :
      (x : ℕ) (got : Bytes) (d : Delivery)
      → length got ≡ 4
      → step (header got) d x ≡ after_header d (got ++ (x ∷ []))
  unfolding step
  step_last x got d h = ground arith

  reads_last :
      (x : ℕ) (got : Bytes) (d : Delivery)
      → length got ≡ 4
      → reads (header got) d (x ∷ []) ≡ after_header d (got ++ (x ∷ []))
  reads_last x got d h = reads-resume x [] (header got) d ∙ resume-nil _ ∙ step_last x got d h

  reads-header :
      (xs got : Bytes) (d : Delivery)
      → length got < 5
      → length got + length xs ≡ 5
      → reads (header got) d xs ≡ after_header d (got ++ xs)
  unfolding reads step
  reads-header [] got d h e = absurd (omega arith)
  reads-header (x ∷ []) got d h e = reads_last x got d (omega arith)
  reads-header (x ∷ y ∷ xs) got d h e = ground (
    arith,
    reads-header (y ∷ xs) (got ++ (x ∷ [])) d,
    length-append got (x ∷ []),
    append_assoc got (x ∷ []) (y ∷ xs),
  )

  pub reads_full_header :
      (xs ys got : Bytes) (d : Delivery)
      → length got < 5
      → length got + length xs ≡ 5
      → reads (header got) d (xs ++ ys) ≡ resume (after_header d (got ++ xs)) ys
  reads_full_header xs ys got d h e =
      reads-append xs ys (header got) d ∙ ap (λ o. resume o ys) (reads-header xs got d h e)

  pub reads_part_body :
      (xs cache : Bytes) (rest : ℕ) (d : Delivery)
      → length xs < rest
      → reads (body cache rest) d xs ≡ some (body (cache ++ xs) (rest - length xs), d)
  unfolding reads step
  reads_part_body [] cache rest d h = let n : rest - 0 ≡ rest = omega arith in rw (append-nil, n)
  reads_part_body (x ∷ xs) cache rest d h =
      ground
        (arith, reads_part_body xs (cache ++ (x ∷ [])) (rest - 1) d, append_assoc cache (x ∷ []) xs)

  reads_body :
      (xs cache : Bytes) (rest : ℕ) (d : Delivery)
      → 0 < rest
      → length xs ≡ rest
      → reads (body cache rest) d xs ≡ some (header [], deliver c d (cache ++ xs))
  unfolding reads step
  reads_body [] cache rest d h e = absurd (omega arith)
  reads_body (x ∷ []) cache rest d h e = ground arith
  reads_body (x ∷ y ∷ xs) cache rest d h e = ground (
    arith,
    reads_body (y ∷ xs) (cache ++ (x ∷ [])) (rest - 1) d,
    append_assoc cache (x ∷ []) (y ∷ xs),
  )

  pub reads_full_body :
      (xs ys cache : Bytes) (rest : ℕ) (d : Delivery)
      → 0 < rest
      → length xs ≡ rest
      → reads (body cache rest) d (xs ++ ys) ≡ reads (header []) (deliver c d (cache ++ xs)) ys
  reads_full_body xs ys cache rest d h e =
      reads-append xs ys (body cache rest) d
      ∙ ap (λ o. resume o ys) (reads_body xs cache rest d h e)
