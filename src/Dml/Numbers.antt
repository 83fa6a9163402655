-- ===== src/Dml/Numbers.antt =====
-- ngx_http_tnt_read_array_of_uint: the numbers of tnt_allowed_spaces and tnt_allowed_indexes.
use mathlib.Core.List.{map}
use nginx_upstream_module.Common.{
  Bytes, ℕ, List, drop, ◌++◌, length, if◌then◌else◌, ◌≤◌, ◌∷◌, ◌≡◌, ltb, [], ◌+◌, All, ◌==◌, arith,
  append_assoc, refl, suc, length-append, ◌∙◌, sym, ap, drop-append_length,
}
use nginx_upstream_module.Url.Args.{Without}

-- The C library's atoi, on the text from a position on.
module _ (atoi : Bytes → ℕ) where
  module _ (text : Bytes) where
    -- The loop at the offset `p`, over the bytes from there on; `it` is where a number begins.
    unfoldable pub read_uints : ℕ → ℕ → Bytes → List ℕ
    read_uints it p [] = if ltb p it then atoi (drop it text) ∷ [] else []
    read_uints it p (b ∷ bs) =
        let next = read_uints (p + 1) (p + 1) bs in
        let further = read_uints it (p + 1) bs in
        if b == b',' then atoi (drop it text) ∷ next else further

    -- No comma is left: nothing more is read.
    read_uints-Without :
        (it p : ℕ) (bs : Bytes) → Without b',' bs → it ≤ p → read_uints it p bs ≡ []
    unfolding read_uints
    read_uints-Without it p [] h le = ground arith
    read_uints-Without it p (b ∷ bs) h le =
        rw (h.0) (read_uints-Without it (p + 1) bs h.1 (omega arith))

    up_to_comma :
        (it p : ℕ) (bs rest : Bytes)
        → Without b',' bs
        → read_uints it p (bs ++ (b',' ∷ rest))
          ≡ atoi (drop it text) ∷ read_uints (p + length bs + 1) (p + length bs + 1) rest
    unfolding read_uints
    up_to_comma it p [] rest h = let z : p + 0 ≡ p = omega arith in rw z refl
    up_to_comma it p (b ∷ bs) rest h =
        let z : p + 1 + length bs ≡ p + suc (length bs) = omega arith in
        rw (h.0) (up_to_comma it (p + 1) bs rest h.1 ∙ rw z refl)

  abbrev pub read_array_of_uint : Bytes → List ℕ
  read_array_of_uint text = read_uints text 0 0 text

  -- Numbers with a comma behind each of them.
  abbrev pub with_commas : List Bytes → Bytes → Bytes
  with_commas [] last = last
  with_commas (s ∷ ss) last = s ++ (b',' ∷ with_commas ss last)

  -- The text before a comma and the comma, put behind what is read.
  behind_comma :
      (pre s rest : Bytes) → pre ++ (s ++ (b',' ∷ rest)) ≡ (pre ++ (s ++ (b',' ∷ []))) ++ rest
  behind_comma pre s rest =
      rw (append_assoc pre (s ++ (b',' ∷ [])) rest, append_assoc s (b',' ∷ []) rest) refl

  length-behind_comma :
      (pre s : Bytes) → length (pre ++ (s ++ (b',' ∷ []))) ≡ length pre + length s + 1
  length-behind_comma pre s =
      omega (arith, length-append pre (s ++ (b',' ∷ [])), length-append s (b',' ∷ []))

  module _ (law : (s rest : Bytes) → Without b',' s → atoi (s ++ (b',' ∷ rest)) ≡ atoi s) where
    read_uints-with_commas :
        (segments : List Bytes) (last pre : Bytes)
        → All (Without b',') segments
        → Without b',' last
        → read_uints
            (pre ++ with_commas segments last)
            (length pre)
            (length pre)
            (with_commas segments last)
          ≡ map atoi segments
    read_uints-with_commas [] last pre h l =
        read_uints-Without (pre ++ last) (length pre) (length pre) last l (omega arith)
    read_uints-with_commas (s ∷ ss) last pre (h, hs) l =
        let rest = with_commas ss last in
        let next = read_uints-with_commas ss last (pre ++ (s ++ (b',' ∷ []))) hs l in
        up_to_comma (pre ++ (s ++ (b',' ∷ rest))) (length pre) (length pre) s rest h
        ∙ rw
            (
              drop-append_length pre (s ++ (b',' ∷ rest)) (length pre) refl,
              law s rest h,
              behind_comma pre s rest,
              sym (length-behind_comma pre s),
            )
            (ap (◌∷◌ (atoi s)) next)

    -- Where atoi reads a number up to a comma: of a list of numbers with commas between them all
    -- but the last are read, each as atoi reads it.
    pub read_array_of_uint-with_commas :
        (segments : List Bytes) (last : Bytes)
        → All (Without b',') segments
        → Without b',' last
        → read_array_of_uint (with_commas segments last) ≡ map atoi segments
    read_array_of_uint-with_commas segments last h l = read_uints-with_commas segments last [] h l
