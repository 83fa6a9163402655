-- ===== src/TpToJson/Render.antt =====
-- A whole value, printed into a buffer with some room to spare.
use nginx_upstream_module.Common.{
  suc, ℕ, [], true, false, Bool, ◌<◌, List, Bytes, ◌&&◌, length, ◌≡◌, not, arith, refl, ◌++◌, ◌+◌,
  ◌-◌, ◌≤◌, suc, ◌∷◌, ◌∙◌, ap, length-append, codes, if◌then◌else◌, le→ltb_false, sym, zero,
}
use nginx_upstream_module.TpToJson.Value.{
  no_values, no_pairs, nil, bool, uint, int, float, double, str, bin, array, map, item, pair, Key,
  Value, Values, Pairs, depth, key_text, key_token, comma, text, tokens, has_map, size_values,
  tokens_values, text_values, size_pairs, tokens_pairs, text_pairs, depth_values, has_map_values,
  depth_pairs,
}
use nginx_upstream_module.TpToJson.State.{
  Writer, Formats, Token, Printed, printed, append, and_then,
}
use nginx_upstream_module.TpToJson.Internal.{
  print_token, tp2json_transcode_internal, decimal, signed_decimal, print_items, print_fields,
}
use nginx_upstream_module.TpToJson.Steps.{at, transcode-token, print_string-at, append-at, print-at}
use nginx_upstream_module.TpToJson.Sizes.{
  length-decimal, length-signed_decimal, size-text_values, size-text_pairs,
}
use nginx_upstream_module.TpToJson.Openings.{
  run, spare, here, behind, and_true, number-Renders, items-open, behind-behind, fields-open,
  and_false, separate-at, and-not-or, key-Renders,
}

depth_pos : (v : Value) → 0 < depth v
depth_pos nil = omega arith
depth_pos (bool b) = omega arith
depth_pos (uint n) = omega arith
depth_pos (int n) = omega arith
depth_pos (float d) = omega arith
depth_pos (double d) = omega arith
depth_pos (str s) = omega arith
depth_pos (bin s) = omega arith
depth_pos (array vs) = omega arith
depth_pos (map ps) = omega arith

module _ (f : Formats) (base : Writer) where
  -- What the loop over a map does behind a key.
  abbrev after_key : ℕ → ℕ → Writer → ℕ → List Token → Printed
  after_key fuel size k len ts =
      append (record k { in_key = false }) len (b':' ∷ [])
        (λ k' len'.
          and_then (run f base (suc fuel) k' ts) (λ v ts'.
            print_fields (λ w' ts''. run f base (suc fuel) w' ts'') size false v len' ts'))

  -- What the loops do behind a comma.
  abbrev after_comma : ℕ → Value → Values → List Token → Writer → ℕ → Printed
  after_comma fuel v vs ts w len =
      and_then (run f base fuel w (tokens v (tokens_values vs ts))) (λ w' ts'.
        print_items (λ w'' ts''. run f base fuel w'' ts'') (size_values vs) false w' len ts')

  abbrev after_comma_in_map : ℕ → Key → Value → Pairs → List Token → Writer → ℕ → Printed
  after_comma_in_map fuel k v ps ts w len =
      and_then
        (run f base (suc fuel) (record w { in_key = true })
          (key_token k ∷ tokens v (tokens_pairs ps ts)))
        (λ w' ts'. after_key fuel (size_pairs ps) w' len ts')

  length-text_pairs :
      (first q : Bool) (k : Key) (v : Value) (ps : Pairs)
      → length (text_pairs f first q (pair k v ps))
        ≡ length (comma first)
          + length (key_text q k)
          + 1
          + length (text f v)
          + length (text_pairs f false (q && not (has_map v)) ps)
  length-text_pairs first q k v ps =
      let t = text f v in
      let more = text_pairs f false (q && not (has_map v)) ps in
      omega (
        arith,
        length-append (comma first) (key_text q k ++ (b':' ∷ (t ++ more))),
        length-append (key_text q k) (b':' ∷ (t ++ more)),
        length-append t more,
      )

  mutual
    unfolding print_token print_items print_fields

    -- Where no array is skipped, no key is being written, the nesting is within the fuel, and the
    -- text of a value fits the buffer with 21 bytes to spare: printing the value writes its text
    -- and no more, reads its tokens and no more, and leaves the buffer with the room that is left;
    -- integer keys are quoted in the text as long as no map stands among the values before them.
    render :
        (v : Value) (fuel : ℕ) (o : Bytes) (r : ℕ) (m : Bool) (ts : List Token)
        → depth v ≤ fuel
        → length (text f v) + spare ≤ r
        → run f base fuel (here f base o r m) (tokens v ts)
          ≡ behind f base o (text f v) r (m && not (has_map v)) ts
    render v zero o r m ts d h = absurd (omega (arith, depth_pos v))
    render nil (suc fuel) o r m ts d h =
        transcode-token base f fuel (here f base o r m) Token.nil ts (omega arith)
        ∙ append-at base o (codes "null") r r m false _ (omega arith) (omega arith)
        ∙ rw (and_true m) refl
    render (bool b) (suc fuel) o r m ts d h =
        transcode-token base f fuel (here f base o r m) (Token.bool b) ts (omega arith)
        ∙ append-at base o (if b then codes "true" else codes "false") r r m false _ (omega arith)
            (omega arith)
        ∙ rw (and_true m) refl
    render (uint n) (suc fuel) o r m ts d h =
        number-Renders f base (decimal n) (Token.uint n) fuel o r m ts refl (length-decimal n) h
    render (int n) (suc fuel) o r m ts d h =
        number-Renders f base (signed_decimal n) (Token.int n) fuel o r m ts refl
          (length-signed_decimal n) h
    render (float b) (suc fuel) o r m ts d h =
        transcode-token base f fuel (here f base o r m) (Token.float b) ts (omega arith)
        ∙ rw (le→ltb_false r 7 (omega arith))
            (print-at base o (f.format_float b) r m false ts (omega arith) ∙ rw (and_true m) refl)
    render (double b) (suc fuel) o r m ts d h =
        transcode-token base f fuel (here f base o r m) (Token.double b) ts (omega arith)
        ∙ rw (le→ltb_false r 15 (omega arith))
            (print-at base o (f.format_double b) r m false ts (omega arith) ∙ rw (and_true m) refl)
    render (str s) (suc fuel) o r m ts d h =
        transcode-token base f fuel (here f base o r m) (Token.str s) ts (omega arith)
        ∙ print_string-at base o s r m false ts (omega arith)
        ∙ rw (and_true m) refl
    render (bin s) (suc fuel) o r m ts d h =
        transcode-token base f fuel (here f base o r m) (Token.bin s) ts (omega arith)
        ∙ print_string-at base o s r m false ts (omega arith)
        ∙ rw (and_true m) refl
    render (array vs) (suc fuel) o r m ts d h =
        items-open f base (size_values vs) fuel o r m (tokens_values vs ts)
          (omega (arith, size-text_values f true vs))
        ∙ render_values vs true fuel (o ++ (b'[' ∷ [])) (r - 1) (r - 1) m ts (omega arith)
            (omega arith) (omega arith)
        ∙ behind-behind f base o (b'[' ∷ []) (text_values f true vs) r _ _ ts refl
    render (map ps) (suc fuel) o r m ts d h =
        fields-open f base (size_pairs ps) fuel o r m (tokens_pairs ps ts)
          (omega (arith, size-text_pairs f true true ps))
        ∙ render_pairs ps true true fuel (o ++ (b'{' ∷ [])) (r - 1) (r - 1) ts (omega arith)
            (omega arith) (omega arith)
        ∙ behind-behind f base o (b'{' ∷ []) (text_pairs f true true ps) r _ _ ts
            (sym (and_false m))

    render_values :
        (vs : Values) (first : Bool) (fuel : ℕ) (o : Bytes) (r len : ℕ) (m : Bool) (ts : List Token)
        → depth_values vs ≤ fuel
        → length (text_values f first vs) + spare ≤ r
        → r ≤ len
        → print_items
            (λ w' ts'. run f base fuel w' ts')
            (size_values vs)
            first
            (here f base o r m)
            len
            (tokens_values vs ts)
          ≡ behind f base o (text_values f first vs) r (m && not (has_map_values vs)) ts
    render_values no_values first fuel o r len m ts d h l =
        append-at base o (b']' ∷ []) r len m false _ (omega arith) l ∙ rw (and_true m) refl
    render_values (item v vs) first fuel o r len m ts d h l =
        let c = comma first in
        let t = text f v in
        let more = text_values f false vs in
        let r' = r - length c in
        let len' = len - length c in
        let m' = m && not (has_map v) in
        let whole = length-append c (t ++ more) in
        let part = length-append t more in
        separate-at f base first o r len m (after_comma fuel v vs ts) (omega (arith, whole)) l
        ∙ ap
            (λ x. and_then x (λ w ts'.
              print_items (λ w' ts''. run f base fuel w' ts'') (size_values vs) false w len' ts'))
            (render v fuel (o ++ c) r' m (tokens_values vs ts) (omega arith)
              (omega (arith, whole, part)))
        ∙ render_values vs false fuel ((o ++ c) ++ t) (r' - length t) len' m' ts (omega arith)
            (omega (arith, whole, part)) (omega arith)
        ∙ behind-behind f base (o ++ c) t more r' _ _ ts
            (and-not-or m (has_map v) (has_map_values vs))
        ∙ behind-behind f base o c (t ++ more) r _ _ ts refl

    render_pairs :
        (ps : Pairs) (first q : Bool) (fuel : ℕ) (o : Bytes) (r len : ℕ) (ts : List Token)
        → depth_pairs ps ≤ fuel
        → length (text_pairs f first q ps) + spare ≤ r
        → r ≤ len
        → print_fields
            (λ w' ts'. run f base fuel w' ts')
            (size_pairs ps)
            first
            (here f base o r q)
            len
            (tokens_pairs ps ts)
          ≡ behind f base o (text_pairs f first q ps) r false ts
    render_pairs no_pairs first q fuel o r len ts d h l =
        append-at base o (b'}' ∷ []) r len q false _ (omega arith) l
    render_pairs (pair k v ps) first q zero o r len ts d h l = absurd (omega (arith, depth_pos v))
    render_pairs (pair k v ps) first q (suc fuel) o r len ts d h l =
        let c = comma first in
        let kt = key_text q k in
        let t = text f v in
        let q' = q && not (has_map v) in
        let more = text_pairs f false q' ps in
        let r1 = r - length c in
        let r2 = r1 - length kt in
        let len1 = len - length c in
        let size = length-text_pairs first q k v ps in
        separate-at f base first o r len q (after_comma_in_map fuel k v ps ts) (omega (arith, size))
          l
        ∙ ap (λ x. and_then x (λ w ts'. after_key fuel (size_pairs ps) w len1 ts'))
            (key-Renders f base k fuel (o ++ c) r1 q (tokens v (tokens_pairs ps ts))
              (omega (arith, size)))
        ∙ append-at base ((o ++ c) ++ kt) (b':' ∷ []) r2 len1 q false _ (omega (arith, size))
            (omega arith)
        ∙ ap
            (λ x. and_then x (λ w ts'.
              print_fields (λ w' ts''. run f base (suc fuel) w' ts'') (size_pairs ps) false w
                (len1 - 1) ts'))
            (render v (suc fuel) (((o ++ c) ++ kt) ++ (b':' ∷ [])) (r2 - 1) q (tokens_pairs ps ts)
              (omega arith) (omega (arith, size)))
        ∙ render_pairs ps false q' (suc fuel) ((((o ++ c) ++ kt) ++ (b':' ∷ [])) ++ t)
            (r2 - 1 - length t) (len1 - 1) ts (omega arith) (omega (arith, size))
            (omega (arith, size))
        ∙ behind-behind f base (((o ++ c) ++ kt) ++ (b':' ∷ [])) t more (r2 - 1) _ _ ts refl
        ∙ behind-behind f base ((o ++ c) ++ kt) (b':' ∷ []) (t ++ more) r2 _ _ ts refl
        ∙ behind-behind f base (o ++ c) kt (b':' ∷ (t ++ more)) r1 _ _ ts refl
        ∙ behind-behind f base o c (kt ++ (b':' ∷ (t ++ more))) r _ _ ts refl

  -- Where no array is skipped, no key is being written, the nesting is within the fuel, and the
  -- text of a value fits the buffer with 21 bytes to spare: printing the value writes its text and
  -- no more, reads its tokens and no more, and leaves the buffer with the room that is left;
  -- integer keys are quoted in the text as long as no map stands among the values before them.
  pub tp2json_transcode_internal-tokens :
      (v : Value) (fuel : ℕ) (o : Bytes) (r : ℕ) (m : Bool) (ts : List Token)
      → depth v ≤ fuel
      → length (text f v) + spare ≤ r
      → tp2json_transcode_internal f fuel (at base o r m false) (tokens v ts)
        ≡ printed (at base (o ++ text f v) (r - length (text f v)) (m && not (has_map v)) false) ts
  tp2json_transcode_internal-tokens = render
