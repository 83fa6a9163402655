-- ===== src/TpToJson/Overflow.antt =====
-- Where a bracket is written behind the buffer.
use nginx_upstream_module.Common.{
  ℕ, Bytes, Bool, List, suc, length, false, ◌+◌, ◌∷◌, ◌≡◌, ◌≤◌, ◌-◌, arith, ◌<◌, length-append, ltb,
  ◌∙◌, true, ap, [], le→ltb_false, refl, ◌++◌,
}
use nginx_upstream_module.TpToJson.State.{
  Writer, Formats, Token, append, past_end, Printed, and_then,
}
use nginx_upstream_module.TpToJson.Internal.{print_token, print_items, tp2json_transcode_internal}
use nginx_upstream_module.TpToJson.Steps.{at, transcode-token, print_string-at}
use nginx_upstream_module.JsonString.Spelling.{literal, spelled_all}
use nginx_upstream_module.TpToJson.Openings.{items-open}

literal_quotes : (s : Bytes) → 2 ≤ length (literal false s)
unfolding literal
literal_quotes s = omega (arith, length-append (spelled_all false s) (b'"' ∷ []))

module _ (f : Formats) (base : Writer) where
  -- The bracket, where the text before it has taken the last byte.
  bracket-past_end :
      (o : Bytes) (r len : ℕ) (m : Bool) (inner : Writer → List Token → Printed) (ts : List Token)
      → r ≡ 0
      → 0 < len
      → print_items inner 0 false (at base o r m false) len ts ≡ past_end
  unfolding print_items append
  bracket-past_end o r len m inner ts e h =
      let no_room : ltb r 1 ≡ true = ground arith in rw (append, le→ltb_false len 1 h, no_room) refl

  -- An array of one text, in a buffer with room for the bracket before the text and for the text
  -- but not for the bracket behind it, is closed outside of the buffer.
  pub transcode-past_end :
      (s o : Bytes) (m : Bool) (fuel : ℕ) (ts : List Token)
      → tp2json_transcode_internal f
          (suc (suc fuel))
          (at base o (length (literal false s) + 1) m false)
          (Token.array 1 ∷ Token.str s ∷ ts)
        ≡ past_end
  unfolding print_token print_items
  transcode-past_end s o m fuel ts =
      let t = literal false s in
      let r = length t + 1 - 1 in
      let inner =
        λ (w : Writer) (ts' : List Token). tp2json_transcode_internal f (suc fuel) w ts' in
      items-open f base 1 (suc fuel) o (length t + 1) m (Token.str s ∷ ts)
        (omega (arith, literal_quotes s))
      ∙ ap (λ x. and_then x (λ w ts'. print_items inner 0 false w r ts'))
          (transcode-token base f fuel (at base (o ++ (b'[' ∷ [])) r m false) (Token.str s) ts
              (omega (arith, literal_quotes s))
            ∙ print_string-at base (o ++ (b'[' ∷ [])) s r m false ts (omega arith))
      ∙ bracket-past_end _ (r - length t) r m inner ts (omega arith)
          (omega (arith, literal_quotes s))
