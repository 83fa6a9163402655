-- ===== src/TpToJson/Steps.antt =====
-- One write into a buffer with room for it.
use nginx_upstream_module.Common.{
  ℕ, ◌≤◌, Bytes, ltb, Bool, ◌≡◌, List, false, length, ◌<◌, arith, ◌++◌, suc, ◌-◌, ◌+◌, ◌∷◌, true,
  refl, ◌==◌, le→ltb_false,
}
use nginx_upstream_module.TpToJson.State.{Writer, append, print, Printed, Token, printed, Formats}
use nginx_upstream_module.TpToJson.Internal.{
  print_string, tp2json_transcode_internal, number_text, print_number, print_token,
}
use nginx_upstream_module.JsonString.Spelling.{literal}
use nginx_upstream_module.JsonString.Bounds.{json_encode_string-literal}

module _ (base : Writer) where
  -- A writer with no array to skip.
  abbrev pub at : Bytes → ℕ → Bool → Bool → Writer
  at o r m k = record base { out = o; room = r; in_map = m; in_key = k; multireturn_skiped = 0 }

  pub append-at :
      (o bs : Bytes) (r len : ℕ) (m k : Bool) (then_ : Writer → ℕ → Printed)
      → length bs ≤ r
      → r ≤ len
      → append (at o r m k) len bs then_
        ≡ then_ (at (o ++ bs) (r - length bs) m k) (len - length bs)
  unfolding append
  append-at o bs r len m k then_ h l =
      rw (append, le→ltb_false len (length bs) (omega arith), le→ltb_false r (length bs) h) refl

  pub print-at :
      (o t : Bytes) (r : ℕ) (m k : Bool) (ts : List Token)
      → length t < r
      → print (at o r m k) t ts ≡ printed (at (o ++ t) (r - length t) m k) ts
  unfolding print
  print-at o t r m k ts h =
      let fits : ltb (length t) r ≡ true = ground arith in rw (print, fits) refl

  pub print_number-at :
      (o digits : Bytes) (r : ℕ) (m k : Bool) (ts : List Token)
      → length (number_text (at o r m k) digits) + 20 ≤ r
      → 0 < length (number_text (at o r m k) digits)
      → print_number (at o r m k) digits ts
        ≡ printed
            (at
              (o ++ number_text (at o r m k) digits)
              (r - length (number_text (at o r m k) digits))
              m
              k)
            ts
  print_number-at o digits r m k ts h p =
      rw (le→ltb_false r 20 (omega arith))
        (print-at o (number_text (at o r m k) digits) r m k ts (omega arith))

  pub print_string-at :
      (o s : Bytes) (r : ℕ) (m k : Bool) (ts : List Token)
      → length (literal false s) ≤ r
      → print_string (at o r m k) s ts
        ≡ printed (at (o ++ literal false s) (r - length (literal false s)) m k) ts
  unfolding print_string
  print_string-at o s r m k ts h = rw (print_string, json_encode_string-literal false o r s h) refl

  module _ (f : Formats) where
    pub transcode-token :
        (fuel : ℕ) (w : Writer) (t : Token) (ts : List Token)
        → 0 < w.room
        → tp2json_transcode_internal f (suc fuel) w (t ∷ ts)
          ≡ print_token f (λ w' ts'. tp2json_transcode_internal f fuel w' ts') w t ts
    unfolding tp2json_transcode_internal
    transcode-token fuel w t ts h =
        let some_room : (w.room == 0) ≡ false = ground arith in
        rw (tp2json_transcode_internal, some_room) refl
