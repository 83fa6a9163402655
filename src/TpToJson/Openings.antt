-- ===== src/TpToJson/Openings.antt =====
-- What a token begins: a number, a key, an array or a map, and what stands before the next value.
use nginx_upstream_module.Common.{
  suc, ℕ, [], true, false, Bool, ◌<◌, List, Bytes, ◌&&◌, length, ◌≡◌, not, arith, refl, ◌||◌, ◌++◌,
  ◌+◌, ◌-◌, ◌≤◌, suc, ◌∷◌, ◌∙◌, ap, length-append, append_assoc, ltb, append-nil, ◌%◌, ◌^◌,
}
use nginx_upstream_module.TpToJson.Value.{uint, int, str, Key, key_text, key_token, comma}
use nginx_upstream_module.TpToJson.State.{Writer, Formats, Token, Printed, printed}
use nginx_upstream_module.TpToJson.Internal.{
  print_token, tp2json_transcode_internal, print_number, number_text, decimal, signed_decimal,
  print_items, print_fields, separate,
}
use nginx_upstream_module.TpToJson.Steps.{
  at, transcode-token, print_string-at, print_number-at, append-at,
}
use nginx_upstream_module.TpToJson.Sizes.{length-decimal, length-signed_decimal}

-- What the largest number takes, and one byte more.
abbrev pub spare : ℕ
spare = 21

pub and_false : (m : Bool) → (m && false) ≡ false
and_false true = refl
and_false false = refl

pub and_true : (m : Bool) → (m && true) ≡ m
and_true true = refl
and_true false = refl

pub and-not-or : (m a b : Bool) → ((m && not a) && not b) ≡ (m && not (a || b))
and-not-or true true b = refl
and-not-or true false b = refl
and-not-or false a b = refl

module _ (f : Formats) (base : Writer) where
  abbrev pub run : ℕ → Writer → List Token → Printed
  run fuel w ts = tp2json_transcode_internal f fuel w ts

  abbrev pub here : Bytes → ℕ → Bool → Writer
  here o r m = at base o r m false

  -- The writer behind a text.
  abbrev pub behind : Bytes → Bytes → ℕ → Bool → List Token → Printed
  behind o t r m ts = printed (here (o ++ t) (r - length t) m) ts

  pub key-Renders :
      (k : Key) (fuel : ℕ) (o : Bytes) (r : ℕ) (q : Bool) (ts : List Token)
      → length (key_text q k) + spare ≤ r
      → run (suc fuel) (at base o r q true) (key_token k ∷ ts)
        ≡ printed (at base (o ++ key_text q k) (r - length (key_text q k)) q true) ts
  unfolding print_token
  key-Renders (str s) fuel o r q ts h =
      transcode-token base f fuel (at base o r q true) (Token.str s) ts (omega arith)
      ∙ print_string-at base o s r q true ts (omega arith)
  key-Renders (uint n) fuel o r true ts h =
      transcode-token base f fuel (at base o r true true) (Token.uint n) ts (omega arith)
      ∙ print_number-at base o (decimal n) r true true ts (omega arith) (omega arith)
  key-Renders (uint n) fuel o r false ts h =
      transcode-token base f fuel (at base o r false true) (Token.uint n) ts (omega arith)
      ∙ print_number-at base o (decimal n) r false true ts (omega arith) (length-decimal n)
  key-Renders (int n) fuel o r true ts h =
      transcode-token base f fuel (at base o r true true) (Token.int n) ts (omega arith)
      ∙ print_number-at base o (signed_decimal n) r true true ts (omega arith) (omega arith)
  key-Renders (int n) fuel o r false ts h =
      transcode-token base f fuel (at base o r false true) (Token.int n) ts (omega arith)
      ∙ print_number-at base o (signed_decimal n) r false true ts (omega arith)
          (length-signed_decimal n)

  pub number-Renders :
      (digits : Bytes) (t : Token) (fuel : ℕ) (o : Bytes) (r : ℕ) (m : Bool) (ts : List Token)
      → print_token f (λ w' ts'. run fuel w' ts') (here o r m) t ts
        ≡ print_number (here o r m) digits ts
      → 0 < length digits
      → length digits + spare ≤ r
      → run (suc fuel) (here o r m) (t ∷ ts) ≡ behind o digits r (m && not false) ts
  number-Renders digits t fuel o r m ts e p h =
      let same : number_text (here o r m) digits ≡ digits = rw (and_false m) refl in
      transcode-token base f fuel (here o r m) t ts (omega arith)
      ∙ e
      ∙ print_number-at base o digits r m false ts (omega (arith, ap length same))
          (omega (arith, ap length same))
      ∙ rw (same, and_true m) refl

  pub separate-at :
      (first : Bool) (o : Bytes) (r len : ℕ) (m : Bool) (then_ : Writer → ℕ → Printed)
      → length (comma first) ≤ r
      → r ≤ len
      → separate first (here o r m) len then_
        ≡ then_ (here (o ++ comma first) (r - length (comma first)) m) (len - length (comma first))
  separate-at true o r len m then_ h l =
      let room : r - 0 ≡ r = omega arith in
      let same : len - 0 ≡ len = omega arith in rw (append-nil, room, same) refl
  separate-at false o r len m then_ h l = append-at base o (b',' ∷ []) r len m false then_ h l

  -- Texts one behind the other are one text.
  pub behind-behind :
      (o a b : Bytes) (r : ℕ) (m m' : Bool) (ts : List Token)
      → m ≡ m'
      → behind (o ++ a) b (r - length a) m ts ≡ behind o (a ++ b) r m' ts
  behind-behind o a b r m m' ts e =
      let room : r - length a - length b ≡ r - length (a ++ b) = omega (arith, length-append a b) in
      rw (append_assoc, room, e) refl

  pub items-open :
      (size fuel : ℕ) (o : Bytes) (r : ℕ) (m : Bool) (ts : List Token)
      → size + 2 ≤ r
      → run (suc fuel) (here o r m) (Token.array size ∷ ts)
        ≡ print_items
            (λ w' ts'. run fuel w' ts')
            size
            true
            (here (o ++ (b'[' ∷ [])) (r - 1) m)
            (r - 1)
            ts
  unfolding print_token
  items-open size fuel o r m ts h =
      let checked : ltb r ((size + 2) % 2 ^ 32) ≡ false = ground arith in
      transcode-token base f fuel (here o r m) (Token.array size) ts (omega arith)
      ∙ rw checked (append-at base o (b'[' ∷ []) r r m false _ (omega arith) (omega arith))

  pub fields-open :
      (size fuel : ℕ) (o : Bytes) (r : ℕ) (m : Bool) (ts : List Token)
      → size + 2 ≤ r
      → run (suc fuel) (here o r m) (Token.map size ∷ ts)
        ≡ print_fields
            (λ w' ts'. run fuel w' ts')
            size
            true
            (here (o ++ (b'{' ∷ [])) (r - 1) true)
            (r - 1)
            ts
  unfolding print_token
  fields-open size fuel o r m ts h =
      let checked : ltb r ((size + 2) % 2 ^ 32) ≡ false = ground arith in
      transcode-token base f fuel (here o r m) (Token.map size) ts (omega arith)
      ∙ rw checked (append-at base o (b'{' ∷ []) r r true false _ (omega arith) (omega arith))
