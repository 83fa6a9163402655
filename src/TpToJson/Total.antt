-- ===== src/TpToJson/Total.antt =====
-- The calls of tp2json_transcode_internal, on any tokens at all.
use nginx_upstream_module.Common.{
  ℕ, [], true, false, length, List, ◌≤◌, Bool, arith, if◌then◌else◌, Bytes, ◌<◌, ltb, ◌∷◌, codes,
  suc, ◌==◌, zero, ◌+◌, ◌%◌, ◌^◌, some,
}
use nginx_upstream_module.TpToJson.State.{
  Writer, Formats, Token, Printed, printed, failed, past_end, no_fuel, nil, bool, uint, int, float,
  double, str, bin, array, map, ext, append, print, and_then, say_error, encoder_no_memory,
  encoder_bad_arguments,
}
use nginx_upstream_module.TpToJson.Internal.{
  print_string, tp2json_transcode_internal, separate, print_items, print_fields, print_token,
  number_text, decimal, signed_decimal,
}
use nginx_upstream_module.JsonString.{Encoded, done, oom, json_encode_string, invalid_arguments}

-- The call came to an end, with at most `n` tokens left.
abbrev pub Ends : ℕ → Printed → Type 0
Ends n (printed w ts) = length ts ≤ n
Ends n (failed w) = Unit {0}
Ends n past_end = Unit {0}
Ends n no_fuel = ⊥

-- What stands inside ends on each number of tokens up to `n`.
abbrev EndsUpTo : ℕ → (Writer → List Token → Printed) → Type 0
EndsUpTo n inner = (w : Writer) (ts : List Token) → length ts ≤ n → Ends (length ts) (inner w ts)

Ends-weaken : (n k : ℕ) (p : Printed) → n ≤ k → Ends n p → Ends k p
Ends-weaken n k (printed w ts) h e = omega arith
Ends-weaken n k (failed w) h e = tt
Ends-weaken n k past_end h e = tt
Ends-weaken n k no_fuel h e = absurd e

Ends-if : (b : Bool) (n : ℕ) (p q : Printed) → Ends n p → Ends n q → Ends n (if b then p else q)
Ends-if true n p q x y = x
Ends-if false n p q x y = y

Ends-append :
    (w : Writer) (len : ℕ) (bs : Bytes) (then_ : Writer → ℕ → Printed) (n : ℕ)
    → ((w' : Writer) (len' : ℕ) → Ends n (then_ w' len'))
    → Ends n (append w len bs then_)
unfolding append
Ends-append w len bs then_ n h =
    Ends-if (ltb len (length bs)) n _ _ tt (Ends-if (ltb w.room (length bs)) n _ _ tt (h _ _))

Ends-and_then :
    (p : Printed) (g : Writer → List Token → Printed) (n : ℕ)
    → Ends n p
    → ((w : Writer) (ts : List Token) → length ts ≤ n → Ends n (g w ts))
    → Ends n (and_then p g)
Ends-and_then (printed w ts) g n e h = h w ts e
Ends-and_then (failed w) g n e h = tt
Ends-and_then past_end g n e h = tt
Ends-and_then no_fuel g n e h = absurd e

Ends-separate :
    (first : Bool) (w : Writer) (len n : ℕ) (then_ : Writer → ℕ → Printed)
    → ((w' : Writer) (len' : ℕ) → Ends n (then_ w' len'))
    → Ends n (separate first w len then_)
Ends-separate true w len n then_ h = h w len
Ends-separate false w len n then_ h = Ends-append w len (b',' ∷ []) then_ n h

Ends-print : (w : Writer) (t : Bytes) (ts : List Token) → Ends (length ts) (print w t ts)
unfolding print
Ends-print w t ts =
    Ends-if (ltb (length t) w.room) _ _ _ (omega arith)
      (Ends-if (length t == w.room) _ _ _ (omega arith) tt)

Ends-print_string :
    (w : Writer) (s : Bytes) (ts : List Token) → Ends (length ts) (print_string w s ts)
unfolding print_string
Ends-print_string w s ts = go (json_encode_string (some w.out) w.room (some s) false)
  where
    go :
        (e : Encoded)
        → Ends (length ts) (elim e [
          | done c ↦ printed (record w { out = c.out; room = c.room }) ts
          | oom c ↦ failed (say_error (record w { out = c.out; room = c.room }) encoder_no_memory)
          | invalid_arguments ↦ failed (say_error w encoder_bad_arguments)
        ])
    go (done c) = omega arith
    go (oom c) = tt
    go invalid_arguments = tt

module _ (inner : Writer → List Token → Printed) (n : ℕ) (ends : EndsUpTo n inner) where
  inner-Ends : (w : Writer) (ts : List Token) (k : ℕ) → length ts ≤ k → k ≤ n → Ends k (inner w ts)
  inner-Ends w ts k h l = Ends-weaken (length ts) k (inner w ts) h (ends w ts (omega arith))

  Ends-print_items :
      (size : ℕ) (first : Bool) (w : Writer) (len k : ℕ) (ts : List Token)
      → length ts ≤ k
      → k ≤ n
      → Ends k (print_items inner size first w len ts)
  unfolding print_items
  Ends-print_items zero first w len k ts h l = Ends-append w len (b']' ∷ []) _ k (λ w' len'. h)
  Ends-print_items (suc size) first w len k ts h l = Ends-separate first w len k _ (λ w' len'.
      Ends-and_then (inner w' ts) _ k (inner-Ends w' ts k h l)
        (λ w'' ts' h'. Ends-print_items size false w'' len' k ts' h' l))

  Ends-print_fields :
      (size : ℕ) (first : Bool) (w : Writer) (len k : ℕ) (ts : List Token)
      → length ts ≤ k
      → k ≤ n
      → Ends k (print_fields inner size first w len ts)
  unfolding print_fields
  Ends-print_fields zero first w len k ts h l = Ends-append w len (b'}' ∷ []) _ k (λ w' len'. h)
  Ends-print_fields (suc size) first w len k ts h l = Ends-separate first w len k _ (λ w' len'.
      Ends-and_then (inner (record w' { in_key = true }) ts) _ k (inner-Ends _ ts k h l)
        (λ a ts' h'.
          Ends-append (record a { in_key = false }) len' (b':' ∷ []) _ k
            (λ a' len''.
              Ends-and_then (inner a' ts') _ k (inner-Ends a' ts' k h' l)
                (λ v ts'' h''. Ends-print_fields size false v len'' k ts'' h'' l))))

  Ends-print_token :
      (f : Formats) (w : Writer) (t : Token) (ts : List Token)
      → length ts ≤ n
      → Ends (length ts) (print_token f inner w t ts)
  unfolding print_token
  Ends-print_token f w nil ts h = Ends-append w w.room (codes "null") _ _ (λ w' len. omega arith)
  Ends-print_token f w ext ts h = omega arith
  Ends-print_token f w (bool b) ts h =
      Ends-append w w.room (if b then codes "true" else codes "false") _ _ (λ w' len. omega arith)
  Ends-print_token f w (uint m) ts h =
      Ends-if (ltb w.room 20) _ _ _ tt (Ends-print w (number_text w (decimal m)) ts)
  Ends-print_token f w (int m) ts h =
      Ends-if (ltb w.room 20) _ _ _ tt (Ends-print w (number_text w (signed_decimal m)) ts)
  Ends-print_token f w (float b) ts h =
      Ends-if (ltb w.room 7) _ _ _ tt (Ends-print w (f.format_float b) ts)
  Ends-print_token f w (double b) ts h =
      Ends-if (ltb w.room 15) _ _ _ tt (Ends-print w (f.format_double b) ts)
  Ends-print_token f w (str s) ts h = Ends-print_string w s ts
  Ends-print_token f w (bin s) ts h = Ends-print_string w s ts
  Ends-print_token f w (array size) ts h =
      Ends-if (ltb 0 w.multireturn_skiped) _ _ _ (inner-Ends _ ts _ (omega arith) h) (
        Ends-if (ltb w.room ((size + 2) % 2 ^ 32)) _ _ _ tt (
          Ends-append w w.room (b'[' ∷ []) _ _
            (λ w' len. Ends-print_items size true w' len (length ts) ts (omega arith) h)))
  Ends-print_token f w (map size) ts h = Ends-if (ltb w.room ((size + 2) % 2 ^ 32)) _ _ _ tt (
      Ends-append (record w { in_map = true }) w.room (b'{' ∷ []) _ _
        (λ w' len. Ends-print_fields size true w' len (length ts) ts (omega arith) h))

-- On any tokens, well formed or not, and in any state, with more fuel than tokens, the printer
-- comes to an end, and has no more tokens left than it was given.
pub tp2json_transcode_internal-Ends :
    (f : Formats) (fuel : ℕ) (w : Writer) (ts : List Token)
    → length ts < fuel
    → Ends (length ts) (tp2json_transcode_internal f fuel w ts)
unfolding tp2json_transcode_internal
tp2json_transcode_internal-Ends f zero w ts h = absurd (omega arith)
tp2json_transcode_internal-Ends f (suc fuel) w [] h = omega arith
tp2json_transcode_internal-Ends f (suc fuel) w (t ∷ ts) h = Ends-if (w.room == 0) _ _ _ tt (
    Ends-weaken (length ts) (suc (length ts)) _ (omega arith) (
      Ends-print_token (λ w' ts'. tp2json_transcode_internal f fuel w' ts') (length ts)
        (λ w' ts' l. tp2json_transcode_internal-Ends f fuel w' ts' (omega arith)) f w t ts
        (omega arith)))
