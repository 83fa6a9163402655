-- ===== src/Handlers/Errors.antt =====
-- The text of an error that is answered.
use nginx_upstream_module.Common.{
  Bytes, All, true, ◌≡◌, none, ◌∷◌, ◌<◌, [], length, refl, ◌≤◌, ◌*◌, ◌-◌, take, ◌+◌, arith, ap,
  length-append, ℕ, ◌∙◌, some, suc, codes, ◌++◌, zero, length-take, Bool, Option, false, ltb, ◌&&◌,
  sym,
}
use nginx_upstream_module.JsonString.Spelling.{spelled, spelled_all, literal}
use nginx_upstream_module.Handlers.{
  Printf, set_err, ngx_ok, error_overhead, error_json, or_empty, error_head, kept, get_error_text,
  ErrorIdx, request_too_large, unknown_parse_error, http_request_too_large, dml_handler_fmt_error,
  dml_handler_fmt_limit_error,
}
use nginx_upstream_module.JsonString.{escaped}
use nginx_upstream_module.Common.Int.{ℤ}
use nginx_upstream_module.JsonString.Bounds.{json_encode_string-literal}
use nginx_upstream_module.JsonString.RoundTrip.{read_json_string, read_json_string-literal}
use mathlib.Core.Bool.{true≢false}

-- A message that is written as it stands.
abbrev pub IsPlain : Bytes → Type 0
IsPlain msg = All (λ ch. escaped true ch ≡ none) msg

spelled_all-plain : (msg : Bytes) → IsPlain msg → spelled_all true msg ≡ msg
unfolding spelled
spelled_all-plain [] h = refl
spelled_all-plain (ch ∷ msg) (e, h) =
    ap (λ o. (elim o [ some x ↦ x | none ↦ ch ∷ [] ]) ++ spelled_all true msg) e
    ∙ ap (◌∷◌ ch) (spelled_all-plain msg h)

-- The literal has both quotes.
length-literal_plain : (msg : Bytes) → IsPlain msg → length (literal true msg) ≡ length msg + 2
unfolding literal
length-literal_plain msg h =
    rw (spelled_all-plain msg h) (omega (arith, length-append msg (b'"' ∷ [])))

literal_quotes : (msg : Bytes) → 2 ≤ length (literal true msg)
unfolding literal
literal_quotes msg = omega (arith, length-append (spelled_all true msg) (b'"' ∷ []))

pub take-all : (xs : Bytes) (n : ℕ) → length xs ≤ n → take n xs ≡ xs
take-all [] zero h = refl
take-all [] (suc n) h = refl
take-all (x ∷ xs) zero h = absurd (omega arith)
take-all (x ∷ xs) (suc n) h = ap (◌∷◌ x) (take-all xs n (omega arith))

length-error_json :
    (code message : Bytes) → length (error_json code message) ≡ 30 + length code + length message
length-error_json code message = omega (
  arith,
  length-append code (codes ",\"message\":"),
  length-append (error_head code) (message ++ codes "}}"),
  length-append message (codes "}}"),
)

module _ (printf : Printf) where
  set_err-fits :
      (errcode : ℤ) (msg : Bytes)
      → 0 < length msg
      → length (literal true msg) ≤ length msg * 2 - 1
      → set_err printf true errcode msg
        ≡ ngx_ok (
            take
              (length msg + error_overhead)
              (error_json (printf.decimal errcode) (literal true msg)))
  unfolding set_err literal
  set_err-fits errcode [] h fits = absurd (omega arith)
  set_err-fits errcode (c ∷ cs) h fits =
      ap
        (λ e. ngx_ok (
          take (length (c ∷ cs) + error_overhead)
            (error_json (printf.decimal errcode) (or_empty (kept e)))))
        (json_encode_string-literal true [] (length (c ∷ cs) * 2 - 1) (c ∷ cs) fits)

  pub set_err-error_json :
      (errcode : ℤ) (msg : Bytes)
      → IsPlain msg
      → 3 ≤ length msg
      → length (printf.decimal errcode) ≤ 7
      → set_err printf true errcode msg
        ≡ ngx_ok (error_json (printf.decimal errcode) (literal true msg))
  set_err-error_json errcode msg plain h few =
      let n = length-literal_plain msg plain in
      set_err-fits errcode msg (omega arith) (omega (arith, n))
      ∙ ap ngx_ok (
          take-all (error_json (printf.decimal errcode) (literal true msg))
            (length msg + error_overhead)
            (omega (arith, n, length-error_json (printf.decimal errcode) (literal true msg))))

  -- Where the literal of a message fits the array, and it and the printed code have more than nine
  -- bytes over the length of the message: the error buffer has 39 bytes more than the message, and
  -- is cut short of the whole JSON text.
  pub set_err-cut :
      (errcode : ℤ) (msg : Bytes)
      → length (literal true msg) ≤ length msg * 2 - 1
      → length msg + 9 < length (printf.decimal errcode) + length (literal true msg)
      → (out : Bytes) × (set_err printf true errcode msg ≡ ngx_ok out)
        × (length out ≡ length msg + 39)
        × (length out < length (error_json (printf.decimal errcode) (literal true msg)))
  set_err-cut errcode msg fits long =
      let whole = error_json (printf.decimal errcode) (literal true msg) in
      let total = length-error_json (printf.decimal errcode) (literal true msg) in
      let cut : length (take (length msg + error_overhead) whole) ≡ length msg + 39 =
        omega (arith, total, length-take (length msg + error_overhead) whole) in
      (
        take (length msg + error_overhead) whole,
        set_err-fits errcode msg (omega (arith, literal_quotes msg)) fits,
        cut,
        omega (arith, total, cut),
      )

  -- The answer for a plain message, and how it is read.
  pub set_err-read_json_string :
      (errcode : ℤ) (msg : Bytes)
      → IsPlain msg
      → All (λ b. b < 256) msg
      → 3 ≤ length msg
      → length (printf.decimal errcode) ≤ 7
      → (rest : Bytes) × (set_err printf true errcode msg
          ≡ ngx_ok (error_head (printf.decimal errcode) ++ rest))
        × (read_json_string rest ≡ some (msg, codes "}}"))
  set_err-read_json_string errcode msg plain bytes h few = (
    literal true msg ++ codes "}}",
    set_err-error_json errcode msg plain h few,
    read_json_string-literal true msg (codes "}}") bytes,
  )

abbrev is_none : Option Bytes → Bool
is_none none = true
is_none (some e) = false

is_none-none : (o : Option Bytes) → is_none o ≡ true → o ≡ none
is_none-none none e = refl
is_none-none (some x) e = absurd (true≢false (sym e))

both : (a b : Bool) → (a && b) ≡ true → (a ≡ true) × (b ≡ true)
both true b e = (refl, e)
both false b e = absurd (true≢false (sym e))

below_256 : (ch : ℕ) → ltb ch 256 ≡ true → ch < 256
below_256 ch e = ground arith

-- A test for texts that are written as they stand.
unfoldable pub test_plain : Bytes → Bool
test_plain [] = true
test_plain (ch ∷ msg) = ltb ch 256 && (is_none (escaped true ch) && test_plain msg)

pub test_plain-IsPlain :
    (msg : Bytes) → test_plain msg ≡ true → IsPlain msg × All (λ b. b < 256) msg
unfolding test_plain
test_plain-IsPlain [] e = (tt, tt)
test_plain-IsPlain (ch ∷ msg) e =
    let small = both (ltb ch 256) (is_none (escaped true ch) && test_plain msg) e in
    let plain = both (is_none (escaped true ch)) (test_plain msg) small.1 in
    let rest = test_plain-IsPlain msg plain.1 in
    ((is_none-none (escaped true ch) plain.0, rest.0), (below_256 ch small.0, rest.1))

get_error_text_plain : (e : ErrorIdx) → test_plain (get_error_text e).msg ≡ true
unfolding test_plain get_error_text escaped
get_error_text_plain request_too_large = refl
get_error_text_plain unknown_parse_error = refl
get_error_text_plain http_request_too_large = refl
get_error_text_plain dml_handler_fmt_error = refl
get_error_text_plain dml_handler_fmt_limit_error = refl

get_error_text_long : (e : ErrorIdx) → 3 ≤ length (get_error_text e).msg
unfolding get_error_text
get_error_text_long request_too_large = omega arith
get_error_text_long unknown_parse_error = omega arith
get_error_text_long http_request_too_large = omega arith
get_error_text_long dml_handler_fmt_error = omega arith
get_error_text_long dml_handler_fmt_limit_error = omega arith

module _ (printf : Printf) where
  -- With memory for it, and a code that is printed in at most seven bytes: each of the texts of the
  -- module becomes a buffer that holds the head with the code, the message as a JSON string that is
  -- read back as the message, and both brackets.
  pub get_error_text-set_err :
      (e : ErrorIdx)
      → length (printf.decimal (get_error_text e).code) ≤ 7
      → (rest : Bytes) × (set_err printf true (get_error_text e).code (get_error_text e).msg
          ≡ ngx_ok (error_head (printf.decimal (get_error_text e).code) ++ rest))
        × (read_json_string rest ≡ some ((get_error_text e).msg, codes "}}"))
  get_error_text-set_err e few =
      let p = test_plain-IsPlain (get_error_text e).msg (get_error_text_plain e) in
      set_err-read_json_string printf (get_error_text e).code (get_error_text e).msg p.0 p.1
        (get_error_text_long e) few
