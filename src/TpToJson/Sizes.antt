-- ===== src/TpToJson/Sizes.antt =====
-- Texts are not empty, and not shorter than the number of values in them.
use nginx_upstream_module.Common.{
  ℕ, [], ◌<◌, length, Bytes, Bool, suc, false, Bool-cases, arith, ltb, ◌+◌, true, inl, ◌≤◌, inr,
  length-append, ◌&&◌, ◌/◌, not, ◌%◌, ◌++◌, ◌∷◌,
}
use nginx_upstream_module.TpToJson.Value.{
  no_values, no_pairs, nil, bool, uint, int, float, double, str, bin, array, map, item, pair, Value,
  text, Values, Pairs, size_values, size_pairs, text_values, text_pairs, comma, has_map, key_text,
}
use nginx_upstream_module.TpToJson.Internal.{decimal_of, decimal, signed_decimal}
use nginx_upstream_module.Common.Int.{ℤ, pos, negsuc}
use nginx_upstream_module.JsonString.Spelling.{literal}
use nginx_upstream_module.TpToJson.State.{Formats}

length-decimal_of : (digits n : ℕ) → 0 < length (decimal_of (suc digits) n)
unfolding decimal_of
length-decimal_of digits n = elim (Bool-cases (ltb n 10)) [
  | inl e ↦ rw (decimal_of, e) (omega arith)
  | inr e ↦
      rw (decimal_of, e)
        (omega (arith, length-append (decimal_of digits (n / 10)) ((b'0' + n % 10) ∷ [])))
]

pub length-decimal : (n : ℕ) → 0 < length (decimal n)
length-decimal n = length-decimal_of 19 n

pub length-signed_decimal : (n : ℤ) → 0 < length (signed_decimal n)
length-signed_decimal (pos n) = length-decimal n
length-signed_decimal (negsuc n) = omega arith

pub length-literal : (s : Bytes) → 0 < length (literal false s)
unfolding literal
length-literal s = omega arith

module _ (f : Formats) where
  pub length-text : (v : Value) → 0 < length (text f v)
  length-text nil = omega arith
  length-text (bool true) = omega arith
  length-text (bool false) = omega arith
  length-text (uint n) = length-decimal n
  length-text (int n) = length-signed_decimal n
  length-text (float d) = f.length-format_float d
  length-text (double d) = f.length-format_double d
  length-text (str s) = length-literal s
  length-text (bin s) = length-literal s
  length-text (array vs) = omega arith
  length-text (map ps) = omega arith

  pub size-text_values :
      (first : Bool) (vs : Values) → size_values vs + 1 ≤ length (text_values f first vs)
  size-text_values first no_values = omega arith
  size-text_values first (item v vs) =
      let t = text f v in
      let more = text_values f false vs in
      omega (
        arith,
        length-append (comma first) (t ++ more),
        length-append t more,
        length-text v,
        size-text_values false vs,
      )

  pub size-text_pairs :
      (first q : Bool) (ps : Pairs) → size_pairs ps + 1 ≤ length (text_pairs f first q ps)
  size-text_pairs first q no_pairs = omega arith
  size-text_pairs first q (pair k v ps) =
      let t = text f v in
      let more = text_pairs f false (q && not (has_map v)) ps in
      omega (
        arith,
        length-append (comma first) (key_text q k ++ (b':' ∷ (t ++ more))),
        length-append (key_text q k) (b':' ∷ (t ++ more)),
        length-append t more,
        size-text_pairs false (q && not (has_map v)) ps,
      )
