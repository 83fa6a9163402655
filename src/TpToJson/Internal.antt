-- ===== src/TpToJson/Internal.antt =====
-- tp2json_transcode_internal.
use nginx_upstream_module.Common.{
  ℕ, Bytes, Bool, List, [], if◌then◌else◌, suc, ◌&&◌, ltb, ◌∷◌, some, codes, ◌+◌, ◌++◌, false, ◌==◌,
  true, zero, ◌/◌, ◌%◌, ◌-◌, ◌^◌,
}
use nginx_upstream_module.TpToJson.State.{
  Writer, Token, Printed, printed, failed, no_fuel, append, no_memory, print, and_then, nil, ext,
  bool, uint, int, float, double, str, bin, array, map, say_error, encoder_no_memory,
  encoder_bad_arguments, Formats,
}
use nginx_upstream_module.Common.Int.{ℤ, pos, negsuc}
use nginx_upstream_module.JsonString.{json_encode_string, done, oom, invalid_arguments}

-- The digits that snprintf writes for PRIu64, as it is documented; twenty are enough.
unfoldable pub decimal_of : ℕ → ℕ → Bytes
decimal_of zero n = []
decimal_of (suc digits) n = elim (ltb n 10) [
  | true ↦ (b'0' + n) ∷ []
  | false ↦ decimal_of digits (n / 10) ++ ((b'0' + n % 10) ∷ [])
]

abbrev pub decimal : ℕ → Bytes
decimal n = decimal_of 20 n

-- The same for PRId64.
abbrev pub signed_decimal : ℤ → Bytes
signed_decimal (pos n) = decimal n
signed_decimal (negsuc n) = b'-' ∷ decimal (n + 1)

-- A number is quoted where it is a key.
abbrev pub number_text : Writer → Bytes → Bytes
number_text w digits = if w.in_map && w.in_key then b'"' ∷ (digits ++ (b'"' ∷ [])) else digits

abbrev pub print_number : Writer → Bytes → List Token → Printed
print_number w digits ts = if ltb w.room 20 then no_memory w else print w (number_text w digits) ts

-- MP_STR and MP_BIN.
unfoldable pub print_string : Writer → Bytes → List Token → Printed
print_string w s ts = elim (json_encode_string (some w.out) w.room (some s) false) [
  | done c ↦ printed (record w { out = c.out; room = c.room }) ts
  | oom c ↦ failed (say_error (record w { out = c.out; room = c.room }) encoder_no_memory)
  | invalid_arguments ↦ failed (say_error w encoder_bad_arguments)
]

-- A comma stands before each element but the first.
abbrev pub separate : Bool → Writer → ℕ → (Writer → ℕ → Printed) → Printed
separate first w len then_ = if first then then_ w len else append w len (b',' ∷ []) then_

-- The loop over `size` elements and the closing bracket, with the caller's `len`.
unfoldable pub print_items :
    (Writer → List Token → Printed) → ℕ → Bool → Writer → ℕ → List Token → Printed
print_items inner zero first w len ts = append w len (b']' ∷ []) (λ w' len'. printed w' ts)
print_items inner (suc size) first w len ts =
    separate first w len
      (λ w' len'. and_then (inner w' ts) (λ w'' ts'. print_items inner size false w'' len' ts'))

-- The loop over `size` keys and values, the closing bracket, and `state &= ~TYPE_MAP`.
unfoldable pub print_fields :
    (Writer → List Token → Printed) → ℕ → Bool → Writer → ℕ → List Token → Printed
print_fields inner zero first w len ts =
    append w len (b'}' ∷ []) (λ w' len'. printed (record w' { in_map = false }) ts)
print_fields inner (suc size) first w len ts = separate first w len (λ w' len'.
    and_then (inner (record w' { in_key = true }) ts) (λ k ts'.
      append (record k { in_key = false }) len' (b':' ∷ [])
        (λ k' len''.
          and_then (inner k' ts') (λ v ts''. print_fields inner size false v len'' ts''))))

module _ (f : Formats) where
  -- The switch, with the call of itself for what stands in an array or in a map.
  unfoldable pub print_token :
      (Writer → List Token → Printed) → Writer → Token → List Token → Printed
  print_token inner w nil ts = append w w.room (codes "null") (λ w' len. printed w' ts)
  print_token inner w (uint n) ts = print_number w (decimal n) ts
  print_token inner w (int n) ts = print_number w (signed_decimal n) ts
  print_token inner w (str s) ts = print_string w s ts
  print_token inner w (bin s) ts = print_string w s ts
  print_token inner w (array size) ts =
      if ltb 0 w.multireturn_skiped
      then inner (record w { multireturn_skiped = w.multireturn_skiped - 1 }) ts
      else if ltb w.room ((size + 2) % 2 ^ 32)
      then no_memory w
      else append w w.room (b'[' ∷ []) (λ w' len. print_items inner size true w' len ts)
  print_token inner w (map size) ts =
      if ltb w.room ((size + 2) % 2 ^ 32)
      then no_memory w
      else append (record w { in_map = true }) w.room (b'{' ∷ [])
          (λ w' len. print_fields inner size true w' len ts)
  print_token inner w (bool b) ts =
      append w w.room (if b then codes "true" else codes "false") (λ w' len. printed w' ts)
  print_token inner w (float bits) ts =
      if ltb w.room 7 then no_memory w else print w (f.format_float bits) ts
  print_token inner w (double bits) ts =
      if ltb w.room 15 then no_memory w else print w (f.format_double bits) ts
  print_token inner w ext ts = printed w ts

  -- Each array and each map costs a unit of fuel.
  unfoldable pub tp2json_transcode_internal : ℕ → Writer → List Token → Printed
  tp2json_transcode_internal zero w ts = no_fuel
  tp2json_transcode_internal (suc fuel) w [] = printed w []
  tp2json_transcode_internal (suc fuel) w (t ∷ ts) =
      if w.room == 0
      then no_memory w
      else print_token (λ w' ts'. tp2json_transcode_internal fuel w' ts') w t ts
