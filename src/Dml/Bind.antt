-- ===== src/Dml/Bind.antt =====
-- ngx_http_tnt_format_bind and ngx_http_tnt_format_bind_operation, with the calls of third_party/tp.h
use mathlib.Core.List.{map}
use mathlib.Core.Option
use nginx_upstream_module.Common.{
  Option, ℕ, Bytes, Bool, none, take, ◌∷◌, if◌then◌else◌, codes, ◌==◌, false, length, some, ◌&&◌,
  ◌++◌, [], ◌||◌, ◌^◌, bytes_eq, true, suc, not, ◌-◌, ◌%◌, List, zero,
}
use nginx_upstream_module.Common.Int.{ℤ, pos, negsuc}
use nginx_upstream_module.Dml.State.{
  TpType, FormatValue, ReqType, Prepared, tp_bool, tp_int, tp_update, tp_double, tp_upsert,
  tp_float, other_type, tp_str,
}
use nginx_upstream_module.TpToJson.Codec.{up_to_zero}
use nginx_upstream_module.Url.{tolower}

-- that they make.

-- A call on the request that is being written.
pub data TpCall : Type 0 where
  updatebegin : ℕ → TpCall
  upsertbegin_add_ops : ℕ → TpCall
  op : ℕ → ℕ → TpCall
  encode_bool : Bool → TpCall
  encode_int : ℤ → TpCall
  encode_uint : ℕ → TpCall
  encode_double : ℕ → TpCall
  encode_str : Bytes → TpCall

-- The call, NGX_HTTP_BAD_REQUEST with its text, or NGX_ERROR.
pub data Result (A : Type 0) : Type 0 where
  ngx_ok : A → Result A
  bad_request : Bytes → Result A
  ngx_error : Result A

unfoldable pub and_then : {A B : Type 0} → Result A → (A → Result B) → Result B
and_then (ngx_ok a) next = next a
and_then (bad_request text) next = bad_request text
and_then ngx_error next = ngx_error

-- ngx_http_tnt_read_next: the bytes before the separator and those behind it.
unfoldable pub read_next : ℕ → Bytes → Option (Bytes × Bytes)
read_next sep [] = none
read_next sep (b ∷ bs) =
    let rest = read_next sep bs in
    if b == sep then some ([], bs) else Option.map (λ r. (b ∷ (r.0), r.1)) rest

-- The text of ngx_http_tnt_format_bind_bad_request, in 64 bytes with the last one for the zero.
unfoldable pub invalid : Bytes → Bytes → Bytes
invalid name msg = take 63 (codes "'" ++ (up_to_zero name ++ (codes "' is invalid. " ++ msg)))

-- `switch (*update_operation)`. The byte behind what is empty is taken to be a comma.
unfoldable pub is_operation : Bytes → Bool
is_operation [] = false
is_operation (b ∷ bs) =
    b == b'='
    || (b == b'!'
        || (b == b'+' || (b == b'-' || (b == b'&' || (b == b'^' || (b == b'|' || b == b'#'))))))

abbrev pub first_byte : Bytes → ℕ
first_byte [] = b','
first_byte (b ∷ bs) = b

-- What atoi, atoll and atof of the C library and ngx_atoi make of a text; a double is its 64 bits,
-- `as_float` is a cast to float and back.
pub record Readers : Type 0 where
  pub ngx_atoi : Bytes → Option ℕ
  pub atoll : Bytes → ℤ
  pub atof : Bytes → ℕ
  pub as_float : ℕ → ℕ

-- `char num_buf[16]` after `snprintf(num_buf, sizeof(num_buf), "%.*s", ...)`.
unfoldable pub num_buf : Bytes → Bytes
num_buf value = take 15 (up_to_zero value)

-- A cast of an int64_t to uint64_t.
abbrev pub to_u64 : ℤ → ℕ
to_u64 (pos n) = n
to_u64 (negsuc n) = 2 ^ 64 - 1 - n

-- ngx_strncasecmp of a value with a name of the same length.
unfoldable pub is_word : Bytes → Bytes → Bool
is_word value word = length value == length word && bytes_eq (map tolower value) word

module _ (c : Readers) where
  unfoldable pub number_call : Bytes → TpCall
  number_call value =
      if first_byte value == b'-'
      then encode_int (c.atoll (num_buf value))
      else encode_uint (to_u64 (c.atoll (num_buf value)))

  -- What a value of a type is encoded by; `none` where a boolean is neither true nor false.
  unfoldable pub value_call : TpType → Bytes → Option TpCall
  value_call tp_bool value =
      if is_word value (codes "true")
      then some (encode_bool true)
      else if is_word value (codes "false")
      then some (encode_bool false)
      else none
  value_call tp_int value = some (number_call value)
  value_call tp_double value = some (encode_double (c.atof (num_buf value)))
  value_call tp_float value = some (encode_double (c.as_float (c.atof (num_buf value))))
  value_call tp_str value = some (encode_str value)

  -- The number of a field counts from one.
  abbrev pub field_of : Bytes → Option ℕ → Option ℕ
  field_of [] n = none
  field_of (b ∷ bs) none = none
  field_of (b ∷ bs) (some zero) = none
  field_of (b ∷ bs) (some (suc n)) = some (n % 2 ^ 32)

  -- Behind the operation: its call and what is left of the value.
  abbrev pub fieldno : Bytes → ℕ → Option (Bytes × Bytes) → Result (TpCall × Bytes)
  fieldno name operation none = bad_request (invalid name (codes "Fieldno is expecting"))
  fieldno name operation (some (field, rest)) = elim (field_of field (c.ngx_atoi field)) [
    | none ↦ bad_request (invalid name (codes "Fieldno is expecting"))
    | some n ↦ ngx_ok (op operation n, rest)
  ]

  abbrev pub operation : Bytes → Option (Bytes × Bytes) → Result (TpCall × Bytes)
  operation name none = bad_request (invalid name (codes "Operation type is expecting"))
  operation name (some (o, rest)) =
      if is_operation o
      then fieldno name (first_byte o) (read_next b',' rest)
      else bad_request (invalid name (codes "Operation type is expecting"))

  -- ngx_http_tnt_format_bind_operation, but for the call itself.
  unfoldable pub bind_operation : Bytes → Bytes → Result (TpCall × Bytes)
  bind_operation name value = operation name (read_next b',' value)

module _ {A : Type 0} (c : Readers) (call : TpCall → A → Option A) (error_memory : Bool) where
  -- `goto oom` where the call gives NULL.
  abbrev pub issued : Option A → Result A
  issued none = ngx_error
  issued (some tp) = ngx_ok tp

  abbrev pub issue : TpCall → A → Result A
  issue k tp = issued (call k tp)

  -- Without memory for its text a bad request is NGX_ERROR.
  abbrev pub failing : {B : Type 0} → Result B → Result B
  failing (ngx_ok b) = ngx_ok b
  failing (bad_request text) = if error_memory then bad_request text else ngx_error
  failing ngx_error = ngx_error

  -- The request, and whether the operations have begun: `update_started` or
  -- `upsert_add_ops_started`, of which a type of request has one.
  abbrev pub Binding : Type 0
  Binding = A × Bool

  -- Where the operations begin with this value.
  unfoldable pub begin : Bool → TpCall → Binding → Result Binding
  begin starts k (tp, started) =
      if starts && not started
      then and_then (issue k tp) (λ tp'. ngx_ok (tp', true))
      else ngx_ok (tp, started)

  -- The operation in front of a value, once they have begun; what is left of the value follows.
  unfoldable pub with_operation : Bool → Bytes → Bytes → A → Result (A × Bytes)
  with_operation wanted name value tp =
      if wanted
      then and_then (failing (bind_operation c name value))
          (λ o. and_then (issue (o.0) tp) (λ tp'. ngx_ok (tp', o.1)))
      else ngx_ok (tp, value)

  unfoldable pub encoded : FormatValue → Bytes → A → Result A
  encoded v value tp = elim (value_call c v.type value) [
    | none ↦ failing (bad_request (invalid v.name (codes "True/False is expecting.")))
    | some k ↦ issue k tp
  ]

  -- The rest of the loop's body, behind the beginning of the operations.
  unfoldable pub bind_rest : Bool → FormatValue → Bytes → Bool → A → Result Binding
  bind_rest wanted v value started tp =
      and_then (with_operation wanted v.name value tp)
        (λ o. and_then (encoded v (o.1) (o.0)) (λ tp'. ngx_ok (tp', started)))

  -- One value that is bound.
  unfoldable pub bind_value : ReqType → Prepared → FormatValue → Bytes → Binding → Result Binding
  bind_value tp_update p v value b =
      and_then (begin (not v.update_key) (updatebegin (p.tuples_count % 2 ^ 32)) b)
        (λ s. bind_rest (s.1) v value (s.1) (s.0))
  bind_value tp_upsert p v value b =
      and_then (begin v.upsert_op (upsertbegin_add_ops (p.upsert_tuples_count % 2 ^ 32)) b)
        (λ s. bind_rest v.upsert_op v value (s.1) (s.0))
  bind_value other_type p v value (tp, started) = bind_rest false v value started tp

  -- Values that are not bound are skipped.
  unfoldable pub bind_slot :
      ReqType → Prepared → FormatValue → Option Bytes → Binding → Result Binding
  bind_slot type p v none b = ngx_ok b
  bind_slot type p v (some value) b = bind_value type p v value b

  unfoldable pub bind_values : ReqType → Prepared → List FormatValue → Binding → Result Binding
  bind_values type p [] b = ngx_ok b
  bind_values type p (v ∷ vs) b =
      and_then (bind_slot type p v v.value b) (λ b'. bind_values type p vs b')

  unfoldable pub format_bind : ReqType → Prepared → A → Result A
  format_bind type p tp =
      and_then (bind_values type p p.format_values (tp, false)) (λ b. ngx_ok (b.0))
