-- ===== src/Dml/Compile.antt =====
use nginx_upstream_module.Dml.State.{
  TpType, ReqType, Conf, FormatValue, tp_int, tp_double, tp_float, tp_str, tp_bool, tp_update,
  tp_upsert, other_type,
}
use nginx_upstream_module.Common.{
  List, Option, Bool, Bytes, [], some, ℕ, none, codes, ◌++◌, true, if◌then◌else◌, drop, ◌∷◌, ◌==◌,
  false, take, ◌+◌, length, ◌-◌, ◌||◌,
}
use nginx_upstream_module.Dml.Access.{strncmp}  -- ngx_http_tnt_format_compile: a format of the configuration as names and types of values.

-- The special values, and a value of a tuple with its bits.
pub data Meaning : Type 0 where
  its_limit its_offset its_iter_type its_space_id its_index_id : Meaning
  value_of : TpType → Meaning
  key_of : TpType → Meaning
  operation_of : TpType → Meaning

-- The tests of `ngx_strncmp` one after the other: the first that holds counts.
unfoldable pub first_meaning : List (Bytes × Meaning) → Bytes → Option Meaning
first_meaning [] text = none
first_meaning ((name, meaning) ∷ rest) text =
    let later = first_meaning rest text in
    if strncmp (length name) text name then some meaning else later

abbrev pub special_names : List (Bytes × Meaning)
special_names =
    (codes "%%lim", its_limit)
    ∷ (codes "%%off", its_offset)
    ∷ (codes "%%it", its_iter_type)
    ∷ (codes "%%space_id", its_space_id)
    ∷ (codes "%%idx_id", its_index_id)
    ∷ (codes "%n", value_of tp_int)
    ∷ (codes "%d", value_of tp_double)
    ∷ (codes "%f", value_of tp_float)
    ∷ (codes "%s", value_of tp_str)
    ∷ (codes "%b", value_of tp_bool)
    ∷ []

-- Keys in an update, and operations in an upsert.
abbrev pub names_for : ReqType → List (Bytes × Meaning)
names_for tp_update =
    (codes "%kn", key_of tp_int)
    ∷ (codes "%kd", key_of tp_double)
    ∷ (codes "%kf", key_of tp_float)
    ∷ (codes "%ks", key_of tp_str)
    ∷ (codes "%kb", key_of tp_bool)
    ∷ []
names_for tp_upsert =
    (codes "%on", operation_of tp_int)
    ∷ (codes "%od", operation_of tp_double)
    ∷ (codes "%of", operation_of tp_float)
    ∷ (codes "%os", operation_of tp_str)
    ∷ (codes "%ob", operation_of tp_bool)
    ∷ []
names_for other_type = []

abbrev pub meaning : ReqType → Bytes → Option Meaning
meaning type text = first_meaning (special_names ++ names_for type) text

-- NGX_CONF_OK, the text about an unknown format, or a comparison with the text at NULL.
pub data Compiled : Type 0 where
  conf_ok : Conf → Compiled
  unknown_format : Compiled
  at_null : Compiled

abbrev pub values_or_none : Option (List FormatValue) → List FormatValue
values_or_none none = []
values_or_none (some vs) = vs

abbrev pub add_value : FormatValue → Conf → Conf
add_value v c = record c { format_values = some (values_or_none c.format_values ++ (v ∷ [])) }

-- The bits that a new element of the array has in its memory: only ever set, never cleared.
module _ (stale_key stale_op : Bool) where
  abbrev pub new_value : Bytes → TpType → FormatValue
  new_value name type = record {
    name = name;
    value = none;
    type = type;
    update_key = stale_key;
    upsert_op = stale_op;
  }

  abbrev pub apply : Bytes → Meaning → Conf → Conf
  apply name its_limit c = record c { limit_name = name }
  apply name its_offset c = record c { offset_name = name }
  apply name its_iter_type c = record c { iter_type_name = name }
  apply name its_space_id c = record c { space_id_name = name }
  apply name its_index_id c = record c { index_id_name = name }
  apply name (value_of type) c = add_value (new_value name type) c
  apply name (key_of type) c = add_value (record (new_value name type) { update_key = true }) c
  apply name (operation_of type) c = add_value (record (new_value name type) { upsert_op = true }) c

  abbrev pub meant : Bytes → Option Meaning → Conf → Compiled
  meant name none c = unknown_format
  meant name (some m) c = conf_ok (apply name m c)

  abbrev pub type_at : ℕ → ℕ → Option ℕ → Option ℕ
  type_at b i none = if b == b'=' then some (i + 1) else none
  type_at b i (some t) = some t

  abbrev pub name_at : ℕ → Option ℕ → ℕ
  name_at i none = i
  name_at i (some n) = n

  -- `i == format->len - 1`.
  abbrev pub is_last : Bytes → Bool
  is_last [] = true
  is_last (b ∷ bs) = false

  module _ (text : Bytes) where
    -- A value from the offset `n`, whose type is at `t`.
    unfoldable pub compile_value : ℕ → Option ℕ → Conf → Compiled
    compile_value n none c = at_null
    compile_value n (some t) c =
        meant (take (t - n) (drop n text)) (meaning c.req_type (drop t text)) c

    abbrev pub compiled : Compiled → (Conf → Compiled) → Compiled
    compiled (conf_ok c) next = next c
    compiled unknown_format next = unknown_format
    compiled at_null next = at_null

    -- The loop at the offset `i`, over the bytes from there on.
    unfoldable pub compile_from : ℕ → Option ℕ → Option ℕ → Bytes → Conf → Compiled
    compile_from i name type [] c = conf_ok c
    compile_from i name type (b ∷ bs) c =
        let n = name_at i name in
        let t = type_at b i type in
        let inside = compile_from (i + 1) (some n) t bs c in
        if b == b'&' || (b == b',' || is_last bs)
        then compiled (compile_value n t c) (λ c'. compile_from (i + 1) none none bs c')
        else inside

  abbrev pub with_values : Conf → Conf
  with_values c = record c { format_values = some (values_or_none c.format_values) }

  abbrev pub format_compile : Conf → Bytes → Compiled
  format_compile c text = compile_from text 0 none none text (with_values c)
