-- ===== src/Dml/Prepare.antt =====
use nginx_upstream_module.Common.{
  Bool, Option, Bytes, false, length, not, some, List, ◌+◌, ℕ, ◌∷◌, ◌==◌, ◌&&◌, none, if◌then◌else◌,
  true, ltb, take, suc, [], drop, ◌-◌, zero, ◌++◌,
}
use nginx_upstream_module.Dml.State.{FormatValue, Prepared, Conf, Expects, IterType}
use nginx_upstream_module.Dml.Access.{set_iter_type, strncmp}
use nginx_upstream_module.Url.{NextArg, get_next_arg}  -- ngx_http_tnt_format_init, ngx_http_tnt_format_prepare and ngx_http_tnt_format_prepare_kv.

-- The kinds of values that are counted apart.
pub data Kind : Type 0 where
  update_keys upsert_tuples tuples : Kind

abbrev pub kind_of : Bool → Bool → Kind
kind_of true upsert_op = update_keys
kind_of false true = upsert_tuples
kind_of false false = tuples

abbrev pub kind : FormatValue → Kind
kind v = kind_of v.update_key v.upsert_op

-- `value.len == 0`, which a value that is bound to nothing has as well.
abbrev pub has_bytes : Option Bytes → Bool
has_bytes none = false
has_bytes (some []) = false
has_bytes (some (b ∷ bs)) = true

unfoldable pub is_named : Bytes → Bytes → Bool
is_named key name = length key == length name && strncmp (length name) key name

-- Whether a value takes what comes under the key.
unfoldable pub is_open : Bytes → FormatValue → Bool
is_open key v = not (has_bytes v.value) && is_named key v.name

abbrev pub put : Bytes → FormatValue → FormatValue
put value v = record v { value = some value }

abbrev pub behind :
    FormatValue → Option (Kind × List FormatValue) → Option (Kind × List FormatValue)
behind v none = none
behind v (some (k, vs)) = some (k, v ∷ vs)

unfoldable pub fill : Bytes → Bytes → List FormatValue → Option (Kind × List FormatValue)
fill key value [] = none
fill key value (v ∷ vs) =
    let rest = fill key value vs in
    if is_open key v then some (kind v, put value v ∷ vs) else behind v rest

abbrev pub count_one : Kind → Prepared → Prepared
count_one update_keys p = record p { update_keys_count = p.update_keys_count + 1 }
count_one upsert_tuples p = record p { upsert_tuples_count = p.upsert_tuples_count + 1 }
count_one tuples p = record p { tuples_count = p.tuples_count + 1 }

abbrev pub filled : Prepared → Option (Kind × List FormatValue) → Prepared
filled p none = p
filled p (some (k, vs)) = record (count_one k p) { format_values = vs }

abbrev pub format_prepare_kv : Bytes → Bytes → Prepared → Prepared
format_prepare_kv key value p = filled p (fill key value p.format_values)

-- The argument that a key is, of those that are still expected.
pub data Argument : Type 0 where
  its_limit its_offset its_iter_type its_space_id its_index_id its_value : Argument

unfoldable pub argument : Conf → Expects → Bytes → Argument
argument c e key =
    if e.limit && is_named key c.limit_name
    then its_limit
    else if e.offset && is_named key c.offset_name
    then its_offset
    else if e.iter_type && is_named key c.iter_type_name
    then its_iter_type
    else if e.space_id && is_named key c.space_id_name
    then its_space_id
    else if e.index_id && is_named key c.index_id_name
    then its_index_id
    else its_value

-- Where the arguments lead: on, or to `not_allowed`.
pub data Step : Type 0 where
  going : Prepared → Expects → Step
  forbidden : Step

-- A number that is read, or the maximum; a larger one is not allowed.
unfoldable pub set_limit : Conf → Option ℕ → Prepared → Expects → Step
set_limit c none p e = going (record p { limit = c.select_limit_max }) e
set_limit c (some n) p e =
    if ltb c.select_limit_max n
    then forbidden
    else going (record p { limit = n }) (record e { limit = false })

abbrev pub set_offset : Option ℕ → Prepared → Expects → Step
set_offset none p e = going p e
set_offset (some n) p e = going (record p { offset = n }) (record e { offset = false })

abbrev pub set_iter : Option IterType → Prepared → Expects → Step
set_iter none p e = going p e
set_iter (some i) p e = going (record p { iter_type = i }) (record e { iter_type = false })

abbrev pub set_space_id : Option ℕ → Prepared → Expects → Step
set_space_id none p e = going p e
set_space_id (some n) p e = going (record p { space_id = n }) (record e { space_id = false })

abbrev pub set_index_id : Option ℕ → Prepared → Expects → Step
set_index_id none p e = going p e
set_index_id (some n) p e = going (record p { index_id = n }) (record e { index_id = false })

-- Where the loop ends.
pub data Looped : Type 0 where
  done : Prepared → Expects → Looped
  denied : Looped
  no_fuel : Looped

abbrev pub resume : (Prepared → Expects → Looped) → Step → Looped
resume k (going p e) = k p e
resume k forbidden = denied

-- ngx_atoi, with `none` for NGX_ERROR, and the memory behind the decoded input, which the names of
-- iterators are compared with too.
module _ (ngx_atoi : Bytes → Option ℕ) (memory_behind : Bytes) (c : Conf) where
  -- An argument by its key and value; `text` is the input from the value on.
  unfoldable pub take_argument : Argument → Bytes → Bytes → Bytes → Prepared → Expects → Step
  take_argument its_limit key value text p e = set_limit c (ngx_atoi value) p e
  take_argument its_offset key value text p e = set_offset (ngx_atoi value) p e
  take_argument its_iter_type key value text p e = set_iter (set_iter_type text) p e
  take_argument its_space_id key value text p e = set_space_id (ngx_atoi value) p e
  take_argument its_index_id key value text p e = set_index_id (ngx_atoi value) p e
  take_argument its_value key value text p e = going (format_prepare_kv key value p) e

  -- The argument at the front of the bytes; without a value it is skipped.
  unfoldable pub prepare_arg : Bytes → NextArg → Prepared → Expects → Step
  prepare_arg bytes arg p e = elim arg.value [
    | none ↦ going p e
    | some v ↦
        let key = take v bytes in
        let text = drop v bytes in
        take_argument (argument c e key) key (take (arg.it - v) text) (text ++ memory_behind) p e
  ]

  unfoldable pub prepare_args : ℕ → Bytes → Prepared → Expects → Looped
  prepare_args fuel [] p e = done p e
  prepare_args zero (b ∷ bs) p e = no_fuel
  prepare_args (suc fuel) (b ∷ bs) p e =
      let arg = get_next_arg (b ∷ bs) in
      resume (prepare_args fuel (drop (arg.it + 1) (b ∷ bs))) (prepare_arg (b ∷ bs) arg p e)
