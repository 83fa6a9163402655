-- ===== src/Url/Query.antt =====
-- ngx_http_tnt_encode_str_map_item, ngx_http_tnt_encode_query_args and
-- ngx_http_tnt_encode_urlencoded_body: the arguments of a request's URL, and those of its body.
use nginx_upstream_module.Common.{
  none, some, ℕ, Bool, Bytes, Option, ◌∷◌, suc, if◌then◌else◌, some, drop, ◌+◌, [], zero, ltb, ◌-◌,
  take,
}
use nginx_upstream_module.Tp.{null, Tp, TpLib, tp_encode_str_map_item, ok, assert_failed, Item}
use nginx_upstream_module.Url.{NextArg, unescape_uri, get_next_arg}

-- NGX_OK with the request and `args_items`, NGX_ERROR, or a failed assertion of the library.
pub data Encoding : Type 0 where
  ngx_ok : Tp → ℕ → Encoding
  ngx_error : Encoding
  died : Encoding

module _ (lib : TpLib) (unescape : Bool) (memory : Bool) where
  -- The value as it is passed on; without memory for it there is none.
  unfoldable pub passed_value : Bytes → Option Bytes
  passed_value value = if unescape then unescape_uri memory value else some value

  unfoldable pub encode_str_map_item : Tp → ℕ → Bytes → Bytes → Encoding
  encode_str_map_item tp items key value = elim (passed_value value) [
    | none ↦ ngx_error
    | some v ↦ elim (tp_encode_str_map_item lib tp key v) [
      | ok t ↦ ngx_ok t items
      | null ↦ ngx_error
      | assert_failed ↦ died
    ]
  ]

  -- `tp_encode_map(tp, 1) && ngx_http_tnt_encode_str_map_item(...) != NGX_OK`: where there is no
  -- room for the header of the map, the pair is left out, and no error is made of it.
  unfoldable pub encode_map_item : Tp → ℕ → Bytes → Bytes → Encoding
  encode_map_item tp items key value = elim (lib.tp_encode (Item.map 1) tp) [
    | null ↦ ngx_ok tp items
    | assert_failed ↦ died
    | ok t ↦ encode_str_map_item t items key value
  ]

-- What one argument adds: nothing without a value, or with an empty one. The count of the items is
-- raised before the item is encoded; of an error only the error is passed on.
unfoldable pub encode_arg :
    (Tp → ℕ → Bytes → Bytes → Encoding) → Tp → ℕ → Bytes → NextArg → Encoding
encode_arg item tp items bytes arg = elim arg.value [
  | none ↦ ngx_ok tp items
  | some v ↦
      if ltb 0 (arg.it - v)
      then item tp (items + 1) (take (v - 1) bytes) (take (arg.it - v) (drop v bytes))
      else ngx_ok tp items
]

abbrev pub and_next : Encoding → (Tp → ℕ → Encoding) → Encoding
and_next (ngx_ok tp items) next = next tp items
and_next ngx_error next = ngx_error
and_next died next = died

-- The loop of both functions, on fuel, over the bytes from `arg.it` on.
unfoldable pub encode_args : (Tp → ℕ → Bytes → Bytes → Encoding) → ℕ → Tp → ℕ → Bytes → Encoding
encode_args item fuel tp items [] = ngx_ok tp items
encode_args item zero tp items (b ∷ bs) = ngx_error
encode_args item (suc fuel) tp items (b ∷ bs) =
    let arg = get_next_arg (b ∷ bs) in
    and_next (encode_arg item tp items (b ∷ bs) arg)
      (λ tp' items'. encode_args item fuel tp' items' (drop (arg.it + 1) (b ∷ bs)))

module _ (lib : TpLib) (unescape : Bool) (memory : Bool) where
  -- The arguments of the URL, each as a key and a value.
  abbrev pub encode_query_args : ℕ → Tp → ℕ → Bytes → Encoding
  encode_query_args fuel tp items bytes =
      encode_args (encode_str_map_item lib unescape memory) fuel tp items bytes

  -- The arguments of a body, each as a map of its own.
  abbrev pub encode_urlencoded_body : ℕ → Tp → ℕ → Bytes → Encoding
  encode_urlencoded_body fuel tp items bytes =
      encode_args (encode_map_item lib unescape memory) fuel tp items bytes
