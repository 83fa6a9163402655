-- ===== src/Pass.antt =====
-- What of an HTTP request is passed on to Tarantool, in src/ngx_http_tnt_module.c:
-- ngx_http_tnt_copy_headers, ngx_http_tnt_get_request_data and ngx_http_tnt_get_request_data_map.
pub mod Writes
pub mod Entries
pub mod Text
pub mod Parts
pub mod Requests
pub mod Query
mod Tests
use nginx_upstream_module.Common.{
  Bytes, Bool, ◌+◌, List, ℕ, ◌∷◌, if◌then◌else◌, Option, codes, false, leb, length, ◌&&◌, some,
  none, true, [], replicate, ◌==◌,
}
use nginx_upstream_module.Tp.{
  Tp, Attempt, TpLib, Item, tp_encode_str_map_item, ok, poke, str, be32, reserve_add, null,
  assert_failed,
}
use nginx_upstream_module.Url.Query.{
  Encoding, encode_str_map_item, encode_query_args, encode_urlencoded_body,
}
use nginx_upstream_module.Common.Int.{ℤ, is_positive, pos, negsuc}
use nginx_upstream_module.Dml.Format.{BodyBuf, unparsed_body}

-- A header of the request. The parts of nginx's list stand one behind the other.
pub record Header : Type 0 where
  pub key : Bytes
  pub value : Bytes

-- What is read of the request. `content_length_n` is the length of a body that nginx has read.
pub record HttpRequest : Type 0 where
  pub http_protocol : Bytes
  pub method_name : Bytes
  pub uri : Bytes
  pub unparsed_uri : Bytes
  pub args : Bytes
  pub headers_in : List Header
  pub headers_out : List Header
  pub content_length_n : ℤ
  pub request_bufs : List BodyBuf

-- The bits of `pass_http_request` that are read here.
pub record PassConf : Type 0 where
  pub parse_args : Bool
  pub unescape : Bool
  pub pass_body : Bool
  pub pass_headers_out : Bool
  pub parse_urlencoded : Bool
  pub pass_subrequest_uri : Bool

-- Memory for what is decoded, and for a copy of the body.
pub record Memory : Type 0 where
  pub decoded : Bool
  pub body : Bool

-- NGX_OK with the request and a count of items, NGX_ERROR, a failed assertion of the library, or the
-- position moved behind the end of the buffer.
pub data Passing : Type 0 where
  done : Tp → ℕ → Passing
  ngx_error : Passing
  died : Passing
  past_end : Passing

-- A part of the function, on the request and the items counted so far.
abbrev pub Step : Type 0
Step = Tp → ℕ → Passing

abbrev pub and_then : Passing → Step → Passing
and_then (done tp n) next = next tp n
and_then ngx_error next = ngx_error
and_then died next = died
and_then past_end next = past_end

infixr 5 ◌>>◌
abbrev pub ◌>>◌ : Step → Step → Step
(s >> next) tp n = and_then (s tp n) next

abbrev pub when : Bool → Step → Step
when true s tp n = s tp n
when false s tp n = done tp n

-- `++root_items`
abbrev pub count : Step
count tp n = done tp (n + 1)

-- An item of the outer map.
abbrev pub entry : Step → Step
entry s = count >> s

-- NULL is NGX_ERROR.
abbrev pub attempted : Attempt → ℕ → Passing
attempted (ok tp) n = done tp n
attempted null n = ngx_error
attempted assert_failed n = died

abbrev pub encoded : Encoding → Passing
encoded (Encoding.ngx_ok tp n) = done tp n
encoded Encoding.ngx_error = ngx_error
encoded Encoding.died = died

-- `request_bufs` is not NULL.
abbrev pub has_bufs : List BodyBuf → Bool
has_bufs [] = false
has_bufs (b ∷ bs) = true

-- Whether a text has the announced length, or at most one byte more.
unfoldable pub is_length : ℤ → Bytes → Bool
is_length (pos n) text = n == length text
is_length (negsuc n) text = false

unfoldable pub is_within : ℤ → Bytes → Bool
is_within (pos n) text = leb (length text) (n + 1)
is_within (negsuc n) text = false

module _ (lib : TpLib) where
  abbrev pub put : Item → Step
  put i tp n = attempted (lib.tp_encode i tp) n

  abbrev pub put_pair : Bytes → Bytes → Step
  put_pair key value tp n = attempted (tp_encode_str_map_item lib tp key value) n

  -- `*(map_place++) = tag; *(uint32_t *) map_place = mp_bswap_u32(items);`
  abbrev pub fill : ℕ → ℕ → ℕ → Passing → Passing
  fill tag place n (done tp items) =
      done (record tp { out = poke tp.out place (tag ∷ be32 items) }) n
  fill tag place n ngx_error = ngx_error
  fill tag place n died = died
  fill tag place n past_end = past_end

  -- Five bytes are taken by tp_add, which does not look for room, and are filled once the items
  -- behind them are counted. With less than five bytes of room the position is behind the end,
  -- where tp_ensure finds room without end, since it counts in a size_t.
  unfoldable pub counted_items : ℕ → Step → Step
  counted_items tag inside tp n =
      if leb 5 tp.room
      then fill tag (length tp.out) n
          (and_then (attempted (lib.tp_add tp (replicate 5 0)) 0) inside)
      else past_end

  unfoldable pub copy_headers : List Header → Step
  copy_headers [] tp n = done tp n
  copy_headers (h ∷ hs) tp n =
      and_then (attempted (tp_encode_str_map_item lib tp h.key h.value) (n + 1)) (copy_headers hs)

  module _ (c : PassConf) (memory : Memory) (r : HttpRequest) where
    abbrev pub chosen_uri : Bytes
    chosen_uri = if c.pass_subrequest_uri then r.uri else r.unparsed_uri

    abbrev pub put_uri : Step
    put_uri tp n =
        encoded (encode_str_map_item lib c.unescape memory.decoded tp n (codes "uri") chosen_uri)

    abbrev pub put_args : Step
    put_args tp n =
        encoded (encode_query_args lib c.unescape memory.decoded (length r.args) tp n r.args)

    abbrev pub put_headers : Step
    put_headers = copy_headers r.headers_in >> when c.pass_headers_out (copy_headers r.headers_out)

    -- `content_length_n > 0 && request_bufs`
    abbrev pub has_body : Bool
    has_body = is_positive r.content_length_n && has_bufs r.request_bufs

    -- The copy of the body is made first here: without it the places that were taken are not used.
    -- The copy has room for the announced length and one byte.
    abbrev pub put_urlencoded_from : Option Bytes → Step
    put_urlencoded_from none tp n = ngx_error
    put_urlencoded_from (some text) tp n =
        if is_within r.content_length_n text
        then counted_items 0xdd
            (λ tp' n'.
              encoded
                (encode_urlencoded_body lib c.unescape memory.decoded (length text) tp' n' text))
            tp n
        else past_end

    abbrev pub put_urlencoded : Step
    put_urlencoded tp n =
        put_urlencoded_from (if memory.body then unparsed_body r.request_bufs else none) tp n

    -- The header of a string of the announced length, and the buffers behind it. nginx has read as
    -- many bytes; with any other number the string would not be what its header says.
    abbrev pub put_body_from : Option Bytes → Step
    put_body_from none tp n = ngx_error
    put_body_from (some text) tp n =
        if is_length r.content_length_n text
        then attempted (reserve_add lib tp (lib.item_bytes (str text))) n
        else past_end

    abbrev pub put_body : Step
    put_body tp n = put_body_from (unparsed_body r.request_bufs) tp n

    unfoldable pub root_items : Step
    root_items =
        entry (put_pair (codes "proto") r.http_protocol)
        >> entry (put_pair (codes "method") r.method_name)
        >> entry put_uri
        >> when c.parse_args (entry (put (str (codes "args")) >> counted_items 0xdf put_args))
        >> entry (put (str (codes "headers")) >> counted_items 0xdf put_headers)
        >> when (c.parse_urlencoded && has_body)
            (entry (put (str (codes "args_urlencoded")) >> put_urlencoded))
        >> when (c.pass_body && has_body) (entry (put (str (codes "body")) >> put_body))

    unfoldable pub get_request_data : Tp → Passing
    get_request_data tp = counted_items 0xdf root_items tp 0

    -- The length that tp_add writes stands where the header of the map is written in the end. `none`
    -- is NULL, for want of memory or on an error.
    unfoldable pub get_request_data_map : Bool → ℕ → Passing
    get_request_data_map buf_memory size =
        if buf_memory
        then get_request_data (record (lib.tp_init size) { size = some 0 })
        else ngx_error
