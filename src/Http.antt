-- ===== src/Http.antt =====
-- The start of a request in src/ngx_http_tnt_module.c: the choice of its method and its handler.
pub mod Method
pub mod Greeting
pub mod Handlers
mod Tests
use nginx_upstream_module.Common.{
  ℕ, Bytes, Bool, Option, ◌∷◌, true, if◌then◌else◌, codes, none, ◌==◌, ltb, not, some, [], length,
  take, false, ◌&&◌, bytes_eq, ◌||◌,
}

-- NGX_OK, NGX_ERROR, NGX_HTTP_BAD_REQUEST and NGX_HTTP_NOT_ALLOWED.
pub data Answer : Type 0 where
  ngx_ok ngx_error bad_request not_allowed : Answer

-- The room for a method: 128 bytes, the last of which stays free.
abbrev pub max_method : ℕ
max_method = 127

-- The loop of ngx_http_tnt_set_method: what stands before the first `/`.
unfoldable pub before_slash : Bytes → Option Bytes
before_slash [] = none
before_slash (c ∷ cs) =
    if c == b'/' then some [] else elim (before_slash cs) [ none ↦ none | some s ↦ some (c ∷ s) ]

abbrev pub skip_slash : Bytes → Bytes
skip_slash [] = []
skip_slash (c ∷ cs) = if c == b'/' then cs else c ∷ cs

-- A text that has no byte.
abbrev pub is_empty : Bytes → Bool
is_empty [] = true
is_empty (c ∷ cs) = false

-- `!ctx->preset_method[0]`
abbrev pub is_unset : Bytes → Bool
is_unset [] = true
is_unset (c ∷ cs) = c == 0

-- What the loop leaves in `preset_method`, which was empty.
unfoldable pub set_from_segment : Bytes → Bytes
set_from_segment start = elim (before_slash start) [ none ↦ [] | some s ↦ take max_method s ]

-- ngx_http_tnt_set_method on a context that was just reset: the preset method up to its length,
-- `none` on an error. `rest` says that the request's verb is one of `http_rest_methods`; an empty
-- `method` or `uri` stands for one that is NULL too.
unfoldable pub set_method : Bytes → Bool → Bytes → Option Bytes
set_method method rest uri =
    if not (is_empty method)
    then some (take max_method method)
    else if rest
    then (if is_empty uri
        then none
        else if is_unset (set_from_segment (skip_slash uri))
        then (if is_empty (skip_slash uri) then none else some (take max_method (skip_slash uri)))
        else some (set_from_segment (skip_slash uri)))
    else some []

-- ngx_http_tnt_str_match.
abbrev pub str_match : Bytes → Bytes → Bool
str_match a b = if not (length a == length b) then false else bytes_eq a b

-- The handlers for `create_request`.
pub data Handler : Type 0 where
  query_handler dml_handler body_handler : Handler

-- What ngx_http_tnt_init_handlers reads: the location's method, verbs, kind of request and
-- NGX_TNT_CONF_PASS_BODY; the URI, the content type, `[]` for none, and whether
-- `content_length_n` is above 0.
pub record Incoming : Type 0 where
  pub method : Bytes
  pub rest : Bool
  pub req_type : ℕ
  pub pass_body : Bool
  pub uri : Bytes
  pub content_type : Bytes
  pub has_content : Bool

abbrev pub urlencoded : Bytes
urlencoded = codes "application/x-www-form-urlencoded"

-- The handler and the preset method, or the answer.
pub data Chosen : Type 0 where
  handled : Handler → Bytes → Chosen
  answered : Answer → Chosen

-- What follows once the method is known.
unfoldable pub create_request_for : Incoming → Bytes → Chosen
create_request_for r method =
    if ltb 0 r.req_type
    then (if ltb 0 (length r.content_type)
          && (not (str_match r.content_type urlencoded)
              || not (str_match r.content_type urlencoded))
        then answered not_allowed
        else handled dml_handler method)
    else if r.pass_body
    then handled query_handler method
    else if r.has_content
    then handled body_handler method
    else handled query_handler method

-- `memory` says that a context could be allocated.
unfoldable pub init_handlers : Bool → Incoming → Chosen
init_handlers memory r =
    if not memory then answered ngx_error else elim (set_method r.method r.rest r.uri) [
      | none ↦ answered bad_request
      | some method ↦ create_request_for r method
    ]
