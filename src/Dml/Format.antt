-- ===== src/Dml/Format.antt =====
use mathlib.Core.List.{map}
use mathlib.Core.Option
use nginx_upstream_module.Common.{
  Bool, Bytes, List, Option, some, none, false, not, if◌then◌else◌, ℕ, ◌∷◌, [], ◌||◌, true, length,
  ◌++◌,
}
use nginx_upstream_module.Dml.State.{FormatValue, Conf, Expects, Prepared}
use nginx_upstream_module.Common.Int.{ℤ, is_positive}
use nginx_upstream_module.Dml.Prepare.{Looped, done, prepare_args, denied, no_fuel}
use nginx_upstream_module.Url.{unescape_uri}
use nginx_upstream_module.Dml.Access.{test_allowed}  -- ngx_http_tnt_format_init, the reading of its input, and all of ngx_http_tnt_format_prepare.

-- A buffer of the request's body, and the memory behind its bytes.
pub record BodyBuf : Type 0 where
  pub in_file : Bool
  pub bytes : Bytes
  pub behind : Bytes

-- What is read of a request, and whether there is memory for a copy of the body, for the decoded
-- input, for the values and for the text of an error.
pub record Request : Type 0 where
  pub args : Bytes
  pub content_length_n : ℤ
  pub request_bufs : List BodyBuf
  pub body_memory : Bool
  pub input_memory : Bool
  pub values_memory : Bool
  pub error_memory : Bool

-- The body as it is copied; a buffer in a file is an error.
unfoldable pub unparsed_body : List BodyBuf → Option Bytes
unparsed_body [] = some []
unparsed_body (b ∷ bs) =
    let rest = unparsed_body bs in if b.in_file then none else Option.map (λ r. b.bytes ++ r) rest

abbrev pub unescaped_input : Bool → Option Bytes → Option Bytes
unescaped_input memory none = none
unescaped_input memory (some src) = unescape_uri memory src

-- A request with a body is read from there, all others from the arguments of the URL; `none` is
-- NGX_ERROR.
unfoldable pub format_read_input : Request → Option Bytes
format_read_input r = elim (is_positive r.content_length_n) [
  | true ↦
      if r.body_memory then unescaped_input r.input_memory (unparsed_body r.request_bufs) else none
  | false ↦ unescape_uri r.input_memory r.args
]

abbrev pub no_value : FormatValue → FormatValue
no_value v = record v { value = none }

abbrev pub initial : Conf → List FormatValue → Prepared
initial c vs = record {
  limit = c.select_limit;
  offset = c.select_offset;
  index_id = c.index_id;
  space_id = c.space_id;
  iter_type = c.iter_type;
  tuples_count = 0;
  update_keys_count = 0;
  upsert_tuples_count = 0;
  format_values = map no_value vs;
}

abbrev pub with_input : Prepared → Option Bytes → Option (Prepared × Bytes)
with_input p none = none
with_input p (some input) = some (p, input)

abbrev pub init_values : Conf → Request → Option (List FormatValue) → Option (Prepared × Bytes)
init_values c r none = some (initial c [], [])
init_values c r (some vs) =
    if r.values_memory then with_input (initial c vs) (format_read_input r) else none

-- What is prepared and the input, which is empty without a format; `none` is NGX_ERROR.
unfoldable pub format_init : Conf → Request → Option (Prepared × Bytes)
format_init c r = init_values c r c.format_values

abbrev pub is_given : Bytes → Bool
is_given [] = false
is_given (b ∷ bs) = true

abbrev pub expected : Conf → Expects
expected c = record {
  limit = is_given c.limit_name;
  offset = is_given c.offset_name;
  iter_type = is_given c.iter_type_name;
  space_id = is_given c.space_id_name;
  index_id = is_given c.index_id_name;
}

-- `expects == NOTHING`.
abbrev pub nothing : Expects → Bool
nothing e = not (e.limit || (e.offset || (e.iter_type || (e.space_id || e.index_id))))

-- NGX_OK, NGX_HTTP_BAD_REQUEST, NGX_HTTP_NOT_ALLOWED or NGX_ERROR.
pub data Outcome : Type 0 where
  ngx_ok : Prepared → Outcome
  bad_request : Outcome
  not_allowed : Outcome
  ngx_error : Outcome
  out_of_fuel : Outcome

-- Without memory for its text an error is NGX_ERROR.
abbrev pub refused : Bool → Outcome → Outcome
refused memory o = if memory then o else ngx_error

-- What follows the loop.
unfoldable pub decided : Bool → Conf → Looped → Outcome
decided memory c (done p e) =
    if not (test_allowed c.allowed_spaces p.space_id)
    then refused memory not_allowed
    else if not (test_allowed c.allowed_indexes p.index_id)
    then refused memory not_allowed
    else if nothing e
    then ngx_ok p
    else refused memory bad_request
decided memory c denied = refused memory not_allowed
decided memory c no_fuel = out_of_fuel

module _ (ngx_atoi : Bytes → Option ℕ) (memory_behind : Bytes) (c : Conf) where
  unfoldable pub format_prepare : Bool → Prepared → Bytes → Outcome
  format_prepare memory p input =
      decided memory c (prepare_args ngx_atoi memory_behind c (length input) input p (expected c))

  abbrev pub prepare_from : Bool → Option (Prepared × Bytes) → Outcome
  prepare_from memory none = ngx_error
  prepare_from memory (some (p, input)) = format_prepare memory p input

  -- One after the other, as the handler of these requests calls them.
  unfoldable pub format_request : Request → Outcome
  format_request r = prepare_from r.error_memory (format_init c r)
