-- ===== src/Handlers.antt =====
-- The request handlers of src/ngx_http_tnt_module.c and the errors that they report.
pub mod Errors
pub mod Context
pub mod Body
pub mod Pieces
pub mod Batches
pub mod Event
pub mod Texts
pub mod Refusals
pub mod Retry
mod Sample
mod Tests
pub mod Answer
use nginx_upstream_module.Common.{
  Bytes, codes, ℕ, Bool, ◌++◌, ◌∷◌, if◌then◌else◌, [], some, take, length, ◌*◌, ◌+◌, ◌-◌, true,
}
use nginx_upstream_module.Common.Int.{ℤ, minus, pos}
use nginx_upstream_module.JsonString.{json_encode_string, done, oom, invalid_arguments, Encoded}

-- enum ngx_http_tnt_error_idx.
pub data ErrorIdx : Type 0 where
  request_too_large unknown_parse_error http_request_too_large : ErrorIdx
  dml_handler_fmt_error dml_handler_fmt_limit_error : ErrorIdx

-- ngx_http_tnt_error_t.
pub record ErrorText : Type 0 where
  pub msg : Bytes
  pub code : ℤ

abbrev too_large : Bytes → ErrorText
too_large setting = record {
  msg =
      codes "Request is too large, consider increasing your server's setting '"
      ++ (setting ++ (b'\'' ∷ []));
  code = minus 32001;
}

unfoldable pub get_error_text : ErrorIdx → ErrorText
get_error_text request_too_large = too_large (codes "client_body_buffer_size")
get_error_text unknown_parse_error = record {
  msg = codes "Unknown parse error";
  code = minus 32002;
}
get_error_text http_request_too_large = too_large (codes "tnt_pass_http_request_buffer_size")
get_error_text dml_handler_fmt_error = record {
  msg = codes "The input has been mismatched by the format";
  code = pos 400;
}
get_error_text dml_handler_fmt_limit_error = record {
  msg =
      codes "The input has been reached limits, consider increasing server's settings "
      ++ codes "'tnt_select_limit_max', 'tnt_allowed_spaces', 'tnt_allowed_indexes'";
  code = pos 405;
}

-- What `%d` prints.
pub record Printf : Type 0 where
  pub decimal : ℤ → Bytes

-- NGX_OK with the buffer that `in_err` is set to, NGX_ERROR, or a write over the stack: an empty
-- message gives an empty array `escaped_msg`, and one less than its size is the greatest size_t.
pub data SetErr : Type 0 where
  ngx_ok : Bytes → SetErr
  ngx_error : SetErr
  overrun : SetErr

-- What stands before the zeroes that the array is filled with beforehand; a literal that was not finished is put
-- away by a zero at its front.
abbrev pub kept : Encoded → Bytes
kept (done c) = c.out
kept (oom c) = []
kept invalid_arguments = []

abbrev pub escaped_msg : Bytes → Bytes
escaped_msg msg = kept (json_encode_string (some []) (length msg * 2 - 1) (some msg) true)

abbrev pub or_empty : Bytes → Bytes
or_empty [] = codes "\"\""
or_empty (c ∷ cs) = c ∷ cs

-- The length of `{'error':{'message':'','code':-XXXXX}}` and of the zero behind it.
abbrev pub error_overhead : ℕ
error_overhead = 39

-- What ngx_snprintf is asked to print.
abbrev pub error_head : Bytes → Bytes
error_head code = codes "{\"error\":{\"code\":" ++ (code ++ codes ",\"message\":")

abbrev pub error_json : Bytes → Bytes → Bytes
error_json code message = error_head code ++ (message ++ codes "}}")

module _ (printf : Printf) where
  -- `memory` is that of the buffer; ngx_snprintf stops where the buffer ends.
  unfoldable pub set_err : Bool → ℤ → Bytes → SetErr
  set_err memory errcode [] = if memory then overrun else ngx_error
  set_err memory errcode (c ∷ cs) =
      if memory
      then ngx_ok (
          take (length (c ∷ cs) + error_overhead)
            (error_json (printf.decimal errcode) (or_empty (escaped_msg (c ∷ cs)))))
      else ngx_error

-- ngx_http_tnt_overhead: the length of `[{'error': {'code':-XXXXX,'message':''},{ 'result': [[]],`
-- `'id': 1867996680 }}` and of the zero behind it.
abbrev pub overhead : ℕ
overhead = 77
