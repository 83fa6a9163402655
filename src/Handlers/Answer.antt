-- ===== src/Handlers/Answer.antt =====
-- ngx_http_tnt_output_err: the answer to a request that was refused.
use nginx_upstream_module.Common.{
  ℕ, Bool, List, Option, Bytes, some, length, true, if◌then◌else◌, ◌++◌, ◌∷◌, [], none,
}

-- What is set of the upstream and of its state; `out_bufs` are the buffers that are sent.
pub record Upstream : Type 0 where
  pub status_n : ℕ
  pub state_status : ℕ
  pub content_length_n : ℕ
  pub length_is_zero : Bool
  pub out_bufs : List Bytes

-- `memory` is that of a link. In the second place stands NGX_ERROR.
pub data Answered : Type 0 where
  ngx_ok : Upstream → Answered
  ngx_error : Upstream → Answered

unfoldable pub output_err : Bool → ℕ → Upstream → Option Bytes → Answered
output_err memory code u none =
    Answered.ngx_ok (record u { status_n = 500; state_status = 500; content_length_n = 0 })
output_err memory code u (some e) =
    let set = record u {
      status_n = code;
      state_status = code;
      content_length_n = length e;
      length_is_zero = true;
    } in
    if memory
    then Answered.ngx_ok (record set { out_bufs = u.out_bufs ++ (e ∷ []) })
    else Answered.ngx_error set
