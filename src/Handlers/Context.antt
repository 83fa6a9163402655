-- ===== src/Handlers/Context.antt =====
-- ngx_http_tnt_ctx_t over its life: ngx_http_tnt_create_ctx, ngx_http_tnt_reset_ctx,
-- ngx_http_tnt_cleanup, and the handlers that reinitialise, abort and finalize a request.
use nginx_upstream_module.Reply.Filter.{Reader, CtxState}
use nginx_upstream_module.Common.{Bytes, ◌++◌, Option, ℕ, none, some, Bool, [], false}
use mathlib.Core.Option

-- The context as a whole. `in_err` is the buffer that holds the text of an error.
pub record Context : Type 0 where
  pub reader : Reader
  pub in_err : Option Bytes
  pub rest_batch_size : ℕ
  pub batch_size : ℕ
  pub greeting : Bool
  pub preset_method : Bytes

-- The bytes of `payload.mem` stay.
abbrev pub reset_reader : Bytes → Reader
reset_reader mem = record {
  state = CtxState.ok;
  got = [];
  stale = mem;
  rest = 0;
  payload_size = 0;
  cache = [];
}

unfoldable pub reset_ctx : Context → Context
reset_ctx ctx = record {
  reader = reset_reader (ctx.reader.got ++ ctx.reader.stale);
  in_err = none;
  rest_batch_size = 0;
  batch_size = 0;
  greeting = false;
  preset_method = [];
}

-- A context with anything in it, as the pool gives it; `none` for want of memory.
unfoldable pub create_ctx : Option Context → Option Context
create_ctx memory = Option.map reset_ctx memory

-- `ctx->tp_cache` is given back.
unfoldable pub cleanup : Option Context → Option Context
cleanup none = none
cleanup (some ctx) = some (record ctx { reader = record (ctx.reader) { cache = [] } })

unfoldable pub reinit_request : Option Context → Option Context
reinit_request none = none
reinit_request (some ctx) = Option.map reset_ctx (cleanup (some ctx))

abbrev pub abort_request : Option Context → Option Context
abort_request ctx = cleanup ctx

abbrev pub finalize_request : Option Context → Option Context
finalize_request ctx = cleanup ctx
