-- ===== src/Handlers/Retry.antt =====
-- A refused body, and the next upstream that is asked: ngx_http_tnt_reinit_request.

use nginx_upstream_module.Tp.{TpLib}
use nginx_upstream_module.Handlers.Refusals.{Wakes, body_handler-empty_text}
use nginx_upstream_module.Handlers.Event.{event_packet}
use nginx_upstream_module.JsonToTp.Alloc.{Reallocates}
use nginx_upstream_module.Handlers.Body.{sent}
use nginx_upstream_module.Handlers.Context.{reinit_request, cleanup, reset_ctx}
use nginx_upstream_module.Http.Greeting.{IsGreeting, process_header-greeting, process_header}
use nginx_upstream_module.Common.{
  ℕ, Bool, ◌≤◌, Bytes, length, true, ◌++◌, ◌≡◌, some, [], List, refl, false, none, ◌<◌, ap,
}
use nginx_upstream_module.JsonToTp.Codec.{Yajl, is_empty_text}
use nginx_upstream_module.Handlers.{Printf}
use nginx_upstream_module.Handlers.Body.{BodyConf, BodyMemory, body_handler}
use nginx_upstream_module.Common.Int.{minus}
use nginx_upstream_module.Handlers.Context.{Context}
use nginx_upstream_module.Handlers.Answer.{Upstream}
use nginx_upstream_module.Http.Greeting.{Processed}
use nginx_upstream_module.Pass.{HttpRequest}
use nginx_upstream_module.Dml.Format.{BodyBuf}
use nginx_upstream_module.Handlers.Batches.{IsReady}

module _ (lib : TpLib) (realloc : ℕ → Bool) (yajl : Yajl) (printf : Printf) (conf : BodyConf)
    (mem : BodyMemory) where
  -- With JSON asked for, the memory for it, no request passed on, no error buffer set, a code that
  -- is printed in at most seven bytes, all buffers in memory, and where the event can be sent: a
  -- body whose first two bytes in memory are `{}` or `[]` is refused with the event in its place,
  -- and a greeting of 128 bytes with a reply behind it is answered with the error; but once the
  -- context that the refusal left is reinitialised, the error buffer is gone, and the same bytes
  -- begin a chunked answer.
  pub reinit_request-refused :
      (gives : Reallocates realloc) (ctx : Context) (r : HttpRequest) (b : BodyBuf)
      (bs : List BodyBuf) (g reply : Bytes)
      → IsReady conf mem r b bs
      → conf.pass_on ≡ false
      → ctx.in_err ≡ none
      → mem.error_buf ≡ true
      → Wakes lib realloc yajl printf conf mem gives
      → is_empty_text (b.bytes ++ b.behind) ≡ true
      → length (printf.decimal (minus 32700)) ≤ 7
      → IsGreeting g
      → 0 < length reply
      → (ctx' : Context) × (ctx'' : Context) × (body_handler lib realloc yajl printf conf mem ctx r
          ≡ sent (event_packet lib realloc gives yajl) ctx')
        × ((process_header ctx'.greeting ctx'.reader.state (g ++ reply)).1 ≡ Processed.output_err)
        × (reinit_request (some ctx') ≡ some ctx'')
        × ((process_header ctx''.greeting ctx''.reader.state (g ++ reply)).1 ≡ Processed.chunked)
        × (ctx''.in_err ≡ none)
  unfolding reinit_request cleanup reset_ctx
  reinit_request-refused gives ctx r b bs g reply i off none_yet error_buf wakes no_text few
        greeting more =
      let no_answer : Upstream = record {
        status_n = 0;
        state_status = 0;
        content_length_n = 0;
        length_is_zero = false;
        out_bufs = [];
      } in
      let refused =
        body_handler-empty_text lib realloc yajl printf conf mem gives ctx r b bs no_answer
          (g ++ reply) i off none_yet error_buf wakes no_text few in
      (
        refused.1,
        reset_ctx refused.1,
        refused.3,
        refused.4,
        refl,
        ap (λ x. x.1) (process_header-greeting g reply greeting more).1,
        refl,
      )
