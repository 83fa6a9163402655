-- ===== src/Handlers/Refusals.antt =====
-- Bodies that are and what is answered to them.
use nginx_upstream_module.JsonToTp.State.{wrong_params}
use nginx_upstream_module.Tp.{TpLib}
use nginx_upstream_module.Handlers.Texts.{message_text-set_err}
use nginx_upstream_module.Handlers.Event.{ReadsEvent, event_packet, wakeup-event}
use nginx_upstream_module.JsonToTp.Alloc.{Reallocates}
use nginx_upstream_module.Handlers.Body.{sent, fd_event}
use nginx_upstream_module.Http.Greeting.{process_header, is_ok}
use nginx_upstream_module.Common.{
  ◌∙◌, ◌+◌, ◌*◌, ℕ, Bool, ◌≤◌, Bytes, length, true, ◌++◌, ◌≡◌, arith, some, ◌∷◌, [], List, refl,
  false, codes, none,
}
use nginx_upstream_module.JsonToTp.Codec.{
  Yajl, tp_transcode_init, yajl_json2tp_transcode, is_empty_text,
}
use nginx_upstream_module.Handlers.{Printf, error_head, get_error_text, request_too_large}
use nginx_upstream_module.Handlers.Body.{
  BodyConf, BodyMemory, body_handler, handle_body, with_state, finish_input, read_input, feed_bufs,
  woken,
}
use nginx_upstream_module.Common.Int.{ℤ, minus}
use nginx_upstream_module.Handlers.Errors.{get_error_text-set_err}
use nginx_upstream_module.Reply.Filter.{CtxState, input_to_large, input_json_parse_failed}
use nginx_upstream_module.Handlers.Context.{Context}
use nginx_upstream_module.Handlers.Answer.{Upstream, output_err, Answered}
use nginx_upstream_module.Http.Greeting.{by_state, Processed}
use nginx_upstream_module.Pass.{HttpRequest}
use nginx_upstream_module.Dml.Format.{BodyBuf}
use nginx_upstream_module.JsonToTp.Codec.Text.{all_given}
use nginx_upstream_module.JsonString.RoundTrip.{read_json_string}
use nginx_upstream_module.Handlers.Batches.{IsReady}

module _ (lib : TpLib) (realloc : ℕ → Bool) (yajl : Yajl) (printf : Printf) (conf : BodyConf)
    (mem : BodyMemory) where
  open yajl use {fresh}

  -- The event that wakes the upstream can be sent: there is memory for it, the parser reads its
  -- text, and its packet fits the buffer.
  pub record Wakes (gives : Reallocates realloc) : Type 0 where
    pub buf : mem.wakeup_buf ≡ true
    pub allocs : mem.wakeup ≡ all_given
    pub reads : ReadsEvent yajl
    pub room :
        length (event_packet lib realloc gives yajl) ≤ (length fd_event + 1) * conf.in_multiplier

  -- The buffer of an error, and the context that holds it.
  abbrev pub error_buffer : ℤ → Bytes → Bytes
  error_buffer code rest = error_head (printf.decimal code) ++ rest

  abbrev pub refused_with : CtxState → Bytes → Context → Context
  refused_with state e ctx = record (with_state lib realloc yajl printf conf mem state ctx) {
    in_err = some e;
  }

  -- The answer that the client gets.
  abbrev pub answer : Bytes → Upstream → Upstream
  answer e u = record u {
    status_n = 400;
    state_status = 400;
    content_length_n = length e;
    length_is_zero = true;
    out_bufs = u.out_bufs ++ (e ∷ []);
  }

  -- Whatever the upstream sends back, a context with such a state is answered with an error.
  refused_header :
      (state : CtxState) (greeting : Bool) (reply : Bytes)
      → is_ok state ≡ false
      → by_state state ≡ Processed.output_err
      → (process_header greeting state reply).1 ≡ Processed.output_err
  unfolding process_header
  refused_header state greeting reply bad e = ground arith

  -- The event is sent, and the context stays as it is.
  woken-sent :
      (gives : Reallocates realloc) (ctx : Context) (wakes : Wakes gives)
      → woken lib realloc yajl printf conf mem ctx ≡ sent (event_packet lib realloc gives yajl) ctx
  woken-sent gives ctx wakes =
      wakeup-event lib realloc gives yajl mem.wakeup conf.in_multiplier ctx mem.wakeup_buf wakes.buf
        wakes.allocs wakes.reads wakes.room

  -- With JSON asked for, the memory for it, no request passed on, a code that is printed in at most
  -- seven bytes, and where the event that wakes the upstream can be sent (memory for it, a parser
  -- that reads its text, and a buffer that its packet fits): for a body whose first buffer is in a
  -- file, the handler sends exactly the packet of the event, and leaves a context with which the
  -- header of whatever the upstream sends back is answered with an error of status 400; the body of
  -- this answer is the error buffer, with its length, a JSON text with the code -32001 and the
  -- message on too large requests, which a JSON reader reads back.
  pub body_handler-in_file :
      (gives : Reallocates realloc) (ctx : Context) (r : HttpRequest) (b : BodyBuf)
      (bs : List BodyBuf) (u : Upstream) (reply : Bytes)
      → mem.link ≡ true
      → conf.pass_on ≡ false
      → mem.out_buf ≡ true
      → mem.transcode ≡ all_given
      → mem.error_buf ≡ true
      → Wakes gives
      → conf.pass.parse_urlencoded ≡ false
      → r.request_bufs ≡ b ∷ bs
      → b.in_file ≡ true
      → length (printf.decimal (minus 32001)) ≤ 7
      → (rest : Bytes) × (ctx' : Context) × (read_json_string rest
          ≡ some (
            codes
                "Request is too large, consider increasing your server's setting 'client_body_buffer_size'",
            codes "}}",
          ))
        × (body_handler lib realloc yajl printf conf mem ctx r
            ≡ sent (event_packet lib realloc gives yajl) ctx')
        × ((process_header ctx'.greeting ctx'.reader.state reply).1 ≡ Processed.output_err)
        × (output_err true 400 u ctx'.in_err
            ≡ Answered.ngx_ok (answer (error_buffer (minus 32001) rest) u))
  unfolding get_error_text body_handler handle_body finish_input read_input feed_bufs by_state
      output_err tp_transcode_init
  body_handler-in_file gives ctx r b bs u reply link off out_buf transcode error_buf wakes as_json
        bufs_are in_file few =
      let e = get_error_text-set_err printf request_too_large few in
      let kept = refused_with input_to_large (error_buffer (minus 32001) e.0) ctx in
      let refused : body_handler lib realloc yajl printf conf mem ctx r
          ≡ woken lib realloc yajl printf conf mem kept =
        rw
          (
            body_handler, link, off, handle_body, out_buf, transcode, bufs_are, read_input, as_json,
            feed_bufs, in_file, error_buf, e.1,
          )
          refl in
      (
        e.0,
        kept,
        e.2,
        refused ∙ woken-sent gives kept wakes,
        refused_header input_to_large ctx.greeting reply refl refl,
        refl,
      )

  -- With JSON asked for, the memory for it, no request passed on, no error buffer set, a code that
  -- is printed in at most seven bytes, all buffers in memory, and where the event that wakes the
  -- upstream can be sent (memory for it, a parser that reads its text, and a buffer that its packet
  -- fits): for a body whose first two bytes in memory from the first buffer on, some of which may
  -- lie behind it, are `{}` or `[]`, the handler sends exactly the packet of the event, and leaves
  -- a context with which the header of whatever the upstream sends back is answered with an error
  -- of status 400; the body of this answer is the error buffer, with its length, a JSON text with
  -- the code -32700 and the message on the parameters, which a JSON reader reads back.
  pub body_handler-empty_text :
      (gives : Reallocates realloc) (ctx : Context) (r : HttpRequest) (b : BodyBuf)
      (bs : List BodyBuf) (u : Upstream) (reply : Bytes)
      → IsReady conf mem r b bs
      → conf.pass_on ≡ false
      → ctx.in_err ≡ none
      → mem.error_buf ≡ true
      → Wakes gives
      → is_empty_text (b.bytes ++ b.behind) ≡ true
      → length (printf.decimal (minus 32700)) ≤ 7
      → (rest : Bytes) × (ctx' : Context) × (read_json_string rest
          ≡ some (codes "'params' _must_ be array, 'params' _may_ be an empty array", codes "}}"))
        × (body_handler lib realloc yajl printf conf mem ctx r
            ≡ sent (event_packet lib realloc gives yajl) ctx')
        × ((process_header ctx'.greeting ctx'.reader.state reply).1 ≡ Processed.output_err)
        × (output_err true 400 u ctx'.in_err
            ≡ Answered.ngx_ok (answer (error_buffer (minus 32700) rest) u))
  unfolding body_handler handle_body read_input feed_bufs by_state output_err tp_transcode_init
      yajl_json2tp_transcode finish_input
  body_handler-empty_text gives ctx r b bs u reply i off none_yet error_buf wakes no_text few =
      let e = message_text-set_err printf (minus 32700) wrong_params tt few in
      let kept = refused_with input_json_parse_failed (error_buffer (minus 32700) e.0) ctx in
      let refused : body_handler lib realloc yajl printf conf mem ctx r
          ≡ woken lib realloc yajl printf conf mem kept =
        rw
          (
            body_handler, i.link, off, handle_body, i.out_buf, i.transcode, i.bufs_are, read_input,
            i.as_json, feed_bufs, i.in_memory.0, yajl_json2tp_transcode, no_text, none_yet,
            error_buf, e.1,
          )
          refl in
      (
        e.0,
        kept,
        e.2,
        refused ∙ woken-sent gives kept wakes,
        refused_header input_json_parse_failed ctx.greeting reply refl refl,
        refl,
      )
