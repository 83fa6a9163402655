-- ===== src/Handlers/Body.antt =====
-- ngx_http_tnt_body_handler: the JSON of a request's body becomes messages for Tarantool; with
-- ngx_http_tnt_get_output_size, ngx_http_tnt_wakeup_dying_upstream and ngx_http_tnt_send_once.
use nginx_upstream_module.Common.{
  Bool, Bytes, Option, ℕ, [], codes, some, List, ◌+◌, if◌then◌else◌, length, ltb, none, ◌∷◌, ◌*◌,
  ◌%◌, ◌^◌, take,
}
use nginx_upstream_module.Common.Int.{ℤ, pos, negsuc}
use nginx_upstream_module.JsonToTp.State.{
  Message, parser_error, Ctx, Transcode, output_overflow, stack_overflow, wrong_params,
  invalid_json, id_too_large, batch_too_large,
}
use nginx_upstream_module.Tp.{TpLib}
use nginx_upstream_module.Pass.{PassConf, Memory, HttpRequest, Passing, get_request_data_map}
use nginx_upstream_module.Handlers.Context.{Context}
use nginx_upstream_module.Handlers.{
  overhead, Printf, get_error_text, SetErr, set_err, request_too_large, overrun,
}
use nginx_upstream_module.JsonToTp.Codec.{
  Yajl, Allocs, Transcoded, Completed, yajl_json2tp_complete, tp_transcode_init,
  tp_transcode_bind_data, yajl_json2tp_transcode, transcode_error, transcode_ok, tnt_error,
}
use nginx_upstream_module.Reply.Filter.{CtxState, input_json_parse_failed, input_to_large}
use nginx_upstream_module.Dml.Format.{BodyBuf}
use nginx_upstream_module.JsonToTp.Codec.{Completed, Transcoded}

-- What the configuration says, and `NGX_TNT_CONF_ON` of it.
pub record BodyConf : Type 0 where
  pub pass_on : Bool
  pub pass : PassConf
  pub method : Bytes
  pub in_multiplier : ℕ
  pub pass_http_request_buffer_size : ℕ

-- Which allocations succeed.
pub record BodyMemory : Type 0 where
  pub link : Bool
  pub map_buf : Bool
  pub passing : Memory
  pub out_buf : Bool
  pub transcode : Allocs
  pub error_buf : Bool
  pub wakeup_buf : Bool
  pub wakeup : Allocs

-- NGX_OK with what is to be sent, NGX_ERROR, or the end of the process, which a write behind a
-- buffer counts as.
pub data Handled : Type 0 where
  sent : Bytes → Context → Handled
  ngx_error : Handled
  died : Handled

-- A positive length of the body, and the bytes of the map.
abbrev pub clamp : ℤ → ℕ
clamp (pos n) = n
clamp (negsuc n) = 0

abbrev pub kept_bytes : Option Bytes → Bytes
kept_bytes none = []
kept_bytes (some bytes) = bytes

-- `size_t` wraps around.
unfoldable pub get_output_size : ℤ → BodyConf → Option Bytes → ℕ
get_output_size content_length_n conf request_b =
    ((overhead + clamp content_length_n + length conf.method) * (conf.in_multiplier + 20)
      + length (kept_bytes request_b))
    % 2 ^ 64

-- `e->msg` and the texts of src/tp_transcode.c.
abbrev pub message_text : Message → Bytes
message_text output_overflow = codes "[BUG?] 'output' buffer overflow"
message_text stack_overflow = codes "[BUG?] 'stack' overflow"
message_text wrong_params = codes "'params' _must_ be array, 'params' _may_ be an empty array"
message_text invalid_json = codes "invalid json"
message_text id_too_large = codes "'id' _must_ be less than UINT32_t"
message_text batch_too_large = codes "too large batch, max allowed 16384 calls per request"
message_text (parser_error text) = text

-- `if (tc.batch_size > 1)`
abbrev pub with_batch : ℕ → Context → Context
with_batch n ctx = if ltb 1 n then record ctx { rest_batch_size = n; batch_size = n } else ctx

abbrev pub fd_event : Bytes
fd_event = codes "{\"method\":\"__nginx_tnt_event\",\"params\":[]}"

module _ (lib : TpLib) (realloc : ℕ → Bool) (yajl : Yajl) where
  open yajl use {Handle, fresh}

  -- A step of reading input: TP_TRANSCODE_ERROR ends it.
  pub data Fed : Type 0 where
    fed : Ctx → Handle → Fed
    in_file : Ctx → Fed
    parse_failed : Ctx → Fed
    died : Fed

  abbrev pub and_feed : Transcoded lib realloc yajl → (Ctx → Handle → Fed) → Fed
  and_feed Transcoded.crashed next = Fed.died
  and_feed (Transcoded.returned transcode_error s h) next = parse_failed s
  and_feed (Transcoded.returned transcode_ok s h) next = next s h
  and_feed (Transcoded.returned tnt_error s h) next = next s h

  -- The message and the size of its batch, or a failure.
  pub data Input : Type 0 where
    message : Bytes → Transcode → Input
    refused : CtxState → Option Bytes → Transcode → Input
    no_memory : Input
    died : Input

  abbrev pub completed : Completed lib realloc yajl → Input
  completed (Completed.finished n s) = message (take n s.tp.out) s.tc
  completed (Completed.failed s) = refused input_json_parse_failed none s.tc
  completed Completed.died = Input.died

  abbrev pub complete_fed : (Ctx → Input) → Fed → Input
  complete_fed too_large (fed s h) = completed (yajl_json2tp_complete lib realloc yajl s h)
  complete_fed too_large (in_file s) = too_large s
  complete_fed too_large (parse_failed s) = refused input_json_parse_failed none s.tc
  complete_fed too_large Fed.died = Input.died

  abbrev pub sent_once : Context → Input → Handled
  sent_once ctx (message bytes tc) = sent bytes (with_batch tc.batch_size ctx)
  sent_once ctx (refused state e tc) = ngx_error
  sent_once ctx no_memory = ngx_error
  sent_once ctx Input.died = Handled.died

  -- ngx_http_tnt_send_once of a string literal, which has a zero behind it; no text comes from a file here.
  unfoldable pub send_once : Allocs → Context → ℕ → Bytes → Handled
  send_once allocs ctx size text = elim (tp_transcode_init lib allocs [] size) [
    | none ↦ Handled.died
    | some s ↦ sent_once ctx (
        complete_fed (λ s'. no_memory)
          (and_feed (yajl_json2tp_transcode lib realloc yajl s fresh text (0 ∷ [])) fed))
  ]

  -- The size of the event counts the zero behind it.
  unfoldable pub wakeup_dying_upstream : Bool → Allocs → ℕ → Context → Handled
  wakeup_dying_upstream memory allocs in_multiplier ctx =
      if memory
      then send_once allocs ctx ((length fd_event + 1) * in_multiplier) fd_event
      else ngx_error

  unfoldable pub feed_bufs : List BodyBuf → Ctx → Handle → Fed
  feed_bufs [] s h = fed s h
  feed_bufs (b ∷ bs) s h =
      if b.in_file
      then in_file s
      else and_feed (yajl_json2tp_transcode lib realloc yajl s h b.bytes b.behind) (feed_bufs bs)

  module _ (printf : Printf) (conf : BodyConf) (mem : BodyMemory) where
    abbrev pub as_too_large : Transcode → SetErr → Input
    as_too_large tc (SetErr.ngx_ok b) = refused input_to_large (some b) tc
    as_too_large tc SetErr.ngx_error = no_memory
    as_too_large tc overrun = Input.died

    abbrev pub too_large : Ctx → Input
    too_large s =
        let e = get_error_text request_too_large in
        as_too_large s.tc (set_err printf mem.error_buf e.code e.msg)

    unfoldable pub read_input : List BodyBuf → Ctx → Input
    read_input bufs s = complete_fed too_large (
        if conf.pass.parse_urlencoded
        then and_feed
            (yajl_json2tp_transcode lib realloc yajl s fresh (codes "{\"params\":[]}") (0 ∷ [])) fed
        else feed_bufs bufs s fresh)

    abbrev pub woken : Context → Handled
    woken ctx = wakeup_dying_upstream mem.wakeup_buf mem.wakeup conf.in_multiplier ctx

    abbrev pub after_set_err : Context → SetErr → Handled
    after_set_err ctx (SetErr.ngx_ok b) = woken (record ctx { in_err = some b })
    after_set_err ctx SetErr.ngx_error = ngx_error
    after_set_err ctx overrun = Handled.died

    -- Without a message ngx_strlen reads through NULL.
    abbrev pub report : Context → ℤ → Option Message → Handled
    report ctx errcode none = Handled.died
    report ctx errcode (some m) =
        after_set_err ctx (set_err printf mem.error_buf errcode (message_text m))

    abbrev pub with_state : CtxState → Context → Context
    with_state state ctx = record ctx { reader = record (ctx.reader) { state = state } }

    -- `if (ctx->in_err == NULL && …)`
    abbrev pub unreported : Option Bytes → Context → ℤ → Option Message → Handled
    unreported none ctx errcode m = report ctx errcode m
    unreported (some e) ctx errcode m = woken ctx

    -- `if (ctx->state != OK)` behind a message, where the state is the one before the body was read.
    abbrev pub unless_ok : CtxState → Context → Bytes → Transcode → Handled
    unless_ok CtxState.ok ctx bytes tc = sent bytes ctx
    unless_ok state ctx bytes tc = unreported ctx.in_err ctx tc.errcode tc.errmsg

    -- From the end of the message on; `read_input_done` is behind the setting of the state.
    unfoldable pub finish_input : Context → Input → Handled
    finish_input ctx (message bytes tc) =
        unless_ok ctx.reader.state (with_batch tc.batch_size ctx) bytes tc
    finish_input ctx (refused state none tc) =
        unreported ctx.in_err (with_state state ctx) tc.errcode tc.errmsg
    finish_input ctx (refused state (some e) tc) =
        woken (record (with_state state ctx) { in_err = some e })
    finish_input ctx no_memory = ngx_error
    finish_input ctx Input.died = Handled.died

    abbrev pub bound : Option Bytes → Ctx → Ctx
    bound none s = s
    bound (some bytes) s = tp_transcode_bind_data s bytes

    -- The codec is made, the data bound, and the input read.
    abbrev pub with_codec : Context → HttpRequest → Option Bytes → Option Ctx → Handled
    with_codec ctx r request_b none = Handled.died
    with_codec ctx r request_b (some s) =
        finish_input ctx (read_input r.request_bufs (bound request_b s))

    -- The output buffer, and all that is done with it.
    unfoldable pub handle_body : Context → HttpRequest → Option Bytes → Handled
    handle_body ctx r request_b =
        if mem.out_buf
        then with_codec ctx r request_b (
            tp_transcode_init lib mem.transcode ctx.preset_method
              (get_output_size r.content_length_n conf request_b))
        else ngx_error

    abbrev pub with_map : Context → HttpRequest → Passing → Handled
    with_map ctx r (Passing.done tp n) = handle_body ctx r (some tp.out)
    with_map ctx r Passing.ngx_error = ngx_error
    with_map ctx r Passing.died = Handled.died
    with_map ctx r Passing.past_end = Handled.died

    unfoldable pub body_handler : Context → HttpRequest → Handled
    body_handler ctx r =
        if mem.link
        then (if conf.pass_on
            then with_map ctx r (
                get_request_data_map lib conf.pass mem.passing r mem.map_buf
                  conf.pass_http_request_buffer_size)
            else handle_body ctx r none)
        else ngx_error
