-- ===== src/Handlers/Tests.antt =====
-- Bodies that are sent and bodies that are refused, texts of errors, and a context over its life.

use nginx_upstream_module.Common.{
  Bytes, codes, ◌≡◌, length, ◌∷◌, ◌++◌, true, [], arith, refl, Bool, bytes_eq, false, Option, none,
  some, sym, ◌<◌, replicate,
}
use nginx_upstream_module.Common.Int.{ℤ, pos, minus}
use nginx_upstream_module.Dml.Format.{BodyBuf, unparsed_body}
use nginx_upstream_module.Handlers.{
  get_error_text, set_err, dml_handler_fmt_error, SetErr, error_head, error_json,
}
use nginx_upstream_module.Handlers.Body.{get_output_size, body_handler, sent, with_batch}
use nginx_upstream_module.Handlers.Context.{Context, reinit_request}
use nginx_upstream_module.Handlers.Event.{event, event_packet}
use nginx_upstream_module.JsonToTp.Codec.{Yajl}
use nginx_upstream_module.JsonToTp.Request.{request_events}
use nginx_upstream_module.Pass.Requests.{request_map}
use nginx_upstream_module.JsonString.Spelling.{literal, spelled}
use nginx_upstream_module.Pass.Text.{IsPassed}
use nginx_upstream_module.Handlers.Batches.{
  IsReady, messages, body_handler-messages, body_handler-passed,
}
use nginx_upstream_module.Tp.Sample.{sample_lib}
use mathlib.Core.Bool.{true≢false}
use nginx_upstream_module.JsonString.{escaped}
use nginx_upstream_module.JsonString.RoundTrip.{read_json_string}
use nginx_upstream_module.Http.Greeting.{process_header, Processed}
use nginx_upstream_module.Handlers.Errors.{get_error_text-set_err, set_err-cut}
use nginx_upstream_module.Handlers.Answer.{Upstream, output_err, Answered}
use nginx_upstream_module.Handlers.Refusals.{
  error_buffer, answer, Wakes, body_handler-in_file, body_handler-empty_text,
}
use nginx_upstream_module.Handlers.Retry.{reinit_request-refused}
use nginx_upstream_module.Handlers.Sample.{
  body_conf, some_memory, plain_pass, sample_printf, sample_ctx, all_memory,
  some_memory-Reallocates, counting_parser, pair_request, first_buf, pair, pair_text, request_of,
  second_buf, counting_parser-ReadsPieces, pair-Reads, pair-TakesEach,
}

pair-IsReady :
    (on : Bool) → IsReady (body_conf on) all_memory pair_request first_buf (second_buf ∷ [])
pair-IsReady on = record {
  link = refl;
  out_buf = refl;
  transcode = refl;
  as_json = refl;
  bufs_are = refl;
  in_memory = (refl, (refl, tt));
}

abbrev pair_messages : Bool → Option Bytes → Bytes
pair_messages on request_b =
    messages sample_lib some_memory some_memory-Reallocates counting_parser sample_printf
      (body_conf on) all_memory sample_ctx request_b pair

body_handler-messages_example :
    body_handler sample_lib some_memory counting_parser sample_printf
      (body_conf false)
      all_memory
      sample_ctx
      pair_request
    ≡ sent (pair_messages false none) (with_batch 2 sample_ctx)
unfolding get_output_size bytes_eq
body_handler-messages_example =
    body_handler-messages sample_lib some_memory some_memory-Reallocates counting_parser
      sample_printf (body_conf false) all_memory sample_ctx pair_request first_buf (second_buf ∷ [])
      pair (pair-IsReady false) refl refl refl counting_parser-ReadsPieces pair-Reads (omega arith)
      pair-TakesEach (omega arith)

pair-IsPassed : IsPassed plain_pass pair_request [] [] pair_text
unfolding unparsed_body
pair-IsPassed = record {
  args_are = refl;
  args_law = tt;
  body_is = refl;
  length_is = λ e. refl;
  form_is = λ e. absurd (true≢false (sym e));
  form_law = tt;
}

abbrev pair_map : Bytes
pair_map = request_map sample_lib plain_pass pair_request [] [] pair_text

body_handler-passed_example :
    body_handler sample_lib some_memory counting_parser sample_printf
      (body_conf true)
      all_memory
      sample_ctx
      pair_request
    ≡ sent (pair_messages true (some pair_map)) (with_batch 2 sample_ctx)
unfolding get_output_size bytes_eq
body_handler-passed_example =
    body_handler-passed sample_lib some_memory some_memory-Reallocates counting_parser sample_printf
      (body_conf true) all_memory sample_ctx pair_request first_buf (second_buf ∷ []) pair [] []
      pair_text (pair-IsReady true) refl refl refl pair-IsPassed (omega arith) refl refl
      counting_parser-ReadsPieces pair-Reads (omega arith) pair-TakesEach (omega arith)

get_error_text-set_err_example :
    (rest : Bytes) × (set_err sample_printf true
        (pos 400)
        (get_error_text dml_handler_fmt_error).msg
      ≡ SetErr.ngx_ok (error_head (codes "-32001") ++ rest))
    × (read_json_string rest ≡ some ((get_error_text dml_handler_fmt_error).msg, codes "}}"))
unfolding get_error_text
get_error_text-set_err_example =
    get_error_text-set_err sample_printf dml_handler_fmt_error (omega arith)

abbrev quoted : Bytes
quoted = codes "say \"no\""

set_err-cut_example :
    (out : Bytes) × (set_err sample_printf true (minus 32001) quoted ≡ SetErr.ngx_ok out)
    × (length out ≡ 47)
    × (length out < length (error_json (codes "-32001") (literal true quoted)))
unfolding literal spelled escaped
set_err-cut_example = set_err-cut sample_printf (minus 32001) quoted (omega arith) (omega arith)

-- A parser that knows the text of the event.
abbrev event_parser : Yajl
event_parser = record {
  Handle = Bool;
  fresh = false;
  events = λ h input. request_events event [];
  well_formed = λ h input. true;
  after = λ h input. true;
  last_events = λ h. [];
  complete = λ h. h;
  error_text = λ h input. [];
}

event-Wakes :
    Wakes sample_lib some_memory event_parser sample_printf
      (body_conf false)
      all_memory
      some_memory-Reallocates
event-Wakes = record {
  buf = refl;
  allocs = refl;
  reads = record { events_are = refl; accepted = refl; no_more = refl; completed = refl };
  room = omega arith;
}

abbrev stored_buf : BodyBuf
stored_buf = record { in_file = true; bytes = []; behind = [] }

-- One bracket, with the other behind the buffer.
abbrev bracket_buf : BodyBuf
bracket_buf = record { in_file = false; bytes = codes "["; behind = codes "]" }

abbrev fresh_upstream : Upstream
fresh_upstream = record {
  status_n = 0;
  state_status = 0;
  content_length_n = 0;
  length_is_zero = false;
  out_bufs = [];
}

abbrev sample_event : Bytes
sample_event = event_packet sample_lib some_memory some_memory-Reallocates event_parser

abbrev sample_answer : ℤ → Bytes → Upstream
sample_answer code rest =
    answer sample_lib some_memory event_parser sample_printf (body_conf false) all_memory
      (error_buffer sample_lib some_memory event_parser sample_printf (body_conf false) all_memory
        code rest)
      fresh_upstream

body_handler-in_file_example :
    (rest : Bytes) × (ctx : Context) × (read_json_string rest
      ≡ some (
        codes
            "Request is too large, consider increasing your server's setting 'client_body_buffer_size'",
        codes "}}",
      ))
    × (body_handler sample_lib some_memory event_parser sample_printf
          (body_conf false)
          all_memory
          sample_ctx
          (request_of stored_buf [])
        ≡ sent sample_event ctx)
    × ((process_header ctx.greeting ctx.reader.state (codes "Tarantool")).1 ≡ Processed.output_err)
    × (output_err true 400 fresh_upstream ctx.in_err
        ≡ Answered.ngx_ok (sample_answer (minus 32001) rest))
body_handler-in_file_example =
    body_handler-in_file sample_lib some_memory event_parser sample_printf (body_conf false)
      all_memory some_memory-Reallocates sample_ctx (request_of stored_buf []) stored_buf []
      fresh_upstream (codes "Tarantool") refl refl refl refl refl event-Wakes refl refl refl
      (omega arith)

body_handler-empty_text_example :
    (rest : Bytes) × (ctx : Context) × (read_json_string rest
      ≡ some (codes "'params' _must_ be array, 'params' _may_ be an empty array", codes "}}"))
    × (body_handler sample_lib some_memory event_parser sample_printf
          (body_conf false)
          all_memory
          sample_ctx
          (request_of bracket_buf [])
        ≡ sent sample_event ctx)
    × ((process_header ctx.greeting ctx.reader.state (codes "Tarantool")).1 ≡ Processed.output_err)
    × (output_err true 400 fresh_upstream ctx.in_err
        ≡ Answered.ngx_ok (sample_answer (minus 32700) rest))
unfolding bytes_eq
body_handler-empty_text_example =
    body_handler-empty_text sample_lib some_memory event_parser sample_printf (body_conf false)
      all_memory some_memory-Reallocates sample_ctx (request_of bracket_buf []) bracket_buf []
      fresh_upstream (codes "Tarantool")
      (record {
        link = refl;
        out_buf = refl;
        transcode = refl;
        as_json = refl;
        bufs_are = refl;
        in_memory = (refl, tt);
      })
      refl refl refl event-Wakes refl (omega arith)

reinit_request-refused_example :
    (ctx : Context) × (ctx' : Context) × (body_handler sample_lib some_memory event_parser
        sample_printf
        (body_conf false)
        all_memory
        sample_ctx
        (request_of bracket_buf [])
      ≡ sent sample_event ctx)
    × ((process_header ctx.greeting ctx.reader.state
          ((codes "Tarantool" ++ replicate 119 32) ++ (1 ∷ []))).1
        ≡ Processed.output_err)
    × (reinit_request (some ctx) ≡ some ctx')
    × ((process_header ctx'.greeting ctx'.reader.state
          ((codes "Tarantool" ++ replicate 119 32) ++ (1 ∷ []))).1
        ≡ Processed.chunked)
    × (ctx'.in_err ≡ none)
unfolding bytes_eq
reinit_request-refused_example =
    reinit_request-refused sample_lib some_memory event_parser sample_printf (body_conf false)
      all_memory some_memory-Reallocates sample_ctx (request_of bracket_buf []) bracket_buf []
      (codes "Tarantool" ++ replicate 119 32) (1 ∷ [])
      (record {
        link = refl;
        out_buf = refl;
        transcode = refl;
        as_json = refl;
        bufs_are = refl;
        in_memory = (refl, tt);
      })
      refl refl refl event-Wakes refl (omega arith) (record { size = refl; name = refl })
      (omega arith)
