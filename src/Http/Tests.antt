-- ===== src/Http/Tests.antt =====
-- A request for `/call/more`, and a greeting of 128 bytes.
use nginx_upstream_module.Common.{
  refl, ◌++◌, Bytes, ◌≤◌, bytes_eq, codes, [], true, replicate, false, ◌≡◌, some, ◌∷◌, arith,
  length,
}
use nginx_upstream_module.Reply.Filter.{CtxState, ngx_ok, ngx_again}
use nginx_upstream_module.Http.Greeting.{returned, chunked, process_header, process_header-greeting}
use nginx_upstream_module.Http.{
  create_request_for, set_method, Incoming, init_handlers, set_from_segment, before_slash, handled,
  body_handler,
}
use nginx_upstream_module.Http.Handlers.{length-init_handlers}
use nginx_upstream_module.Http.Method.{set_method-segment}

abbrev call_segment : Bytes
call_segment = codes "call"

set_method-segment_example :
    (set_method [] true (codes "/call") ≡ some call_segment)
    × (set_method [] true (codes "/call/more") ≡ some call_segment)
set_method-segment_example =
    set_method-segment call_segment (codes "more")
      (record { not_unset = refl; no_slash = (refl, (refl, (refl, (refl, tt)))) })

abbrev call_request : Incoming
call_request = record {
  method = [];
  rest = true;
  req_type = 0;
  pass_body = false;
  uri = codes "/call";
  content_type = [];
  has_content = true;
}

call_request-init_handlers : init_handlers true call_request ≡ handled body_handler call_segment
unfolding init_handlers create_request_for set_method set_from_segment before_slash
call_request-init_handlers = refl

length-init_handlers_example : length call_segment ≤ 127
length-init_handlers_example =
    length-init_handlers true call_request body_handler call_segment call_request-init_handlers

abbrev hello : Bytes
hello = codes "Tarantool" ++ replicate 119 32

process_header-greeting_example :
    (process_header false CtxState.ok hello
      ≡ (record { greeting = false; pos = 128; rc = ngx_again }, returned ngx_again))
    × (process_header false CtxState.ok (hello ++ (1 ∷ []))
        ≡ (record { greeting = true; pos = 128; rc = ngx_ok }, chunked))
unfolding bytes_eq
process_header-greeting_example =
    process_header-greeting hello (1 ∷ []) (record { size = refl; name = refl }) (omega arith)
