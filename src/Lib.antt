-- ===== src/Lib.antt =====
-- tarantool/nginx_upstream_module: an nginx module that turns JSON-RPC requests into requests of
-- Tarantool's binary protocol, and the replies back into JSON.
--
-- The parts of the program, and the files that model them:
--
--   JsonString   src/json_encoders.c and src/json_encoders.h: json_encode_string, append_str,
--                append_ch and char_to_hex. The cursor of the C code is a record of what is
--                written and how much room is left.
--   Tp           src/tp_ext.h: tp_call_wof, tp_call_wof_add_func, tp_call_wof_add_params and
--                tp_encode_str_map_item, on struct tp. third_party/tp.h and msgpuck are
--                libraries that the module only calls; they are the record TpLib, whose laws say
--                what the calls are documented to do. Tp/Sample has an instance.
--   JsonToTp     src/tp_transcode.c: the codec YAJL_JSON_TO_TP. State has the context
--                (yajl_ctx_t) and its stack, Callbacks and Containers the yajl_ callbacks,
--                Machine the callbacks over a sequence of events, Alloc the memory of the stack,
--                Value the JSON values and their MessagePack form, Request the JSON-RPC requests
--                and their packets, Codec the entry points (yajl_json2tp_create,
--                yajl_json2tp_transcode, yajl_json2tp_complete). The parser YAJL is the record
--                Yajl: it is only called.
--   TpToJson     src/tp_transcode.c: the codecs TP_REPLY_TO_JSON and TP_TO_JSON. State has the context
--                (tp2json_t) and its two ways to write, Internal tp2json_transcode_internal, Value the
--                MessagePack values and their JSON text, Codec the entry points. What msgpuck reads is
--                a list of tokens; tp_reply is the record Unpack and "%f" the record Formats. The
--                digits of PRIu64, PRId64 and %zu are written as snprintf is documented to write
--                them; Digits reads them back, and Faults has what is read of a reply with an error.
--                `pos` behind `end` is the outcome `past_end`.
--   Reply        src/ngx_http_tnt_module.c: ngx_http_tnt_filter and what it calls, and
--                tp_read_payload of src/tp_transcode.c. Filter has the code, Reference a reader
--                that takes one byte at a time, Payload, Chunks, Loop and Stream compare the two, Batch
--                has the text that a batch of replies becomes, Answers puts the codec of TpToJson
--                into the filter. msgpuck and the codec of replies are the record Codecs.
--   Url          src/ngx_http_tnt_module.c: ngx_http_tnt_urldecode, ngx_http_tnt_get_next_arg,
--                ngx_http_tnt_encode_query_args and ngx_http_tnt_encode_urlencoded_body, with what
--                they call. A pointer into the query string is an offset.
--   Pass         src/ngx_http_tnt_module.c: ngx_http_tnt_get_request_data and what it calls, as parts
--                that each take a request and a count of items; Query has ngx_http_tnt_query_handler
--                and tp_call_nargs of src/tp_ext.h, with tp_call as the record TpCalls. Writes and
--                Entries say what a part appends, Text and Parts do so for each part, Requests for the
--                whole. A position behind the end of the buffer is the outcome `past_end`.
--   Handlers     src/ngx_http_tnt_module.c: ngx_http_tnt_body_handler in Body, the errors in the
--                root and in Errors, ngx_http_tnt_output_err in Answer, and in Context what happens
--                to ngx_http_tnt_ctx_t over its life. Pieces has bodies in several buffers, Event the
--                text that wakes the upstream, Batches bodies that are sent, Refusals those that are
--                not, Texts what is reported of them, and Retry what the next upstream's reply
--                becomes. A buffer of a body comes with the memory behind it. What `%d` prints
--                is the record Printf.
--   Http         src/ngx_http_tnt_module.c: ngx_http_tnt_set_method and ngx_http_tnt_init_handlers,
--                and in Greeting ngx_http_tnt_read_greeting and ngx_http_tnt_process_header.
--   Dml          src/ngx_http_tnt_module.c: requests to a space by a format. State has the format's
--                values and the part of the configuration that they use, Access
--                ngx_http_tnt_test_allowed and ngx_http_tnt_set_iter_type, Numbers
--                ngx_http_tnt_read_array_of_uint, Compile ngx_http_tnt_format_compile (a text at
--                NULL is the outcome `at_null`), Prepare and Format ngx_http_tnt_format_init,
--                ngx_http_tnt_format_prepare and ngx_http_tnt_format_prepare_kv, Bind
--                ngx_http_tnt_format_bind with its operations. What ngx_atoi, atoi, atoll and atof
--                read and the calls on struct tp are parameters, and so is the memory behind the
--                decoded input, which ngx_http_tnt_set_iter_type may look at, and the bits that
--                ngx_array_push leaves in a new value.
--
-- A request's text goes through JsonToTp, which writes with Tp; the bytes of the upstream's replies
-- go through Reply, which calls the codec of replies, which writes strings with JsonString. Handlers
-- has the handler that takes a body through JsonToTp, and reports what is refused; the map that Pass
-- makes of a request, with the arguments of its URL by Url, is bound to the parameters of its calls.
--
-- A pointer into a buffer is what stands before it and what is free behind it. A crash of the C code
-- (a failed assertion, a write through NULL or out of bounds) is a value of its own, `fault`.
-- Integers of fixed width are natural numbers with their wrap-around written out. The loop of the
-- filter runs on fuel; the bytes of the buffer are enough, since each call takes some. The loop over
-- the arguments of a query string runs on fuel as well; as many steps as arguments are enough.
-- The length of a method's name, an `int` in tp_call_wof_add_func, is taken not to wrap around: names
-- of 2^31 bytes and more are outside of the model.
--
-- The printer of TpToJson runs on fuel too, since it calls itself on what a value leaves of its input;
-- one unit more than tokens is enough.
--
-- The loop over the arguments of a format runs on as much fuel as its input has bytes; each turn
-- takes one at least.
--
-- Not modelled: the parsers of the other directives, which fill nginx's tables, the handler that puts
-- the parts of Dml together, the choice of a codec by its number, and the tools in misc. nginx's
-- pools are taken to give memory where no parameter says so, the values of a format are not read
-- again after ngx_http_tnt_format_bind, and an output buffer of the filter is taken to be large
-- enough.
pub mod Common
pub mod JsonString
pub mod Tp
pub mod JsonToTp
pub mod Reply
pub mod Url
pub mod Http
pub mod TpToJson
pub mod Dml
pub mod Pass
pub mod Handlers
