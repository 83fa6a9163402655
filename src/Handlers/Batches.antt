-- ===== src/Handlers/Batches.antt =====
-- Bodies that become messages.
use nginx_upstream_module.Handlers.Body.{
  BodyConf, BodyMemory, read_input, bound, kept_bytes, message, handle_body, body_handler,
  finish_input, get_output_size, sent, with_batch, with_map, unless_ok, with_codec,
}
use nginx_upstream_module.Tp.{TpLib}
use nginx_upstream_module.Common.{
  ℕ, Bool, List, ◌≡◌, true, Option, Bytes, false, some, ◌∷◌, none, length, refl, ◌≤◌, arith, ◌∙◌,
  ap, if_true, if_false, ◌++◌,
}
use nginx_upstream_module.Pass.{HttpRequest, Memory, get_request_data_map}
use nginx_upstream_module.Dml.Format.{BodyBuf}
use nginx_upstream_module.JsonToTp.Alloc.{Reallocates}
use nginx_upstream_module.JsonToTp.Codec.{Yajl, tp_transcode_init, is_empty_text}
use nginx_upstream_module.Handlers.{Printf}
use nginx_upstream_module.Handlers.Context.{Context}
use nginx_upstream_module.Reply.Filter.{CtxState}
use nginx_upstream_module.JsonToTp.Codec.Text.{all_given, setting_of, start_ctx, Reads, run-Reads}
use nginx_upstream_module.JsonToTp.Request.{Member, packets}
use nginx_upstream_module.JsonToTp.State.{Ctx, Transcode}
use nginx_upstream_module.Handlers.Pieces.{InMemory, ReadsPieces, body_text, feed_bufs-fresh}
use nginx_upstream_module.JsonToTp.Request.Batch.{TakesEach}
use nginx_upstream_module.Handlers.Errors.{take-all}
use nginx_upstream_module.Url.Form.{Pair}
use nginx_upstream_module.Pass.Text.{enough, IsPassed}
use nginx_upstream_module.Pass.Requests.{request_map, get_request_data_map-request}

-- A body in memory that is read as JSON, with the memory for it.
pub record IsReady (conf : BodyConf) (mem : BodyMemory) (r : HttpRequest) (b : BodyBuf)
    (bs : List BodyBuf) : Type 0 where
  pub link : mem.link ≡ true
  pub out_buf : mem.out_buf ≡ true
  pub transcode : mem.transcode ≡ all_given
  pub as_json : conf.pass.parse_urlencoded ≡ false
  pub bufs_are : r.request_bufs ≡ b ∷ bs
  pub in_memory : InMemory (b ∷ bs)

module _ (lib : TpLib) (realloc : ℕ → Bool) (gives : Reallocates realloc) (yajl : Yajl)
    (printf : Printf) (conf : BodyConf) (mem : BodyMemory) where
  -- The messages for the requests of a body.
  abbrev pub messages : Context → Option Bytes → List (List Member) → Bytes
  messages ctx request_b rs = packets lib (setting_of ctx.preset_method (kept_bytes request_b)) rs

  bound_start :
      (method : Bytes) (size : ℕ) (request_b : Option Bytes)
      → (s : Ctx) × (tp_transcode_init lib all_given method size ≡ some s)
        × (bound lib realloc yajl printf conf mem request_b s
            ≡ start_ctx lib realloc gives yajl method (kept_bytes request_b) size)
  unfolding tp_transcode_init
  bound_start method size none = (_, refl, rw lib.init_law refl)
  bound_start method size (some bytes) = (_, refl, rw lib.init_law refl)

  read_input-message :
      (b : BodyBuf) (bs : List BodyBuf) (method bytes : Bytes) (size : ℕ) (rs : List (List Member))
      → conf.pass.parse_urlencoded ≡ false
      → InMemory (b ∷ bs)
      → is_empty_text (b.bytes ++ b.behind) ≡ false
      → ReadsPieces yajl
      → Reads lib realloc gives yajl (body_text (b ∷ bs)) rs
      → length rs ≤ 16385
      → TakesEach rs
      → length (packets lib (setting_of method bytes) rs) ≤ size
      → (tc : Transcode) × (tc.batch_size ≡ length rs)
        × (read_input lib realloc yajl printf conf mem
              (b ∷ bs)
              (start_ctx lib realloc gives yajl method bytes size)
            ≡ message (packets lib (setting_of method bytes) rs) tc)
  unfolding read_input
  read_input-message b bs method bytes size rs as_json m some_text law reads small takes fits =
      let text = body_text (b ∷ bs) in
      let p = run-Reads lib realloc gives yajl text method bytes size rs reads small takes fits in
      let got =
        feed_bufs-fresh lib realloc yajl bs b (start_ctx lib realloc gives yajl method bytes size)
          p.0 law m refl some_text reads.accepted p.1 in
      let whole = packets lib (setting_of method bytes) rs in
      (p.0.tc, p.4, rw (as_json, got, p.2, p.3, take-all whole (length whole) (omega arith)) refl)

  -- The state of the context is tested behind the message.
  finish_input-message :
      (ctx : Context) (bytes : Bytes) (tc : Transcode)
      → ctx.reader.state ≡ CtxState.ok
      → finish_input lib realloc yajl printf conf mem ctx (message bytes tc)
        ≡ sent bytes (with_batch tc.batch_size ctx)
  unfolding finish_input
  finish_input-message ctx bytes tc ok =
      ap
        (λ state.
          unless_ok lib realloc yajl printf conf mem state (with_batch tc.batch_size ctx) bytes tc)
        ok

  handle_body-message :
      (ctx : Context) (r : HttpRequest) (b : BodyBuf) (bs : List BodyBuf) (rs : List (List Member))
      (request_b : Option Bytes)
      → IsReady conf mem r b bs
      → ctx.reader.state ≡ CtxState.ok
      → is_empty_text (b.bytes ++ b.behind) ≡ false
      → ReadsPieces yajl
      → Reads lib realloc gives yajl (body_text (b ∷ bs)) rs
      → length rs ≤ 16385
      → TakesEach rs
      → length (messages ctx request_b rs) ≤ get_output_size r.content_length_n conf request_b
      → handle_body lib realloc yajl printf conf mem ctx r request_b
        ≡ sent (messages ctx request_b rs) (with_batch (length rs) ctx)
  unfolding handle_body finish_input
  handle_body-message ctx r b bs rs request_b i ok some_text law reads small takes fits =
      let size = get_output_size r.content_length_n conf request_b in
      let start = bound_start ctx.preset_method size request_b in
      let input =
        read_input-message b bs ctx.preset_method (kept_bytes request_b) size rs i.as_json
          i.in_memory some_text law reads small takes fits in
      let go_on = with_codec lib realloc yajl printf conf mem ctx r request_b in
      let finish = finish_input lib realloc yajl printf conf mem ctx in
      let read = read_input lib realloc yajl printf conf mem in
      if_true mem.out_buf _ _ i.out_buf
      ∙ ap (λ a. go_on (tp_transcode_init lib a ctx.preset_method size)) i.transcode
      ∙ ap go_on start.1
      ∙ ap (λ bufs. finish (read bufs (bound lib realloc yajl printf conf mem request_b start.0)))
          i.bufs_are
      ∙ ap (λ s. finish (read (b ∷ bs) s)) start.2
      ∙ ap finish input.2
      ∙ finish_input-message ctx (messages ctx request_b rs) input.0 ok
      ∙ ap (λ n. sent (messages ctx request_b rs) (with_batch n ctx)) input.1

  -- With JSON asked for, the memory for it and no request passed on; in a context whose state is
  -- OK, and where the first two bytes in memory from the first buffer on, some of which may lie
  -- behind it, are neither `[]` nor `{}`; with a body in one or more buffers in memory, whose text
  -- the parser, which reads in pieces, takes for a batch of at most 16385 requests, each with at
  -- least one member, an id of 32 bits and no deeper nesting than 240 containers; and with packets
  -- that fit the output buffer: the handler sends exactly the packets of the requests in order, and
  -- sets the size of the batch where there is more than one.
  pub body_handler-messages :
      (ctx : Context) (r : HttpRequest) (b : BodyBuf) (bs : List BodyBuf) (rs : List (List Member))
      → IsReady conf mem r b bs
      → conf.pass_on ≡ false
      → ctx.reader.state ≡ CtxState.ok
      → is_empty_text (b.bytes ++ b.behind) ≡ false
      → ReadsPieces yajl
      → Reads lib realloc gives yajl (body_text (b ∷ bs)) rs
      → length rs ≤ 16385
      → TakesEach rs
      → length (messages ctx none rs) ≤ get_output_size r.content_length_n conf none
      → body_handler lib realloc yajl printf conf mem ctx r
        ≡ sent (messages ctx none rs) (with_batch (length rs) ctx)
  unfolding body_handler
  body_handler-messages ctx r b bs rs i off ok some_text law reads small takes fits =
      if_true mem.link _ _ i.link
      ∙ if_false conf.pass_on _ _ off
      ∙ handle_body-message ctx r b bs rs none i ok some_text law reads small takes fits

  -- With JSON asked for, the memory for it and the request passed on; on a request whose arguments
  -- are `k=v&k=v`, with keys that have neither `=` nor `&` and values that are not empty and have
  -- no `&`, and whose body is in memory, of the announced length, and of the same form where it is
  -- to be parsed, whose map fits its buffer; in a context whose state is OK, and where the first
  -- two bytes in memory from the first buffer on, some of which may lie behind it, are neither `[]`
  -- nor `{}`; with a body in one or more buffers in memory, whose text the parser, which reads in
  -- pieces, takes for a batch of at most 16385 requests, each with at least one member, an id of 32
  -- bits and no deeper nesting than 240 containers; and with packets that fit the output buffer:
  -- the handler sends exactly the packets of the requests in order, with the map of the request
  -- bound to their parameters, and sets the size of the batch where there is more than one.
  pub body_handler-passed :
      (ctx : Context) (r : HttpRequest) (b : BodyBuf) (bs : List BodyBuf) (rs : List (List Member))
      (args form : List Pair) (text : Bytes)
      → IsReady conf mem r b bs
      → conf.pass_on ≡ true
      → mem.map_buf ≡ true
      → mem.passing ≡ enough
      → IsPassed conf.pass r args form text
      → length (request_map lib conf.pass r args form text) ≤ conf.pass_http_request_buffer_size
      → ctx.reader.state ≡ CtxState.ok
      → is_empty_text (b.bytes ++ b.behind) ≡ false
      → ReadsPieces yajl
      → Reads lib realloc gives yajl (body_text (b ∷ bs)) rs
      → length rs ≤ 16385
      → TakesEach rs
      → length (messages ctx (some (request_map lib conf.pass r args form text)) rs)
        ≤ get_output_size r.content_length_n conf
            (some (request_map lib conf.pass r args form text))
      → body_handler lib realloc yajl printf conf mem ctx r
        ≡ sent
            (messages ctx (some (request_map lib conf.pass r args form text)) rs)
            (with_batch (length rs) ctx)
  unfolding body_handler
  body_handler-passed ctx r b bs rs args form text i on map_buf given passed room ok some_text law
        reads small takes fits =
      let size = conf.pass_http_request_buffer_size in
      let map = λ (m : Memory) (n : Bool).
        with_map lib realloc yajl printf conf mem ctx r
          (get_request_data_map lib conf.pass m r n size) in
      if_true mem.link _ _ i.link
      ∙ if_true conf.pass_on _ _ on
      ∙ ap (λ m. map m mem.map_buf) given
      ∙ ap (map enough) map_buf
      ∙ ap (with_map lib realloc yajl printf conf mem ctx r)
          (get_request_data_map-request lib conf.pass r args form text size passed room)
      ∙ handle_body-message ctx r b bs rs (some (request_map lib conf.pass r args form text)) i ok
          some_text law reads small takes fits
