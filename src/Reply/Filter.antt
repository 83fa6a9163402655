-- ===== src/Reply/Filter.antt =====
-- ngx_http_tnt_filter_init, ngx_http_tnt_filter, ngx_http_tnt_filter_reply and
-- ngx_http_tnt_send_reply, and tp_read_payload of src/tp_transcode.c.
--
-- Memory of nginx's pools is taken to be given, and an output buffer to be large enough.
use nginx_upstream_module.Common.{
  ℕ, zero, suc, ◌+◌, ◌-◌, Bool, true, false, not, ◌&&◌, Option, none, some, List, [], ◌∷◌, ◌++◌,
  Bytes, length, take, drop, ltb, leb, ◌==◌, if◌then◌else◌, ◌||◌,
}
use Prim.Native.Nat.{min}

-- enum ctx_state.
pub data CtxState : Type 0 where
  ok input_json_parse_failed input_to_large input_empty input_fmt_cant_read_input : CtxState
  read_payload read_body send_reply_ : CtxState

-- The functions of msgpuck that read the length of a reply, and the codec TP_REPLY_TO_JSON: the
-- text for the bytes of a reply, `none` on an error.
pub record Codecs : Type 0 where
  pub mp_check : Bytes → Bool
  pub mp_is_uint : Bytes → Bool
  pub mp_decode_uint : Bytes → ℕ
  pub reply_to_json : Bytes → Option Bytes

-- ngx_http_tnt_ctx_t, the part that reads. `payload.mem` up to `payload.e` is `got ++ stale`, with
-- `payload.p` between them; `tp_cache` holds `cache`, and `[]` while it is NULL.
pub record Reader : Type 0 where
  pub state : CtxState
  pub got : Bytes
  pub stale : Bytes
  pub rest : ℕ
  pub payload_size : ℕ
  pub cache : Bytes

-- The part that answers, with the upstream's `out_bufs` and whether its `length` is 0. `in_err`
-- says that an error buffer was set.
pub record Delivery : Type 0 where
  pub batch_size : ℕ
  pub rest_batch_size : ℕ
  pub in_err : Bool
  pub out_bufs : List Bytes
  pub length_is_zero : Bool

pub data Rc : Type 0 where
  ngx_ok ngx_error ngx_again : Rc

abbrev pub is_again : Rc → Bool
is_again ngx_again = true
is_again _ = false

-- ngx_http_tnt_filter_init.
abbrev pub filter_init : Reader → Reader
filter_init r = record r { state = read_payload; payload_size = 0; rest = 0 }

module _ (c : Codecs) where
  -- `none` is -1.
  unfoldable pub tp_read_payload : Bytes → Option ℕ
  tp_read_payload buf =
      if length buf == 0 || ltb (length buf) 4
      then none
      else if not (c.mp_check buf)
      then none
      else if not (c.mp_is_uint buf)
      then none
      else some (c.mp_decode_uint buf + 5)

  -- What stands before and behind a reply in a batch.
  abbrev pub opening : Delivery → Bytes
  opening d = if ltb 0 d.batch_size && d.rest_batch_size == d.batch_size then b'[' ∷ [] else []

  abbrev pub closing : Delivery → Bytes
  closing d =
      if ltb 0 d.batch_size
      then (if d.rest_batch_size == 1
          then b']' ∷ []
          else if leb d.rest_batch_size d.batch_size
          then b',' ∷ []
          else [])
      else []

  -- An empty text is an error of tp2json_complete.
  unfoldable pub send_reply : Delivery → Bytes → Delivery × Rc
  send_reply d reply = elim (c.reply_to_json reply) [
    | none ↦ (d, ngx_error)
    | some json ↦ if length json == 0 then (d, ngx_error) else if d.in_err then (d, ngx_ok) else (
      record d { out_bufs = d.out_bufs ++ ((opening d ++ (json ++ closing d)) ∷ []) },
      ngx_ok,
    )
  ]

  -- `--rest_batch_size`, and the end of the batch; on 0 the int goes to -1 and back to 0.
  abbrev pub count_down : Delivery → Delivery
  count_down d =
      if leb d.rest_batch_size 1
      then record d { length_is_zero = true; rest_batch_size = 0; batch_size = 0 }
      else record d { rest_batch_size = d.rest_batch_size - 1 }

  unfoldable pub deliver : Delivery → Bytes → Delivery
  deliver d reply = count_down (send_reply d reply).0

  -- The reader, the answers, the bytes that are left in the buffer, and the code returned.
  abbrev pub Filtered : Type 0
  Filtered = Reader × Delivery × Bytes × Rc

  -- `if (ctx->state == SEND_REPLY)`. A failed reply is forgotten if more bytes are there.
  unfoldable pub finish_reply : Reader → Delivery → Bytes → Filtered
  finish_reply r d input = (
    record r { state = read_payload; rest = 0; payload_size = 0; cache = [] },
    deliver d r.cache,
    input,
    if ltb 0 (length input) then ngx_again else (send_reply d r.cache).1,
  )

  -- `if (ctx->state == READ_BODY)`, on the bytes that are left.
  unfoldable pub read_reply_body : Reader → Delivery → Bytes → Filtered
  read_reply_body r d input =
      if leb r.rest (length input)
      then finish_reply
          (record r { state = send_reply_; rest = 0; cache = r.cache ++ take r.rest input }) d
          (drop r.rest input)
      else (record r { rest = r.rest - length input; cache = r.cache ++ input }, d, [], ngx_ok)

  -- The length of the reply is there.
  unfoldable pub begin_body : Reader → Delivery → Bytes → Filtered
  begin_body r d input = elim (tp_read_payload (r.got ++ r.stale)) [
    | none ↦ (r, d, input, ngx_error)
    | some size ↦
        read_reply_body
          (record r {
            state = read_body;
            payload_size = size;
            rest = size - 5;
            cache = r.got ++ r.stale;
            got = [];
            stale = r.got ++ r.stale;
          })
          d input
  ]

  -- `if (ctx->state == READ_PAYLOAD)`. With no byte at hand the length counts as read.
  unfoldable pub read_reply_payload : Reader → Delivery → Bytes → Filtered
  read_reply_payload r d input =
      let n = min (length r.stale) (length input) in
      let r' = record r { got = r.got ++ take n input; stale = drop n r.stale } in
      let rest = if ltb 0 n then length (drop n r.stale) else 0 in
      if rest == 0 then begin_body r' d (drop n input) else (r', d, drop n input, ngx_ok)

  unfoldable pub filter_reply_in : CtxState → Reader → Delivery → Bytes → Filtered
  filter_reply_in read_payload r d input = read_reply_payload r d input
  filter_reply_in read_body r d input = read_reply_body r d input
  filter_reply_in send_reply_ r d input = finish_reply r d input
  filter_reply_in _ r d input = (r, d, input, ngx_ok)

  abbrev pub filter_reply : Reader → Delivery → Bytes → Filtered
  filter_reply r d input = filter_reply_in r.state r d input

  -- The loop of ngx_http_tnt_filter, on fuel, and what it returns.
  unfoldable pub filter : ℕ → Reader → Delivery → Bytes → Filtered
  filter zero r d input = (r, d, input, ngx_again)
  filter (suc fuel) r d input =
      let (r', d', input', rc) = filter_reply r d input in
      let more = filter fuel r' d' input' in if is_again rc then more else (r', d', input', rc)
